-- ===== src/Node/Rules/Times.antt =====
-- pkg/node/rules.go: `matchTimeRange` at a minute of the day, `parseTime` and `parseIntSafe`. An int is 64
-- bits wide and kept as its bit pattern, so one test refuses what is too large and what is negative.

-- `unicode.IsSpace`
use nitella.Base.{
  ◌^◌, ℕ, ◌+◌, ◌-◌, ◌*◌, ◌/◌, ◌%◌, ◌<◌, String, ◌≡◌, Bool, false, ◌&&◌, ◌||◌, Option, none, some,
  List, [], ◌∷◌, ◌++◌, arith, ltb, leb, ◌==◌, if◌then◌else◌, codes, split_on, is_digit,
}

abbrev pub is_space : ℕ → Bool
is_space c =
    leb 9 c && leb c 13
    || c == 32
    || c == 0x85
    || c == 0xa0
    || c == 0x1680
    || leb 0x2000 c && leb c 0x200a
    || c == 0x2028
    || c == 0x2029
    || c == 0x202f
    || c == 0x205f
    || c == 0x3000

unfoldable pub trim_left : List ℕ → List ℕ
trim_left [] = []
trim_left (c ∷ cs) = let rest = trim_left cs in if is_space c then rest else c ∷ cs

unfoldable pub trim_right : List ℕ → List ℕ
trim_right [] = []
trim_right (c ∷ cs) = elim (trim_right cs) [
  | [] ↦ if is_space c then [] else c ∷ []
  | d ∷ ds ↦ c ∷ d ∷ ds
]

-- `strings.TrimSpace`
abbrev pub trim : List ℕ → List ℕ
trim s = trim_right (trim_left s)

-- `parseIntSafe`: what is not a digit is passed over.
unfoldable pub parse_int_safe : ℕ → List ℕ → ℕ
parse_int_safe acc [] = acc
parse_int_safe acc (c ∷ cs) =
    parse_int_safe (if is_digit c then (acc * 10 + (c - b'0')) % 2 ^ 64 else acc) cs

abbrev pub clock : ℕ → ℕ → Option ℕ
clock h m = if ltb 23 h || ltb 59 m then none else some (h * 60 + m)

time_of : List (List ℕ) → Option ℕ
time_of (h ∷ m ∷ []) = clock (parse_int_safe 0 h) (parse_int_safe 0 m)
time_of _ = none

-- `parseTime`
unfoldable pub parse_time : List ℕ → Option ℕ
unfolding time_of
parse_time s = time_of (split_on b':' (trim s))

-- Both ends are in the range; one that starts after its end goes on over midnight.
unfoldable pub in_range : Option ℕ → Option ℕ → ℕ → Bool
in_range (some start) (some end) current =
    if leb start end
    then leb start current && leb current end
    else leb start current || leb current end
in_range _ _ current = false

range_of : List (List ℕ) → ℕ → Bool
range_of (start ∷ end ∷ []) current = in_range (parse_time start) (parse_time end) current
range_of _ current = false

-- `matchTimeRange`
unfoldable pub match_time_range : String → ℕ → Bool
unfolding range_of
match_time_range value current = range_of (split_on b'-' (codes value)) current

-- The text of a time of the day, and of a range.
abbrev pub time_text : ℕ → ℕ → List ℕ
time_text h m = (b'0' + h / 10) ∷ (b'0' + h % 10) ∷ b':' ∷ (b'0' + m / 10) ∷ (b'0' + m % 10) ∷ []

split_time :
    (h m : ℕ)
    → h < 24
    → m < 60
    → split_on b':' (time_text h m)
      ≡ ((b'0' + h / 10) ∷ (b'0' + h % 10) ∷ []) ∷ ((b'0' + m / 10) ∷ (b'0' + m % 10) ∷ []) ∷ []
unfolding split_on
split_time h m l k = ground arith

trim_time : (h m : ℕ) → h < 24 → m < 60 → trim (time_text h m) ≡ time_text h m
unfolding trim_left trim_right
trim_time h m l k = ground arith

two_digits : (n : ℕ) → n < 100 → parse_int_safe 0 ((b'0' + n / 10) ∷ (b'0' + n % 10) ∷ []) ≡ n
unfolding parse_int_safe
two_digits n l = ground arith

-- A time of the day is read back from its text.
pub parse_time-time_text :
    (h m : ℕ) → h < 24 → m < 60 → parse_time (time_text h m) ≡ some (h * 60 + m)
unfolding parse_time
parse_time-time_text h m l k =
    rw
      (
        trim_time h m l k,
        split_time h m l k,
        two_digits h (omega arith),
        two_digits m (omega arith),
      )
      (ground arith)

split_range :
    (h m h' m' : ℕ)
    → h < 24
    → m < 60
    → h' < 24
    → m' < 60
    → split_on b'-' (time_text h m ++ (b'-' ∷ time_text h' m'))
      ≡ time_text h m ∷ time_text h' m' ∷ []
unfolding split_on
split_range h m h' m' l k l' k' = ground arith

in_range_cyclic :
    (start end current : ℕ)
    → start < 1440
    → end < 1440
    → current < 1440
    → in_range (some start) (some end) current
      ≡ leb ((current + 1440 - start) % 1440) ((end + 1440 - start) % 1440)
unfolding in_range
in_range_cyclic start end current l k j = ground arith

-- A range "HH:MM-HH:MM" matches exactly in the minutes that one passes on the way from its start to its
-- end, both included, over midnight if need be.
pub match_time_range-time_text :
    (value : String) (h m h' m' current : ℕ)
    → codes value ≡ time_text h m ++ (b'-' ∷ time_text h' m')
    → h < 24
    → m < 60
    → h' < 24
    → m' < 60
    → current < 24 * 60
    → match_time_range value current
      ≡ leb ((current + 1440 - (h * 60 + m)) % 1440) ((h' * 60 + m' + 1440 - (h * 60 + m)) % 1440)
unfolding match_time_range
match_time_range-time_text value h m h' m' current e l k l' k' j =
    rw
      (
        e,
        split_range h m h' m' l k l' k',
        parse_time-time_text h m l k,
        parse_time-time_text h' m' l' k',
      )
      (in_range_cyclic (h * 60 + m) (h' * 60 + m') current (omega arith) (omega arith) j)
