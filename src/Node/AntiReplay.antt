-- ===== src/Node/AntiReplay.antt =====
-- pkg/node/antireplay.go: the check that a command is fresh, trusted and new. Times are nanoseconds
-- since 1970; a command's timestamp is a signed number of seconds, as the sender chose it,
-- and may be beyond what a `time.Time` or a Duration holds. Twice the maximal age is taken to fit in a Duration.
pub mod Replay
pub mod Acceptance
mod Examples
use nitella.Base.{
  ◌^◌, ℕ, zero, suc, ◌+◌, ◌-◌, ◌*◌, ◌/◌, ◌%◌, ◌≤◌, ◌<◌, min, max, String, ◌≡◌, refl, sym, ap, ◌∙◌,
  ◌≢◌, ◌↔◌, ◌⊎◌, inl, inr, Bool, true, false, not, ◌&&◌, ◌||◌, Option, none, some, List, [], ◌∷◌,
  ◌++◌, map, arith, ltb, leb, ◌==◌, if◌then◌else◌, length, get_or, any-perm, any, all, All, str_eq,
  str_eq_iff, codes, concat, concat_cancel_left, concat_assoc, concat_apart, codes-concat,
  codes-injective, IsFree, separator_cancel, separator-IsFree, cut, split_on, is_digit, includes,
  Bool-cases, Option-cases, ◌>>=◌,
}
use nitella.Base.Map
use nitella.Base.Map.{
  Map, lookup-insert, lookup-erase, lookup-retain, lookup-insert_self, lookup-insert_ne,
  lookup-erase_self, lookup-erase_ne,
}
use nitella.Base.Int.{ℤ, pos, negsuc, pos_part, neg_part, sub_ℕ, ltb_ℤ}
use nitella.Node.RateLimit.{second}

pub data Error : Type 0 where
  in_the_future expired untrusted replayed : Error

pub record AntiReplayCache : Type 0 where
  pub seen : Map ℕ
  pub max_age : ℕ
  pub trusted_fingerprint : String

unfoldable pub new_cache : ℕ → String → AntiReplayCache
new_cache max_age fingerprint = record {
  seen = [];
  max_age = max_age;
  trusted_fingerprint = fingerprint;
}

-- One round of `cleanupLoop`.
unfoldable pub cleanup : AntiReplayCache → ℕ → AntiReplayCache
cleanup c now = record c { seen = Map.retain (λ ts. not (ltb (c.max_age * 2) (now - ts))) c.seen }

abbrev pub max_skew : ℕ
max_skew = 30 * second

-- `Sub` stops at the greatest and at the least Duration.
abbrev pub saturate : ℤ → ℤ
saturate (pos n) = pos (min n (2 ^ 63 - 1))
saturate (negsuc n) = negsuc (min n (2 ^ 63 - 1))

-- `time.Unix(timestamp, 0)`, in seconds since 1970: the 64-bit number that a time keeps counts from year 1 and wraps.
unfoldable pub unix : ℤ → ℤ
unix (pos n) = if ltb (n + 62135596800) (2 ^ 63) then pos n else sub_ℕ n (2 ^ 64)
unix (negsuc n) = negsuc n

-- `now.Sub(time.Unix(timestamp, 0))`
abbrev pub age : ℕ → ℤ → ℤ
age now timestamp =
    let t = unix timestamp in saturate (sub_ℕ (now + neg_part t * second) (pos_part t * second))

-- `-age` of an age below 0: the negation of the least Duration is that Duration again.
abbrev pub negated : ℕ → ℤ
negated n = if n + 1 == 2 ^ 63 then negsuc n else pos (n + 1)

-- The first check: too far in the future, or too old.
abbrev pub age_error : ℕ → ℤ → Option Error
age_error max_age (negsuc n) = if ltb_ℤ (pos max_skew) (negated n) then some in_the_future else none
age_error max_age (pos n) = if ltb max_age n then some expired else none

-- The third check, and the entry that a command which passes it leaves.
unfoldable pub check_seen : AntiReplayCache → String → ℕ → AntiReplayCache × Option Error
check_seen c id now = elim (Map.lookup id c.seen) [
  | some _ ↦ (c, some replayed)
  | none ↦ (record c { seen = Map.insert id now c.seen }, none)
]

-- `ValidateCommand`
unfoldable pub validate_command :
    AntiReplayCache → String → ℤ → String → ℕ → AntiReplayCache × Option Error
unfolding check_seen
validate_command c id timestamp sender now = elim (age_error c.max_age (age now timestamp)) [
  | some e ↦ (c, some e)
  | none ↦
      if not (str_eq c.trusted_fingerprint "") && not (str_eq sender c.trusted_fingerprint)
      then (c, some untrusted)
      else check_seen c id now
]

unfoldable pub set_trusted_fingerprint : AntiReplayCache → String → AntiReplayCache
set_trusted_fingerprint c fingerprint = record c { trusted_fingerprint = fingerprint }

-- `Stats`
unfoldable pub stats : AntiReplayCache → ℕ
stats c = Map.size c.seen
