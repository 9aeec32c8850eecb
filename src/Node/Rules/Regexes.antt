-- ===== src/Node/Rules/Regexes.antt =====
-- pkg/node/rules.go: the cache of compiled patterns, for a compiler that is given.

-- The bytes of a text in UTF-8, which `len` counts.
use nitella.Base.{
  ℕ, zero, suc, ◌+◌, ◌-◌, ◌≤◌, ◌<◌, String, ◌≡◌, refl, sym, ◌∙◌, ◌⊎◌, inl, inr, Option, none, some,
  List, [], ◌∷◌, arith, ltb, leb, if◌then◌else◌, str_eq, str_eq_iff, codes, Bool-cases,
  Option-cases,
}
use nitella.Base.Map
use nitella.Base.Map.{
  Map, lookup-insert, lookup-erase, lookup-retain, lookup-insert_self, lookup-insert_ne,
  lookup-erase_self, lookup-erase_ne,
}

abbrev utf8_size : ℕ → ℕ
utf8_size c = if ltb c 0x80 then 1 else if ltb c 0x800 then 2 else if ltb c 0x10000 then 3 else 4

unfoldable pub byte_length : List ℕ → ℕ
byte_length [] = 0
byte_length (c ∷ cs) = utf8_size c + byte_length cs

-- `MaxRegexLength`
abbrev pub max_regex_length : ℕ
max_regex_length = 256

-- `MaxRegexCacheSize`
abbrev pub max_regex_cache_size : ℕ
max_regex_cache_size = 1000

-- The deletion of the first keys that the map yields.
unfoldable pub evict : {V : Type 0} → ℕ → Map V → Map V
evict zero m = m
evict (suc n) [] = []
evict (suc n) (_ ∷ m) = evict n m

module _ {Regex : Type 0} (compile_posix : String → Option Regex) where
  abbrev pub make_room : Map (Option Regex) → Map (Option Regex)
  make_room cache = if leb max_regex_cache_size (Map.size cache) then evict 500 cache else cache

  -- `getCompiledRegex`: a pattern that does not compile is stored as nil.
  unfoldable pub get_compiled_regex :
      Map (Option Regex) → String → Map (Option Regex) × Option Regex
  get_compiled_regex cache pattern =
      if ltb max_regex_length (byte_length (codes pattern))
      then (cache, none)
      else elim (Map.lookup pattern cache) [
        | some re ↦ (cache, re)
        | none ↦
            (Map.insert pattern (compile_posix pattern) (make_room cache), compile_posix pattern)
      ]

  -- What the cache stores is what the compiler makes of its key, and there is not too much of it.
  pub record IsSound (cache : Map (Option Regex)) : Type 0 where
    pub distinct : Map.IsDistinct cache
    pub compiled :
        (p : String) (re : Option Regex) → Map.lookup p cache ≡ some re → re ≡ compile_posix p
    pub bounded : Map.size cache ≤ max_regex_cache_size

  -- What a pattern stands for, with no cache.
  abbrev pub meaning : String → Option Regex
  meaning pattern =
      if ltb max_regex_length (byte_length (codes pattern)) then none else compile_posix pattern

evict-size : {V : Type 0} → (n : ℕ) (m : Map V) → Map.size (evict n m) ≡ Map.size m - n
unfolding evict
evict-size zero m = omega arith
evict-size (suc n) [] = omega arith
evict-size (suc n) (_ ∷ m) = omega (arith, evict-size n m)

lookup-evict :
    {V : Type 0}
    → (n : ℕ) (m : Map V) (p : String) → Map.IsDistinct m
    → (Map.lookup p (evict n m) ≡ none) ⊎ (Map.lookup p (evict n m) ≡ Map.lookup p m)
unfolding evict Map.lookup
lookup-evict zero m p d = inr refl
lookup-evict (suc n) [] p d = inr refl
lookup-evict (suc n) ((k, v) ∷ m) p d = grind (arith, lookup-evict n m p d.1, str_eq_iff k p)

evict-IsDistinct :
    {V : Type 0} → (n : ℕ) (m : Map V) → Map.IsDistinct m → Map.IsDistinct (evict n m)
unfolding evict
evict-IsDistinct zero m d = d
evict-IsDistinct (suc n) [] d = tt
evict-IsDistinct (suc n) (_ ∷ m) d = evict-IsDistinct n m d.1

module _ {Regex : Type 0} (compile_posix : String → Option Regex) where
  store-IsSound :
      (cache : Map (Option Regex)) (pattern : String)
      → IsSound compile_posix cache
      → Map.size cache < max_regex_cache_size
      → IsSound compile_posix (Map.insert pattern (compile_posix pattern) cache)
  store-IsSound cache pattern s room = record {
    distinct = Map.insert-IsDistinct pattern (compile_posix pattern) cache s.distinct;
    compiled = λ p re h. elim (Bool-cases (str_eq pattern p)) [
      | inl e ↦
          grind (arith, lookup-insert pattern p (compile_posix pattern) cache, str_eq_iff pattern p)
      | inr e ↦
          s.compiled p re (grind (arith, lookup-insert pattern p (compile_posix pattern) cache))
    ];
    bounded = omega (arith, Map.size-insert-le pattern (compile_posix pattern) cache);
  }

module _ {Regex : Type 0} (compile_posix : String → Option Regex) (cache : Map (Option Regex)) where
  make_room-IsSound :
      IsSound compile_posix cache
      → IsSound compile_posix (make_room compile_posix cache)
        × (Map.size (make_room compile_posix cache) < max_regex_cache_size)
  make_room-IsSound s = elim (Bool-cases (leb max_regex_cache_size (Map.size cache))) [
    | inl full ↦ rw full (
      record {
        distinct = evict-IsDistinct 500 cache s.distinct;
        compiled = λ p re h. elim (lookup-evict 500 cache p s.distinct) [
          | inl gone ↦ cc (gone, h)
          | inr kept ↦ s.compiled p re (sym kept ∙ h)
        ];
        bounded = omega (arith, evict-size 500 cache, s.bounded);
      },
      omega (arith, evict-size 500 cache, s.bounded),
    )
    | inr room ↦ rw room (s, ground arith)
  ]

  -- A pattern that is asked for is what the compiler makes of it, whether it is taken from the cache,
  -- compiled or refused for its length, and the cache stays sound and holds 1000 patterns at most.
  pub get_compiled_regex-IsSound :
      (pattern : String)
      → IsSound compile_posix cache
      → ((get_compiled_regex compile_posix cache pattern).1 ≡ meaning compile_posix pattern)
        × IsSound compile_posix (get_compiled_regex compile_posix cache pattern).0
  unfolding get_compiled_regex
  get_compiled_regex-IsSound pattern s =
      elim (Bool-cases (ltb max_regex_length (byte_length (codes pattern)))) [
        | inl long ↦ rw long (refl, s)
        | inr short ↦ elim (Option-cases (Map.lookup pattern cache)) [
          | inl e ↦
              let (sound, room) = make_room-IsSound s in
              rw (short, e, get_compiled_regex)
                (
                  refl,
                  store-IsSound compile_posix (make_room compile_posix cache) pattern sound room,
                )
          | inr (re, e) ↦ rw (short, e, get_compiled_regex) (s.compiled pattern re e, s)
        ]
      ]
