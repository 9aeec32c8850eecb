-- ===== src/Node/Rules/Texts.antt =====
-- pkg/node/rules.go: `matchString`. What a compiled pattern makes of a text within 100 ms is given, `none`
-- if it takes longer.
use nitella.Base.{
  String, ◌≡◌, refl, sym, ap, ◌∙◌, inl, inr, Bool, true, false, Option, none, some, List, [], ◌∷◌,
  if◌then◌else◌, any, str_eq, codes, includes, Bool-cases,
}
use nitella.Base.Map.{Map}
use nitella.Net
use nitella.Net.Parse.{parse_ip, parse_cidr}
use nitella.Node.Rules.Regexes.{get_compiled_regex, IsSound, meaning, get_compiled_regex-IsSound}

pub data Operator : Type 0 where
  unspecified : Operator
  eq : Operator
  contains : Operator
  regex : Operator
  cidr : Operator

-- A network and an address that may be missing: a nil address is in no network.
unfoldable pub in_network : String → String → Bool
in_network target actual = elim (parse_cidr target) [
  | none ↦ false
  | some net ↦ elim (parse_ip actual) [ none ↦ false | some ip ↦ Net.contains net ip ]
]

abbrev pub or_false : Option Bool → Bool
or_false none = false
or_false (some b) = b

module _ {Regex : Type 0} (compile_posix : String → Option Regex)
    (match_text : Regex → String → Option Bool) where
  abbrev pub regex_answer : Option Regex → String → Bool
  regex_answer none actual = false
  regex_answer (some re) actual = or_false (match_text re actual)

  -- `matchString`
  unfoldable pub match_string :
      Map (Option Regex) → Operator → String → String → Map (Option Regex) × Bool
  match_string cache unspecified target actual = (cache, false)
  match_string cache eq target actual = (cache, str_eq target actual)
  match_string cache contains target actual = (cache, includes (codes actual) (codes target))
  match_string cache regex target actual =
      let (cache', re) = get_compiled_regex compile_posix cache target in
      (cache', regex_answer re actual)
  match_string cache cidr target actual = (cache, in_network target actual)

  -- Whether a text satisfies an operator, with no cache.
  unfoldable pub satisfies : Operator → String → String → Bool
  satisfies unspecified target actual = false
  satisfies eq target actual = str_eq target actual
  satisfies contains target actual = includes (codes actual) (codes target)
  satisfies regex target actual = regex_answer (meaning compile_posix target) actual
  satisfies cidr target actual = in_network target actual

  pub match_string-IsSound :
      (cache : Map (Option Regex)) (op : Operator) (target actual : String)
      → IsSound compile_posix cache
      → ((match_string cache op target actual).1 ≡ satisfies op target actual)
        × IsSound compile_posix (match_string cache op target actual).0
  unfolding match_string satisfies
  match_string-IsSound cache unspecified target actual s = (refl, s)
  match_string-IsSound cache eq target actual s = (refl, s)
  match_string-IsSound cache contains target actual s = (refl, s)
  match_string-IsSound cache regex target actual s =
      let (same, sound) = get_compiled_regex-IsSound compile_posix cache target s in
      (ap (λ re. regex_answer re actual) same, sound)
  match_string-IsSound cache cidr target actual s = (refl, s)

  -- The loops over several texts, which stop at the first that matches.
  unfoldable pub match_any :
      Map (Option Regex) → Operator → String → List String → Map (Option Regex) × Bool
  unfolding match_string
  match_any cache op target [] = (cache, false)
  match_any cache op target (text ∷ texts) =
      let (cache', matched) = match_string cache op target text in
      let rest = match_any cache' op target texts in if matched then (cache', true) else rest

  pub match_any-IsSound :
      (cache : Map (Option Regex)) (op : Operator) (target : String) (texts : List String)
      → IsSound compile_posix cache
      → ((match_any cache op target texts).1 ≡ any (satisfies op target) texts)
        × IsSound compile_posix (match_any cache op target texts).0
  unfolding match_any
  match_any-IsSound cache op target [] s = (refl, s)
  match_any-IsSound cache op target (text ∷ texts) s =
      let (same, sound) = match_string-IsSound cache op target text s in
      let rest = match_any-IsSound (match_string cache op target text).0 op target texts sound in
      elim (Bool-cases (match_string cache op target text).1) [
        | inl e ↦ rw (e, sym same ∙ e) (refl, sound)
        | inr e ↦ rw (e, sym same ∙ e) rest
      ]
