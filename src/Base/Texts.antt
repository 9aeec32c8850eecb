-- ===== src/Base/Texts.antt =====
-- Texts: whole ones are compared as the native `String`, those that the program walks are read
-- as the list of their code points.
use Prim.Native.Nat.{ℕ}
use Prim.Native.Char.{Char, code}
use text.Mathlib.TextLemmas.{
  nil-append, append_cancel_left, append_assoc, cons-append, head-eq_of_cons-eq,
}
use Prim.Native.String
use Prim.Native.String.{String}
use mathlib.Core.Path.{◌≡◌, refl, sym, ap, ◌∙◌}
use mathlib.Core.Logic.{◌≢◌, ◌↔◌}
use mathlib.Core.Bool.{Bool, true, false, ◌&&◌, ◌||◌}
use mathlib.Core.Option.{Option, none, some}
use nitella.Base.Tests.{◌==◌, if◌then◌else◌, leb}
use mathlib.Core.List.{List, [], ◌∷◌, ◌++◌}
use text.Mathlib.Text
use text.Mathlib.TextEquality.{eq_iff, Char-path}

abbrev pub str_eq : String → String → Bool
str_eq s t = Text.◌==◌ s t

pub str_eq_iff : (s t : String) → ((str_eq s t) ≡ true) ↔ (s ≡ t)
str_eq_iff s t = eq_iff s t

abbrev pub codes : String → List ℕ
codes String.[] = []
codes (String.◌∷◌ c s) = code c ∷ codes s

abbrev cons_cut : ℕ → Option (List ℕ × List ℕ) → Option (List ℕ × List ℕ)
cons_cut x none = none
cons_cut x (some (before, after)) = some (x ∷ before, after)

abbrev cons_first : ℕ → List (List ℕ) → List (List ℕ)
cons_first x [] = (x ∷ []) ∷ []
cons_first x (part ∷ parts) = (x ∷ part) ∷ parts

-- `s[:i]` and `s[i+1:]` at the first `c`.
unfoldable pub cut : ℕ → List ℕ → Option (List ℕ × List ℕ)
cut c [] = none
cut c (x ∷ xs) = if x == c then some ([], xs) else cons_cut x (cut c xs)

-- `strings.Split(s, c)`: there is always a first part.
unfoldable pub split_on : ℕ → List ℕ → List (List ℕ)
split_on c [] = [] ∷ []
split_on c (x ∷ xs) = if x == c then [] ∷ split_on c xs else cons_first x (split_on c xs)

-- `strings.HasPrefix` and `strings.Contains`.
unfoldable pub has_prefix : List ℕ → List ℕ → Bool
has_prefix [] s = true
has_prefix (p ∷ ps) [] = false
has_prefix (p ∷ ps) (c ∷ cs) = p == c && has_prefix ps cs

unfoldable pub includes : List ℕ → List ℕ → Bool
unfolding has_prefix
includes [] p = has_prefix p []
includes (c ∷ cs) p = has_prefix p (c ∷ cs) || includes cs p

abbrev pub is_digit : ℕ → Bool
is_digit c = leb b'0' c && leb c b'9'

-- `s + t`
unfoldable pub concat : String → String → String
concat s t = String.◌++◌ s t

pub concat_cancel_left : (s t u : String) → concat s t ≡ concat s u → t ≡ u
unfolding concat
concat_cancel_left s t u h = append_cancel_left s t u h

pub concat_assoc : (s t u : String) → concat (concat s t) u ≡ concat s (concat t u)
unfolding concat
concat_assoc s t u = append_assoc s t u

-- Texts whose first characters differ.
pub concat_apart :
    (c d : Char) (s t u v : String)
    → code c ≢ code d
    → concat (String.◌∷◌ c s) t ≢ concat (String.◌∷◌ d u) v
unfolding concat
concat_apart c d s t u v h e =
    h (ap code (head-eq_of_cons-eq (sym (cons-append c s t) ∙ e ∙ cons-append d u v)))

pub codes-concat : (s t : String) → codes (concat s t) ≡ codes s ++ codes t
unfolding concat
codes-concat String.[] t = ap codes (nil-append t)
codes-concat (String.◌∷◌ c s) t = rw (cons-append c s t) (ap (◌∷◌ (code c)) (codes-concat s t))

pub codes-injective : (s t : String) → codes s ≡ codes t → s ≡ t
codes-injective String.[] String.[] e = refl
codes-injective String.[] (String.◌∷◌ d t) e = cc
codes-injective (String.◌∷◌ c s) String.[] e = cc
codes-injective (String.◌∷◌ c s) (String.◌∷◌ d t) e =
    cc (Char-path c d (cc), codes-injective s t (cc))

-- The text does not hold the character.
abbrev pub IsFree : ℕ → List ℕ → Type 0
IsFree c [] = Unit
IsFree c (x ∷ xs) = (x ≢ c) × IsFree c xs

-- Two texts that are joined by a separator which the first ones do not hold.
pub separator_cancel :
    (c : ℕ) (s t s' t' : List ℕ)
    → IsFree c s
    → IsFree c s'
    → s ++ (c ∷ t) ≡ s' ++ (c ∷ t')
    → (s ≡ s') × (t ≡ t')
separator_cancel c [] t [] t' f f' e = (refl, cc)
separator_cancel c [] t (y ∷ s') t' f f' e = absurd (f'.0 (cc))
separator_cancel c (x ∷ s) t [] t' f f' e = absurd (f.0 (cc))
separator_cancel c (x ∷ s) t (y ∷ s') t' f f' e =
    let (p, q) = separator_cancel c s t s' t' f.1 f'.1 (cc) in (cc, q)

-- The separator shows in the first text, or not at all.
pub separator-IsFree : (c : ℕ) (s t : List ℕ) → ¬ IsFree c (s ++ (c ∷ t))
separator-IsFree c [] t h = h.0 refl
separator-IsFree c (x ∷ s) t h = separator-IsFree c s t h.1
