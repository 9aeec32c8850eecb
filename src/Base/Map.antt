-- ===== src/Base/Map.antt =====
-- Go's `map[string]V` as an association list: a key stands in it once, since `insert` replaces.
use Prim.Native.Nat.{ℕ, ◌+◌, ◌≤◌}
use Prim.Native.String.{String}
use mathlib.Core.Path.{◌≡◌, refl}
use mathlib.Core.Logic.{◌≢◌}
use mathlib.Core.Bool.{Bool}
use mathlib.Core.List.{List, [], ◌∷◌}
use mathlib.Core.Option.{Option, none, some}
use native.Mathlib.Omega.{arith}
use nitella.Base.Tests.{if◌then◌else◌}
use nitella.Base.Lists.{length}
use nitella.Base.Texts.{str_eq, str_eq_iff}

abbrev pub Map {ℓ} : Type ℓ → Type ℓ
Map V = List (String × V)

module _ {ℓ} {V : Type ℓ} where
  -- `v, ok := m[k]`
  unfoldable pub lookup : String → Map V → Option V
  lookup k [] = none
  lookup k ((j, v) ∷ m) = if str_eq j k then some v else lookup k m

  -- `m[k] = v`
  unfoldable pub insert : String → V → Map V → Map V
  insert k v [] = (k, v) ∷ []
  insert k v ((j, w) ∷ m) = if str_eq j k then (k, v) ∷ m else (j, w) ∷ insert k v m

  -- `delete(m, k)`
  unfoldable pub erase : String → Map V → Map V
  erase k [] = []
  erase k ((j, w) ∷ m) = if str_eq j k then erase k m else (j, w) ∷ erase k m

  -- `for k, v := range m { if !keep(v) { delete(m, k) } }`
  unfoldable pub retain : (V → Bool) → Map V → Map V
  unfolding erase
  retain keep [] = []
  retain keep ((j, w) ∷ m) =
      let rest = retain keep m in if keep w then (j, w) ∷ rest else erase j rest

  -- `len(m)`
  abbrev pub size : Map V → ℕ
  size m = length m

  abbrev pub keep_if : (V → Bool) → Option V → Option V
  keep_if keep none = none
  keep_if keep (some v) = if keep v then some v else none

  pub lookup-insert :
      (k j : String) (v : V) (m : Map V)
      → lookup j (insert k v m) ≡ (if str_eq k j then some v else lookup j m)
  unfolding lookup insert
  lookup-insert k j v [] = refl
  lookup-insert k j v ((i, w) ∷ m) =
      ground (arith, str_eq_iff k j, str_eq_iff i k, str_eq_iff i j, lookup-insert k j v m)

  pub lookup-erase :
      (k j : String) (m : Map V) → lookup j (erase k m) ≡ (if str_eq k j then none else lookup j m)
  unfolding lookup erase
  lookup-erase k j [] = ground arith
  lookup-erase k j ((i, w) ∷ m) =
      ground (arith, str_eq_iff k j, str_eq_iff i k, str_eq_iff i j, lookup-erase k j m)

  pub lookup-retain :
      (keep : V → Bool) (j : String) (m : Map V)
      → lookup j (retain keep m) ≡ keep_if keep (lookup j m)
  unfolding lookup retain
  lookup-retain keep j [] = refl
  lookup-retain keep j ((i, w) ∷ m) =
      ground (arith, str_eq_iff i j, lookup-retain keep j m, lookup-erase i j (retain keep m))

  pub length-erase-le : (k : String) (m : Map V) → size (erase k m) ≤ size m
  unfolding erase
  length-erase-le k [] = omega arith
  length-erase-le k ((j, w) ∷ m) = ground (arith, length-erase-le k m)

  pub size-insert-le : (k : String) (v : V) (m : Map V) → size (insert k v m) ≤ size m + 1
  unfolding insert
  size-insert-le k v [] = omega arith
  size-insert-le k v ((j, w) ∷ m) = ground (arith, size-insert-le k v m)

  pub lookup-insert_self : (k : String) (v : V) (m : Map V) → lookup k (insert k v m) ≡ some v
  lookup-insert_self k v m = ground (arith, lookup-insert k k v m, str_eq_iff k k)

  pub lookup-insert_ne :
      (k j : String) (v : V) (m : Map V) → k ≢ j → lookup j (insert k v m) ≡ lookup j m
  lookup-insert_ne k j v m h = ground (arith, lookup-insert k j v m, str_eq_iff k j)

  pub lookup-erase_self : (k : String) (m : Map V) → lookup k (erase k m) ≡ none
  lookup-erase_self k m = ground (arith, lookup-erase k k m, str_eq_iff k k)

  pub lookup-erase_ne : (k j : String) (m : Map V) → k ≢ j → lookup j (erase k m) ≡ lookup j m
  lookup-erase_ne k j m h = ground (arith, lookup-erase k j m, str_eq_iff k j)

  -- The keys of a map are distinct.
  abbrev pub IsDistinct : Map V → Type ℓ
  IsDistinct [] = Unit
  IsDistinct ((k, v) ∷ m) = (lookup k m ≡ none) × IsDistinct m

  pub insert-IsDistinct :
      (k : String) (v : V) (m : Map V) → IsDistinct m → IsDistinct (insert k v m)
  unfolding lookup insert
  insert-IsDistinct k v [] d = (refl, tt)
  insert-IsDistinct k v ((j, w) ∷ m) d =
      ground (arith, str_eq_iff j k, lookup-insert k j v m, insert-IsDistinct k v m, str_eq_iff k j)

  pub erase-IsDistinct : (k : String) (m : Map V) → IsDistinct m → IsDistinct (erase k m)
  unfolding lookup erase
  erase-IsDistinct k [] d = tt
  erase-IsDistinct k ((j, w) ∷ m) d = ground (arith, lookup-erase k j m, erase-IsDistinct k m)

  pub retain-IsDistinct : (keep : V → Bool) (m : Map V) → IsDistinct m → IsDistinct (retain keep m)
  unfolding retain
  retain-IsDistinct keep [] d = tt
  retain-IsDistinct keep ((j, w) ∷ m) d =
      ground (
        arith,
        lookup-retain keep j m,
        retain-IsDistinct keep m,
        erase-IsDistinct j (retain keep m),
      )

  -- A key that is not there: the erasure changes nothing.
  pub erase_absent : (k : String) (m : Map V) → lookup k m ≡ none → erase k m ≡ m
  unfolding lookup erase
  erase_absent k [] h = refl
  erase_absent k ((j, w) ∷ m) h = ground (arith, erase_absent k m)

  -- On a map `retain` is a filter.
  pub retain_step :
      (keep : V → Bool) (k : String) (v : V) (m : Map V)
      → IsDistinct ((k, v) ∷ m)
      → retain keep ((k, v) ∷ m) ≡ (if keep v then (k, v) ∷ retain keep m else retain keep m)
  unfolding retain
  retain_step keep k v m d = ground (arith, lookup-retain keep k m, erase_absent k (retain keep m))
