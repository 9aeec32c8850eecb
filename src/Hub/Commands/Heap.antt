-- ===== src/Hub/Commands/Heap.antt =====
-- Heaps and maps that change at one place, for the streams and the senders of commands.
use nitella.Base.{
  ==_iff, ℕ, ◌<◌, String, ◌≡◌, refl, sym, ◌⊎◌, inl, inr, true, false, some, List, [], ◌∷◌, arith,
  ◌==◌, if◌then◌else◌, str_eq, str_eq_iff, Bool-cases,
}
use nitella.Base.Map
use nitella.Base.Map.{
  Map, lookup-insert, lookup-erase, lookup-retain, lookup-insert_self, lookup-insert_ne,
  lookup-erase_self, lookup-erase_ne,
}
use mathlib.Core.Path.{subst}

pub List-cases :
    {A : Type 0} (xs : List A) → (xs ≡ []) ⊎ ((x : A) × (rest : List A) × (xs ≡ x ∷ rest))
List-cases [] = inl refl
List-cases (x ∷ rest) = inr (x, rest, refl)

-- A heap that changes at one place: what the place keeps, what holds there and elsewhere, and what is below it.
pub keep-field :
    {A B : Type 0} (g : A → B) (f : ℕ → A) (i : ℕ) (v : A)
    → g v ≡ g (f i)
    → (j : ℕ) → g (if j == i then v else f j) ≡ g (f j)
keep-field g f i v same j = elim (Bool-cases (j == i)) [
  | inl at ↦ rw (at) (subst (λ (k : ℕ). g v ≡ g (f k)) (sym ((==_iff j i).0 at)) same)
  | inr other ↦ rw (other) refl
]

pub hold-everywhere :
    {A : Type 0} (P : A → Type 0) (f : ℕ → A) (i : ℕ) (v : A) (j : ℕ)
    → P v
    → P (f j)
    → P (if j == i then v else f j)
hold-everywhere P f i v j new old = elim (j == i) as (λ b. P (if b then v else f j)) [
  | true ↦ new
  | false ↦ old
]

pub at_place :
    {A B : Type 0} (g : A → B) (f : ℕ → A) (i : ℕ) (v : A) → g (if i == i then v else f i) ≡ g v
at_place g f i v = rw ((==_iff i i).1 refl) refl

pub keep-below :
    {A : Type 0} (f : ℕ → A) (i : ℕ) (v : A) (j : ℕ) → j < i → (if j == i then v else f j) ≡ f j
keep-below f i v j l = ground (arith, l, ==_iff j i)

pub erased :
    (id k : String) (m : Map ℕ) (j : ℕ)
    → Map.lookup k (Map.erase id m) ≡ some j
    → Map.lookup k m ≡ some j
erased id k m j e = ground (arith, e, lookup-erase id k m, str_eq_iff id k)

pub inserted :
    (id k : String) (i : ℕ) (m : Map ℕ) (j : ℕ)
    → Map.lookup k (Map.insert id i m) ≡ some j
    → ((id ≡ k) × (i ≡ j)) ⊎ (Map.lookup k m ≡ some j)
inserted id k i m j e = elim (Bool-cases (str_eq id k)) [
  | inl same ↦ inl ((str_eq_iff id k).0 same, ground (arith, e, same, lookup-insert id k i m))
  | inr other ↦ inr (ground (arith, e, other, lookup-insert id k i m))
]
