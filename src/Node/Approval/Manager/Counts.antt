-- ===== src/Node/Approval/Manager/Counts.antt =====
-- pkg/node/approval.go: the counters of waiting requests and what they count.
use nitella.Base.{
  ℕ, ◌+◌, ◌-◌, ◌≤◌, ◌<◌, String, ◌≡◌, refl, ◌≢◌, inl, inr, true, false, not, none, some, [], ◌∷◌,
  arith, if◌then◌else◌, str_eq, str_eq_iff, Bool-cases,
}
use nitella.Base.Map
use nitella.Base.Map.{
  IsDistinct, Map, lookup-insert, lookup-erase, lookup-retain, lookup-insert_self, lookup-insert_ne,
  lookup-erase_self, lookup-erase_ne,
}
use nitella.Node.Approval.Manager.{PendingRequest, count_at, increment, decrement}

-- The requests of which a text is `k`.
abbrev pub count : (PendingRequest → String) → String → Map PendingRequest → ℕ
count read k [] = 0
count read k ((_, r) ∷ m) = (if str_eq (read r) k then 1 else 0) + count read k m

count-insert_fresh :
    (read : PendingRequest → String) (k id : String) (r : PendingRequest) (m : Map PendingRequest)
    → Map.lookup id m ≡ none
    → count read k (Map.insert id r m) ≡ (if str_eq (read r) k then 1 else 0) + count read k m
unfolding Map.lookup Map.insert
count-insert_fresh read k id r [] h = refl
count-insert_fresh read k id r ((j, s) ∷ m) h = ground (arith, count-insert_fresh read k id r m)

pub size-insert_fresh :
    (id : String) (r : PendingRequest) (m : Map PendingRequest)
    → Map.lookup id m ≡ none
    → Map.size (Map.insert id r m) ≡ Map.size m + 1
unfolding Map.lookup Map.insert
size-insert_fresh id r [] h = refl
size-insert_fresh id r ((j, s) ∷ m) h = ground (arith, size-insert_fresh id r m)

-- An update that keeps the text keeps the count.
pub count-insert_same :
    (read : PendingRequest → String) (k id : String) (r r' : PendingRequest)
    (m : Map PendingRequest)
    → Map.lookup id m ≡ some r
    → read r' ≡ read r
    → (count read k (Map.insert id r' m) ≡ count read k m)
      × (Map.size (Map.insert id r' m) ≡ Map.size m)
unfolding Map.lookup Map.insert
count-insert_same read k id r r' [] h e = grind arith
count-insert_same read k id r r' ((j, s) ∷ m) h e = elim (Bool-cases (str_eq j id)) [
  | inl same ↦ grind arith
  | inr other ↦ grind (arith, count-insert_same read k id r r' m)
]

count-erase :
    (read : PendingRequest → String) (k id : String) (r : PendingRequest) (m : Map PendingRequest)
    → IsDistinct m
    → Map.lookup id m ≡ some r
    → count read k m ≡ (if str_eq (read r) k then 1 else 0) + count read k (Map.erase id m)
unfolding Map.lookup Map.erase
count-erase read k id r [] d h = grind arith
count-erase read k id r ((j, s) ∷ m) d h = elim (Bool-cases (str_eq j id)) [
  | inl e ↦ grind (arith, str_eq_iff j id, Map.erase_absent id m)
  | inr e ↦ grind (arith, count-erase read k id r m)
]

pub count_at-increment :
    (j k : String) (m : Map ℕ)
    → count_at k (increment j m) ≡ (if str_eq j k then 1 else 0) + count_at k m
count_at-increment j k m =
    rw (lookup-insert j k (count_at j m + 1) m) (ground (arith, str_eq_iff j k))

pub count_at-decrement :
    (j k : String) (m : Map ℕ)
    → count_at k (decrement j m) ≡ count_at k m - (if str_eq j k then 1 else 0)
count_at-decrement j k m =
    grind (arith, lookup-insert j k (count_at j m - 1) m, lookup-erase j k m, str_eq_iff j k)

-- A counter goes up with the number of requests, and stays within its limit if it was below it.
pub counted_in :
    (read : PendingRequest → String) (k id : String) (r : PendingRequest) (m : Map PendingRequest)
    (counters : Map ℕ) (limit : ℕ)
    → Map.lookup id m ≡ none
    → (count_at (read r) counters < limit)
    → count_at k counters ≡ count read k m
    → count read k m ≤ limit
    → (count_at k (increment (read r) counters) ≡ count read k (Map.insert id r m))
      × (count read k (Map.insert id r m) ≤ limit)
counted_in read k id r m counters limit fresh room same le =
    rw (count_at-increment (read r) k counters, count-insert_fresh read k id r m fresh)
      (ground (arith, str_eq_iff (read r) k))

empty_other : (t k : String) → str_eq t "" ≡ true → k ≢ "" → str_eq t k ≡ false
empty_other t k e h = ground (arith, str_eq_iff t "", str_eq_iff t k)

module _ (read : PendingRequest → String) (k id : String) (r : PendingRequest)
    (m : Map PendingRequest) (counters : Map ℕ) (named : k ≢ "")
    (same : count_at k counters ≡ count read k m) where
  -- The counter of a request that has a name for it.
  pub counted_in_named :
      (limit : ℕ)
      → Map.lookup id m ≡ none
      → (str_eq (read r) "" ≡ false → count_at (read r) counters < limit)
      → count read k m ≤ limit
      → (count_at k (if not (str_eq (read r) "") then increment (read r) counters else counters)
          ≡ count read k (Map.insert id r m))
        × (count read k (Map.insert id r m) ≤ limit)
  counted_in_named limit fresh room le = elim (Bool-cases (str_eq (read r) "")) [
    | inl e ↦
        rw (e, count-insert_fresh read k id r m fresh, empty_other (read r) k e named)
          (omega arith, omega arith)
    | inr e ↦ rw e (counted_in read k id r m counters limit fresh (room e) same le)
  ]

  pub counted_out :
      IsDistinct m
      → Map.lookup id m ≡ some r
      → (count_at k (if not (str_eq (read r) "") then decrement (read r) counters else counters)
          ≡ count read k (Map.erase id m))
        × (count read k (Map.erase id m) ≤ count read k m)
  counted_out d stored = elim (Bool-cases (str_eq (read r) "")) [
    | inl e ↦
        rw e (ground (arith, count-erase read k id r m d stored, empty_other (read r) k e named))
    | inr e ↦
        rw (e, count_at-decrement (read r) k counters)
          (ground (arith, count-erase read k id r m d stored))
  ]
