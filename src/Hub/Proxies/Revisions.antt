-- ===== src/Hub/Proxies/Revisions.antt =====
-- pkg/hub/store/store.go: what sorting and deleting make of a table of revisions whose keys and numbers grow.
use nitella.Base.{
  ==_iff, ℕ, zero, suc, ◌≤◌, ◌<◌, String, ◌≡◌, refl, sym, ap, ◌∙◌, ◌≢◌, inl, inr, Bool, true, false,
  List, [], ◌∷◌, arith, ◌==◌, if◌then◌else◌, length, any, All, str_eq, str_eq_iff, Bool-cases,
}
use nitella.Hub.Proxies.{
  ProxyRevision, of_proxy, insert_desc, sort_desc, delete_id, delete_all, drop,
}

-- The latest revisions.
abbrev pub take : ℕ → List ProxyRevision → List ProxyRevision
take zero revs = []
take (suc n) [] = []
take (suc n) (rev ∷ revs) = rev ∷ take n revs

-- A key goes down strictly along the list, from below a bound.
abbrev pub Below : (ProxyRevision → ℕ) → ℕ → List ProxyRevision → Type 0
Below key bound [] = Unit
Below key bound (rev ∷ revs) = (key rev < bound) × Below key (key rev) revs

pub Below-le :
    (key : ProxyRevision → ℕ) (b c : ℕ) (revs : List ProxyRevision)
    → b ≤ c
    → Below key b revs
    → Below key c revs
Below-le key b c [] l h = tt
Below-le key b c (rev ∷ revs) l h = (omega (arith, h.0), h.1)

insert_first :
    (rev : ProxyRevision) (revs : List ProxyRevision)
    → Below (λ r. r.revision_num) rev.revision_num revs
    → insert_desc rev revs ≡ rev ∷ revs
unfolding insert_desc
insert_first rev [] h = refl
insert_first rev (r ∷ revs) h = ground (arith, h.0)

-- Rows whose numbers go down are sorted.
pub sorted :
    (b : ℕ) (revs : List ProxyRevision) → Below (λ r. r.revision_num) b revs → sort_desc revs ≡ revs
unfolding sort_desc
sorted b [] h = refl
sorted b (rev ∷ revs) h =
    ap (insert_desc rev) (sorted rev.revision_num revs h.1) ∙ insert_first rev revs h.1

abbrev pub has_id : ℕ → List ProxyRevision → Bool
has_id id revs = any (λ r. r.id == id) revs

-- The rows whose key is none of those.
abbrev pub without : List ProxyRevision → List ProxyRevision → List ProxyRevision
without ds [] = []
without ds (rev ∷ revs) =
    let rest = without ds revs in if has_id rev.id ds then rest else rev ∷ rest

without-none : (revs : List ProxyRevision) → without [] revs ≡ revs
without-none [] = refl
without-none (rev ∷ revs) = ap (◌∷◌ rev) (without-none revs)

without-cons :
    (d : ProxyRevision) (ds revs : List ProxyRevision)
    → without ds (delete_id d.id revs) ≡ without (d ∷ ds) revs
unfolding delete_id
without-cons d ds [] = refl
without-cons d ds (rev ∷ revs) =
    ground (arith, without-cons d ds revs, ==_iff rev.id d.id, ==_iff d.id rev.id)

pub delete_all_lem : (ds revs : List ProxyRevision) → delete_all ds revs ≡ without ds revs
unfolding delete_all
delete_all_lem [] revs = sym (without-none revs)
delete_all_lem (d ∷ ds) revs = delete_all_lem ds (delete_id d.id revs) ∙ without-cons d ds revs

pub of_proxy-without :
    (proxy : String) (ds revs : List ProxyRevision)
    → of_proxy proxy (without ds revs) ≡ without ds (of_proxy proxy revs)
unfolding of_proxy
of_proxy-without proxy ds [] = refl
of_proxy-without proxy ds (rev ∷ revs) = ground (arith, of_proxy-without proxy ds revs)

-- Keys below a bound.
unseen :
    (b : ℕ) (revs : List ProxyRevision) (id : ℕ)
    → Below (λ r. r.id) b revs
    → b ≤ id
    → has_id id revs ≡ false
unseen b [] id h l = refl
unseen b (rev ∷ revs) id h l = ground (arith, unseen rev.id revs id h.1 (omega (arith, h.0)), h.0)

unseen-drop :
    (k : ℕ) (revs : List ProxyRevision) (id : ℕ)
    → has_id id revs ≡ false
    → has_id id (drop k revs) ≡ false
unseen-drop zero revs id e = e
unseen-drop (suc k) [] id e = refl
unseen-drop (suc k) (rev ∷ revs) id e = unseen-drop k revs id (ground arith)

Covered : List ProxyRevision → List ProxyRevision → Type 0
Covered ds revs = All (λ r. has_id r.id ds ≡ true) revs

Covered-cons :
    (d : ProxyRevision) (ds revs : List ProxyRevision) → Covered ds revs → Covered (d ∷ ds) revs
unfolding Covered
Covered-cons d ds [] c = tt
Covered-cons d ds (rev ∷ revs) c = (ground (arith, c.0), Covered-cons d ds revs c.1)

Covered-self : (revs : List ProxyRevision) → Covered revs revs
unfolding Covered
Covered-self [] = tt
Covered-self (rev ∷ revs) = (ground arith, Covered-cons rev revs revs (Covered-self revs))

without-Covered : (ds revs : List ProxyRevision) → Covered ds revs → without ds revs ≡ []
unfolding Covered
without-Covered ds [] c = refl
without-Covered ds (rev ∷ revs) c = ground (arith, c.0, without-Covered ds revs c.1)

-- What is left when all but the first ones are deleted.
pub without-drop :
    (k b : ℕ) (revs : List ProxyRevision)
    → Below (λ r. r.id) b revs
    → without (drop k revs) revs ≡ take k revs
without-drop zero b revs h = without-Covered revs revs (Covered-self revs)
without-drop (suc k) b [] h = refl
without-drop (suc k) b (rev ∷ revs) h = ground (
  arith,
  unseen-drop k revs rev.id (unseen rev.id revs rev.id h.1 (omega arith)),
  without-drop k rev.id revs h.1,
)

pub of_proxy-Below :
    (b : ℕ) (proxy : String) (revs : List ProxyRevision)
    → Below (λ r. r.id) b revs
    → Below (λ r. r.id) b (of_proxy proxy revs)
unfolding of_proxy
of_proxy-Below b proxy [] h = tt
of_proxy-Below b proxy (rev ∷ revs) h = elim (Bool-cases (str_eq rev.proxy_id proxy)) [
  | inl same ↦ rw (same, of_proxy) (h.0, of_proxy-Below rev.id proxy revs h.1)
  | inr other ↦
      rw (other, of_proxy)
        (Below-le (λ r. r.id) rev.id b (of_proxy proxy revs) (omega (arith, h.0))
          (of_proxy-Below rev.id proxy revs h.1))
]

-- No key of a row is among those of others.
pub Apart : List ProxyRevision → List ProxyRevision → Type 0
Apart ds revs = All (λ r. has_id r.id ds ≡ false) revs

Apart-cons :
    (d : ProxyRevision) (ds revs : List ProxyRevision)
    → Below (λ r. r.id) d.id revs
    → Apart ds revs
    → Apart (d ∷ ds) revs
unfolding Apart
Apart-cons d ds [] h a = tt
Apart-cons d ds (rev ∷ revs) h a = (
  ground (arith, h.0, a.0),
  Apart-cons d ds revs (Below-le (λ r. r.id) rev.id d.id revs (omega (arith, h.0)) h.1) a.1,
)

pub Apart-drop : (k : ℕ) (ds revs : List ProxyRevision) → Apart ds revs → Apart (drop k ds) revs
unfolding Apart
Apart-drop k ds [] a = tt
Apart-drop k ds (rev ∷ revs) a = (unseen-drop k ds rev.id a.0, Apart-drop k ds revs a.1)

pub without-Apart : (ds revs : List ProxyRevision) → Apart ds revs → without ds revs ≡ revs
unfolding Apart
without-Apart ds [] a = refl
without-Apart ds (rev ∷ revs) a = ground (arith, a.0, without-Apart ds revs a.1)

pub apart :
    (b : ℕ) (p q : String) (revs : List ProxyRevision)
    → p ≢ q
    → Below (λ r. r.id) b revs
    → Apart (of_proxy p revs) (of_proxy q revs)
unfolding of_proxy Apart
apart b p q [] ne h = tt
apart b p q (rev ∷ revs) ne h =
    let rest = apart rev.id p q revs ne h.1 in
    elim (Bool-cases (str_eq rev.proxy_id p)) [
      | inl is_p ↦ elim (Bool-cases (str_eq rev.proxy_id q)) [
        | inl is_q ↦
            absurd
              (ne (sym ((str_eq_iff rev.proxy_id p).0 is_p) ∙ (str_eq_iff rev.proxy_id q).0 is_q))
        | inr not_q ↦
            rw (is_p, not_q, of_proxy)
              (Apart-cons rev (of_proxy p revs) (of_proxy q revs) (of_proxy-Below rev.id q revs h.1)
                rest)
      ]
      | inr not_p ↦ elim (Bool-cases (str_eq rev.proxy_id q)) [
        | inl is_q ↦
            rw (not_p, is_q, of_proxy)
              (
                unseen rev.id (of_proxy p revs) rev.id (of_proxy-Below rev.id p revs h.1)
                    (omega arith),
                rest,
              )
        | inr not_q ↦ rw (not_p, not_q, of_proxy) rest
      ]
    ]

pub without-Below :
    (b : ℕ) (ds revs : List ProxyRevision)
    → Below (λ r. r.id) b revs
    → Below (λ r. r.id) b (without ds revs)
without-Below b ds [] h = tt
without-Below b ds (rev ∷ revs) h = elim (Bool-cases (has_id rev.id ds)) [
  | inl gone ↦
      rw (gone, without)
        (Below-le (λ r. r.id) rev.id b (without ds revs) (omega (arith, h.0))
          (without-Below rev.id ds revs h.1))
  | inr kept ↦ rw (kept, without) (h.0, without-Below rev.id ds revs h.1)
]

-- The rows of a proxy after its oldest are deleted, and the rows of the others.
abbrev pub capped : ℕ → List ProxyRevision → List ProxyRevision
capped zero revs = revs
capped (suc k) revs = take (suc k) revs

pub capped_if :
    (keep : ℕ) (revs : List ProxyRevision)
    → capped keep revs ≡ (if keep == 0 then revs else take keep revs)
capped_if zero revs = refl
capped_if (suc k) revs = ground arith

pub take-all : (k : ℕ) (revs : List ProxyRevision) → length revs ≤ k → take k revs ≡ revs
take-all zero [] l = refl
take-all zero (rev ∷ revs) l = absurd (omega (arith, l))
take-all (suc k) [] l = refl
take-all (suc k) (rev ∷ revs) l = ap (◌∷◌ rev) (take-all k revs (omega (arith, l)))
