-- ===== src/Hub/Proxies/Pushes.antt =====
-- pkg/hub/store/store.go: the history of a proxy under the operations on the tables.
use nitella.Base.{
  ℕ, zero, suc, String, ◌≡◌, refl, sym, ◌≢◌, inl, inr, List, [], ◌∷◌, arith, if◌then◌else◌, str_eq,
  str_eq_iff, Bool-cases,
}
use mathlib.Core.Path.{subst}
use nitella.Hub.Proxies.{
  create_proxy_revision, ℤ, ProxyRevision, ProxyStore, of_proxy, sort_desc, drop, first,
  delete_oldest_proxy_revisions,
}
use nitella.Hub.Proxies.Requests.{next_num}
use nitella.Hub.Proxies.Revisions.{
  take, Below, sorted, delete_all_lem, of_proxy-without, without-drop, of_proxy-Below, Apart-drop,
  without-Apart, apart, without-Below, capped, capped_if, take-all,
}

-- The table of a store that was filled by requests: keys grow, and so do the numbers of each proxy.
pub record IsOrdered (s : ProxyStore) : Type 0 where
  pub ids : Below (λ r. r.id) s.next_id s.revisions
  pub nums :
      (proxy : String)
      → Below
          (λ r. r.revision_num)
          (next_num (first (of_proxy proxy s.revisions)))
          (of_proxy proxy s.revisions)

-- The history of a proxy, the latest revision first.
abbrev pub history : ProxyStore → String → List ProxyRevision
history s proxy = of_proxy proxy s.revisions

pub sorted_history :
    (s : ProxyStore) (proxy : String) → IsOrdered s → sort_desc (history s proxy) ≡ history s proxy
sorted_history s proxy o =
    sorted (next_num (first (history s proxy))) (history s proxy) (o.nums proxy)

pub delete-history :
    (s : ProxyStore) (proxy q : String) (keep : ℕ)
    → IsOrdered s
    → history (delete_oldest_proxy_revisions s proxy keep).0 q
      ≡ (if str_eq proxy q then capped keep (history s q) else history s q)
unfolding delete_oldest_proxy_revisions
delete-history s proxy q keep o = rw (sorted_history s proxy o) (
    ground (
      arith,
      delete_all_lem (drop keep (history s proxy)) s.revisions,
      of_proxy-without q (drop keep (history s proxy)) s.revisions,
      without-drop keep s.next_id (history s proxy)
          (of_proxy-Below s.next_id proxy s.revisions o.ids),
      (λ (ne : proxy ≢ q). without-Apart (drop keep (history s proxy)) (history s q) (
          Apart-drop keep (history s proxy) (history s q)
            (apart s.next_id proxy q s.revisions ne o.ids))),
      take-all keep (history s proxy),
      capped_if keep (history s proxy),
      str_eq_iff proxy q,
    ))

take-Below :
    (key : ProxyRevision → ℕ) (b k : ℕ) (revs : List ProxyRevision)
    → Below key b revs
    → Below key b (take k revs)
take-Below key b zero revs h = tt
take-Below key b (suc k) [] h = tt
take-Below key b (suc k) (rev ∷ revs) h = (h.0, take-Below key (key rev) k revs h.1)

capped-IsOrdered :
    (keep : ℕ) (revs : List ProxyRevision)
    → Below (λ r. r.revision_num) (next_num (first revs)) revs
    → Below (λ r. r.revision_num) (next_num (first (capped keep revs))) (capped keep revs)
capped-IsOrdered zero revs h = h
capped-IsOrdered (suc k) [] h = tt
capped-IsOrdered (suc k) (rev ∷ revs) h =
    (omega arith, take-Below (λ r. r.revision_num) rev.revision_num k revs h.1)

delete-ids :
    (s : ProxyStore) (proxy : String) (keep : ℕ)
    → IsOrdered s
    → Below
        (λ r. r.id)
        (delete_oldest_proxy_revisions s proxy keep).0.next_id
        (delete_oldest_proxy_revisions s proxy keep).0.revisions
unfolding delete_oldest_proxy_revisions
delete-ids s proxy keep o =
    let revs = drop keep (sort_desc (history s proxy)) in
    ground (
      arith,
      o.ids,
      subst (λ (rows : List ProxyRevision). Below (λ r. r.id) s.next_id rows)
          (sym (delete_all_lem revs s.revisions)) (without-Below s.next_id revs s.revisions o.ids),
    )

pub delete-IsOrdered :
    (s : ProxyStore) (proxy : String) (keep : ℕ)
    → IsOrdered s
    → IsOrdered (delete_oldest_proxy_revisions s proxy keep).0
delete-IsOrdered s proxy keep o = record {
  ids = delete-ids s proxy keep o;
  nums = λ q. rw (delete-history s proxy q keep o) (elim (Bool-cases (str_eq proxy q)) [
    | inl same ↦ rw (same) (capped-IsOrdered keep (history s q) (o.nums q))
    | inr other ↦ rw (other) (o.nums q)
  ]);
}

-- The revision that a push adds.
abbrev pub pushed : ProxyStore → String → String → ℤ → ProxyRevision
pushed s proxy blob size = record {
  id = s.next_id;
  proxy_id = proxy;
  revision_num = next_num (first (history s proxy));
  encrypted_blob = blob;
  size_bytes = size;
}

pub create-history :
    (s : ProxyStore) (proxy q : String) (blob : String) (size : ℤ)
    → history (create_proxy_revision s proxy (next_num (first (history s proxy))) blob size) q
      ≡ (if str_eq proxy q then pushed s proxy blob size ∷ history s q else history s q)
unfolding create_proxy_revision of_proxy
create-history s proxy q blob size = refl

pub create-IsOrdered :
    (s : ProxyStore) (proxy blob : String) (size : ℤ)
    → IsOrdered s
    → IsOrdered (create_proxy_revision s proxy (next_num (first (history s proxy))) blob size)
unfolding create_proxy_revision of_proxy
create-IsOrdered s proxy blob size o = record {
  ids = (omega arith, o.ids);
  nums = λ q. elim (Bool-cases (str_eq proxy q)) [
    | inl same ↦ rw (same) (
      omega arith,
      subst
          (λ (x : String).
            Below (λ r. r.revision_num) (next_num (first (of_proxy proxy s.revisions)))
              (of_proxy x s.revisions))
          ((str_eq_iff proxy q).0 same) (o.nums proxy),
    )
    | inr other ↦ rw (other) (o.nums q)
  ];
}
