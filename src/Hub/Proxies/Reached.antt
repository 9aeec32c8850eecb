-- ===== src/Hub/Proxies/Reached.antt =====
-- pkg/hub/server/mobile_server.go: the stores that requests fill.
use nitella.Base.{
  String, ◌≡◌, refl, inl, inr, Bool, false, none, [], arith, if◌then◌else◌, str_eq, Bool-cases,
  Option-cases,
}
use nitella.Base.Int.{ℤ, pos, negsuc, pos_part, ltb_ℤ}
use nitella.Tier.{ProxyManagementConfig}
use nitella.Hub.Proxies.{
  delete_proxy_config, create_proxy_config, of_proxy, ProxyStore, first, get_latest_proxy_revision,
  create_proxy_revision, get_total_proxy_storage,
}
use nitella.Hub.Proxies.Requests.{
  delete_proxy, create_proxy, flush_revisions, done, check_owner, push_revision, prune, next_num,
  over_storage,
}
use nitella.Hub.Proxies.Revisions.{capped}
use nitella.Hub.Proxies.Pushes.{
  create-IsOrdered, IsOrdered, history, sorted_history, delete-history, delete-IsOrdered,
}

unlimited_part : (max : ℤ) → ltb_ℤ (pos 0) max ≡ false → pos_part max ≡ 0
unlimited_part (pos n) e = ground arith
unlimited_part (negsuc n) e = refl

pub prune-history :
    (limits : ProxyManagementConfig) (s : ProxyStore) (proxy q : String)
    → IsOrdered s
    → history (prune limits s proxy) q ≡ (
        if str_eq proxy q
        then capped (pos_part limits.max_revisions_per_proxy) (history s q)
        else history s q)
prune-history limits s proxy q o =
    let max = limits.max_revisions_per_proxy in
    elim (Bool-cases (ltb_ℤ (pos 0) max)) [
      | inl limited ↦ rw (limited) (delete-history s proxy q (pos_part max) o)
      | inr unlimited ↦ rw (unlimited, unlimited_part max unlimited) (ground arith)
    ]

prune-IsOrdered :
    (limits : ProxyManagementConfig) (s : ProxyStore) (proxy : String)
    → IsOrdered s
    → IsOrdered (prune limits s proxy)
prune-IsOrdered limits s proxy o =
    let max = limits.max_revisions_per_proxy in
    elim (Bool-cases (ltb_ℤ (pos 0) max)) [
      | inl limited ↦ rw (limited) (delete-IsOrdered s proxy (pos_part max) o)
      | inr unlimited ↦ rw (unlimited) o
    ]

pub push_lem :
    (fails : String → Bool) (limits : ProxyManagementConfig) (s : ProxyStore)
    (token proxy blob : String) (size : ℤ)
    → IsOrdered s
    → check_owner s token proxy ≡ none
    → over_storage limits (get_total_proxy_storage fails s token) size ≡ false
    → push_revision fails limits s token proxy blob size ≡ (
      prune limits
          (create_proxy_revision s proxy (next_num (first (history s proxy))) blob size)
          proxy,
      done (next_num (first (history s proxy))),
    )
unfolding push_revision get_latest_proxy_revision
push_lem fails limits s token proxy blob size o owner fits =
    rw (owner, push_revision, fits, sorted_history s proxy o) refl

pub push-IsOrdered :
    (fails : String → Bool) (limits : ProxyManagementConfig) (s : ProxyStore)
    (token proxy blob : String) (size : ℤ)
    → IsOrdered s
    → IsOrdered (push_revision fails limits s token proxy blob size).0
unfolding push_revision get_latest_proxy_revision
push-IsOrdered fails limits s token proxy blob size o =
    elim (Option-cases (check_owner s token proxy)) [
      | inr (e, bad) ↦ rw (bad, push_revision) o
      | inl owner ↦
          elim (Bool-cases (over_storage limits (get_total_proxy_storage fails s token) size)) [
            | inl over ↦ rw (owner, push_revision, over) o
            | inr fits ↦
                rw (owner, push_revision, fits, sorted_history s proxy o)
                  (prune-IsOrdered limits _ proxy (create-IsOrdered s proxy blob size o))
          ]
    ]

flush-IsOrdered :
    (s : ProxyStore) (token proxy : String) (keep : ℤ)
    → IsOrdered s
    → IsOrdered (flush_revisions s token proxy keep).0
unfolding flush_revisions
flush-IsOrdered s token proxy keep o = elim (Option-cases (check_owner s token proxy)) [
  | inr (e, bad) ↦ rw (bad, flush_revisions) o
  | inl owner ↦
      rw (owner, flush_revisions)
        (delete-IsOrdered s proxy (if ltb_ℤ keep (pos 1) then 1 else pos_part keep) o)
]

-- What requests make of an empty store.
pub data Reach : ProxyStore → Type 0 where
  empty : Reach (record { configs = []; revisions = []; next_id = 1 })
  created :
      (limits : ProxyManagementConfig) (s : ProxyStore) (token proxy : String)
      → Reach s
      → Reach (create_proxy limits s token proxy).0
  deleted : (s : ProxyStore) (token proxy : String) → Reach s → Reach (delete_proxy s token proxy).0
  pushes :
      (fails : String → Bool) (limits : ProxyManagementConfig) (s : ProxyStore)
      (token proxy blob : String) (size : ℤ)
      → Reach s
      → Reach (push_revision fails limits s token proxy blob size).0
  flushed :
      (s : ProxyStore) (token proxy : String) (keep : ℤ)
      → Reach s
      → Reach (flush_revisions s token proxy keep).0

same-IsOrdered :
    (s s' : ProxyStore)
    → s'.revisions ≡ s.revisions
    → s'.next_id ≡ s.next_id
    → IsOrdered s
    → IsOrdered s'
same-IsOrdered s s' r n o = record { ids = rw (r, n) o.ids; nums = λ q. rw (r) (o.nums q) }

pub create_same :
    (limits : ProxyManagementConfig) (s : ProxyStore) (token proxy : String)
    → ((create_proxy limits s token proxy).0.revisions ≡ s.revisions)
      × ((create_proxy limits s token proxy).0.next_id ≡ s.next_id)
unfolding create_proxy create_proxy_config
create_same limits s token proxy = ground arith

pub delete_same :
    (s : ProxyStore) (token proxy : String)
    → ((delete_proxy s token proxy).0.revisions ≡ s.revisions)
      × ((delete_proxy s token proxy).0.next_id ≡ s.next_id)
unfolding delete_proxy delete_proxy_config
delete_same s token proxy = ground arith

pub Reach-IsOrdered : {s : ProxyStore} → Reach s → IsOrdered s
unfolding of_proxy
Reach-IsOrdered empty = record { ids = tt; nums = λ q. tt }
Reach-IsOrdered (created limits s token proxy r) =
    let (a, b) = create_same limits s token proxy in same-IsOrdered s _ a b (Reach-IsOrdered r)
Reach-IsOrdered (deleted s token proxy r) =
    let (a, b) = delete_same s token proxy in same-IsOrdered s _ a b (Reach-IsOrdered r)
Reach-IsOrdered (pushes fails limits s token proxy blob size r) =
    push-IsOrdered fails limits s token proxy blob size (Reach-IsOrdered r)
Reach-IsOrdered (flushed s token proxy keep r) =
    flush-IsOrdered s token proxy keep (Reach-IsOrdered r)
