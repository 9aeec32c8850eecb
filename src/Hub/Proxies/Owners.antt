-- ===== src/Hub/Proxies/Owners.antt =====
-- pkg/hub/server/mobile_server.go: proxies of one routing token under the requests of another, and the limit
-- of the storage.
use nitella.Base.{
  ℕ, String, ◌≡◌, refl, ap, ◌∙◌, ◌≢◌, ◌↔◌, inl, inr, Bool, true, false, none, some, List, [], ◌∷◌,
  arith, if◌then◌else◌, str_eq_iff, Bool-cases, Option-cases,
}
use nitella.Base.Int.{ℤ, pos, pos_part, ltb_ℤ, ◌+ℤ◌}
use nitella.Tier.{ProxyManagementConfig}
use nitella.Hub.Proxies.{
  ProxyConfig, ProxyRevision, ProxyStore, find_config, mark_deleted, get_proxy_config, of_proxy,
  delete_oldest_proxy_revisions, create_proxy_config, delete_proxy_config, get_total_proxy_storage,
  sum_proxies, with_token,
}
use nitella.Hub.Proxies.Requests.{
  Reply, done, denied, storage_exceeded, check_owner, create_proxy, delete_proxy, push_revision,
  flush_revisions, over_storage,
}
use nitella.Hub.Proxies.Reached.{Reach, Reach-IsOrdered, create_same, delete_same}
use nitella.Hub.Proxies.Pushes.{history, delete-history}
use nitella.Hub.Proxies.History.{push_revision-history, push-configs}

pub data Request : Type 0 where
  create : String → Request
  delete : String → Request
  push : String → String → ℤ → Request
  flush : String → ℤ → Request

-- The store after a request of a routing token.
abbrev pub serve :
    (String → Bool) → ProxyManagementConfig → ProxyStore → String → Request → ProxyStore
serve fails limits s token (create proxy) = (create_proxy limits s token proxy).0
serve fails limits s token (delete proxy) = (delete_proxy s token proxy).0
serve fails limits s token (push proxy blob size) =
    (push_revision fails limits s token proxy blob size).0
serve fails limits s token (flush proxy keep) = (flush_revisions s token proxy keep).0

not_owner :
    (s : ProxyStore) (token proxy : String) (cfg : ProxyConfig)
    → find_config proxy s.configs ≡ some cfg
    → cfg.routing_token ≢ token
    → check_owner s token proxy ≢ none
unfolding check_owner get_proxy_config
not_owner s token proxy cfg stored other =
    rw (stored, check_owner, get_proxy_config) (ground (arith, str_eq_iff cfg.routing_token token))

-- Who passes the checks for a proxy is its owner.
owner-apart :
    (s : ProxyStore) (token proxy q : String) (cfg : ProxyConfig)
    → find_config q s.configs ≡ some cfg
    → cfg.routing_token ≢ token
    → check_owner s token proxy ≡ none
    → proxy ≢ q
owner-apart s token proxy q cfg stored other owner same =
    not_owner s token proxy cfg (ap (λ (x : String). find_config x s.configs) same ∙ stored) other
      owner

find-mark_deleted :
    (proxy q : String) (cfgs : List ProxyConfig)
    → proxy ≢ q
    → find_config q (mark_deleted proxy cfgs) ≡ find_config q cfgs
unfolding find_config mark_deleted
find-mark_deleted proxy q [] ne = refl
find-mark_deleted proxy q (cfg ∷ cfgs) ne = ground (
  arith,
  find-mark_deleted proxy q cfgs ne,
  str_eq_iff cfg.proxy_id proxy,
  str_eq_iff cfg.proxy_id q,
)

delete-find :
    (s : ProxyStore) (token proxy q : String) (cfg : ProxyConfig)
    → find_config q s.configs ≡ some cfg
    → cfg.routing_token ≢ token
    → find_config q (delete_proxy s token proxy).0.configs ≡ find_config q s.configs
unfolding delete_proxy delete_proxy_config
delete-find s token proxy q cfg stored other = elim (Option-cases (check_owner s token proxy)) [
  | inr (e, bad) ↦ rw (bad, delete_proxy) refl
  | inl owner ↦
      rw (owner, delete_proxy)
        (find-mark_deleted proxy q s.configs (owner-apart s token proxy q cfg stored other owner))
]

create_config-find :
    (s : ProxyStore) (new cfg : ProxyConfig) (q : String)
    → find_config q s.configs ≡ some cfg
    → find_config q (create_proxy_config s new).0.configs ≡ find_config q s.configs
unfolding create_proxy_config find_config
create_config-find s new cfg q stored = elim (Option-cases (find_config new.proxy_id s.configs)) [
  | inl absent ↦
      rw (absent, create_proxy_config) (ground (arith, str_eq_iff new.proxy_id q, absent, stored))
  | inr (c, there) ↦ rw (there, create_proxy_config) refl
]

create-find :
    (limits : ProxyManagementConfig) (s : ProxyStore) (token proxy q : String) (cfg : ProxyConfig)
    → find_config q s.configs ≡ some cfg
    → find_config q (create_proxy limits s token proxy).0.configs ≡ find_config q s.configs
unfolding create_proxy
create-find limits s token proxy q cfg stored =
    let new : ProxyConfig = record { proxy_id = proxy; routing_token = token; deleted = false } in
    ground (arith, create_config-find s new cfg q stored)

flush-configs :
    (s : ProxyStore) (token proxy : String) (keep : ℤ)
    → (flush_revisions s token proxy keep).0.configs ≡ s.configs
unfolding flush_revisions delete_oldest_proxy_revisions
flush-configs s token proxy keep = ground arith

push-others :
    (fails : String → Bool) (limits : ProxyManagementConfig) (s : ProxyStore)
    (token proxy blob : String) (size : ℤ) (q : String)
    → Reach s
    → (check_owner s token proxy ≡ none → proxy ≢ q)
    → history (push_revision fails limits s token proxy blob size).0 q ≡ history s q
unfolding push_revision
push-others fails limits s token proxy blob size q r ne =
    elim (Option-cases (check_owner s token proxy)) [
      | inr (e, bad) ↦ rw (bad, push_revision) refl
      | inl owner ↦
          elim (Bool-cases (over_storage limits (get_total_proxy_storage fails s token) size)) [
            | inl over ↦ rw (owner, push_revision, over) refl
            | inr fits ↦
                push_revision-history fails limits s token proxy blob size q r owner fits
                ∙ ground (arith, str_eq_iff proxy q, ne owner)
          ]
    ]

flush-others :
    (s : ProxyStore) (token proxy : String) (keep : ℤ) (q : String)
    → Reach s
    → (check_owner s token proxy ≡ none → proxy ≢ q)
    → history (flush_revisions s token proxy keep).0 q ≡ history s q
unfolding flush_revisions
flush-others s token proxy keep q r ne = elim (Option-cases (check_owner s token proxy)) [
  | inr (e, bad) ↦ rw (bad, flush_revisions) refl
  | inl owner ↦
      rw (owner, flush_revisions)
        (delete-history s proxy q (if ltb_ℤ keep (pos 1) then 1 else pos_part keep)
            (Reach-IsOrdered r)
          ∙ ground (arith, str_eq_iff proxy q, ne owner))
]

-- In every store that requests fill, no request of one routing token, whatever it is for, changes the entry or the
-- history of a proxy of another.
pub serve-others :
    (fails : String → Bool) (limits : ProxyManagementConfig) (s : ProxyStore) (token : String)
    (request : Request) (q : String) (cfg : ProxyConfig)
    → Reach s
    → find_config q s.configs ≡ some cfg
    → cfg.routing_token ≢ token
    → (find_config q (serve fails limits s token request).configs ≡ some cfg)
      × (history (serve fails limits s token request) q ≡ history s q)
serve-others fails limits s token (create proxy) q cfg r stored other = (
  create-find limits s token proxy q cfg stored ∙ stored,
  ap (of_proxy q) (create_same limits s token proxy).0,
)
serve-others fails limits s token (delete proxy) q cfg r stored other = (
  delete-find s token proxy q cfg stored other ∙ stored,
  ap (of_proxy q) (delete_same s token proxy).0,
)
serve-others fails limits s token (push proxy blob size) q cfg r stored other = (
  ap (find_config q) (push-configs fails limits s token proxy blob size) ∙ stored,
  push-others fails limits s token proxy blob size q r
      (owner-apart s token proxy q cfg stored other),
)
serve-others fails limits s token (flush proxy keep) q cfg r stored other = (
  ap (find_config q) (flush-configs s token proxy keep) ∙ stored,
  flush-others s token proxy keep q r (owner-apart s token proxy q cfg stored other),
)

no_sums :
    (revs : List ProxyRevision) (cfgs : List ProxyConfig)
    → sum_proxies (λ proxy. false) revs cfgs ≡ pos 0
unfolding sum_proxies ◌+ℤ◌
no_sums revs [] = refl
no_sums revs (cfg ∷ cfgs) = rw (no_sums revs cfgs) refl

refused_iff :
    (b : Bool) (s s' : ProxyStore) (num : ℕ)
    → (◌≡◌ {A = ProxyStore × Reply ℕ}
        (if b then (s, denied storage_exceeded) else (s', done num))
        (s, denied storage_exceeded))
      ↔ (b ≡ true)
refused_iff true s s' num = (λ e. refl, λ e. refl)
refused_iff false s s' num = (λ e. cc (ap (λ (x : ProxyStore × Reply ℕ). x.1) e), λ e. cc)

-- As long as the sum of sizes can be queried, the storage limit sees nothing of what is stored: a push by the
-- owner is refused for its storage exactly when the revision by itself is larger than the limit.
pub push_revision-storage :
    (limits : ProxyManagementConfig) (s : ProxyStore) (token proxy blob : String) (size : ℤ)
    → check_owner s token proxy ≡ none
    → (push_revision (λ p. false) limits s token proxy blob size ≡ (s, denied storage_exceeded))
      ↔ (over_storage limits (pos 0) size ≡ true)
unfolding push_revision get_total_proxy_storage
push_revision-storage limits s token proxy blob size owner =
    rw (owner, push_revision, no_sums s.revisions (with_token token s.configs))
      (refused_iff (over_storage limits (pos 0) size) s _ _)
