-- ===== src/Hub/Proxies/History.antt =====
-- pkg/hub/server/mobile_server.go: the history of a proxy under the requests for it and for others.
use nitella.Base.{
  ℕ, zero, suc, String, ◌≡◌, refl, ap, ◌∙◌, Bool, false, Option, none, some, List, ◌∷◌, arith, ◌==◌,
  if◌then◌else◌, str_eq, str_eq_iff,
}
use nitella.Base.Int.{ℤ, pos_part}
use nitella.Tier.{ProxyManagementConfig}
use nitella.Hub.Proxies.{
  get_proxy_revision, get_proxy_config, delete_oldest_proxy_revisions, numbered, ProxyRevision,
  ProxyStore, first, get_latest_proxy_revision, create_proxy_revision, get_total_proxy_storage,
}
use nitella.Hub.Proxies.Requests.{
  found, Reply, get_revision, done, check_owner, push_revision, next_num, over_storage,
}
use nitella.Hub.Proxies.Reached.{Reach, Reach-IsOrdered, push_lem, prune-history, push-IsOrdered}
use nitella.Hub.Proxies.Revisions.{capped}
use nitella.Hub.Proxies.Pushes.{create-history, pushed, create-IsOrdered, history, sorted_history}

-- What a push does to a history: the new revision comes first, and no more than the limit of the tier are kept,
-- if it has one.
abbrev pub after_push :
    ProxyManagementConfig → ProxyRevision → List ProxyRevision → List ProxyRevision
after_push limits rev revs = capped (pos_part limits.max_revisions_per_proxy) (rev ∷ revs)

-- In every store that requests fill, a push by the owner of a proxy that is within the storage limit puts
-- the new revision, under the number after the latest one, in front of the history of the proxy, of
-- which it keeps the latest revisions up to the limit of the tier; no other history changes.
pub push_revision-history :
    (fails : String → Bool) (limits : ProxyManagementConfig) (s : ProxyStore)
    (token proxy blob : String) (size : ℤ) (q : String)
    → Reach s
    → check_owner s token proxy ≡ none
    → over_storage limits (get_total_proxy_storage fails s token) size ≡ false
    → history (push_revision fails limits s token proxy blob size).0 q ≡ (
        if str_eq proxy q
        then after_push limits (pushed s proxy blob size) (history s q)
        else history s q)
push_revision-history fails limits s token proxy blob size q r owner fits =
    let o = Reach-IsOrdered r in
    let s' = create_proxy_revision s proxy (next_num (first (history s proxy))) blob size in
    rw (push_lem fails limits s token proxy blob size o owner fits) (
      prune-history limits s' proxy q (create-IsOrdered s proxy blob size o)
      ∙ ground (arith, create-history s proxy q blob size))

first-capped :
    (keep : ℕ) (rev : ProxyRevision) (revs : List ProxyRevision)
    → first (capped keep (rev ∷ revs)) ≡ some rev
first-capped zero rev revs = refl
first-capped (suc k) rev revs = refl

numbered-capped :
    (keep : ℕ) (rev : ProxyRevision) (revs : List ProxyRevision)
    → numbered rev.revision_num (capped keep (rev ∷ revs)) ≡ some rev
unfolding numbered
numbered-capped zero rev revs = ground arith
numbered-capped (suc k) rev revs = ground arith

next_num-pos : (o : Option ProxyRevision) → (next_num o == 0) ≡ false
next_num-pos none = refl
next_num-pos (some rev) = ground arith

pub push-configs :
    (fails : String → Bool) (limits : ProxyManagementConfig) (s : ProxyStore)
    (token proxy blob : String) (size : ℤ)
    → (push_revision fails limits s token proxy blob size).0.configs ≡ s.configs
unfolding push_revision delete_oldest_proxy_revisions create_proxy_revision
push-configs fails limits s token proxy blob size = ground arith

owner-configs :
    (s s' : ProxyStore) (token proxy : String)
    → s'.configs ≡ s.configs
    → check_owner s' token proxy ≡ check_owner s token proxy
unfolding check_owner get_proxy_config
owner-configs s s' token proxy same = rw (same) refl

-- What the owner of a proxy has pushed within the storage limit is what she gets back, both as the latest
-- revision and by the number that the push was answered with.
pub push_revision-get_revision :
    (fails : String → Bool) (limits : ProxyManagementConfig) (s : ProxyStore)
    (token proxy blob : String) (size : ℤ)
    → Reach s
    → check_owner s token proxy ≡ none
    → over_storage limits (get_total_proxy_storage fails s token) size ≡ false
    → (num : ℕ) × ((push_revision fails limits s token proxy blob size).1 ≡ done num)
      × (get_revision (push_revision fails limits s token proxy blob size).0 token proxy 0
          ≡ done (pushed s proxy blob size))
      × (get_revision (push_revision fails limits s token proxy blob size).0 token proxy num
          ≡ done (pushed s proxy blob size))
unfolding get_revision get_latest_proxy_revision get_proxy_revision
push_revision-get_revision fails limits s token proxy blob size r owner fits =
    let o = Reach-IsOrdered r in
    let s' = (push_revision fails limits s token proxy blob size).0 in
    let rev = pushed s proxy blob size in
    let keep = pos_part limits.max_revisions_per_proxy in
    let owned =
      owner-configs s s' token proxy (push-configs fails limits s token proxy blob size) ∙ owner in
    let kept = push_revision-history fails limits s token proxy blob size proxy r owner fits in
    let same = (str_eq_iff proxy proxy).1 refl in
    (
      rev.revision_num,
      ap (λ (x : ProxyStore × Reply ℕ). x.1)
          (push_lem fails limits s token proxy blob size o owner fits),
      rw
          (
            owned,
            get_revision,
            sorted_history s' proxy (push-IsOrdered fails limits s token proxy blob size o),
            kept,
            same,
          )
          (ap found (first-capped keep rev (history s proxy))),
      rw (owned, get_revision, kept, same, next_num-pos (first (history s proxy)))
          (ap found (numbered-capped keep rev (history s proxy))),
    )
