-- ===== src/Hub/Proxies/Requests.antt =====
-- pkg/hub/server/mobile_server.go: the requests of proxies and revisions. The limits are those of the tier of the
-- routing token.
use nitella.Base.{
  ℕ, ◌+◌, ◌*◌, String, Bool, false, not, ◌&&◌, Option, none, some, List, leb, ◌==◌, if◌then◌else◌,
  str_eq,
}
use nitella.Base.Map
use nitella.Base.Map.{
  Map, lookup-insert, lookup-erase, lookup-retain, lookup-insert_self, lookup-insert_ne,
  lookup-erase_self, lookup-erase_ne,
}
use nitella.Base.Int.{ℤ, pos, pos_part, ltb_ℤ, ◌+ℤ◌}
use nitella.Tier.{TierConfig, ProxyManagementConfig, get_tier_or_default}
use nitella.Hub.Proxies.{
  ProxyRevision, ProxyStore, get_proxy_config, count_proxy_configs, create_proxy_config,
  delete_proxy_config, list_proxy_revisions, count_proxy_revisions, get_latest_proxy_revision,
  get_proxy_revision, create_proxy_revision, delete_oldest_proxy_revisions, get_total_proxy_storage,
}

pub data RequestError : Type 0 where
  token_required : RequestError
  proxy_required : RequestError
  config_not_found : RequestError
  not_authorized : RequestError
  revision_not_found : RequestError
  not_available : RequestError
  proxy_limit_reached : RequestError
  proxy_exists : RequestError
  storage_exceeded : RequestError

pub data Reply (A : Type 0) : Type 0 where
  done : A → Reply A
  denied : RequestError → Reply A

-- `getTierConfigByRoutingToken`, from the tiers of the tokens that are known; there is no answer where the
-- configuration has no tier to fall back on.
unfoldable pub get_tier_config : List TierConfig → Map String → String → Option TierConfig
get_tier_config tiers infos token = elim (Map.lookup token infos) [
  | none ↦ get_tier_or_default tiers "free"
  | some tier ↦ get_tier_or_default tiers (if str_eq tier "" then "free" else tier)
]

-- The checks that every request of a proxy begins with.
unfoldable pub check_owner : ProxyStore → String → String → Option RequestError
check_owner s token proxy =
    if str_eq token ""
    then some token_required
    else if str_eq proxy ""
    then some proxy_required
    else elim (get_proxy_config s proxy) [
      | none ↦ some config_not_found
      | some cfg ↦ if not (str_eq cfg.routing_token token) then some not_authorized else none
    ]

-- `CreateProxyConfig`
unfoldable pub create_proxy :
    ProxyManagementConfig → ProxyStore → String → String → ProxyStore × Reply Unit
create_proxy limits s token proxy =
    if str_eq token ""
    then (s, denied token_required)
    else if str_eq proxy ""
    then (s, denied proxy_required)
    else if not limits.enabled
    then (s, denied not_available)
    else if ltb_ℤ (pos 0) limits.max_proxies
        && leb (pos_part limits.max_proxies) (count_proxy_configs s token)
    then (s, denied proxy_limit_reached)
    else (let (s', created) =
          create_proxy_config s
            (record { proxy_id = proxy; routing_token = token; deleted = false }) in
        if created then (s', done tt) else (s', denied proxy_exists))

-- `DeleteProxyConfig`
unfoldable pub delete_proxy : ProxyStore → String → String → ProxyStore × Reply Unit
delete_proxy s token proxy = elim (check_owner s token proxy) [
  | some e ↦ (s, denied e)
  | none ↦ (delete_proxy_config s proxy, done tt)
]

abbrev pub over_storage : ProxyManagementConfig → ℤ → ℤ → Bool
over_storage limits used size =
    ltb_ℤ (pos 0) limits.max_storage_kb
    && ltb_ℤ (pos (pos_part limits.max_storage_kb * 1024)) (used +ℤ size)

abbrev pub next_num : Option ProxyRevision → ℕ
next_num none = 1
next_num (some rev) = rev.revision_num + 1

-- The pruning after a push.
abbrev pub prune : ProxyManagementConfig → ProxyStore → String → ProxyStore
prune limits s proxy =
    if ltb_ℤ (pos 0) limits.max_revisions_per_proxy
    then (delete_oldest_proxy_revisions s proxy (pos_part limits.max_revisions_per_proxy)).0
    else s

-- `PushRevision`: the number of the new revision. `fails` says where the query of the sum fails.
unfoldable pub push_revision :
    (String → Bool)
    → ProxyManagementConfig
    → ProxyStore
    → String
    → String
    → String
    → ℤ
    → ProxyStore × Reply ℕ
push_revision fails limits s token proxy blob size = elim (check_owner s token proxy) [
  | some e ↦ (s, denied e)
  | none ↦
      if over_storage limits (get_total_proxy_storage fails s token) size
      then (s, denied storage_exceeded)
      else (let num = next_num (get_latest_proxy_revision s proxy) in
          (prune limits (create_proxy_revision s proxy num blob size) proxy, done num))
]

abbrev pub found : Option ProxyRevision → Reply ProxyRevision
found none = denied revision_not_found
found (some rev) = done rev

-- `GetRevision`: number 0 asks for the latest.
unfoldable pub get_revision : ProxyStore → String → String → ℕ → Reply ProxyRevision
get_revision s token proxy num = elim (check_owner s token proxy) [
  | some e ↦ denied e
  | none ↦
      if num == 0
      then found (get_latest_proxy_revision s proxy)
      else found (get_proxy_revision s proxy num)
]

-- `ListRevisions`
unfoldable pub list_revisions : ProxyStore → String → String → Reply (List ProxyRevision)
list_revisions s token proxy = elim (check_owner s token proxy) [
  | some e ↦ denied e
  | none ↦ done (list_proxy_revisions s proxy)
]

-- `FlushRevisions`: how many were deleted and how many remain; the latest is always kept.
unfoldable pub flush_revisions : ProxyStore → String → String → ℤ → ProxyStore × Reply (ℕ × ℕ)
flush_revisions s token proxy keep = elim (check_owner s token proxy) [
  | some e ↦ (s, denied e)
  | none ↦
      let (s', deleted) =
        delete_oldest_proxy_revisions s proxy (if ltb_ℤ keep (pos 1) then 1 else pos_part keep) in
      (s', done (deleted, count_proxy_revisions s' proxy))
]
