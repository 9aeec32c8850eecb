-- ===== src/Tier.antt =====
-- pkg/tier/config.go: the tiers of a subscription and their limits. A limit is an int, and one of 0 or below
-- means that there is none.
use nitella.Base.{
  ℕ, String, Bool, true, not, Option, none, some, List, [], ◌∷◌, if◌then◌else◌, str_eq,
}
use nitella.Base.Int.{ℤ, pos, ltb_ℤ}

pub record RpcConfig : Type 0 where
  pub requests_per_second : ℕ
  pub burst_size : ℕ
  pub max_streams : ℤ

pub record ProxyManagementConfig : Type 0 where
  pub enabled : Bool
  pub max_proxies : ℤ
  pub max_revisions_per_proxy : ℤ
  pub max_storage_kb : ℤ
  pub ttl_days : ℤ

-- `AuditConfig` and `LogsConfig`, which have the same fields.
pub record LogLimits : Type 0 where
  pub max_logs : ℤ
  pub retention_days : ℤ

-- A tier without its display name, its streaming mode and the deprecated template limits.
pub record TierConfig : Type 0 where
  pub id : String
  pub max_nodes : ℤ
  pub max_proxies : ℤ
  pub monthly_push_limit : ℤ
  pub license_prefix : String
  pub rpc : RpcConfig
  pub proxy_management : ProxyManagementConfig
  pub audit : LogLimits
  pub logs : LogLimits

-- `GetTier`: the first tier of an id.
unfoldable pub get_tier : List TierConfig → String → Option TierConfig
get_tier [] id = none
get_tier (t ∷ ts) id = if str_eq t.id id then some t else get_tier ts id

-- `GetTierOrDefault`
unfoldable pub get_tier_or_default : List TierConfig → String → Option TierConfig
get_tier_or_default tiers id = elim (get_tier tiers id) [
  | some t ↦ some t
  | none ↦ get_tier tiers "free"
]

-- `IsUnlimited`
unfoldable pub is_unlimited : ℤ → Bool
is_unlimited limit = not (ltb_ℤ (pos 0) limit)

-- The common form of the checks below: whether one more keeps to a limit.
unfoldable pub below : ℤ → ℤ → Bool
unfolding is_unlimited
below limit current = if is_unlimited limit then true else ltb_ℤ current limit

unfoldable pub check_node_limit : TierConfig → ℤ → Bool
check_node_limit t current = below t.max_nodes current

unfoldable pub check_proxy_limit : TierConfig → ℤ → Bool
check_proxy_limit t current = below t.max_proxies current

unfoldable pub check_push_limit : TierConfig → ℤ → Bool
check_push_limit t current = below t.monthly_push_limit current

unfoldable pub check_proxy_config_limit : TierConfig → ℤ → Bool
check_proxy_config_limit t current = below t.proxy_management.max_proxies current

unfoldable pub check_revision_limit : TierConfig → ℤ → Bool
check_revision_limit t current = below t.proxy_management.max_revisions_per_proxy current

unfoldable pub check_audit_log_limit : TierConfig → ℤ → Bool
check_audit_log_limit t current = below t.audit.max_logs current

unfoldable pub check_log_limit : TierConfig → ℤ → Bool
check_log_limit t current = below t.logs.max_logs current
