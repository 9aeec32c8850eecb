-- ===== src/Hub/RateLimit/Tiered.antt =====
-- pkg/hub/ratelimit/ratelimit.go: the limiter by routing token and tier. The tier of a token is given as the
-- lookup yields it.
use nitella.Base.{
  ℕ, ◌+◌, ◌-◌, ◌*◌, String, ◌≡◌, inl, inr, Bool, true, not, Option, none, some, List, [], ltb,
  if◌then◌else◌, str_eq, Option-cases,
}
use nitella.Base.Map
use nitella.Base.Map.{
  Map, lookup-insert, lookup-erase, lookup-retain, lookup-insert_self, lookup-insert_ne,
  lookup-erase_self, lookup-erase_ne,
}
use nitella.Base.Int.{ℤ, pos, negsuc, ◌-ℤ◌}
use nitella.Tier.{TierConfig, RpcConfig, get_tier, get_tier_or_default}
use nitella.Hub.RateLimit.Bucket.{refilled, take_token}

pub record TierBucket : Type 0 where
  pub tokens : ℤ
  pub last_update : ℕ
  pub tier : String

pub record TieredRateLimiter : Type 0 where
  pub buckets : Map TierBucket
  pub tiers : List TierConfig

-- `NewTieredRateLimiter`, given a configuration
unfoldable pub new_tiered_rate_limiter : List TierConfig → TieredRateLimiter
new_tiered_rate_limiter tiers = record { buckets = []; tiers = tiers }

-- `getTier`: no lookup, or none found, is the free tier.
unfoldable pub tier_id : Option String → String
tier_id none = "free"
tier_id (some id) = if str_eq id "" then "free" else id

-- The tier that applies; there may be none, and then `Allow` panics.
unfoldable pub config_for : List TierConfig → String → Option TierConfig
config_for tiers id = elim (get_tier_or_default tiers id) [
  | none ↦ get_tier tiers "free"
  | some t ↦ some t
]

-- A bucket in another tier starts anew with that tier's burst.
abbrev pub retiered : TierBucket → String → RpcConfig → TierBucket
retiered b id rpc =
    if not (str_eq b.tier id) then record b { tier = id; tokens = pos rpc.burst_size } else b

abbrev pub spent : TierBucket → RpcConfig → ℕ → ℤ × Bool
spent b rpc now =
    take_token (refilled b.tokens (now - b.last_update) rpc.requests_per_second rpc.burst_size)

-- `Allow` with the tier at hand.
unfoldable pub allow_in :
    TieredRateLimiter → String → String → RpcConfig → ℕ → TieredRateLimiter × Bool
allow_in trl token id rpc now = elim (Map.lookup token trl.buckets) [
  | none ↦ (
    record trl {
      buckets =
          Map.insert token
            (record { tokens = pos rpc.burst_size -ℤ pos 1; last_update = now; tier = id })
            trl.buckets;
    },
    true,
  )
  | some b ↦
      let b' = retiered b id rpc in
      let (tokens, allowed) = spent b' rpc now in
      (
        record trl {
          buckets = Map.insert token (record b' { tokens = tokens; last_update = now }) trl.buckets;
        },
        allowed,
      )
]

-- `Allow`, `none` if it panics.
unfoldable pub allow :
    TieredRateLimiter → String → Option String → ℕ → Option (TieredRateLimiter × Bool)
allow trl token found now = elim (config_for trl.tiers (tier_id found)) [
  | none ↦ none
  | some t ↦ some (allow_in trl token (tier_id found) t.rpc now)
]

-- `GetRemainingTokens`
unfoldable pub get_remaining_tokens : TieredRateLimiter → String → ℤ
get_remaining_tokens trl token = elim (Map.lookup token trl.buckets) [
  | none ↦ negsuc 0
  | some b ↦ b.tokens
]

-- `GetTierLimit`
unfoldable pub get_tier_limit : TieredRateLimiter → Option String → ℕ
get_tier_limit trl found = elim (get_tier_or_default trl.tiers (tier_id found)) [
  | none ↦ 10
  | some t ↦ t.rpc.requests_per_second
]

-- One round of `cleanup`, ten minutes after the last use.
unfoldable pub cleanup : TieredRateLimiter → ℕ → TieredRateLimiter
cleanup trl now = record trl {
  buckets =
      Map.retain (λ (b : TierBucket). not (ltb (b.last_update + 600 * 1000000000) now)) trl.buckets;
}

-- The interceptors: the token of the context, or else that of the request; a call with none is not limited.
unfoldable pub intercept :
    TieredRateLimiter → String → String → Option String → ℕ → Option (TieredRateLimiter × Bool)
intercept trl context_token request_token found now =
    let token = if str_eq context_token "" then request_token else context_token in
    if str_eq token "" then some (trl, true) else allow trl token found now

abbrev pub known_or : TierConfig → Option TierConfig → TierConfig
known_or free none = free
known_or free (some t) = t

default_tier :
    (tiers : List TierConfig) (id : String) (free : TierConfig)
    → get_tier tiers "free" ≡ some free
    → get_tier_or_default tiers id ≡ some (known_or free (get_tier tiers id))
unfolding get_tier_or_default
default_tier tiers id free h = elim (Option-cases (get_tier tiers id)) [
  | inl e ↦ rw (e, get_tier_or_default) h
  | inr (t, e) ↦ rw (e, get_tier_or_default)
]

-- With a free tier configured `Allow` always answers: a token whose tier is known is held to that tier, and
-- every other one to the free tier.
pub allow-known_or :
    (trl : TieredRateLimiter) (token : String) (found : Option String) (now : ℕ) (free : TierConfig)
    → get_tier trl.tiers "free" ≡ some free
    → allow trl token found now
      ≡ some (
          allow_in trl token
            (tier_id found)
            (known_or free (get_tier trl.tiers (tier_id found))).rpc
            now)
unfolding allow config_for
allow-known_or trl token found now free h =
    rw (allow, config_for, default_tier trl.tiers (tier_id found) free h)
