-- ===== src/Hub/RateLimit/Examples.antt =====
-- pkg/hub/ratelimit: the theorems on the limiters at concrete calls.
use nitella.Base.{ℕ, ◌+◌, ◌*◌, ◌/◌, ◌≤◌, ◌≡◌, refl, true, List, [], ◌∷◌, arith}
use nitella.Base.Map
use nitella.Base.Map.{
  Map, lookup-insert, lookup-erase, lookup-retain, lookup-insert_self, lookup-insert_ne,
  lookup-erase_self, lookup-erase_ne,
}
use nitella.Base.Int.{pos, pos_part}
use nitella.Tier.{TierConfig}
use nitella.Hub.RateLimit.Bucket.{second}
use nitella.Hub.RateLimit.Address.{IpBucket, IpRateLimiter}
use nitella.Hub.RateLimit.Budget.{allowed_calls, total, allowed_calls-le, allowed_calls_starved}
use nitella.Hub.RateLimit.Tiered.{TieredRateLimiter}

abbrev bucket : IpBucket
bucket = record { tokens = pos 1; last_update = 1000000000 }

abbrev limiter : IpRateLimiter
limiter = record {
  buckets = ("10.0.0.7", bucket) ∷ [];
  rate_limit = 5;
  burst_size = 10;
  bucket_expiry = 600000000000;
}

abbrev gaps : List ℕ
gaps = 5 ∷ 2500000000 ∷ 7 ∷ []

allowed_calls-le_example :
    allowed_calls limiter "10.0.0.7" 1000000000 gaps ≤ pos_part (pos 1) + total gaps / second * 5
unfolding Map.lookup
allowed_calls-le_example = allowed_calls-le limiter "10.0.0.7" bucket gaps refl

abbrev spent_limiter : IpRateLimiter
spent_limiter = record limiter { buckets = ("10.0.0.7", record bucket { tokens = pos 0 }) ∷ [] }

allowed_calls_starved_example :
    allowed_calls spent_limiter "10.0.0.7" 1000000000 (900000000 ∷ 900000000 ∷ 900000000 ∷ []) ≡ 0
unfolding Map.lookup
allowed_calls_starved_example =
    allowed_calls_starved spent_limiter "10.0.0.7" (record bucket { tokens = pos 0 })
      (900000000 ∷ 900000000 ∷ 900000000 ∷ []) refl refl
      (omega arith, (omega arith, (omega arith, tt)))

abbrev free : TierConfig
free = record {
  id = "free";
  max_nodes = pos 3;
  max_proxies = pos 5;
  monthly_push_limit = pos 10;
  license_prefix = "";
  rpc = record { requests_per_second = 10; burst_size = 20; max_streams = pos 2 };
  proxy_management = record {
    enabled = true;
    max_proxies = pos 3;
    max_revisions_per_proxy = pos 1;
    max_storage_kb = pos 100;
    ttl_days = pos 7;
  };
  audit = record { max_logs = pos 1000; retention_days = pos 7 };
  logs = record { max_logs = pos 10000; retention_days = pos 7 };
}

abbrev tiers : TieredRateLimiter
tiers = record { buckets = []; tiers = free ∷ [] }
