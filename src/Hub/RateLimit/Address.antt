-- ===== src/Hub/RateLimit/Address.antt =====
-- pkg/hub/ratelimit/ip.go: the limiter by the client's address.
use nitella.Base.{
  ℕ, ◌+◌, ◌-◌, String, Bool, true, not, Option, none, some, [], ltb, if◌then◌else◌, str_eq,
}
use nitella.Base.Map
use nitella.Base.Map.{
  Map, lookup-insert, lookup-erase, lookup-retain, lookup-insert_self, lookup-insert_ne,
  lookup-erase_self, lookup-erase_ne,
}
use nitella.Base.Int.{ℤ, pos, ◌-ℤ◌}
use nitella.Net.HostPort.{split_host}
use nitella.Hub.RateLimit.Bucket.{refilled, take_token}

pub record IpBucket : Type 0 where
  pub tokens : ℤ
  pub last_update : ℕ

pub record IpRateLimiter : Type 0 where
  pub buckets : Map IpBucket
  pub rate_limit : ℕ
  pub burst_size : ℕ
  pub bucket_expiry : ℕ

-- `NewIPRateLimiter`
unfoldable pub new_ip_rate_limiter : ℕ → ℕ → ℕ → IpRateLimiter
new_ip_rate_limiter rate burst expiry = record {
  buckets = [];
  rate_limit = rate;
  burst_size = burst;
  bucket_expiry = expiry;
}

-- `Allow`
unfoldable pub allow : IpRateLimiter → String → ℕ → IpRateLimiter × Bool
allow rl ip now = elim (Map.lookup ip rl.buckets) [
  | none ↦ (
    record rl {
      buckets =
          Map.insert ip (record { tokens = pos rl.burst_size -ℤ pos 1; last_update = now })
            rl.buckets;
    },
    true,
  )
  | some b ↦
      let (tokens, allowed) =
        take_token (refilled b.tokens (now - b.last_update) rl.rate_limit rl.burst_size) in
      (
        record rl {
          buckets = Map.insert ip (record { tokens = tokens; last_update = now }) rl.buckets;
        },
        allowed,
      )
]

-- `cleanupStale`: the buckets that were not used for too long.
unfoldable pub cleanup_stale : IpRateLimiter → ℕ → IpRateLimiter
cleanup_stale rl now = record rl {
  buckets =
      Map.retain (λ (b : IpBucket). not (ltb (b.last_update + rl.bucket_expiry) now)) rl.buckets;
}

-- `extractIP`, of the peer's address if there is a peer.
unfoldable pub extract_ip : Option String → String
extract_ip none = ""
extract_ip (some addr) = elim (split_host addr) [ none ↦ addr | some host ↦ host ]

-- The two interceptors: whether the handler is called. A call with no address is not limited.
unfoldable pub intercept : IpRateLimiter → Option String → ℕ → IpRateLimiter × Bool
intercept rl peer now =
    let ip = extract_ip peer in if str_eq ip "" then (rl, true) else allow rl ip now
