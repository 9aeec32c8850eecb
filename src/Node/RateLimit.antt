-- ===== src/Node/RateLimit.antt =====
-- pkg/node/ratelimit.go: the per-rule limiter. Times are nanoseconds since Go's zero time, and each
-- reading of the clock is an argument. The settings are int32 in the source and taken as not
-- negative here, so that no product of seconds passes int64 and `max - 1`, cut off at 0, is the
-- source's clamp.
pub mod Isolation
pub mod Blocks
pub mod Window
pub mod Cleanup
pub mod Escalation
mod Examples
use nitella.Base.{
  ℕ, ◌+◌, ◌-◌, ◌*◌, String, Bool, true, false, not, ◌&&◌, List, [], ◌∷◌, Option, none, some, ltb,
  leb, ◌==◌, if◌then◌else◌, length, get_or,
}
use nitella.Base.Map
use nitella.Base.Map.{Map}

abbrev pub second : ℕ
second = 1000000000

pub record RateLimitConfig : Type 0 where
  pub max_connections : ℕ
  pub interval_seconds : ℕ
  pub auto_block : Bool
  pub block_duration_seconds : ℕ
  pub block_steps_seconds : List ℕ
  pub count_only_failures : Bool
  pub failure_duration_threshold : ℕ

pub record IpState : Type 0 where
  pub count : ℕ
  pub first_seen : ℕ
  pub last_seen : ℕ
  pub failed_count : ℕ
  pub ban_level : ℕ

pub record RateLimiter : Type 0 where
  pub config : RateLimitConfig
  pub open config use *
  pub counters : Map IpState
  pub blocks : Map ℕ

-- `NewRateLimiter`: no limiter without a configuration.
unfoldable pub new_rate_limiter : Option RateLimitConfig → Option RateLimiter
new_rate_limiter none = none
new_rate_limiter (some config) = some (record { config = config; counters = []; blocks = [] })

-- The threshold of `cleanup`, twice the interval.
abbrev pub stale_threshold : RateLimitConfig → ℕ
stale_threshold c =
    (if c.interval_seconds * second == 0 then 60 * second else c.interval_seconds * second) * 2

unfoldable pub cleanup : RateLimiter → ℕ → RateLimiter
cleanup rl now = record rl {
  blocks = Map.retain (λ expiry. not (ltb expiry now)) rl.blocks;
  counters =
      Map.retain (λ (st : IpState). not (ltb (stale_threshold rl.config) (now - st.last_seen)))
        rl.counters;
}

-- An expired block is dropped, and a failure counter is left one short of the limit.
unfoldable pub lift_block : RateLimiter → String → ℕ → RateLimiter
lift_block rl ip now = record rl {
  blocks = Map.erase ip rl.blocks;
  counters = elim (Map.lookup ip rl.counters) [
    | none ↦ rl.counters
    | some st ↦
        if rl.count_only_failures
        then Map.insert ip (record st { failed_count = rl.max_connections - 1; first_seen = now })
            rl.counters
        else rl.counters
  ];
}

-- A state whose interval has passed starts a new window.
unfoldable pub roll_window : RateLimitConfig → ℕ → IpState → IpState
roll_window c now st =
    if ltb (c.interval_seconds * second) (now - st.first_seen)
    then record st { count = 0; failed_count = 0; first_seen = now }
    else st

abbrev pub fresh_state : ℕ → IpState
fresh_state now = record {
  count = 0;
  first_seen = now;
  last_seen = now;
  failed_count = 0;
  ban_level = 0;
}

-- The count test of `Check`, on the state that `roll_window` leaves.
unfoldable pub check_count : RateLimiter → String → ℕ → IpState → RateLimiter × Bool
check_count rl ip now st =
    let kept = record rl { counters = Map.insert ip st rl.counters } in
    if not rl.count_only_failures && leb rl.max_connections st.count
    then (
      if rl.auto_block
          then record kept {
            blocks = Map.insert ip (now + rl.block_duration_seconds * second) rl.blocks;
          }
          else kept,
      false,
    )
    else (kept, true)

unfoldable pub check_window : RateLimiter → String → ℕ → RateLimiter × Bool
unfolding roll_window check_count
check_window rl ip now = elim (Map.lookup ip rl.counters) [
  | none ↦ (record rl { counters = Map.insert ip (fresh_state now) rl.counters }, true)
  | some st ↦ check_count rl ip now (roll_window rl.config now st)
]

-- `Check`. The clock is read for the block, for the probation window, and for the rate window.
unfoldable pub check : RateLimiter → String → ℕ → ℕ → ℕ → RateLimiter × Bool
check rl ip t_block t_probation now = elim (Map.lookup ip rl.blocks) [
  | none ↦ check_window rl ip now
  | some expiry ↦
      if ltb t_block expiry then (rl, false) else check_window (lift_block rl ip t_probation) ip now
]

-- `TrackConnection`. A state that is missing is made with the zero time as `last_seen`.
unfoldable pub track_connection : RateLimiter → String → ℕ → RateLimiter
track_connection rl ip now = record rl {
  counters = elim (Map.lookup ip rl.counters) [
    | none ↦ Map.insert ip (record (fresh_state now) { count = 1; last_seen = 0 }) rl.counters
    | some st ↦ Map.insert ip (record st { count = st.count + 1; last_seen = now }) rl.counters
  ];
}

abbrev pub failure_threshold : RateLimitConfig → ℕ
failure_threshold c =
    if c.failure_duration_threshold * second == 0
    then second
    else c.failure_duration_threshold * second

-- The length of a ban, and whether the ban level rises: past the last step the last one stays.
unfoldable pub block_duration : RateLimitConfig → ℕ → ℕ × Bool
block_duration c level =
    let steps = c.block_steps_seconds in
    if ltb 0 (length steps)
    then (
      get_or steps (if leb (length steps) level then length steps - 1 else level) 0 * second,
      true,
    )
    else ((if c.block_duration_seconds == 0 then 600 else c.block_duration_seconds) * second, false)

-- The branch of `ReportResult` for a failure.
unfoldable pub report_failure : RateLimiter → String → ℕ → IpState → RateLimiter
report_failure rl ip now st =
    let failed = st.failed_count + 1 in
    if leb rl.max_connections failed && rl.auto_block
    then (let (duration, escalates) = block_duration rl.config st.ban_level in
        record rl {
          counters =
              Map.insert ip
                (record st {
                  failed_count = failed;
                  ban_level = if escalates then st.ban_level + 1 else st.ban_level;
                })
                rl.counters;
          blocks = Map.insert ip (now + duration) rl.blocks;
        })
    else record rl { counters = Map.insert ip (record st { failed_count = failed }) rl.counters }

unfoldable pub report_result : RateLimiter → String → ℕ → ℕ → RateLimiter
unfolding report_failure
report_result rl ip duration now =
    if rl.count_only_failures
    then elim (Map.lookup ip rl.counters) [
      | none ↦ rl
      | some st ↦
          if ltb duration (failure_threshold rl.config) then report_failure rl ip now st else rl
    ]
    else rl
