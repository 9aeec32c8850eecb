-- ===== src/Node/RateLimit/Blocks.antt =====
-- pkg/node/ratelimit.go: bans, their escalation, and the probation after one.
use nitella.Base.{
  ℕ, zero, suc, ◌+◌, ◌-◌, ◌*◌, ◌≤◌, ◌<◌, String, ◌≡◌, refl, inl, inr, true, false, none, some, List,
  [], ◌∷◌, arith, ltb, leb, ◌==◌, if◌then◌else◌, length, get_or, Bool-cases,
}
use nitella.Base.Map
use nitella.Base.Map.{
  Map, lookup-insert, lookup-erase, lookup-retain, lookup-insert_self, lookup-insert_ne,
  lookup-erase_self, lookup-erase_ne,
}
use nitella.Node.RateLimit.{
  RateLimitConfig, RateLimiter, IpState, second, lift_block, check_window, check, failure_threshold,
  block_duration, report_result,
}

-- What `ReportResult` needs to count a connection as a failure.
pub record Fails (rl : RateLimiter) (ip : String) (duration : ℕ) : Type 0 where
  pub counting : rl.count_only_failures ≡ true
  pub blocking : rl.auto_block ≡ true
  pub st : IpState
  pub stored : Map.lookup ip rl.counters ≡ some st
  pub short : duration < failure_threshold rl.config

-- The step of a ban level, the last one for a level beyond it.
abbrev pub step_at : ℕ → List ℕ → ℕ → ℕ
step_at step [] level = step
step_at step (next ∷ steps) zero = step
step_at step (next ∷ steps) (suc level) = step_at next steps level

-- The seconds of a ban: by its level, or without steps the configured time, which is ten minutes if it is 0.
abbrev pub ban_seconds : RateLimitConfig → List ℕ → ℕ → ℕ
ban_seconds config [] level =
    if config.block_duration_seconds == 0 then 600 else config.block_duration_seconds
ban_seconds config (step ∷ steps) level = step_at step steps level

-- A ban level rises where there are steps.
abbrev pub next_level : List ℕ → ℕ → ℕ
next_level [] level = level
next_level (step ∷ steps) level = level + 1

get_or-step_at :
    (step : ℕ) (steps : List ℕ) (level : ℕ)
    → get_or (step ∷ steps) (if leb (suc (length steps)) level then length steps else level) 0
      ≡ step_at step steps level
get_or-step_at step [] zero = refl
get_or-step_at step [] (suc level) = ground arith
get_or-step_at step (next ∷ steps) zero = ground arith
get_or-step_at step (next ∷ steps) (suc level) =
    elim (Bool-cases (leb (suc (length steps)) level)) [
      | inl beyond ↦ ground (arith, beyond, get_or-step_at next steps level)
      | inr within ↦ ground (arith, within, get_or-step_at next steps level)
    ]

raised-next_level :
    (steps : List ℕ) (level : ℕ)
    → (if ltb 0 (length steps) then level + 1 else level) ≡ next_level steps level
raised-next_level [] level = refl
raised-next_level (step ∷ steps) level = ground arith

block_duration-ban_seconds :
    (config : RateLimitConfig) (steps : List ℕ) (level : ℕ)
    → config.block_steps_seconds ≡ steps
    → block_duration config level ≡ (ban_seconds config steps level * second, ltb 0 (length steps))
unfolding block_duration
block_duration-ban_seconds config [] level e = rw (e) refl
block_duration-ban_seconds config (step ∷ steps) level e =
    rw (e) (ground (arith, get_or-step_at step steps level))

-- A failure that reaches the limit bans the address for the time of its ban level: every check
-- before the end of the ban refuses it and changes nothing. Where there are steps the level is one higher then.
pub report_result-check :
    (rl : RateLimiter) (ip : String) (duration now : ℕ) (f : Fails rl ip duration)
    → rl.max_connections ≤ f.st.failed_count + 1
    → (t_block t_probation t : ℕ)
    → t_block < now + ban_seconds rl.config rl.block_steps_seconds f.st.ban_level * second
    → let banned = report_result rl ip duration now in
      (check banned ip t_block t_probation t ≡ (banned, false))
      × (Map.lookup ip banned.counters
          ≡ some (record f.st {
            failed_count = f.st.failed_count + 1;
            ban_level = next_level rl.block_steps_seconds f.st.ban_level;
          }))
unfolding report_result check
report_result-check rl ip duration now f limit t_block t_probation t before =
    let same = block_duration-ban_seconds rl.config rl.block_steps_seconds f.st.ban_level refl in
    (
      grind (arith, lookup-insert_self, same),
      grind (
        arith,
        lookup-insert_self,
        same,
        raised-next_level rl.block_steps_seconds f.st.ban_level,
      ),
    )

abbrev on_probation : RateLimiter → ℕ → IpState → IpState
on_probation rl t st = record st { failed_count = rl.max_connections - 1; first_seen = t }

-- The limiter that `Check` leaves behind when it lifts a ban.
record Lifted (rl rl' : RateLimiter) (ip : String) (t : ℕ) (st : IpState) : Type 0 where
  config : rl'.config ≡ rl.config
  stored : Map.lookup ip rl'.counters ≡ some (on_probation rl t st)
  free : Map.lookup ip rl'.blocks ≡ none

module _ (rl : RateLimiter) (ip : String) (counting : rl.count_only_failures ≡ true) (st : IpState)
    (stored : Map.lookup ip rl.counters ≡ some st) (t_probation : ℕ) where
  lift_block-Lifted : Lifted rl (lift_block rl ip t_probation) ip t_probation st
  unfolding lift_block
  lift_block-Lifted = grind (arith, lookup-insert_self, lookup-erase_self)

  check_window-Lifted :
      (rl' : RateLimiter) (now : ℕ)
      → Lifted rl rl' ip t_probation st
      → now - t_probation ≤ rl.interval_seconds * second
      → ((check_window rl' ip now).1 ≡ true)
        × Lifted rl (check_window rl' ip now).0 ip t_probation st
  unfolding check_window
  check_window-Lifted rl' now l near = grind (arith, lookup-insert_self)

  check-Lifted :
      (expiry t_block now : ℕ)
      → Map.lookup ip rl.blocks ≡ some expiry
      → expiry ≤ t_block
      → now - t_probation ≤ rl.interval_seconds * second
      → let (rl', allowed) = check rl ip t_block t_probation now in
        (allowed ≡ true) × Lifted rl rl' ip t_probation st
  unfolding check
  check-Lifted expiry t_block now blocked expired near = ground (
    arith,
    lift_block-Lifted,
    check_window-Lifted (lift_block rl ip t_probation) now lift_block-Lifted near,
  )

  report_result-Lifted :
      (rl' : RateLimiter) (duration now : ℕ)
      → Lifted rl rl' ip t_probation st
      → rl.auto_block ≡ true
      → 0 < rl.max_connections
      → duration < failure_threshold rl.config
      → Map.lookup ip (report_result rl' ip duration now).blocks
        ≡ some (now + (block_duration rl.config st.ban_level).0)
  unfolding report_result
  report_result-Lifted rl' duration now l blocking positive short =
      grind (arith, lookup-insert_self)

-- After a ban has run out the address is let in, on probation: one more failure bans it again.
pub check-report_result_probation :
    (rl : RateLimiter) (ip : String) (duration : ℕ) (f : Fails rl ip duration)
    → (expiry t_block t_probation now t_result : ℕ) → 0 < rl.max_connections
    → Map.lookup ip rl.blocks ≡ some expiry
    → expiry ≤ t_block
    → now - t_probation ≤ rl.interval_seconds * second
    → let (rl', allowed) = check rl ip t_block t_probation now in
      (allowed ≡ true)
      × (Map.lookup ip (report_result rl' ip duration t_result).blocks
          ≡ some (t_result + (block_duration rl.config f.st.ban_level).0))
check-report_result_probation rl ip duration f expiry t_block t_probation now t_result positive
      blocked expired near =
    let (allowed, l) =
      check-Lifted rl ip f.counting f.st f.stored t_probation expiry t_block now blocked expired
        near in
    (
      allowed,
      report_result-Lifted rl ip f.counting f.st f.stored t_probation _ duration t_result l
          f.blocking positive f.short,
    )
