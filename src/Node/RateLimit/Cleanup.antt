-- ===== src/Node/RateLimit/Cleanup.antt =====
-- pkg/node/ratelimit.go: what the periodic cleanup hides from `Check`, and what it loses.
use nitella.Base.{
  ◌<◌, ℕ, ◌-◌, ◌*◌, ◌≤◌, String, ◌≡◌, Bool, true, not, ◌&&◌, ◌||◌, Option, none, some, arith, ltb,
}
use nitella.Base.Map
use nitella.Base.Map.{
  Map, lookup-insert, lookup-erase, lookup-retain, lookup-insert_self, lookup-insert_ne,
  lookup-erase_self, lookup-erase_ne,
}
use nitella.Node.RateLimit.{
  stale_threshold, report_result, cleanup, RateLimiter, IpState, second, lift_block, check_window,
  check,
}

-- A stored state was last seen in its window or later.
abbrev pub IsOrdered : Option IpState → Type 0
IsOrdered none = Unit
IsOrdered (some st) = st.first_seen ≤ st.last_seen

-- What the window check answers, as a function of the state that is stored.
abbrev window_verdict : RateLimiter → ℕ → Option IpState → Bool
window_verdict rl now none = true
window_verdict rl now (some st) =
    rl.count_only_failures
    || (ltb (rl.interval_seconds * second) (now - st.first_seen) && ltb 0 rl.max_connections)
    || (not (ltb (rl.interval_seconds * second) (now - st.first_seen))
        && ltb st.count rl.max_connections)

check_window-verdict :
    (rl : RateLimiter) (ip : String) (now : ℕ)
    → (check_window rl ip now).1 ≡ window_verdict rl now (Map.lookup ip rl.counters)
unfolding check_window
check_window-verdict rl ip now = ground arith

-- What `Check` answers, as a function of the block and the state that are stored.
abbrev verdict : RateLimiter → ℕ → ℕ → Option ℕ → Option IpState → Bool
verdict rl t_block now none st = window_verdict rl now st
verdict rl t_block now (some expiry) st =
    not (ltb t_block expiry) && (rl.count_only_failures || window_verdict rl now st)

check-verdict :
    (rl : RateLimiter) (ip : String) (t_block t_probation now : ℕ)
    → (check rl ip t_block t_probation now).1
      ≡ verdict rl t_block now (Map.lookup ip rl.blocks) (Map.lookup ip rl.counters)
unfolding check lift_block
check-verdict rl ip t_block t_probation now = grind (
  arith,
  check_window-verdict rl ip now,
  check_window-verdict (lift_block rl ip t_probation) ip now,
  lookup-insert_self,
)

-- A cleanup does not change what the next check of an address answers, at whatever time that comes, when the
-- limit is not 0 and the address was last seen in its window.
pub check-cleanup :
    (rl : RateLimiter) (ip : String) (swept t_block t_probation now : ℕ)
    → 0 < rl.max_connections
    → IsOrdered (Map.lookup ip rl.counters)
    → swept ≤ t_block
    → swept ≤ now
    → (check (cleanup rl swept) ip t_block t_probation now).1
      ≡ (check rl ip t_block t_probation now).1
unfolding cleanup
check-cleanup rl ip swept t_block t_probation now positive ordered h k =
    rw
      (
        check-verdict (cleanup rl swept) ip t_block t_probation now,
        check-verdict rl ip t_block t_probation now,
      )
      (grind (arith, lookup-retain))

-- A cleanup that comes between the end of a ban and the next check loses the probation: if the
-- failure window has passed too, one more failure does not ban the address again.
pub cleanup_forgets_probation :
    (rl : RateLimiter) (ip : String) (st : IpState)
    → (expiry swept t_block t_probation now duration t_result : ℕ) → rl.count_only_failures ≡ true
    → 1 < rl.max_connections
    → Map.lookup ip rl.blocks ≡ some expiry
    → Map.lookup ip rl.counters ≡ some st
    → expiry < swept
    → swept - st.last_seen ≤ stale_threshold rl.config
    → rl.interval_seconds * second < now - st.first_seen
    → let (rl', allowed) = check (cleanup rl swept) ip t_block t_probation now in
      (allowed ≡ true) × (Map.lookup ip (report_result rl' ip duration t_result).blocks ≡ none)
unfolding check cleanup check_window report_result
cleanup_forgets_probation rl ip st expiry swept t_block t_probation now duration t_result counting
      limit blocked stored over fresh passed =
    grind (arith, lookup-retain, lookup-insert_self)
