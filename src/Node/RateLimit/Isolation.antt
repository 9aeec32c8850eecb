-- ===== src/Node/RateLimit/Isolation.antt =====
-- pkg/node/ratelimit.go: what an operation on one address does to the others.
use nitella.Base.{ℕ, String, ◌≡◌, refl, ◌≢◌, ◌∙◌, List, [], ◌∷◌, All, arith}
use nitella.Base.Map
use nitella.Base.Map.{lookup-insert_ne, lookup-erase_ne}
use nitella.Node.RateLimit.{
  RateLimiter, IpState, lift_block, check_count, check_window, check, track_connection,
  report_result,
}

-- The limiter holds the same of an address.
pub record SameFor (j : String) (rl rl' : RateLimiter) : Type 0 where
  pub config : rl'.config ≡ rl.config
  pub counter : Map.lookup j rl'.counters ≡ Map.lookup j rl.counters
  pub block : Map.lookup j rl'.blocks ≡ Map.lookup j rl.blocks

module _ (ip j : String) (other : ip ≢ j) where
  lift_block-SameFor : (rl : RateLimiter) (now : ℕ) → SameFor j rl (lift_block rl ip now)
  unfolding lift_block
  lift_block-SameFor rl now = grind (arith, lookup-insert_ne, lookup-erase_ne)

  check_count-SameFor :
      (rl : RateLimiter) (now : ℕ) (st : IpState) → SameFor j rl (check_count rl ip now st).0
  unfolding check_count
  check_count-SameFor rl now st = grind (arith, lookup-insert_ne)

  check_window-SameFor : (rl : RateLimiter) (now : ℕ) → SameFor j rl (check_window rl ip now).0
  unfolding check_window
  check_window-SameFor rl now = grind (arith, lookup-insert_ne)

  check-SameFor :
      (rl : RateLimiter) (t_block t_probation now : ℕ)
      → SameFor j rl (check rl ip t_block t_probation now).0
  unfolding check
  check-SameFor rl t_block t_probation now = grind (arith, lift_block-SameFor, check_window-SameFor)

  track_connection-SameFor :
      (rl : RateLimiter) (now : ℕ) → SameFor j rl (track_connection rl ip now)
  unfolding track_connection
  track_connection-SameFor rl now = grind (arith, lookup-insert_ne)

  report_result-SameFor :
      (rl : RateLimiter) (duration now : ℕ) → SameFor j rl (report_result rl ip duration now)
  unfolding report_result
  report_result-SameFor rl duration now = grind (arith, lookup-insert_ne)

-- The calls that the connection handler makes for one address.
pub data Call : Type 0 where
  checks : String → ℕ → ℕ → ℕ → Call
  tracks : String → ℕ → Call
  reports : String → ℕ → ℕ → Call

abbrev pub address : Call → String
address (checks ip _ _ _) = ip
address (tracks ip _) = ip
address (reports ip _ _) = ip

unfoldable pub step : RateLimiter → Call → RateLimiter
step rl (checks ip t_block t_probation now) = (check rl ip t_block t_probation now).0
step rl (tracks ip now) = track_connection rl ip now
step rl (reports ip duration now) = report_result rl ip duration now

unfoldable pub run : RateLimiter → List Call → RateLimiter
run rl [] = rl
run rl (c ∷ cs) = run (step rl c) cs

step-SameFor : (j : String) (rl : RateLimiter) (c : Call) → address c ≢ j → SameFor j rl (step rl c)
unfolding step
step-SameFor j rl (checks ip a b now) h = check-SameFor ip j h rl a b now
step-SameFor j rl (tracks ip now) h = track_connection-SameFor ip j h rl now
step-SameFor j rl (reports ip duration now) h = report_result-SameFor ip j h rl duration now

SameFor-trans : {j : String} {a b c : RateLimiter} → SameFor j a b → SameFor j b c → SameFor j a c
SameFor-trans p q = record {
  config = q.config ∙ p.config;
  counter = q.counter ∙ p.counter;
  block = q.block ∙ p.block;
}

-- No sequence of checks, tracked connections and reported results of other addresses changes what
-- the limiter holds of an address, be it its counters or its block, nor the configuration.
pub run-SameFor :
    (j : String) (rl : RateLimiter) (cs : List Call)
    → All (λ c. address c ≢ j) cs
    → SameFor j rl (run rl cs)
unfolding run
run-SameFor j rl [] h = record { config = refl; counter = refl; block = refl }
run-SameFor j rl (c ∷ cs) h =
    SameFor-trans (step-SameFor j rl c h.0) (run-SameFor j (step rl c) cs h.1)
