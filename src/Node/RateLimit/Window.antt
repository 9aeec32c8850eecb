-- ===== src/Node/RateLimit/Window.antt =====
-- pkg/node/ratelimit.go and the use of it in pkg/node/listener.go: how many connections of one
-- address a rule's limiter lets through.
use nitella.Base.{
  ℕ, zero, suc, ◌+◌, ◌-◌, ◌*◌, ◌≤◌, ◌<◌, max, String, ◌≡◌, refl, ◌∙◌, inl, inr, true, false, Option,
  none, some, List, [], ◌∷◌, arith, if◌then◌else◌, Bool-cases,
}
use nitella.Base.Map
use nitella.Base.Map.{
  Map, lookup-insert, lookup-erase, lookup-retain, lookup-insert_self, lookup-insert_ne,
  lookup-erase_self, lookup-erase_ne,
}
use mathlib.Core.Path.{subst}
use nitella.Node.RateLimit.{
  RateLimitConfig, RateLimiter, IpState, second, lift_block, check_window, check, track_connection,
}

-- The clock readings of one pass through `Check`.
pub record Attempt : Type 0 where
  pub t_block : ℕ
  pub t_probation : ℕ
  pub now : ℕ

-- `evaluateRules` calls `Check`, and `TrackConnection` for a connection that the check lets through; other handlers may
-- come in between.
pub data Step : Type 0 where
  checks : Attempt → Step
  tracks : ℕ → Step

-- How many connections of an address are let through, when `waiting` of those before are still to be counted.
unfoldable pub admitted : RateLimiter → String → ℕ → List Step → ℕ
admitted rl ip waiting [] = 0
admitted rl ip waiting (checks a ∷ rest) =
    let (rl', allowed) = check rl ip a.t_block a.t_probation a.now in
    (if allowed then 1 else 0) + admitted rl' ip (if allowed then waiting + 1 else waiting) rest
admitted rl ip zero (tracks t ∷ rest) = admitted rl ip zero rest
admitted rl ip (suc waiting) (tracks t ∷ rest) = admitted (track_connection rl ip t) ip waiting rest

-- The most connections that are still to be counted when a check lets another one through.
unfoldable pub overlap : RateLimiter → String → ℕ → List Step → ℕ
overlap rl ip waiting [] = 0
overlap rl ip waiting (checks a ∷ rest) =
    let (rl', allowed) = check rl ip a.t_block a.t_probation a.now in
    max (if allowed then waiting else 0)
      (overlap rl' ip (if allowed then waiting + 1 else waiting) rest)
overlap rl ip zero (tracks t ∷ rest) = overlap rl ip zero rest
overlap rl ip (suc waiting) (tracks t ∷ rest) = overlap (track_connection rl ip t) ip waiting rest

abbrev window_of : Option IpState → Option (ℕ × ℕ)
window_of none = none
window_of (some st) = some (st.first_seen, st.count)

-- The address has a window that began at `w` and has counted `n` connections.
pub record Counted (ip : String) (w n : ℕ) (rl : RateLimiter) : Type 0 where
  pub window : window_of (Map.lookup ip rl.counters) ≡ some (w, n)
  pub strict : rl.count_only_failures ≡ false

module _ (ip : String) (w n : ℕ) (rl : RateLimiter) (c : Counted ip w n rl) where
  check_window-Spent :
      (now : ℕ)
      → now - w ≤ rl.interval_seconds * second
      → Counted ip w n (check_window rl ip now).0
        × ((check_window rl ip now).1 ≡ true → n < rl.max_connections)
  unfolding check_window
  check_window-Spent now near = grind (arith, lookup-insert_self)

  track_connection-Counted : (now : ℕ) → Counted ip w (n + 1) (track_connection rl ip now)
  unfolding track_connection
  track_connection-Counted now = grind (arith, lookup-insert_self)

  lift_block-Counted :
      (t : ℕ) → Counted ip w n (lift_block rl ip t) × ((lift_block rl ip t).config ≡ rl.config)
  unfolding lift_block
  lift_block-Counted t = grind (arith, lookup-insert_self)

module _ (ip : String) (w n : ℕ) (rl : RateLimiter) (c : Counted ip w n rl) where
  check-Counted :
      (t_block t_probation now : ℕ)
      → now - w ≤ rl.interval_seconds * second
      → let (rl', allowed) = check rl ip t_block t_probation now in
        Counted ip w n rl' × (allowed ≡ true → n < rl.max_connections)
  unfolding check lift_block
  check-Counted t_block t_probation now near =
      let l = lift_block-Counted ip w n rl c t_probation in
      ground (
        arith,
        check_window-Spent ip w n rl c now near,
        check_window-Spent ip w n (lift_block rl ip t_probation) l.0 now near,
      )

  check-config :
      (t_block t_probation now : ℕ) → (check rl ip t_block t_probation now).0.config ≡ rl.config
  unfolding check lift_block check_window
  check-config t_block t_probation now = ground arith

-- Every check falls into the window that began at `w`.
abbrev pub Within : ℕ → ℕ → List Step → Type 0
Within w interval [] = Unit
Within w interval (checks a ∷ steps) = (a.now - w ≤ interval * second) × Within w interval steps
Within w interval (tracks t ∷ steps) = Within w interval steps

track_connection-config :
    (rl : RateLimiter) (ip : String) (t : ℕ) → (track_connection rl ip t).config ≡ rl.config
unfolding track_connection
track_connection-config rl ip t = refl

admitted-le :
    (ip : String) (w : ℕ) (config : RateLimitConfig) (n waiting : ℕ) (rl : RateLimiter)
    (steps : List Step)
    → rl.config ≡ config
    → Counted ip w n rl
    → Within w config.interval_seconds steps
    → n + waiting + admitted rl ip waiting steps
      ≤ max (n + waiting) (config.max_connections + overlap rl ip waiting steps)
unfolding admitted overlap
admitted-le ip w config n waiting rl [] e c near = omega arith
admitted-le ip w config n waiting rl (checks a ∷ rest) e c near =
    let (counted, below) = check-Counted ip w n rl c a.t_block a.t_probation a.now (rw e near.0) in
    let same = check-config ip w n rl c a.t_block a.t_probation a.now ∙ e in
    let rl' = (check rl ip a.t_block a.t_probation a.now).0 in
    elim (Bool-cases (check rl ip a.t_block a.t_probation a.now).1) [
      | inl passed ↦
          let later = admitted-le ip w config n (waiting + 1) rl' rest same counted near.1 in
          let limit = subst (λ (k : RateLimitConfig). n < k.max_connections) e (below passed) in
          rw (passed) (omega (arith, later, limit))
      | inr stopped ↦
          let later = admitted-le ip w config n waiting rl' rest same counted near.1 in
          rw (stopped) (omega (arith, later))
    ]
admitted-le ip w config n zero rl (tracks t ∷ rest) e c near =
    admitted-le ip w config n zero rl rest e c near
admitted-le ip w config n (suc waiting) rl (tracks t ∷ rest) e c near =
    let later =
      admitted-le ip w config (n + 1) waiting (track_connection rl ip t) rest
        (track_connection-config rl ip t ∙ e) (track_connection-Counted ip w n rl c t) near in
    omega (arith, later)

-- The first check of an address that the limiter does not know.
check_first :
    (ip : String) (rl : RateLimiter) (a : Attempt)
    → rl.count_only_failures ≡ false
    → Map.lookup ip rl.counters ≡ none
    → Map.lookup ip rl.blocks ≡ none
    → Counted ip a.now 0 (check rl ip a.t_block a.t_probation a.now).0
      × ((check rl ip a.t_block a.t_probation a.now).0.config ≡ rl.config)
      × ((check rl ip a.t_block a.t_probation a.now).1 ≡ true)
unfolding check check_window
check_first ip rl a strict new free = grind (arith, lookup-insert_self)

-- However handlers interleave: of the connections of one address whose checks fall into the window that the first one
-- opens, the limiter lets through `max_connections` at most, or the first one if that is 0, and besides no more than
-- there were at once between a check that let them through and their being counted. The limiter counts every
-- connection and starts with nothing on the address.
pub admitted-le-max :
    (rl : RateLimiter) (ip : String) (first : Attempt) (rest : List Step)
    → rl.count_only_failures ≡ false
    → Map.lookup ip rl.counters ≡ none
    → Map.lookup ip rl.blocks ≡ none
    → Within first.now rl.interval_seconds rest
    → admitted rl ip 0 (checks first ∷ rest)
      ≤ max 1 rl.max_connections + overlap rl ip 0 (checks first ∷ rest)
unfolding admitted overlap
admitted-le-max rl ip first rest strict new free near =
    let (c, same, allowed) = check_first ip rl first strict new free in
    let later =
      admitted-le ip first.now rl.config 0 1
        (check rl ip first.t_block first.t_probation first.now).0 rest same c near in
    rw allowed (omega (arith, later))
