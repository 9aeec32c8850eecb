-- ===== src/Node/RateLimit/Escalation.antt =====
-- pkg/node/ratelimit.go: the escalation of bans.
use nitella.Base.{
  ℕ, zero, suc, ◌+◌, ◌-◌, ◌≤◌, ◌<◌, String, ◌≡◌, some, List, [], ◌∷◌, arith, leb, if◌then◌else◌,
  length, get_or, All,
}
use nitella.Base.Map
use nitella.Base.Map.{
  Map, lookup-insert, lookup-erase, lookup-retain, lookup-insert_self, lookup-insert_ne,
  lookup-erase_self, lookup-erase_ne,
}
use nitella.Node.RateLimit.{
  RateLimiter, RateLimitConfig, failure_threshold, block_duration, report_result,
}
use nitella.Node.RateLimit.Blocks.{Fails}

abbrev pub IsAscending : List ℕ → Type 0
IsAscending [] = Unit
IsAscending (x ∷ xs) = All (λ y. x ≤ y) xs × IsAscending xs

All-get_or :
    (x d : ℕ) (xs : List ℕ) (i : ℕ) → All (λ y. x ≤ y) xs → i < length xs → x ≤ get_or xs i d
All-get_or x d [] i h l = elim l [ ]
All-get_or x d (y ∷ ys) zero h l = h.0
All-get_or x d (y ∷ ys) (suc i) h l = All-get_or x d ys i h.1 (omega arith)

get_or_mono :
    (d : ℕ) (xs : List ℕ) (i j : ℕ)
    → IsAscending xs
    → i ≤ j
    → j < length xs
    → get_or xs i d ≤ get_or xs j d
get_or_mono d [] i j a h l = elim l [ ]
get_or_mono d (x ∷ xs) zero zero a h l = omega arith
get_or_mono d (x ∷ xs) zero (suc j) a h l = All-get_or x d xs j a.0 (omega arith)
get_or_mono d (x ∷ xs) (suc i) zero a h l = absurd (omega arith)
get_or_mono d (x ∷ xs) (suc i) (suc j) a h l = get_or_mono d xs i j a.1 (omega arith) (omega arith)

abbrev step_of : List ℕ → ℕ → ℕ
step_of steps level = if leb (length steps) level then length steps - 1 else level

step_of-lt : (steps : List ℕ) (level : ℕ) → 0 < length steps → step_of steps level < length steps
step_of-lt steps level h = ground arith

step_of_mono : (steps : List ℕ) (i j : ℕ) → i ≤ j → step_of steps i ≤ step_of steps j
step_of_mono steps i j h = ground arith

block_duration_mono :
    (c : RateLimitConfig) (i j : ℕ)
    → IsAscending c.block_steps_seconds
    → i ≤ j
    → (block_duration c i).0 ≤ (block_duration c j).0
unfolding block_duration
block_duration_mono c i j a h =
    let steps = c.block_steps_seconds in
    ground (
      arith,
      get_or_mono 0 steps (step_of steps i) (step_of steps j) a (step_of_mono steps i j h),
      step_of-lt steps j,
    )

abbrev next_level : RateLimitConfig → ℕ → ℕ
next_level c level = if (block_duration c level).1 then level + 1 else level

block_duration_next :
    (c : RateLimitConfig) (level : ℕ)
    → IsAscending c.block_steps_seconds
    → (block_duration c level).0 ≤ (block_duration c (next_level c level)).0
block_duration_next c level a = block_duration_mono c level (next_level c level) a (ground arith)

-- A second failure that reaches the limit bans the address anew, and for no shorter a time than the
-- first did, when the steps are ascending.
pub report_result_twice :
    (rl : RateLimiter) (ip : String) (duration now duration' now' : ℕ) (f : Fails rl ip duration)
    → IsAscending rl.block_steps_seconds
    → rl.max_connections ≤ f.st.failed_count + 1
    → duration' < failure_threshold rl.config
    → let banned = report_result rl ip duration now in
      (ban : ℕ) × (Map.lookup ip (report_result banned ip duration' now').blocks
        ≡ some (now' + ban))
      × ((block_duration rl.config f.st.ban_level).0 ≤ ban)
unfolding report_result
report_result_twice rl ip duration now duration' now' f ascending limit short' = (
  (block_duration rl.config (next_level rl.config f.st.ban_level)).0,
  grind (arith, lookup-insert_self),
  block_duration_next rl.config f.st.ban_level ascending,
)
