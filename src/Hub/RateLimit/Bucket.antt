-- ===== src/Hub/RateLimit/Bucket.antt =====
-- pkg/hub/ratelimit: the bucket of tokens that both limiters keep for a key. Tokens may be negative; rates
-- and bursts are taken as not negative, and products of seconds and rates as fitting an int64.
use nitella.Base.{ℕ, ◌*◌, ◌/◌, Bool, true, false, if◌then◌else◌}
use nitella.Base.Int.{ℤ, pos, ltb_ℤ, ◌+ℤ◌, ◌-ℤ◌}

abbrev pub second : ℕ
second = 1000000000

abbrev pub min_ℤ : ℤ → ℤ → ℤ
min_ℤ a b = if ltb_ℤ b a then b else a

-- The tokens after some time: one rate for each whole second.
unfoldable pub refilled : ℤ → ℕ → ℕ → ℕ → ℤ
refilled tokens elapsed rate burst = min_ℤ (tokens +ℤ pos (elapsed / second * rate)) (pos burst)

-- A token is taken, if there is one.
unfoldable pub take_token : ℤ → ℤ × Bool
take_token tokens = if ltb_ℤ (pos 0) tokens then (tokens -ℤ pos 1, true) else (tokens, false)
