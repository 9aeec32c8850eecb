-- ===== src/Hub/RateLimit/Budget.antt =====
-- pkg/hub/ratelimit/ip.go: how many calls of one address are let through.
use nitella.Base.{
  ℕ, ◌+◌, ◌-◌, ◌*◌, ◌/◌, ◌≤◌, ◌<◌, String, ◌≡◌, refl, sym, Option, none, some, List, [], ◌∷◌, arith,
  if◌then◌else◌, All,
}
use nitella.Base.Map
use nitella.Base.Map.{
  Map, lookup-insert, lookup-erase, lookup-retain, lookup-insert_self, lookup-insert_ne,
  lookup-erase_self, lookup-erase_ne,
}
use mathlib.Core.Path.{subst}
use native.Mathlib.Nat.{add-mul, mul-le-mul_right}
use nitella.Base.Int.{ℤ, pos, pos_part, +ℤ_parts, -ℤ_parts}
use nitella.Hub.RateLimit.Bucket.{second, refilled, take_token}
use nitella.Hub.RateLimit.Address.{IpBucket, IpRateLimiter, allow}

-- How many calls are let through that follow each other after some times.
unfoldable pub allowed_calls : IpRateLimiter → String → ℕ → List ℕ → ℕ
allowed_calls rl ip now [] = 0
allowed_calls rl ip now (gap ∷ gaps) =
    let (rl', allowed) = allow rl ip (now + gap) in
    (if allowed then 1 else 0) + allowed_calls rl' ip (now + gap) gaps

abbrev pub total : List ℕ → ℕ
total [] = 0
total (gap ∷ gaps) = gap + total gaps

-- The bucket of an address, last used at a time.
abbrev pub bucket_of : Option IpBucket → Option (ℤ × ℕ)
bucket_of none = none
bucket_of (some b) = some (b.tokens, b.last_update)

refilled-le :
    (tokens : ℤ) (elapsed rate burst : ℕ)
    → pos_part (refilled tokens elapsed rate burst) ≤ pos_part tokens + elapsed / second * rate
unfolding refilled
refilled-le tokens elapsed rate burst =
    ground (arith, +ℤ_parts tokens (pos (elapsed / second * rate)))

take_token-le :
    (tokens : ℤ)
    → (if (take_token tokens).1 then 1 else 0) + pos_part (take_token tokens).0 ≤ pos_part tokens
unfolding take_token
take_token-le tokens = ground (arith, -ℤ_parts tokens (pos 1))

-- Whole seconds of two times are no more than those of both.
seconds-le : (a b rate : ℕ) → a / second * rate + b / second * rate ≤ (a + b) / second * rate
seconds-le a b rate =
    rw (sym (add-mul (a / second) (b / second) rate)) (mul-le-mul_right rate (omega arith))

-- What `Allow` does to a bucket that is there.
after : IpRateLimiter → IpBucket → ℕ → IpBucket
after rl b now = record {
  tokens = (take_token (refilled b.tokens (now - b.last_update) rl.rate_limit rl.burst_size)).0;
  last_update = now;
}

allow_stored :
    (rl : IpRateLimiter) (ip : String) (b : IpBucket) (now : ℕ)
    → Map.lookup ip rl.buckets ≡ some b
    → allow rl ip now ≡ (
      record rl { buckets = Map.insert ip (after rl b now) rl.buckets },
      (take_token (refilled b.tokens (now - b.last_update) rl.rate_limit rl.burst_size)).1,
    )
unfolding allow after
allow_stored rl ip b now stored = rw (stored, allow)

elapsed : (last gap : ℕ) → last + gap - last ≡ gap
elapsed last gap = omega arith

spend :
    (bit rest p p' p'' a b c : ℕ)
    → bit + p' ≤ p''
    → p'' ≤ p + a
    → rest ≤ p' + b
    → a + b ≤ c
    → bit + rest ≤ p + c
spend bit rest p p' p'' a b c h h' h'' l = omega arith

-- The calls of an address that are let through, from a time at which its bucket was used, are no more than
-- its tokens and the rate for each second that has passed since.
pub allowed_calls-le :
    (rl : IpRateLimiter) (ip : String) (b : IpBucket) (gaps : List ℕ)
    → Map.lookup ip rl.buckets ≡ some b
    → allowed_calls rl ip b.last_update gaps
      ≤ pos_part b.tokens + total gaps / second * rl.rate_limit
unfolding allowed_calls after
allowed_calls-le rl ip b [] stored = omega arith
allowed_calls-le rl ip b (gap ∷ gaps) stored =
    let now = b.last_update + gap in
    let b' = after rl b now in
    let rl' = record rl { buckets = Map.insert ip b' rl.buckets } in
    let rest = allowed_calls-le rl' ip b' gaps (lookup-insert_self ip b' rl.buckets) in
    let taken =
      take_token-le (refilled b.tokens (now - b.last_update) rl.rate_limit rl.burst_size) in
    let left = refilled b.tokens (now - b.last_update) rl.rate_limit rl.burst_size in
    let full =
      subst (λ g. pos_part left ≤ pos_part b.tokens + g / second * rl.rate_limit)
        (elapsed b.last_update gap)
        (refilled-le b.tokens (now - b.last_update) rl.rate_limit rl.burst_size) in
    rw (allow_stored rl ip b now stored) (
      spend _ (allowed_calls rl' ip now gaps) (pos_part b.tokens) (pos_part b'.tokens)
        (pos_part left) (gap / second * rl.rate_limit) (total gaps / second * rl.rate_limit) _ taken
        full rest (seconds-le gap (total gaps) rl.rate_limit))

no_second : (last gap : ℕ) → gap < second → (last + gap - last) / second ≡ 0
no_second last gap h = omega arith

nothing_taken :
    (bit p' p'' p rate : ℕ) → p ≡ 0 → p'' ≤ p + 0 * rate → bit + p' ≤ p'' → (bit ≡ 0) × (p' ≡ 0)
nothing_taken bit p' p'' p rate e h h' = (omega arith, omega arith)

-- Seconds that are not whole are lost: an address that has no token left and calls again less than a second
-- after each of its calls is never let through again, however long it goes on and whatever the rate.
pub allowed_calls_starved :
    (rl : IpRateLimiter) (ip : String) (b : IpBucket) (gaps : List ℕ)
    → Map.lookup ip rl.buckets ≡ some b
    → pos_part b.tokens ≡ 0
    → All (λ gap. gap < second) gaps
    → allowed_calls rl ip b.last_update gaps ≡ 0
unfolding allowed_calls after
allowed_calls_starved rl ip b [] stored none_left short = refl
allowed_calls_starved rl ip b (gap ∷ gaps) stored none_left short =
    let now = b.last_update + gap in
    let b' = after rl b now in
    let rl' = record rl { buckets = Map.insert ip b' rl.buckets } in
    let taken =
      take_token-le (refilled b.tokens (now - b.last_update) rl.rate_limit rl.burst_size) in
    let left = refilled b.tokens (now - b.last_update) rl.rate_limit rl.burst_size in
    let full =
      subst (λ g. pos_part left ≤ pos_part b.tokens + g * rl.rate_limit)
        (no_second b.last_update gap short.0)
        (refilled-le b.tokens (now - b.last_update) rl.rate_limit rl.burst_size) in
    let empty =
      nothing_taken _ (pos_part b'.tokens) (pos_part left) (pos_part b.tokens) rl.rate_limit
        none_left full taken in
    let rest =
      allowed_calls_starved rl' ip b' gaps (lookup-insert_self ip b' rl.buckets) empty.1 short.1 in
    rw (allow_stored rl ip b now stored) (omega (arith, empty.0, rest))
