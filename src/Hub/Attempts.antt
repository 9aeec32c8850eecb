-- ===== src/Hub/Attempts.antt =====
-- pkg/hub/server/server.go: the limits on attempts to pair and to register, which share their state. An attempt
-- comes with its address, if the connection has one; `strings.LastIndex` cuts the port off.
pub mod Gaps
mod Examples
use nitella.Base.{
  ◌^◌, ℕ, zero, suc, ◌+◌, ◌-◌, ◌*◌, ◌/◌, ◌%◌, ◌≤◌, ◌<◌, min, max, String, ◌≡◌, refl, sym, ap, ◌∙◌,
  ◌≢◌, ◌↔◌, ◌⊎◌, inl, inr, Bool, true, false, not, ◌&&◌, ◌||◌, Option, none, some, List, [], ◌∷◌,
  ◌++◌, map, arith, ltb, leb, ◌==◌, if◌then◌else◌, length, get_or, any-perm, any, all, All, str_eq,
  str_eq_iff, codes, concat, concat_cancel_left, concat_assoc, concat_apart, codes-concat,
  codes-injective, IsFree, separator_cancel, separator-IsFree, cut, split_on, is_digit, includes,
  Bool-cases, Option-cases,
}
use nitella.Base.Map
use nitella.Base.Map.{
  Map, lookup-insert, lookup-erase, lookup-retain, lookup-insert_self, lookup-insert_ne,
  lookup-erase_self, lookup-erase_ne,
}

pub record AttemptLimits : Type 0 where
  pub pairing_rate_limit : Map ℕ
  pub global_pairing_count : ℕ
  pub global_pairing_reset : ℕ

abbrev pub second : ℕ
second = 1000000000

abbrev pub minute : ℕ
minute = 60 * second

-- The count of the minute, which starts anew after its end.
unfoldable pub count_attempt : AttemptLimits → ℕ → AttemptLimits
count_attempt al now =
    if ltb al.global_pairing_reset now
    then record al { global_pairing_count = 1; global_pairing_reset = now + minute }
    else record al { global_pairing_count = al.global_pairing_count + 1 }

abbrev pub is_within : ℕ → ℕ → Option ℕ → Bool
is_within gap now none = false
is_within gap now (some last) = ltb (now - last) gap

-- What the two checks have in common: a limit of the minute, and a gap between attempts of one address.
unfoldable pub check_attempt : ℕ → ℕ → AttemptLimits → String → ℕ → AttemptLimits × Bool
check_attempt limit gap al ip now =
    let al' = count_attempt al now in
    if ltb limit al'.global_pairing_count
    then (al', false)
    else if is_within gap now (Map.lookup ip al'.pairing_rate_limit)
    then (al', false)
    else (record al' { pairing_rate_limit = Map.insert ip now al'.pairing_rate_limit }, true)

abbrev pub global_pairing_rate_limit : ℕ
global_pairing_rate_limit = 100

-- `checkPairingRateLimit`
unfoldable pub check_pairing_rate_limit : AttemptLimits → Option String → ℕ → AttemptLimits × Bool
check_pairing_rate_limit al none now = (al, true)
check_pairing_rate_limit al (some ip) now =
    check_attempt global_pairing_rate_limit (3 * second) al ip now

-- `checkRegistrationRateLimit`; the gap can be turned off by an environment variable.
unfoldable pub check_registration_rate_limit :
    Bool → AttemptLimits → Option String → ℕ → AttemptLimits × Bool
check_registration_rate_limit disabled al none now = (al, true)
check_registration_rate_limit disabled al (some ip) now =
    check_attempt 50 (if disabled then 0 else 5 * second) al ip now

-- `rateLimitCleanupLoop`, at one tick.
unfoldable pub clean_attempts : AttemptLimits → ℕ → AttemptLimits
clean_attempts al now = record al {
  pairing_rate_limit = Map.retain (λ last. leb (now - last) minute) al.pairing_rate_limit;
}
