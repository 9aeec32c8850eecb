-- ===== src/Hub/Attempts/Examples.antt =====
-- pkg/hub/server/server.go: two registrations of one address.
use nitella.Base.{ℕ, ◌+◌, ◌*◌, ◌≤◌, ◌≡◌, refl, false, some, List, [], ◌∷◌, arith}
use nitella.Base.Map
use nitella.Base.Map.{
  Map, lookup-insert, lookup-erase, lookup-retain, lookup-insert_self, lookup-insert_ne,
  lookup-erase_self, lookup-erase_ne,
}
use nitella.Hub.Attempts.{
  AttemptLimits, second, count_attempt, check_attempt, check_pairing_rate_limit,
  check_registration_rate_limit, clean_attempts,
}
use nitella.Hub.Attempts.Gaps.{Attempt, registration, cleaning, run, registrations-gap}

abbrev fresh : AttemptLimits
fresh = record { pairing_rate_limit = []; global_pairing_count = 0; global_pairing_reset = 0 }

abbrev between : List (Attempt × ℕ)
between = (registration false (some "b"), second) ∷ (cleaning, second) ∷ []

registrations-gap_example : 10 * second + 5 * second ≤ 16 * second
unfolding check_registration_rate_limit check_attempt count_attempt run clean_attempts Map.lookup
    Map.insert Map.retain Map.erase
registrations-gap_example =
    registrations-gap fresh "a" (10 * second) between (16 * second) refl (omega arith) refl

-- an attempt to pair counts as the last attempt to register too
too_soon :
    (check_registration_rate_limit false
      (check_pairing_rate_limit fresh (some "a") (10 * second)).0
      (some "a")
      (14 * second)).1
    ≡ false
unfolding check_registration_rate_limit check_pairing_rate_limit check_attempt count_attempt
    Map.lookup Map.insert
too_soon = refl
