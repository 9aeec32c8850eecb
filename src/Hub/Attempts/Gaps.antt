-- ===== src/Hub/Attempts/Gaps.antt =====
-- pkg/hub/server/server.go: how far apart the registrations of one address are.
use nitella.Base.{
  ℕ, ◌+◌, ◌-◌, ◌*◌, ◌≤◌, ◌<◌, String, ◌≡◌, ◌∙◌, inl, inr, Bool, true, false, ◌&&◌, Option, none,
  some, List, [], ◌∷◌, arith, leb, if◌then◌else◌, str_eq, str_eq_iff, Bool-cases,
}
use nitella.Base.Map
use nitella.Base.Map.{
  Map, lookup-insert, lookup-erase, lookup-retain, lookup-insert_self, lookup-insert_ne,
  lookup-erase_self, lookup-erase_ne,
}
use nitella.Hub.Attempts.{
  AttemptLimits, second, minute, count_attempt, is_within, check_attempt, check_pairing_rate_limit,
  check_registration_rate_limit, clean_attempts,
}

pub data Attempt : Type 0 where
  pairing : Option String → Attempt
  registration : Bool → Option String → Attempt
  cleaning : Attempt

abbrev step : AttemptLimits → Attempt → ℕ → AttemptLimits
step al (pairing ip) now = (check_pairing_rate_limit al ip now).0
step al (registration disabled ip) now = (check_registration_rate_limit disabled al ip now).0
step al cleaning now = clean_attempts al now

-- Attempts, each some time after the one before.
unfoldable pub run : AttemptLimits → ℕ → List (Attempt × ℕ) → AttemptLimits
run al now [] = al
run al now ((attempt, gap) ∷ attempts) = run (step al attempt (now + gap)) (now + gap) attempts

abbrev pub time_after : ℕ → List (Attempt × ℕ) → ℕ
time_after now [] = now
time_after now ((attempt, gap) ∷ attempts) = time_after (now + gap) attempts

-- What is left of an attempt at a time: its entry or a later one, or none after a minute.
IsNoted : ℕ → ℕ → Option ℕ → Type 0
IsNoted at_time now none = at_time + minute < now
IsNoted at_time now (some last) = at_time ≤ last

later-IsNoted : (t now later : ℕ) (o : Option ℕ) → now ≤ later → IsNoted t now o → IsNoted t later o
unfolding IsNoted
later-IsNoted t now later none l n = omega (arith, n)
later-IsNoted t now later (some last) l n = n

check-entry :
    (limit gap : ℕ) (al : AttemptLimits) (name ip : String) (now : ℕ)
    → Map.lookup ip (check_attempt limit gap al name now).0.pairing_rate_limit ≡ (
        if (check_attempt limit gap al name now).1 && str_eq name ip
        then some now
        else Map.lookup ip al.pairing_rate_limit)
unfolding check_attempt count_attempt
check-entry limit gap al name ip now =
    ground (arith, lookup-insert name ip now al.pairing_rate_limit)

if-IsNoted :
    (t now : ℕ) (b : Bool) (o : Option ℕ)
    → t ≤ now
    → IsNoted t now o
    → IsNoted t now (if b then some now else o)
unfolding IsNoted
if-IsNoted t now true o l n = l
if-IsNoted t now false o l n = n

check-IsNoted :
    (limit gap : ℕ) (al : AttemptLimits) (name ip : String) (t now : ℕ)
    → t ≤ now
    → IsNoted t now (Map.lookup ip al.pairing_rate_limit)
    → IsNoted t now (Map.lookup ip (check_attempt limit gap al name now).0.pairing_rate_limit)
check-IsNoted limit gap al name ip t now l n = rw (check-entry limit gap al name ip now) (
    if-IsNoted t now ((check_attempt limit gap al name now).1 && str_eq name ip)
      (Map.lookup ip al.pairing_rate_limit) l n)

kept-IsNoted :
    (t now : ℕ) (o : Option ℕ)
    → IsNoted t now o
    → IsNoted t now (Map.keep_if (λ last. leb (now - last) minute) o)
unfolding IsNoted
kept-IsNoted t now none n = n
kept-IsNoted t now (some last) n = elim (Bool-cases (leb (now - last) minute)) [
  | inl kept ↦ rw (kept) n
  | inr gone ↦ rw (gone) (ground arith)
]

step-IsNoted :
    (al : AttemptLimits) (attempt : Attempt) (ip : String) (t now : ℕ)
    → t ≤ now
    → IsNoted t now (Map.lookup ip al.pairing_rate_limit)
    → IsNoted t now (Map.lookup ip (step al attempt now).pairing_rate_limit)
unfolding check_pairing_rate_limit check_registration_rate_limit clean_attempts
step-IsNoted al (pairing none) ip t now l n = n
step-IsNoted al (pairing (some name)) ip t now l n =
    check-IsNoted 100 (3 * second) al name ip t now l n
step-IsNoted al (registration disabled none) ip t now l n = n
step-IsNoted al (registration disabled (some name)) ip t now l n =
    check-IsNoted 50 (if disabled then 0 else 5 * second) al name ip t now l n
step-IsNoted al cleaning ip t now l n =
    rw (lookup-retain (λ last. leb (now - last) minute) ip al.pairing_rate_limit)
      (kept-IsNoted t now (Map.lookup ip al.pairing_rate_limit) n)

run-IsNoted :
    (al : AttemptLimits) (attempts : List (Attempt × ℕ)) (ip : String) (t now : ℕ)
    → t ≤ now
    → IsNoted t now (Map.lookup ip al.pairing_rate_limit)
    → IsNoted t (time_after now attempts) (Map.lookup ip (run al now attempts).pairing_rate_limit)
unfolding run
run-IsNoted al [] ip t now l n = n
run-IsNoted al ((attempt, gap) ∷ attempts) ip t now l n =
    run-IsNoted (step al attempt (now + gap)) attempts ip t (now + gap) (omega (arith, l)) (
      step-IsNoted al attempt ip t (now + gap) (omega (arith, l))
        (later-IsNoted t now (now + gap) (Map.lookup ip al.pairing_rate_limit) (omega arith) n))

IsNoted-now : (t : ℕ) → IsNoted t t (some t)
unfolding IsNoted
IsNoted-now t = omega arith

allowed-within :
    (limit gap : ℕ) (al : AttemptLimits) (ip : String) (now : ℕ)
    → (check_attempt limit gap al ip now).1 ≡ true
    → is_within gap now (Map.lookup ip al.pairing_rate_limit) ≡ false
unfolding check_attempt count_attempt
allowed-within limit gap al ip now e = ground arith

noted-gap :
    (gap t now : ℕ) (o : Option ℕ)
    → gap ≤ minute
    → 0 < gap
    → IsNoted t now o
    → is_within gap now o ≡ false
    → t + gap ≤ now
unfolding IsNoted
noted-gap gap t now none small positive n e = omega (arith, n)
noted-gap gap t now (some last) small positive n e = ground (arith, n)

-- Two registrations of one address that go on are at least five seconds apart, whatever attempts of whichever
-- addresses and cleanups come in between, as long as the clock does not go back and the gap is not
-- turned off.
pub registrations-gap :
    (al : AttemptLimits) (ip : String) (now : ℕ) (attempts : List (Attempt × ℕ)) (later : ℕ)
    → (check_registration_rate_limit false al (some ip) now).1 ≡ true
    → time_after now attempts ≤ later
    → (check_registration_rate_limit false
        (run (check_registration_rate_limit false al (some ip) now).0 now attempts)
        (some ip)
        later).1
      ≡ true
    → now + 5 * second ≤ later
unfolding check_registration_rate_limit
registrations-gap al ip now attempts later first order second_one =
    let al' = (check_attempt 50 (5 * second) al ip now).0 in
    let entry : Map.lookup ip al'.pairing_rate_limit ≡ some now =
      check-entry 50 (5 * second) al ip ip now ∙ ground (arith, first, str_eq_iff ip ip) in
    let n : IsNoted now now (Map.lookup ip al'.pairing_rate_limit) = rw (entry) (IsNoted-now now) in
    let o = Map.lookup ip (run al' now attempts).pairing_rate_limit in
    noted-gap (5 * second) now later o (omega arith) (omega arith)
      (later-IsNoted now (time_after now attempts) later o order
        (run-IsNoted al' attempts ip now now (omega arith) n))
      (allowed-within 50 (5 * second) (run al' now attempts) ip later second_one)
