-- ===== src/Hub/Auth/Refresh.antt =====
-- pkg/hub/auth/jwt.go: how many refreshes of one user go on.
use nitella.Base.{
  length-append, ℕ, ◌+◌, ◌-◌, ◌*◌, ◌≤◌, ◌<◌, String, ◌≡◌, refl, sym, ap, ◌∙◌, inl, inr, Bool, false,
  not, ◌&&◌, Option, none, some, List, [], ◌∷◌, ◌++◌, arith, ltb, leb, if◌then◌else◌, length,
  str_eq, str_eq_iff, Bool-cases,
}
use nitella.Base.Map
use nitella.Base.Map.{
  Map, lookup-insert, lookup-erase, lookup-retain, lookup-insert_self, lookup-insert_ne,
  lookup-erase_self, lookup-erase_ne,
}
use nitella.Hub.Auth.{
  TokenManager, minute, recent, has_recent, attempts_of, clean, check_refresh_rate_limit,
}

-- Attempts of users, each some time after the one before.
abbrev pub Calls : Type 0
Calls = List (String × ℕ)

unfoldable pub run : TokenManager → ℕ → Calls → TokenManager
run tm now [] = tm
run tm now ((user, gap) ∷ calls) =
    run (check_refresh_rate_limit tm user (now + gap)).0 (now + gap) calls

-- How many attempts of a user go on.
unfoldable pub granted : TokenManager → String → ℕ → Calls → ℕ
granted tm name now [] = 0
granted tm name now ((user, gap) ∷ calls) =
    let (tm', allowed) = check_refresh_rate_limit tm user (now + gap) in
    (if allowed && str_eq user name then 1 else 0) + granted tm' name (now + gap) calls

-- The time of the last call.
abbrev pub time_after : ℕ → Calls → ℕ
time_after now [] = now
time_after now ((user, gap) ∷ calls) = time_after (now + gap) calls

-- The attempts from a time on.
since : ℕ → List ℕ → ℕ
since start [] = 0
since start (t ∷ ts) = (if leb start t then 1 else 0) + since start ts

since-length : (start : ℕ) (ts : List ℕ) → since start ts ≤ length ts
unfolding since
since-length start [] = omega arith
since-length start (t ∷ ts) = ground (arith, since-length start ts)

since-append :
    (start now : ℕ) (ts : List ℕ)
    → start ≤ now
    → since start (ts ++ (now ∷ [])) ≡ since start ts + 1
unfolding since
since-append start now [] l = ground arith
since-append start now (t ∷ ts) l = ground (arith, since-append start now ts l)

since-recent :
    (start now : ℕ) (ts : List ℕ)
    → now < start + minute
    → since start (recent now ts) ≡ since start ts
unfolding since recent
since-recent start now [] l = refl
since-recent start now (t ∷ ts) l = ground (arith, since-recent start now ts l)

length-recent : (now : ℕ) (ts : List ℕ) → length (recent now ts) ≤ length ts
unfolding recent
length-recent now [] = omega arith
length-recent now (t ∷ ts) = ground (arith, length-recent now ts)

recent-none : (now : ℕ) (ts : List ℕ) → has_recent now ts ≡ false → recent now ts ≡ []
unfolding recent
recent-none now [] e = refl
recent-none now (t ∷ ts) e = ground (arith, recent-none now ts)

abbrev pub stored : TokenManager → String → List ℕ
stored tm name = attempts_of (Map.lookup name tm.refresh_attempts)

kept-recent :
    (now : ℕ) (o : Option (List ℕ))
    → recent now (attempts_of (Map.keep_if (has_recent now) o)) ≡ recent now (attempts_of o)
unfolding recent
kept-recent now none = refl
kept-recent now (some ts) = ground (arith, recent-none now ts)

-- The cleanup does not show: a user's attempts of the last minute are the same after it.
pub recent-clean :
    (tm : TokenManager) (name : String) (now : ℕ)
    → recent now (stored (clean tm now) name) ≡ recent now (stored tm name)
unfolding clean
recent-clean tm name now = elim (Bool-cases (ltb (5 * minute) (now - tm.last_cleanup))) [
  | inl due ↦
      rw (due, lookup-retain (has_recent now) name tm.refresh_attempts)
        (kept-recent now (Map.lookup name tm.refresh_attempts))
  | inr not_due ↦ rw (not_due) refl
]

-- Nobody has more attempts stored than the limit.
abbrev IsCapped : TokenManager → Type 0
IsCapped tm = (name : String) → length (stored tm name) ≤ tm.max_refresh_per_min

step-max :
    (tm : TokenManager) (user : String) (now : ℕ)
    → (check_refresh_rate_limit tm user now).0.max_refresh_per_min ≡ tm.max_refresh_per_min
unfolding check_refresh_rate_limit clean
step-max tm user now = ground arith

-- The attempts of a user after a call.
step-stored :
    (tm : TokenManager) (user name : String) (now : ℕ)
    → stored (check_refresh_rate_limit tm user now).0 name ≡ (
        if str_eq user name
        then (if leb tm.max_refresh_per_min (length (recent now (stored tm user)))
            then recent now (stored tm user)
            else recent now (stored tm user) ++ (now ∷ []))
        else stored (clean tm now) name)
unfolding check_refresh_rate_limit
step-stored tm user name now = rw (recent-clean tm user now) (
    ground (
      arith,
      lookup-insert user name (recent now (stored tm user)) (clean tm now).refresh_attempts,
      lookup-insert user name (recent now (stored tm user) ++ (now ∷ []))
          (clean tm now).refresh_attempts,
    ))

step-allowed :
    (tm : TokenManager) (user : String) (now : ℕ)
    → (check_refresh_rate_limit tm user now).1
      ≡ not (leb tm.max_refresh_per_min (length (recent now (stored tm user))))
unfolding check_refresh_rate_limit
step-allowed tm user now = rw (recent-clean tm user now) (ground arith)

kept-le :
    (keep : List ℕ → Bool) (o : Option (List ℕ))
    → length (attempts_of (Map.keep_if keep o)) ≤ length (attempts_of o)
kept-le keep none = omega arith
kept-le keep (some ts) = ground arith

clean-le :
    (tm : TokenManager) (name : String) (now : ℕ)
    → length (stored (clean tm now) name) ≤ length (stored tm name)
unfolding clean
clean-le tm name now = ground (
  arith,
  lookup-retain (has_recent now) name tm.refresh_attempts,
  kept-le (has_recent now) (Map.lookup name tm.refresh_attempts),
)

since-clean :
    (tm : TokenManager) (name : String) (start now : ℕ)
    → now < start + minute
    → since start (stored (clean tm now) name) ≡ since start (stored tm name)
since-clean tm name start now l =
    sym (since-recent start now (stored (clean tm now) name) l)
    ∙ ap (since start) (recent-clean tm name now)
    ∙ since-recent start now (stored tm name) l

step-IsCapped :
    (tm : TokenManager) (user : String) (now : ℕ)
    → IsCapped tm
    → IsCapped (check_refresh_rate_limit tm user now).0
step-IsCapped tm user now c name =
    rw (step-stored tm user name now, step-max tm user now)
      (ground (
        arith,
        length-append (recent now (stored tm user)) (now ∷ []),
        length-recent now (stored tm user),
        c user,
        c name,
        clean-le tm name now,
      ))

run_calls-IsCapped :
    (tm : TokenManager) (now : ℕ) (calls : Calls) → IsCapped tm → IsCapped (run tm now calls)
unfolding run
run_calls-IsCapped tm now [] c = c
run_calls-IsCapped tm now ((user, gap) ∷ calls) c =
    run_calls-IsCapped (check_refresh_rate_limit tm user (now + gap)).0 (now + gap) calls
      (step-IsCapped tm user (now + gap) c)

run-max :
    (tm : TokenManager) (now : ℕ) (calls : Calls)
    → (run tm now calls).max_refresh_per_min ≡ tm.max_refresh_per_min
unfolding run
run-max tm now [] = refl
run-max tm now ((user, gap) ∷ calls) =
    run-max (check_refresh_rate_limit tm user (now + gap)).0 (now + gap) calls
    ∙ step-max tm user (now + gap)

time-le : (now : ℕ) (calls : Calls) → now ≤ time_after now calls
time-le now [] = omega arith
time-le now ((user, gap) ∷ calls) = omega (arith, time-le (now + gap) calls)

-- One call: the attempts from the start of the minute grow by what goes on.
step-since :
    (tm : TokenManager) (user name : String) (start now : ℕ)
    → start ≤ now
    → now < start + minute
    → (if (check_refresh_rate_limit tm user now).1 && str_eq user name then 1 else 0)
        + since start (stored tm name)
      ≡ since start (stored (check_refresh_rate_limit tm user now).0 name)
step-since tm user name start now early late =
    rw (step-stored tm user name now, step-allowed tm user now)
      (ground (
        arith,
        str_eq_iff user name,
        since-append start now (recent now (stored tm user)) early,
        since-recent start now (stored tm user) late,
        since-clean tm name start now late,
      ))

granted-since :
    (tm : TokenManager) (name : String) (start now : ℕ) (calls : Calls)
    → start ≤ now
    → time_after now calls < start + minute
    → IsCapped tm
    → granted tm name now calls + since start (stored tm name) ≤ tm.max_refresh_per_min
unfolding granted
granted-since tm name start now [] early late c =
    omega (arith, since-length start (stored tm name), c name)
granted-since tm name start now ((user, gap) ∷ calls) early late c =
    let tm' = (check_refresh_rate_limit tm user (now + gap)).0 in
    ground (
      arith,
      time-le (now + gap) calls,
      step-max tm user (now + gap),
      step-since tm user name start (now + gap),
      granted-since tm' name start (now + gap) calls (omega arith) late
          (step-IsCapped tm user (now + gap) c),
    )

-- Whatever attempts of whichever users a manager has seen since it was made, of the attempts of one user
-- that follow within less than a minute no more go on than the limit, as long as the clock does not go
-- back.
pub granted-le-max :
    (tm : TokenManager) (name : String) (made : ℕ) (earlier : Calls) (start : ℕ) (calls : Calls)
    → tm.refresh_attempts ≡ []
    → time_after start calls < start + minute
    → granted (run tm made earlier) name start calls ≤ tm.max_refresh_per_min
unfolding Map.lookup
granted-le-max tm name made earlier start calls empty late =
    let c : IsCapped tm = λ n. rw (empty) (omega arith) in
    omega (
      arith,
      run-max tm made earlier,
      granted-since (run tm made earlier) name start start calls (omega arith) late
          (run_calls-IsCapped tm made earlier c),
    )
