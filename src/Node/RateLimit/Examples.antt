-- ===== src/Node/RateLimit/Examples.antt =====
-- pkg/node/ratelimit.go: runs of the limiter, and its theorems at concrete inputs.
use nitella.Base.{
  ℕ, ◌+◌, ◌≤◌, String, ◌≡◌, refl, ◌≢◌, true, false, none, some, List, [], ◌∷◌, arith, str_eq_iff,
}
use nitella.Base.Map
use nitella.Base.Map.{
  Map, lookup-insert, lookup-erase, lookup-retain, lookup-insert_self, lookup-insert_ne,
  lookup-erase_self, lookup-erase_ne,
}
use nitella.Node.RateLimit.{
  RateLimitConfig, RateLimiter, IpState, cleanup, check_window, lift_block, check, track_connection,
  report_result,
}
use nitella.Node.RateLimit.Isolation
use nitella.Node.RateLimit.Isolation.{SameFor, run, run-SameFor}
use nitella.Node.RateLimit.Window.{
  Attempt, Step, checks, tracks, admitted, overlap, admitted-le-max,
}
use nitella.Node.RateLimit.Blocks.{Fails, report_result-check}
use nitella.Node.RateLimit.Cleanup.{check-cleanup, cleanup_forgets_probation}

-- Three connections a minute, and a ban of ten.
abbrev strict : RateLimiter
strict = record {
  config = record {
    max_connections = 3;
    interval_seconds = 60;
    auto_block = true;
    block_duration_seconds = 600;
    block_steps_seconds = [];
    count_only_failures = false;
    failure_duration_threshold = 0;
  };
  counters = [];
  blocks = [];
}

abbrev at : ℕ → Attempt
at t = record { t_block = t; t_probation = t; now = t }

-- One handler after the other, four times.
abbrev in_turn : List Step
in_turn =
    tracks 1001
    ∷ checks (at 1002)
    ∷ tracks 1003
    ∷ checks (at 1004)
    ∷ tracks 1005
    ∷ checks (at 1006)
    ∷ []

-- Five handlers check, and count their connections only then.
abbrev at_once : List Step
at_once =
    checks (at 1001) ∷ checks (at 1002) ∷ checks (at 1003) ∷ checks (at 1004) ∷ tracks 1005 ∷ []

admitted-in_turn :
    (admitted strict "10.0.0.1" 0 (checks (at 1000) ∷ in_turn) ≡ 3)
    × (overlap strict "10.0.0.1" 0 (checks (at 1000) ∷ in_turn) ≡ 0)
unfolding admitted overlap check check_window track_connection lift_block Map.lookup Map.insert
admitted-in_turn = (refl, refl)

-- two more than the limit
admitted-at_once : admitted strict "10.0.0.1" 0 (checks (at 1000) ∷ at_once) ≡ 5
unfolding admitted check check_window track_connection lift_block Map.lookup Map.insert
admitted-at_once = refl

admitted-le-max_example :
    admitted strict "10.0.0.1" 0 (checks (at 1000) ∷ in_turn)
    ≤ 3 + overlap strict "10.0.0.1" 0 (checks (at 1000) ∷ in_turn)
unfolding Map.lookup
admitted-le-max_example =
    admitted-le-max strict "10.0.0.1" (at 1000) in_turn refl refl refl
      (omega arith, (omega arith, (omega arith, tt)))

-- Two short connections in a row are a failure too many: a minute, then an hour.
abbrev jail : RateLimitConfig
jail = record {
  max_connections = 2;
  interval_seconds = 60;
  auto_block = true;
  block_duration_seconds = 0;
  block_steps_seconds = 60 ∷ 3600 ∷ [];
  count_only_failures = true;
  failure_duration_threshold = 5;
}

abbrev suspect : IpState
suspect = record { count = 2; first_seen = 1000; last_seen = 1500; failed_count = 1; ban_level = 0 }

abbrev watched : RateLimiter
watched = record { config = jail; counters = ("10.0.0.9", suspect) ∷ []; blocks = [] }

abbrev banned_until : ℕ → RateLimiter
banned_until t = record watched { blocks = ("10.0.0.9", t) ∷ [] }

short_call : Fails watched "10.0.0.9" 7
unfolding Map.lookup
short_call = record {
  counting = refl;
  blocking = refl;
  st = suspect;
  stored = refl;
  short = omega arith;
}

short_call_banned : Fails (banned_until 2000) "10.0.0.9" 7
unfolding Map.lookup
short_call_banned = record {
  counting = refl;
  blocking = refl;
  st = suspect;
  stored = refl;
  short = omega arith;
}

other_caller : ◌≢◌ {A = String} "10.0.0.1" "10.0.0.9"
other_caller = ground (arith, str_eq_iff "10.0.0.1" "10.0.0.9")

run-SameFor_example : SameFor "10.0.0.9" watched (
    run watched (
      Isolation.checks "10.0.0.1" 1600 1600 1600
      ∷ Isolation.tracks "10.0.0.1" 1601
      ∷ Isolation.reports "10.0.0.1" 3 1604
      ∷ []))
run-SameFor_example =
    run-SameFor "10.0.0.9" watched _ (other_caller, (other_caller, (other_caller, tt)))

-- The second ban is an hour, and the third would be one too.
abbrev known : IpState
known = record suspect { ban_level = 1 }

abbrev banned_once : RateLimiter
banned_once = record watched { counters = ("10.0.0.9", known) ∷ [] }

short_call_again : Fails banned_once "10.0.0.9" 7
unfolding Map.lookup
short_call_again = record {
  counting = refl;
  blocking = refl;
  st = known;
  stored = refl;
  short = omega arith;
}

report_result-check_example :
    let banned = report_result banned_once "10.0.0.9" 7 1600 in
    (check banned "10.0.0.9" 3600000001599 1700 1700 ≡ (banned, false))
    × (Map.lookup "10.0.0.9" banned.counters
        ≡ some (record known { failed_count = 2; ban_level = 2 }))
unfolding short_call_again
report_result-check_example =
    report_result-check banned_once "10.0.0.9" 7 1600 short_call_again (omega arith) 3600000001599
      1700 1700 (omega arith)

check-cleanup_example :
    (check (cleanup (banned_until 2000) 3000) "10.0.0.9" 3000 3000 3001).1
    ≡ (check (banned_until 2000) "10.0.0.9" 3000 3000 3001).1
unfolding Map.lookup
check-cleanup_example =
    check-cleanup (banned_until 2000) "10.0.0.9" 3000 3000 3000 3001 (omega arith) (omega arith)
      (omega arith) (omega arith)

cleanup_forgets_probation_example :
    let (rl', allowed) =
      check (cleanup (banned_until 2000) 3000) "10.0.0.9" 61000000000 61000000000 61000000000 in
    (allowed ≡ true)
    × (Map.lookup "10.0.0.9" (report_result rl' "10.0.0.9" 7 61000000007).blocks ≡ none)
unfolding Map.lookup
cleanup_forgets_probation_example =
    cleanup_forgets_probation (banned_until 2000) "10.0.0.9" suspect 2000 3000 61000000000
      61000000000 61000000000 7 61000000007 refl (omega arith) refl refl (omega arith) (omega arith)
      (omega arith)
