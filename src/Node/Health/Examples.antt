-- ===== src/Node/Health/Examples.antt =====
-- pkg/node/health/checker.go: services that fail and recover.
use nitella.Base.{
  String, ◌≡◌, refl, sym, ◌≢◌, true, false, not, none, some, List, [], ◌∷◌, if◌then◌else◌,
  str_eq_iff, codes,
}
use nitella.Base.Map
use nitella.Base.Map.{
  Map, lookup-insert, lookup-erase, lookup-retain, lookup-insert_self, lookup-insert_ne,
  lookup-erase_self, lookup-erase_ne,
}
use nitella.Base.Int.{pos}
use mathlib.Core.Bool.{true≢false}
use nitella.Node.Health.{
  HealthChecker, Service, HealthCheck, new_health_checker, set_status_change_callback, cancel_loop,
  start_monitor, start_checked, start, stop, running, add_service, remove_service, check,
  get_status, get_all_statuses,
}
use nitella.Node.Health.History.{
  run, run-history, probe_done, service_added, service_removed, probes_of, changes, calls_of,
  failed_twice, Event,
}
use nitella.Node.Health.Monitors.{Reach-running, made, added}
use nitella.Node.Health.Probes.{check_http}

abbrev service : Service
service = record {
  address = codes "http://a/";
  health_check =
      some (record { check_type = "http"; path = codes "/up"; expected_status = pos 200 });
}

abbrev checker : HealthChecker
checker = set_status_change_callback (new_health_checker []) true

other : ◌≢◌ {A = String} "db" "web"
other e = true≢false (sym ((str_eq_iff "db" "web").1 e))

-- one blip, then two failures, with another service in between, and a recovery
abbrev events : List Event
events =
    probe_done "web" false 1
    ∷ probe_done "web" true 2
    ∷ service_added "db" service
    ∷ probe_done "web" false 3
    ∷ probe_done "db" false 3
    ∷ probe_done "web" false 4
    ∷ probe_done "web" false 5
    ∷ service_removed "db"
    ∷ probe_done "web" true 6
    ∷ []

told : calls_of "web" (run (start_monitor checker "web") events).1 ≡ false ∷ true ∷ []
unfolding run check start_monitor add_service remove_service new_health_checker
    set_status_change_callback Map.lookup Map.insert Map.erase nitella.Node.Health.probed
told = refl

run-history_example :
    (get_status (run (start_monitor checker "web") events).0 "web"
      ≡ (not (failed_twice (probes_of "web" events [])), true))
    × (calls_of "web" (run (start_monitor checker "web") events).1 ≡ changes "web" events [])
unfolding set_status_change_callback
run-history_example =
    run-history checker "web" events refl
      (tt, (tt, (other, (tt, (tt, (tt, (tt, (other, (tt, tt)))))))))

-- a probe that ends after its service is removed brings the status back
comes_back :
    get_all_statuses
      (check (remove_service (add_service checker "web" service) "web") "web" true 5).0
    ≡ ("web", record { healthy = true; last_checked = 5; failure_cnt = 0 }) ∷ []
unfolding check start_monitor add_service remove_service get_all_statuses new_health_checker
    set_status_change_callback Map.lookup Map.insert Map.erase nitella.Node.Health.probed
comes_back = refl

abbrev twice_added : HealthChecker
twice_added = add_service (add_service (new_health_checker []) "web" service) "web" service

Reach-running_example :
    Map.IsDistinct (running twice_added)
    × (Map.lookup "web" (running twice_added)
        ≡ (if twice_added.stopped then none else Map.lookup "web" twice_added.cancel_fns))
Reach-running_example =
    Reach-running [] twice_added "web" (added _ "web" service (added _ "web" service made))

not_found : check_http (some 404) (pos 0) ≡ false
unfolding check_http
not_found = refl

not_found_expected : check_http (some 404) (pos 404) ≡ true
unfolding check_http
not_found_expected = refl
