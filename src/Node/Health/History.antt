-- ===== src/Node/Health/History.antt =====
-- pkg/node/health/checker.go: the status of a service and the calls of the callback, from the probes alone.
use nitella.Base.{
  ℕ, ◌+◌, String, ◌≡◌, refl, sym, ap, ◌∙◌, ◌≢◌, inl, inr, Bool, true, false, not, ◌&&◌, Option,
  none, some, List, [], ◌∷◌, arith, if◌then◌else◌, All, str_eq, str_eq_iff, Bool-cases,
}
use nitella.Base.Map
use nitella.Base.Map.{
  Map, lookup-insert, lookup-erase, lookup-retain, lookup-insert_self, lookup-insert_ne,
  lookup-erase_self, lookup-erase_ne,
}
use mathlib.Core.Bool.{true≢false}
use nitella.Node.Health.{
  fresh_status, get_status, start_checked, HealthCheck, start_monitor, probed, ServiceStatus,
  HealthChecker, Service, check, add_service, remove_service,
}

pub data Event : Type 0 where
  probe_done : String → Bool → ℕ → Event
  service_added : String → Service → Event
  service_removed : String → Event

abbrev pub step : HealthChecker → Event → HealthChecker × Option (String × Bool)
step hc (probe_done name ok now) = check hc name ok now
step hc (service_added name svc) = (add_service hc name svc, none)
step hc (service_removed name) = (remove_service hc name, none)

abbrev pub cons_some : Option (String × Bool) → List (String × Bool) → List (String × Bool)
cons_some none calls = calls
cons_some (some call) calls = call ∷ calls

-- The checker after some events, and the calls of the callback in order.
unfoldable pub run : HealthChecker → List Event → HealthChecker × List (String × Bool)
run hc [] = (hc, [])
run hc (e ∷ es) =
    let (hc', call) = step hc e in let (last, calls) = run hc' es in (last, cons_some call calls)

-- What the callback is told of one service.
abbrev pub calls_of : String → List (String × Bool) → List Bool
calls_of name [] = []
calls_of name ((n, up) ∷ calls) =
    let rest = calls_of name calls in if str_eq n name then up ∷ rest else rest

-- The results of the probes of a service, the latest first.
abbrev pub probes_of : String → List Event → List Bool → List Bool
probes_of name [] recent = recent
probes_of name (probe_done n ok now ∷ es) recent =
    let hit = probes_of name es (ok ∷ recent) in
    let miss = probes_of name es recent in if str_eq n name then hit else miss
probes_of name (service_added n svc ∷ es) recent = probes_of name es recent
probes_of name (service_removed n ∷ es) recent = probes_of name es recent

abbrev pub failed_twice : List Bool → Bool
failed_twice (false ∷ false ∷ rest) = true
failed_twice _ = false

abbrev pub cons_if : Bool → Bool → List Bool → List Bool
cons_if true up ups = up ∷ ups
cons_if false up ups = ups

abbrev pub differs : Bool → Bool → Bool
differs true b = not b
differs false b = b

-- A probe is told when it changes whether the last two have failed.
abbrev pub changes : String → List Event → List Bool → List Bool
changes name [] recent = []
changes name (probe_done n ok now ∷ es) recent =
    let hit = changes name es (ok ∷ recent) in
    let miss = changes name es recent in
    if str_eq n name
    then cons_if (differs (failed_twice recent) (failed_twice (ok ∷ recent))) ok hit
    else miss
changes name (service_added n svc ∷ es) recent = changes name es recent
changes name (service_removed n ∷ es) recent = changes name es recent

-- The service itself is neither added again nor removed.
abbrev pub Spares : String → Event → Type 0
Spares name (probe_done n ok now) = Unit
Spares name (service_added n svc) = n ≢ name
Spares name (service_removed n) = n ≢ name

failures : List Bool → ℕ
failures [] = 0
failures (true ∷ rest) = 0
failures (false ∷ rest) = failures rest + 1

abbrev Follows : ServiceStatus → List Bool → Type 0
Follows status recent =
    (status.healthy ≡ not (failed_twice recent)) × (status.failure_cnt ≡ failures recent)

probed_lem :
    (status : ServiceStatus) (ok : Bool) (now : ℕ) (recent : List Bool)
    → Follows status recent
    → Follows (probed status ok now).0 (ok ∷ recent)
      × ((probed status ok now).1 ≡ differs (failed_twice recent) (failed_twice (ok ∷ recent)))
unfolding probed failures
probed_lem status true now recent f = ground (arith, Bool-cases (failed_twice recent))
probed_lem status false now [] f = ground arith
probed_lem status false now (true ∷ recent) f = ground arith
probed_lem status false now (false ∷ []) f = ground arith
probed_lem status false now (false ∷ true ∷ recent) f = ground arith
probed_lem status false now (false ∷ false ∷ recent) f = ground arith

-- The checker knows the service, by a status that its probes give.
abbrev Tracks : HealthChecker → String → List Bool → Type 0
Tracks hc name recent =
    (hc.has_callback ≡ true)
    × ((status : ServiceStatus) × (Map.lookup name hc.statuses ≡ some status)
        × Follows status recent)

abbrev Told : String → HealthChecker × List (String × Bool) → List Bool → List Bool → Type 0
Told name (hc, calls) recent ups = Tracks hc name recent × (calls_of name calls ≡ ups)

and_true : (b : Bool) → (b && true) ≡ b
and_true b = ground arith

check_same :
    (hc : HealthChecker) (name n : String) (ok : Bool) (now : ℕ) (recent : List Bool)
    → n ≡ name
    → Tracks hc name recent
    → Tracks (check hc n ok now).0 name (ok ∷ recent)
      × ((check hc n ok now).1 ≡ (
          if differs (failed_twice recent) (failed_twice (ok ∷ recent))
          then some (n, ok)
          else none))
unfolding check
check_same hc name n ok now recent same (told, (status, known, f)) =
    let (f', changed) = probed_lem status ok now recent f in
    rw (ap (λ (x : String). Map.lookup x hc.statuses) same ∙ known, changed, told)
      (
        (
          refl,
          (
            (probed status ok now).0,
            ap (λ (x : String). Map.lookup x (Map.insert n (probed status ok now).0 hc.statuses))
                  (sym same)
                ∙ lookup-insert_self n (probed status ok now).0 hc.statuses,
            f',
          ),
        ),
        ap (λ (b : Bool). if b then some (n, ok) else none)
            (and_true (differs (failed_twice recent) (failed_twice (ok ∷ recent)))),
      )

check_other :
    (hc : HealthChecker) (name n : String) (ok : Bool) (now : ℕ) (recent : List Bool)
    → n ≢ name
    → Tracks hc name recent
    → Tracks (check hc n ok now).0 name recent
unfolding check
check_other hc name n ok now recent other (told, (status, known, f)) =
    (told, (status, lookup-insert_ne n name _ hc.statuses other ∙ known, f))

started_other :
    (hc : HealthChecker) (name n : String) (cfg : Option HealthCheck) (recent : List Bool)
    → n ≢ name
    → Tracks hc name recent
    → Tracks (start_checked hc n cfg) name recent
unfolding start_monitor
started_other hc name n none recent other t = t
started_other hc name n (some cfg) recent other (told, (status, known, f)) =
    (told, (status, lookup-insert_ne n name _ hc.statuses other ∙ known, f))

add_other :
    (hc : HealthChecker) (name n : String) (svc : Service) (recent : List Bool)
    → n ≢ name
    → Tracks hc name recent
    → Tracks (add_service hc n svc) name recent
unfolding add_service start_monitor
add_other hc name n svc recent other (told, (status, known, f)) =
    started_other _ name n svc.health_check recent other (told, (status, known, f))

remove_other :
    (hc : HealthChecker) (name n : String) (recent : List Bool)
    → n ≢ name
    → Tracks hc name recent
    → Tracks (remove_service hc n) name recent
unfolding remove_service
remove_other hc name n recent other (told, (status, known, f)) =
    (told, (status, lookup-erase_ne n name hc.statuses other ∙ known, f))

-- The callback's call comes in front of the later ones.
told_first :
    (name n : String) (up b : Bool) (calls : List (String × Bool)) (ups : List Bool)
    → str_eq n name ≡ true
    → calls_of name calls ≡ ups
    → calls_of name (cons_some (if b then some (n, up) else none) calls) ≡ cons_if b up ups
told_first name n up true calls ups same e = ground arith
told_first name n up false calls ups same e = e

told_others :
    (hc : HealthChecker) (name n : String) (ok : Bool) (now : ℕ) (calls : List (String × Bool))
    → str_eq n name ≡ false
    → calls_of name (cons_some (check hc n ok now).1 calls) ≡ calls_of name calls
unfolding check
told_others hc name n ok now calls other = ground arith

run-Told :
    (name : String) (es : List Event) (hc : HealthChecker) (recent : List Bool)
    → Tracks hc name recent
    → All (Spares name) es
    → Told name (run hc es) (probes_of name es recent) (changes name es recent)
unfolding run
run-Told name [] hc recent t spares = (t, refl)
run-Told name (service_added n svc ∷ es) hc recent t (spare, spares) =
    run-Told name es (add_service hc n svc) recent (add_other hc name n svc recent spare t) spares
run-Told name (service_removed n ∷ es) hc recent t (spare, spares) =
    run-Told name es (remove_service hc n) recent (remove_other hc name n recent spare t) spares
run-Told name (probe_done n ok now ∷ es) hc recent t (spare, spares) =
    elim (Bool-cases (str_eq n name)) [
      | inl same ↦
          let (t', call) = check_same hc name n ok now recent ((str_eq_iff n name).0 same) t in
          let (last, calls) = run-Told name es (check hc n ok now).0 (ok ∷ recent) t' spares in
          rw (same, call)
            (
              last,
              told_first name n ok (differs (failed_twice recent) (failed_twice (ok ∷ recent)))
                  (run (check hc n ok now).0 es).1 (changes name es (ok ∷ recent)) same calls,
            )
      | inr other ↦
          let t' =
            check_other hc name n ok now recent
              (λ e. true≢false (sym ((str_eq_iff n name).1 e) ∙ other)) t in
          let (last, calls) = run-Told name es (check hc n ok now).0 recent t' spares in
          rw (other)
            (last, told_others hc name n ok now (run (check hc n ok now).0 es).1 other ∙ calls)
    ]

tracked :
    (hc : HealthChecker) (name : String) (recent : List Bool)
    → Tracks hc name recent
    → get_status hc name ≡ (not (failed_twice recent), true)
unfolding get_status
tracked hc name recent (told, (status, known, f)) =
    rw (known, get_status) (ap (λ (b : Bool). (b, true)) f.0)

-- From the start of a service's monitor on, and as long as the service is neither added again nor removed:
-- it is known, it counts as healthy unless its last two probes failed, and the callback, which is set, is
-- told exactly of the probes that change that, whatever happens to other services in between.
pub run-history :
    (hc : HealthChecker) (name : String) (es : List Event)
    → hc.has_callback ≡ true
    → All (Spares name) es
    → (get_status (run (start_monitor hc name) es).0 name
        ≡ (not (failed_twice (probes_of name es [])), true))
      × (calls_of name (run (start_monitor hc name) es).1 ≡ changes name es [])
unfolding start_monitor failures
run-history hc name es told spares =
    let start : Tracks (start_monitor hc name) name [] =
      (told, (fresh_status, lookup-insert_self name fresh_status hc.statuses, (refl, refl))) in
    let (t, calls) = run-Told name es (start_monitor hc name) [] start spares in
    (tracked (run (start_monitor hc name) es).0 name (probes_of name es []) t, calls)
