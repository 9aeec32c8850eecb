-- ===== src/Node/Health.antt =====
-- pkg/node/health/checker.go: the checker of services. A probe is given by its result, and the callback
-- by whether one is set; what it would be called with is returned. A monitor's loop is the context that
-- it watches, and `loops` holds those that are not cancelled.
pub mod Probes
pub mod History
pub mod Monitors
mod Examples
use nitella.Base.{
  ◌^◌, ℕ, zero, suc, ◌+◌, ◌-◌, ◌*◌, ◌/◌, ◌%◌, ◌≤◌, ◌<◌, min, max, String, ◌≡◌, refl, sym, ap, ◌∙◌,
  ◌≢◌, ◌↔◌, ◌⊎◌, inl, inr, Bool, true, false, not, ◌&&◌, ◌||◌, Option, none, some, List, [], ◌∷◌,
  ◌++◌, map, arith, ltb, leb, ◌==◌, if◌then◌else◌, length, get_or, any-perm, any, all, All, str_eq,
  str_eq_iff, codes, concat, concat_cancel_left, concat_assoc, concat_apart, codes-concat,
  codes-injective, IsFree, separator_cancel, separator-IsFree, cut, split_on, is_digit, includes,
  Bool-cases, Option-cases,
}
use nitella.Base.Map
use nitella.Base.Map.{
  Map, lookup-insert, lookup-erase, lookup-retain, lookup-insert_self, lookup-insert_ne,
  lookup-erase_self, lookup-erase_ne,
}
use nitella.Base.Int.{ℤ}

pub record HealthCheck : Type 0 where
  pub check_type : String
  pub path : List ℕ
  pub expected_status : ℤ

pub record Service : Type 0 where
  pub address : List ℕ
  pub health_check : Option HealthCheck

pub record ServiceStatus : Type 0 where
  pub healthy : Bool
  pub last_checked : ℕ
  pub failure_cnt : ℕ

pub record HealthChecker : Type 0 where
  pub services : Map Service
  pub statuses : Map ServiceStatus
  pub cancel_fns : Map ℕ
  pub loops : List (String × ℕ)
  pub next_ctx : ℕ
  pub stopped : Bool
  pub has_callback : Bool

-- `NewHealthChecker`
unfoldable pub new_health_checker : Map Service → HealthChecker
new_health_checker services = record {
  services = services;
  statuses = [];
  cancel_fns = [];
  loops = [];
  next_ctx = 0;
  stopped = false;
  has_callback = false;
}

-- `SetStatusChangeCallback`
unfoldable pub set_status_change_callback : HealthChecker → Bool → HealthChecker
set_status_change_callback hc is_set = record hc { has_callback = is_set }

-- `cancel()` of a context: its loop ends.
abbrev pub cancel_loop : Option ℕ → List (String × ℕ) → List (String × ℕ)
cancel_loop none loops = loops
cancel_loop (some ctx) [] = []
cancel_loop (some ctx) ((name, c) ∷ loops) =
    let rest = cancel_loop (some ctx) loops in if c == ctx then rest else (name, c) ∷ rest

abbrev pub fresh_status : ServiceStatus
fresh_status = record { healthy = true; last_checked = 0; failure_cnt = 0 }

-- `startMonitor`
unfoldable pub start_monitor : HealthChecker → String → HealthChecker
start_monitor hc name = record hc {
  cancel_fns = Map.insert name hc.next_ctx hc.cancel_fns;
  statuses = Map.insert name fresh_status hc.statuses;
  loops = (name, hc.next_ctx) ∷ cancel_loop (Map.lookup name hc.cancel_fns) hc.loops;
  next_ctx = hc.next_ctx + 1;
}

abbrev pub start_checked : HealthChecker → String → Option HealthCheck → HealthChecker
start_checked hc name none = hc
start_checked hc name (some cfg) = start_monitor hc name

-- The loop of `Start`.
unfoldable pub start_all : HealthChecker → Map Service → HealthChecker
start_all hc [] = hc
start_all hc ((name, svc) ∷ services) = start_all (start_checked hc name svc.health_check) services

-- `Start`
unfoldable pub start : HealthChecker → HealthChecker
start hc = start_all hc hc.services

-- `Stop`
unfoldable pub stop : HealthChecker → HealthChecker
stop hc = record hc { cancel_fns = []; loops = []; stopped = true }

-- The loops that go on: the channel that `Stop` closes ends every one, one that starts later too.
abbrev pub running : HealthChecker → List (String × ℕ)
running hc = if hc.stopped then [] else hc.loops

-- `AddService`
unfoldable pub add_service : HealthChecker → String → Service → HealthChecker
add_service hc name svc =
    start_checked (record hc { services = Map.insert name svc hc.services }) name svc.health_check

-- `RemoveService`
unfoldable pub remove_service : HealthChecker → String → HealthChecker
remove_service hc name = record hc {
  loops = cancel_loop (Map.lookup name hc.cancel_fns) hc.loops;
  cancel_fns = Map.erase name hc.cancel_fns;
  services = Map.erase name hc.services;
  statuses = Map.erase name hc.statuses;
}

abbrev pub status_or_new : Option ServiceStatus → ServiceStatus
status_or_new none = fresh_status
status_or_new (some status) = status

-- The status after a probe, and whether it has changed.
unfoldable pub probed : ServiceStatus → Bool → ℕ → ServiceStatus × Bool
probed status true now =
    (record { healthy = true; last_checked = now; failure_cnt = 0 }, not status.healthy)
probed status false now =
    let failures = status.failure_cnt + 1 in
    if leb 2 failures && status.healthy
    then (record { healthy = false; last_checked = now; failure_cnt = failures }, true)
    else (record status { last_checked = now; failure_cnt = failures }, false)

-- `check`, after the probe: the call of the callback is the service and whether it is healthy.
unfoldable pub check : HealthChecker → String → Bool → ℕ → HealthChecker × Option (String × Bool)
check hc name ok now =
    let (status, changed) = probed (status_or_new (Map.lookup name hc.statuses)) ok now in
    (
      record hc { statuses = Map.insert name status hc.statuses },
      (if changed && hc.has_callback then some (name, ok) else none),
    )

-- `GetStatus`: the health, and whether the service is known.
unfoldable pub get_status : HealthChecker → String → Bool × Bool
get_status hc name = elim (Map.lookup name hc.statuses) [
  | none ↦ (false, false)
  | some status ↦ (status.healthy, true)
]

-- `GetAllStatuses`
unfoldable pub get_all_statuses : HealthChecker → Map ServiceStatus
get_all_statuses hc = hc.statuses
