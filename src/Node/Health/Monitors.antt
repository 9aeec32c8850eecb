-- ===== src/Node/Health/Monitors.antt =====
-- pkg/node/health/checker.go: which monitors are running.
use nitella.Base.{
  ℕ, ◌<◌, String, ◌≡◌, refl, sym, ◌∙◌, inl, inr, Bool, not, Option, none, some, [], ◌∷◌, arith,
  ◌==◌, if◌then◌else◌, str_eq, str_eq_iff, Bool-cases, Option-cases,
}
use nitella.Base.Map
use nitella.Base.Map.{
  Map, lookup-insert, lookup-erase, lookup-retain, lookup-insert_self, lookup-insert_ne,
  lookup-erase_self, lookup-erase_ne,
}
use nitella.Node.Health.{
  HealthChecker, Service, HealthCheck, new_health_checker, cancel_loop, start_monitor,
  start_checked, start_all, start, stop, running, add_service, remove_service, check,
}

-- What is called after `NewHealthChecker`.
pub data Reach (services : Map Service) : HealthChecker → Type 0 where
  made : Reach services (new_health_checker services)
  started : (hc : HealthChecker) → Reach services hc → Reach services (start hc)
  ended : (hc : HealthChecker) → Reach services hc → Reach services (stop hc)
  added :
      (hc : HealthChecker) (name : String) (svc : Service)
      → Reach services hc
      → Reach services (add_service hc name svc)
  removed :
      (hc : HealthChecker) (name : String)
      → Reach services hc
      → Reach services (remove_service hc name)
  probed :
      (hc : HealthChecker) (name : String) (ok : Bool) (now : ℕ)
      → Reach services hc
      → Reach services (check hc name ok now).0

record IsPaired (hc : HealthChecker) : Type 0 where
  agree : (name : String) → Map.lookup name hc.loops ≡ Map.lookup name hc.cancel_fns
  distinct : Map.IsDistinct hc.loops
  fresh : (name : String) (ctx : ℕ) → Map.lookup name hc.cancel_fns ≡ some ctx → ctx < hc.next_ctx
  apart :
      (m n : String) (ctx : ℕ)
      → Map.lookup m hc.cancel_fns ≡ some ctx
      → Map.lookup n hc.cancel_fns ≡ some ctx
      → m ≡ n

lookup-cancel_loop :
    (n : String) (ctx : ℕ) (loops : Map ℕ)
    → Map.IsDistinct loops
    → Map.lookup n (cancel_loop (some ctx) loops)
      ≡ Map.keep_if (λ c. not (c == ctx)) (Map.lookup n loops)
unfolding Map.lookup
lookup-cancel_loop n ctx [] d = refl
lookup-cancel_loop n ctx ((m, c) ∷ loops) (d, ds) =
    ground (arith, str_eq_iff m n, lookup-cancel_loop n ctx loops ds)

cancel_loop-IsDistinct :
    (ctx : ℕ) (loops : Map ℕ) → Map.IsDistinct loops → Map.IsDistinct (cancel_loop (some ctx) loops)
cancel_loop-IsDistinct ctx [] d = tt
cancel_loop-IsDistinct ctx ((m, c) ∷ loops) (d, ds) =
    ground (arith, lookup-cancel_loop m ctx loops ds, cancel_loop-IsDistinct ctx loops ds)

cancelled-IsDistinct :
    (o : Option ℕ) (loops : Map ℕ) → Map.IsDistinct loops → Map.IsDistinct (cancel_loop o loops)
cancelled-IsDistinct none loops d = d
cancelled-IsDistinct (some ctx) loops d = cancel_loop-IsDistinct ctx loops d

-- To cancel the loop of one service leaves those of the others.
lookup_cancelled :
    (hc : HealthChecker) (name n : String)
    → IsPaired hc
    → Map.lookup n (cancel_loop (Map.lookup name hc.cancel_fns) hc.loops)
      ≡ (if str_eq name n then none else Map.lookup n hc.cancel_fns)
lookup_cancelled hc name n p = elim (Option-cases (Map.lookup name hc.cancel_fns)) [
  | inl absent ↦ rw (absent, p.agree n) (ground (arith, str_eq_iff name n))
  | inr (ctx, known) ↦
      rw (known, lookup-cancel_loop n ctx hc.loops p.distinct, p.agree n)
        (ground (arith, str_eq_iff name n, p.apart name n ctx, known))
]

cancel-IsDistinct :
    (hc : HealthChecker) (name : String)
    → IsPaired hc
    → Map.lookup name (cancel_loop (Map.lookup name hc.cancel_fns) hc.loops) ≡ none
cancel-IsDistinct hc name p = ground (arith, lookup_cancelled hc name name p, str_eq_iff name name)

start_monitor-IsPaired :
    (hc : HealthChecker) (name : String) → IsPaired hc → IsPaired (start_monitor hc name)
unfolding start_monitor Map.lookup
start_monitor-IsPaired hc name p = record {
  agree = λ n.
      ground (arith, lookup_cancelled hc name n p, lookup-insert name n hc.next_ctx hc.cancel_fns);
  distinct = (
    cancel-IsDistinct hc name p,
    cancelled-IsDistinct (Map.lookup name hc.cancel_fns) hc.loops p.distinct,
  );
  fresh = λ n ctx. ground (arith, lookup-insert name n hc.next_ctx hc.cancel_fns, p.fresh n ctx);
  apart = λ m n ctx. ground (
    arith,
    str_eq_iff name n,
    str_eq_iff name m,
    lookup-insert name n hc.next_ctx hc.cancel_fns,
    lookup-insert name m hc.next_ctx hc.cancel_fns,
    p.fresh m ctx,
    p.fresh n ctx,
    p.apart m n ctx,
  );
}

remove_service-IsPaired :
    (hc : HealthChecker) (name : String) → IsPaired hc → IsPaired (remove_service hc name)
unfolding remove_service
remove_service-IsPaired hc name p = record {
  agree = λ n. lookup_cancelled hc name n p ∙ sym (lookup-erase name n hc.cancel_fns);
  distinct = cancelled-IsDistinct (Map.lookup name hc.cancel_fns) hc.loops p.distinct;
  fresh = λ n ctx. ground (arith, lookup-erase name n hc.cancel_fns, p.fresh n ctx);
  apart = λ m n ctx. ground (
    arith,
    lookup-erase name n hc.cancel_fns,
    lookup-erase name m hc.cancel_fns,
    p.apart m n ctx,
  );
}

-- A change of other fields.
same-IsPaired :
    (hc hc' : HealthChecker)
    → hc'.loops ≡ hc.loops
    → hc'.cancel_fns ≡ hc.cancel_fns
    → hc'.next_ctx ≡ hc.next_ctx
    → IsPaired hc
    → IsPaired hc'
same-IsPaired hc hc' l c x p = record {
  agree = λ n. rw (l, c) (p.agree n);
  distinct = rw (l) p.distinct;
  fresh = λ n ctx. rw (c, x) (p.fresh n ctx);
  apart = λ m n ctx. rw (c) (p.apart m n ctx);
}

start_checked-IsPaired :
    (hc : HealthChecker) (name : String) (cfg : Option HealthCheck)
    → IsPaired hc
    → IsPaired (start_checked hc name cfg)
start_checked-IsPaired hc name none p = p
start_checked-IsPaired hc name (some cfg) p = start_monitor-IsPaired hc name p

start_all-IsPaired :
    (hc : HealthChecker) (services : Map Service) → IsPaired hc → IsPaired (start_all hc services)
unfolding start_all
start_all-IsPaired hc [] p = p
start_all-IsPaired hc ((name, svc) ∷ services) p =
    start_all-IsPaired (start_checked hc name svc.health_check) services
      (start_checked-IsPaired hc name svc.health_check p)

none-IsPaired : (hc : HealthChecker) → hc.loops ≡ [] → hc.cancel_fns ≡ [] → IsPaired hc
unfolding Map.lookup
none-IsPaired hc l c = record {
  agree = λ n. rw (l, c) refl;
  distinct = rw (l) tt;
  fresh = λ n ctx. rw (c) (λ e. cc);
  apart = λ m n ctx. rw (c) (λ e. cc);
}

Reach-IsPaired : {services : Map Service} {hc : HealthChecker} → Reach services hc → IsPaired hc
unfolding new_health_checker start stop add_service check
Reach-IsPaired made = none-IsPaired _ refl refl
Reach-IsPaired (started hc r) = start_all-IsPaired hc hc.services (Reach-IsPaired r)
Reach-IsPaired (ended hc r) = none-IsPaired _ refl refl
Reach-IsPaired (added hc name svc r) =
    start_checked-IsPaired _ name svc.health_check
      (same-IsPaired hc _ refl refl refl (Reach-IsPaired r))
Reach-IsPaired (removed hc name r) = remove_service-IsPaired hc name (Reach-IsPaired r)
Reach-IsPaired (probed hc name ok now r) = same-IsPaired hc _ refl refl refl (Reach-IsPaired r)

-- In every state that calls of a new checker reach, each service has at most one monitor that is running, and
-- unless the checker was stopped it is the one that the stored cancel function of the service ends.
pub Reach-running :
    (services : Map Service) (hc : HealthChecker) (name : String)
    → Reach services hc
    → Map.IsDistinct (running hc)
      × (Map.lookup name (running hc)
          ≡ (if hc.stopped then none else Map.lookup name hc.cancel_fns))
unfolding Map.lookup
Reach-running services hc name r =
    let p = Reach-IsPaired r in
    elim (Bool-cases hc.stopped) [
      | inl over ↦ rw (over) (tt, refl)
      | inr on ↦ rw (on) (p.distinct, p.agree name)
    ]
