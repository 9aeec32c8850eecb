-- ===== src/Node/Approval/Manager/Slots.antt =====
-- pkg/node/approval.go: the limits on waiting requests, over every interleaving of the calls.
use nitella.Base.{
  ℕ, ◌≤◌, ◌<◌, String, ◌≡◌, refl, sym, ap, ◌∙◌, ◌≢◌, inl, inr, Bool, false, not, ◌&&◌, none, some,
  arith, leb, if◌then◌else◌, str_eq, Bool-cases, Option-cases,
}
use nitella.Base.Map
use nitella.Base.Map.{
  length-erase-le, erase-IsDistinct, insert-IsDistinct, IsDistinct, Map, lookup-insert,
  lookup-erase, lookup-retain, lookup-insert_self, lookup-insert_ne, lookup-erase_self,
  lookup-erase_ne,
}
use nitella.Node.Approval.Manager.Counts.{
  count, count-insert_same, counted_in, counted_in_named, counted_out, size-insert_fresh,
}
use nitella.Node.Approval.Manager.{
  ApprovalCache, receive, resolve_with_retention, RetentionMode, cancel, ApprovalRequestMeta,
  new_manager, reserve, ApprovalManager, PendingRequest, count_at, increment,
}

abbrev pub ip_of : PendingRequest → String
ip_of r = r.source_ip

abbrev pub proxy_of : PendingRequest → String
proxy_of r = r.meta.proxy_id

-- Each counter is the number of the waiting requests of its address or proxy, and within its limit.
pub record Accounted (am : ApprovalManager) : Type 0 where
  pub distinct : IsDistinct am.requests
  pub total : Map.size am.requests ≤ am.max_pending
  pub by_ip : (ip : String) → ip ≢ "" → count_at ip am.pending_by_ip ≡ count ip_of ip am.requests
  pub ip_limit : (ip : String) → ip ≢ "" → count ip_of ip am.requests ≤ am.max_pending_ip
  pub by_proxy :
      (p : String) → p ≢ "" → count_at p am.pending_by_proxy ≡ count proxy_of p am.requests
  pub proxy_limit : (p : String) → p ≢ "" → count proxy_of p am.requests ≤ am.max_pending_proxy

-- The managers that any interleaving of the calls builds, when no request takes the id of one that waits.
pub data Reach : ApprovalManager → Type 0 where
  new : Reach new_manager
  reserved :
      {am : ApprovalManager} (req_id : String) (meta : ApprovalRequestMeta)
      → Map.lookup req_id am.requests ≡ none
      → Reach am
      → Reach (reserve am req_id meta).0
  cancelled : {am : ApprovalManager} (req_id : String) → Reach am → Reach (cancel am req_id)
  resolved :
      {am : ApprovalManager} (req_id : String) (allowed : Bool) (duration : ℕ) (reason : String)
      (mode : RetentionMode)
      → Reach am
      → Reach (resolve_with_retention am req_id allowed duration reason mode).0
  received : {am : ApprovalManager} (req_id : String) → Reach am → Reach (receive am req_id).0
  cached : {am : ApprovalManager} (c : ApprovalCache) → Reach am → Reach (record am { cache = c })

module _ (am : ApprovalManager) (req_id : String) (req : PendingRequest) (a : Accounted am) where
  accept-Accounted :
      Map.lookup req_id am.requests ≡ none
      → Map.size am.requests < am.max_pending
      → count_at req.source_ip am.pending_by_ip < am.max_pending_ip
      → (str_eq req.meta.proxy_id "" ≡ false
          → count_at req.meta.proxy_id am.pending_by_proxy < am.max_pending_proxy)
      → Accounted (record am {
        requests = Map.insert req_id req am.requests;
        pending_by_ip = increment req.source_ip am.pending_by_ip;
        pending_by_proxy =
            (if not (str_eq req.meta.proxy_id "")
              then increment req.meta.proxy_id am.pending_by_proxy
              else am.pending_by_proxy);
      })
  accept-Accounted fresh room ip_room proxy_room =
      let ips = λ (ip : String) (h : ip ≢ "").
        counted_in ip_of ip req_id req am.requests am.pending_by_ip am.max_pending_ip fresh ip_room
          (a.by_ip ip h) (a.ip_limit ip h) in
      let proxies = λ (p : String) (h : p ≢ "").
        counted_in_named proxy_of p req_id req am.requests am.pending_by_proxy h (a.by_proxy p h)
          am.max_pending_proxy fresh proxy_room (a.proxy_limit p h) in
      record {
        distinct = insert-IsDistinct req_id req am.requests a.distinct;
        total = rw (size-insert_fresh req_id req am.requests fresh) (omega arith);
        by_ip = λ ip h. (ips ip h).0;
        ip_limit = λ ip h. (ips ip h).1;
        by_proxy = λ p h. (proxies p h).0;
        proxy_limit = λ p h. (proxies p h).1;
      }

  release-Accounted : Map.lookup req_id am.requests ≡ some req → Accounted (cancel am req_id)
  unfolding cancel
  release-Accounted stored =
      let ips = λ (ip : String) (h : ip ≢ "").
        counted_out ip_of ip req_id req am.requests am.pending_by_ip h (a.by_ip ip h) a.distinct
          stored in
      let proxies = λ (p : String) (h : p ≢ "").
        counted_out proxy_of p req_id req am.requests am.pending_by_proxy h (a.by_proxy p h)
          a.distinct stored in
      rw (stored, cancel)
        (record {
          distinct = erase-IsDistinct req_id am.requests a.distinct;
          total = omega (arith, length-erase-le req_id am.requests, a.total);
          by_ip = λ ip h. (ips ip h).0;
          ip_limit = λ ip h. omega (arith, (ips ip h).1, a.ip_limit ip h);
          by_proxy = λ p h. (proxies p h).0;
          proxy_limit = λ p h. omega (arith, (proxies p h).1, a.proxy_limit p h);
        })

  change-Accounted :
      (req' : PendingRequest)
      → Map.lookup req_id am.requests ≡ some req
      → req'.source_ip ≡ req.source_ip
      → req'.meta ≡ req.meta
      → Accounted (record am { requests = Map.insert req_id req' am.requests })
  change-Accounted req' stored e e' =
      let ips = λ (ip : String). count-insert_same ip_of ip req_id req req' am.requests stored e in
      let proxies = λ (p : String).
        count-insert_same proxy_of p req_id req req' am.requests stored
          (ap (λ (m : ApprovalRequestMeta). m.proxy_id) e') in
      record {
        distinct = insert-IsDistinct req_id req' am.requests a.distinct;
        total = omega (arith, (ips "").1, a.total);
        by_ip = λ ip h. a.by_ip ip h ∙ sym (ips ip).0;
        ip_limit = λ ip h. rw (ips ip).0 (a.ip_limit ip h);
        by_proxy = λ p h. a.by_proxy p h ∙ sym (proxies p).0;
        proxy_limit = λ p h. rw (proxies p).0 (a.proxy_limit p h);
      }

reserve-Accounted :
    (am : ApprovalManager) (req_id : String) (meta : ApprovalRequestMeta)
    → Map.lookup req_id am.requests ≡ none
    → Accounted am
    → Accounted (reserve am req_id meta).0
unfolding reserve
reserve-Accounted am req_id meta fresh a =
    elim (Bool-cases (leb am.max_pending (Map.size am.requests))) [
      | inl e ↦ rw e a
      | inr room ↦
          elim (Bool-cases (leb am.max_pending_ip (count_at meta.source_ip am.pending_by_ip))) [
            | inl e ↦ rw (room, e) a
            | inr ip_room ↦
                elim (Bool-cases (
                  not (str_eq meta.proxy_id "")
                  && leb am.max_pending_proxy (count_at meta.proxy_id am.pending_by_proxy))) [
                    | inl e ↦ rw (room, ip_room, e) a
                    | inr proxy_room ↦
                        rw (room, ip_room, proxy_room)
                          (accept-Accounted am req_id _ a fresh (ground arith) (ground arith)
                            (λ e. ground arith))
                  ]
          ]
    ]

cancel-Accounted :
    (am : ApprovalManager) (req_id : String) → Accounted am → Accounted (cancel am req_id)
unfolding cancel
cancel-Accounted am req_id a = elim (Option-cases (Map.lookup req_id am.requests)) [
  | inl e ↦ rw (e, cancel) a
  | inr (req, e) ↦ release-Accounted am req_id req a e
]

resolve-Accounted :
    (am : ApprovalManager) (req_id : String) (allowed : Bool) (duration : ℕ) (reason : String)
    (mode : RetentionMode)
    → Accounted am
    → Accounted (resolve_with_retention am req_id allowed duration reason mode).0
unfolding resolve_with_retention
resolve-Accounted am req_id allowed duration reason mode a =
    elim (Option-cases (Map.lookup req_id am.requests)) [
      | inl e ↦ rw (e, resolve_with_retention) a
      | inr (req, e) ↦
          rw (e, resolve_with_retention) (change-Accounted am req_id req a _ e refl refl)
    ]

receive-Accounted :
    (am : ApprovalManager) (req_id : String) → Accounted am → Accounted (receive am req_id).0
unfolding receive
receive-Accounted am req_id a = elim (Option-cases (Map.lookup req_id am.requests)) [
  | inl e ↦ rw (e, receive) a
  | inr (req, e) ↦ rw (e, receive) (change-Accounted am req_id req a _ e refl refl)
]

-- However the calls interleave, each counter of waiting requests is the number of the requests that wait
-- for its address or its proxy, and the manager's three limits hold, when no request takes the id of one
-- that waits; the empty address and the empty proxy are left out.
pub Reach-Accounted : {am : ApprovalManager} → Reach am → Accounted am
unfolding new_manager Map.lookup
Reach-Accounted new = record {
  distinct = tt;
  total = omega arith;
  by_ip = λ ip h. refl;
  ip_limit = λ ip h. omega arith;
  by_proxy = λ p h. refl;
  proxy_limit = λ p h. omega arith;
}
Reach-Accounted (reserved {am = am} req_id meta fresh r) =
    reserve-Accounted am req_id meta fresh (Reach-Accounted r)
Reach-Accounted (cancelled {am = am} req_id r) = cancel-Accounted am req_id (Reach-Accounted r)
Reach-Accounted (resolved {am = am} req_id allowed duration reason mode r) =
    resolve-Accounted am req_id allowed duration reason mode (Reach-Accounted r)
Reach-Accounted (received {am = am} req_id r) = receive-Accounted am req_id (Reach-Accounted r)
Reach-Accounted (cached c r) =
    let a = Reach-Accounted r in
    record {
      distinct = a.distinct;
      total = a.total;
      by_ip = a.by_ip;
      ip_limit = a.ip_limit;
      by_proxy = a.by_proxy;
      proxy_limit = a.proxy_limit;
    }
