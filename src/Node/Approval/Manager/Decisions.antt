-- ===== src/Node/Approval/Manager/Decisions.antt =====
-- pkg/node/approval.go: what becomes of a request, from its start to its cancellation.
use nitella.Base.{
  ℕ, ◌+◌, String, ◌≡◌, refl, inl, inr, Bool, false, not, ◌&&◌, Option, none, some, [], ◌∷◌, arith,
  leb, if◌then◌else◌, str_eq, str_eq_iff, Bool-cases, Option-cases,
}
use nitella.Base.Map
use nitella.Base.Map.{
  Map, lookup-insert, lookup-erase, lookup-retain, lookup-insert_self, lookup-insert_ne,
  lookup-erase_self, lookup-erase_ne,
}
use nitella.Node.Approval.Manager.Counts.{count_at-increment, count_at-decrement}
use nitella.Node.Approval.Manager.{
  RetentionMode, ApprovalResult, ApprovalRequestMeta, PendingRequest, ApprovalManager, send_failed,
  count_at, increment, decrement, reserve, cancel, begin, resolve_with_retention, mode_or_cache,
  seconds64, offer,
}

-- What the channel of a request holds.
abbrev pub result_of : Option PendingRequest → Option ApprovalResult
result_of none = none
result_of (some req) = req.result

abbrev pub decision : Bool → ℕ → String → RetentionMode → String → ApprovalResult
decision allowed duration reason mode rule_id = record {
  allowed = allowed;
  retention_mode = mode_or_cache mode;
  duration = seconds64 duration;
  rule_id = rule_id;
  reason = reason;
}

abbrev with_decision : ApprovalManager → String → PendingRequest → ApprovalResult → ApprovalManager
with_decision am req_id req res = record am {
  requests = Map.insert req_id (record req { result = offer req.result res }) am.requests;
}

resolve_stored :
    (am : ApprovalManager) (req_id : String) (req : PendingRequest) (allowed : Bool) (duration : ℕ)
    (reason : String) (mode : RetentionMode)
    → Map.lookup req_id am.requests ≡ some req
    → resolve_with_retention am req_id allowed duration reason mode ≡ (
      with_decision am req_id req (decision allowed duration reason mode req.meta.rule_id),
      some req.meta,
    )
unfolding resolve_with_retention
resolve_stored am req_id req allowed duration reason mode stored =
    rw (stored, resolve_with_retention)

-- The first decision on a request that waits and has none yet stands: a second one is accepted, but the
-- waiting connection gets the first, with the rule of the request and with caching for an unspecified mode.
pub resolve_with_retention_first :
    (am : ApprovalManager) (req_id : String) (req : PendingRequest) (allowed allowed' : Bool)
    (duration duration' : ℕ) (reason reason' : String) (mode mode' : RetentionMode)
    → Map.lookup req_id am.requests ≡ some req
    → req.result ≡ none
    → let am' = (resolve_with_retention am req_id allowed duration reason mode).0 in
      let (am'', answered) = resolve_with_retention am' req_id allowed' duration' reason' mode' in
      (result_of (Map.lookup req_id am''.requests)
        ≡ some (decision allowed duration reason mode req.meta.rule_id))
      × (answered ≡ some req.meta)
resolve_with_retention_first am req_id req allowed allowed' duration duration' reason reason' mode
      mode' stored empty =
    let res = decision allowed duration reason mode req.meta.rule_id in
    let req' = record req { result = offer req.result res } in
    rw
      (
        resolve_stored am req_id req allowed duration reason mode stored,
        resolve_stored (with_decision am req_id req res) req_id req' allowed' duration' reason'
            mode' (lookup-insert_self req_id req' am.requests),
        lookup-insert_self req_id,
        empty,
      )
      (refl, refl)

-- A decision for a request that no longer waits changes nothing and is reported as unknown.
resolve_unknown :
    (am : ApprovalManager) (req_id : String) (allowed : Bool) (duration : ℕ) (reason : String)
    (mode : RetentionMode)
    → Map.lookup req_id am.requests ≡ none
    → resolve_with_retention am req_id allowed duration reason mode ≡ (am, none)
unfolding resolve_with_retention
resolve_unknown am req_id allowed duration reason mode gone = rw (gone, resolve_with_retention)

-- A decision after the cancellation of its request reaches nobody and is reported as unknown.
pub cancel-resolve_late :
    (am : ApprovalManager) (req_id : String) (allowed : Bool) (duration : ℕ) (reason : String)
    (mode : RetentionMode)
    → resolve_with_retention (cancel am req_id) req_id allowed duration reason mode
      ≡ (cancel am req_id, none)
unfolding cancel
cancel-resolve_late am req_id allowed duration reason mode =
    resolve_unknown (cancel am req_id) req_id allowed duration reason mode
      (elim (Option-cases (Map.lookup req_id am.requests)) [
        | inl e ↦ rw (e, cancel) e
        | inr (req, e) ↦ rw (e, cancel) (lookup-erase_self req_id am.requests)
      ])

erase-insert :
    (id : String) (r : PendingRequest) (m : Map PendingRequest)
    → Map.lookup id m ≡ none
    → Map.erase id (Map.insert id r m) ≡ m
unfolding Map.lookup Map.insert Map.erase
erase-insert id r [] h = ground (arith, str_eq_iff id id)
erase-insert id r ((j, s) ∷ m) h = ground (arith, erase-insert id r m)

abbrev pub request : ApprovalRequestMeta → PendingRequest
request meta = record { result = none; meta = meta; source_ip = meta.source_ip; cancelled = false }

-- The manager after a request is let in.
abbrev accepted : ApprovalManager → String → ApprovalRequestMeta → ApprovalManager
accepted am req_id meta = record am {
  requests = Map.insert req_id (request meta) am.requests;
  pending_by_ip = increment meta.source_ip am.pending_by_ip;
  pending_by_proxy =
      (if not (str_eq meta.proxy_id "")
        then increment meta.proxy_id am.pending_by_proxy
        else am.pending_by_proxy);
}

reserve-accepted :
    (am : ApprovalManager) (req_id : String) (meta : ApprovalRequestMeta)
    → (reserve am req_id meta).1 ≡ none
    → reserve am req_id meta ≡ (accepted am req_id meta, none)
unfolding reserve
reserve-accepted am req_id meta h = elim (Bool-cases (leb am.max_pending (Map.size am.requests))) [
  | inl e ↦ grind arith
  | inr e ↦ elim (Bool-cases (leb am.max_pending_ip (count_at meta.source_ip am.pending_by_ip))) [
    | inl e' ↦ grind arith
    | inr e' ↦
        elim (Bool-cases (
          not (str_eq meta.proxy_id "")
          && leb am.max_pending_proxy (count_at meta.proxy_id am.pending_by_proxy))) [
            | inl e'' ↦ grind arith
            | inr e'' ↦ rw (e, e', e'')
          ]
  ]
]

-- The manager after that request is cancelled.
abbrev released : ApprovalManager → ApprovalRequestMeta → ApprovalManager
released am meta = record am {
  pending_by_ip =
      (if not (str_eq meta.source_ip "")
        then decrement meta.source_ip (increment meta.source_ip am.pending_by_ip)
        else increment meta.source_ip am.pending_by_ip);
  pending_by_proxy =
      (if not (str_eq meta.proxy_id "")
        then decrement meta.proxy_id (
            if not (str_eq meta.proxy_id "")
            then increment meta.proxy_id am.pending_by_proxy
            else am.pending_by_proxy)
        else (if not (str_eq meta.proxy_id "")
            then increment meta.proxy_id am.pending_by_proxy
            else am.pending_by_proxy));
}

cancel-accepted :
    (am : ApprovalManager) (req_id : String) (meta : ApprovalRequestMeta)
    → Map.lookup req_id am.requests ≡ none
    → cancel (accepted am req_id meta) req_id ≡ released am meta
unfolding cancel
cancel-accepted am req_id meta fresh = rw (
  cancel,
  lookup-insert_self req_id (request meta) am.requests,
  erase-insert req_id (request meta) am.requests fresh,
)

counter_back : (t k : String) (m : Map ℕ) → count_at k (decrement t (increment t m)) ≡ count_at k m
counter_back t k m =
    rw (count_at-decrement t k (increment t m), count_at-increment t k m) (ground arith)

-- A request under a fresh id that is let in and then cancelled leaves the requests and the counters of all
-- proxies and of all other addresses as they were, and frees its own slots, but a request of the empty
-- address takes a slot of that address for good.
pub cancel-reserve_slots :
    (am : ApprovalManager) (req_id : String) (meta : ApprovalRequestMeta)
    → Map.lookup req_id am.requests ≡ none
    → (reserve am req_id meta).1 ≡ none
    → let am' = cancel (reserve am req_id meta).0 req_id in
      (am'.requests ≡ am.requests)
      × ((k : String) → count_at k am'.pending_by_proxy ≡ count_at k am.pending_by_proxy)
      × ((k : String)
          → count_at k am'.pending_by_ip
            ≡ count_at k am.pending_by_ip
              + (if str_eq meta.source_ip "" && str_eq k "" then 1 else 0))
cancel-reserve_slots am req_id meta fresh ok =
    rw (reserve-accepted am req_id meta ok, cancel-accepted am req_id meta fresh)
      (
        refl,
        (λ k. elim (Bool-cases (str_eq meta.proxy_id "")) [
          | inl e ↦ rw e
          | inr e ↦ rw e (counter_back meta.proxy_id k am.pending_by_proxy)
        ]),
        λ k. elim (Bool-cases (str_eq meta.source_ip "")) [
          | inl e ↦
              rw (e, count_at-increment meta.source_ip k am.pending_by_ip)
                (ground (
                  arith,
                  str_eq_iff meta.source_ip "",
                  str_eq_iff k "",
                  str_eq_iff meta.source_ip k,
                ))
          | inr e ↦ rw (e, counter_back meta.source_ip k am.pending_by_ip) (omega arith)
        ],
      )

-- A request under a fresh id that is let in but whose alert cannot be sent is refused, and the requests that
-- wait and the decisions that are stored are those from before.
pub begin-send_failed :
    (am : ApprovalManager) (req_id : String) (meta : ApprovalRequestMeta)
    → Map.lookup req_id am.requests ≡ none
    → (reserve am req_id meta).1 ≡ none
    → let (am', error) = begin am req_id meta false in
      (error ≡ some send_failed) × (am'.requests ≡ am.requests) × (am'.cache ≡ am.cache)
unfolding begin
begin-send_failed am req_id meta fresh ok =
    rw
      (
        begin,
        reserve-accepted am req_id meta ok,
        reserve-accepted am req_id meta ok,
        cancel-accepted am req_id meta fresh,
      )
      (refl, refl, refl)
