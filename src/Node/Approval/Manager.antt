-- ===== src/Node/Approval/Manager.antt =====
-- pkg/node/approval.go: `ApprovalManager`, the approval requests that wait for an administrator. A channel
-- for one result is an `Option`; a duration is an int64 kept as its bit pattern. The alert's sender is
-- given by what it answers.
pub mod Stored
pub mod Counts
pub mod Slots
pub mod Decisions
mod Examples
use nitella.Base.{
  ◌^◌, ℕ, zero, suc, ◌+◌, ◌-◌, ◌*◌, ◌/◌, ◌%◌, ◌≤◌, ◌<◌, min, max, String, ◌≡◌, refl, sym, ap, ◌∙◌,
  ◌≢◌, ◌↔◌, ◌⊎◌, inl, inr, Bool, true, false, not, ◌&&◌, ◌||◌, Option, none, some, List, [], ◌∷◌,
  ◌++◌, map, arith, ltb, leb, ◌==◌, if◌then◌else◌, length, get_or, any-perm, any, all, All, str_eq,
  str_eq_iff, codes, concat, concat_cancel_left, concat_assoc, concat_apart, codes-concat,
  codes-injective, IsFree, separator_cancel, separator-IsFree, cut, split_on, is_digit, includes,
  Bool-cases, Option-cases,
}
use nitella.Base.Map
use nitella.Base.Map.{
  Map, lookup-insert, lookup-erase, lookup-retain, lookup-insert_self, lookup-insert_ne,
  lookup-erase_self, lookup-erase_ne,
}
use nitella.Node.Approval.Cache
use nitella.Node.Approval.Cache.{ApprovalCache, ApprovalEntry, Geo, LiveConnStats}

pub data RetentionMode : Type 0 where
  unspecified : RetentionMode
  cache_decision : RetentionMode
  connection_only : RetentionMode

pub record ApprovalResult : Type 0 where
  pub allowed : Bool
  pub retention_mode : RetentionMode
  pub duration : ℕ
  pub rule_id : String
  pub reason : String

pub record ApprovalRequestMeta : Type 0 where
  pub proxy_id : String
  pub source_ip : String
  pub dest_addr : String
  pub rule_id : String
  pub geo : Geo

-- `result` is what the channel of the request holds, `cancelled` whether its other channel is closed.
pub record PendingRequest : Type 0 where
  pub result : Option ApprovalResult
  pub meta : ApprovalRequestMeta
  pub source_ip : String
  pub cancelled : Bool

pub record ApprovalManager : Type 0 where
  pub requests : Map PendingRequest
  pub pending_by_ip : Map ℕ
  pub pending_by_proxy : Map ℕ
  pub max_pending : ℕ
  pub max_pending_ip : ℕ
  pub max_pending_proxy : ℕ
  pub cache : ApprovalCache

pub data Error : Type 0 where
  too_many : Error
  too_many_for_ip : Error
  too_many_for_proxy : Error
  send_failed : Error
  connection_closed : Error
  timed_out : Error

-- `NewApprovalManager`
unfoldable pub new_manager : ApprovalManager
new_manager = record {
  requests = [];
  pending_by_ip = [];
  pending_by_proxy = [];
  max_pending = 1000;
  max_pending_ip = 10;
  max_pending_proxy = 200;
  cache = Cache.new_cache;
}

-- A counter's value, 0 if it is missing.
abbrev pub value : Option ℕ → ℕ
value none = 0
value (some n) = n

abbrev pub count_at : String → Map ℕ → ℕ
count_at k m = value (Map.lookup k m)

abbrev pub increment : String → Map ℕ → Map ℕ
increment k m = Map.insert k (count_at k m + 1) m

-- A counter is taken down, and removed at 0 or below.
abbrev pub decrement : String → Map ℕ → Map ℕ
decrement k m = if leb (count_at k m) 1 then Map.erase k m else Map.insert k (count_at k m - 1) m

-- The part of `BeginApprovalRequest` under the lock.
unfoldable pub reserve :
    ApprovalManager → String → ApprovalRequestMeta → ApprovalManager × Option Error
reserve am req_id meta =
    if leb am.max_pending (Map.size am.requests)
    then (am, some too_many)
    else if leb am.max_pending_ip (count_at meta.source_ip am.pending_by_ip)
    then (am, some too_many_for_ip)
    else if not (str_eq meta.proxy_id "")
        && leb am.max_pending_proxy (count_at meta.proxy_id am.pending_by_proxy)
    then (am, some too_many_for_proxy)
    else (
      record am {
        requests =
            Map.insert req_id
              (record { result = none; meta = meta; source_ip = meta.source_ip; cancelled = false })
              am.requests;
        pending_by_ip = increment meta.source_ip am.pending_by_ip;
        pending_by_proxy =
            (if not (str_eq meta.proxy_id "")
              then increment meta.proxy_id am.pending_by_proxy
              else am.pending_by_proxy);
      },
      none,
    )

-- `CancelApprovalRequest`: the request is forgotten, its channel closed and its slots are free.
unfoldable pub cancel : ApprovalManager → String → ApprovalManager
cancel am req_id = elim (Map.lookup req_id am.requests) [
  | none ↦ am
  | some req ↦ record am {
    requests = Map.erase req_id am.requests;
    pending_by_ip =
        (if not (str_eq req.source_ip "")
          then decrement req.source_ip am.pending_by_ip
          else am.pending_by_ip);
    pending_by_proxy =
        (if not (str_eq req.meta.proxy_id "")
          then decrement req.meta.proxy_id am.pending_by_proxy
          else am.pending_by_proxy);
  }
]

-- `BeginApprovalRequest`, where `sent` is what the sender answers for the alert.
unfoldable pub begin :
    ApprovalManager → String → ApprovalRequestMeta → Bool → ApprovalManager × Option Error
begin am req_id meta sent =
    let (am', error) = reserve am req_id meta in
    elim error [
      | some e ↦ (am', some e)
      | none ↦ if sent then (am', none) else (cancel am' req_id, some send_failed)
    ]

-- How a wait ends: by the result in the channel, or refused with an error.
pub data Outcome : Type 0 where
  decided : ApprovalResult → Outcome
  refused : Error → Outcome

-- `WaitForApproval`: the ways in which its `select` can go on. The channel of the connection is nil
-- (`none`) or may be closed; the context may be done.
pub data Waits : Option ApprovalResult → Option Bool → Bool → Outcome → Type 0 where
  received :
      (res : ApprovalResult) (closed : Option Bool) (done : Bool)
      → Waits (some res) closed done (decided res)
  conn_closed :
      (result : Option ApprovalResult) (done : Bool)
      → Waits result (some true) done (refused connection_closed)
  context_done :
      (result : Option ApprovalResult) (closed : Option Bool)
      → Waits result closed true (refused timed_out)

-- `RequestApproval`, with what others do to the manager during the wait and how the wait ends.
unfoldable pub request_approval :
    ApprovalManager
    → String
    → ApprovalRequestMeta
    → Bool
    → (ApprovalManager → ApprovalManager)
    → Outcome
    → ApprovalManager × Outcome
request_approval am req_id meta sent others outcome =
    let (am', error) = begin am req_id meta sent in
    elim error [ some e ↦ (am', refused e) | none ↦ (cancel (others am') req_id, outcome) ]

abbrev pub mode_or_cache : RetentionMode → RetentionMode
mode_or_cache unspecified = cache_decision
mode_or_cache cache_decision = cache_decision
mode_or_cache connection_only = connection_only

-- `durationSeconds * time.Second` on int64.
abbrev pub seconds64 : ℕ → ℕ
seconds64 s = (s * 1000000000) % 2 ^ 64

-- A send that does not block: the channel takes the result only if it is empty.
abbrev pub offer : Option ApprovalResult → ApprovalResult → Option ApprovalResult
offer none res = some res
offer (some first) res = some first

-- `ResolveWithRetention`
unfoldable pub resolve_with_retention :
    ApprovalManager
    → String
    → Bool
    → ℕ
    → String
    → RetentionMode
    → ApprovalManager × Option ApprovalRequestMeta
resolve_with_retention am req_id allowed duration_seconds reason retention_mode =
    elim (Map.lookup req_id am.requests) [
      | none ↦ (am, none)
      | some req ↦ (
        record am {
          requests =
              Map.insert req_id
                (record req {
                  result = offer req.result (record {
                    allowed = allowed;
                    retention_mode = mode_or_cache retention_mode;
                    duration = seconds64 duration_seconds;
                    rule_id = req.meta.rule_id;
                    reason = reason;
                  });
                })
                am.requests;
        },
        some req.meta,
      )
    ]

-- `Resolve`
unfoldable pub resolve :
    ApprovalManager → String → Bool → ℕ → String → ApprovalManager × Option ApprovalRequestMeta
unfolding resolve_with_retention
resolve am req_id allowed duration_seconds reason =
    resolve_with_retention am req_id allowed duration_seconds reason cache_decision

-- A receive takes the result out of the channel.
unfoldable pub receive : ApprovalManager → String → ApprovalManager × Option ApprovalResult
receive am req_id = elim (Map.lookup req_id am.requests) [
  | none ↦ (am, none)
  | some req ↦ (
    record am { requests = Map.insert req_id (record req { result = none }) am.requests },
    req.result,
  )
]
