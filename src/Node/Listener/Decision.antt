-- ===== src/Node/Listener/Decision.antt =====
-- pkg/node/listener.go: the decision of `handleConn` and what it does with the connection. What the rules,
-- the global rules and the wait for an approval answer is given, and so is what other connections do to
-- the approvals during the wait.
use nitella.Base.{
  ◌^◌, ℕ, String, Bool, true, false, not, ◌&&◌, Option, none, some, ltb, if◌then◌else◌, str_eq,
}
use nitella.Node.GlobalRules.{ActionType, unspecified, allow, block, mock, require_approval}
use nitella.Node.Rules.Matching.{Rule}
use nitella.Node.Approval.Cache.{Geo, LiveConnStats}
use nitella.Node.Approval.Manager.{
  ApprovalManager, ApprovalRequestMeta, ApprovalResult, RetentionMode,
  unspecified as unspecified_mode, cache_decision, connection_only, Outcome, decided, refused,
  begin,
}
use nitella.Node.Approval.Manager.Stored.{check_cache, add_to_cache_with_geo}
use nitella.Node.Approval.Manager.Stored

abbrev pub is_block : ActionType → Bool
is_block block = true
is_block unspecified = false
is_block allow = false
is_block mock = false
is_block require_approval = false

-- What the global rules say: the connection is refused, a block is lifted, or nothing.
pub data Global : Type 0 where
  refuses : Global
  lifts : Global
  silent : Global

abbrev global_action : Bool → ActionType → Global
global_action false action = silent
global_action true block = refuses
global_action true allow = lifts
global_action true unspecified = silent
global_action true mock = silent
global_action true require_approval = silent

-- The answer of `GlobalRulesStore.Check`, `none` without a store.
unfoldable pub global_verdict : Option (Bool × ActionType) → Global
global_verdict none = silent
global_verdict (some (matched, action)) = global_action matched action

abbrev pub rule_action : ActionType → Option Rule → ActionType
rule_action default none = default
rule_action default (some rule) = rule.action

abbrev pub rule_id_of : Option Rule → String
rule_id_of none = "default"
rule_id_of (some rule) = rule.id

-- A global allow lifts a block, and no more than that.
unfoldable pub lifted : Global → ActionType → ActionType
lifted lifts action = if is_block action then allow else action
lifted refuses action = action
lifted silent action = action

-- The TLS session that a decision is bound to; `tls_unique` is in hex and may be empty.
unfoldable pub session_of : Bool → String → String → String
session_of is_tls tls_unique conn_id =
    let session = if is_tls then tls_unique else "" in
    if str_eq session "" && is_tls then conn_id else session

-- A connection that needs an approval, and the clock when a decision is stored.
pub record Applicant : Type 0 where
  pub source_ip : String
  pub rule_id : String
  pub proxy_id : String
  pub session : String
  pub conn_id : String
  pub dest_addr : String
  pub geo : Geo
  pub counters : LiveConnStats
  pub checked : ℕ
  pub stored : ℕ

abbrev pub meta_of : Applicant → ApprovalRequestMeta
meta_of a = record {
  proxy_id = a.proxy_id;
  source_ip = a.source_ip;
  dest_addr = a.dest_addr;
  rule_id = a.rule_id;
  geo = a.geo;
}

-- `pending` tells whether the request is still to be cancelled when the handler ends.
pub record Approved : Type 0 where
  pub manager : ApprovalManager
  pub action : ActionType
  pub has_entry : Bool
  pub max_duration : ℕ
  pub pending : Bool

-- `result.Duration > 0` on an int64.
abbrev pub is_positive : ℕ → Bool
is_positive d = ltb 0 d && ltb d (2 ^ 63)

abbrev pub is_connection_only : RetentionMode → Bool
is_connection_only connection_only = true
is_connection_only cache_decision = false
is_connection_only unspecified_mode = false

abbrev pub store : ApprovalManager → Applicant → Bool → ℕ → ApprovalManager
store am a decision duration =
    add_to_cache_with_geo am a.source_ip a.rule_id a.proxy_id a.session decision duration a.geo
      a.stored a.stored

abbrev pub track : ApprovalManager → Applicant → ApprovalManager
track am a = (Stored.set_conn_id am a.source_ip a.rule_id a.session a.conn_id a.counters).0

-- What a decision of an administrator leads to.
unfoldable pub apply_result : ApprovalManager → Applicant → ApprovalResult → Approved
apply_result am a res =
    if res.allowed
    then if is_connection_only res.retention_mode
      then record {
        manager = am;
        action = allow;
        has_entry = false;
        max_duration = (if is_positive res.duration then res.duration else 0);
        pending = true;
      }
      else if is_positive res.duration
      then record {
        manager = track (store am a true res.duration) a;
        action = allow;
        has_entry = true;
        max_duration = 0;
        pending = true;
      }
      else record {
        manager = am;
        action = allow;
        has_entry = false;
        max_duration = 0;
        pending = true;
      }
    else record {
      manager =
          (if not (is_connection_only res.retention_mode) && is_positive res.duration
            then store am a false res.duration
            else am);
      action = block;
      has_entry = false;
      max_duration = 0;
      pending = true;
    }

unfoldable pub apply_outcome : ApprovalManager → Applicant → Outcome → Approved
unfolding apply_result
apply_outcome am a (decided res) = apply_result am a res
apply_outcome am a (refused error) = record {
  manager = am;
  action = block;
  has_entry = false;
  max_duration = 0;
  pending = true;
}

-- A decision is stored already.
unfoldable pub apply_cached : ApprovalManager → Applicant → Bool → Approved
apply_cached am a true = record {
  manager = track am a;
  action = allow;
  has_entry = true;
  max_duration = 0;
  pending = false;
}
apply_cached am a false = record {
  manager = Stored.increment_blocked_count am a.source_ip a.rule_id a.session;
  action = block;
  has_entry = false;
  max_duration = 0;
  pending = false;
}

-- The request for a decision that is not stored.
unfoldable pub apply_request :
    ApprovalManager → Applicant → Bool → (ApprovalManager → ApprovalManager) → Outcome → Approved
unfolding apply_outcome
apply_request am a sent others outcome =
    let (am', error) = begin am a.conn_id (meta_of a) sent in
    elim error [
      | some e ↦ record {
        manager = am';
        action = block;
        has_entry = false;
        max_duration = 0;
        pending = false;
      }
      | none ↦ apply_outcome (others am') a outcome
    ]

-- The block of `handleConn` for REQUIRE_APPROVAL.
unfoldable pub approve :
    ApprovalManager → Applicant → Bool → (ApprovalManager → ApprovalManager) → Outcome → Approved
unfolding apply_cached apply_request
approve am a sent others outcome =
    let (found, allowed) = check_cache am a.source_ip a.rule_id a.session a.checked in
    if found then apply_cached am a allowed else apply_request am a sent others outcome

-- The action on a connection that the global rules do not refuse.
unfoldable pub decide :
    Global
    → ActionType
    → Option Rule
    → Option ApprovalManager
    → Applicant
    → Bool
    → (ApprovalManager → ApprovalManager)
    → Outcome
    → ActionType × Option Approved
unfolding lifted approve
decide global default rule manager a sent others outcome =
    elim (lifted global (rule_action default rule)) [
      | require_approval ↦ elim manager [
        | none ↦ (block, none)
        | some am ↦
            let approved = approve am a sent others outcome in (approved.action, some approved)
      ]
      | unspecified ↦ (unspecified, none)
      | allow ↦ (allow, none)
      | block ↦ (block, none)
      | mock ↦ (mock, none)
    ]
