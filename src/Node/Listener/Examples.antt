-- ===== src/Node/Listener/Examples.antt =====
-- pkg/node/listener.go: the theorems at concrete connections.
use nitella.Base.{
  String, ◌≡◌, refl, ◌⊎◌, Bool, true, false, not, ◌&&◌, ◌||◌, Option, none, some, [], ◌∷◌, arith,
  if◌then◌else◌, str_eq, concat,
}
use nitella.Base.Map
use nitella.Base.Map.{
  Map, lookup-insert, lookup-erase, lookup-retain, lookup-insert_self, lookup-insert_ne,
  lookup-erase_self, lookup-erase_ne,
}
use nitella.Base.Int.{pos, negsuc}
use nitella.Node.GlobalRules.{allow, require_approval}
use nitella.Node.Rules.Regexes.{IsSound}
use nitella.Node.Rules.Matching.{Rule, Connection}
use nitella.Node.Approval.Cache
use nitella.Node.Approval.Cache.{no_geo, ApprovalEntry}
use nitella.Node.Approval.Key.{build_key}
use nitella.Node.Approval.Manager.{
  send_failed, refused, ApprovalManager, ApprovalResult, cache_decision, decided, begin, reserve,
}
use nitella.Node.Approval.Manager.Stored.{check_cache}
use nitella.Node.Listener.Table.{new_table, add_rule, insert_rule, first_match}
use nitella.Node.Listener.Priority.{new, added, Picks, first_match-Reach}
use nitella.Node.Listener.Decision.{
  lifts, Applicant, decide, lifted, approve, apply_request, apply_outcome, apply_result,
  apply_cached, is_block,
}
use nitella.Node.Listener.Ending.{
  Settings, unset, undefined, handle, ending, fell_back, is_forwarded, backend_of, settle,
}
use nitella.Node.Listener.Oversight.{
  Permitted, is_refusing, is_mock, decide-Permitted, handle-is_forwarded,
}
use nitella.Node.RateLimit.{RateLimitConfig, new_rate_limiter}
use nitella.Net.HostPort.{split_host}
use nitella.Node.Listener.Table.{RuleTable, Between, apply_rule, evaluate_rules}
use nitella.Node.RateLimit.Window.{Attempt}
use nitella.Node.Listener.Oversight.{rule_of, IsLimited}
use nitella.Node.Listener.Leftovers.{live_in, settle-apply_cached}
use nitella.Node.Listener.Traffic.{
  ConnectionMetadata, Traffic, add64, status_bytes, add_bytes_in, drop_conn,
}
use nitella.Node.Listener.Status.{status_bytes-add_bytes_in}

program : Unit {0}
unfolding evaluate_rules apply_rule first_match nitella.Node.Rules.Matching.match_rule
    nitella.Node.Rules.Matching.match_conditions new_rate_limiter nitella.Node.RateLimit.check
    nitella.Node.RateLimit.check_window nitella.Node.RateLimit.track_connection split_host decide
    lifted approve apply_request apply_outcome apply_result begin reserve check_cache Cache.check
    build_key concat Map.lookup Map.insert add_rule insert_rule new_table handle ending
    Cache.get_entry
program = tt

abbrev compile : String → Option String
compile pattern = some pattern

abbrev finds : String → String → Option Bool
finds pattern text = some (str_eq pattern text)

abbrev digest : String → String
digest raw = raw

empty-IsSound : IsSound compile []
unfolding Map.lookup
empty-IsSound = record { distinct = tt; compiled = λ p re h. grind arith; bounded = omega arith }

abbrev low : Rule
low = record {
  id = "low";
  name = "";
  priority = negsuc 4;
  enabled = true;
  conditions = [];
  action = allow;
  target_backend = "";
  rate_limit = none;
}

abbrev high : Rule
high = record low { id = "high"; priority = pos 7; action = require_approval }

abbrev conn : Connection
conn = record { remote_addr = "10.0.0.7:80"; tls_state = none }

-- the rule of the higher priority is first, though it was added last
order : (add_rule (add_rule new_table low) high).rules ≡ high ∷ low ∷ []
unfolding program
order = refl

first_match-Reach_example :
    Picks compile finds digest conn none 600
      (add_rule (add_rule new_table low) high).rules
      (first_match compile finds digest []
        (add_rule (add_rule new_table low) high).rules
        conn
        none
        600).1
first_match-Reach_example =
    first_match-Reach compile finds digest [] (add_rule (add_rule new_table low) high) conn none 600
      (added high (added low new)) empty-IsSound

abbrev manager : ApprovalManager
manager = record {
  requests = [];
  pending_by_ip = [];
  pending_by_proxy = [];
  max_pending = 1000;
  max_pending_ip = 10;
  max_pending_proxy = 200;
  cache = record { entries = []; conn_closer = true };
}

abbrev applicant : Applicant
applicant = record {
  source_ip = "10.0.0.7";
  rule_id = "high";
  proxy_id = "p";
  session = "";
  conn_id = "c1";
  dest_addr = "d";
  geo = no_geo;
  counters = record { bytes_in = some 0; bytes_out = some 1 };
  checked = 100;
  stored = 130;
}

abbrev granted : ApprovalResult
granted = record {
  allowed = true;
  retention_mode = cache_decision;
  duration = 60;
  rule_id = "high";
  reason = "";
}

-- the rule with a limiter of one connection a minute
abbrev limit : RateLimitConfig
limit = record {
  max_connections = 1;
  interval_seconds = 60;
  auto_block = false;
  block_duration_seconds = 0;
  block_steps_seconds = [];
  count_only_failures = false;
  failure_duration_threshold = 0;
}

abbrev watched : Rule
watched = record high { rate_limit = some limit }

abbrev table : RuleTable
table = add_rule (add_rule new_table low) watched

abbrev attempt : Attempt
attempt = record { t_block = 90; t_probation = 90; now = 90 }

abbrev between : Between
between = record { others = λ limiter. limiter; t_track = 91 }

abbrev evaluated : RuleTable → Map (Option String) × RuleTable × Option (Rule × Bool)
evaluated t = evaluate_rules compile finds digest [] t conn none 600 attempt between

decide-Permitted_example :
    ((am : ApprovalManager) × ((some manager ≡ some am)
        × Permitted am applicant true (decided granted)))
    ⊎ ((lifts ≡ lifts) × IsLimited table (some watched) "10.0.0.7" attempt)
unfolding program
decide-Permitted_example =
    decide-Permitted compile finds digest [] table conn none 600 attempt between lifts allow
      (some manager) applicant true (λ am. am) (decided granted) refl refl

-- The second connection within the minute is refused by the limiter, and passes by a global allow though nobody has
-- approved it.
limited_passes :
    (decide lifts allow
      (rule_of (evaluated (evaluated table).1).2)
      (some manager)
      applicant
      true
      (λ am. am)
      (refused send_failed)).0
    ≡ allow
unfolding program
limited_passes = refl

abbrev settings : Settings
settings = record {
  default_backend = "b:80";
  default_mock = unset;
  fallback_action = undefined;
  fallback_mock = unset;
}

handle-is_forwarded_example : is_forwarded (handle lifts allow "" settings true) ≡ (
    not (is_refusing lifts)
    && (not (is_block allow || is_mock allow) && (not (str_eq (backend_of "" "b:80") "") && true)))
handle-is_forwarded_example = handle-is_forwarded lifts allow "" settings true

abbrev entry : ApprovalEntry
entry = record {
  source_ip = "10.0.0.7";
  rule_id = "high";
  proxy_id = "p";
  tls_session_id = "";
  decision = true;
  expires_at = 160;
  created_at = 100;
  live_conns = [];
  geo = no_geo;
  bytes_in = 5;
  bytes_out = 7;
  blocked_count = 0;
}

abbrev stocked : ApprovalManager
stocked = record manager {
  cache = record { entries = ("10.0.0.7\0high", entry) ∷ []; conn_closer = true };
}

settle-apply_cached_example :
    live_in
      (Cache.get_entry
        (settle
          (apply_cached stocked applicant true)
          applicant
          (fell_back "dial-failed" none)
          0
          0).cache
        "10.0.0.7"
        "high"
        "")
      "c1"
    ≡ (if is_forwarded (fell_back "dial-failed" none) then none else some applicant.counters)
unfolding program
settle-apply_cached_example =
    settle-apply_cached stocked applicant entry (fell_back "dial-failed" none) 0 0 refl
      (omega arith)

abbrev half_open : ConnectionMetadata
half_open = record {
  source_ip = "10.0.0.7";
  source_port = 80;
  dest_addr = "b:80";
  start_time = 5;
  bytes_in = 100;
  bytes_out = 3;
  closed = false;
}

abbrev traffic : Traffic
traffic = record {
  conns = ("c1", half_open) ∷ [];
  active_conns = 1;
  total_conns = 1;
  bytes_in = 0;
  bytes_out = 0;
}

status_bytes-add_bytes_in_example :
    ((status_bytes (add_bytes_in traffic 100)).0 ≡ add64 (status_bytes traffic).0 100)
    × ((status_bytes (drop_conn (add_bytes_in traffic 100) "c1")).0 ≡ (status_bytes traffic).0)
unfolding program
status_bytes-add_bytes_in_example =
    status_bytes-add_bytes_in traffic "c1" half_open (omega arith) (refl, tt) refl
