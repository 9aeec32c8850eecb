-- ===== src/Node/Listener/Oversight.antt =====
-- pkg/node/listener.go: no connection passes against the rules, the global rules or the administrator.
use nitella.Base.{
  ℕ, ◌+◌, ◌<◌, String, ◌≡◌, refl, ◌⊎◌, inl, inr, Bool, true, false, not, ◌&&◌, ◌||◌, Option, none,
  some, arith, str_eq, Bool-cases, Option-cases,
}
use nitella.Base.Map
use nitella.Base.Map.{
  Map, lookup-insert, lookup-erase, lookup-retain, lookup-insert_self, lookup-insert_ne,
  lookup-erase_self, lookup-erase_ne,
}
use nitella.Node.GlobalRules.{ActionType, unspecified, allow, block, mock, require_approval}
use nitella.Node.Rules.Matching.{Rule, Connection, GeoInfo}
use nitella.Node.RateLimit.{RateLimiter, check}
use nitella.Node.RateLimit.Window.{Attempt}
use nitella.Node.Listener.Table.{
  RuleTable, Between, block_rule, source_ip_of, apply_rule, first_match, evaluate_rules,
}
use mathlib.Core.Bool.{true≢false}
use nitella.Node.Approval.Cache.Decisions
use nitella.Node.Approval.Cache.Decisions.{check-set_conn_id}
use nitella.Node.Approval.Manager.{
  ApprovalManager, ApprovalResult, Outcome, decided, refused, begin,
}
use nitella.Node.Approval.Manager.Stored.{check_cache, add_to_cache_with_geo}
use nitella.Node.Approval.Manager.Stored
use nitella.Node.Listener.Decision.{
  Global, refuses, lifts, silent, is_block, is_positive, is_connection_only, lifted, rule_action,
  meta_of, Applicant, apply_result, apply_outcome, apply_cached, apply_request, approve, decide,
}
use nitella.Node.Listener.Ending.{Settings, handle, ending, is_forwarded, backend_of}

-- An outcome that lets a connection pass.
abbrev pub permits : Outcome → Bool
permits (decided res) = res.allowed
permits (refused error) = false

-- The administrator lets the connection pass: by a decision that is stored and in force, or by one on
-- the request of this connection, which was let in and sent.
abbrev pub Permitted : ApprovalManager → Applicant → Bool → Outcome → Type 0
Permitted am a sent outcome =
    (check_cache am a.source_ip a.rule_id a.session a.checked ≡ (true, true))
    ⊎ (((begin am a.conn_id (meta_of a) sent).1 ≡ none) × (permits outcome ≡ true))

apply_result-action :
    (am : ApprovalManager) (a : Applicant) (res : ApprovalResult)
    → is_block (apply_result am a res).action ≡ not res.allowed
unfolding apply_result
apply_result-action am a res = ground arith

apply_outcome-action :
    (am : ApprovalManager) (a : Applicant) (outcome : Outcome)
    → is_block (apply_outcome am a outcome).action ≡ not (permits outcome)
unfolding apply_outcome
apply_outcome-action am a (decided res) = apply_result-action am a res
apply_outcome-action am a (refused error) = refl

apply_request-permits :
    (am : ApprovalManager) (a : Applicant) (sent : Bool)
    (others : ApprovalManager → ApprovalManager) (outcome : Outcome)
    → is_block (apply_request am a sent others outcome).action ≡ false
    → ((begin am a.conn_id (meta_of a) sent).1 ≡ none) × (permits outcome ≡ true)
unfolding apply_request
apply_request-permits am a sent others outcome =
    elim (Option-cases (begin am a.conn_id (meta_of a) sent).1) [
      | inl e ↦
          rw (e, apply_request)
            (λ h. (
              refl,
              ground (
                arith,
                h,
                apply_outcome-action (others (begin am a.conn_id (meta_of a) sent).0) a outcome,
              ),
            ))
      | inr (error, e) ↦ rw (e, apply_request) (λ h. absurd (true≢false h))
    ]

-- What needs an approval is blocked, unless the administrator lets it pass.
approve-Permitted :
    (am : ApprovalManager) (a : Applicant) (sent : Bool)
    (others : ApprovalManager → ApprovalManager) (outcome : Outcome)
    → is_block (approve am a sent others outcome).action ≡ false
    → Permitted am a sent outcome
unfolding approve apply_cached
approve-Permitted am a sent others outcome =
    elim (Bool-cases (check_cache am a.source_ip a.rule_id a.session a.checked).0) [
      | inr e ↦ rw (e, approve) (λ h. inr (apply_request-permits am a sent others outcome h))
      | inl e ↦ elim (Bool-cases (check_cache am a.source_ip a.rule_id a.session a.checked).1) [
        | inl e' ↦ λ h. inl (cc (e, e'))
        | inr e' ↦ rw (e, e', approve) (λ h. absurd (true≢false h))
      ]
    ]

lifted_asks : (global : Global) → lifted global require_approval ≡ require_approval
unfolding lifted
lifted_asks refuses = refl
lifted_asks lifts = refl
lifted_asks silent = refl

-- When what the rules come to asks for an approval.
asked-Permitted :
    (global : Global) (default : ActionType) (rule : Option Rule) (manager : Option ApprovalManager)
    (a : Applicant) (sent : Bool) (others : ApprovalManager → ApprovalManager) (outcome : Outcome)
    → rule_action default rule ≡ require_approval
    → is_block (decide global default rule manager a sent others outcome).0 ≡ false
    → (am : ApprovalManager) × ((manager ≡ some am) × Permitted am a sent outcome)
unfolding decide
asked-Permitted global default rule none a sent others outcome asks =
    rw (asks, lifted_asks global, decide) (λ h. absurd (true≢false h))
asked-Permitted global default rule (some am) a sent others outcome asks =
    rw (asks, lifted_asks global, decide)
      (λ h. (am, (refl, approve-Permitted am a sent others outcome h)))

-- The rule of an evaluation, without its limiter.
abbrev pub rule_of : Option (Rule × Bool) → Option Rule
rule_of none = none
rule_of (some (rule, limited)) = some rule

-- The limiter of the rule that matches refuses the address.
abbrev pub IsLimited : RuleTable → Option Rule → String → Attempt → Type 0
IsLimited t none source_ip attempt = ⊥
IsLimited t (some rule) source_ip attempt =
    (limiter : RateLimiter) × (Map.lookup rule.id t.rule_limiters ≡ some limiter)
    × ((check limiter source_ip attempt.t_block attempt.t_probation attempt.now).1 ≡ false)

-- A blocked connection passes only by a global allow.
blocked-lifts :
    (global : Global) (default : ActionType) (rule : Rule) (manager : Option ApprovalManager)
    (a : Applicant) (sent : Bool) (others : ApprovalManager → ApprovalManager) (outcome : Outcome)
    → is_block (decide global default (some (block_rule rule)) manager a sent others outcome).0
      ≡ false
    → global ≡ lifts
unfolding decide lifted
blocked-lifts lifts default rule manager a sent others outcome h = refl
blocked-lifts refuses default rule manager a sent others outcome h = absurd (true≢false h)
blocked-lifts silent default rule manager a sent others outcome h = absurd (true≢false h)

applied-Permitted :
    (t : RuleTable) (rule : Rule) (source_ip : String) (attempt : Attempt) (between : Between)
    (global : Global) (default : ActionType) (manager : Option ApprovalManager) (a : Applicant)
    (sent : Bool) (others : ApprovalManager → ApprovalManager) (outcome : Outcome)
    → rule.action ≡ require_approval
    → is_block
        (decide global default
          (some (apply_rule t rule source_ip attempt between).1)
          manager
          a
          sent
          others
          outcome).0
      ≡ false
    → ((am : ApprovalManager) × ((manager ≡ some am) × Permitted am a sent outcome))
      ⊎ ((global ≡ lifts) × IsLimited t (some rule) source_ip attempt)
unfolding apply_rule
applied-Permitted t rule source_ip attempt between global default manager a sent others outcome
      asks =
    elim (Option-cases (Map.lookup rule.id t.rule_limiters)) [
      | inl free ↦
          rw (free, apply_rule)
            (λ h.
              inl (asked-Permitted global default (some rule) manager a sent others outcome asks h))
      | inr (limiter, limited) ↦
          elim (Bool-cases
            (check limiter source_ip attempt.t_block attempt.t_probation attempt.now).1) [
              | inl passed ↦
                  rw (limited, passed, apply_rule)
                    (λ h. inl (
                      asked-Permitted global default (some rule) manager a sent others outcome asks
                        h))
              | inr stopped ↦
                  rw (limited, stopped, apply_rule)
                    (λ h. inr (
                      blocked-lifts global default rule manager a sent others outcome h,
                      (limiter, refl, stopped),
                    ))
            ]
    ]

module _ {Regex : Type 0} (compile_posix : String → Option Regex)
    (match_text : Regex → String → Option Bool) (fingerprint : String → String) where
  -- When the rule that matches a connection, or the default action where none does, asks for an approval, the connection is
  -- blocked unless an administrator lets it pass, by a stored decision in force or on its own request, and always without a
  -- manager of approvals, with one exception: when the limiter of that rule refuses the connection and a
  -- global rule allows its address.
  pub decide-Permitted :
      (patterns : Map (Option Regex)) (t : RuleTable) (conn : Connection) (geo : Option GeoInfo)
      (now : ℕ) (attempt : Attempt) (between : Between) (global : Global) (default : ActionType)
      (manager : Option ApprovalManager) (a : Applicant) (sent : Bool)
      (others : ApprovalManager → ApprovalManager) (outcome : Outcome)
      → let matching =
          (first_match compile_posix match_text fingerprint patterns t.rules conn geo now).1 in
        let found =
          (evaluate_rules compile_posix match_text fingerprint patterns t conn geo now attempt
            between).2 in
        rule_action default matching ≡ require_approval
        → is_block (decide global default (rule_of found) manager a sent others outcome).0 ≡ false
        → ((am : ApprovalManager) × ((manager ≡ some am) × Permitted am a sent outcome))
          ⊎ ((global ≡ lifts) × IsLimited t matching (source_ip_of conn) attempt)
  unfolding evaluate_rules
  decide-Permitted patterns t conn geo now attempt between global default manager a sent others
        outcome =
      elim (Option-cases
        (first_match compile_posix match_text fingerprint patterns t.rules conn geo now).1) [
          | inl nothing ↦
              rw (nothing, evaluate_rules)
                (λ asks h.
                  inl (asked-Permitted global default none manager a sent others outcome asks h))
          | inr (rule, matched) ↦
              rw (matched, evaluate_rules)
                (applied-Permitted t rule (source_ip_of conn) attempt between global default manager
                  a sent others outcome)
        ]

abbrev pub is_refusing : Global → Bool
is_refusing refuses = true
is_refusing lifts = false
is_refusing silent = false

abbrev pub is_mock : ActionType → Bool
is_mock mock = true
is_mock unspecified = false
is_mock allow = false
is_mock block = false
is_mock require_approval = false

ending-is_forwarded :
    (action : ActionType) (target : String) (s : Settings) (dialed : Bool)
    → is_forwarded (ending action target s dialed) ≡ (
        not (is_block action || is_mock action)
        && (not (str_eq (backend_of target s.default_backend) "") && dialed))
unfolding ending
ending-is_forwarded block target s dialed = refl
ending-is_forwarded mock target s dialed = refl
ending-is_forwarded unspecified target s dialed = ground arith
ending-is_forwarded allow target s dialed = ground arith
ending-is_forwarded require_approval target s dialed = ground arith

-- A connection is forwarded exactly if the global rules do not refuse it, it is neither blocked nor mocked,
-- there is a backend for it, by the rule or by default, and that backend answers: no fallback forwards.
pub handle-is_forwarded :
    (global : Global) (action : ActionType) (target : String) (s : Settings) (dialed : Bool)
    → is_forwarded (handle global action target s dialed) ≡ (
        not (is_refusing global)
        && (not (is_block action || is_mock action)
            && (not (str_eq (backend_of target s.default_backend) "") && dialed)))
unfolding handle
handle-is_forwarded refuses action target s dialed = refl
handle-is_forwarded lifts action target s dialed = ending-is_forwarded action target s dialed
handle-is_forwarded silent action target s dialed = ending-is_forwarded action target s dialed

-- A decision to allow and to remember, for a positive time, is found by the next connection of the same
-- address, rule and TLS session until it expires.
pub apply_result-check :
    (am : ApprovalManager) (a : Applicant) (res : ApprovalResult) (t : ℕ)
    → res.allowed ≡ true
    → is_connection_only res.retention_mode ≡ false
    → is_positive res.duration ≡ true
    → t < a.stored + res.duration
    → check_cache (apply_result am a res).manager a.source_ip a.rule_id a.session t ≡ (true, true)
unfolding apply_result check_cache Stored.set_conn_id add_to_cache_with_geo
apply_result-check am a res t allowed mode positive l =
    rw (allowed, mode, positive, Stored.set_conn_id, check-set_conn_id)
      (Decisions.check-add_with_geo_self am.cache a.source_ip a.rule_id a.proxy_id a.session true
        res.duration a.geo a.stored a.stored t l)
