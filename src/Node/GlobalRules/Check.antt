-- ===== src/Node/GlobalRules/Check.antt =====
-- pkg/node/global_rules.go: which rule `Check` applies.
use nitella.Base.{
  ℕ, String, ◌≡◌, refl, inl, inr, Bool, true, false, not, ◌&&◌, ◌||◌, Option, none, some, [], ◌∷◌,
  arith, if◌then◌else◌, any-perm, any, Option-cases,
}
use nitella.Base.Map
use nitella.Base.Map.{
  Map, lookup-insert, lookup-erase, lookup-retain, lookup-insert_self, lookup-insert_ne,
  lookup-erase_self, lookup-erase_ne,
}
use mathlib.Core.List.{Perm}
use nitella.Net.{Ip}
use nitella.Net
use nitella.Node.GlobalRules.{
  parse_ip, check_cidr, is_active, check, GlobalRulesStore, GlobalRule, ActionType, unspecified,
  allow, block, CidrRule, is_over, is_block, scan_cidr,
}

-- The rule is not over, and its network holds the address.
abbrev pub applies : ℕ → Ip → CidrRule → Bool
applies now ip r = not (is_over r.rule now) && Net.contains r.ip_net ip

abbrev pub some_rule : (CidrRule → Bool) → Map CidrRule → Bool
some_rule p m = any (λ (e : String × CidrRule). p e.1) m

-- What the networks decide, with no order of them: a block if one applies, else an allow if any
-- rule applies, else nothing.
abbrev pub decision : Bool → Bool → Bool × ActionType
decision true any_rule = (true, block)
decision false true = (true, allow)
decision false false = (false, unspecified)

abbrev pub network_verdict : Map CidrRule → ℕ → Ip → Bool × ActionType
network_verdict m now ip =
    decision (some_rule (λ r. applies now ip r && is_block r.action) m)
      (some_rule (applies now ip) m)

-- One turn of the loop, on the answers to its tests.
decision_step :
    (over holds blocks matched any_block any_rule : Bool)
    → (if over
        then decision any_block (matched || any_rule)
        else if holds
        then (if blocks then (true, block) else decision any_block (true || any_rule))
        else decision any_block (matched || any_rule))
      ≡ decision
          (not over && holds && blocks || any_block)
          (matched || (not over && holds || any_rule))
decision_step true holds blocks matched any_block any_rule = refl
decision_step false true true true any_block any_rule = refl
decision_step false true true false any_block any_rule = refl
decision_step false true false true any_block any_rule = refl
decision_step false true false false any_block any_rule = refl
decision_step false false blocks matched any_block any_rule = refl

pub scan_cidr_lem :
    (m : Map CidrRule) (now : ℕ) (ip : Ip) (matched_allow : Bool)
    → scan_cidr m now ip matched_allow
      ≡ decision
          (some_rule (λ r. applies now ip r && is_block r.action) m)
          (matched_allow || some_rule (applies now ip) m)
unfolding scan_cidr
scan_cidr_lem [] now ip true = refl
scan_cidr_lem [] now ip false = refl
scan_cidr_lem ((k, r) ∷ m) now ip matched_allow =
    rw (scan_cidr_lem m now ip matched_allow, scan_cidr_lem m now ip true)
      (decision_step (is_over r.rule now) (Net.contains r.ip_net ip) (is_block r.action)
        matched_allow (some_rule (λ q. applies now ip q && is_block q.action) m)
        (some_rule (applies now ip) m))

abbrev all_inactive : Option GlobalRule → ℕ → Bool
all_inactive none now = true
all_inactive (some r) now = not (is_active r now)

-- No rule of the address itself is active.
abbrev pub NoExact : GlobalRulesStore → String → ℕ → Type 0
NoExact s ip now = all_inactive (Map.lookup ip s.exact_rules) now ≡ true

-- Where no active rule names the address itself, the networks decide, whatever the order in which the
-- map yields them: a rule that blocks wins over all that allow.
pub check-network_verdict :
    (s : GlobalRulesStore) (source_ip : String) (now : ℕ) (ip : Ip)
    → NoExact s source_ip now
    → parse_ip source_ip ≡ some ip
    → check s source_ip now ≡ network_verdict s.cidr_rules now ip
unfolding check check_cidr
check-network_verdict s source_ip now ip none_active parsed =
    ground (arith, scan_cidr_lem s.cidr_rules now ip false)

check_cidr-perm :
    (s : GlobalRulesStore) (cidr_rules : Map CidrRule) (source_ip : String) (now : ℕ)
    → Perm s.cidr_rules cidr_rules
    → check_cidr (record s { cidr_rules = cidr_rules }) source_ip now ≡ check_cidr s source_ip now
unfolding check_cidr
check_cidr-perm s cidr_rules source_ip now p = elim (Option-cases (parse_ip source_ip)) [
  | inl e ↦ rw (e, check_cidr)
  | inr (ip, e) ↦ rw (
    e,
    check_cidr,
    scan_cidr_lem cidr_rules now ip false,
    scan_cidr_lem s.cidr_rules now ip false,
    any-perm (λ (q : String × CidrRule). applies now ip q.1) _ _ p,
    any-perm (λ (q : String × CidrRule). applies now ip q.1 && is_block q.1.action) _ _ p,
  )
]

-- The order in which the map of networks is iterated over does not show in the answer.
pub check-perm :
    (s : GlobalRulesStore) (cidr_rules : Map CidrRule) (source_ip : String) (now : ℕ)
    → Perm s.cidr_rules cidr_rules
    → check (record s { cidr_rules = cidr_rules }) source_ip now ≡ check s source_ip now
unfolding check check_cidr
check-perm s cidr_rules source_ip now p =
    ground (arith, check_cidr-perm s cidr_rules source_ip now p)

-- A rule that allows an address itself is applied before any network is looked at, also where a
-- network that holds the address is blocked.
pub exact_allow-before-block :
    (s : GlobalRulesStore) (source_ip : String) (now : ℕ) (ip : Ip) (r : GlobalRule)
    → Map.lookup source_ip s.exact_rules ≡ some r
    → r.action ≡ allow
    → is_active r now ≡ true
    → some_rule (λ q. applies now ip q && is_block q.action) s.cidr_rules ≡ true
    → (check s source_ip now ≡ (true, allow))
      × (network_verdict s.cidr_rules now ip ≡ (true, block))
unfolding check
exact_allow-before-block s source_ip now ip r stored allows active blocked =
    (rw (stored, check, active, allows) refl, rw blocked)
