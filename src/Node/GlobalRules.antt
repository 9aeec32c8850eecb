-- ===== src/Node/GlobalRules.antt =====
-- pkg/node/global_rules.go: the rules that apply across all proxies. Times are nanoseconds since Go's
-- zero time, 0 being that time, and each reading of the clock is an argument.
pub mod Check
pub mod Lifecycle
pub mod Cleanup
mod Examples
use nitella.Base.{
  ℕ, zero, suc, ◌+◌, ◌-◌, ◌*◌, ◌/◌, ◌%◌, ◌≤◌, ◌<◌, min, max, String, ◌≡◌, refl, sym, ap, ◌∙◌, ◌≢◌,
  ◌↔◌, ◌⊎◌, inl, inr, Bool, true, false, not, ◌&&◌, ◌||◌, Option, none, some, List, [], ◌∷◌, ◌++◌,
  map, arith, ltb, leb, ◌==◌, if◌then◌else◌, length, get_or, any, all, All, str_eq, str_eq_iff,
  codes, concat, cut, split_on, is_digit, Bool-cases, Option-cases,
}
use nitella.Base.Map
use nitella.Base.Map.{
  Map, lookup-insert, lookup-erase, lookup-retain, lookup-insert_self, lookup-insert_ne,
  lookup-erase_self, lookup-erase_ne,
}
use nitella.Net.{Ip, IpNet}
use nitella.Net
use nitella.Net.Parse.{parse_ip, parse_cidr}

-- `common.ActionType`
pub data ActionType : Type 0 where
  unspecified allow block mock require_approval : ActionType

pub record GlobalRule : Type 0 where
  pub id : String
  pub name : String
  pub source_ip : String
  pub action : ActionType
  pub expires_at : ℕ
  pub created_at : ℕ

pub record CidrRule : Type 0 where
  pub rule : GlobalRule
  pub open rule use *
  pub ip_net : IpNet

pub record GlobalRulesStore : Type 0 where
  pub exact_rules : Map GlobalRule
  pub cidr_rules : Map CidrRule
  pub id_to_ip : Map String

unfoldable pub new_store : GlobalRulesStore
new_store = record { exact_rules = []; cidr_rules = []; id_to_ip = [] }

-- `!rule.ExpiresAt.IsZero() && now.After(rule.ExpiresAt)`
abbrev pub is_over : GlobalRule → ℕ → Bool
is_over r now = not (r.expires_at == 0) && ltb r.expires_at now

-- `rule.ExpiresAt.IsZero() || now.Before(rule.ExpiresAt)`
abbrev pub is_active : GlobalRule → ℕ → Bool
is_active r now = r.expires_at == 0 || ltb now r.expires_at

-- The ids of the exact rules that are over.
over_ids : ℕ → Map GlobalRule → List String
over_ids now [] = []
over_ids now ((_, r) ∷ m) = if is_over r now then r.id ∷ over_ids now m else over_ids now m

erase_all : List String → Map String → Map String
erase_all [] m = m
erase_all (k ∷ ks) m = erase_all ks (Map.erase k m)

-- One round of `cleanupLoop`.
unfoldable pub cleanup : GlobalRulesStore → ℕ → GlobalRulesStore
unfolding over_ids erase_all
cleanup s now = record {
  exact_rules = Map.retain (λ (r : GlobalRule). not (is_over r now)) s.exact_rules;
  id_to_ip = erase_all (over_ids now s.exact_rules) s.id_to_ip;
  cidr_rules = Map.retain (λ (r : CidrRule). not (is_over r.rule now)) s.cidr_rules;
}

-- The part that `BlockIP` and `AllowIP` share: a network goes by its id, an address by itself.
unfoldable pub store_rule : GlobalRulesStore → String → GlobalRule → GlobalRulesStore
store_rule s ip rule = elim (parse_cidr ip) [
  | some net ↦ record s {
    cidr_rules = Map.insert rule.id (record { rule = rule; ip_net = net }) s.cidr_rules;
  }
  | none ↦ record s {
    exact_rules = Map.insert ip rule s.exact_rules;
    id_to_ip = Map.insert rule.id ip s.id_to_ip;
  }
]

unfoldable pub block_id : String → String
block_id ip = concat "global-block-" ip

unfoldable pub allow_id : String → String
allow_id ip = concat "global-allow-" ip

abbrev pub block_rule : String → ℕ → ℕ → ℕ → GlobalRule
block_rule ip duration now created = record {
  id = block_id ip;
  name = concat "Block: " ip;
  source_ip = ip;
  action = block;
  expires_at = if ltb 0 duration then now + duration else 0;
  created_at = created;
}

abbrev pub allow_rule : String → ℕ → ℕ → ℕ → GlobalRule
allow_rule ip duration now created = record {
  id = allow_id ip;
  name = concat "Allow: " ip;
  source_ip = ip;
  action = allow;
  expires_at = if ltb 0 duration then now + duration else 0;
  created_at = created;
}

-- `BlockIP`; the clock is read for the expiry and for the time of creation.
unfoldable pub block_ip : GlobalRulesStore → String → ℕ → ℕ → ℕ → GlobalRulesStore × String
block_ip s ip duration now created =
    (store_rule s ip (block_rule ip duration now created), block_id ip)

-- `AllowIP`
unfoldable pub allow_ip : GlobalRulesStore → String → ℕ → ℕ → ℕ → GlobalRulesStore × String
allow_ip s ip duration now created =
    (store_rule s ip (allow_rule ip duration now created), allow_id ip)

unfoldable pub remove : GlobalRulesStore → String → GlobalRulesStore × Bool
remove s id = elim (Map.lookup id s.id_to_ip) [
  | some ip ↦ (
    record s { exact_rules = Map.erase ip s.exact_rules; id_to_ip = Map.erase id s.id_to_ip },
    true,
  )
  | none ↦ elim (Map.lookup id s.cidr_rules) [
    | some _ ↦ (record s { cidr_rules = Map.erase id s.cidr_rules }, true)
    | none ↦ (s, false)
  ]
]

abbrev is_block : ActionType → Bool
is_block block = true
is_block _ = false

-- The loop of `Check` over the networks.
unfoldable pub scan_cidr : Map CidrRule → ℕ → Ip → Bool → Bool × ActionType
scan_cidr [] now ip matched_allow = if matched_allow then (true, allow) else (false, unspecified)
scan_cidr ((_, r) ∷ m) now ip matched_allow =
    let skip = scan_cidr m now ip matched_allow in
    let matched = scan_cidr m now ip true in
    if is_over r.rule now
    then skip
    else if Net.contains r.ip_net ip
    then (if is_block r.action then (true, block) else matched)
    else skip

unfoldable pub check_cidr : GlobalRulesStore → String → ℕ → Bool × ActionType
unfolding scan_cidr
check_cidr s source_ip now = elim (parse_ip source_ip) [
  | none ↦ (false, unspecified)
  | some ip ↦ scan_cidr s.cidr_rules now ip false
]

unfoldable pub check : GlobalRulesStore → String → ℕ → Bool × ActionType
check s source_ip now = elim (Map.lookup source_ip s.exact_rules) [
  | some r ↦ if is_active r now then (true, r.action) else check_cidr s source_ip now
  | none ↦ check_cidr s source_ip now
]

active_exact : ℕ → Map GlobalRule → List GlobalRule
active_exact now [] = []
active_exact now ((_, r) ∷ m) =
    if is_active r now then r ∷ active_exact now m else active_exact now m

active_cidr : ℕ → Map CidrRule → List GlobalRule
active_cidr now [] = []
active_cidr now ((_, r) ∷ m) =
    if is_active r.rule now then r.rule ∷ active_cidr now m else active_cidr now m

-- `List`
unfoldable pub list_rules : GlobalRulesStore → ℕ → List GlobalRule
unfolding active_exact active_cidr
list_rules s now = active_exact now s.exact_rules ++ active_cidr now s.cidr_rules
