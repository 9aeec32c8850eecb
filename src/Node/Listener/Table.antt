-- ===== src/Node/Listener/Table.antt =====
-- pkg/node/listener.go: the rules of a listener and their limiters, `AddRule`, `RemoveRule` and
-- `evaluateRules`.
use nitella.Base.{
  ℕ, String, Bool, true, false, Option, none, some, List, [], ◌∷◌, if◌then◌else◌, str_eq,
}
use nitella.Base.Map
use nitella.Base.Map.{
  Map, lookup-insert, lookup-erase, lookup-retain, lookup-insert_self, lookup-insert_ne,
  lookup-erase_self, lookup-erase_ne,
}
use nitella.Base.Int.{pos, ltb_ℤ}
use nitella.Net.HostPort.{split_host}
use nitella.Node.GlobalRules.{block}
use nitella.Node.RateLimit.{RateLimiter, new_rate_limiter, check, track_connection}
use nitella.Node.RateLimit.Window.{Attempt}
use nitella.Node.Rules.Matching.{Rule, Connection, GeoInfo, match_rule}

pub record RuleTable : Type 0 where
  pub rules : List Rule
  pub rule_limiters : Map RateLimiter

unfoldable pub new_table : RuleTable
new_table = record { rules = []; rule_limiters = [] }

-- The place of a rule is before the first one of lower priority.
unfoldable pub insert_rule : Rule → List Rule → List Rule
insert_rule rule [] = rule ∷ []
insert_rule rule (r ∷ rs) =
    if ltb_ℤ r.priority rule.priority then rule ∷ (r ∷ rs) else r ∷ insert_rule rule rs

abbrev pub add_limiter : String → Option RateLimiter → Map RateLimiter → Map RateLimiter
add_limiter id none limiters = limiters
add_limiter id (some limiter) limiters = Map.insert id limiter limiters

-- `AddRule`
unfoldable pub add_rule : RuleTable → Rule → RuleTable
add_rule t rule = record {
  rules = insert_rule rule t.rules;
  rule_limiters = add_limiter rule.id (new_rate_limiter rule.rate_limit) t.rule_limiters;
}

-- The rules without the first one of an id, if there is one.
unfoldable pub drop_rule : String → List Rule → Option (List Rule)
drop_rule id [] = none
drop_rule id (r ∷ rs) =
    if str_eq r.id id
    then some rs
    else (elim (drop_rule id rs) [ none ↦ none | some rest ↦ some (r ∷ rest) ])

-- `RemoveRule`, and whether the rule was found.
unfoldable pub remove_rule : RuleTable → String → RuleTable × Bool
remove_rule t id = elim (drop_rule id t.rules) [
  | none ↦ (t, false)
  | some rest ↦ (record { rules = rest; rule_limiters = Map.erase id t.rule_limiters }, true)
]

-- The temporary rule that stands for a refusal of a limiter.
abbrev pub block_rule : Rule → Rule
block_rule rule = record {
  id = rule.id;
  name = "";
  priority = pos 0;
  enabled = false;
  conditions = [];
  action = block;
  target_backend = "";
  rate_limit = none;
}

-- The address that a limiter is asked about; it is empty where the connection has none.
abbrev pub source_ip_of : Connection → String
source_ip_of conn = elim (split_host conn.remote_addr) [ none ↦ "" | some host ↦ host ]

-- What other handlers do to the limiter between the check of one and its being counted, and the time of that.
pub record Between : Type 0 where
  pub others : RateLimiter → RateLimiter
  pub t_track : ℕ

-- What a rule that matches comes to: the rule and whether a limiter goes with it.
unfoldable pub apply_rule : RuleTable → Rule → String → Attempt → Between → RuleTable × Rule × Bool
apply_rule t rule source_ip a between = elim (Map.lookup rule.id t.rule_limiters) [
  | none ↦ (t, rule, false)
  | some limiter ↦
      let (limiter', allowed) = check limiter source_ip a.t_block a.t_probation a.now in
      let counted = track_connection (between.others limiter') source_ip between.t_track in
      if allowed
      then (record t { rule_limiters = Map.insert rule.id counted t.rule_limiters }, rule, true)
      else (
        record t { rule_limiters = Map.insert rule.id limiter' t.rule_limiters },
        block_rule rule,
        false,
      )
]

module _ {Regex : Type 0} (compile_posix : String → Option Regex)
    (match_text : Regex → String → Option Bool) (fingerprint : String → String) where
  -- The first rule that matches, and the patterns that are compiled on the way.
  unfoldable pub first_match :
      Map (Option Regex)
      → List Rule
      → Connection
      → Option GeoInfo
      → ℕ
      → Map (Option Regex) × Option Rule
  first_match patterns [] conn geo now = (patterns, none)
  first_match patterns (rule ∷ rules) conn geo now =
      let (patterns', matched) =
        match_rule compile_posix match_text fingerprint patterns rule conn geo now in
      let rest = first_match patterns' rules conn geo now in
      if matched then (patterns', some rule) else rest

  -- `evaluateRules`
  unfoldable pub evaluate_rules :
      Map (Option Regex)
      → RuleTable
      → Connection
      → Option GeoInfo
      → ℕ
      → Attempt
      → Between
      → Map (Option Regex) × RuleTable × Option (Rule × Bool)
  evaluate_rules patterns t conn geo now a between =
      let (patterns', found) = first_match patterns t.rules conn geo now in
      elim found [
        | none ↦ (patterns', t, none)
        | some rule ↦
            let (t', applied, limited) = apply_rule t rule (source_ip_of conn) a between in
            (patterns', t', some (applied, limited))
      ]
