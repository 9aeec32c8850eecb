-- ===== src/Node/Rules/Examples.antt =====
-- pkg/node/rules.go: the theorems at concrete rules. A pattern stands for the texts that include it.
use nitella.Base.{
  ◌+◌, ◌-◌, ◌*◌, ◌%◌, String, ◌≡◌, refl, inl, inr, Bool, true, false, ◌&&◌, Option, none, some, [],
  ◌∷◌, arith, leb, if◌then◌else◌, all, str_eq, str_eq_iff, codes, split_on, includes, Bool-cases,
}
use nitella.Base.Map
use nitella.Base.Map.{
  Map, lookup-insert, lookup-erase, lookup-retain, lookup-insert_self, lookup-insert_ne,
  lookup-erase_self, lookup-erase_ne,
}
use nitella.Base.Int.{pos}
use nitella.Node.GlobalRules.{block}
use nitella.Node.Rules.Regexes.{get_compiled_regex, IsSound, byte_length}
use nitella.Node.Rules.Texts.{regex, match_string, match_any}
use nitella.Node.Rules.Times.{
  match_time_range, parse_time, parse_int_safe, trim_left, trim_right, in_range,
  match_time_range-time_text,
}
use nitella.Node.Rules.Matching.{
  tls_san, Condition, Rule, Certificate, Connection, match_rule, match_conditions, match_condition,
}
use nitella.Node.Rules.Verdicts.{verdict, match_rule-verdict}

program : Unit {0}
unfolding match_rule match_conditions match_condition match_string match_any get_compiled_regex
    byte_length match_time_range parse_time parse_int_safe trim_left trim_right in_range split_on
    includes Map.lookup Map.insert
program = tt

abbrev compile : String → Option String
compile pattern = if str_eq pattern "(" then none else some pattern

abbrev finds : String → String → Option Bool
finds pattern text = some (includes (codes text) (codes pattern))

abbrev digest : String → String
digest raw = raw

abbrev patterns : Map (Option String)
patterns = ("(", none) ∷ []

patterns-IsSound : IsSound compile patterns
unfolding Map.lookup
patterns-IsSound = record {
  distinct = (refl, tt);
  compiled = λ p re h. elim (Bool-cases (str_eq "(" p)) [
    | inl e ↦ grind (arith, str_eq_iff "(" p, str_eq_iff p "(")
    | inr e ↦ grind arith
  ];
  bounded = omega arith;
}

abbrev cert : Certificate
cert = record {
  raw = "c";
  common_name = "phone";
  serial_number = "7";
  issuer_common_name = "ca";
  dns_names = "a.example" ∷ [];
  email_addresses = [];
  ip_addresses = "10.0.0.1" ∷ [];
  organizational_unit = [];
}

abbrev conn : Connection
conn = record { remote_addr = "10.0.0.7:80"; tls_state = some (cert ∷ []) }

abbrev san_condition : Condition
san_condition = record { type = tls_san; op = regex; value = "0.0.1"; negate = false }

abbrev rule : Rule
rule = record {
  id = "r";
  name = "r";
  priority = pos 1;
  enabled = true;
  conditions = san_condition ∷ [];
  action = block;
  target_backend = "";
  rate_limit = none;
}

rule_matches : (match_rule compile finds digest patterns rule conn none 600).1 ≡ true
unfolding program
rule_matches = refl

match_rule-verdict_example :
    let (cache', matched) = match_rule compile finds digest patterns rule conn none 600 in
    (matched ≡ (true && all (verdict compile finds digest conn none 600) (san_condition ∷ [])))
    × IsSound compile cache'
match_rule-verdict_example =
    match_rule-verdict compile finds digest patterns rule conn none 600 patterns-IsSound

-- what `parseIntSafe` passes over
loose_time : parse_time (codes " 9x:0-5 ") ≡ some 545
unfolding program
loose_time = refl

match_time_range-time_text_example :
    match_time_range "22:00-06:30" 390
    ≡ leb ((390 + 1440 - (22 * 60 + 0)) % 1440) ((6 * 60 + 30 + 1440 - (22 * 60 + 0)) % 1440)
match_time_range-time_text_example =
    match_time_range-time_text "22:00-06:30" 22 0 6 30 390 refl (omega arith) (omega arith)
      (omega arith) (omega arith) (omega arith)
