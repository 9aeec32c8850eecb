-- ===== src/Node/GlobalRules/Examples.antt =====
-- pkg/node/global_rules.go: a store in use, and its theorems at concrete inputs.
use nitella.Base.{String, ◌≡◌, refl, true, [], ◌∷◌, arith}
use nitella.Base.Map
use nitella.Base.Map.{
  Map, lookup-insert, lookup-erase, lookup-retain, lookup-insert_self, lookup-insert_ne,
  lookup-erase_self, lookup-erase_ne,
}
use nitella.Net.{Ip, v4, IpNet, to4, network_of}
use nitella.Net
use nitella.Net.Parse.{parse_ip, parse_cidr}
use nitella.Node.GlobalRules.{
  ActionType, allow, block, GlobalRule, CidrRule, GlobalRulesStore, new_store, check_cidr, check,
  store_rule, block_ip, allow_ip, remove, cleanup,
}
use nitella.Node.GlobalRules.Check.{network_verdict, check-network_verdict}
use nitella.Node.GlobalRules.Cleanup.{new, blocked, check-cleanup-Reach}

program : Unit {0}
unfolding check check_cidr store_rule block_ip allow_ip remove cleanup new_store parse_ip parse_cidr
    to4 network_of Net.contains Map.lookup Map.insert Map.erase
program = tt

abbrev rule : String → ActionType → GlobalRule
rule ip action = record {
  id = ip;
  name = ip;
  source_ip = ip;
  action = action;
  expires_at = 0;
  created_at = 5;
}

abbrev net_10 : IpNet
net_10 = record { network = v4 0x0a000000; ones = 8 }

abbrev blocked_10 : CidrRule
blocked_10 = record { rule = rule "10.0.0.0/8" block; ip_net = net_10 }

abbrev allowed_all : CidrRule
allowed_all = record { rule = rule "0.0.0.0/0" allow; ip_net = record { network = v4 0; ones = 0 } }

abbrev store : GlobalRulesStore
store = record {
  exact_rules = ("10.0.0.7", rule "10.0.0.7" allow) ∷ [];
  cidr_rules = ("0.0.0.0/0", allowed_all) ∷ ("10.0.0.0/8", blocked_10) ∷ [];
  id_to_ip = ("10.0.0.7", "10.0.0.7") ∷ [];
}

-- a block wins over a wider allow
store_answers :
    (check store "10.1.1.1" 9 ≡ (true, block))
    × (check store "11.1.1.1" 9 ≡ (true, allow))
    × (check store "10.0.0.7" 9 ≡ (true, allow))
unfolding program
store_answers = (refl, refl, refl)

check-network_verdict_example :
    check store "10.1.1.1" 9 ≡ network_verdict store.cidr_rules 9 (v4 0x0a010101)
unfolding program
check-network_verdict_example = check-network_verdict store "10.1.1.1" 9 (v4 0x0a010101) refl refl

check-cleanup-Reach_example :
    check (cleanup (block_ip new_store "10.0.0.0/8" 60 100 100).0 170) "10.0.0.8" 180
    ≡ check (block_ip new_store "10.0.0.0/8" 60 100 100).0 "10.0.0.8" 180
check-cleanup-Reach_example =
    check-cleanup-Reach (block_ip new_store "10.0.0.0/8" 60 100 100).0 "10.0.0.8" 170 180
      (blocked "10.0.0.0/8" 60 100 100 new) (omega arith)
