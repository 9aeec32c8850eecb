-- ===== src/Node/GlobalRules/Lifecycle.antt =====
-- pkg/node/global_rules.go: adding and removing rules.
use nitella.Base.{
  ℕ, ◌+◌, ◌<◌, String, ◌≡◌, sym, ◌∙◌, ◌≢◌, ◌⊎◌, Bool, true, false, ◌&&◌, none, some, [], ◌∷◌, arith,
  concat, concat_cancel_left, concat_assoc, concat_apart,
}
use nitella.Base.Map
use nitella.Base.Map.{
  Map, lookup-insert, lookup-erase, lookup-retain, lookup-insert_self, lookup-insert_ne,
  lookup-erase_self, lookup-erase_ne,
}
use nitella.Net.{Ip, IpNet}
use nitella.Net
use nitella.Net.Parse.{parse_ip, parse_cidr}
use nitella.Node.GlobalRules.{
  allow, block, GlobalRule, CidrRule, GlobalRulesStore, is_block, check, store_rule, block_ip,
  allow_ip, block_id, allow_id, remove, block_rule,
}
use nitella.Node.GlobalRules.Check.{applies, some_rule, check-network_verdict, NoExact}

-- A rule made at `now` for `duration`, which is for good if that is 0, is in force at `t`.
abbrev pub InForce : ℕ → ℕ → ℕ → Type 0
InForce now duration t = (duration ≡ 0) ⊎ (t < now + duration)

-- A rule for a single address decides for that address at once and for its whole duration, whether it
-- blocks or allows, and whatever rule was there before.
pub block_ip-check :
    (s : GlobalRulesStore) (ip : String) (duration now created t : ℕ)
    → parse_cidr ip ≡ none
    → InForce now duration t
    → (check (block_ip s ip duration now created).0 ip t ≡ (true, block))
      × (check (allow_ip s ip duration now created).0 ip t ≡ (true, allow))
unfolding check block_ip allow_ip store_rule
block_ip-check s ip duration now created t single force =
    (grind (arith, lookup-insert_self), grind (arith, lookup-insert_self))

some_rule-insert :
    (p : CidrRule → Bool) (k : String) (r : CidrRule) (m : Map CidrRule)
    → p r ≡ true
    → some_rule p (Map.insert k r m) ≡ true
unfolding Map.insert
some_rule-insert p k r [] h = ground arith
some_rule-insert p k r ((j, q) ∷ m) h = ground (arith, some_rule-insert p k r m)

store_rule_network :
    (s : GlobalRulesStore) (text : String) (r : GlobalRule) (net : IpNet)
    → parse_cidr text ≡ some net
    → store_rule s text r
      ≡ record s { cidr_rules = Map.insert r.id (record { rule = r; ip_net = net }) s.cidr_rules }
unfolding store_rule
store_rule_network s text r net e = rw (e, store_rule)

-- A network that is blocked is blocked for each of its addresses that no active rule names, whatever
-- other networks are stored.
pub block_ip-check_network :
    (s : GlobalRulesStore) (text source_ip : String) (duration now created t : ℕ) (net : IpNet)
    (ip : Ip)
    → parse_cidr text ≡ some net
    → parse_ip source_ip ≡ some ip
    → Net.contains net ip ≡ true
    → NoExact s source_ip t
    → InForce now duration t
    → check (block_ip s text duration now created).0 source_ip t ≡ (true, block)
unfolding block_ip
block_ip-check_network s text source_ip duration now created t net ip network parsed holds
      none_active force =
    let r : GlobalRule = block_rule text duration now created in
    let made : CidrRule = record { rule = r; ip_net = net } in
    rw (store_rule_network s text r net network) (
      check-network_verdict (record s { cidr_rules = Map.insert r.id made s.cidr_rules }) source_ip
        t ip none_active parsed
      ∙ rw (
          some_rule-insert (λ q. applies t ip q && is_block q.action) r.id made s.cidr_rules
            (ground arith)))

-- The id that `BlockIP` returns for a single address removes its rule, and only once.
pub remove-block_ip :
    (s : GlobalRulesStore) (ip : String) (duration now created : ℕ)
    → parse_cidr ip ≡ none
    → Map.lookup (block_id ip) s.cidr_rules ≡ none
    → let (s', id) = block_ip s ip duration now created in
      let (s'', removed) = remove s' id in
      (removed ≡ true) × (Map.lookup ip s''.exact_rules ≡ none) × ((remove s'' id).1 ≡ false)
unfolding remove block_ip store_rule
remove-block_ip s ip duration now created single no_network =
    grind (arith, lookup-insert_self, lookup-erase_self)

block_id-ne-allow_id : (a b : String) → block_id a ≢ allow_id b
unfolding block_id allow_id concat
block_id-ne-allow_id a b e = concat_apart "b" "a" "lock-" a "llow-" b (omega arith) (
    concat_cancel_left "global-" _ _
      (sym (concat_assoc "global-" "block-" a) ∙ e ∙ concat_assoc "global-" "allow-" b))

-- The id of a block that `AllowIP` has replaced is still known, and to remove it removes the rule
-- that allows the address.
pub remove_replaced :
    (s : GlobalRulesStore) (ip : String) (d now created d' now' created' : ℕ)
    → parse_cidr ip ≡ none
    → let (blocked, id) = block_ip s ip d now created in
      let (allowed, _) = allow_ip blocked ip d' now' created' in
      let (s', removed) = remove allowed id in
      (removed ≡ true) × (Map.lookup ip s'.exact_rules ≡ none)
unfolding remove block_ip allow_ip store_rule
remove_replaced s ip d now created d' now' created' single =
    grind (arith, lookup-insert_self, lookup-insert_ne, lookup-erase_self, block_id-ne-allow_id)
