-- ===== src/Node/GlobalRules/Cleanup.antt =====
-- pkg/node/global_rules.go: the periodic cleanup, over every store that calls can build.
use nitella.Base.{
  ℕ, ◌≤◌, String, ◌≡◌, refl, inl, inr, Bool, true, false, not, ◌&&◌, [], ◌∷◌, arith, Bool-cases,
  Option-cases,
}
use nitella.Base.Map
use nitella.Base.Map.{
  retain_step, retain-IsDistinct, erase-IsDistinct, insert-IsDistinct, IsDistinct, Map,
  lookup-insert, lookup-erase, lookup-retain, lookup-insert_self, lookup-insert_ne,
  lookup-erase_self, lookup-erase_ne,
}
use nitella.Net.{Ip}
use nitella.Net.Parse.{parse_ip, parse_cidr}
use nitella.Node.GlobalRules.{
  GlobalRule, CidrRule, GlobalRulesStore, new_store, is_over, is_block, scan_cidr, check_cidr,
  check, store_rule, block_ip, allow_ip, remove, cleanup,
}
use nitella.Node.GlobalRules.Check.{applies, some_rule, scan_cidr_lem}

-- The stores that the calls build, in any order.
pub data Reach : GlobalRulesStore → Type 0 where
  new : Reach new_store
  blocked :
      {s : GlobalRulesStore} (ip : String) (duration now created : ℕ)
      → Reach s
      → Reach (block_ip s ip duration now created).0
  allowed :
      {s : GlobalRulesStore} (ip : String) (duration now created : ℕ)
      → Reach s
      → Reach (allow_ip s ip duration now created).0
  removed : {s : GlobalRulesStore} (id : String) → Reach s → Reach (remove s id).0
  cleaned : {s : GlobalRulesStore} (now : ℕ) → Reach s → Reach (cleanup s now)

store_rule-IsDistinct :
    (s : GlobalRulesStore) (ip : String) (r : GlobalRule)
    → IsDistinct s.cidr_rules
    → IsDistinct (store_rule s ip r).cidr_rules
unfolding store_rule
store_rule-IsDistinct s ip r d = elim (Option-cases (parse_cidr ip)) [
  | inl e ↦ rw (e, store_rule) d
  | inr (net, e) ↦ rw (e, store_rule) (insert-IsDistinct r.id _ s.cidr_rules d)
]

remove-IsDistinct :
    (s : GlobalRulesStore) (id : String)
    → IsDistinct s.cidr_rules
    → IsDistinct (remove s id).0.cidr_rules
unfolding remove
remove-IsDistinct s id d = ground (arith, erase-IsDistinct id s.cidr_rules)

Reach-IsDistinct : {s : GlobalRulesStore} → Reach s → IsDistinct s.cidr_rules
unfolding new_store block_ip allow_ip cleanup
Reach-IsDistinct new = tt
Reach-IsDistinct (blocked {s = s} ip duration now created r) =
    store_rule-IsDistinct s ip _ (Reach-IsDistinct r)
Reach-IsDistinct (allowed {s = s} ip duration now created r) =
    store_rule-IsDistinct s ip _ (Reach-IsDistinct r)
Reach-IsDistinct (removed {s = s} id r) = remove-IsDistinct s id (Reach-IsDistinct r)
Reach-IsDistinct (cleaned {s = s} now r) = retain-IsDistinct _ s.cidr_rules (Reach-IsDistinct r)

some_rule-retain :
    (p keep : CidrRule → Bool) (m : Map CidrRule)
    → ((r : CidrRule) → keep r ≡ false → p r ≡ false)
    → IsDistinct m
    → some_rule p (Map.retain keep m) ≡ some_rule p m
unfolding Map.retain
some_rule-retain p keep [] h d = refl
some_rule-retain p keep ((k, r) ∷ m) h d =
    rw (retain_step keep k r m d) (elim (Bool-cases (keep r)) [
      | inl e ↦ rw (e, some_rule-retain p keep m h d.1)
      | inr e ↦ rw (e, h r e, some_rule-retain p keep m h d.1)
    ])

over_later :
    (r : CidrRule) (swept now : ℕ)
    → swept ≤ now
    → not (is_over r.rule swept) ≡ false
    → is_over r.rule now ≡ true
over_later r swept now h e = ground arith

scan_cidr-retain :
    (m : Map CidrRule) (swept now : ℕ) (ip : Ip) (matched : Bool)
    → swept ≤ now
    → IsDistinct m
    → scan_cidr (Map.retain (λ (r : CidrRule). not (is_over r.rule swept)) m) now ip matched
      ≡ scan_cidr m now ip matched
scan_cidr-retain m swept now ip matched h d = rw (
  scan_cidr_lem _ now ip matched,
  scan_cidr_lem m now ip matched,
  some_rule-retain (applies now ip) _ m (λ r e. rw (over_later r swept now h e)) d,
  some_rule-retain (λ r. applies now ip r && is_block r.action) _ m
      (λ r e. rw (over_later r swept now h e)) d,
)

check_cidr-cleanup :
    (s : GlobalRulesStore) (source_ip : String) (swept now : ℕ)
    → swept ≤ now
    → IsDistinct s.cidr_rules
    → check_cidr (cleanup s swept) source_ip now ≡ check_cidr s source_ip now
unfolding check_cidr cleanup
check_cidr-cleanup s source_ip swept now h d = elim (Option-cases (parse_ip source_ip)) [
  | inl e ↦ rw (e, check_cidr)
  | inr (ip, e) ↦ rw (e, check_cidr) (scan_cidr-retain s.cidr_rules swept now ip false h d)
]

-- A cleanup never changes an answer: in every store that the calls can build, a later check finds
-- what it would have found without the cleanup.
pub check-cleanup-Reach :
    (s : GlobalRulesStore) (source_ip : String) (swept now : ℕ)
    → Reach s
    → swept ≤ now
    → check (cleanup s swept) source_ip now ≡ check s source_ip now
unfolding check cleanup
check-cleanup-Reach s source_ip swept now r h =
    grind (arith, lookup-retain, check_cidr-cleanup s source_ip swept now h (Reach-IsDistinct r))
