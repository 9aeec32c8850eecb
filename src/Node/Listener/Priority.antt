-- ===== src/Node/Listener/Priority.antt =====
-- pkg/node/listener.go: the order of the rules, and which of those that match is applied.
use nitella.Base.{
  ℕ, String, ◌≡◌, sym, ◌∙◌, inl, inr, Bool, true, ◌&&◌, Option, none, some, List, [], ◌∷◌, arith,
  all, All, str_eq, Bool-cases, Option-cases,
}
use nitella.Base.Map.{Map}
use nitella.Base.Int.{◌≤ℤ◌, ltb_ℤ}
use mathlib.Core.Path.{subst}
use mathlib.Core.Bool.{true≢false}
use nitella.Node.Rules.Regexes.{IsSound}
use nitella.Node.Rules.Verdicts.{verdict, match_rule-verdict}
use nitella.Node.Rules.Matching.{match_rule, GeoInfo, Connection, Rule}
use nitella.Node.Listener.Table.{
  first_match, drop_rule, RuleTable, new_table, insert_rule, add_rule, remove_rule,
}

-- No rule stands before one of higher priority.
abbrev pub IsSorted : List Rule → Type 0
IsSorted [] = Unit
IsSorted (r ∷ rs) = All (λ (s : Rule). s.priority ≤ℤ r.priority) rs × IsSorted rs

-- The tables that the calls build.
pub data Reach : RuleTable → Type 0 where
  new : Reach new_table
  added : {t : RuleTable} (rule : Rule) → Reach t → Reach (add_rule t rule)
  removed : {t : RuleTable} (id : String) → Reach t → Reach (remove_rule t id).0

All-insert_rule :
    (P : Rule → Type 0) (rule : Rule) (rs : List Rule)
    → P rule
    → All P rs
    → All P (insert_rule rule rs)
unfolding insert_rule
All-insert_rule P rule [] p a = (p, tt)
All-insert_rule P rule (r ∷ rs) p a = elim (Bool-cases (ltb_ℤ r.priority rule.priority)) [
  | inl e ↦ rw e (p, a)
  | inr e ↦ rw e (a.0, All-insert_rule P rule rs p a.1)
]

All-weaken :
    (a b : Rule) (rs : List Rule)
    → a.priority ≤ℤ b.priority
    → All (λ (s : Rule). s.priority ≤ℤ a.priority) rs
    → All (λ (s : Rule). s.priority ≤ℤ b.priority) rs
All-weaken a b [] h p = tt
All-weaken a b (r ∷ rs) h p = (omega (arith, h, p.0), All-weaken a b rs h p.1)

insert_rule-IsSorted : (rule : Rule) (rs : List Rule) → IsSorted rs → IsSorted (insert_rule rule rs)
unfolding insert_rule
insert_rule-IsSorted rule [] s = (tt, tt)
insert_rule-IsSorted rule (r ∷ rs) s = elim (Bool-cases (ltb_ℤ r.priority rule.priority)) [
  | inl e ↦ rw e ((ground arith, All-weaken r rule rs (ground arith) s.0), s)
  | inr e ↦ rw e (All-insert_rule _ rule rs (ground arith) s.0, insert_rule-IsSorted rule rs s.1)
]

AllKept : (Rule → Type 0) → Option (List Rule) → Type 0
AllKept P none = Unit
AllKept P (some rs) = All P rs

SortedKept : Option (List Rule) → Type 0
SortedKept none = Unit
SortedKept (some rs) = IsSorted rs

drop_rule-AllKept :
    (P : Rule → Type 0) (id : String) (rs : List Rule) → All P rs → AllKept P (drop_rule id rs)
unfolding drop_rule AllKept
drop_rule-AllKept P id [] a = tt
drop_rule-AllKept P id (r ∷ rs) a = elim (Bool-cases (str_eq r.id id)) [
  | inl e ↦ rw e a.1
  | inr e ↦ elim (Option-cases (drop_rule id rs)) [
    | inl e' ↦ rw (e, e', drop_rule) tt
    | inr (rest, e') ↦
        rw (e, e', drop_rule) (a.0, subst (AllKept P) e' (drop_rule-AllKept P id rs a.1))
  ]
]

drop_rule-SortedKept : (id : String) (rs : List Rule) → IsSorted rs → SortedKept (drop_rule id rs)
unfolding drop_rule AllKept SortedKept
drop_rule-SortedKept id [] s = tt
drop_rule-SortedKept id (r ∷ rs) s = elim (Bool-cases (str_eq r.id id)) [
  | inl e ↦ rw e s.1
  | inr e ↦ elim (Option-cases (drop_rule id rs)) [
    | inl e' ↦ rw (e, e', drop_rule) tt
    | inr (rest, e') ↦
        rw (e, e', drop_rule)
          (
            subst (AllKept (λ (s : Rule). s.priority ≤ℤ r.priority)) e'
                (drop_rule-AllKept _ id rs s.0),
            subst SortedKept e' (drop_rule-SortedKept id rs s.1),
          )
  ]
]

remove_rule-IsSorted :
    (t : RuleTable) (id : String) → IsSorted t.rules → IsSorted (remove_rule t id).0.rules
unfolding remove_rule SortedKept
remove_rule-IsSorted t id s = elim (Option-cases (drop_rule id t.rules)) [
  | inl e ↦ rw (e, remove_rule) s
  | inr (rest, e) ↦ rw (e, remove_rule) (subst SortedKept e (drop_rule-SortedKept id t.rules s))
]

pub Reach-IsSorted : {t : RuleTable} → Reach t → IsSorted t.rules
unfolding new_table add_rule
Reach-IsSorted new = tt
Reach-IsSorted (added {t = t} rule r) = insert_rule-IsSorted rule t.rules (Reach-IsSorted r)
Reach-IsSorted (removed {t = t} id r) = remove_rule-IsSorted t id (Reach-IsSorted r)

module _ {Regex : Type 0} (compile_posix : String → Option Regex)
    (match_text : Regex → String → Option Bool) (fingerprint : String → String) (conn : Connection)
    (geo : Option GeoInfo) (now : ℕ) where
  -- A rule that is enabled and of which all conditions hold.
  abbrev pub Applies : Rule → Type 0
  Applies r =
      (r.enabled && all (verdict compile_posix match_text fingerprint conn geo now) r.conditions)
      ≡ true

  -- What may be picked from some rules: one that applies with no rule above it that applies, or nothing
  -- if none applies.
  abbrev pub Picks : List Rule → Option Rule → Type 0
  Picks rs none = All (λ s. ¬ Applies s) rs
  Picks rs (some r) = Applies r × All (λ (s : Rule). Applies s → s.priority ≤ℤ r.priority) rs

  Picks-head :
      (r : Rule) (rs : List Rule)
      → All (λ (s : Rule). s.priority ≤ℤ r.priority) rs
      → All (λ (s : Rule). Applies s → s.priority ≤ℤ r.priority) rs
  Picks-head r [] a = tt
  Picks-head r (s ∷ rs) a = ((λ h. a.0), Picks-head r rs a.1)

  Picks-tail :
      (r : Rule) (rs : List Rule) (found : Option Rule)
      → ¬ Applies r
      → Picks rs found
      → Picks (r ∷ rs) found
  Picks-tail r rs none not_r p = (not_r, p)
  Picks-tail r rs (some s) not_r p = (p.0, ((λ h. absurd (not_r h)), p.1))

  first_match-Picks :
      (patterns : Map (Option Regex)) (rs : List Rule)
      → IsSound compile_posix patterns
      → IsSorted rs
      → Picks rs (first_match compile_posix match_text fingerprint patterns rs conn geo now).1
  unfolding first_match
  first_match-Picks patterns [] sound s = tt
  first_match-Picks patterns (r ∷ rs) sound s =
      let step = match_rule compile_posix match_text fingerprint patterns r conn geo now in
      let (same, sound') =
        match_rule-verdict compile_posix match_text fingerprint patterns r conn geo now sound in
      elim (Bool-cases step.1) [
        | inl e ↦ rw e (sym same ∙ e, ((λ h. omega arith), Picks-head r rs s.0))
        | inr e ↦ rw e (
            Picks-tail r rs _ (λ h. true≢false (sym h ∙ sym same ∙ e))
              (first_match-Picks step.0 rs sound' s.1))
      ]

-- Of all the rules that apply to a connection the one that is taken has the highest priority, and none is
-- taken only if none applies, whatever calls built the table, when the patterns stored were compiled
-- from their keys.
pub first_match-Reach :
    {Regex : Type 0}
    → (compile_posix : String → Option Regex) (match_text : Regex → String → Option Bool)
      (fingerprint : String → String) (patterns : Map (Option Regex)) (t : RuleTable)
      (conn : Connection) (geo : Option GeoInfo) (now : ℕ)
    → Reach t
    → IsSound compile_posix patterns
    → Picks compile_posix match_text fingerprint conn geo now t.rules
        (first_match compile_posix match_text fingerprint patterns t.rules conn geo now).1
first_match-Reach compile_posix match_text fingerprint patterns t conn geo now r sound =
    first_match-Picks compile_posix match_text fingerprint conn geo now patterns t.rules sound
      (Reach-IsSorted r)
