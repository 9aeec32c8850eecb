-- ===== src/Node/Approval/Cache/Decisions.antt =====
-- pkg/node/approval.go: what `Check` finds after `Add`, `Remove` and the periodic cleanup.
use nitella.Base.{
  ℕ, ◌+◌, ◌≤◌, ◌<◌, String, ◌≡◌, refl, sym, ap, ◌∙◌, inl, inr, Bool, true, false, not, ◌&&◌, Option,
  none, some, arith, ltb, leb, if◌then◌else◌, str_eq, str_eq_iff, Bool-cases, Option-cases,
}
use nitella.Base.Map
use nitella.Base.Map.{
  Map, lookup-insert, lookup-erase, lookup-retain, lookup-insert_self, lookup-insert_ne,
  lookup-erase_self, lookup-erase_ne,
}
use nitella.Node.Approval.Key.{build_key, build_key-injective, NoNull}
use nitella.Node.Approval.Cache.{
  LiveConnStats, Geo, set_conn_id, max_conn_ids_per_approval, ApprovalEntry, ApprovalCache,
  stored_decision, check, add, add_with_geo, remove, cleanup,
}

-- The three parts of a key.
abbrev same_parts : String → String → String → String → String → String → Bool
same_parts ip rule session ip' rule' session' =
    str_eq ip ip' && (str_eq rule rule' && str_eq session session')

str_eq-build_key :
    (ip rule session ip' rule' session' : String)
    → NoNull ip
    → NoNull rule
    → NoNull ip'
    → NoNull rule'
    → str_eq (build_key ip rule session) (build_key ip' rule' session')
      ≡ same_parts ip rule session ip' rule' session'
str_eq-build_key ip rule session ip' rule' session' f g f' g' =
    elim (Bool-cases (same_parts ip rule session ip' rule' session')) [
      | inl e ↦ grind (
        arith,
        str_eq_iff ip ip',
        str_eq_iff rule rule',
        str_eq_iff session session',
        str_eq_iff (build_key ip rule session) (build_key ip' rule' session'),
      )
      | inr e ↦ grind (
        arith,
        build_key-injective ip rule session ip' rule' session' f g f' g',
        str_eq_iff ip ip',
        str_eq_iff rule rule',
        str_eq_iff session session',
        str_eq_iff (build_key ip rule session) (build_key ip' rule' session'),
      )
    ]

-- A decision that `Add` stores is what `Check` finds for the same address, rule and TLS session, until it
-- expires, whatever was stored before; for all else `Check` answers as it did, when no address and no
-- rule id holds a null byte.
pub check-add :
    (c : ApprovalCache) (ip rule proxy session : String) (decision : Bool)
    (duration now created : ℕ) (ip' rule' session' : String) (t : ℕ)
    → NoNull ip
    → NoNull rule
    → NoNull ip'
    → NoNull rule'
    → check (add c ip rule proxy session decision duration now created) ip' rule' session' t ≡ (
        if str_eq ip ip' && (str_eq rule rule' && str_eq session session')
        then (if ltb t (now + duration) then (true, decision) else (false, false))
        else check c ip' rule' session' t)
unfolding check add add_with_geo
check-add c ip rule proxy session decision duration now created ip' rule' session' t f g f' g' =
    rw
      (
        lookup-insert (build_key ip rule session) (build_key ip' rule' session') _ c.entries,
        str_eq-build_key ip rule session ip' rule' session' f g f' g',
      )
      (elim (Bool-cases (same_parts ip rule session ip' rule' session')) [
        | inl e ↦ rw e
        | inr e ↦ rw e
      ])

-- A decision that is removed is not found again, and no other decision is lost, when no address and no
-- rule id holds a null byte.
pub check-remove :
    (c : ApprovalCache) (ip rule session ip' rule' session' : String) (t : ℕ)
    → NoNull ip
    → NoNull rule
    → NoNull ip'
    → NoNull rule'
    → check (remove c ip rule session) ip' rule' session' t ≡ (
        if str_eq ip ip' && (str_eq rule rule' && str_eq session session')
        then (false, false)
        else check c ip' rule' session' t)
unfolding check remove
check-remove c ip rule session ip' rule' session' t f g f' g' =
    rw
      (
        lookup-erase (build_key ip rule session) (build_key ip' rule' session') c.entries,
        str_eq-build_key ip rule session ip' rule' session' f g f' g',
      )
      (elim (Bool-cases (same_parts ip rule session ip' rule' session')) [
        | inl e ↦ rw e
        | inr e ↦ rw e
      ])

stored_decision-keep_if :
    (stored : Option ApprovalEntry) (swept now : ℕ)
    → swept ≤ now
    → stored_decision (Map.keep_if (λ (e : ApprovalEntry). not (ltb e.expires_at swept)) stored) now
      ≡ stored_decision stored now
stored_decision-keep_if none swept now h = refl
stored_decision-keep_if (some e) swept now h = ground arith

-- A cleanup is not seen by any later `Check`.
pub check-cleanup_later :
    (c : ApprovalCache) (swept : ℕ) (ip rule session : String) (now : ℕ)
    → swept ≤ now
    → check (cleanup c swept).0 ip rule session now ≡ check c ip rule session now
unfolding check cleanup
check-cleanup_later c swept ip rule session now h =
    rw
      (lookup-retain (λ (e : ApprovalEntry). not (ltb e.expires_at swept))
        (build_key ip rule session) c.entries)
      (stored_decision-keep_if (Map.lookup (build_key ip rule session) c.entries) swept now h)

stored_if :
    (b : Bool) (e e' : ApprovalEntry) (stored : Option ApprovalEntry) (t : ℕ)
    → (b ≡ true → stored ≡ some e)
    → stored_decision (some e') t ≡ stored_decision (some e) t
    → stored_decision (if b then some e' else stored) t ≡ stored_decision stored t
stored_if true e e' stored t h same = same ∙ ap (λ s. stored_decision s t) (sym (h refl))
stored_if false e e' stored t h same = refl

-- To track a connection under a decision changes no answer of `Check`.
pub check-set_conn_id :
    (c : ApprovalCache) (ip rule session conn_id : String) (stats : LiveConnStats)
    (ip' rule' session' : String) (t : ℕ)
    → check (set_conn_id c ip rule session conn_id stats).0 ip' rule' session' t
      ≡ check c ip' rule' session' t
unfolding check set_conn_id
check-set_conn_id c ip rule session conn_id stats ip' rule' session' t =
    let key = build_key ip rule session in
    let key' = build_key ip' rule' session' in
    elim (Option-cases (Map.lookup key c.entries)) [
      | inl e ↦ rw (e, set_conn_id)
      | inr (a, e) ↦ elim (Bool-cases (leb max_conn_ids_per_approval (Map.size a.live_conns))) [
        | inl full ↦ rw (e, set_conn_id, full)
        | inr room ↦
            rw
              (
                e,
                set_conn_id,
                room,
                lookup-insert key key'
                    (record a { live_conns = Map.insert conn_id stats a.live_conns }) c.entries,
              )
              (stored_if (str_eq key key') a _ (Map.lookup key' c.entries) t
                (λ same. ap (λ k. Map.lookup k c.entries) (sym ((str_eq_iff key key').0 same)) ∙ e)
                refl)
      ]
    ]

-- The decision that is stored last is the one that is found.
pub check-add_with_geo_self :
    (c : ApprovalCache) (ip rule proxy session : String) (decision : Bool) (duration : ℕ)
    (geo : Geo) (now created t : ℕ)
    → t < now + duration
    → check
        (add_with_geo c ip rule proxy session decision duration geo now created)
        ip
        rule
        session
        t
      ≡ (true, decision)
unfolding check add_with_geo
check-add_with_geo_self c ip rule proxy session decision duration geo now created t h =
    rw (lookup-insert_self (build_key ip rule session)) (ground arith)
