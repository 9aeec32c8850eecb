-- ===== src/Node/Listener/Leftovers.antt =====
-- pkg/node/listener.go: what a connection that an administrator let pass leaves in the approvals.
use nitella.Base.{
  ℕ, ◌<◌, String, ◌≡◌, inl, inr, true, Option, none, some, if◌then◌else◌, Bool-cases,
}
use nitella.Base.Map
use nitella.Base.Map.{
  Map, lookup-insert, lookup-erase, lookup-retain, lookup-insert_self, lookup-insert_ne,
  lookup-erase_self, lookup-erase_ne,
}
use nitella.Node.Approval.Cache.{ApprovalEntry, LiveConnStats, get_entry, max_conn_ids_per_approval}
use nitella.Node.Approval.Cache.Bytes.{get_entry-close, get_entry-set_conn_id}
use nitella.Node.Approval.Manager.{ApprovalManager}
use nitella.Node.Approval.Manager.Stored.{update_bytes, remove_conn_id, set_conn_id}
use nitella.Node.Listener.Decision.{Applicant, apply_cached}
use nitella.Node.Listener.Ending.{Ending, is_forwarded, settle}

-- The counters of a live connection of a decision.
abbrev pub live_in : Option ApprovalEntry → String → Option LiveConnStats
live_in none conn_id = none
live_in (some e) conn_id = Map.lookup conn_id e.live_conns

-- A connection that passes by a stored decision with room for it is off the live connections of the
-- decision when the handler has forwarded it; if it was not forwarded, since there is no backend or the
-- backend does not answer, it stays among them after its end.
pub settle-apply_cached :
    (am : ApprovalManager) (a : Applicant) (e : ApprovalEntry) (end : Ending)
    (bytes_in bytes_out : ℕ)
    → get_entry am.cache a.source_ip a.rule_id a.session ≡ some e
    → Map.size e.live_conns < max_conn_ids_per_approval
    → live_in
        (get_entry
          (settle (apply_cached am a true) a end bytes_in bytes_out).cache
          a.source_ip
          a.rule_id
          a.session)
        a.conn_id
      ≡ (if is_forwarded end then none else some a.counters)
unfolding settle apply_cached update_bytes remove_conn_id set_conn_id
settle-apply_cached am a e end bytes_in bytes_out stored room =
    let tracked =
      get_entry-set_conn_id am.cache e a.source_ip a.rule_id a.session a.conn_id a.counters stored
        room in
    elim (Bool-cases (is_forwarded end)) [
      | inl passed ↦
          rw
            (
              passed,
              get_entry-close _ _ a.source_ip a.rule_id a.session a.conn_id bytes_in bytes_out
                  tracked,
            )
            (lookup-erase_self a.conn_id (Map.insert a.conn_id a.counters e.live_conns))
      | inr stayed ↦ rw (stayed, tracked) (lookup-insert_self a.conn_id a.counters e.live_conns)
    ]
