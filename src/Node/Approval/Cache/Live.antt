-- ===== src/Node/Approval/Cache/Live.antt =====
-- pkg/node/approval.go: the live connections of a decision, their number and their bytes.
use nitella.Base.{
  ℕ, ◌≤◌, String, inl, inr, Bool, true, false, not, Option, none, some, List, [], ◌∷◌, arith, ltb,
  leb, if◌then◌else◌, str_eq, Bool-cases, Option-cases,
}
use nitella.Base.Map
use nitella.Base.Map.{
  length-erase-le, size-insert-le, Map, lookup-insert, lookup-erase, lookup-retain,
  lookup-insert_self, lookup-insert_ne, lookup-erase_self, lookup-erase_ne,
}
use mathlib.Core.Path.{subst}
use nitella.Node.Approval.Key.{build_key}
use nitella.Node.Approval.Cache.{
  ApprovalEntry, ApprovalCache, LiveConnStats, Geo, add_with_geo, remove, cleanup, set_conn_id,
  remove_conn_id, increment_blocked_count, update_bytes, update_entry, set_connection_closer,
  max_conn_ids_per_approval,
}

-- The calls that change a cache.
pub data Call : Type 0 where
  add_call :
      (ip rule proxy session : String) (decision : Bool) (duration : ℕ) (geo : Geo)
      (now created : ℕ)
      → Call
  remove_call : (ip rule session : String) → Call
  set_call : (ip rule session conn_id : String) (stats : LiveConnStats) → Call
  close_call : (ip rule session conn_id : String) → Call
  block_call : (ip rule session : String) → Call
  bytes_call : (ip rule session : String) (bytes_in bytes_out : ℕ) → Call
  cleanup_call : (now : ℕ) → Call
  closer_call : (closer : Bool) → Call

unfoldable pub step : ApprovalCache → Call → ApprovalCache
step c (add_call ip rule proxy session decision duration geo now created) =
    add_with_geo c ip rule proxy session decision duration geo now created
step c (remove_call ip rule session) = remove c ip rule session
step c (set_call ip rule session conn_id stats) = (set_conn_id c ip rule session conn_id stats).0
step c (close_call ip rule session conn_id) = remove_conn_id c ip rule session conn_id
step c (block_call ip rule session) = increment_blocked_count c ip rule session
step c (bytes_call ip rule session bytes_in bytes_out) =
    update_bytes c ip rule session bytes_in bytes_out
step c (cleanup_call now) = (cleanup c now).0
step c (closer_call closer) = set_connection_closer c closer

unfoldable pub run : ApprovalCache → List Call → ApprovalCache
unfolding step
run c [] = c
run c (call ∷ calls) = run (step c call) calls

-- Few enough live connections.
abbrev pub IsCapped : Option ApprovalEntry → Type 0
IsCapped none = Unit
IsCapped (some e) = Map.size e.live_conns ≤ max_conn_ids_per_approval

IsCapped-if :
    (b : Bool) (x y : Option ApprovalEntry)
    → IsCapped x
    → IsCapped y
    → IsCapped (if b then x else y)
IsCapped-if true x y h k = h
IsCapped-if false x y h k = k

IsCapped-keep :
    (keep : ApprovalEntry → Bool) (x : Option ApprovalEntry)
    → IsCapped x
    → IsCapped (Map.keep_if keep x)
IsCapped-keep keep none h = tt
IsCapped-keep keep (some e) h = IsCapped-if (keep e) (some e) none h tt

update_entry-IsCapped :
    (c : ApprovalCache) (key : String) (f : ApprovalEntry → ApprovalEntry) (k : String)
    → ((e : ApprovalEntry)
        → Map.size e.live_conns ≤ max_conn_ids_per_approval
        → Map.size (f e).live_conns ≤ max_conn_ids_per_approval)
    → ((k : String) → IsCapped (Map.lookup k c.entries))
    → IsCapped (Map.lookup k (update_entry c key f).entries)
unfolding update_entry
update_entry-IsCapped c key f k g h = elim (Option-cases (Map.lookup key c.entries)) [
  | inl e ↦ rw (e, update_entry) (h k)
  | inr (a, e) ↦
      rw (e, update_entry, lookup-insert key k (f a) c.entries)
        (IsCapped-if (str_eq key k) (some (f a)) _ (g a (subst IsCapped e (h key))) (h k))
]

set_conn_id-IsCapped :
    (c : ApprovalCache) (ip rule session conn_id : String) (stats : LiveConnStats) (k : String)
    → ((k : String) → IsCapped (Map.lookup k c.entries))
    → IsCapped (Map.lookup k (set_conn_id c ip rule session conn_id stats).0.entries)
unfolding set_conn_id
set_conn_id-IsCapped c ip rule session conn_id stats k h =
    elim (Option-cases (Map.lookup (build_key ip rule session) c.entries)) [
      | inl e ↦ rw (e, set_conn_id) (h k)
      | inr (a, e) ↦ elim (Bool-cases (leb max_conn_ids_per_approval (Map.size a.live_conns))) [
        | inl full ↦ rw (e, set_conn_id, full) (h k)
        | inr room ↦
            rw
              (
                e,
                set_conn_id,
                room,
                lookup-insert (build_key ip rule session) k
                    (record a { live_conns = Map.insert conn_id stats a.live_conns }) c.entries,
              )
              (IsCapped-if (str_eq (build_key ip rule session) k)
                (some (record a { live_conns = Map.insert conn_id stats a.live_conns })) _
                (ground (arith, size-insert-le conn_id stats a.live_conns)) (h k))
      ]
    ]

step-IsCapped :
    (c : ApprovalCache) (call : Call) (k : String)
    → ((k : String) → IsCapped (Map.lookup k c.entries))
    → IsCapped (Map.lookup k (step c call).entries)
unfolding step add_with_geo remove cleanup set_connection_closer remove_conn_id
    increment_blocked_count update_bytes
step-IsCapped c (add_call ip rule proxy session decision duration geo now created) k h =
    rw (lookup-insert (build_key ip rule session) k _ c.entries)
      (IsCapped-if (str_eq (build_key ip rule session) k) _ _ (omega arith) (h k))
step-IsCapped c (remove_call ip rule session) k h =
    rw (lookup-erase (build_key ip rule session) k c.entries)
      (IsCapped-if (str_eq (build_key ip rule session) k) none _ tt (h k))
step-IsCapped c (set_call ip rule session conn_id stats) k h =
    set_conn_id-IsCapped c ip rule session conn_id stats k h
step-IsCapped c (close_call ip rule session conn_id) k h =
    update_entry-IsCapped c (build_key ip rule session) _ k
      (λ e l. ground (arith, length-erase-le conn_id e.live_conns)) h
step-IsCapped c (block_call ip rule session) k h =
    update_entry-IsCapped c (build_key ip rule session) _ k (λ e l. l) h
step-IsCapped c (bytes_call ip rule session bytes_in bytes_out) k h =
    update_entry-IsCapped c (build_key ip rule session) _ k (λ e l. l) h
step-IsCapped c (cleanup_call now) k h =
    rw (lookup-retain (λ (e : ApprovalEntry). not (ltb e.expires_at now)) k c.entries)
      (IsCapped-keep _ (Map.lookup k c.entries) (h k))
step-IsCapped c (closer_call closer) k h = h k

-- No sequence of calls gives a decision more than 1000 live connections, if none had more before.
pub run-IsCapped :
    (c : ApprovalCache) (calls : List Call) (k : String)
    → ((k : String) → IsCapped (Map.lookup k c.entries))
    → IsCapped (Map.lookup k (run c calls).entries)
unfolding run
run-IsCapped c [] k h = h k
run-IsCapped c (call ∷ calls) k h =
    run-IsCapped (step c call) calls k (λ k. step-IsCapped c call k h)
