-- ===== src/Node/Approval/Cache/Bytes.antt =====
-- pkg/node/approval.go: the bytes of a decision, and an entry as its connections come and go.
use nitella.Base.{
  ◌^◌, ℕ, ◌+◌, ◌%◌, ◌<◌, String, ◌≡◌, inl, inr, false, Option, none, some, [], ◌∷◌, arith, leb,
  str_eq, str_eq_iff, Bool-cases,
}
use nitella.Base.Map
use nitella.Base.Map.{
  IsDistinct, Map, lookup-insert, lookup-erase, lookup-retain, lookup-insert_self, lookup-insert_ne,
  lookup-erase_self, lookup-erase_ne,
}
use nitella.Node.Approval.Key.{build_key}
use nitella.Node.Approval.Cache.{
  ApprovalEntry, ApprovalCache, LiveConnStats, set_conn_id, remove_conn_id, update_bytes,
  update_entry, max_conn_ids_per_approval, add_live, with_live_bytes, load, add64, get_entry,
}

-- The sum of a counter over the live connections.
abbrev sum_live : (LiveConnStats → ℕ) → Map LiveConnStats → ℕ
sum_live read [] = 0
sum_live read ((_, stats) ∷ m) = read stats + sum_live read m

add_live_sum :
    (read : LiveConnStats → ℕ) (total : ℕ) (m : Map LiveConnStats)
    → total < 2 ^ 64
    → add_live read total m ≡ (total + sum_live read m) % 2 ^ 64
unfolding add_live
add_live_sum read total [] h = omega arith
add_live_sum read total ((k, stats) ∷ m) h =
    let e = add_live_sum read (add64 total (read stats)) m (omega arith) in omega arith

sum_live-erase :
    (read : LiveConnStats → ℕ) (conn_id : String) (stats : LiveConnStats) (m : Map LiveConnStats)
    → IsDistinct m
    → Map.lookup conn_id m ≡ some stats
    → sum_live read m ≡ read stats + sum_live read (Map.erase conn_id m)
unfolding Map.lookup Map.erase
sum_live-erase read conn_id stats [] d h = grind arith
sum_live-erase read conn_id stats ((k, s) ∷ m) d h = elim (Bool-cases (str_eq k conn_id)) [
  | inl e ↦ grind (arith, str_eq_iff k conn_id, Map.erase_absent conn_id m)
  | inr e ↦ grind (arith, sum_live-erase read conn_id stats m)
]

live_bytes_close :
    (read : LiveConnStats → ℕ) (total : ℕ) (conn_id : String) (stats : LiveConnStats)
    (m : Map LiveConnStats)
    → total < 2 ^ 64
    → IsDistinct m
    → Map.lookup conn_id m ≡ some stats
    → add_live read (add64 total (read stats)) (Map.erase conn_id m) ≡ add_live read total m
live_bytes_close read total conn_id stats m h d l =
    let e = add_live_sum read total m h in
    let e' = add_live_sum read (add64 total (read stats)) (Map.erase conn_id m) (omega arith) in
    let s = sum_live-erase read conn_id stats m d l in omega arith

update_entry_stored :
    (c : ApprovalCache) (key : String) (f : ApprovalEntry → ApprovalEntry) (e : ApprovalEntry)
    → Map.lookup key c.entries ≡ some e
    → Map.lookup key (update_entry c key f).entries ≡ some (f e)
unfolding update_entry
update_entry_stored c key f e stored =
    rw (stored, update_entry) (lookup-insert_self key (f e) c.entries)

pub get_entry-close :
    (c : ApprovalCache) (e : ApprovalEntry) (ip rule session conn_id : String)
    (bytes_in bytes_out : ℕ)
    → get_entry c ip rule session ≡ some e
    → get_entry
        (remove_conn_id (update_bytes c ip rule session bytes_in bytes_out) ip rule session conn_id)
        ip
        rule
        session
      ≡ some (record e {
        bytes_in = add64 e.bytes_in bytes_in;
        bytes_out = add64 e.bytes_out bytes_out;
        live_conns = Map.erase conn_id e.live_conns;
      })
unfolding get_entry remove_conn_id update_bytes
get_entry-close c e ip rule session conn_id bytes_in bytes_out stored =
    update_entry_stored _ (build_key ip rule session) _ _
      (update_entry_stored c (build_key ip rule session) _ e stored)

not_full :
    (m : Map LiveConnStats)
    → Map.size m < max_conn_ids_per_approval
    → leb max_conn_ids_per_approval (Map.size m) ≡ false
not_full m h = ground arith

pub get_entry-set_conn_id :
    (c : ApprovalCache) (e : ApprovalEntry) (ip rule session conn_id : String)
    (stats : LiveConnStats)
    → get_entry c ip rule session ≡ some e
    → Map.size e.live_conns < max_conn_ids_per_approval
    → get_entry (set_conn_id c ip rule session conn_id stats).0 ip rule session
      ≡ some (record e { live_conns = Map.insert conn_id stats e.live_conns })
unfolding get_entry set_conn_id
get_entry-set_conn_id c e ip rule session conn_id stats stored room =
    rw (stored, set_conn_id, not_full e.live_conns room)
      (lookup-insert_self (build_key ip rule session) _ c.entries)

-- The two counts of bytes that `GetActiveApprovals` shows for a decision.
abbrev pub shown_bytes : (ℕ → ℕ) → Option ApprovalEntry → Option (ℕ × ℕ)
shown_bytes counters none = none
shown_bytes counters (some e) =
    some ((with_live_bytes counters e).bytes_in, (with_live_bytes counters e).bytes_out)

-- When a connection of a decision closes, its counters are added to the decision and it leaves the live
-- ones: the bytes that are shown for the decision stay what they were, when the counts are 64-bit
-- numbers and no connection is listed twice.
pub shown_bytes-close :
    (counters : ℕ → ℕ) (c : ApprovalCache) (e : ApprovalEntry) (ip rule session conn_id : String)
    (stats : LiveConnStats)
    → get_entry c ip rule session ≡ some e
    → e.bytes_in < 2 ^ 64
    → e.bytes_out < 2 ^ 64
    → IsDistinct e.live_conns
    → Map.lookup conn_id e.live_conns ≡ some stats
    → shown_bytes counters (
        get_entry
          (remove_conn_id
            (update_bytes c ip rule session
              (load counters stats.bytes_in)
              (load counters stats.bytes_out))
            ip
            rule
            session
            conn_id)
          ip
          rule
          session)
      ≡ shown_bytes counters (get_entry c ip rule session)
unfolding with_live_bytes
shown_bytes-close counters c e ip rule session conn_id stats stored h h' d l = rw (
  get_entry-close c e ip rule session conn_id (load counters stats.bytes_in)
      (load counters stats.bytes_out) stored,
  stored,
  live_bytes_close (λ s. load counters s.bytes_in) e.bytes_in conn_id stats e.live_conns h d l,
  live_bytes_close (λ s. load counters s.bytes_out) e.bytes_out conn_id stats e.live_conns h' d l,
)
