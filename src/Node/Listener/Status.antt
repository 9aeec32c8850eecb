-- ===== src/Node/Listener/Status.antt =====
-- pkg/node/listener.go: what the counters of the status say of a connection during its life.
use nitella.Base.{
  ◌^◌, ℕ, ◌+◌, ◌%◌, ◌<◌, String, ◌≡◌, inl, inr, some, [], ◌∷◌, arith, str_eq, str_eq_iff,
  Bool-cases,
}
use nitella.Base.Map
use nitella.Base.Map.{
  IsDistinct, Map, lookup-insert, lookup-erase, lookup-retain, lookup-insert_self, lookup-insert_ne,
  lookup-erase_self, lookup-erase_ne,
}
use nitella.Node.Listener.Traffic.{
  add64, ConnectionMetadata, Traffic, add_conns, status_bytes, add_bytes_in, drop_conn,
}

-- The sum of a counter over the tracked connections.
abbrev sum_conns : (ConnectionMetadata → ℕ) → Map ConnectionMetadata → ℕ
sum_conns read [] = 0
sum_conns read ((_, c) ∷ m) = read c + sum_conns read m

add_conns_sum :
    (read : ConnectionMetadata → ℕ) (total : ℕ) (m : Map ConnectionMetadata)
    → total < 2 ^ 64
    → add_conns read total m ≡ (total + sum_conns read m) % 2 ^ 64
unfolding add_conns
add_conns_sum read total [] h = omega arith
add_conns_sum read total ((k, c) ∷ m) h =
    let e = add_conns_sum read (add64 total (read c)) m (omega arith) in omega arith

sum_conns-erase :
    (read : ConnectionMetadata → ℕ) (conn_id : String) (c : ConnectionMetadata)
    (m : Map ConnectionMetadata)
    → IsDistinct m
    → Map.lookup conn_id m ≡ some c
    → sum_conns read m ≡ read c + sum_conns read (Map.erase conn_id m)
unfolding Map.lookup Map.erase
sum_conns-erase read conn_id c [] d h = grind arith
sum_conns-erase read conn_id c ((k, s) ∷ m) d h = elim (Bool-cases (str_eq k conn_id)) [
  | inl e ↦ grind (arith, str_eq_iff k conn_id, Map.erase_absent conn_id m)
  | inr e ↦ grind (arith, sum_conns-erase read conn_id c m)
]

-- When the bytes that come in are all copied they are added to the listener's counter, and from then
-- until the handler is over the status counts them twice; when the connection is dropped the status
-- is again what it was before they were added, when the counter is a 64-bit number and no connection is
-- listed twice.
pub status_bytes-add_bytes_in :
    (t : Traffic) (conn_id : String) (c : ConnectionMetadata)
    → t.bytes_in < 2 ^ 64
    → IsDistinct t.conns
    → Map.lookup conn_id t.conns ≡ some c
    → ((status_bytes (add_bytes_in t c.bytes_in)).0 ≡ add64 (status_bytes t).0 c.bytes_in)
      × ((status_bytes (drop_conn (add_bytes_in t c.bytes_in) conn_id)).0 ≡ (status_bytes t).0)
unfolding status_bytes add_bytes_in drop_conn
status_bytes-add_bytes_in t conn_id c h d stored =
    let read = λ (c : ConnectionMetadata). c.bytes_in in
    let before = add_conns_sum read t.bytes_in t.conns h in
    let during = add_conns_sum read (add64 t.bytes_in c.bytes_in) t.conns (omega arith) in
    let after =
      add_conns_sum read (add64 t.bytes_in c.bytes_in) (Map.erase conn_id t.conns) (omega arith) in
    let sum = sum_conns-erase read conn_id c t.conns d stored in (omega arith, omega arith)
