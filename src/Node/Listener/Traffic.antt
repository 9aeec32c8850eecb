-- ===== src/Node/Listener/Traffic.antt =====
-- pkg/node/listener.go: the connections of a listener and its counters of bytes, which are int64 and kept
-- as bit patterns. A connection's own counters are given by what they hold.

use nitella.Base.{
  ◌^◌, ℕ, ◌+◌, ◌-◌, ◌*◌, ◌%◌, String, Bool, true, false, not, ◌&&◌, Option, none, some, List, [],
  ◌∷◌, ltb, if◌then◌else◌, str_eq,
}
use nitella.Base.Map
use nitella.Base.Map.{
  Map, lookup-insert, lookup-erase, lookup-retain, lookup-insert_self, lookup-insert_ne,
  lookup-erase_self, lookup-erase_ne,
}

abbrev pub add64 : ℕ → ℕ → ℕ
add64 a b = (a + b) % 2 ^ 64

pub record ConnectionMetadata : Type 0 where
  pub source_ip : String
  pub source_port : ℕ
  pub dest_addr : String
  pub start_time : ℕ
  pub bytes_in : ℕ
  pub bytes_out : ℕ
  pub closed : Bool

pub record Traffic : Type 0 where
  pub conns : Map ConnectionMetadata
  pub active_conns : ℕ
  pub total_conns : ℕ
  pub bytes_in : ℕ
  pub bytes_out : ℕ

unfoldable pub new_traffic : Traffic
new_traffic = record { conns = []; active_conns = 0; total_conns = 0; bytes_in = 0; bytes_out = 0 }

-- A connection is tracked at the start of `handleConn`.
unfoldable pub open_conn : Traffic → String → String → ℕ → ℕ → Traffic
open_conn t conn_id source_ip source_port now = record t {
  conns =
      Map.insert conn_id
        (record {
          source_ip = source_ip;
          source_port = source_port;
          dest_addr = "";
          start_time = now;
          bytes_in = 0;
          bytes_out = 0;
          closed = false;
        })
        t.conns;
}

-- A change of a connection through its pointer.
unfoldable pub change_conn : Traffic → String → (ConnectionMetadata → ConnectionMetadata) → Traffic
change_conn t conn_id f = elim (Map.lookup conn_id t.conns) [
  | none ↦ t
  | some c ↦ record t { conns = Map.insert conn_id (f c) t.conns }
]

-- The backend of a connection is known.
unfoldable pub set_dest : Traffic → String → String → Traffic
unfolding change_conn
set_dest t conn_id dest_addr = change_conn t conn_id (λ c. record c { dest_addr = dest_addr })

-- Bytes pass over a connection.
unfoldable pub copy_in : Traffic → String → ℕ → Traffic
unfolding change_conn
copy_in t conn_id n = change_conn t conn_id (λ c. record c { bytes_in = add64 c.bytes_in n })

unfoldable pub copy_out : Traffic → String → ℕ → Traffic
unfolding change_conn
copy_out t conn_id n = change_conn t conn_id (λ c. record c { bytes_out = add64 c.bytes_out n })

-- `incrementActiveConns`
unfoldable pub increment_active_conns : Traffic → Traffic
increment_active_conns t = record t {
  active_conns = add64 t.active_conns 1;
  total_conns = add64 t.total_conns 1;
}

-- `decrementActiveConns`
unfoldable pub decrement_active_conns : Traffic → Traffic
decrement_active_conns t = record t { active_conns = (t.active_conns + 2 ^ 64 - 1) % 2 ^ 64 }

-- `addBytesIn`, for all that one direction has copied when it ends.
unfoldable pub add_bytes_in : Traffic → ℕ → Traffic
add_bytes_in t n = record t { bytes_in = add64 t.bytes_in n }

-- `addBytesOut`
unfoldable pub add_bytes_out : Traffic → ℕ → Traffic
add_bytes_out t n = record t { bytes_out = add64 t.bytes_out n }

-- The connection is no longer tracked when the handler is over.
unfoldable pub drop_conn : Traffic → String → Traffic
drop_conn t conn_id = record t { conns = Map.erase conn_id t.conns }

-- The bytes that the tracked connections add.
unfoldable pub add_conns : (ConnectionMetadata → ℕ) → ℕ → Map ConnectionMetadata → ℕ
add_conns read total [] = total
add_conns read total ((_, c) ∷ m) = add_conns read (add64 total (read c)) m

-- The counters of `GetStatus`.
unfoldable pub status_bytes : Traffic → ℕ × ℕ
unfolding add_conns
status_bytes t = (
  add_conns (λ c. c.bytes_in) t.bytes_in t.conns,
  add_conns (λ c. c.bytes_out) t.bytes_out t.conns,
)

-- `CloseConnection`: the connection is closed and its handler is left to drop it.
unfoldable pub close_connection : Traffic → String → String → String → Traffic × Bool
unfolding change_conn
close_connection t own_id proxy_id conn_id =
    if not (str_eq proxy_id "") && not (str_eq proxy_id own_id)
    then (t, false)
    else elim (Map.lookup conn_id t.conns) [
      | none ↦ (t, false)
      | some c ↦ (change_conn t conn_id (λ c. record c { closed = true }), true)
    ]

close_all : Map ConnectionMetadata → Map ConnectionMetadata
close_all [] = []
close_all ((k, c) ∷ m) = (k, record c { closed = true }) ∷ close_all m

-- `CloseAllConnections`
unfoldable pub close_all_connections : Traffic → Traffic
unfolding close_all
close_all_connections t = record t { conns = close_all t.conns }

-- `GetConnectionBytes`
unfoldable pub get_connection_bytes : Traffic → String → Option (ℕ × ℕ)
get_connection_bytes t conn_id = elim (Map.lookup conn_id t.conns) [
  | none ↦ none
  | some c ↦ some (c.bytes_in, c.bytes_out)
]

-- The times of an address in the history of the tarpit that are not too old.
fresh_times : ℕ → List ℕ → List ℕ
fresh_times now [] = []
fresh_times now (t ∷ ts) =
    if ltb (now - t) (3600 * 1000000000) then t ∷ fresh_times now ts else fresh_times now ts

-- `cleanupTarpitHistory`
unfoldable pub cleanup_tarpit_history : ℕ → Map (List ℕ) → Map (List ℕ)
unfolding fresh_times
cleanup_tarpit_history now [] = []
cleanup_tarpit_history now ((ip, times) ∷ m) = elim (fresh_times now times) [
  | [] ↦ cleanup_tarpit_history now m
  | t ∷ ts ↦ (ip, t ∷ ts) ∷ cleanup_tarpit_history now m
]
