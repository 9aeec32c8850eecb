-- ===== src/Hub/Commands/Examples.antt =====
-- pkg/hub/server: one node, one command, and a node that connects again.
use nitella.Base.{ℕ, ◌<◌, String, ◌≡◌, refl, some, List, [], ◌∷◌, arith}
use nitella.Base.Map
use nitella.Base.Map.{
  Map, lookup-insert, lookup-erase, lookup-retain, lookup-insert_self, lookup-insert_ne,
  lookup-erase_self, lookup-erase_ne,
}
use nitella.Hub.Commands.{
  Command, CommandRequest, CommandResponse, CommandServer, failed, offline, panicked, received,
  node_by_token, new_server, open_stream, receive, add_sender, send_to, send_command, forward,
  respond, take_response,
}
use nitella.Hub.Commands.Queues.{IsFor}
use nitella.Hub.Commands.Routes.{start, opens, sends, forwards, responds, Reach-routed}
use nitella.Hub.Commands.Replaced.{forward-replaced}

abbrev blank : Command ℕ
blank = record { id = ""; encrypted = 0 }

abbrev nodes : List (String × String)
nodes = ("n", "t") ∷ []

abbrev request : CommandRequest ℕ
request = record { node_id = ""; routing_token = "t"; encrypted = some 7 }

abbrev answer : CommandResponse ℕ
answer = record { command_id = "c"; encrypted_data = some 8 }

abbrev connected : CommandServer ℕ
connected = open_stream (new_server blank) "n"

abbrev asked : CommandServer ℕ
asked = (send_command nodes connected request "c").0

abbrev answered : CommandServer ℕ
answered = (respond (forward asked 0).0 answer).0

-- the stream gets the command, and the sender its answer
relayed :
    ((receive (forward asked 0).0 0).1 ≡ received (record { id = "c"; encrypted = 7 }))
    × ((take_response answered 0).1 ≡ some answer)
unfolding open_stream new_server send_command node_by_token send_to add_sender forward receive
    respond take_response Map.lookup Map.insert Map.erase
relayed = (refl, refl)

-- without a stream the node is offline
not_connected : (send_command nodes (new_server blank) request "c").1 ≡ failed offline
unfolding new_server send_command node_by_token send_to Map.lookup
not_connected = refl

one_sender : 0 < asked.next_sender
unfolding open_stream new_server send_command node_by_token send_to add_sender Map.lookup Map.insert
one_sender = omega arith

Reach-routed_example :
    ((c : ℕ) (cmd : Command ℕ)
      → (receive answered c).1 ≡ received cmd
      → IsFor nodes answered (answered.streams c).node_id cmd)
    × ((i : ℕ)
        → i < answered.next_sender
        → node_by_token nodes (answered.senders i).routing_token
          ≡ some (answered.streams (answered.senders i).cmd_ch).node_id)
    × ((i : ℕ) (resp : CommandResponse ℕ)
        → (take_response answered i).1 ≡ some resp
        → resp.command_id ≡ (answered.senders i).cmd.id)
Reach-routed_example = Reach-routed nodes blank answered (
    responds (forward asked 0).0 answer (
      forwards asked 0 one_sender
        (sends connected request "c" (opens (new_server blank) "n" start))))

registered_channel :
    (Map.lookup (asked.senders 0).target asked.node_command_chans ≡ some (asked.senders 0).cmd_ch)
    × ((asked.senders 0).cmd_ch < asked.next_stream)
    × (0 < connected.next_stream)
unfolding open_stream new_server send_command node_by_token send_to add_sender Map.lookup Map.insert
registered_channel = (refl, omega arith, omega arith)

forward-replaced_example : (forward (open_stream asked (asked.senders 0).target) 0).1 ≡ panicked
forward-replaced_example = forward-replaced asked 0 registered_channel.0 registered_channel.1
