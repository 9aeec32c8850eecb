-- ===== src/Hub/Pairing/Examples.antt =====
-- pkg/hub/server/pairing_server.go: sessions with two sides, and one that is taken off the map by a stranger.
use nitella.Base.{ℕ, ◌≤◌, String, ◌≡◌, refl, List, [], ◌∷◌, ◌++◌, arith, length}
use nitella.Base.Map
use nitella.Base.Map.{
  Map, lookup-insert, lookup-erase, lookup-retain, lookup-insert_self, lookup-insert_ne,
  lookup-erase_self, lookup-erase_ne,
}
use nitella.Hub.Pairing.{
  Role, cli, node, PakeSession, PairingServer, Joined, joined, refused, already_connected,
  code_too_long, bad_role, JoinError, new_session, new_pairing_server, channel, has_joined,
  mark_joined, get_or_create, join, relay, receive, leave, cleanup, open_exchange,
}
use nitella.Hub.Pairing.Relay.{
  Reach, Reach-in_order, sent_to, taken_by, put, took, made, joining, relayed, received, Transfer,
}
use nitella.Hub.Pairing.Seats.{answer_to, Live, Live-one_seat}
use nitella.Hub.Pairing.Flags.{seated, Stream}

-- messages are numbers
abbrev server : PairingServer ℕ
server = new_pairing_server

abbrev one : PairingServer ℕ
one = (join server "c" cli "u1" "" 5).0

abbrev both : PairingServer ℕ
both = (join one "c" node "" "" 6).0

abbrev spoken : PairingServer ℕ
spoken = (relay (relay both 0 cli 10).0 0 cli 11).0

abbrev heard : PairingServer ℕ
heard = (receive spoken 0 node).0

abbrev log : List (Transfer ℕ)
log = took 0 node 10 ∷ put 0 cli 11 ∷ put 0 cli 10 ∷ []

heard-Reach : Reach heard log
unfolding join get_or_create mark_joined relay receive new_pairing_server
    nitella.Hub.Pairing.safe_send Map.lookup Map.insert
heard-Reach = received spoken _ 0 node (
    relayed (relay both 0 cli 10).0 _ 0 cli 11 (omega arith) (
      relayed both _ 0 cli 10 (omega arith)
        (joining one _ "c" node "" "" 6 (joining server _ "c" cli "u1" "" 5 made))))

Reach-in_order_example :
    (sent_to 0 node log ≡ taken_by 0 node log ++ channel node (heard.heap 0))
    × (length (channel node (heard.heap 0)) ≤ 10)
Reach-in_order_example = Reach-in_order heard log 0 node heard-Reach

waits : channel node (heard.heap 0) ≡ 11 ∷ []
unfolding join get_or_create mark_joined relay receive new_pairing_server
    nitella.Hub.Pairing.safe_send Map.lookup Map.insert
waits = refl

abbrev streams : List Stream
streams = (0, node) ∷ (0, cli) ∷ []

both-Live : Live both streams
unfolding join get_or_create mark_joined new_pairing_server Map.lookup Map.insert
both-Live = Live.joining one _ "c" node "" "" 6 (Live.joining server _ "c" cli "u1" "" 5 Live.made)

Live-one_seat_example :
    (seated 0 cli streams ≤ 1)
    × ((code user peer : String) (now : ℕ)
        → (join both code cli user peer now).1 ≡ answer_to both streams code cli)
Live-one_seat_example = Live-one_seat both streams 0 cli both-Live

second_refused : (join both "c" cli "u2" "" 7).1 ≡ refused already_connected
unfolding join get_or_create mark_joined new_pairing_server Map.lookup Map.insert
second_refused = refl

bad_requests : (open_exchange server "c" 1 "admin" "" "" 0).1 ≡ refused bad_role
unfolding open_exchange nitella.Hub.Pairing.role_of
bad_requests = refl

-- the first session expires, its code is used again, and only then does the first stream end
abbrev reused : PairingServer ℕ
reused = (join (cleanup one 400000000000) "c" cli "u2" "" 400000000001).0

-- while the second stream is connected, a third one gets a session of its own under the code
code_lost : (join (leave reused 0 cli "c") "c" cli "u3" "" 400000000002).1 ≡ joined 2 cli
unfolding join get_or_create mark_joined leave cleanup new_pairing_server Map.lookup Map.insert
    Map.erase Map.retain
code_lost = refl
