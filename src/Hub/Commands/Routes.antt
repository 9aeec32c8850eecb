-- ===== src/Hub/Commands/Routes.antt =====
-- pkg/hub/server/mobile_server.go and node_server.go: where commands go and where their answers come from.
use nitella.Base.{ℕ, ◌<◌, String, ◌≡◌, sym, ap, ◌∙◌, some, List}
use nitella.Hub.Commands.Steps.{send_command-lem, receive-lem, forward-lem}
use nitella.Hub.Commands.Senders.{
  HasSenders, start-HasSenders, take-HasSenders, end-HasSenders, respond-HasSenders,
  send_command-HasSenders, set_stream-HasSenders, open-HasSenders, end_stream-HasSenders,
}
use nitella.Hub.Commands.Queues.{
  HasQueues, IsFor, start-HasQueues, open-HasQueues, receive-HasQueues, forward-HasQueues,
  end_stream-HasQueues, send_command-HasQueues, respond-HasQueues, take-HasQueues, finish-HasQueues,
  receive-IsFor,
}
use nitella.Hub.Commands.Streams.{
  HasStreams, start-HasStreams, set_stream-HasStreams, send_to-HasStreams, open-HasStreams,
  end-HasStreams, respond-HasStreams, take-HasStreams, finish-HasStreams,
}
use nitella.Hub.Commands.{
  Command, CommandRequest, CommandResponse, CommandServer, node_by_token, new_server, open_stream,
  received, receive, end_stream, send_command, forward, respond, take_response, end_sender,
}

module _ {Payload : Type 0} (nodes : List (String × String)) (blank : Command Payload) where
  -- A server after some steps of streams and senders, with a fixed table of nodes.
  pub data Reach : CommandServer Payload → Type 0 where
    start : Reach (new_server blank)
    opens : (s : CommandServer Payload) (node_id : String) → Reach s → Reach (open_stream s node_id)
    receives : (s : CommandServer Payload) (c : ℕ) → Reach s → Reach (receive s c).0
    ends : (s : CommandServer Payload) (c : ℕ) → Reach s → Reach (end_stream s c).0
    sends :
        (s : CommandServer Payload) (req : CommandRequest Payload) (cmd_id : String)
        → Reach s
        → Reach (send_command nodes s req cmd_id).0
    forwards :
        (s : CommandServer Payload) (i : ℕ) → i < s.next_sender → Reach s → Reach (forward s i).0
    responds :
        (s : CommandServer Payload) (resp : CommandResponse Payload)
        → Reach s
        → Reach (respond s resp).0
    takes : (s : CommandServer Payload) (i : ℕ) → Reach s → Reach (take_response s i).0
    finishes : (s : CommandServer Payload) (i : ℕ) → Reach s → Reach (end_sender s i)

  Reach-HasStreams : {s : CommandServer Payload} → Reach s → HasStreams nodes s
  Reach-HasStreams start = start-HasStreams nodes blank
  Reach-HasStreams (opens s node_id r) = open-HasStreams nodes s node_id (Reach-HasStreams r)
  Reach-HasStreams (receives s c r) =
      receive-lem (HasStreams nodes) s c (set_stream-HasStreams nodes) (Reach-HasStreams r)
  Reach-HasStreams (ends s c r) = end-HasStreams nodes s c (Reach-HasStreams r)
  Reach-HasStreams (sends s req cmd_id r) =
      let h = Reach-HasStreams r in
      send_command-lem nodes (HasStreams nodes) s req cmd_id h (λ target found.
        send_to-HasStreams nodes s target req.routing_token req.encrypted cmd_id found h)
  Reach-HasStreams (forwards s i l r) =
      forward-lem (HasStreams nodes) s i (set_stream-HasStreams nodes) (Reach-HasStreams r)
  Reach-HasStreams (responds s resp r) = respond-HasStreams nodes s resp (Reach-HasStreams r)
  Reach-HasStreams (takes s i r) = take-HasStreams nodes s i (Reach-HasStreams r)
  Reach-HasStreams (finishes s i r) = finish-HasStreams nodes s i (Reach-HasStreams r)

  Reach-HasSenders : {s : CommandServer Payload} → Reach s → HasSenders s
  Reach-HasSenders start = start-HasSenders blank
  Reach-HasSenders (opens s node_id r) = open-HasSenders s node_id (Reach-HasSenders r)
  Reach-HasSenders (receives s c r) =
      receive-lem HasSenders s c set_stream-HasSenders (Reach-HasSenders r)
  Reach-HasSenders (ends s c r) = end_stream-HasSenders s c (Reach-HasSenders r)
  Reach-HasSenders (sends s req cmd_id r) =
      send_command-HasSenders nodes s req cmd_id (Reach-HasSenders r)
  Reach-HasSenders (forwards s i l r) =
      forward-lem HasSenders s i set_stream-HasSenders (Reach-HasSenders r)
  Reach-HasSenders (responds s resp r) = respond-HasSenders s resp (Reach-HasSenders r)
  Reach-HasSenders (takes s i r) = take-HasSenders s i (Reach-HasSenders r)
  Reach-HasSenders (finishes s i r) = end-HasSenders s i (Reach-HasSenders r)

  Reach-HasQueues : {s : CommandServer Payload} → Reach s → HasQueues nodes s
  Reach-HasQueues start = start-HasQueues nodes blank
  Reach-HasQueues (opens s node_id r) = open-HasQueues nodes s node_id (Reach-HasQueues r)
  Reach-HasQueues (receives s c r) = receive-HasQueues nodes s c (Reach-HasQueues r)
  Reach-HasQueues (ends s c r) = end_stream-HasQueues nodes s c (Reach-HasQueues r)
  Reach-HasQueues (sends s req cmd_id r) =
      send_command-HasQueues nodes s req cmd_id (Reach-HasQueues r)
  Reach-HasQueues (forwards s i l r) =
      forward-HasQueues nodes s i l (Reach-HasStreams r) (Reach-HasQueues r)
  Reach-HasQueues (responds s resp r) = respond-HasQueues nodes s resp (Reach-HasQueues r)
  Reach-HasQueues (takes s i r) = take-HasQueues nodes s i (Reach-HasQueues r)
  Reach-HasQueues (finishes s i r) = finish-HasQueues nodes s i (Reach-HasQueues r)

  -- In every state that streams and senders reach, with a fixed table of nodes: a command that a stream sends on is one
  -- that a sender has sent with a routing token of the stream's node, a sender's channel is one of a stream of the node of
  -- its token, and the response that a sender takes, if there is one, is a response to its command.
  pub Reach-routed :
      (s : CommandServer Payload)
      → Reach s
      → ((c : ℕ) (cmd : Command Payload)
          → (receive s c).1 ≡ received cmd
          → IsFor nodes s (s.streams c).node_id cmd)
        × ((i : ℕ)
            → i < s.next_sender
            → node_by_token nodes (s.senders i).routing_token
              ≡ some (s.streams (s.senders i).cmd_ch).node_id)
        × ((i : ℕ) (resp : CommandResponse Payload)
            → (take_response s i).1 ≡ some resp
            → resp.command_id ≡ (s.senders i).cmd.id)
  unfolding take_response
  Reach-routed s r = (
    λ c cmd e. receive-IsFor nodes s c cmd (Reach-HasQueues r) e,
    λ i l. let (below, at, owned) = (Reach-HasStreams r).held i l in owned ∙ ap some (sym at),
    λ i resp e. (Reach-HasSenders r).answered i resp e,
  )
