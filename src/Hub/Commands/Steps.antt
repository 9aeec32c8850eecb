-- ===== src/Hub/Commands/Steps.antt =====
-- pkg/hub/server: what a step of a sender or a stream preserves.
use nitella.Base.{
  ℕ, String, ◌≡◌, refl, inl, inr, not, ◌&&◌, some, List, ltb, length, str_eq, Bool-cases,
  Option-cases,
}
use nitella.Hub.Commands.Heap.{List-cases}
use nitella.Hub.Commands.{
  CommandRequest, NodeStream, CommandServer, node_by_token, set_stream, receive, send_to,
  send_command, forward,
}

module _ {Payload : Type 0} where
  -- What holds before a request holds after it, when it does after the sending to the node of the token.
  pub send_command-lem :
      (nodes : List (String × String)) (P : CommandServer Payload → Type 0)
      (s : CommandServer Payload) (req : CommandRequest Payload) (cmd_id : String)
      → P s
      → ((target : String)
          → node_by_token nodes req.routing_token ≡ some target
          → P (send_to s target req.routing_token req.encrypted cmd_id).0)
      → P (send_command nodes s req cmd_id).0
  unfolding send_command
  send_command-lem nodes P s req cmd_id h sent = elim (Bool-cases (str_eq req.routing_token "")) [
    | inl empty ↦ rw (empty) h
    | inr full ↦ elim (Option-cases (node_by_token nodes req.routing_token)) [
      | inl unknown ↦ rw (full, unknown, send_command) h
      | inr (target, found) ↦
          elim (Bool-cases (not (str_eq req.node_id "") && not (str_eq target req.node_id))) [
            | inl other ↦ rw (full, found, other, send_command) h
            | inr fine ↦ rw (full, found, fine, send_command) (sent target found)
          ]
    ]
  ]

  -- What a change of a stream that keeps its node preserves, the rounds of streams and senders preserve.
  abbrev pub Keeps : (CommandServer Payload → Type 0) → Type 0
  Keeps P =
      (s : CommandServer Payload) (c : ℕ) (v : NodeStream Payload)
      → v.node_id ≡ (s.streams c).node_id
      → P s
      → P (set_stream s c v)

  pub receive-lem :
      (P : CommandServer Payload → Type 0) (s : CommandServer Payload) (c : ℕ)
      → Keeps P
      → P s
      → P (receive s c).0
  unfolding receive
  receive-lem P s c keeps h = elim (List-cases (s.streams c).cmd_ch) [
    | inl empty ↦ rw (empty, receive) h
    | inr (cmd, cmds, full) ↦ rw (full, receive) (keeps s c _ refl h)
  ]

  pub forward-lem :
      (P : CommandServer Payload → Type 0) (s : CommandServer Payload) (i : ℕ)
      → Keeps P
      → P s
      → P (forward s i).0
  unfolding forward
  forward-lem P s i keeps h =
      let stream = s.streams (s.senders i).cmd_ch in
      elim (Bool-cases stream.closed) [
        | inl closed ↦ rw (closed) h
        | inr open_ ↦ elim (Bool-cases (ltb (length stream.cmd_ch) 10)) [
          | inl room ↦ rw (open_, room) (keeps s (s.senders i).cmd_ch _ refl h)
          | inr full ↦ rw (open_, full) h
        ]
      ]
