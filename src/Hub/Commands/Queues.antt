-- ===== src/Hub/Commands/Queues.antt =====
-- pkg/hub/server/mobile_server.go and node_server.go: whose commands wait in the channels of streams.
use nitella.Base.{
  ℕ, ◌<◌, String, ◌≡◌, refl, sym, ap, ◌∙◌, ◌≢◌, inl, inr, Bool, true, false, Option, none, some,
  List, [], ◌∷◌, ◌++◌, arith, ltb, if◌then◌else◌, length, All, Bool-cases, Option-cases,
}
use nitella.Base.Map
use nitella.Base.Map.{
  Map, lookup-insert, lookup-erase, lookup-retain, lookup-insert_self, lookup-insert_ne,
  lookup-erase_self, lookup-erase_ne,
}
use mathlib.Core.Path.{subst}
use nitella.Hub.Commands.Heap.{List-cases, keep-field, hold-everywhere, keep-below}
use nitella.Hub.Commands.Steps.{send_command-lem}
use nitella.Hub.Commands.Streams.{HasStreams}
use nitella.Hub.Commands.{
  Command, CommandRequest, CommandResponse, NodeStream, Sender, CommandServer, Received, received,
  waiting, replaced, node_by_token, is_at, set_stream, set_sender, new_server, open_stream, receive,
  end_stream, add_sender, send_to, send_command, forward, respond, take_response, end_sender,
}

All-append : {A : Type 0} (P : A → Type 0) (xs ys : List A) → All P xs → All P ys → All P (xs ++ ys)
All-append P [] ys a b = b
All-append P (x ∷ xs) ys (p, a) b = (p, All-append P xs ys a b)

All-map :
    {A : Type 0} (P Q : A → Type 0) → ((x : A) → P x → Q x) → (xs : List A) → All P xs → All Q xs
All-map P Q f [] a = tt
All-map P Q f (x ∷ xs) (p, a) = (f x p, All-map P Q f xs a)

module _ {Payload : Type 0} (nodes : List (String × String)) where
  -- The command is one that a sender has sent with a routing token of the node.
  abbrev pub IsFor : CommandServer Payload → String → Command Payload → Type 0
  IsFor s node_id cmd =
      (i : ℕ) × (i < s.next_sender)
      × ((s.senders i).cmd ≡ cmd)
      × (node_by_token nodes (s.senders i).routing_token ≡ some node_id)

  -- A channel holds commands for the node of its stream only.
  pub record HasQueues (s : CommandServer Payload) : Type 0 where
    pub queued : (c : ℕ) → All (IsFor s (s.streams c).node_id) (s.streams c).cmd_ch

  -- A stream that is fit for its place.
  abbrev IsQueue : CommandServer Payload → NodeStream Payload → Type 0
  IsQueue s v = All (IsFor s v.node_id) v.cmd_ch

  pub start-HasQueues : (blank : Command Payload) → HasQueues (new_server blank)
  unfolding new_server
  start-HasQueues blank = record { queued = λ c. tt }

  put-HasQueues :
      (s : CommandServer Payload) (c : ℕ) (v : NodeStream Payload)
      → IsQueue s v
      → HasQueues s
      → HasQueues (set_stream s c v)
  put-HasQueues s c v fit h = record {
    queued = λ d. hold-everywhere (IsQueue s) s.streams c v d fit (h.queued d);
  }

  pub open-HasQueues :
      (s : CommandServer Payload) (node_id : String)
      → HasQueues s
      → HasQueues (open_stream s node_id)
  unfolding open_stream
  open-HasQueues s node_id h = elim (Option-cases (Map.lookup node_id s.node_command_chans)) [
    | inl absent ↦ rw (absent) (record {
      queued =
          (put-HasQueues s s.next_stream (record { node_id = node_id; cmd_ch = []; closed = false })
            tt h).queued;
    })
    | inr (c, found) ↦
        let s' = set_stream s c (record (s.streams c) { closed = true }) in
        let h' = put-HasQueues s c (record (s.streams c) { closed = true }) (h.queued c) h in
        rw (found) (record {
          queued =
              (put-HasQueues s' s.next_stream
                (record { node_id = node_id; cmd_ch = []; closed = false }) tt h').queued;
        })
  ]

  pub receive-HasQueues :
      (s : CommandServer Payload) (c : ℕ) → HasQueues s → HasQueues (receive s c).0
  unfolding receive
  receive-HasQueues s c h = elim (List-cases (s.streams c).cmd_ch) [
    | inl empty ↦ rw (empty, receive) h
    | inr (cmd, cmds, full) ↦
        let whole = subst (All (IsFor s (s.streams c).node_id)) full (h.queued c) in
        rw (full, receive) (put-HasQueues s c (record (s.streams c) { cmd_ch = cmds }) whole.1 h)
  ]

  pub forward-HasQueues :
      (s : CommandServer Payload) (i : ℕ)
      → i < s.next_sender
      → HasStreams nodes s
      → HasQueues s
      → HasQueues (forward s i).0
  unfolding forward
  forward-HasQueues s i l streams h =
      let stream = s.streams (s.senders i).cmd_ch in
      let (below, at, owned) = streams.held i l in
      elim (Bool-cases stream.closed) [
        | inl closed ↦ rw (closed) h
        | inr open_ ↦ elim (Bool-cases (ltb (length stream.cmd_ch) 10)) [
          | inl room ↦
              rw (open_, room)
                (put-HasQueues s (s.senders i).cmd_ch _
                  (All-append (IsFor s stream.node_id) stream.cmd_ch ((s.senders i).cmd ∷ [])
                    (h.queued (s.senders i).cmd_ch) ((i, l, refl, owned ∙ ap some (sym at)), tt))
                  h)
          | inr full ↦ rw (open_, full) h
        ]
      ]

  pub end_stream-HasQueues :
      (s : CommandServer Payload) (c : ℕ) → HasQueues s → HasQueues (end_stream s c).0
  unfolding end_stream
  end_stream-HasQueues s c h =
      elim (Bool-cases (is_at (Map.lookup (s.streams c).node_id s.node_command_chans) c)) [
        | inl at ↦ rw (at, end_stream) (record { queued = h.queued })
        | inr other ↦ rw (other, end_stream) h
      ]

  -- Senders that keep their command and their token.
  refill-HasQueues :
      (s : CommandServer Payload) (i : ℕ) (o : Option (CommandResponse Payload))
      (registered : Map ℕ)
      → HasQueues s
      → HasQueues (record (set_sender s i (record (s.senders i) { resp_ch = o })) {
        command_resp = registered;
      })
  refill-HasQueues s i o registered h =
      let s' = record (set_sender s i (record (s.senders i) { resp_ch = o })) {
        command_resp = registered;
      } in
      let v = record (s.senders i) { resp_ch = o } in
      record {
        queued = λ c.
            All-map (IsFor s (s.streams c).node_id) (IsFor s' (s.streams c).node_id)
              (λ cmd (j, l, same, owned). (
                j,
                l,
                keep-field (λ (x : Sender Payload). x.cmd) s.senders i v refl j ∙ same,
                ap (node_by_token nodes)
                      (keep-field (λ (x : Sender Payload). x.routing_token) s.senders i v refl j)
                    ∙ owned,
              ))
              (s.streams c).cmd_ch (h.queued c);
      }

  add-HasQueues :
      (s : CommandServer Payload) (v : Sender Payload) → HasQueues s → HasQueues (add_sender s v)
  unfolding add_sender
  add-HasQueues s v h =
      let s' = add_sender s v in
      record {
        queued = λ c.
            All-map (IsFor s (s.streams c).node_id) (IsFor s' (s.streams c).node_id)
              (λ cmd (j, l, same, owned). (
                j,
                omega (arith, l),
                ap (λ (x : Sender Payload). x.cmd) (keep-below s.senders s.next_sender v j l)
                    ∙ same,
                ap (λ (x : Sender Payload). node_by_token nodes x.routing_token)
                      (keep-below s.senders s.next_sender v j l)
                    ∙ owned,
              ))
              (s.streams c).cmd_ch (h.queued c);
      }

  send_to-HasQueues :
      (s : CommandServer Payload) (target token : String) (encrypted : Option Payload)
      (cmd_id : String)
      → HasQueues s
      → HasQueues (send_to s target token encrypted cmd_id).0
  unfolding send_to
  send_to-HasQueues s target token none cmd_id h = h
  send_to-HasQueues s target token (some encrypted) cmd_id h =
      elim (Option-cases (Map.lookup target s.node_command_chans)) [
        | inl absent ↦ rw (absent, send_to) h
        | inr (c, found) ↦ rw (found, send_to) (add-HasQueues s _ h)
      ]

  pub send_command-HasQueues :
      (s : CommandServer Payload) (req : CommandRequest Payload) (cmd_id : String)
      → HasQueues s
      → HasQueues (send_command nodes s req cmd_id).0
  send_command-HasQueues s req cmd_id h =
      send_command-lem nodes HasQueues s req cmd_id h
        (λ target found. send_to-HasQueues s target req.routing_token req.encrypted cmd_id h)

  pub respond-HasQueues :
      (s : CommandServer Payload) (resp : CommandResponse Payload)
      → HasQueues s
      → HasQueues (respond s resp).0
  unfolding respond
  respond-HasQueues s resp h = elim (Option-cases resp.encrypted_data) [
    | inl empty ↦ rw (empty, respond) h
    | inr (bytes, full) ↦ elim (Option-cases (Map.lookup resp.command_id s.command_resp)) [
      | inl absent ↦ rw (full, absent, respond) h
      | inr (i, found) ↦ rw (full, found, respond) (refill-HasQueues s i _ _ h)
    ]
  ]

  pub take-HasQueues :
      (s : CommandServer Payload) (i : ℕ) → HasQueues s → HasQueues (take_response s i).0
  unfolding take_response
  take-HasQueues s i h = refill-HasQueues s i none s.command_resp h

  pub finish-HasQueues :
      (s : CommandServer Payload) (i : ℕ) → HasQueues s → HasQueues (end_sender s i)
  unfolding end_sender
  finish-HasQueues s i h = record { queued = h.queued }

  apart-received :
      (closed : Bool) (cmd : Command Payload)
      → ◌≢◌ {A = Received Payload} (if closed then replaced else waiting) (received cmd)
  apart-received true cmd e = ground (arith, e)
  apart-received false cmd e = ground (arith, e)

  -- The command that a round of a stream sends on.
  abbrev command_of : Command Payload → Received Payload → Command Payload
  command_of other (received cmd) = cmd
  command_of other waiting = other
  command_of other replaced = other

  pub receive-IsFor :
      (s : CommandServer Payload) (c : ℕ) (cmd : Command Payload)
      → HasQueues s
      → (receive s c).1 ≡ received cmd
      → IsFor s (s.streams c).node_id cmd
  unfolding receive
  receive-IsFor s c cmd h e = elim (List-cases (s.streams c).cmd_ch) [
    | inl empty ↦
        let same : (receive s c).1 ≡ (if (s.streams c).closed then replaced else waiting) =
          rw (empty, receive) refl in
        absurd (apart-received (s.streams c).closed cmd (sym same ∙ e))
    | inr (first, cmds, full) ↦
        let same : (receive s c).1 ≡ received first = rw (full, receive) refl in
        let whole = subst (All (IsFor s (s.streams c).node_id)) full (h.queued c) in
        subst (IsFor s (s.streams c).node_id) (ap (command_of first) (sym same ∙ e)) whole.0
  ]
