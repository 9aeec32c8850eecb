-- ===== src/Hub/Commands/Senders.antt =====
-- pkg/hub/server/mobile_server.go: what the senders of commands wait for.
use nitella.Base.{
  ℕ, ◌<◌, String, ◌≡◌, refl, sym, ap, ◌∙◌, ◌≢◌, ◌⊎◌, inl, inr, Option, none, some, List, arith,
  ◌==◌, if◌then◌else◌, Bool-cases, Option-cases,
}
use nitella.Base.Map
use nitella.Base.Map.{
  Map, lookup-insert, lookup-erase, lookup-retain, lookup-insert_self, lookup-insert_ne,
  lookup-erase_self, lookup-erase_ne,
}
use mathlib.Core.Path.{subst}
use nitella.Hub.Commands.Heap.{keep-field, hold-everywhere, at_place, keep-below, erased, inserted}
use nitella.Hub.Commands.Steps.{send_command-lem}
use nitella.Hub.Commands.{
  Command, CommandRequest, CommandResponse, NodeStream, Sender, CommandServer, is_at, set_stream,
  set_sender, new_server, open_stream, end_stream, add_sender, send_to, send_command, fill, respond,
  take_response, end_sender,
}

module _ {Payload : Type 0} where
  none_apart :
      (resp : CommandResponse Payload) → ◌≢◌ {A = Option (CommandResponse Payload)} none (some resp)
  none_apart resp e = ground (arith, e)

  fill-cases :
      (o : Option (CommandResponse Payload)) (resp r : CommandResponse Payload)
      → fill o resp ≡ some r
      → (o ≡ some r) ⊎ (resp ≡ r)
  fill-cases none resp r e =
      inr (ap (λ (o : Option (CommandResponse Payload)). elim o [ none ↦ resp | some x ↦ x ]) e)
  fill-cases (some old) resp r e = inl e

  -- What is in the channel of a sender answers its command.
  abbrev pub IsAnswered : Sender Payload → Type 0
  IsAnswered h =
      (resp : CommandResponse Payload) → h.resp_ch ≡ some resp → resp.command_id ≡ h.cmd.id

  -- A registered response is waited for by a sender of its command, and what a sender has got answers its command.
  pub record HasSenders (s : CommandServer Payload) : Type 0 where
    pub awaited :
        (id : String) (i : ℕ)
        → Map.lookup id s.command_resp ≡ some i
        → (i < s.next_sender) × ((s.senders i).cmd.id ≡ id)
    pub answered : (i : ℕ) → IsAnswered (s.senders i)

  pub start-HasSenders : (blank : Command Payload) → HasSenders (new_server blank)
  unfolding new_server Map.lookup
  start-HasSenders blank = record {
    awaited = λ id i e. ground (arith, e);
    answered = λ i resp e. absurd (none_apart resp e);
  }

  fill-IsAnswered :
      (h : Sender Payload) (resp : CommandResponse Payload)
      → resp.command_id ≡ h.cmd.id
      → IsAnswered h
      → IsAnswered (record h { resp_ch = fill h.resp_ch resp })
  fill-IsAnswered h resp same old r e = elim (fill-cases h.resp_ch resp r e) [
    | inl kept ↦ old r kept
    | inr new ↦ ap (λ (x : CommandResponse Payload). x.command_id) (sym new) ∙ same
  ]

  pub take-HasSenders :
      (s : CommandServer Payload) (i : ℕ) → HasSenders s → HasSenders (take_response s i).0
  unfolding take_response
  take-HasSenders s i h =
      let v = record (s.senders i) { resp_ch = none } in
      record {
        awaited = λ id j e.
            let (l, same) = h.awaited id j e in
            (
              l,
              ap (λ (c : Command Payload). c.id)
                    (keep-field (λ (x : Sender Payload). x.cmd) s.senders i v refl j)
                  ∙ same,
            );
        answered = λ j.
            hold-everywhere IsAnswered s.senders i v j (λ resp e. absurd (none_apart resp e))
              (h.answered j);
      }

  pub end-HasSenders :
      (s : CommandServer Payload) (i : ℕ) → HasSenders s → HasSenders (end_sender s i)
  unfolding end_sender
  end-HasSenders s i h = record {
    awaited = λ id j e. h.awaited id j (erased (s.senders i).cmd.id id s.command_resp j e);
    answered = h.answered;
  }

  respond_to-HasSenders :
      (s : CommandServer Payload) (resp : CommandResponse Payload) (i : ℕ)
      → Map.lookup resp.command_id s.command_resp ≡ some i
      → HasSenders s
      → HasSenders
          (record (set_sender s i
            (record (s.senders i) { resp_ch = fill (s.senders i).resp_ch resp })) {
              command_resp = Map.erase resp.command_id s.command_resp;
            })
  respond_to-HasSenders s resp i found h =
      let v = record (s.senders i) { resp_ch = fill (s.senders i).resp_ch resp } in
      record {
        awaited = λ id j e.
            let (l, same) = h.awaited id j (erased resp.command_id id s.command_resp j e) in
            (
              l,
              ap (λ (c : Command Payload). c.id)
                    (keep-field (λ (x : Sender Payload). x.cmd) s.senders i v refl j)
                  ∙ same,
            );
        answered = λ j.
            hold-everywhere IsAnswered s.senders i v j
              (fill-IsAnswered (s.senders i) resp (sym (h.awaited resp.command_id i found).1)
                (h.answered i))
              (h.answered j);
      }

  pub respond-HasSenders :
      (s : CommandServer Payload) (resp : CommandResponse Payload)
      → HasSenders s
      → HasSenders (respond s resp).0
  unfolding respond
  respond-HasSenders s resp h = elim (Option-cases resp.encrypted_data) [
    | inl empty ↦ rw (empty, respond) h
    | inr (bytes, full) ↦ elim (Option-cases (Map.lookup resp.command_id s.command_resp)) [
      | inl absent ↦ rw (full, absent, respond) h
      | inr (i, found) ↦ rw (full, found, respond) (respond_to-HasSenders s resp i found h)
    ]
  ]

  add-HasSenders :
      (s : CommandServer Payload) (v : Sender Payload)
      → v.resp_ch ≡ none
      → HasSenders s
      → HasSenders (add_sender s v)
  unfolding add_sender
  add-HasSenders s v empty h = record {
    awaited = λ id j e. elim (inserted v.cmd.id id s.next_sender s.command_resp j e) [
      | inl (same, at) ↦ (
        omega (arith, at),
        subst (λ (k : ℕ). (if k == s.next_sender then v else s.senders k).cmd.id ≡ id) at
            (at_place (λ (x : Sender Payload). x.cmd.id) s.senders s.next_sender v ∙ same),
      )
      | inr old ↦
          let (l, same) = h.awaited id j old in
          (
            omega (arith, l),
            ap (λ (x : Sender Payload). x.cmd.id) (keep-below s.senders s.next_sender v j l) ∙ same,
          )
    ];
    answered = λ j.
        hold-everywhere IsAnswered s.senders s.next_sender v j
          (λ resp e. absurd (none_apart resp (sym empty ∙ e))) (h.answered j);
  }

  send_to-HasSenders :
      (s : CommandServer Payload) (target token : String) (encrypted : Option Payload)
      (cmd_id : String)
      → HasSenders s
      → HasSenders (send_to s target token encrypted cmd_id).0
  unfolding send_to
  send_to-HasSenders s target token none cmd_id h = h
  send_to-HasSenders s target token (some encrypted) cmd_id h =
      elim (Option-cases (Map.lookup target s.node_command_chans)) [
        | inl absent ↦ rw (absent, send_to) h
        | inr (c, found) ↦ rw (found, send_to) (add-HasSenders s _ refl h)
      ]

  pub send_command-HasSenders :
      (nodes : List (String × String)) (s : CommandServer Payload) (req : CommandRequest Payload)
      (cmd_id : String)
      → HasSenders s
      → HasSenders (send_command nodes s req cmd_id).0
  send_command-HasSenders nodes s req cmd_id h =
      send_command-lem nodes HasSenders s req cmd_id h
        (λ target found. send_to-HasSenders s target req.routing_token req.encrypted cmd_id h)

  pub set_stream-HasSenders :
      (s : CommandServer Payload) (c : ℕ) (v : NodeStream Payload)
      → v.node_id ≡ (s.streams c).node_id
      → HasSenders s
      → HasSenders (set_stream s c v)
  set_stream-HasSenders s c v same h = record { awaited = h.awaited; answered = h.answered }

  pub open-HasSenders :
      (s : CommandServer Payload) (node_id : String)
      → HasSenders s
      → HasSenders (open_stream s node_id)
  unfolding open_stream
  open-HasSenders s node_id h = elim (Option-cases (Map.lookup node_id s.node_command_chans)) [
    | inl absent ↦ rw (absent) (record { awaited = h.awaited; answered = h.answered })
    | inr (c, found) ↦ rw (found) (record { awaited = h.awaited; answered = h.answered })
  ]

  pub end_stream-HasSenders :
      (s : CommandServer Payload) (c : ℕ) → HasSenders s → HasSenders (end_stream s c).0
  unfolding end_stream
  end_stream-HasSenders s c h =
      elim (Bool-cases (is_at (Map.lookup (s.streams c).node_id s.node_command_chans) c)) [
        | inl at ↦ rw (at, end_stream) (record { awaited = h.awaited; answered = h.answered })
        | inr other ↦ rw (other, end_stream) h
      ]
