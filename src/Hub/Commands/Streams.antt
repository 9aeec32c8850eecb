-- ===== src/Hub/Commands/Streams.antt =====
-- pkg/hub/server/node_server.go: whose streams the channels belong to.
use nitella.Base.{
  ==_iff, ℕ, ◌+◌, ◌<◌, String, ◌≡◌, refl, ap, ◌∙◌, inl, inr, false, Option, none, some, List, [],
  arith, ◌==◌, if◌then◌else◌, Bool-cases, Option-cases,
}
use nitella.Base.Map
use nitella.Base.Map.{
  Map, lookup-insert, lookup-erase, lookup-retain, lookup-insert_self, lookup-insert_ne,
  lookup-erase_self, lookup-erase_ne,
}
use mathlib.Core.Path.{subst}
use nitella.Hub.Commands.Heap.{keep-field, at_place, keep-below, erased, inserted}
use nitella.Hub.Commands.{
  Command, CommandResponse, NodeStream, Sender, CommandServer, node_by_token, is_at, set_stream,
  set_sender, new_server, close_stream, open_stream, end_stream, add_sender, send_to, respond,
  take_response, end_sender,
}

module _ {Payload : Type 0} (nodes : List (String × String)) where
  -- A registered channel belongs to the stream of its node, and a channel that somebody sends to too.
  pub record HasStreams (s : CommandServer Payload) : Type 0 where
    pub registered :
        (n : String) (c : ℕ)
        → Map.lookup n s.node_command_chans ≡ some c
        → (c < s.next_stream) × ((s.streams c).node_id ≡ n)
    pub held :
        (i : ℕ)
        → i < s.next_sender
        → ((s.senders i).cmd_ch < s.next_stream)
          × ((s.streams (s.senders i).cmd_ch).node_id ≡ (s.senders i).target)
          × (node_by_token nodes (s.senders i).routing_token ≡ some (s.senders i).target)

  pub start-HasStreams : (blank : Command Payload) → HasStreams (new_server blank)
  unfolding new_server Map.lookup
  start-HasStreams blank = record {
    registered = λ n c e. ground (arith, e);
    held = λ i l. absurd (omega (arith, l));
  }

  pub set_stream-HasStreams :
      (s : CommandServer Payload) (c : ℕ) (v : NodeStream Payload)
      → v.node_id ≡ (s.streams c).node_id
      → HasStreams s
      → HasStreams (set_stream s c v)
  set_stream-HasStreams s c v same h =
      let kept = keep-field (λ (x : NodeStream Payload). x.node_id) s.streams c v same in
      record {
        registered = λ n d e. let (l, at) = h.registered n d e in (l, kept d ∙ at);
        held = λ i l.
            let (below, at, owned) = h.held i l in (below, kept (s.senders i).cmd_ch ∙ at, owned);
      }

  -- Where a sender sends to.
  abbrev IsHeld : CommandServer Payload → Sender Payload → Type 0
  IsHeld s v =
      (v.cmd_ch < s.next_stream)
      × ((s.streams v.cmd_ch).node_id ≡ v.target)
      × (node_by_token nodes v.routing_token ≡ some v.target)

  set_sender-HasStreams :
      (s : CommandServer Payload) (i : ℕ) (o : Option (CommandResponse Payload)) (waiting : Map ℕ)
      → HasStreams s
      → HasStreams (record (set_sender s i (record (s.senders i) { resp_ch = o })) {
        command_resp = waiting;
      })
  set_sender-HasStreams s i o waiting h =
      let v = record (s.senders i) { resp_ch = o } in
      record {
        registered = h.registered;
        held = λ j l. elim (Bool-cases (j == i)) [
          | inl at ↦
              rw (at) (subst (λ (k : ℕ). IsHeld s (s.senders k)) ((==_iff j i).0 at) (h.held j l))
          | inr other ↦ rw (other) (h.held j l)
        ];
      }

  add_sender-HasStreams :
      (s : CommandServer Payload) (v : Sender Payload)
      → IsHeld s v
      → HasStreams s
      → HasStreams (add_sender s v)
  unfolding add_sender
  add_sender-HasStreams s v held h = record {
    registered = h.registered;
    held = λ j l. elim (Bool-cases (j == s.next_sender)) [
      | inl at ↦ rw (at) held
      | inr other ↦ rw (other) (h.held j (ground (arith, l, other, ==_iff j s.next_sender)))
    ];
  }

  pub send_to-HasStreams :
      (s : CommandServer Payload) (target token : String) (encrypted : Option Payload)
      (cmd_id : String)
      → node_by_token nodes token ≡ some target
      → HasStreams s
      → HasStreams (send_to s target token encrypted cmd_id).0
  unfolding send_to
  send_to-HasStreams s target token none cmd_id owned h = h
  send_to-HasStreams s target token (some encrypted) cmd_id owned h =
      elim (Option-cases (Map.lookup target s.node_command_chans)) [
        | inl absent ↦ rw (absent, send_to) h
        | inr (c, found) ↦
            let (l, at) = h.registered target c found in
            rw (found, send_to) (add_sender-HasStreams s _ (l, at, owned) h)
      ]

  close_stream-HasStreams :
      (o : Option ℕ) (s : CommandServer Payload) → HasStreams s → HasStreams (close_stream o s)
  close_stream-HasStreams none s h = h
  close_stream-HasStreams (some c) s h = set_stream-HasStreams s c _ refl h

  -- A stream that is new.
  abbrev new_stream : CommandServer Payload → String → CommandServer Payload
  new_stream s node_id =
      record (set_stream s s.next_stream
        (record { node_id = node_id; cmd_ch = []; closed = false })) {
          node_command_chans = Map.insert node_id s.next_stream s.node_command_chans;
          next_stream = s.next_stream + 1;
        }

  new_stream-HasStreams :
      (s : CommandServer Payload) (node_id : String)
      → HasStreams s
      → HasStreams (new_stream s node_id)
  new_stream-HasStreams s node_id h =
      let v : NodeStream Payload = record { node_id = node_id; cmd_ch = []; closed = false } in
      record {
        registered = λ n d e. elim (inserted node_id n s.next_stream s.node_command_chans d e) [
          | inl (same, at) ↦ (
            omega (arith, at),
            subst (λ (k : ℕ). (if k == s.next_stream then v else s.streams k).node_id ≡ n) at
                (at_place (λ (x : NodeStream Payload). x.node_id) s.streams s.next_stream v ∙ same),
          )
          | inr old ↦
              let (l, at) = h.registered n d old in
              (
                omega (arith, l),
                ap (λ (x : NodeStream Payload). x.node_id)
                      (keep-below s.streams s.next_stream v d l)
                    ∙ at,
              )
        ];
        held = λ i l.
            let (below, at, owned) = h.held i l in
            (
              omega (arith, below),
              ap (λ (x : NodeStream Payload). x.node_id)
                    (keep-below s.streams s.next_stream v (s.senders i).cmd_ch below)
                  ∙ at,
              owned,
            );
      }

  pub open-HasStreams :
      (s : CommandServer Payload) (node_id : String)
      → HasStreams s
      → HasStreams (open_stream s node_id)
  unfolding open_stream
  open-HasStreams s node_id h =
      let o = Map.lookup node_id s.node_command_chans in
      elim (Option-cases o) [
        | inl absent ↦ rw (absent) (new_stream-HasStreams s node_id h)
        | inr (c, found) ↦ rw (found) (
            new_stream-HasStreams (close_stream (some c) s) node_id
              (close_stream-HasStreams (some c) s h))
      ]

  pub end-HasStreams :
      (s : CommandServer Payload) (c : ℕ) → HasStreams s → HasStreams (end_stream s c).0
  unfolding end_stream
  end-HasStreams s c h =
      elim (Bool-cases (is_at (Map.lookup (s.streams c).node_id s.node_command_chans) c)) [
        | inl at ↦
            rw (at, end_stream)
              (record {
                registered = λ n d e.
                    h.registered n d (erased (s.streams c).node_id n s.node_command_chans d e);
                held = h.held;
              })
        | inr other ↦ rw (other, end_stream) h
      ]

  pub respond-HasStreams :
      (s : CommandServer Payload) (resp : CommandResponse Payload)
      → HasStreams s
      → HasStreams (respond s resp).0
  unfolding respond
  respond-HasStreams s resp h = elim (Option-cases resp.encrypted_data) [
    | inl empty ↦ rw (empty, respond) h
    | inr (bytes, full) ↦ elim (Option-cases (Map.lookup resp.command_id s.command_resp)) [
      | inl absent ↦ rw (full, absent, respond) h
      | inr (i, found) ↦ rw (full, found, respond) (set_sender-HasStreams s i _ _ h)
    ]
  ]

  pub take-HasStreams :
      (s : CommandServer Payload) (i : ℕ) → HasStreams s → HasStreams (take_response s i).0
  unfolding take_response
  take-HasStreams s i h = set_sender-HasStreams s i none s.command_resp h

  pub finish-HasStreams :
      (s : CommandServer Payload) (i : ℕ) → HasStreams s → HasStreams (end_sender s i)
  unfolding end_sender
  finish-HasStreams s i h = record { registered = h.registered; held = h.held }
