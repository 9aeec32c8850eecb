-- ===== src/Hub/Commands/Replaced.antt =====
-- pkg/hub/server/mobile_server.go and node_server.go: a node that connects again while a command is being sent.
use nitella.Base.{
  ==_iff, ℕ, ◌<◌, String, ◌≡◌, refl, ap, ◌∙◌, inl, inr, true, false, some, arith, ◌==◌,
  Option-cases,
}
use nitella.Base.Map
use nitella.Base.Map.{
  Map, lookup-insert, lookup-erase, lookup-retain, lookup-insert_self, lookup-insert_ne,
  lookup-erase_self, lookup-erase_ne,
}
use nitella.Hub.Commands.Heap.{keep-below, keep-field}
use nitella.Hub.Commands.{
  NodeStream, Sender, CommandServer, panicked, set_stream, open_stream, end_stream, forward,
}

module _ {Payload : Type 0} where
  forward-panicked :
      (s : CommandServer Payload) (i : ℕ)
      → (s.streams (s.senders i).cmd_ch).closed ≡ true
      → (forward s i).1 ≡ panicked
  unfolding forward
  forward-panicked s i closed = rw (closed) refl

  open-closed :
      (s : CommandServer Payload) (n : String) (c : ℕ)
      → Map.lookup n s.node_command_chans ≡ some c
      → c < s.next_stream
      → ((open_stream s n).streams c).closed ≡ true
  unfolding open_stream
  open-closed s n c found below =
      rw
        (
          found,
          keep-below (set_stream s c (record (s.streams c) { closed = true })).streams s.next_stream
              _ c below,
          (==_iff c c).1 refl,
        )
        refl

  open-senders :
      (s : CommandServer Payload) (n : String) (i : ℕ) → (open_stream s n).senders i ≡ s.senders i
  unfolding open_stream
  open-senders s n i = elim (Option-cases (Map.lookup n s.node_command_chans)) [
    | inl absent ↦ rw (absent) refl
    | inr (c, found) ↦ rw (found) refl
  ]

  -- When a node opens a new stream before a sender has sent on the channel that it looked up for that node, the sender sends
  -- on a closed channel, which ends the program.
  pub forward-replaced :
      (s : CommandServer Payload) (i : ℕ)
      → Map.lookup (s.senders i).target s.node_command_chans ≡ some (s.senders i).cmd_ch
      → (s.senders i).cmd_ch < s.next_stream
      → (forward (open_stream s (s.senders i).target) i).1 ≡ panicked
  forward-replaced s i found below = forward-panicked (open_stream s (s.senders i).target) i (
      ap (λ (h : Sender Payload). ((open_stream s (s.senders i).target).streams h.cmd_ch).closed)
        (open-senders s (s.senders i).target i)
      ∙ open-closed s (s.senders i).target (s.senders i).cmd_ch found below)

  open-lookup :
      (s : CommandServer Payload) (n : String)
      → Map.lookup n (open_stream s n).node_command_chans ≡ some s.next_stream
  unfolding open_stream
  open-lookup s n = lookup-insert_self n s.next_stream s.node_command_chans

  open-node_id :
      (s : CommandServer Payload) (n : String) (c : ℕ)
      → c < s.next_stream
      → ((open_stream s n).streams c).node_id ≡ (s.streams c).node_id
  unfolding open_stream
  open-node_id s n c below = elim (Option-cases (Map.lookup n s.node_command_chans)) [
    | inl absent ↦ rw (absent, keep-below s.streams s.next_stream _ c below) refl
    | inr (d, found) ↦
        rw
          (
            found,
            keep-below (set_stream s d (record (s.streams d) { closed = true })).streams
                s.next_stream _ c below,
          )
          (keep-field (λ (x : NodeStream Payload). x.node_id) s.streams d _ refl c)
  ]

  -- A stream that its node has replaced by another takes nothing off the table when it ends, and does not mark the node
  -- as offline, so that commands go to the new one.
  pub end_stream-replaced :
      (s : CommandServer Payload) (c : ℕ)
      → c < s.next_stream
      → end_stream (open_stream s (s.streams c).node_id) c
        ≡ (open_stream s (s.streams c).node_id, false)
  unfolding end_stream
  end_stream-replaced s c below =
      let n = (s.streams c).node_id in
      let other : (s.next_stream == c) ≡ false = ground (arith, below, ==_iff s.next_stream c) in
      rw (open-node_id s n c below, open-lookup s n, other) refl
