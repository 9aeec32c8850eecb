-- ===== src/Hub/Pairing/Relay.antt =====
-- pkg/hub/server/pairing_server.go: what the two sides of a session are delivered.
use nitella.Base.{
  ==_iff, ℕ, ◌≤◌, ◌<◌, String, ◌≡◌, refl, sym, ap, ◌∙◌, inl, inr, Bool, ◌&&◌, Option, none, some,
  List, [], ◌∷◌, ◌++◌, arith, ◌==◌, if◌then◌else◌, length, Option-cases,
}
use nitella.Base.Map
use nitella.Base.Map.{
  Map, lookup-insert, lookup-erase, lookup-retain, lookup-insert_self, lookup-insert_ne,
  lookup-erase_self, lookup-erase_ne,
}
use nitella.Hub.Pairing.Channels.{
  same_role, channel-mark_joined, channel-mark_left, channel-new_session, channel-close,
  channel-set_channel, get_or_create-next, safe_send-channel, safe_send-bounded, snoc_assoc,
  cons_assoc, same_channel,
}
use nitella.Hub.Pairing.{
  tail_of, Role, PairingServer, opposite, new_pairing_server, channel, get_or_create, join, relay,
  receive, mark_left, store, leave, cleanup,
}

-- A message that a role put into a session, or took out of it; the latest stands first.
pub data Transfer (Msg : Type 0) : Type 0 where
  put : ℕ → Role → Msg → Transfer Msg
  took : ℕ → Role → Msg → Transfer Msg

module _ {Msg : Type 0} where
  abbrev pub noted : Bool → Transfer Msg → List (Transfer Msg) → List (Transfer Msg)
  noted done t log = if done then t ∷ log else log

  abbrev pub took_some : ℕ → Role → Option Msg → List (Transfer Msg) → List (Transfer Msg)
  took_some i role none log = log
  took_some i role (some msg) log = took i role msg ∷ log

  -- The states that calls reach, with the transfers so far.
  pub data Reach : PairingServer Msg → List (Transfer Msg) → Type 0 where
    made : Reach new_pairing_server []
    joining :
        (ps : PairingServer Msg) (log : List (Transfer Msg)) (code : String) (role : Role)
        (user peer : String) (now : ℕ)
        → Reach ps log
        → Reach (join ps code role user peer now).0 log
    relayed :
        (ps : PairingServer Msg) (log : List (Transfer Msg)) (i : ℕ) (role : Role) (msg : Msg)
        → i < ps.next
        → Reach ps log
        → Reach (relay ps i role msg).0 (noted (relay ps i role msg).1 (put i role msg) log)
    received :
        (ps : PairingServer Msg) (log : List (Transfer Msg)) (i : ℕ) (role : Role)
        → Reach ps log
        → Reach (receive ps i role).0 (took_some i role (receive ps i role).1 log)
    left :
        (ps : PairingServer Msg) (log : List (Transfer Msg)) (i : ℕ) (role : Role) (code : String)
        → Reach ps log
        → Reach (leave ps i role code) log
    cleaned :
        (ps : PairingServer Msg) (log : List (Transfer Msg)) (now : ℕ)
        → Reach ps log
        → Reach (cleanup ps now) log

  -- What was put in for a role, and what it took out, in the order of the calls.
  abbrev pub sent_to : ℕ → Role → List (Transfer Msg) → List Msg
  sent_to i role [] = []
  sent_to i role (put j r msg ∷ log) =
      let rest = sent_to i role log in
      if j == i && same_role (opposite r) role then rest ++ (msg ∷ []) else rest
  sent_to i role (took j r msg ∷ log) = sent_to i role log

  abbrev pub taken_by : ℕ → Role → List (Transfer Msg) → List Msg
  taken_by i role [] = []
  taken_by i role (put j r msg ∷ log) = taken_by i role log
  taken_by i role (took j r msg ∷ log) =
      let rest = taken_by i role log in
      if j == i && same_role r role then rest ++ (msg ∷ []) else rest

  record IsRelayed (ps : PairingServer Msg) (log : List (Transfer Msg)) : Type 0 where
    in_order :
        (i : ℕ) (role : Role) → sent_to i role log ≡ taken_by i role log ++ channel role (ps.heap i)
    bounded : (i : ℕ) (role : Role) → length (channel role (ps.heap i)) ≤ 10
    free : (i : ℕ) → ps.next ≤ i → (role : Role) → channel role (ps.heap i) ≡ []

  -- A step that leaves the channels alone.
  same_channels :
      (ps ps' : PairingServer Msg) (log : List (Transfer Msg))
      → ((i : ℕ) (role : Role) → channel role (ps'.heap i) ≡ channel role (ps.heap i))
      → ps.next ≤ ps'.next
      → IsRelayed ps log
      → IsRelayed ps' log
  same_channels ps ps' log same more r = record {
    in_order = λ i role. rw (same i role) (r.in_order i role);
    bounded = λ i role. rw (same i role) (r.bounded i role);
    free = λ i l role. same i role ∙ r.free i (omega arith) role;
  }

  get_or_create-channel :
      (ps : PairingServer Msg) (log : List (Transfer Msg)) (code : String) (now i : ℕ) (q : Role)
      → IsRelayed ps log
      → channel q ((get_or_create ps code now).0.heap i) ≡ channel q (ps.heap i)
  unfolding get_or_create
  get_or_create-channel ps log code now i q r =
      elim (Option-cases (Map.lookup code ps.pake_sessions)) [
        | inl absent ↦
            rw (absent, get_or_create)
              (ground (arith, r.free ps.next (omega arith) q, channel-new_session code now q))
        | inr (k, known) ↦ rw (known, get_or_create) refl
      ]

  relay-IsRelayed :
      (ps : PairingServer Msg) (log : List (Transfer Msg)) (i : ℕ) (role : Role) (msg : Msg)
      → i < ps.next
      → IsRelayed ps log
      → IsRelayed (relay ps i role msg).0 (noted (relay ps i role msg).1 (put i role msg) log)
  unfolding relay
  relay-IsRelayed ps log i role msg l r = record {
    in_order = λ j q. ground (
      arith,
      safe_send-channel (ps.heap i) role q msg,
      r.in_order j q,
      r.in_order i q,
      snoc_assoc (taken_by i q log) (channel q (ps.heap i)) msg,
      ==_iff j i,
      ==_iff i j,
    );
    bounded = λ j q.
        ground (arith, safe_send-bounded (ps.heap i) role q msg, r.bounded j q, r.bounded i q);
    free = λ j f q. ground (arith, r.free j f q);
  }

  tail_of-IsRelayed :
      (ps : PairingServer Msg) (log : List (Transfer Msg)) (i : ℕ) (role : Role) (queue : List Msg)
      → channel role (ps.heap i) ≡ queue
      → IsRelayed ps log
      → IsRelayed
          (store ps i (tail_of role (ps.heap i) queue).0)
          (took_some i role (tail_of role (ps.heap i) queue).1 log)
  tail_of-IsRelayed ps log i role [] e r =
      same_channels ps _ log (λ j q. ground (arith, ==_iff j i)) (omega arith) r
  tail_of-IsRelayed ps log i role (msg ∷ queue) e r = record {
    in_order = λ j q. ground (
      arith,
      channel-set_channel (ps.heap i) role q queue,
      same_channel (ps.heap i) role q,
      r.in_order j q,
      r.in_order i q,
      cons_assoc (taken_by i q log) queue msg,
      ==_iff j i,
      ==_iff i j,
    );
    bounded = λ j q. ground (
      arith,
      channel-set_channel (ps.heap i) role q queue,
      r.bounded j q,
      r.bounded i role,
      ap length e,
    );
    free = λ j f q. ground (
      arith,
      channel-set_channel (ps.heap i) role q queue,
      r.free j f q,
      (λ (l : ps.next ≤ i). r.free i l role),
      ==_iff j i,
    );
  }

  leave-IsRelayed :
      (ps : PairingServer Msg) (log : List (Transfer Msg)) (i : ℕ) (role : Role) (code : String)
      → IsRelayed ps log
      → IsRelayed (leave ps i role code) log
  unfolding leave
  leave-IsRelayed ps log i role code r =
      same_channels ps _ log
        (λ j q. ground (
          arith,
          channel-mark_left (ps.heap i) role q,
          channel-close (mark_left role (ps.heap i)) q,
          ==_iff j i,
        ))
        (ground arith) r

  cleanup-IsRelayed :
      (ps : PairingServer Msg) (log : List (Transfer Msg)) (now : ℕ)
      → IsRelayed ps log
      → IsRelayed (cleanup ps now) log
  unfolding cleanup
  cleanup-IsRelayed ps log now r =
      same_channels ps _ log (λ j q. ground (arith, channel-close (ps.heap j) q)) (omega arith) r

  join-IsRelayed :
      (ps : PairingServer Msg) (log : List (Transfer Msg)) (code : String) (role : Role)
      (user peer : String) (now : ℕ)
      → IsRelayed ps log
      → IsRelayed (join ps code role user peer now).0 log
  unfolding join
  join-IsRelayed ps log code role user peer now r =
      let (ps', i) = get_or_create ps code now in
      same_channels ps _ log
        (λ j q. ground (
          arith,
          get_or_create-channel ps log code now j q r,
          get_or_create-channel ps log code now i q r,
          channel-mark_joined (ps'.heap i) role q user peer,
          ==_iff j i,
        ))
        (ground (arith, get_or_create-next ps code now)) r

  Reach-IsRelayed :
      {ps : PairingServer Msg} {log : List (Transfer Msg)} → Reach ps log → IsRelayed ps log
  unfolding new_pairing_server receive
  Reach-IsRelayed made = record {
    in_order = λ i role. sym (channel-new_session "" 0 role);
    bounded = λ i role. rw (channel-new_session "" 0 role) (omega arith);
    free = λ i l role. channel-new_session "" 0 role;
  }
  Reach-IsRelayed (joining ps log code role user peer now r) =
      join-IsRelayed ps log code role user peer now (Reach-IsRelayed r)
  Reach-IsRelayed (relayed ps log i role msg l r) =
      relay-IsRelayed ps log i role msg l (Reach-IsRelayed r)
  Reach-IsRelayed (received ps log i role r) =
      tail_of-IsRelayed ps log i role (channel role (ps.heap i)) refl (Reach-IsRelayed r)
  Reach-IsRelayed (left ps log i role code r) =
      leave-IsRelayed ps log i role code (Reach-IsRelayed r)
  Reach-IsRelayed (cleaned ps log now r) = cleanup-IsRelayed ps log now (Reach-IsRelayed r)

  -- Whatever streams join, send, receive and leave, and whenever the cleanup runs: what a session has taken
  -- in for one of its two sides is, in order and without a loss, what that side was delivered and then what
  -- still waits for it, which is never more than ten messages.
  pub Reach-in_order :
      (ps : PairingServer Msg) (log : List (Transfer Msg)) (i : ℕ) (role : Role)
      → Reach ps log
      → (sent_to i role log ≡ taken_by i role log ++ channel role (ps.heap i))
        × (length (channel role (ps.heap i)) ≤ 10)
  Reach-in_order ps log i role reached =
      let r = Reach-IsRelayed reached in (r.in_order i role, r.bounded i role)
