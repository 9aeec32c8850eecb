-- ===== src/Hub/Pairing/Seats.antt =====
-- pkg/hub/server/pairing_server.go: which streams a session has.
use nitella.Base.{
  ==_iff, ℕ, ◌≤◌, ◌<◌, String, ◌≡◌, refl, ◌∙◌, inl, inr, Bool, false, not, Option, none, some, List,
  [], arith, leb, if◌then◌else◌, Bool-cases, Option-cases,
}
use nitella.Base.Map
use nitella.Base.Map.{
  Map, lookup-insert, lookup-erase, lookup-retain, lookup-insert_self, lookup-insert_ne,
  lookup-erase_self, lookup-erase_ne,
}
use nitella.Hub.Pairing.Flags.{
  Stream, seated, without, with_joined, seated-without, has_joined-new_session, has_joined-close,
  has_joined-mark_joined, has_joined-mark_left, safe_send-flags, tail_of-flags, same_role_eq,
}
use nitella.Hub.Pairing.{
  joined, Joined, refused, already_connected, Role, PairingServer, new_pairing_server, channel,
  has_joined, get_or_create, join, relay, receive, mark_left, leave, cleanup, is_expired,
}

-- What a stream that comes with a code is answered: it joins the session of the code, or a new one, unless that
-- has a stream in its role.
abbrev pub answer_at : ℕ → List Stream → Role → Option ℕ → Joined
answer_at next ss role none = joined next role
answer_at next ss role (some i) =
    if leb 1 (seated i role ss) then refused already_connected else joined i role

module _ {Msg : Type 0} where
  -- The states that calls reach, with the streams that have joined and not left. Only a stream sends, receives
  -- and leaves.
  pub data Live : PairingServer Msg → List Stream → Type 0 where
    made : Live new_pairing_server []
    joining :
        (ps : PairingServer Msg) (ss : List Stream) (code : String) (role : Role)
        (user peer : String) (now : ℕ)
        → Live ps ss
        → Live
            (join ps code role user peer now).0
            (with_joined (join ps code role user peer now).1 ss)
    relayed :
        (ps : PairingServer Msg) (ss : List Stream) (i : ℕ) (role : Role) (msg : Msg)
        → Live ps ss
        → Live (relay ps i role msg).0 ss
    received :
        (ps : PairingServer Msg) (ss : List Stream) (i : ℕ) (role : Role)
        → Live ps ss
        → Live (receive ps i role).0 ss
    left :
        (ps : PairingServer Msg) (ss : List Stream) (i : ℕ) (role : Role) (code : String)
        → 1 ≤ seated i role ss
        → Live ps ss
        → Live (leave ps i role code) (without i role ss)
    cleaned :
        (ps : PairingServer Msg) (ss : List Stream) (now : ℕ)
        → Live ps ss
        → Live (cleanup ps now) ss

  record IsSeated (ps : PairingServer Msg) (ss : List Stream) : Type 0 where
    seats :
        (i : ℕ) (role : Role) → seated i role ss ≡ (if has_joined role (ps.heap i) then 1 else 0)
    free : (i : ℕ) → ps.next ≤ i → (role : Role) → has_joined role (ps.heap i) ≡ false
    codes_known : (code : String) (i : ℕ) → Map.lookup code ps.pake_sessions ≡ some i → i < ps.next

  -- A step that leaves the flags alone.
  same_flags :
      (ps ps' : PairingServer Msg) (ss : List Stream)
      → ((i : ℕ) (role : Role) → has_joined role (ps'.heap i) ≡ has_joined role (ps.heap i))
      → ps.next ≤ ps'.next
      → ((code : String) (i : ℕ) → Map.lookup code ps'.pake_sessions ≡ some i → i < ps'.next)
      → IsSeated ps ss
      → IsSeated ps' ss
  same_flags ps ps' ss same more known r = record {
    seats = λ i role. rw (same i role) (r.seats i role);
    free = λ i l role. same i role ∙ r.free i (omega arith) role;
    codes_known = known;
  }

  get_or_create-flags :
      (ps : PairingServer Msg) (ss : List Stream) (code : String) (now i : ℕ) (q : Role)
      → IsSeated ps ss
      → has_joined q ((get_or_create ps code now).0.heap i) ≡ has_joined q (ps.heap i)
  unfolding get_or_create
  get_or_create-flags ps ss code now i q r =
      elim (Option-cases (Map.lookup code ps.pake_sessions)) [
        | inl absent ↦
            rw (absent, get_or_create)
              (ground
                (arith, r.free ps.next (omega arith) q, has_joined-new_session Msg code now q))
        | inr (k, known) ↦ rw (known, get_or_create) refl
      ]

  get_or_create-IsSeated :
      (ps : PairingServer Msg) (ss : List Stream) (code : String) (now : ℕ)
      → IsSeated ps ss
      → IsSeated (get_or_create ps code now).0 ss
        × ((get_or_create ps code now).1 < (get_or_create ps code now).0.next)
  unfolding get_or_create
  get_or_create-IsSeated ps ss code now r = elim (Option-cases (Map.lookup code ps.pake_sessions)) [
    | inl absent ↦
        rw (absent, get_or_create)
          (
            same_flags ps _ ss
                (λ i q.
                  ground
                    (arith, r.free ps.next (omega arith) q, has_joined-new_session Msg code now q))
                (omega arith)
                (λ c i.
                  ground (arith, lookup-insert code c ps.next ps.pake_sessions, r.codes_known c i))
                r,
            omega arith,
          )
    | inr (k, known) ↦ rw (known, get_or_create) (r, r.codes_known code k known)
  ]

  join-IsSeated :
      (ps : PairingServer Msg) (ss : List Stream) (code : String) (role : Role) (user peer : String)
      (now : ℕ)
      → IsSeated ps ss
      → IsSeated
          (join ps code role user peer now).0
          (with_joined (join ps code role user peer now).1 ss)
  unfolding join
  join-IsSeated ps ss code role user peer now r =
      let (ps', i) = get_or_create ps code now in
      let (r', l) = get_or_create-IsSeated ps ss code now r in
      elim (Bool-cases (has_joined role (ps'.heap i))) [
        | inl taken ↦ rw (taken) r'
        | inr empty ↦ rw (empty) (record {
          seats = λ j q. ground (
            arith,
            r'.seats j q,
            r'.seats i q,
            has_joined-mark_joined (ps'.heap i) role q user peer,
            same_role_eq role q (ps'.heap i),
            ==_iff j i,
            ==_iff i j,
          );
          free = λ j f q. ground (arith, r'.free j f q);
          codes_known = r'.codes_known;
        })
      ]

  leave-IsSeated :
      (ps : PairingServer Msg) (ss : List Stream) (i : ℕ) (role : Role) (code : String)
      → 1 ≤ seated i role ss
      → IsSeated ps ss
      → IsSeated (leave ps i role code) (without i role ss)
  unfolding leave
  leave-IsSeated ps ss i role code l r = record {
    seats = λ j q. ground (
      arith,
      seated-without i role ss j q l,
      r.seats j q,
      r.seats i q,
      r.seats i role,
      has_joined-mark_left (ps.heap i) role q,
      has_joined-close (mark_left role (ps.heap i)) q,
      same_role_eq role q (ps.heap i),
      ==_iff j i,
    );
    free = λ j f q. ground (
      arith,
      (λ (l' : ps.next ≤ j). r.free j l' q),
      has_joined-mark_left (ps.heap i) role q,
      has_joined-close (mark_left role (ps.heap i)) q,
      (λ (l' : ps.next ≤ i). r.free i l' q),
      ==_iff j i,
    );
    codes_known = λ c j. ground (arith, lookup-erase code c ps.pake_sessions, r.codes_known c j);
  }

  kept_known :
      (ps : PairingServer Msg) (keep : ℕ → Bool) (code : String) (i : ℕ)
      → (Map.lookup code ps.pake_sessions ≡ some i → i < ps.next)
      → Map.lookup code (Map.retain keep ps.pake_sessions) ≡ some i
      → i < ps.next
  kept_known ps keep code i h e = elim (Option-cases (Map.lookup code ps.pake_sessions)) [
    | inl absent ↦ ground (arith, lookup-retain keep code ps.pake_sessions)
    | inr (k, known) ↦ ground (arith, lookup-retain keep code ps.pake_sessions)
  ]

  Live-IsSeated : {ps : PairingServer Msg} {ss : List Stream} → Live ps ss → IsSeated ps ss
  unfolding new_pairing_server receive relay cleanup Map.lookup
  Live-IsSeated made = record {
    seats = λ i role. rw (has_joined-new_session Msg "" 0 role) refl;
    free = λ i l role. has_joined-new_session Msg "" 0 role;
    codes_known = λ c i e. cc;
  }
  Live-IsSeated (joining ps ss code role user peer now r) =
      join-IsSeated ps ss code role user peer now (Live-IsSeated r)
  Live-IsSeated (relayed ps ss i role msg r) =
      let s = Live-IsSeated r in
      same_flags ps _ ss (λ j q. ground (arith, safe_send-flags (ps.heap i) role q msg, ==_iff j i))
        (omega arith) s.codes_known s
  Live-IsSeated (received ps ss i role r) =
      let s = Live-IsSeated r in
      same_flags ps _ ss
        (λ j q.
          ground (arith, tail_of-flags (ps.heap i) role q (channel role (ps.heap i)), ==_iff j i))
        (omega arith) s.codes_known s
  Live-IsSeated (left ps ss i role code l r) = leave-IsSeated ps ss i role code l (Live-IsSeated r)
  Live-IsSeated (cleaned ps ss now r) =
      let s = Live-IsSeated r in
      same_flags ps _ ss (λ j q. ground (arith, has_joined-close (ps.heap j) q)) (omega arith)
        (λ c i. kept_known ps (λ k. not (is_expired now (ps.heap k))) c i (s.codes_known c i)) s

  -- The answer to a stream that comes with a code.
  abbrev pub answer_to : PairingServer Msg → List Stream → String → Role → Joined
  answer_to ps ss code role = answer_at ps.next ss role (Map.lookup code ps.pake_sessions)

  join-answer :
      (ps : PairingServer Msg) (ss : List Stream) (code : String) (role : Role) (user peer : String)
      (now : ℕ)
      → IsSeated ps ss
      → (join ps code role user peer now).1 ≡ answer_to ps ss code role
  unfolding join get_or_create
  join-answer ps ss code role user peer now r =
      elim (Option-cases (Map.lookup code ps.pake_sessions)) [
        | inl absent ↦
            rw (absent, get_or_create)
              (ground
                (arith, absent, has_joined-new_session Msg code now role, ==_iff ps.next ps.next))
        | inr (i, known) ↦ rw (known, get_or_create) (ground (arith, known, r.seats i role))
      ]

  -- Whatever streams join, send, receive and leave, and whenever the cleanup runs: a session has at most one
  -- stream in each role, and a further stream that comes with a code is refused exactly if the session of the code
  -- has one in its role; otherwise it joins that session, or a new one where the code has none.
  pub Live-one_seat :
      (ps : PairingServer Msg) (ss : List Stream) (i : ℕ) (role : Role)
      → Live ps ss
      → (seated i role ss ≤ 1)
        × ((code user peer : String) (now : ℕ)
            → (join ps code role user peer now).1 ≡ answer_to ps ss code role)
  Live-one_seat ps ss i role l =
      let r = Live-IsSeated l in
      (
        ground (arith, r.seats i role),
        λ code user peer now. join-answer ps ss code role user peer now r,
      )
