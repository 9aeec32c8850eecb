-- ===== src/Hub/Pairing/Channels.antt =====
-- pkg/hub/server/pairing_server.go: what each operation makes of the two channels of a session.
use nitella.Base.{
  length-append, ℕ, ◌≤◌, String, ◌≡◌, refl, ap, inl, inr, Bool, true, false, ◌&&◌, List, [], ◌∷◌,
  ◌++◌, arith, if◌then◌else◌, length, Option-cases,
}
use nitella.Base.Map
use nitella.Base.Map.{
  Map, lookup-insert, lookup-erase, lookup-retain, lookup-insert_self, lookup-insert_ne,
  lookup-erase_self, lookup-erase_ne,
}
use nitella.Hub.Pairing.{
  Role, cli, node, PakeSession, PairingServer, opposite, new_session, channel, set_channel,
  mark_joined, safe_send, get_or_create, mark_left, close,
}

abbrev pub same_role : Role → Role → Bool
same_role cli cli = true
same_role node node = true
same_role cli node = false
same_role node cli = false

module _ {Msg : Type 0} where
  pub channel-mark_joined :
      (sess : PakeSession Msg) (r q : Role) (user peer : String)
      → channel q (mark_joined sess r user peer) ≡ channel q sess
  unfolding mark_joined
  channel-mark_joined sess cli cli user peer = refl
  channel-mark_joined sess cli node user peer = refl
  channel-mark_joined sess node cli user peer = refl
  channel-mark_joined sess node node user peer = refl

  pub channel-mark_left :
      (sess : PakeSession Msg) (r q : Role) → channel q (mark_left r sess) ≡ channel q sess
  channel-mark_left sess cli cli = refl
  channel-mark_left sess cli node = refl
  channel-mark_left sess node cli = refl
  channel-mark_left sess node node = refl

  pub channel-new_session :
      (code : String) (now : ℕ) (q : Role) → channel q (new_session {Msg = Msg} code now) ≡ []
  channel-new_session code now cli = refl
  channel-new_session code now node = refl

  pub channel-close : (sess : PakeSession Msg) (q : Role) → channel q (close sess) ≡ channel q sess
  channel-close sess cli = refl
  channel-close sess node = refl

  pub channel-set_channel :
      (sess : PakeSession Msg) (r q : Role) (msgs : List Msg)
      → channel q (set_channel r msgs sess) ≡ (if same_role r q then msgs else channel q sess)
  channel-set_channel sess cli cli msgs = refl
  channel-set_channel sess cli node msgs = refl
  channel-set_channel sess node cli msgs = refl
  channel-set_channel sess node node msgs = refl

  pub get_or_create-next :
      (ps : PairingServer Msg) (code : String) (now : ℕ)
      → ps.next ≤ (get_or_create ps code now).0.next
  unfolding get_or_create
  get_or_create-next ps code now = elim (Option-cases (Map.lookup code ps.pake_sessions)) [
    | inl absent ↦ rw (absent, get_or_create) (omega arith)
    | inr (k, known) ↦ rw (known, get_or_create) (omega arith)
  ]

  pub safe_send-channel :
      (sess : PakeSession Msg) (r q : Role) (msg : Msg)
      → channel q (safe_send sess r msg).0 ≡ (
          if (safe_send sess r msg).1 && same_role (opposite r) q
          then channel q sess ++ (msg ∷ [])
          else channel q sess)
  unfolding safe_send
  safe_send-channel sess cli cli msg = ground arith
  safe_send-channel sess cli node msg = ground arith
  safe_send-channel sess node cli msg = ground arith
  safe_send-channel sess node node msg = ground arith

  pub safe_send-bounded :
      (sess : PakeSession Msg) (r q : Role) (msg : Msg)
      → length (channel q sess) ≤ 10
      → length (channel q (safe_send sess r msg).0) ≤ 10
  unfolding safe_send
  safe_send-bounded sess cli cli msg l = ground (arith, length-append sess.node_chan (msg ∷ []))
  safe_send-bounded sess cli node msg l = ground (arith, length-append sess.node_chan (msg ∷ []))
  safe_send-bounded sess node cli msg l = ground (arith, length-append sess.cli_chan (msg ∷ []))
  safe_send-bounded sess node node msg l = ground (arith, length-append sess.cli_chan (msg ∷ []))

  pub snoc_assoc :
      (xs ys : List Msg) (msg : Msg) → (xs ++ ys) ++ (msg ∷ []) ≡ xs ++ (ys ++ (msg ∷ []))
  snoc_assoc [] ys msg = refl
  snoc_assoc (x ∷ xs) ys msg = ap (◌∷◌ x) (snoc_assoc xs ys msg)

  pub cons_assoc : (xs ys : List Msg) (msg : Msg) → xs ++ (msg ∷ ys) ≡ (xs ++ (msg ∷ [])) ++ ys
  cons_assoc [] ys msg = refl
  cons_assoc (x ∷ xs) ys msg = ap (◌∷◌ x) (cons_assoc xs ys msg)

  pub same_channel :
      (sess : PakeSession Msg) (r q : Role) → same_role r q ≡ true → channel q sess ≡ channel r sess
  same_channel sess cli cli e = refl
  same_channel sess node node e = refl
  same_channel sess cli node e = cc
  same_channel sess node cli e = cc
