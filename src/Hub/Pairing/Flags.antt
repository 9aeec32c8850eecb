-- ===== src/Hub/Pairing/Flags.antt =====
-- pkg/hub/server/pairing_server.go: the streams of a session and what each operation makes of its flags.
use nitella.Base.{
  ==_iff, ℕ, ◌+◌, ◌≤◌, String, ◌≡◌, refl, Bool, true, false, ◌&&◌, List, [], ◌∷◌, ◌++◌, arith, ◌==◌,
  if◌then◌else◌,
}
use nitella.Hub.Pairing.{
  Role, cli, node, PakeSession, opposite, new_session, channel, set_channel, has_joined,
  mark_joined, safe_send, mark_left, close, Joined, joined, refused, tail_of,
}
use nitella.Hub.Pairing.Channels.{same_role}

-- A stream that has joined: its session and its role.
abbrev pub Stream : Type 0
Stream = ℕ × Role

abbrev pub is_stream : ℕ → Role → Stream → Bool
is_stream i role (j, r) = j == i && same_role r role

-- How many streams a session has in a role.
abbrev pub seated : ℕ → Role → List Stream → ℕ
seated i role [] = 0
seated i role (s ∷ streams) = (if is_stream i role s then 1 else 0) + seated i role streams

-- The streams after one has ended.
abbrev pub without : ℕ → Role → List Stream → List Stream
without i role [] = []
without i role (s ∷ streams) =
    let rest = without i role streams in if is_stream i role s then streams else s ∷ rest

abbrev pub with_joined : Joined → List Stream → List Stream
with_joined (joined i role) streams = (i, role) ∷ streams
with_joined (refused e) streams = streams

pub same_role_trans : (r s q : Role) → same_role r s ≡ true → same_role r q ≡ same_role s q
same_role_trans cli cli q e = refl
same_role_trans node node q e = refl
same_role_trans cli node q e = cc
same_role_trans node cli q e = cc

pub seated-without :
    (i : ℕ) (role : Role) (ss : List Stream) (j : ℕ) (q : Role)
    → 1 ≤ seated i role ss
    → seated j q ss ≡ seated j q (without i role ss) + (if j == i && same_role role q then 1 else 0)
seated-without i role [] j q l = omega arith
seated-without i role ((k, r) ∷ ss) j q l = ground (
  arith,
  seated-without i role ss j q,
  same_role_trans r role q,
  ==_iff k i,
  ==_iff k j,
  ==_iff j i,
)

pub has_joined-new_session :
    (Msg : Type 0) (code : String) (now : ℕ) (q : Role)
    → has_joined q (new_session {Msg = Msg} code now) ≡ false
has_joined-new_session Msg code now cli = refl
has_joined-new_session Msg code now node = refl

module _ {Msg : Type 0} where
  pub has_joined-set_channel :
      (sess : PakeSession Msg) (r q : Role) (msgs : List Msg)
      → has_joined q (set_channel r msgs sess) ≡ has_joined q sess
  has_joined-set_channel sess cli cli msgs = refl
  has_joined-set_channel sess cli node msgs = refl
  has_joined-set_channel sess node cli msgs = refl
  has_joined-set_channel sess node node msgs = refl

  pub has_joined-close :
      (sess : PakeSession Msg) (q : Role) → has_joined q (close sess) ≡ has_joined q sess
  has_joined-close sess cli = refl
  has_joined-close sess node = refl

  pub has_joined-mark_joined :
      (sess : PakeSession Msg) (r q : Role) (user peer : String)
      → has_joined q (mark_joined sess r user peer)
        ≡ (if same_role r q then true else has_joined q sess)
  unfolding mark_joined
  has_joined-mark_joined sess cli cli user peer = refl
  has_joined-mark_joined sess cli node user peer = refl
  has_joined-mark_joined sess node cli user peer = refl
  has_joined-mark_joined sess node node user peer = refl

  pub has_joined-mark_left :
      (sess : PakeSession Msg) (r q : Role)
      → has_joined q (mark_left r sess) ≡ (if same_role r q then false else has_joined q sess)
  has_joined-mark_left sess cli cli = refl
  has_joined-mark_left sess cli node = refl
  has_joined-mark_left sess node cli = refl
  has_joined-mark_left sess node node = refl

  pub safe_send-flags :
      (sess : PakeSession Msg) (r q : Role) (msg : Msg)
      → has_joined q (safe_send sess r msg).0 ≡ has_joined q sess
  unfolding safe_send
  safe_send-flags sess r q msg =
      ground (
        arith,
        has_joined-set_channel sess (opposite r) q (channel (opposite r) sess ++ (msg ∷ [])),
      )

  pub tail_of-flags :
      (sess : PakeSession Msg) (r q : Role) (queue : List Msg)
      → has_joined q (tail_of r sess queue).0 ≡ has_joined q sess
  tail_of-flags sess r q [] = refl
  tail_of-flags sess r q (msg ∷ queue) = has_joined-set_channel sess r q queue

  pub same_role_eq :
      (r q : Role) (sess : PakeSession Msg)
      → same_role r q ≡ true
      → has_joined q sess ≡ has_joined r sess
  same_role_eq cli cli sess e = refl
  same_role_eq node node sess e = refl
  same_role_eq cli node sess e = cc
  same_role_eq node cli sess e = cc
