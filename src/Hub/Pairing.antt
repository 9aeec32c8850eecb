-- ===== src/Hub/Pairing.antt =====
-- pkg/hub/server/pairing_server.go: the relay of pairing messages. A session lives on the heap, since the
-- handlers that joined it keep it when its code is taken off the map; the heap is a function of the
-- session's number, and numbers from `next` on are free. Each block under a lock is one step.
pub mod Channels
pub mod Relay
pub mod Flags
pub mod Seats
mod Examples
use nitella.Base.{
  ◌^◌, ℕ, zero, suc, ◌+◌, ◌-◌, ◌*◌, ◌/◌, ◌%◌, ◌≤◌, ◌<◌, min, max, String, ◌≡◌, refl, sym, ap, ◌∙◌,
  ◌≢◌, ◌↔◌, ◌⊎◌, inl, inr, Bool, true, false, not, ◌&&◌, ◌||◌, Option, none, some, List, [], ◌∷◌,
  ◌++◌, map, arith, ltb, leb, ◌==◌, if◌then◌else◌, length, get_or, any-perm, any, all, All, str_eq,
  str_eq_iff, codes, concat, concat_cancel_left, concat_assoc, concat_apart, codes-concat,
  codes-injective, IsFree, separator_cancel, separator-IsFree, cut, split_on, is_digit, includes,
  Bool-cases, Option-cases,
}
use nitella.Base.Map
use nitella.Base.Map.{
  Map, lookup-insert, lookup-erase, lookup-retain, lookup-insert_self, lookup-insert_ne,
  lookup-erase_self, lookup-erase_ne,
}

pub data Role : Type 0 where
  cli : Role
  node : Role

pub record PakeSession (Msg : Type 0) : Type 0 where
  pub code : String
  pub cli_chan : List Msg
  pub node_chan : List Msg
  pub created : ℕ
  pub cli_joined : Bool
  pub node_joined : Bool
  pub cli_user_id : String
  pub cli_peer_addr : String
  pub node_peer_addr : String
  pub closed : Bool

pub record PairingServer (Msg : Type 0) : Type 0 where
  pub pake_sessions : Map ℕ
  pub heap : ℕ → PakeSession Msg
  pub next : ℕ

pub data JoinError : Type 0 where
  code_required : JoinError
  code_too_long : JoinError
  bad_role : JoinError
  already_connected : JoinError

pub data Joined : Type 0 where
  joined : ℕ → Role → Joined
  refused : JoinError → Joined

-- `role != "cli" && role != "node"`
unfoldable pub role_of : String → Option Role
role_of role =
    if str_eq role "cli" then some cli else if str_eq role "node" then some node else none

abbrev pub opposite : Role → Role
opposite cli = node
opposite node = cli

-- A text that is kept where the new one is empty.
abbrev pub or_else : String → String → String
or_else text old = if str_eq text "" then old else text

module _ {Msg : Type 0} where
  -- A session that nobody has joined.
  abbrev pub new_session : String → ℕ → PakeSession Msg
  new_session code now = record {
    code = code;
    cli_chan = [];
    node_chan = [];
    created = now;
    cli_joined = false;
    node_joined = false;
    cli_user_id = "";
    cli_peer_addr = "";
    node_peer_addr = "";
    closed = false;
  }

  -- `NewPairingServer`
  unfoldable pub new_pairing_server : PairingServer Msg
  new_pairing_server = record { pake_sessions = []; heap = λ i. new_session "" 0; next = 0 }

  abbrev pub store : PairingServer Msg → ℕ → PakeSession Msg → PairingServer Msg
  store ps i sess = record ps { heap = λ j. if j == i then sess else ps.heap j }

  -- The channel that a role reads from.
  abbrev pub channel : Role → PakeSession Msg → List Msg
  channel cli sess = sess.cli_chan
  channel node sess = sess.node_chan

  abbrev pub set_channel : Role → List Msg → PakeSession Msg → PakeSession Msg
  set_channel cli msgs sess = record sess { cli_chan = msgs }
  set_channel node msgs sess = record sess { node_chan = msgs }

  abbrev pub has_joined : Role → PakeSession Msg → Bool
  has_joined cli sess = sess.cli_joined
  has_joined node sess = sess.node_joined

  -- `safeSend`: a message of a role goes to the channel of the other one, which holds ten.
  unfoldable pub safe_send : PakeSession Msg → Role → Msg → PakeSession Msg × Bool
  safe_send sess role msg =
      let queue = channel (opposite role) sess in
      if sess.closed
      then (sess, false)
      else if ltb (length queue) 10
      then (set_channel (opposite role) (queue ++ (msg ∷ [])) sess, true)
      else (sess, false)

  -- A role is marked as joined.
  unfoldable pub mark_joined : PakeSession Msg → Role → String → String → PakeSession Msg
  mark_joined sess cli user peer = record sess {
    cli_joined = true;
    cli_user_id = or_else user sess.cli_user_id;
    cli_peer_addr = or_else peer sess.cli_peer_addr;
  }
  mark_joined sess node user peer = record sess {
    node_joined = true;
    node_peer_addr = or_else peer sess.node_peer_addr;
  }

  -- `if !exists`: the session of a code, which is made where there is none.
  unfoldable pub get_or_create : PairingServer Msg → String → ℕ → PairingServer Msg × ℕ
  get_or_create ps code now = elim (Map.lookup code ps.pake_sessions) [
    | some i ↦ (ps, i)
    | none ↦ (
      record (store ps ps.next (new_session code now)) {
        pake_sessions = Map.insert code ps.next ps.pake_sessions;
        next = ps.next + 1;
      },
      ps.next,
    )
  ]

  -- The locked block of `PakeExchange`.
  unfoldable pub join :
      PairingServer Msg → String → Role → String → String → ℕ → PairingServer Msg × Joined
  join ps code role user peer now =
      let (ps', i) = get_or_create ps code now in
      if has_joined role (ps'.heap i)
      then (ps', refused already_connected)
      else (store ps' i (mark_joined (ps'.heap i) role user peer), joined i role)

  -- `PakeExchange` up to the relay: the checks of the first message and the locked block. The length of
  -- the code is in bytes.
  unfoldable pub open_exchange :
      PairingServer Msg → String → ℕ → String → String → String → ℕ → PairingServer Msg × Joined
  open_exchange ps code code_bytes role user peer now =
      if str_eq code ""
      then (ps, refused code_required)
      else if ltb 128 code_bytes
      then (ps, refused code_too_long)
      else elim (role_of role) [
        | none ↦ (ps, refused bad_role)
        | some r ↦ join ps code r user peer now
      ]

  -- A stream's message, also the first one.
  unfoldable pub relay : PairingServer Msg → ℕ → Role → Msg → PairingServer Msg × Bool
  relay ps i role msg = let (sess, sent) = safe_send (ps.heap i) role msg in (store ps i sess, sent)

  abbrev pub tail_of : Role → PakeSession Msg → List Msg → PakeSession Msg × Option Msg
  tail_of role sess [] = (sess, none)
  tail_of role sess (msg ∷ msgs) = (set_channel role msgs sess, some msg)

  -- `<-recvChan`: what is left in a closed channel is still delivered.
  unfoldable pub receive : PairingServer Msg → ℕ → Role → PairingServer Msg × Option Msg
  receive ps i role =
      let (sess, msg) = tail_of role (ps.heap i) (channel role (ps.heap i)) in
      (store ps i sess, msg)

  abbrev pub close : PakeSession Msg → PakeSession Msg
  close sess = record sess { closed = true }

  abbrev pub mark_left : Role → PakeSession Msg → PakeSession Msg
  mark_left cli sess = record sess { cli_joined = false }
  mark_left node sess = record sess { node_joined = false }

  -- The end of a stream, with the code that it came with.
  unfoldable pub leave : PairingServer Msg → ℕ → Role → String → PairingServer Msg
  leave ps i role code =
      let sess = mark_left role (ps.heap i) in
      if not sess.cli_joined && not sess.node_joined
      then record (store ps i (close sess)) { pake_sessions = Map.erase code ps.pake_sessions }
      else store ps i sess

  abbrev pub is_expired : ℕ → PakeSession Msg → Bool
  is_expired now sess = ltb (5 * 60 * 1000000000) (now - sess.created)

  -- The loop of `cleanupLoop` over the sessions.
  unfoldable pub cleanup : PairingServer Msg → ℕ → PairingServer Msg
  cleanup ps now = record ps {
    heap = λ i.
        if any (λ e. e.1 == i) ps.pake_sessions && is_expired now (ps.heap i)
        then close (ps.heap i)
        else ps.heap i;
    pake_sessions = Map.retain (λ i. not (is_expired now (ps.heap i))) ps.pake_sessions;
  }
