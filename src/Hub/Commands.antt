-- ===== src/Hub/Commands.antt =====
-- pkg/hub/server/mobile_server.go and node_server.go: the relay of commands. A sender is a running SendCommand with its
-- local variables, a stream a running ReceiveCommands; both are numbered, and numbers from the next ones on are free. The id
-- of a command, which a library draws at random, is an argument. The statuses of nodes are left to the answers.
pub mod Heap
pub mod Steps
pub mod Senders
pub mod Streams
pub mod Queues
pub mod Routes
pub mod Replaced
mod Examples
use nitella.Base.{
  ◌^◌, ℕ, zero, suc, ◌+◌, ◌-◌, ◌*◌, ◌/◌, ◌%◌, ◌≤◌, ◌<◌, min, max, String, ◌≡◌, refl, sym, ap, ◌∙◌,
  ◌≢◌, ◌↔◌, ◌⊎◌, inl, inr, Bool, true, false, not, ◌&&◌, ◌||◌, Option, none, some, List, [], ◌∷◌,
  ◌++◌, map, arith, ltb, leb, ◌==◌, if◌then◌else◌, length, get_or, any-perm, any, all, All, str_eq,
  str_eq_iff, codes, concat, concat_cancel_left, concat_assoc, concat_apart, codes-concat,
  codes-injective, IsFree, separator_cancel, separator-IsFree, cut, split_on, is_digit, includes,
  Bool-cases, Option-cases, ◌>>=◌,
}
use nitella.Base.Map
use nitella.Base.Map.{
  Map, lookup-insert, lookup-erase, lookup-retain, lookup-insert_self, lookup-insert_ne,
  lookup-erase_self, lookup-erase_ne,
}

pub record Command (Payload : Type 0) : Type 0 where
  pub id : String
  pub encrypted : Payload

pub record CommandRequest (Payload : Type 0) : Type 0 where
  pub node_id : String
  pub routing_token : String
  pub encrypted : Option Payload

pub record CommandResponse (Payload : Type 0) : Type 0 where
  pub command_id : String
  pub encrypted_data : Option Payload

-- A channel of ten commands, and the node whose stream reads it.
pub record NodeStream (Payload : Type 0) : Type 0 where
  pub node_id : String
  pub cmd_ch : List (Command Payload)
  pub closed : Bool

-- The local variables of `SendCommand`; the channel of its response holds one.
pub record Sender (Payload : Type 0) : Type 0 where
  pub routing_token : String
  pub target : String
  pub cmd_ch : ℕ
  pub cmd : Command Payload
  pub resp_ch : Option (CommandResponse Payload)

pub record CommandServer (Payload : Type 0) : Type 0 where
  pub node_command_chans : Map ℕ
  pub streams : ℕ → NodeStream Payload
  pub next_stream : ℕ
  pub command_resp : Map ℕ
  pub senders : ℕ → Sender Payload
  pub next_sender : ℕ

pub data CommandError : Type 0 where
  token_required : CommandError
  invalid_token : CommandError
  node_mismatch : CommandError
  payload_required : CommandError
  offline : CommandError

pub data Begun : Type 0 where
  begun : ℕ → Begun
  failed : CommandError → Begun

-- A send on a closed channel ends the program.
pub data Sent : Type 0 where
  delivered : Sent
  blocked : Sent
  panicked : Sent

pub data Received (Payload : Type 0) : Type 0 where
  received : Command Payload → Received Payload
  waiting : Received Payload
  replaced : Received Payload

-- `GetNodeByRoutingToken`, over the ids and the tokens of the stored nodes.
unfoldable pub node_by_token : List (String × String) → String → Option String
node_by_token [] token = none
node_by_token ((id, owner) ∷ nodes) token =
    let rest = node_by_token nodes token in if str_eq owner token then some id else rest

abbrev pub is_at : Option ℕ → ℕ → Bool
is_at none c = false
is_at (some d) c = d == c

module _ {Payload : Type 0} where
  abbrev pub set_stream : CommandServer Payload → ℕ → NodeStream Payload → CommandServer Payload
  set_stream s c stream = record s { streams = λ j. if j == c then stream else s.streams j }

  abbrev pub set_sender : CommandServer Payload → ℕ → Sender Payload → CommandServer Payload
  set_sender s i sender = record s { senders = λ j. if j == i then sender else s.senders j }

  -- `NewHubServer`, as far as commands go; what is free holds the given command.
  unfoldable pub new_server : Command Payload → CommandServer Payload
  new_server cmd = record {
    node_command_chans = [];
    streams = λ c. record { node_id = ""; cmd_ch = []; closed = false };
    next_stream = 0;
    command_resp = [];
    senders =
        λ i. record { routing_token = ""; target = ""; cmd_ch = 0; cmd = cmd; resp_ch = none };
    next_sender = 0;
  }

  abbrev pub close_stream : Option ℕ → CommandServer Payload → CommandServer Payload
  close_stream none s = s
  close_stream (some c) s = set_stream s c (record (s.streams c) { closed = true })

  -- `ReceiveCommands` up to its loop.
  unfoldable pub open_stream : CommandServer Payload → String → CommandServer Payload
  open_stream s node_id =
      let s' = close_stream (Map.lookup node_id s.node_command_chans) s in
      record (set_stream s' s.next_stream
        (record { node_id = node_id; cmd_ch = []; closed = false })) {
          node_command_chans = Map.insert node_id s.next_stream s.node_command_chans;
          next_stream = s.next_stream + 1;
        }

  -- A round of its loop: what is left in a closed channel is still sent.
  unfoldable pub receive : CommandServer Payload → ℕ → CommandServer Payload × Received Payload
  receive s c = elim (s.streams c).cmd_ch [
    | [] ↦ (s, if (s.streams c).closed then replaced else waiting)
    | cmd ∷ cmds ↦ (set_stream s c (record (s.streams c) { cmd_ch = cmds }), received cmd)
  ]

  -- The cleanup of a stream, and whether its node is marked offline.
  unfoldable pub end_stream : CommandServer Payload → ℕ → CommandServer Payload × Bool
  end_stream s c =
      let node_id = (s.streams c).node_id in
      if is_at (Map.lookup node_id s.node_command_chans) c
      then (record s { node_command_chans = Map.erase node_id s.node_command_chans }, true)
      else (s, false)

  -- A new sender, whose response is waited for.
  unfoldable pub add_sender : CommandServer Payload → Sender Payload → CommandServer Payload
  add_sender s sender = record (set_sender s s.next_sender sender) {
    command_resp = Map.insert sender.cmd.id s.next_sender s.command_resp;
    next_sender = s.next_sender + 1;
  }

  -- `SendCommand` for the node of the token, up to its first `select`.
  unfoldable pub send_to :
      CommandServer Payload
      → String
      → String
      → Option Payload
      → String
      → CommandServer Payload × Begun
  send_to s target token none cmd_id = (s, failed payload_required)
  send_to s target token (some encrypted) cmd_id = elim (Map.lookup target s.node_command_chans) [
    | none ↦ (s, failed offline)
    | some c ↦ (
      add_sender s (record {
        routing_token = token;
        target = target;
        cmd_ch = c;
        cmd = record { id = cmd_id; encrypted = encrypted };
        resp_ch = none;
      }),
      begun s.next_sender,
    )
  ]

  unfoldable pub send_command :
      List (String × String)
      → CommandServer Payload
      → CommandRequest Payload
      → String
      → CommandServer Payload × Begun
  send_command nodes s req cmd_id =
      if str_eq req.routing_token ""
      then (s, failed token_required)
      else elim (node_by_token nodes req.routing_token) [
        | none ↦ (s, failed invalid_token)
        | some target ↦
            if not (str_eq req.node_id "") && not (str_eq target req.node_id)
            then (s, failed node_mismatch)
            else send_to s target req.routing_token req.encrypted cmd_id
      ]

  -- The first `select`.
  unfoldable pub forward : CommandServer Payload → ℕ → CommandServer Payload × Sent
  forward s i =
      let h = s.senders i in
      let stream = s.streams h.cmd_ch in
      if stream.closed
      then (s, panicked)
      else if ltb (length stream.cmd_ch) 10
      then (
        set_stream s h.cmd_ch (record stream { cmd_ch = stream.cmd_ch ++ (h.cmd ∷ []) }),
        delivered,
      )
      else (s, blocked)

  abbrev pub fill :
      Option (CommandResponse Payload) → CommandResponse Payload → Option (CommandResponse Payload)
  fill none resp = some resp
  fill (some old) resp = some old

  -- `RespondToCommand`, and whether it is accepted.
  unfoldable pub respond :
      CommandServer Payload → CommandResponse Payload → CommandServer Payload × Bool
  respond s resp = elim resp.encrypted_data [
    | none ↦ (s, false)
    | some bytes ↦ elim (Map.lookup resp.command_id s.command_resp) [
      | none ↦ (s, true)
      | some i ↦ (
        record (set_sender s i
            (record (s.senders i) { resp_ch = fill (s.senders i).resp_ch resp })) {
              command_resp = Map.erase resp.command_id s.command_resp;
            },
        true,
      )
    ]
  ]

  -- The second `select`, when there is a response.
  unfoldable pub take_response :
      CommandServer Payload → ℕ → CommandServer Payload × Option (CommandResponse Payload)
  take_response s i =
      (set_sender s i (record (s.senders i) { resp_ch = none }), (s.senders i).resp_ch)

  -- The deferred call of `SendCommand`.
  unfoldable pub end_sender : CommandServer Payload → ℕ → CommandServer Payload
  end_sender s i = record s { command_resp = Map.erase (s.senders i).cmd.id s.command_resp }
