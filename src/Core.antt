-- ===== src/Core.antt =====
-- pkg/core: what a phone or the command line does with a command. The clients of the hub and of a node, the encodings
-- of messages and the transport between peers are parameters; what is drawn at random and the clock are arguments.
pub mod Sending
pub mod Origins
mod Examples
use nitella.Base.{
  ◌^◌, ℕ, zero, suc, ◌+◌, ◌-◌, ◌*◌, ◌/◌, ◌%◌, ◌≤◌, ◌<◌, min, max, String, ◌≡◌, refl, sym, ap, ◌∙◌,
  ◌≢◌, ◌↔◌, ◌⊎◌, inl, inr, Bool, true, false, not, ◌&&◌, ◌||◌, Option, none, some, List, [], ◌∷◌,
  ◌++◌, map, arith, ltb, leb, ◌==◌, if◌then◌else◌, length, get_or, any-perm, any, all, All, str_eq,
  str_eq_iff, codes, concat, concat_cancel_left, concat_assoc, concat_apart, codes-concat,
  codes-injective, IsFree, separator_cancel, separator-IsFree, cut, split_on, is_digit, includes,
  Bool-cases, Option-cases, ◌>>=◌,
}
use nitella.Base.Map
use nitella.Base.Map.{
  Map, lookup-insert, lookup-erase, lookup-retain, lookup-insert_self, lookup-insert_ne,
  lookup-erase_self, lookup-erase_ne,
}
use nitella.Crypto.{
  Bytes, EncryptedPayload, Primitives, encrypt_with_signature, verify_signature, decrypt,
}

pub data P2PMode : Type 0 where
  unspecified : P2PMode
  by_hub : P2PMode
  auto : P2PMode
  direct : P2PMode

pub record CommandResult : Type 0 where
  pub status : String
  pub error_message : String
  pub response_payload : Bytes

pub record Identity : Type 0 where
  pub root_key : Bytes
  pub fingerprint : String

-- `Marshal` and `Unmarshal` of the messages.
pub record Encoding : Type 0 where
  pub command_payload : ℕ → Bytes → Bytes
  pub secure_payload : String → ℕ → Bytes → Bytes
  pub command_result : Bytes → Option CommandResult

-- What a call draws, and the time that it reads.
pub record Drawn : Type 0 where
  pub request_id : String
  pub timestamp : ℕ
  pub ephemeral : Bytes
  pub nonce : Bytes

pub record HubRequest : Type 0 where
  pub node_id : String
  pub encrypted : EncryptedPayload
  pub routing_token : String

pub record LocalRequest : Type 0 where
  pub encrypted : EncryptedPayload
  pub viewer_pubkey : Bytes

pub record LocalResponse : Type 0 where
  pub status : String
  pub error_message : String
  pub encrypted : Option EncryptedPayload

-- The answer to a request, if it does not fail.
pub record LocalConnection : Type 0 where
  pub client : String → LocalRequest → Option LocalResponse
  pub token : String
  pub node_pub_key : Option Bytes

pub record Transport : Type 0 where
  pub is_connected : String → Bool
  pub is_authenticated : String → Bool
  pub send_and_wait : String → String → ℕ → Bytes → Option CommandResult

-- A client of the hub; a response need not have encrypted data.
abbrev pub HubClient : Type 0
HubClient = HubRequest → Option (Option EncryptedPayload)

pub record Controller : Type 0 where
  pub p2p_mode : P2PMode
  pub routing_secret : Bytes
  pub identity : Option Identity
  pub mobile_client : Option HubClient
  pub node_public_keys : Map Bytes
  pub local_clients : Map LocalConnection
  pub p2p_transport : Option Transport

pub data CoreError : Type 0 where
  no_identity : CoreError
  no_node_key : CoreError
  not_encrypted : CoreError
  not_sent : CoreError
  reported : String → CoreError
  no_response : CoreError
  not_signed : CoreError
  bad_signature : CoreError
  not_decrypted : CoreError
  bad_result : CoreError
  peer_failed : CoreError
  peer_not_connected : CoreError
  no_hub : CoreError

pub data Answer : Type 0 where
  done : CommandResult → Answer
  failed : CoreError → Answer

-- `New`
abbrev pub start_mode : P2PMode → P2PMode
start_mode unspecified = by_hub
start_mode by_hub = by_hub
start_mode auto = auto
start_mode direct = direct

unfoldable pub new_controller : P2PMode → Bytes → Controller
new_controller mode secret = record {
  p2p_mode = start_mode mode;
  routing_secret = secret;
  identity = none;
  mobile_client = none;
  node_public_keys = [];
  local_clients = [];
  p2p_transport = none;
}

-- `SetIdentity` of an identity that is not nil
unfoldable pub set_identity : Controller → Identity → Controller
set_identity c id =
    if length c.routing_secret == 0
    then record c { identity = some id; routing_secret = id.root_key }
    else record c { identity = some id }

abbrev pub with_key : Option Bytes → String → Map Bytes → Map Bytes
with_key none node_id keys = keys
with_key (some key) node_id keys = Map.insert node_id key keys

-- `SetLocalConnection` and `RemoveLocalConnection`
unfoldable pub set_local_connection : Controller → String → LocalConnection → Controller
set_local_connection c node_id lc = record c {
  local_clients = Map.insert node_id lc c.local_clients;
  node_public_keys = with_key lc.node_pub_key node_id c.node_public_keys;
}

unfoldable pub remove_local_connection : Controller → String → Controller
remove_local_connection c node_id = record c { local_clients = Map.erase node_id c.local_clients }

-- `RegisterNodeKey` and `SetP2PMode`
unfoldable pub register_node_key : Controller → String → Bytes → Controller
register_node_key c node_id key = record c {
  node_public_keys = Map.insert node_id key c.node_public_keys;
}

unfoldable pub set_p2p_mode : Controller → P2PMode → Controller
set_p2p_mode c mode = record c { p2p_mode = mode }

abbrev pub is_by_hub : P2PMode → Bool
is_by_hub unspecified = false
is_by_hub by_hub = true
is_by_hub auto = false
is_by_hub direct = false

abbrev pub is_direct : P2PMode → Bool
is_direct unspecified = false
is_direct by_hub = false
is_direct auto = false
is_direct direct = true

-- The transport, if the command is to be tried there.
unfoldable pub peer_for : Controller → String → Option Transport
peer_for c node_id = elim c.p2p_transport [
  | none ↦ none
  | some trans ↦
      if not (is_by_hub c.p2p_mode) && trans.is_connected node_id && trans.is_authenticated node_id
      then some trans
      else none
]
