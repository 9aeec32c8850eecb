-- ===== src/Core/Examples.antt =====
-- pkg/core/command.go: one command by way of the hub, with simple functions for the primitives.
use nitella.Base.{ℕ, String, ◌≡◌, refl, ◌≢◌, ◌⊎◌, true, none, some, [], ◌∷◌}
use nitella.Base.Map
use nitella.Base.Map.{
  Map, lookup-insert, lookup-erase, lookup-retain, lookup-insert_self, lookup-insert_ne,
  lookup-erase_self, lookup-erase_ne,
}
use nitella.Crypto.{
  Bytes, Primitives, repeated, curve_public, copied, update, from_bytes, to_bytes, same_bytes,
  is_small_order_point, encrypt, encrypt_with_signature, verify_signature, sign, verify, sig_input,
  decrypt, open_with, derive_key, curve_private, first_bytes,
}
use nitella.Core.{
  direct, unspecified, CommandResult, Identity, Encoding, Drawn, HubClient, Controller, not_signed,
  peer_not_connected, done, failed, new_controller, set_identity, register_node_key, set_p2p_mode,
  peer_for,
}
use nitella.Core.Sending.{
  open_result, check_response, send_via_hub, token_for, by_hub_or_fail, send_remote, send_command,
  seal_command,
}
use nitella.Core.Origins.{IsFromPeer, IsSigned, send_command-origin}

abbrev constant : ℕ → ℕ → Bytes
constant n b = repeated n b []

abbrev primitives : Primitives
primitives = record {
  public_key = λ priv. constant 32 9;
  mod_inverse = λ a m. some 2;
  sha512 = λ bs. constant 64 7;
  x25519 = λ scalar point. some (constant 32 5);
  basepoint = constant 32 9;
  hkdf = λ secret info. constant 32 3;
  seal = λ key nonce plaintext ad. plaintext;
  unseal = λ key nonce ciphertext ad. some ciphertext;
  sign_bytes = λ priv bs. constant 64 1;
  verify_bytes = λ public bs signature. true;
}

abbrev encoding : Encoding
encoding = record {
  command_payload = λ t bs. t ∷ bs;
  secure_payload = λ id now bs. now ∷ bs;
  command_result = λ bs. some (record { status = "OK"; error_message = ""; response_payload = bs });
}

abbrev token : String → Bytes → String
token node_id secret = node_id

abbrev me : Identity
me = record { root_key = constant 64 1; fingerprint = "me" }

abbrev drawn : Drawn
drawn = record { request_id = "r"; timestamp = 1; ephemeral = constant 32 4; nonce = constant 12 0 }

-- the hub sends the payload back, as it is or without its signature
abbrev echo : HubClient
echo req = some (some req.encrypted)

abbrev stripped : HubClient
stripped req = some (some (record req.encrypted { signature = [] }))

abbrev controller : HubClient → Controller
controller hub =
    record (register_node_key (set_identity (new_controller unspecified []) me) "n"
      (constant 32 9)) { mobile_client = some hub }

abbrev result : CommandResult
result = record { status = "OK"; error_message = ""; response_payload = 1 ∷ 7 ∷ 8 ∷ [] }

by_way_of_hub :
    (send_command primitives encoding token (controller echo) drawn drawn "n" 7 (8 ∷ [])
      ≡ done result)
    × (send_command primitives encoding token (controller stripped) drawn drawn "n" 7 (8 ∷ [])
        ≡ failed not_signed)
    × (send_command primitives encoding token
          (set_p2p_mode (controller echo) direct)
          drawn
          drawn
          "n"
          7
          (8 ∷ [])
        ≡ failed peer_not_connected)
unfolding repeated curve_public copied update from_bytes to_bytes same_bytes is_small_order_point
    encrypt encrypt_with_signature verify_signature sign verify sig_input decrypt open_with
    derive_key curve_private first_bytes new_controller set_identity register_node_key set_p2p_mode
    open_result check_response send_via_hub peer_for token_for by_hub_or_fail send_remote
    send_command seal_command Map.lookup Map.insert
by_way_of_hub = (refl, refl, refl)

known :
    ((controller echo).identity ≡ some me) × (Map.lookup "n" (controller echo).local_clients ≡ none)
unfolding new_controller set_identity register_node_key Map.lookup
known = (refl, refl)

send_command-origin_example :
    IsFromPeer primitives encoding token (controller echo) drawn "n" 7 (8 ∷ []) result
    ⊎ (((controller echo).p2p_mode ≢ direct)
        × IsSigned primitives encoding token (controller echo) drawn "n" 7 (8 ∷ []) me result)
send_command-origin_example =
    send_command-origin primitives encoding token (controller echo) drawn drawn "n" 7 (8 ∷ []) me
      result known.0 known.1 by_way_of_hub.0
