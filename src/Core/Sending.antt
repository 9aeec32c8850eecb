-- ===== src/Core/Sending.antt =====
-- pkg/core/command.go and local.go: SendCommand and its three ways.
use nitella.Base.{ℕ, String, not, Option, none, some, ltb, ◌==◌, if◌then◌else◌, length, str_eq}
use nitella.Base.Map
use nitella.Base.Map.{
  Map, lookup-insert, lookup-erase, lookup-retain, lookup-insert_self, lookup-insert_ne,
  lookup-erase_self, lookup-erase_ne,
}
use nitella.Crypto.{
  Bytes, EncryptedPayload, Primitives, encrypt_with_signature, verify_signature, decrypt,
}
use nitella.Core.{
  CommandResult, Identity, Encoding, Drawn, LocalResponse, LocalConnection, Transport, Controller,
  Answer, no_identity, no_node_key, not_encrypted, not_sent, reported, no_response, not_signed,
  bad_signature, not_decrypted, bad_result, peer_failed, peer_not_connected, no_hub, done, failed,
  HubClient, is_direct, peer_for,
}

module _ (prim : Primitives) (enc : Encoding) (routing_token : String → Bytes → String) where
  -- The command with an id and a time, encrypted for the node and signed.
  unfoldable pub seal_command : Drawn → ℕ → Bytes → Bytes → Identity → Option EncryptedPayload
  seal_command drawn cmd_type payload node_key id =
      encrypt_with_signature prim drawn.ephemeral drawn.nonce
        (enc.secure_payload drawn.request_id drawn.timestamp (enc.command_payload cmd_type payload))
        node_key id.root_key id.fingerprint

  -- The end of both ways: decrypting and parsing a response.
  unfoldable pub open_result : EncryptedPayload → Identity → Answer
  open_result p id = elim (decrypt prim p id.root_key) [
    | none ↦ failed not_decrypted
    | some bytes ↦ elim (enc.command_result bytes) [
      | none ↦ failed bad_result
      | some result ↦ done result
    ]
  ]

  -- A response of the hub has to be signed by the node.
  unfoldable pub check_response : Option (Option EncryptedPayload) → Bytes → Identity → Answer
  check_response none node_key id = failed not_sent
  check_response (some none) node_key id = failed no_response
  check_response (some (some p)) node_key id =
      if length p.signature == 0
      then failed not_signed
      else if not (verify_signature prim p node_key)
      then failed bad_signature
      else open_result p id

  -- `sendCommandViaHub`
  unfoldable pub send_via_hub :
      HubClient → Drawn → String → ℕ → Bytes → Bytes → Identity → String → Answer
  send_via_hub hub drawn node_id cmd_type payload node_key id token =
      elim (seal_command drawn cmd_type payload node_key id) [
        | none ↦ failed not_encrypted
        | some encrypted ↦
            check_response
              (hub (record { node_id = node_id; encrypted = encrypted; routing_token = token }))
              node_key id
      ]

  unfoldable pub check_local : Option LocalResponse → Identity → Answer
  check_local none id = failed not_sent
  check_local (some resp) id = elim resp.encrypted [
    | none ↦
        if str_eq resp.status "ERROR"
        then failed (reported resp.error_message)
        else failed no_response
    | some p ↦ open_result p id
  ]

  -- `sendCommandLocal`; the client is given the token that goes into the metadata.
  unfoldable pub send_local : LocalConnection → Drawn → ℕ → Bytes → Identity → Answer
  send_local lc drawn cmd_type payload id = elim lc.node_pub_key [
    | none ↦ failed no_node_key
    | some node_key ↦ elim (seal_command drawn cmd_type payload node_key id) [
      | none ↦ failed not_encrypted
      | some encrypted ↦
          check_local
            (lc.client lc.token
              (record { encrypted = encrypted; viewer_pubkey = prim.public_key id.root_key }))
            id
    ]
  ]

  -- `sendCommandViaP2P`
  unfoldable pub send_via_p2p : Transport → Drawn → String → ℕ → Bytes → Option CommandResult
  send_via_p2p trans drawn node_id cmd_type payload =
      trans.send_and_wait node_id drawn.request_id cmd_type
        (enc.secure_payload drawn.request_id drawn.timestamp (enc.command_payload cmd_type payload))

  unfoldable pub token_for : Controller → String → String
  token_for c node_id =
      if ltb 0 (length c.routing_secret) then routing_token node_id c.routing_secret else ""

  -- The last part of `SendCommand`.
  unfoldable pub by_hub_or_fail : Controller → Drawn → String → ℕ → Bytes → Identity → Answer
  by_hub_or_fail c drawn node_id cmd_type payload id = elim c.mobile_client [
    | none ↦ failed no_hub
    | some hub ↦ elim (Map.lookup node_id c.node_public_keys) [
      | none ↦ failed no_node_key
      | some node_key ↦
          send_via_hub hub drawn node_id cmd_type payload node_key id (token_for c node_id)
    ]
  ]

  -- `SendCommand` without a local connection; the second draw is the one of the hub's turn.
  unfoldable pub send_remote : Controller → Drawn → Drawn → String → ℕ → Bytes → Identity → Answer
  send_remote c drawn again node_id cmd_type payload id =
      let last = by_hub_or_fail c again node_id cmd_type payload id in
      elim (peer_for c node_id) [
        | none ↦ if is_direct c.p2p_mode then failed peer_not_connected else last
        | some trans ↦ elim (send_via_p2p trans drawn node_id cmd_type payload) [
          | some result ↦ done result
          | none ↦ if is_direct c.p2p_mode then failed peer_failed else last
        ]
      ]

  -- `SendCommand`
  unfoldable pub send_command : Controller → Drawn → Drawn → String → ℕ → Bytes → Answer
  send_command c drawn again node_id cmd_type payload = elim c.identity [
    | none ↦ failed no_identity
    | some id ↦ elim (Map.lookup node_id c.local_clients) [
      | some lc ↦ send_local lc drawn cmd_type payload id
      | none ↦ send_remote c drawn again node_id cmd_type payload id
    ]
  ]
