-- ===== src/Core/Origins.antt =====
-- pkg/core/command.go: where the result of a command comes from.
use nitella.Base.{
  ℕ, String, ◌≡◌, refl, sym, ap, ◌∙◌, ◌≢◌, ◌⊎◌, inl, inr, Bool, true, false, not, ◌&&◌, Option,
  none, some, arith, ◌==◌, length, Bool-cases, Option-cases,
}
use nitella.Base.Map
use nitella.Base.Map.{
  Map, lookup-insert, lookup-erase, lookup-retain, lookup-insert_self, lookup-insert_ne,
  lookup-erase_self, lookup-erase_ne,
}
use mathlib.Core.Path.{subst}
use mathlib.Core.Bool.{true≢false}
use nitella.Crypto.{Bytes, EncryptedPayload, Primitives, verify_signature, decrypt}
use nitella.Core.{
  P2PMode, by_hub, direct, CommandResult, Identity, Encoding, Drawn, HubRequest, HubClient,
  Transport, Controller, CoreError, Answer, done, failed, not_decrypted, bad_result, no_hub,
  no_node_key, not_encrypted, peer_not_connected, peer_failed, not_signed, bad_signature, peer_for,
  is_direct, is_by_hub,
}
use nitella.Core.Sending.{
  open_result, check_response, send_via_hub, send_via_p2p, token_for, by_hub_or_fail, send_remote,
  send_command, seal_command,
}

module _ (prim : Primitives) (enc : Encoding) (routing_token : String → Bytes → String) where
  -- What a hub is asked: the command, encrypted for a key of the node, with the routing token of the node.
  abbrev pub asked : Controller → String → EncryptedPayload → HubRequest
  asked c node_id encrypted = record {
    node_id = node_id;
    encrypted = encrypted;
    routing_token = token_for prim enc routing_token c node_id;
  }

  -- A result that the hub has answered to the sealed command, in a payload that is accepted under the key that is known of the
  -- node.
  abbrev pub IsSigned : Controller → Drawn → String → ℕ → Bytes → Identity → CommandResult → Type 0
  IsSigned c drawn node_id cmd_type payload id result =
      (hub : HubClient) × (node_key : Bytes) × (encrypted p : EncryptedPayload) × (bytes : Bytes)
      × (c.mobile_client ≡ some hub)
      × (Map.lookup node_id c.node_public_keys ≡ some node_key)
      × (seal_command prim enc routing_token drawn cmd_type payload node_key id ≡ some encrypted)
      × (hub (asked c node_id encrypted) ≡ some (some p))
      × (verify_signature prim p node_key ≡ true)
      × (decrypt prim p id.root_key ≡ some bytes)
      × (enc.command_result bytes ≡ some result)

  -- A result that the transport yields for a request to a peer that is connected and authenticated.
  abbrev pub IsFromPeer : Controller → Drawn → String → ℕ → Bytes → CommandResult → Type 0
  IsFromPeer c drawn node_id cmd_type payload result =
      (trans : Transport) × (c.p2p_transport ≡ some trans)
      × (c.p2p_mode ≢ by_hub)
      × (trans.is_connected node_id ≡ true)
      × (trans.is_authenticated node_id ≡ true)
      × (send_via_p2p prim enc routing_token trans drawn node_id cmd_type payload ≡ some result)

  failed_apart : (e : CoreError) (result : CommandResult) → failed e ≢ done result
  failed_apart e result p = ground (arith, p)

  done-injective : (r result : CommandResult) → done r ≡ done result → r ≡ result
  done-injective r result e = ap (λ (a : Answer). elim a [ done x ↦ x | failed x ↦ r ]) e

  not_direct : (mode : P2PMode) → is_direct mode ≡ false → mode ≢ direct
  not_direct mode e p = true≢false (sym (ap is_direct p) ∙ e)

  not_by_hub : (mode : P2PMode) → not (is_by_hub mode) ≡ true → mode ≢ by_hub
  not_by_hub mode e p = true≢false (sym e ∙ ap (λ (m : P2PMode). not (is_by_hub m)) p)

  nothing_apart : (trans : Transport) → ◌≢◌ {A = Option Transport} none (some trans)
  nothing_apart trans p = ground (arith, p)

  some-same : (t trans : Transport) → some t ≡ some trans → t ≡ trans
  some-same t trans e = ap (λ (o : Option Transport). elim o [ none ↦ t | some x ↦ x ]) e

  all_three : (a b c : Bool) → (a && b && c) ≡ true → (a ≡ true) × (b ≡ true) × (c ≡ true)
  all_three a b c e = ground (arith, e)

  open-lem :
      (p : EncryptedPayload) (id : Identity) (result : CommandResult)
      → open_result prim enc routing_token p id ≡ done result
      → (bytes : Bytes) × (decrypt prim p id.root_key ≡ some bytes)
        × (enc.command_result bytes ≡ some result)
  unfolding open_result
  open-lem p id result e = elim (Option-cases (decrypt prim p id.root_key)) [
    | inl closed ↦
        absurd (failed_apart not_decrypted result (sym (rw (closed, open_result) refl) ∙ e))
    | inr (bytes, opened) ↦ elim (Option-cases (enc.command_result bytes)) [
      | inl bad ↦
          absurd (failed_apart bad_result result (sym (rw (opened, bad, open_result) refl) ∙ e))
      | inr (r, parsed) ↦ (
        bytes,
        opened,
        parsed
            ∙ ap some (done-injective r result (sym (rw (opened, parsed, open_result) refl) ∙ e)),
      )
    ]
  ]

  check-lem :
      (resp : Option (Option EncryptedPayload)) (node_key : Bytes) (id : Identity)
      (result : CommandResult)
      → check_response prim enc routing_token resp node_key id ≡ done result
      → (p : EncryptedPayload) × (resp ≡ some (some p))
        × (verify_signature prim p node_key ≡ true)
        × (open_result prim enc routing_token p id ≡ done result)
  unfolding check_response
  check-lem none node_key id result e = absurd (failed_apart _ result e)
  check-lem (some none) node_key id result e = absurd (failed_apart _ result e)
  check-lem (some (some p)) node_key id result e = elim (Bool-cases (length p.signature == 0)) [
    | inl bare ↦ absurd (failed_apart not_signed result (sym (rw (bare) refl) ∙ e))
    | inr signed ↦ elim (Bool-cases (verify_signature prim p node_key)) [
      | inl accepted ↦ (p, refl, accepted, sym (rw (signed, accepted) refl) ∙ e)
      | inr refused ↦
          absurd (failed_apart bad_signature result (sym (rw (signed, refused) refl) ∙ e))
    ]
  ]

  hub-lem :
      (c : Controller) (drawn : Drawn) (node_id : String) (cmd_type : ℕ) (payload : Bytes)
      (id : Identity) (result : CommandResult)
      → by_hub_or_fail prim enc routing_token c drawn node_id cmd_type payload id ≡ done result
      → IsSigned c drawn node_id cmd_type payload id result
  unfolding by_hub_or_fail send_via_hub token_for
  hub-lem c drawn node_id cmd_type payload id result e = elim (Option-cases c.mobile_client) [
    | inl absent ↦ absurd (failed_apart no_hub result (sym (rw (absent, by_hub_or_fail) refl) ∙ e))
    | inr (hub, present) ↦ elim (Option-cases (Map.lookup node_id c.node_public_keys)) [
      | inl unknown ↦
          absurd
            (failed_apart no_node_key result (sym (rw (present, unknown, by_hub_or_fail) refl) ∙ e))
      | inr (node_key, known) ↦
          elim (Option-cases
            (seal_command prim enc routing_token drawn cmd_type payload node_key id)) [
              | inl unsealed ↦ absurd (
                  failed_apart not_encrypted result
                    (sym (rw (present, known, unsealed, by_hub_or_fail, send_via_hub) refl) ∙ e))
              | inr (encrypted, sealed) ↦
                  let resp = hub (asked c node_id encrypted) in
                  let (p, answered, accepted, opened) =
                    check-lem resp node_key id result
                      (sym (rw (present, known, sealed, by_hub_or_fail, send_via_hub) refl) ∙ e) in
                  let (bytes, decrypted, parsed) = open-lem p id result opened in
                  (
                    hub, node_key, encrypted, p, bytes, present, known, sealed, answered, accepted,
                    decrypted, parsed,
                  )
            ]
    ]
  ]

  peer-lem :
      (c : Controller) (node_id : String) (trans : Transport)
      → peer_for c node_id ≡ some trans
      → (c.p2p_transport ≡ some trans)
        × (c.p2p_mode ≢ by_hub)
        × (trans.is_connected node_id ≡ true)
        × (trans.is_authenticated node_id ≡ true)
  unfolding peer_for
  peer-lem c node_id trans e = elim (Option-cases c.p2p_transport) [
    | inl absent ↦ absurd (nothing_apart trans (sym (rw (absent) refl) ∙ e))
    | inr (t, present) ↦
        elim (Bool-cases
          (not (is_by_hub c.p2p_mode) && t.is_connected node_id && t.is_authenticated node_id)) [
            | inr refused ↦ absurd (nothing_apart trans (sym (rw (present, refused) refl) ∙ e))
            | inl fine ↦
                let same : t ≡ trans = some-same t trans (sym (rw (present, fine) refl) ∙ e) in
                let (mode, connected, authenticated) =
                  all_three (not (is_by_hub c.p2p_mode)) (t.is_connected node_id)
                    (t.is_authenticated node_id) fine in
                (
                  present ∙ ap some same,
                  not_by_hub c.p2p_mode mode,
                  subst (λ (x : Transport). x.is_connected node_id ≡ true) same connected,
                  subst (λ (x : Transport). x.is_authenticated node_id ≡ true) same authenticated,
                )
          ]
  ]

  remote-lem :
      (c : Controller) (drawn again : Drawn) (node_id : String) (cmd_type : ℕ) (payload : Bytes)
      (id : Identity) (result : CommandResult)
      → send_remote prim enc routing_token c drawn again node_id cmd_type payload id ≡ done result
      → IsFromPeer c drawn node_id cmd_type payload result
        ⊎ ((c.p2p_mode ≢ direct) × IsSigned c again node_id cmd_type payload id result)
  unfolding send_remote
  remote-lem c drawn again node_id cmd_type payload id result e =
      elim (Option-cases (peer_for c node_id)) [
        | inl nobody ↦ elim (Bool-cases (is_direct c.p2p_mode)) [
          | inl only ↦ absurd (
              failed_apart peer_not_connected result
                (sym (rw (nobody, only, send_remote) refl) ∙ e))
          | inr both ↦ inr (
            not_direct c.p2p_mode both,
            hub-lem c again node_id cmd_type payload id result
                (sym (rw (nobody, both, send_remote) refl) ∙ e),
          )
        ]
        | inr (trans, found) ↦
            elim (Option-cases
              (send_via_p2p prim enc routing_token trans drawn node_id cmd_type payload)) [
                | inr (r, sent) ↦
                    let (present, mode, connected, authenticated) =
                      peer-lem c node_id trans found in
                    inl (
                      trans,
                      present,
                      mode,
                      connected,
                      authenticated,
                      sent
                          ∙ ap some (
                              done-injective r result
                                (sym (rw (found, sent, send_remote) refl) ∙ e)),
                    )
                | inl unsent ↦ elim (Bool-cases (is_direct c.p2p_mode)) [
                  | inl only ↦ absurd (
                      failed_apart peer_failed result
                        (sym (rw (found, unsent, only, send_remote) refl) ∙ e))
                  | inr both ↦ inr (
                    not_direct c.p2p_mode both,
                    hub-lem c again node_id cmd_type payload id result
                        (sym (rw (found, unsent, both, send_remote) refl) ∙ e),
                  )
                ]
              ]
      ]

  -- A result for a node without a local connection either is what the transport between peers yields for the request, the
  -- node being connected and authenticated there, in a mode that is not the one of the hub only, or it is what the hub
  -- answers to the command, sealed for the key that is known of the node, in a mode that allows it: the payload
  -- is signed under that key and is decrypted with the key of the caller.
  pub send_command-origin :
      (c : Controller) (drawn again : Drawn) (node_id : String) (cmd_type : ℕ) (payload : Bytes)
      (id : Identity) (result : CommandResult)
      → c.identity ≡ some id
      → Map.lookup node_id c.local_clients ≡ none
      → send_command prim enc routing_token c drawn again node_id cmd_type payload ≡ done result
      → IsFromPeer c drawn node_id cmd_type payload result
        ⊎ ((c.p2p_mode ≢ direct) × IsSigned c again node_id cmd_type payload id result)
  unfolding send_command send_remote by_hub_or_fail peer_for token_for
  send_command-origin c drawn again node_id cmd_type payload id result known remote_ e =
      remote-lem c drawn again node_id cmd_type payload id result
        (sym (rw (known, remote_, send_command) refl) ∙ e)
