-- ===== src/Hub/Access.antt =====
-- pkg/hub/server/server.go: ensureNodeRegistered. The encoding of certificates, their signatures, the chains that
-- the certificate manager finds, the owner of a CA and whether a node can be read and saved are parameters.
pub mod Calls
pub mod Pinning
pub mod Callers
mod Examples
use nitella.Base.{
  ◌^◌, ℕ, zero, suc, ◌+◌, ◌-◌, ◌*◌, ◌/◌, ◌%◌, ◌≤◌, ◌<◌, min, max, String, ◌≡◌, refl, sym, ap, ◌∙◌,
  ◌≢◌, ◌↔◌, ◌⊎◌, inl, inr, Bool, true, false, not, ◌&&◌, ◌||◌, Option, none, some, List, [], ◌∷◌,
  ◌++◌, map, arith, ltb, leb, ◌==◌, if◌then◌else◌, length, get_or, any-perm, any, all, All, str_eq,
  str_eq_iff, codes, concat, concat_cancel_left, concat_assoc, concat_apart, codes-concat,
  codes-injective, IsFree, separator_cancel, separator-IsFree, cut, split_on, is_digit, includes,
  Bool-cases, Option-cases, ◌>>=◌,
}
use nitella.Base.Map
use nitella.Base.Map.{
  Map, lookup-insert, lookup-erase, lookup-retain, lookup-insert_self, lookup-insert_ne,
  lookup-erase_self, lookup-erase_ne,
}

pub data ExtKeyUsage : Type 0 where
  any_usage : ExtKeyUsage
  client_auth : ExtKeyUsage
  other_usage : ExtKeyUsage

pub record Cert : Type 0 where
  pub raw : String
  pub not_before : ℕ
  pub not_after : ℕ
  pub digital_signature : Bool
  pub has_key_usage : Bool
  pub ext_key_usage : List ExtKeyUsage
  pub serial : String
  pub common_name : String

-- A node of the store, without its status and its times.
pub record HubNode : Type 0 where
  pub routing_token : String
  pub cert_pem : String

pub data AccessError : Type 0 where
  cert_mismatch : AccessError
  no_trusted_chain : AccessError
  ca_not_recognized : AccessError
  save_failed : AccessError

pub data Registered : Type 0 where
  registered : HubNode → Registered
  rejected : AccessError → Registered

-- What the certificates and the store answer.
pub record Trust : Type 0 where
  pub encode_pem : String → String
  pub decode_pem : String → Option String
  pub parse_cert : String → Option Cert
  pub signed_by : Cert → Cert → Bool
  pub verify_chains : String → List (List Cert)
  pub token_by_ca : String → Option String
  pub can_read : Bool
  pub can_save : Bool

-- `chain[len(chain)-1]` of a chain of two or more.
unfoldable pub root_of : List Cert → Option Cert
root_of [] = none
root_of (cert ∷ []) = none
root_of (cert ∷ root ∷ []) = some root
root_of (cert ∷ c ∷ d ∷ chain) = root_of (c ∷ d ∷ chain)

-- `err == nil && routingToken != ""`
unfoldable pub owner_of : Trust → Cert → Option String
owner_of trust root = elim (trust.token_by_ca (trust.encode_pem root.raw)) [
  | none ↦ none
  | some token ↦ if str_eq token "" then none else some token
]

-- `pinnedCert.CheckSignatureFrom(root) == nil`
unfoldable pub pin_signed_by : Trust → HubNode → Cert → Bool
pin_signed_by trust node root = elim (trust.decode_pem node.cert_pem) [
  | none ↦ false
  | some raw ↦ elim (trust.parse_cert raw) [
    | none ↦ false
    | some pinned ↦ trust.signed_by pinned root
  ]
]

-- `bytes.Equal(block.Bytes, peerCert.Raw)`
unfoldable pub is_pinned : Trust → HubNode → Cert → Bool
is_pinned trust node peer = elim (trust.decode_pem node.cert_pem) [
  | none ↦ false
  | some raw ↦ str_eq raw peer.raw
]

-- The routing token that a root gives a node, if it may renew the node's certificate.
unfoldable pub renewed_token : Trust → HubNode → Cert → Option String
renewed_token trust node root = elim (owner_of trust root) [
  | some token ↦
      if not (str_eq node.routing_token "") && not (str_eq node.routing_token token)
      then none
      else some token
  | none ↦ if pin_signed_by trust node root then some node.routing_token else none
]

-- The loop over the chains for a node that is known: the token under which its certificate is renewed.
unfoldable pub find_renewal : Trust → HubNode → List (List Cert) → Option String
find_renewal trust node [] = none
find_renewal trust node (chain ∷ chains) =
    let rest = find_renewal trust node chains in
    elim (root_of chain) [
      | none ↦ rest
      | some root ↦ elim (renewed_token trust node root) [ none ↦ rest | some token ↦ some token ]
    ]

-- The loop over the chains for a node that is not known.
unfoldable pub find_owner : Trust → List (List Cert) → Option String
find_owner trust [] = none
find_owner trust (chain ∷ chains) =
    let rest = find_owner trust chains in
    elim (root_of chain) [
      | none ↦ rest
      | some root ↦ elim (owner_of trust root) [ none ↦ rest | some token ↦ some token ]
    ]

-- The chains that were verified, or else those that the certificate manager finds.
abbrev pub chains_of : Trust → List (List Cert) → Cert → List (List Cert)
chains_of trust [] peer = trust.verify_chains peer.raw
chains_of trust (chain ∷ chains) peer = chain ∷ chains

abbrev pub save : Trust → Map HubNode → String → HubNode → Map HubNode × Registered
save trust nodes id node =
    if trust.can_save
    then (Map.insert id node nodes, registered node)
    else (nodes, rejected save_failed)

-- A node that is known: its pin, or a renewal of its certificate.
unfoldable pub check_pin :
    Trust → Map HubNode → String → HubNode → Cert → List (List Cert) → Map HubNode × Registered
check_pin trust nodes id node peer chains =
    if is_pinned trust node peer
    then (nodes, registered node)
    else elim (find_renewal trust node (chains_of trust chains peer)) [
      | none ↦ (nodes, rejected cert_mismatch)
      | some token ↦
          save trust nodes id
            (record { routing_token = token; cert_pem = trust.encode_pem peer.raw })
    ]

-- A node that is not known is registered for the owner of its CA.
unfoldable pub register_new :
    Trust → Map HubNode → String → Cert → List (List Cert) → Map HubNode × Registered
register_new trust nodes id peer [] = (nodes, rejected no_trusted_chain)
register_new trust nodes id peer (chain ∷ chains) = elim (find_owner trust (chain ∷ chains)) [
  | none ↦ (nodes, rejected ca_not_recognized)
  | some token ↦
      save trust nodes id (record { routing_token = token; cert_pem = trust.encode_pem peer.raw })
]

-- `GetNode`, whose error does not tell a node that is not stored from a query that fails.
abbrev pub get_node : Trust → Map HubNode → String → Option HubNode
get_node trust nodes id = if trust.can_read then Map.lookup id nodes else none

-- `ensureNodeRegistered`
unfoldable pub ensure_node_registered :
    Trust → Map HubNode → String → Cert → List (List Cert) → Map HubNode × Registered
ensure_node_registered trust nodes id peer chains = elim (get_node trust nodes id) [
  | some node ↦ check_pin trust nodes id node peer chains
  | none ↦ register_new trust nodes id peer (chains_of trust chains peer)
]
