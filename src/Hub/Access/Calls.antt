-- ===== src/Hub/Access/Calls.antt =====
-- pkg/hub/server/server.go: the interceptors, by what they let a call through as.
use nitella.Base.{
  has_prefix, ℕ, zero, suc, String, Bool, true, false, not, ◌&&◌, ◌||◌, Option, none, some, List,
  [], ◌∷◌, ltb, if◌then◌else◌, length, any, str_eq, codes,
}
use nitella.Base.Map.{Map}
use nitella.Hub.Access.{
  Cert, ExtKeyUsage, any_usage, client_auth, other_usage, HubNode, Trust, Registered, registered,
  rejected, AccessError, ensure_node_registered,
}
use nitella.Hub.Auth.{Claims, TokenManager, Outcome, ok, failed, validate_token}

-- The caller that the handler sees.
pub data Caller : Type 0 where
  anyone : Caller
  node_caller : String → String → Caller
  user_caller : Claims → Caller

pub data CallError : Type 0 where
  unauthenticated : CallError
  not_valid_yet : CallError
  expired : CallError
  usage_invalid : CallError
  not_for_clients : CallError
  revocation_failed : CallError
  revoked : CallError
  bad_node : AccessError → CallError
  not_configured : CallError
  bad_token : CallError

pub data Passed : Type 0 where
  passed : Caller → Passed
  stopped : CallError → Passed

-- A call: its method, the certificates and chains of its connection, and its authorization headers, if it has
-- metadata.
pub record Call : Type 0 where
  pub method : String
  pub peer_certs : List Cert
  pub chains : List (List Cert)
  pub authorization : Option (List (List ℕ))

-- `strings.HasPrefix(info.FullMethod, p)`
abbrev pub is_under : String → String → Bool
is_under p method = has_prefix (codes p) (codes method)

abbrev pub is_open : String → Bool
is_open method =
    str_eq method "/nitella.hub.NodeService/Register"
    || (is_under "/nitella.hub.PairingService/" method
        || is_under "/nitella.hub.AuthService/Register" method)

abbrev pub allows_client : ExtKeyUsage → Bool
allows_client any_usage = true
allows_client client_auth = true
allows_client other_usage = false

-- The checks of a certificate before its revocation.
unfoldable pub check_cert : Cert → ℕ → Option CallError
check_cert cert now =
    if ltb now cert.not_before
    then some not_valid_yet
    else if ltb cert.not_after now
    then some expired
    else if cert.has_key_usage && not cert.digital_signature
    then some usage_invalid
    else if ltb 0 (length cert.ext_key_usage) && not (any allows_client cert.ext_key_usage)
    then some not_for_clients
    else none

-- `store.IsRevoked`: whether the serial number is revoked, if the store answers.
abbrev pub check_revoked : (String → Option Bool) → Cert → Option CallError
check_revoked is_revoked cert = elim (is_revoked cert.serial) [
  | none ↦ some revocation_failed
  | some true ↦ some revoked
  | some false ↦ none
]

abbrev pub as_node : String → Map HubNode × Registered → Map HubNode × Passed
as_node id (nodes, registered node) = (nodes, passed (node_caller id node.routing_token))
as_node id (nodes, rejected e) = (nodes, stopped (bad_node e))

-- From the revocation on, which the interceptors share.
unfoldable pub node_access :
    Trust → (String → Option Bool) → Map HubNode → Cert → List (List Cert) → Map HubNode × Passed
node_access trust is_revoked nodes cert chains = elim (check_revoked is_revoked cert) [
  | some e ↦ (nodes, stopped e)
  | none ↦
      as_node cert.common_name (ensure_node_registered trust nodes cert.common_name cert chains)
]

-- `strings.TrimPrefix`
unfoldable pub skip : ℕ → List ℕ → List ℕ
skip zero s = s
skip (suc n) [] = []
skip (suc n) (c ∷ s) = skip n s

unfoldable pub trim_prefix : List ℕ → List ℕ → List ℕ
trim_prefix p s = if has_prefix p s then skip (length p) s else s

-- The token of a call.
abbrev pub bearer : Option (List (List ℕ)) → Option (List ℕ)
bearer none = none
bearer (some []) = none
bearer (some (header ∷ headers)) = some (trim_prefix (codes "Bearer ") header)

module _ (signed : Claims → String → List ℕ) (parse : ℕ → List ℕ → String → Option Claims) where
  abbrev pub user_of : Outcome Claims → Passed
  user_of (ok claims) = passed (user_caller claims)
  user_of (failed e) = stopped bad_token

  -- The check of a token by a manager, if there is one.
  unfoldable pub token_access : Option TokenManager → Option (List (List ℕ)) → ℕ → Passed
  token_access tm authorization now = elim (bearer authorization) [
    | none ↦ stopped unauthenticated
    | some token ↦ elim tm [
      | none ↦ stopped not_configured
      | some m ↦ user_of (validate_token signed parse m token now)
    ]
  ]

  -- `AuthInterceptor`
  unfoldable pub auth_interceptor :
      Trust
      → (String → Option Bool)
      → Option TokenManager
      → Map HubNode
      → Call
      → ℕ
      → Map HubNode × Passed
  auth_interceptor trust is_revoked tm nodes call now =
      if is_open call.method
      then (nodes, passed anyone)
      else if is_under "/nitella.hub.NodeService/" call.method
      then (elim call.peer_certs [
        | [] ↦ (nodes, stopped unauthenticated)
        | cert ∷ certs ↦ elim (check_cert cert now) [
          | some e ↦ (nodes, stopped e)
          | none ↦ node_access trust is_revoked nodes cert call.chains
        ]
      ])
      else (nodes, token_access tm call.authorization now)

  -- `StreamAuthInterceptor`, which does not look at the dates and the usage of a certificate.
  unfoldable pub stream_auth_interceptor :
      Trust
      → (String → Option Bool)
      → Option TokenManager
      → Map HubNode
      → Call
      → ℕ
      → Map HubNode × Passed
  stream_auth_interceptor trust is_revoked tm nodes call now =
      if is_under "/nitella.hub.PairingService/" call.method
      then (nodes, passed anyone)
      else if is_under "/nitella.hub.NodeService/" call.method
      then (elim call.peer_certs [
        | [] ↦ (nodes, stopped unauthenticated)
        | cert ∷ certs ↦ node_access trust is_revoked nodes cert call.chains
      ])
      else (nodes, token_access tm call.authorization now)

  -- `AdminAuthInterceptor`
  unfoldable pub admin_auth_interceptor : Option TokenManager → Call → ℕ → Passed
  admin_auth_interceptor admin_tm call now = token_access admin_tm call.authorization now
