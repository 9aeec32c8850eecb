-- ===== src/Hub/Access/Examples.antt =====
-- pkg/hub/server/server.go: a node that is registered by its CA, and one whose certificate has expired.
use nitella.Base.{
  has_prefix, ℕ, String, ◌≡◌, refl, sym, Bool, true, false, Option, none, some, List, [], ◌∷◌,
  if◌then◌else◌, str_eq, str_eq_iff,
}
use nitella.Base.Map
use nitella.Base.Map.{
  Map, lookup-insert, lookup-erase, lookup-retain, lookup-insert_self, lookup-insert_ne,
  lookup-erase_self, lookup-erase_ne,
}
use mathlib.Core.Bool.{true≢false}
use nitella.Hub.Access.{
  Cert, HubNode, Trust, root_of, owner_of, find_owner, register_new, ensure_node_registered,
  client_auth, check_pin, is_pinned,
}
use nitella.Hub.Access.Calls.{
  node_caller, passed, stopped, expired, Call, check_cert, node_access, auth_interceptor,
  stream_auth_interceptor,
}
use nitella.Hub.Access.Pinning.{ensure-token}
use nitella.Hub.Auth.{Claims}

abbrev node_cert : Cert
node_cert = record {
  raw = "c1";
  not_before = 10;
  not_after = 20;
  digital_signature = true;
  has_key_usage = true;
  ext_key_usage = client_auth ∷ [];
  serial = "s1";
  common_name = "n1";
}

abbrev root : Cert
root = record node_cert { raw = "r1"; common_name = "ca"; serial = "s0" }

abbrev trust : Trust
trust = record {
  encode_pem = λ raw. raw;
  decode_pem = λ pem. some pem;
  parse_cert = λ raw. none;
  signed_by = λ cert ca. false;
  verify_chains = λ raw. [];
  token_by_ca = λ pem. if str_eq pem "r1" then some "t1" else none;
  can_read = true;
  can_save = true;
}

abbrev is_revoked : String → Option Bool
is_revoked serial = some false

abbrev chains : List (List Cert)
chains = (node_cert ∷ root ∷ []) ∷ []

abbrev call : Call
call = record {
  method = "/nitella.hub.NodeService/Heartbeat";
  peer_certs = node_cert ∷ [];
  chains = chains;
  authorization = none;
}

abbrev signed : Claims → String → List ℕ
signed claims key = []

abbrev parse : ℕ → List ℕ → String → Option Claims
parse now token key = none

-- the node is registered for the owner of its CA
abbrev stored : Map HubNode
stored = ("n1", record { routing_token = "t1"; cert_pem = "c1" }) ∷ []

-- another owner's CA
abbrev foreign : Trust
foreign = record trust { token_by_ca = λ pem. some "t2" }

ensure-token_example :
    (node' : HubNode) × (Map.lookup "n1"
        (ensure_node_registered foreign stored "n1" (record node_cert { raw = "c2" }) chains).0
      ≡ some node')
    × (node'.routing_token ≡ "t1")
unfolding Map.lookup
ensure-token_example =
    ensure-token foreign stored "n1" (record { routing_token = "t1"; cert_pem = "c1" }) "n1"
      (record node_cert { raw = "c2" }) chains refl
      (λ e. true≢false (sym ((str_eq_iff "t1" "").1 e))) refl

-- when the query for the node fails, its entry comes to belong to the owner of the other CA
taken_over :
    (ensure_node_registered
      (record foreign { can_read = false })
      stored
      "n1"
      (record node_cert { raw = "c2" })
      chains).0
    ≡ (("n1", record { routing_token = "t2"; cert_pem = "c2" }) ∷ [])
unfolding ensure_node_registered register_new find_owner owner_of root_of Map.lookup Map.insert
taken_over = refl

-- after its last day the certificate is refused for a call, but not for a stream
late_call :
    auth_interceptor signed parse trust is_revoked none stored call 25 ≡ (stored, stopped expired)
unfolding auth_interceptor check_cert has_prefix
late_call = refl

late_stream :
    stream_auth_interceptor signed parse trust is_revoked none stored call 25
    ≡ (stored, passed (node_caller "n1" "t1"))
unfolding stream_auth_interceptor node_access ensure_node_registered check_pin is_pinned Map.lookup
    has_prefix
late_stream = refl
