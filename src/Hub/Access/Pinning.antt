-- ===== src/Hub/Access/Pinning.antt =====
-- pkg/hub/server/server.go: what a node that is let through has shown.
use nitella.Base.{
  String, ◌≡◌, refl, sym, ◌∙◌, ◌≢◌, inl, inr, true, some, List, [], ◌∷◌, arith, str_eq, str_eq_iff,
  Bool-cases, Option-cases,
}
use nitella.Base.Map
use nitella.Base.Map.{
  Map, lookup-insert, lookup-erase, lookup-retain, lookup-insert_self, lookup-insert_ne,
  lookup-erase_self, lookup-erase_ne,
}
use mathlib.Core.Bool.{true≢false}
use mathlib.Core.Path.{subst}
use nitella.Hub.Access.{
  Cert, HubNode, Trust, Registered, registered, rejected, owner_of, is_pinned, renewed_token,
  root_of, find_renewal, find_owner, chains_of, save, check_pin, register_new, get_node,
  ensure_node_registered,
}

-- A certificate that is encoded is decoded again.
abbrev pub IsEncoding : Trust → Type 0
IsEncoding trust = (raw : String) → trust.decode_pem (trust.encode_pem raw) ≡ some raw

renewed-same :
    (trust : Trust) (node : HubNode) (root : Cert) (token : String)
    → node.routing_token ≢ ""
    → renewed_token trust node root ≡ some token
    → token ≡ node.routing_token
unfolding renewed_token
renewed-same trust node root token full = elim (Option-cases (owner_of trust root)) [
  | inl unowned ↦ rw (unowned, renewed_token) (ground arith)
  | inr (owner, owned) ↦
      rw (owned, renewed_token)
        (ground (arith, str_eq_iff node.routing_token "", str_eq_iff node.routing_token owner))
]

find_renewal-same :
    (trust : Trust) (node : HubNode) (chains : List (List Cert)) (token : String)
    → node.routing_token ≢ ""
    → find_renewal trust node chains ≡ some token
    → token ≡ node.routing_token
unfolding find_renewal
find_renewal-same trust node [] token full = λ e. cc
find_renewal-same trust node (chain ∷ chains) token full =
    let rest = find_renewal-same trust node chains token full in
    elim (Option-cases (root_of chain)) [
      | inl short ↦ rw (short, find_renewal) rest
      | inr (root, rooted) ↦ elim (Option-cases (renewed_token trust node root)) [
        | inl unowned ↦ rw (rooted, find_renewal, unowned) rest
        | inr (t, owned) ↦
            rw (rooted, find_renewal, owned)
              (λ e. renewed-same trust node root token full (owned ∙ e))
      ]
    ]

-- The entry of a node after a call for it, or for another.
check_pin-token :
    (trust : Trust) (nodes : Map HubNode) (id : String) (node : HubNode) (peer : Cert)
    (chains : List (List Cert))
    → Map.lookup id nodes ≡ some node
    → node.routing_token ≢ ""
    → (node' : HubNode) × (Map.lookup id (check_pin trust nodes id node peer chains).0 ≡ some node')
      × (node'.routing_token ≡ node.routing_token)
unfolding check_pin
check_pin-token trust nodes id node peer chains stored full =
    elim (Bool-cases (is_pinned trust node peer)) [
      | inl same ↦ rw (same, check_pin) (node, stored, refl)
      | inr differs ↦ elim (Option-cases (find_renewal trust node (chains_of trust chains peer))) [
        | inl unknown ↦ rw (differs, check_pin, unknown) (node, stored, refl)
        | inr (token, found) ↦ elim (Bool-cases trust.can_save) [
          | inl saves ↦
              rw (differs, check_pin, found, saves)
                (
                  record { routing_token = token; cert_pem = trust.encode_pem peer.raw },
                  lookup-insert_self id _ nodes,
                  find_renewal-same trust node (chains_of trust chains peer) token full found,
                )
          | inr fails ↦ rw (differs, check_pin, found, fails) (node, stored, refl)
        ]
      ]
    ]

save-others :
    (trust : Trust) (nodes : Map HubNode) (id other : String) (node : HubNode)
    → id ≢ other
    → Map.lookup other (save trust nodes id node).0 ≡ Map.lookup other nodes
save-others trust nodes id other node ne = ground (arith, lookup-insert_ne id other node nodes ne)

check_pin-others :
    (trust : Trust) (nodes : Map HubNode) (id other : String) (node : HubNode) (peer : Cert)
    (chains : List (List Cert))
    → id ≢ other
    → Map.lookup other (check_pin trust nodes id node peer chains).0 ≡ Map.lookup other nodes
unfolding check_pin
check_pin-others trust nodes id other node peer chains ne =
    elim (Bool-cases (is_pinned trust node peer)) [
      | inl same ↦ rw (same, check_pin) refl
      | inr differs ↦ elim (Option-cases (find_renewal trust node (chains_of trust chains peer))) [
        | inl unknown ↦ rw (differs, check_pin, unknown) refl
        | inr (token, found) ↦
            rw (differs, check_pin, found) (save-others trust nodes id other _ ne)
      ]
    ]

register_new-others :
    (trust : Trust) (nodes : Map HubNode) (id other : String) (peer : Cert)
    (chains : List (List Cert))
    → id ≢ other
    → Map.lookup other (register_new trust nodes id peer chains).0 ≡ Map.lookup other nodes
unfolding register_new
register_new-others trust nodes id other peer [] ne = refl
register_new-others trust nodes id other peer (chain ∷ chains) ne =
    elim (Option-cases (find_owner trust (chain ∷ chains))) [
      | inl unknown ↦ rw (unknown, register_new) refl
      | inr (token, found) ↦ rw (found, register_new) (save-others trust nodes id other _ ne)
    ]

-- What is changed by a call is the entry of its own node.
ensure-others :
    (trust : Trust) (nodes : Map HubNode) (id other : String) (peer : Cert)
    (chains : List (List Cert))
    → id ≢ other
    → Map.lookup other (ensure_node_registered trust nodes id peer chains).0
      ≡ Map.lookup other nodes
unfolding ensure_node_registered
ensure-others trust nodes id other peer chains ne = elim (Option-cases (get_node trust nodes id)) [
  | inl absent ↦
      rw (absent, ensure_node_registered)
        (register_new-others trust nodes id other peer (chains_of trust chains peer) ne)
  | inr (node, known) ↦
      rw (known, ensure_node_registered) (check_pin-others trust nodes id other node peer chains ne)
]

ensure-own :
    (trust : Trust) (nodes : Map HubNode) (id : String) (node : HubNode) (peer : Cert)
    (chains : List (List Cert))
    → Map.lookup id nodes ≡ some node
    → node.routing_token ≢ ""
    → trust.can_read ≡ true
    → (node' : HubNode) × (Map.lookup id (ensure_node_registered trust nodes id peer chains).0
        ≡ some node')
      × (node'.routing_token ≡ node.routing_token)
unfolding ensure_node_registered
ensure-own trust nodes id node peer chains stored full reads =
    rw (reads, stored, ensure_node_registered)
      (check_pin-token trust nodes id node peer chains stored full)

-- A node that belongs to somebody never comes to belong to somebody else, as long as nodes can be read: whichever
-- connections come, with whatever certificates, chains, owners of CAs and failures to save, its entry keeps its
-- routing token.
pub ensure-token :
    (trust : Trust) (nodes : Map HubNode) (id : String) (node : HubNode) (name : String)
    (peer : Cert) (chains : List (List Cert))
    → Map.lookup id nodes ≡ some node
    → node.routing_token ≢ ""
    → trust.can_read ≡ true
    → (node' : HubNode) × (Map.lookup id (ensure_node_registered trust nodes name peer chains).0
        ≡ some node')
      × (node'.routing_token ≡ node.routing_token)
ensure-token trust nodes id node name peer chains stored full reads =
    elim (Bool-cases (str_eq name id)) [
      | inl same ↦
          subst
            (λ (x : String).
              (node' : HubNode) × (Map.lookup id
                  (ensure_node_registered trust nodes x peer chains).0
                ≡ some node')
              × (node'.routing_token ≡ node.routing_token))
            (sym ((str_eq_iff name id).0 same))
            (ensure-own trust nodes id node peer chains stored full reads)
      | inr other ↦ (
        node,
        ensure-others trust nodes name id peer chains
              (λ e. true≢false (sym ((str_eq_iff name id).1 e) ∙ other))
            ∙ stored,
        refl,
      )
    ]

-- A node that is let through has its entry, pinned to the certificate that it came with.
abbrev pub Holds : Trust → String → Cert → Map HubNode × Registered → Type 0
Holds trust id peer (nodes, registered node) =
    (Map.lookup id nodes ≡ some node) × (is_pinned trust node peer ≡ true)
Holds trust id peer (nodes, rejected e) = Unit

saved-Holds :
    (trust : Trust) (nodes : Map HubNode) (id token : String) (peer : Cert)
    → IsEncoding trust
    → Holds trust id peer (
        save trust nodes id
          (record { routing_token = token; cert_pem = trust.encode_pem peer.raw }))
unfolding is_pinned
saved-Holds trust nodes id token peer encoding = elim (Bool-cases trust.can_save) [
  | inl saves ↦ rw (saves) (
    lookup-insert_self id _ nodes,
    rw (encoding peer.raw) ((str_eq_iff peer.raw peer.raw).1 refl),
  )
  | inr fails ↦ rw (fails) tt
]

new-Holds :
    (trust : Trust) (nodes : Map HubNode) (id : String) (peer : Cert) (chains : List (List Cert))
    → IsEncoding trust
    → Holds trust id peer (register_new trust nodes id peer chains)
unfolding register_new
new-Holds trust nodes id peer [] encoding = tt
new-Holds trust nodes id peer (chain ∷ chains) encoding =
    elim (Option-cases (find_owner trust (chain ∷ chains))) [
      | inl unknown ↦ rw (unknown, register_new) tt
      | inr (token, found) ↦
          rw (found, register_new) (saved-Holds trust nodes id token peer encoding)
    ]

get_node-stored :
    (trust : Trust) (nodes : Map HubNode) (id : String) (node : HubNode)
    → get_node trust nodes id ≡ some node
    → Map.lookup id nodes ≡ some node
get_node-stored trust nodes id node e = ground (arith, e)

pub ensure-Holds :
    (trust : Trust) (nodes : Map HubNode) (id : String) (peer : Cert) (chains : List (List Cert))
    → IsEncoding trust
    → Holds trust id peer (ensure_node_registered trust nodes id peer chains)
unfolding ensure_node_registered check_pin register_new
ensure-Holds trust nodes id peer chains encoding = elim (Option-cases (get_node trust nodes id)) [
  | inl absent ↦
      rw (absent, ensure_node_registered)
        (new-Holds trust nodes id peer (chains_of trust chains peer) encoding)
  | inr (node, known) ↦ elim (Bool-cases (is_pinned trust node peer)) [
    | inl same ↦
        rw (known, ensure_node_registered, same, check_pin)
          (get_node-stored trust nodes id node known, same)
    | inr differs ↦ elim (Option-cases (find_renewal trust node (chains_of trust chains peer))) [
      | inl unknown ↦ rw (known, ensure_node_registered, differs, check_pin, unknown) tt
      | inr (token, found) ↦
          rw (known, ensure_node_registered, differs, check_pin, found)
            (saved-Holds trust nodes id token peer encoding)
    ]
  ]
]
