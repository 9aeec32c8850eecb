-- ===== src/Hub/Access/Callers.antt =====
-- pkg/hub/server/server.go: which calls of nodes the interceptors let through.
use nitella.Base.{ℕ, ◌≤◌, String, ◌≡◌, ◌⊎◌, Bool, true, false, Option, some, List, [], ◌∷◌}
use nitella.Base.Map
use nitella.Base.Map.{
  Map, lookup-insert, lookup-erase, lookup-retain, lookup-insert_self, lookup-insert_ne,
  lookup-erase_self, lookup-erase_ne,
}
use nitella.Hub.Access.{ExtKeyUsage, any_usage, client_auth, Cert, HubNode, Trust, is_pinned}
use nitella.Hub.Access.Calls.{anyone, node_caller, user_caller, Passed, passed, stopped}

-- What the certificate of a connection and the store show of a caller, once a call is through.
abbrev pub Shown : Trust → (String → Option Bool) → Cert → Map HubNode × Passed → Type 0
Shown trust is_revoked cert (nodes, stopped e) = Unit
Shown trust is_revoked cert (nodes, passed anyone) = ⊥
Shown trust is_revoked cert (nodes, passed (user_caller claims)) = ⊥
Shown trust is_revoked cert (nodes, passed (node_caller id token)) =
    (is_revoked cert.serial ≡ some false)
    × (cert.common_name ≡ id)
    × ((node : HubNode) × (Map.lookup id nodes ≡ some node)
        × (node.routing_token ≡ token)
        × (is_pinned trust node cert ≡ true))

abbrev pub HasClient : List ExtKeyUsage → Type 0
HasClient [] = ⊥
HasClient (usage ∷ usages) = ((usage ≡ any_usage) ⊎ (usage ≡ client_auth)) ⊎ HasClient usages

-- No extended usage is named, or one that a client may have.
abbrev pub IsForClients : List ExtKeyUsage → Type 0
IsForClients usages = (usages ≡ []) ⊎ HasClient usages

-- The certificate is within its dates, and its usages, as far as it names any, include the one of a client.
abbrev pub IsUsable : Cert → ℕ → Type 0
IsUsable cert now =
    (cert.not_before ≤ now)
    × (now ≤ cert.not_after)
    × (cert.has_key_usage ≡ true → cert.digital_signature ≡ true)
    × IsForClients cert.ext_key_usage

-- The certificate that a call shows, in its dates and its usage too.
abbrev pub HasShown : Trust → (String → Option Bool) → List Cert → ℕ → Map HubNode × Passed → Type 0
HasShown trust is_revoked certs now r =
    (cert : Cert) × (rest : List Cert) × (certs ≡ cert ∷ rest)
    × IsUsable cert now
    × Shown trust is_revoked cert r
