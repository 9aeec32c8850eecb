-- ===== src/Node/Approval/Cache.antt =====
-- pkg/node/approval.go: `ApprovalCache`. Times are nanoseconds since Go's zero time, durations are not
-- negative. Byte counters are int64 and the count of blocked attempts int32, kept as bit patterns; a
-- live connection holds the addresses of its counters, and a reader is given their store.
pub mod Decisions
pub mod Live
pub mod Bytes
mod Examples
use nitella.Base.{
  ◌^◌, ℕ, zero, suc, ◌+◌, ◌-◌, ◌*◌, ◌/◌, ◌%◌, ◌≤◌, ◌<◌, min, max, String, ◌≡◌, refl, sym, ap, ◌∙◌,
  ◌≢◌, ◌↔◌, ◌⊎◌, inl, inr, Bool, true, false, not, ◌&&◌, ◌||◌, Option, none, some, List, [], ◌∷◌,
  ◌++◌, map, arith, ltb, leb, ◌==◌, if◌then◌else◌, length, get_or, any-perm, any, all, All, str_eq,
  str_eq_iff, codes, concat, concat_cancel_left, concat_assoc, concat_apart, codes-concat,
  codes-injective, IsFree, separator_cancel, separator-IsFree, cut, split_on, is_digit, Bool-cases,
  Option-cases,
}
use nitella.Base.Map
use nitella.Base.Map.{
  Map, lookup-insert, lookup-erase, lookup-retain, lookup-insert_self, lookup-insert_ne,
  lookup-erase_self, lookup-erase_ne,
}
use nitella.Node.Approval.Key.{build_key}

pub record LiveConnStats : Type 0 where
  pub bytes_in : Option ℕ
  pub bytes_out : Option ℕ

pub record Geo : Type 0 where
  pub country : String
  pub city : String
  pub isp : String

pub record ApprovalEntry : Type 0 where
  pub source_ip : String
  pub rule_id : String
  pub proxy_id : String
  pub tls_session_id : String
  pub decision : Bool
  pub expires_at : ℕ
  pub created_at : ℕ
  pub live_conns : Map LiveConnStats
  pub geo : Geo
  pub bytes_in : ℕ
  pub bytes_out : ℕ
  pub blocked_count : ℕ

-- `conn_closer` tells whether a closer is set.
pub record ApprovalCache : Type 0 where
  pub entries : Map ApprovalEntry
  pub conn_closer : Bool

abbrev pub add64 : ℕ → ℕ → ℕ
add64 a b = (a + b) % 2 ^ 64

-- `config.MaxConnIDsPerApproval`
abbrev pub max_conn_ids_per_approval : ℕ
max_conn_ids_per_approval = 1000

unfoldable pub new_cache : ApprovalCache
new_cache = record { entries = []; conn_closer = false }

unfoldable pub set_connection_closer : ApprovalCache → Bool → ApprovalCache
set_connection_closer c closer = record c { conn_closer = closer }

-- `ApprovalEntry.Key`
unfoldable pub entry_key : ApprovalEntry → String
entry_key e = build_key e.source_ip e.rule_id e.tls_session_id

conn_ids : String → Map LiveConnStats → List (String × String)
conn_ids proxy_id [] = []
conn_ids proxy_id ((conn_id, _) ∷ m) = (proxy_id, conn_id) ∷ conn_ids proxy_id m

-- The connections to close: those of the allowed entries that are over.
to_close : ℕ → Map ApprovalEntry → List (String × String)
to_close now [] = []
to_close now ((_, e) ∷ m) =
    if ltb e.expires_at now && (e.decision && ltb 0 (Map.size e.live_conns))
    then conn_ids e.proxy_id e.live_conns ++ to_close now m
    else to_close now m

-- One round of `cleanupLoop`, with the calls of the closer.
unfoldable pub cleanup : ApprovalCache → ℕ → ApprovalCache × List (String × String)
unfolding to_close conn_ids
cleanup c now = (
  record c { entries = Map.retain (λ (e : ApprovalEntry). not (ltb e.expires_at now)) c.entries },
  if c.conn_closer then to_close now c.entries else [],
)

abbrev stored_decision : Option ApprovalEntry → ℕ → Bool × Bool
stored_decision none now = (false, false)
stored_decision (some e) now = if ltb now e.expires_at then (true, e.decision) else (false, false)

-- `Check`: found, and the decision.
unfoldable pub check : ApprovalCache → String → String → String → ℕ → Bool × Bool
check c source_ip rule_id session now =
    stored_decision (Map.lookup (build_key source_ip rule_id session) c.entries) now

abbrev pub no_geo : Geo
no_geo = record { country = ""; city = ""; isp = "" }

-- `AddWithGeo`; the clock is read for the expiry and for the time of creation.
unfoldable pub add_with_geo :
    ApprovalCache → String → String → String → String → Bool → ℕ → Geo → ℕ → ℕ → ApprovalCache
add_with_geo c source_ip rule_id proxy_id session decision duration geo now created = record c {
  entries =
      Map.insert (build_key source_ip rule_id session)
        (record {
          source_ip = source_ip;
          rule_id = rule_id;
          proxy_id = proxy_id;
          tls_session_id = session;
          decision = decision;
          expires_at = now + duration;
          created_at = created;
          live_conns = [];
          geo = geo;
          bytes_in = 0;
          bytes_out = 0;
          blocked_count = 0;
        })
        c.entries;
}

-- `Add`
unfoldable pub add :
    ApprovalCache → String → String → String → String → Bool → ℕ → ℕ → ℕ → ApprovalCache
unfolding add_with_geo
add c source_ip rule_id proxy_id session decision duration now created =
    add_with_geo c source_ip rule_id proxy_id session decision duration no_geo now created

unfoldable pub remove : ApprovalCache → String → String → String → ApprovalCache
remove c source_ip rule_id session = record c {
  entries = Map.erase (build_key source_ip rule_id session) c.entries;
}

-- A change of a stored entry through its pointer.
unfoldable pub update_entry :
    ApprovalCache → String → (ApprovalEntry → ApprovalEntry) → ApprovalCache
update_entry c key f = elim (Map.lookup key c.entries) [
  | none ↦ c
  | some e ↦ record c { entries = Map.insert key (f e) c.entries }
]

-- `SetConnID`
unfoldable pub set_conn_id :
    ApprovalCache → String → String → String → String → LiveConnStats → ApprovalCache × Bool
set_conn_id c source_ip rule_id session conn_id stats =
    let key = build_key source_ip rule_id session in
    elim (Map.lookup key c.entries) [
      | none ↦ (c, false)
      | some e ↦ if leb max_conn_ids_per_approval (Map.size e.live_conns) then (c, false) else (
        record c {
          entries =
              Map.insert key (record e { live_conns = Map.insert conn_id stats e.live_conns })
                c.entries;
        },
        true,
      )
    ]

-- `RemoveConnID`
unfoldable pub remove_conn_id : ApprovalCache → String → String → String → String → ApprovalCache
unfolding update_entry
remove_conn_id c source_ip rule_id session conn_id =
    update_entry c (build_key source_ip rule_id session)
      (λ e. record e { live_conns = Map.erase conn_id e.live_conns })

-- `IncrementBlockedCount`
unfoldable pub increment_blocked_count : ApprovalCache → String → String → String → ApprovalCache
unfolding update_entry
increment_blocked_count c source_ip rule_id session =
    update_entry c (build_key source_ip rule_id session)
      (λ e. record e { blocked_count = (e.blocked_count + 1) % 2 ^ 32 })

-- `UpdateBytes`
unfoldable pub update_bytes : ApprovalCache → String → String → String → ℕ → ℕ → ApprovalCache
unfolding update_entry
update_bytes c source_ip rule_id session bytes_in bytes_out =
    update_entry c (build_key source_ip rule_id session) (λ e. record e {
      bytes_in = add64 e.bytes_in bytes_in;
      bytes_out = add64 e.bytes_out bytes_out;
    })

-- `GetEntry`
unfoldable pub get_entry : ApprovalCache → String → String → String → Option ApprovalEntry
get_entry c source_ip rule_id session = Map.lookup (build_key source_ip rule_id session) c.entries

-- A counter that is not nil, read from the store.
abbrev pub load : (ℕ → ℕ) → Option ℕ → ℕ
load counters none = 0
load counters (some a) = counters a

-- The bytes that the live connections add to those that closed ones have left.
unfoldable pub add_live : (LiveConnStats → ℕ) → ℕ → Map LiveConnStats → ℕ
add_live read total [] = total
add_live read total ((_, stats) ∷ m) = add_live read (add64 total (read stats)) m

-- The copy of an entry with its live bytes.
unfoldable pub with_live_bytes : (ℕ → ℕ) → ApprovalEntry → ApprovalEntry
unfolding add_live
with_live_bytes counters e = record e {
  bytes_in = add_live (λ s. load counters s.bytes_in) e.bytes_in e.live_conns;
  bytes_out = add_live (λ s. load counters s.bytes_out) e.bytes_out e.live_conns;
}

-- `GetActiveApprovals`
unfoldable pub get_active_approvals : Map ApprovalEntry → (ℕ → ℕ) → ℕ → List ApprovalEntry
unfolding with_live_bytes
get_active_approvals [] counters now = []
get_active_approvals ((_, e) ∷ m) counters now =
    if ltb now e.expires_at
    then with_live_bytes counters e ∷ get_active_approvals m counters now
    else get_active_approvals m counters now
