-- ===== src/Geo/Manager.antt =====
-- pkg/geoip/manager.go: the providers and the order in which they are asked. A provider is the function of its
-- answers; the source and the latency that are noted in an answer are left out, as are latencies in
-- the statistics. A priority is taken as not negative.
use nitella.Base.{
  ℕ, ◌+◌, String, Bool, true, false, not, Option, none, some, List, [], ◌∷◌, ◌++◌, if◌then◌else◌,
  length, str_eq,
}
use nitella.Geo.Cache.{L1Cache, L2Cache, new_l1_cache, get, put, get_row, put_row}

pub record ProviderStats : Type 0 where
  pub lookup_count : ℕ
  pub success_count : ℕ
  pub error_count : ℕ
  pub last_used : ℕ

pub record RemoteProvider (Info : Type 0) : Type 0 where
  pub name : String
  pub enabled : Bool
  pub priority : ℕ
  pub answer : String → Option Info
  pub stats : ProviderStats

pub data Source : Type 0 where
  l1 : Source
  l2 : Source
  local : Source
  remote : Source
  unknown : Source

pub record Manager (Info : Type 0) : Type 0 where
  pub l1_cache : L1Cache Info
  pub l2_cache : Option (L2Cache Info)
  pub local_provider : Option (String → Option Info)
  pub local_db_enabled : Bool
  pub remote_providers : List (RemoteProvider Info)
  pub fallback_strategy : List Source
  pub l1_hits : ℕ
  pub l1_misses : ℕ
  pub l2_hits : ℕ
  pub l2_misses : ℕ

abbrev pub no_stats : ProviderStats
no_stats = record { lookup_count = 0; success_count = 0; error_count = 0; last_used = 0 }

-- `RecordSuccess` and `RecordError`
unfoldable pub record_success : ProviderStats → ℕ → ProviderStats
record_success stats now = record stats {
  lookup_count = stats.lookup_count + 1;
  success_count = stats.success_count + 1;
  last_used = now;
}

unfoldable pub record_error : ProviderStats → ℕ → ProviderStats
record_error stats now = record stats {
  lookup_count = stats.lookup_count + 1;
  error_count = stats.error_count + 1;
  last_used = now;
}

module _ {Info : Type 0} where
  -- `NewManager`
  unfoldable pub new_manager : Manager Info
  new_manager = record {
    l1_cache = new_l1_cache 10000;
    l2_cache = none;
    local_provider = none;
    local_db_enabled = false;
    remote_providers = [];
    fallback_strategy = l1 ∷ l2 ∷ local ∷ remote ∷ [];
    l1_hits = 0;
    l1_misses = 0;
    l2_hits = 0;
    l2_misses = 0;
  }

  -- `SetLocalProvider` and `SetStrategy`
  unfoldable pub set_local_provider : Manager Info → Option (String → Option Info) → Manager Info
  set_local_provider m none = record m { local_provider = none; local_db_enabled = false }
  set_local_provider m (some p) = record m { local_provider = some p; local_db_enabled = true }

  unfoldable pub set_strategy : Manager Info → List Source → Manager Info
  set_strategy m strategy = record m { fallback_strategy = strategy }

  -- `RemoveRemoteProvider`: the first provider of a name.
  unfoldable pub remove_named : String → List (RemoteProvider Info) → List (RemoteProvider Info)
  remove_named name [] = []
  remove_named name (p ∷ ps) =
      let rest = remove_named name ps in if str_eq p.name name then ps else p ∷ rest

  unfoldable pub remove_remote_provider : Manager Info → String → Manager Info
  remove_remote_provider m name = record m {
    remote_providers = remove_named name m.remote_providers;
  }

  -- `EnableProvider` and `DisableProvider`, with whether there is such a provider.
  unfoldable pub set_enabled :
      String → Bool → List (RemoteProvider Info) → List (RemoteProvider Info) × Bool
  set_enabled name on [] = ([], false)
  set_enabled name on (p ∷ ps) =
      let (rest, found) = set_enabled name on ps in
      if str_eq p.name name then (record p { enabled = on } ∷ ps, true) else (p ∷ rest, found)

  unfoldable pub enable_provider : Manager Info → String → Bool → Manager Info × Bool
  enable_provider m name on =
      let (ps, found) = set_enabled name on m.remote_providers in
      (record m { remote_providers = ps }, found)

  -- `RegisterProvider`
  unfoldable pub register_provider : Manager Info → String → (String → Option Info) → Manager Info
  register_provider m name answer = record m {
    remote_providers =
        m.remote_providers
        ++ (record {
          name = name;
          enabled = true;
          priority = length m.remote_providers + 1;
          answer = answer;
          stats = no_stats;
        }
            ∷ []);
  }

  abbrev pub put_second : Option (L2Cache Info) → String → Info → ℕ → Option (L2Cache Info)
  put_second none ip info now = none
  put_second (some c) ip info now = some (put_row c ip info now)

  -- An answer of a provider goes to both caches.
  unfoldable pub cache_it : Manager Info → String → Info → ℕ → Manager Info
  cache_it m ip info now = record m {
    l1_cache = put m.l1_cache ip info now;
    l2_cache = put_second m.l2_cache ip info now;
  }

  -- The loop over the remote providers: their statistics and the first answer.
  unfoldable pub ask_remotes :
      List (RemoteProvider Info) → String → ℕ → List (RemoteProvider Info) × Option Info
  ask_remotes [] ip now = ([], none)
  ask_remotes (p ∷ ps) ip now =
      let (rest, info) = ask_remotes ps ip now in
      if not p.enabled then (p ∷ rest, info) else elim (p.answer ip) [
        | some found ↦ (record p { stats = record_success p.stats now } ∷ ps, some found)
        | none ↦ (record p { stats = record_error p.stats now } ∷ rest, info)
      ]

  abbrev pub ask_local : Manager Info → String → Option Info
  ask_local m ip =
      if m.local_db_enabled
      then (elim m.local_provider [ none ↦ none | some answer ↦ answer ip ])
      else none

  -- One step of the strategy.
  unfoldable pub ask : Manager Info → Source → String → ℕ → Manager Info × Option Info
  ask m l1 ip now = elim (get m.l1_cache ip now) [
    | some info ↦ (record m { l1_hits = m.l1_hits + 1 }, some info)
    | none ↦ (record m { l1_misses = m.l1_misses + 1 }, none)
  ]
  ask m l2 ip now = elim m.l2_cache [
    | none ↦ (m, none)
    | some c ↦ elim (get_row c ip now) [
      | some info ↦
          (record m { l2_hits = m.l2_hits + 1; l1_cache = put m.l1_cache ip info now }, some info)
      | none ↦ (record m { l2_misses = m.l2_misses + 1 }, none)
    ]
  ]
  ask m local ip now = elim (ask_local m ip) [
    | some info ↦ (cache_it m ip info now, some info)
    | none ↦ (m, none)
  ]
  ask m remote ip now =
      let (ps, answer) = ask_remotes m.remote_providers ip now in
      let m' = record m { remote_providers = ps } in
      elim answer [ some info ↦ (cache_it m' ip info now, some info) | none ↦ (m', none) ]
  ask m unknown ip now = (m, none)

  -- The loop over the strategy.
  unfoldable pub try_all : Manager Info → List Source → String → ℕ → Manager Info × Option Info
  try_all m [] ip now = (m, none)
  try_all m (source ∷ sources) ip now =
      let (m', answer) = ask m source ip now in
      let later = try_all m' sources ip now in
      elim answer [ some info ↦ (m', some info) | none ↦ later ]

  -- `Lookup`; the clock is read once.
  unfoldable pub lookup : Manager Info → String → ℕ → Manager Info × Option Info
  lookup m ip now = try_all m m.fallback_strategy ip now
