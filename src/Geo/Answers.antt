-- ===== src/Geo/Answers.antt =====
-- pkg/geoip: what a lookup can answer, and how much the cache in memory holds.
use nitella.Base.{
  ℕ, ◌+◌, ◌-◌, ◌*◌, ◌/◌, ◌≤◌, String, ◌≡◌, refl, inl, inr, Bool, true, false, ◌&&◌, Option, none,
  some, List, [], ◌∷◌, arith, ltb, leb, if◌then◌else◌, All, str_eq, str_eq_iff, Bool-cases,
  Option-cases,
}
use nitella.Base.Map
use nitella.Base.Map.{
  Map, lookup-insert, lookup-erase, lookup-retain, lookup-insert_self, lookup-insert_ne,
  lookup-erase_self, lookup-erase_ne,
}
use mathlib.Core.Path.{subst}
use nitella.Geo.Cache.{
  Entry, Row, L1Cache, L2Cache, get, put, evict_one, get_row, put_row, cache_size, hour, second,
}
use nitella.Geo.Manager.{
  Manager, RemoteProvider, l2, cache_it, put_second, ask_remotes, ask_local, ask,
}

evict_one-size :
    {Info : Type 0} (entries : Map (Entry Info))
    → 1 ≤ Map.size entries
    → Map.size (evict_one entries) + 1 ≤ Map.size entries
unfolding evict_one Map.erase
evict_one-size [] l = l
evict_one-size ((ip, entry) ∷ entries) l =
    ground (arith, str_eq_iff ip ip, Map.length-erase-le ip entries)

-- A cache in memory that may hold an entry never comes to hold more than its limit.
pub put-bounded :
    (Info : Type 0) (c : L1Cache Info) (ip : String) (info : Info) (now : ℕ)
    → 1 ≤ c.limit
    → cache_size c ≤ c.limit
    → cache_size (put c ip info now) ≤ c.limit
unfolding put cache_size
put-bounded Info c ip info now positive small =
    let new : Entry Info = record { info = info; expires_at = now + hour } in
    ground (
      arith,
      evict_one-size c.entries,
      Map.size-insert-le ip new c.entries,
      Map.size-insert-le ip new (evict_one c.entries),
    )

module _ {Info : Type 0} (P : String → Info → Type 0) where
  -- An answer, if there is one.
  abbrev pub Fits : String → Option Info → Type 0
  Fits ip none = Unit
  Fits ip (some info) = P ip info

  abbrev pub FitsEntry : String → Option (Entry Info) → Type 0
  FitsEntry ip none = Unit
  FitsEntry ip (some entry) = P ip entry.info

  abbrev pub FitsRow : String → Option (Row Info) → Type 0
  FitsRow ip none = Unit
  FitsRow ip (some row) = P ip row.info

  abbrev pub FitsTable : Option (L2Cache Info) → Type 0
  FitsTable none = Unit
  FitsTable (some c) = (ip : String) → FitsRow ip (Map.lookup ip c.rows)

  -- The providers answer so, and the caches hold nothing else.
  pub record IsFitting (m : Manager Info) : Type 0 where
    pub in_memory : (ip : String) → FitsEntry ip (Map.lookup ip m.l1_cache.entries)
    pub in_table : FitsTable m.l2_cache
    pub locally : (ip : String) → Fits ip (ask_local m ip)
    pub remotely : All (λ p. (ip : String) → Fits ip (p.answer ip)) m.remote_providers

  entry-if :
      (ip : String) (b : Bool) (o o' : Option (Entry Info))
      → FitsEntry ip o
      → FitsEntry ip o'
      → FitsEntry ip (if b then o else o')
  entry-if ip true o o' f f' = f
  entry-if ip false o o' f f' = f'

  -- A change of other fields.
  pub refit :
      (m m' : Manager Info)
      → m'.l1_cache ≡ m.l1_cache
      → m'.l2_cache ≡ m.l2_cache
      → m'.local_provider ≡ m.local_provider
      → m'.local_db_enabled ≡ m.local_db_enabled
      → m'.remote_providers ≡ m.remote_providers
      → IsFitting m
      → IsFitting m'
  refit m m' a b c d e f = record {
    in_memory = rw (a) f.in_memory;
    in_table = rw (b) f.in_table;
    locally = rw (d, c) f.locally;
    remotely = rw (e) f.remotely;
  }

  evict-fits :
      (entries : Map (Entry Info))
      → ((ip : String) → FitsEntry ip (Map.lookup ip entries))
      → (ip : String) → FitsEntry ip (Map.lookup ip (evict_one entries))
  unfolding evict_one
  evict-fits [] f ip = f ip
  evict-fits ((j, entry) ∷ entries) f ip =
      rw (lookup-erase j ip ((j, entry) ∷ entries)) (entry-if ip (str_eq j ip) none _ tt (f ip))

  kept_fits :
      (c : L1Cache Info)
      → ((ip : String) → FitsEntry ip (Map.lookup ip c.entries))
      → (ip : String)
      → FitsEntry ip (
          Map.lookup ip
            (if leb c.limit (Map.size c.entries) then evict_one c.entries else c.entries))
  kept_fits c f ip = elim (Bool-cases (leb c.limit (Map.size c.entries))) [
    | inl full ↦ rw (full) (evict-fits c.entries f ip)
    | inr room ↦ rw (room) (f ip)
  ]

  put-fits :
      (c : L1Cache Info) (j : String) (info : Info) (now : ℕ)
      → P j info
      → ((ip : String) → FitsEntry ip (Map.lookup ip c.entries))
      → (ip : String) → FitsEntry ip (Map.lookup ip (put c j info now).entries)
  unfolding put
  put-fits c j info now p f ip =
      rw
        (lookup-insert j ip (record { info = info; expires_at = now + hour })
          (if leb c.limit (Map.size c.entries) then evict_one c.entries else c.entries))
        (elim (Bool-cases (str_eq j ip)) [
          | inl same ↦ rw (same) (subst (λ (x : String). P x info) ((str_eq_iff j ip).0 same) p)
          | inr other ↦ rw (other) (kept_fits c f ip)
        ])

  put_row-fits :
      (o : Option (L2Cache Info)) (j : String) (info : Info) (now : ℕ)
      → P j info
      → FitsTable o
      → FitsTable (put_second o j info now)
  unfolding put_row
  put_row-fits none j info now p f = tt
  put_row-fits (some c) j info now p f = λ ip.
      let row : Row Info = record { info = info; created_at = now / second } in
      rw (lookup-insert j ip row c.rows) (elim (Bool-cases (str_eq j ip)) [
        | inl same ↦ rw (same) (subst (λ (x : String). P x info) ((str_eq_iff j ip).0 same) p)
        | inr other ↦ rw (other) (f ip)
      ])

  pub cache_it-fits :
      (m : Manager Info) (ip : String) (info : Info) (now : ℕ)
      → P ip info
      → IsFitting m
      → IsFitting (cache_it m ip info now)
  unfolding cache_it
  cache_it-fits m ip info now p f = record {
    in_memory = put-fits m.l1_cache ip info now p f.in_memory;
    in_table = put_row-fits m.l2_cache ip info now p f.in_table;
    locally = f.locally;
    remotely = f.remotely;
  }

  pub remotes-Fits :
      (ps : List (RemoteProvider Info)) (ip : String) (now : ℕ)
      → All (λ p. (x : String) → Fits x (p.answer x)) ps
      → All (λ p. (x : String) → Fits x (p.answer x)) (ask_remotes ps ip now).0
        × Fits ip (ask_remotes ps ip now).1
  unfolding ask_remotes
  remotes-Fits [] ip now f = (tt, tt)
  remotes-Fits (p ∷ ps) ip now (f, fs) =
      let (rest, answer) = remotes-Fits ps ip now fs in
      elim (Bool-cases p.enabled) [
        | inr off ↦ rw (off) ((f, rest), answer)
        | inl on ↦ elim (Option-cases (p.answer ip)) [
          | inl silent ↦ rw (on, silent) ((f, rest), answer)
          | inr (info, found) ↦ rw (on, found) ((f, fs), subst (Fits ip) found (f ip))
        ]
      ]

  pub get-Fits :
      (c : L1Cache Info) (ip : String) (now : ℕ)
      → FitsEntry ip (Map.lookup ip c.entries)
      → Fits ip (get c ip now)
  unfolding get
  get-Fits c ip now f = elim (Option-cases (Map.lookup ip c.entries)) [
    | inl absent ↦ rw (absent, get) tt
    | inr (entry, found) ↦ elim (Bool-cases (ltb now entry.expires_at)) [
      | inl live ↦ rw (found, get, live) (subst (FitsEntry ip) found f)
      | inr over ↦ rw (found, get, over) tt
    ]
  ]

  get_row-Fits :
      (c : L2Cache Info) (ip : String) (now : ℕ)
      → FitsRow ip (Map.lookup ip c.rows)
      → Fits ip (get_row c ip now)
  unfolding get_row
  get_row-Fits c ip now f = elim (Option-cases (Map.lookup ip c.rows)) [
    | inl absent ↦ rw (absent, get_row) tt
    | inr (row, found) ↦
        elim (Bool-cases
          (ltb 0 c.ttl_hours && ltb (c.ttl_hours * hour) (now - row.created_at * second))) [
            | inl over ↦ rw (found, get_row, over) tt
            | inr live ↦ rw (found, get_row, live) (subst (FitsRow ip) found f)
          ]
  ]

  -- A manager and an answer that fit.
  abbrev pub Kept : String → Manager Info × Option Info → Type 0
  Kept ip (m, answer) = IsFitting m × Fits ip answer

  pub ask_l2-fits :
      (m : Manager Info) (o : Option (L2Cache Info)) (ip : String) (now : ℕ)
      → m.l2_cache ≡ o
      → IsFitting m
      → Kept ip (ask m l2 ip now)
  unfolding ask
  ask_l2-fits m none ip now same f = rw (same, ask) (f, tt)
  ask_l2-fits m (some c) ip now same f =
      let fits = get_row-Fits c ip now ((subst FitsTable same f.in_table) ip) in
      elim (Option-cases (get_row c ip now)) [
        | inl absent ↦ rw (same, ask, absent) (refit m _ refl refl refl refl refl f, tt)
        | inr (info, found) ↦
            rw (same, ask, found)
              (
                record {
                  in_memory =
                      put-fits m.l1_cache ip info now (subst (Fits ip) found fits) f.in_memory;
                  in_table = f.in_table;
                  locally = f.locally;
                  remotely = f.remotely;
                },
                subst (Fits ip) found fits,
              )
      ]
