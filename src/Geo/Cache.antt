-- ===== src/Geo/Cache.antt =====
-- pkg/geoip/cache.go: the cache in memory and the one in a database, whose table is a map that does not fail. What
-- is known of an address is a parameter; hours are those of a limit that is not negative.

use nitella.Base.{
  ℕ, ◌+◌, ◌-◌, ◌*◌, ◌/◌, String, ◌&&◌, Option, none, some, [], ◌∷◌, ltb, leb, if◌then◌else◌,
}
use nitella.Base.Map
use nitella.Base.Map.{
  Map, lookup-insert, lookup-erase, lookup-retain, lookup-insert_self, lookup-insert_ne,
  lookup-erase_self, lookup-erase_ne,
}

abbrev pub second : ℕ
second = 1000000000

abbrev pub hour : ℕ
hour = 60 * 60 * second

pub record Entry (Info : Type 0) : Type 0 where
  pub info : Info
  pub expires_at : ℕ

pub record L1Cache (Info : Type 0) : Type 0 where
  pub entries : Map (Entry Info)
  pub limit : ℕ

-- A row of the table, with the second in which it was written.
pub record Row (Info : Type 0) : Type 0 where
  pub info : Info
  pub created_at : ℕ

pub record L2Cache (Info : Type 0) : Type 0 where
  pub rows : Map (Row Info)
  pub ttl_hours : ℕ

module _ {Info : Type 0} where
  -- `NewL1Cache`
  unfoldable pub new_l1_cache : ℕ → L1Cache Info
  new_l1_cache limit = record { entries = []; limit = limit }

  -- `L1Cache.Get`
  unfoldable pub get : L1Cache Info → String → ℕ → Option Info
  get c ip now = elim (Map.lookup ip c.entries) [
    | none ↦ none
    | some entry ↦ if ltb now entry.expires_at then some entry.info else none
  ]

  -- The entry that the iteration over the map yields first is deleted.
  unfoldable pub evict_one : Map (Entry Info) → Map (Entry Info)
  evict_one [] = []
  evict_one ((ip, entry) ∷ entries) = Map.erase ip ((ip, entry) ∷ entries)

  -- `L1Cache.Put`
  unfoldable pub put : L1Cache Info → String → Info → ℕ → L1Cache Info
  put c ip info now = record c {
    entries =
        Map.insert ip (record { info = info; expires_at = now + hour })
          (if leb c.limit (Map.size c.entries) then evict_one c.entries else c.entries);
  }

  -- `L1Cache.Size`
  unfoldable pub cache_size : L1Cache Info → ℕ
  cache_size c = Map.size c.entries

  -- `L2Cache.Get`: a row lives for some hours, or for good.
  unfoldable pub get_row : L2Cache Info → String → ℕ → Option Info
  get_row c ip now = elim (Map.lookup ip c.rows) [
    | none ↦ none
    | some row ↦
        if ltb 0 c.ttl_hours && ltb (c.ttl_hours * hour) (now - row.created_at * second)
        then none
        else some row.info
  ]

  -- `L2Cache.Put`
  unfoldable pub put_row : L2Cache Info → String → Info → ℕ → L2Cache Info
  put_row c ip info now = record c {
    rows = Map.insert ip (record { info = info; created_at = now / second }) c.rows;
  }

  -- `L2Cache.SetTTL` and `L2Cache.Clear`
  unfoldable pub set_ttl : L2Cache Info → ℕ → L2Cache Info
  set_ttl c hours = record c { ttl_hours = hours }

  unfoldable pub clear : L2Cache Info → L2Cache Info
  clear c = record c { rows = [] }
