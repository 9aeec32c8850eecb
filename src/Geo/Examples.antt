-- ===== src/Geo/Examples.antt =====
-- pkg/geoip: lookups with two remote providers.
use nitella.Base.{
  ℕ, String, ◌≡◌, refl, Option, none, some, List, [], ◌∷◌, arith, if◌then◌else◌, str_eq, str_eq_iff,
}
use nitella.Base.Map
use nitella.Base.Map.{
  Map, lookup-insert, lookup-erase, lookup-retain, lookup-insert_self, lookup-insert_ne,
  lookup-erase_self, lookup-erase_ne,
}
use nitella.Geo.Cache.{L1Cache, new_l1_cache, get, put, evict_one, cache_size}
use nitella.Geo.Manager.{
  Manager, new_manager, register_provider, ask, ask_remotes, try_all, lookup, cache_it,
  record_error, record_success,
}
use nitella.Geo.Answers.{put-bounded, IsFitting}
use nitella.Geo.Lookups.{AllFit, lookups-AllFit}

-- what is known of an address is the address itself
abbrev knows_a : String → Option String
knows_a ip = if str_eq ip "a" then some ip else none

abbrev knows_all : String → Option String
knows_all ip = some ip

abbrev manager : Manager String
manager = register_provider (register_provider new_manager "first" knows_a) "second" knows_all

abbrev Same : String → String → Type 0
Same ip info = ip ≡ info

knows_a-Fits : (ip : String) → nitella.Geo.Answers.Fits Same ip (knows_a ip)
knows_a-Fits ip = ground (arith, str_eq_iff ip "a")

manager_fits : IsFitting Same manager
unfolding register_provider new_manager new_l1_cache Map.lookup
manager_fits = record {
  in_memory = λ ip. tt;
  in_table = tt;
  locally = λ ip. tt;
  remotely = (knows_a-Fits, ((λ ip. refl), tt));
}

abbrev lookups : List (String × ℕ)
lookups = ("b", 1) ∷ ("a", 2) ∷ ("b", 3) ∷ []

lookups-AllFit_example : AllFit Same manager lookups
lookups-AllFit_example = lookups-AllFit Same manager lookups manager_fits

-- the second answer for an address comes out of memory
from_memory : (lookup (lookup manager "b" 1).0 "b" 3).0.l1_hits ≡ 1
unfolding lookup try_all ask ask_remotes cache_it register_provider new_manager new_l1_cache get put
    Map.lookup Map.insert record_error record_success
from_memory = refl

abbrev small : L1Cache ℕ
small = put (put (new_l1_cache 2) "a" 1 0) "b" 2 0

small_full : cache_size small ≡ 2
unfolding cache_size put new_l1_cache Map.insert
small_full = refl

small_limit : small.limit ≡ 2
unfolding put new_l1_cache
small_limit = refl

-- an entry is evicted also for an address that is there already
evicted : get (put small "b" 3 1) "a" 2 ≡ none
unfolding get put evict_one new_l1_cache Map.lookup Map.insert Map.erase
evicted = refl
