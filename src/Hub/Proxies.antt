-- ===== src/Hub/Proxies.antt =====
-- pkg/hub/store/store.go: the tables of proxies and of their revisions. A table is a list of rows, the latest
-- one first, and a query is read as SQL reads it: a condition is a filter, and ORDER BY sorts. The
-- database is taken not to fail, but for the sum of sizes, whose failure the store handles.
pub mod Requests
pub mod Revisions
pub mod Pushes
pub mod Reached
pub mod History
pub mod Owners
mod Examples
use nitella.Base.{
  ◌^◌, ℕ, zero, suc, ◌+◌, ◌-◌, ◌*◌, ◌/◌, ◌%◌, ◌≤◌, ◌<◌, min, max, String, ◌≡◌, refl, sym, ap, ◌∙◌,
  ◌≢◌, ◌↔◌, ◌⊎◌, inl, inr, Bool, true, false, not, ◌&&◌, ◌||◌, Option, none, some, List, [], ◌∷◌,
  ◌++◌, map, arith, ltb, leb, ◌==◌, if◌then◌else◌, length, get_or, any-perm, any, all, All, str_eq,
  str_eq_iff, codes, concat, concat_cancel_left, concat_assoc, concat_apart, codes-concat,
  codes-injective, IsFree, separator_cancel, separator-IsFree, cut, split_on, is_digit, includes,
  Bool-cases, Option-cases,
}
use nitella.Base.Map
use nitella.Base.Map.{
  Map, lookup-insert, lookup-erase, lookup-retain, lookup-insert_self, lookup-insert_ne,
  lookup-erase_self, lookup-erase_ne,
}
use nitella.Base.Int.{ℤ, pos, ◌+ℤ◌}

pub record ProxyConfig : Type 0 where
  pub proxy_id : String
  pub routing_token : String
  pub deleted : Bool

pub record ProxyRevision : Type 0 where
  pub id : ℕ
  pub proxy_id : String
  pub revision_num : ℕ
  pub encrypted_blob : String
  pub size_bytes : ℤ

pub record ProxyStore : Type 0 where
  pub configs : List ProxyConfig
  pub revisions : List ProxyRevision
  pub next_id : ℕ

-- `GetProxyConfig` before the test of the deletion: the row of a key.
unfoldable pub find_config : String → List ProxyConfig → Option ProxyConfig
find_config proxy [] = none
find_config proxy (cfg ∷ cfgs) =
    if str_eq cfg.proxy_id proxy then some cfg else find_config proxy cfgs

abbrev pub unless_deleted : Option ProxyConfig → Option ProxyConfig
unless_deleted none = none
unless_deleted (some cfg) = if cfg.deleted then none else some cfg

-- `GetProxyConfig`
unfoldable pub get_proxy_config : ProxyStore → String → Option ProxyConfig
get_proxy_config s proxy = unless_deleted (find_config proxy s.configs)

abbrev pub with_token : String → List ProxyConfig → List ProxyConfig
with_token token [] = []
with_token token (cfg ∷ cfgs) =
    let rest = with_token token cfgs in
    if str_eq cfg.routing_token token && not cfg.deleted then cfg ∷ rest else rest

-- `ListProxyConfigsByRoutingToken`
unfoldable pub list_proxy_configs : ProxyStore → String → List ProxyConfig
list_proxy_configs s token = with_token token s.configs

-- `CountProxyConfigsByRoutingToken`
unfoldable pub count_proxy_configs : ProxyStore → String → ℕ
count_proxy_configs s token = length (with_token token s.configs)

-- `CreateProxyConfig`: whether the key is free, which a deleted proxy keeps.
unfoldable pub create_proxy_config : ProxyStore → ProxyConfig → ProxyStore × Bool
create_proxy_config s cfg = elim (find_config cfg.proxy_id s.configs) [
  | none ↦ (record s { configs = cfg ∷ s.configs }, true)
  | some old ↦ (s, false)
]

unfoldable pub mark_deleted : String → List ProxyConfig → List ProxyConfig
mark_deleted proxy [] = []
mark_deleted proxy (cfg ∷ cfgs) =
    (if str_eq cfg.proxy_id proxy then record cfg { deleted = true } else cfg)
    ∷ mark_deleted proxy cfgs

-- `DeleteProxyConfig`
unfoldable pub delete_proxy_config : ProxyStore → String → ProxyStore
delete_proxy_config s proxy = record s { configs = mark_deleted proxy s.configs }

-- `Where("proxy_id = ?", proxyID)`
unfoldable pub of_proxy : String → List ProxyRevision → List ProxyRevision
of_proxy proxy [] = []
of_proxy proxy (rev ∷ revs) =
    let rest = of_proxy proxy revs in if str_eq rev.proxy_id proxy then rev ∷ rest else rest

-- `OrderBy("revision_num DESC")`
unfoldable pub insert_desc : ProxyRevision → List ProxyRevision → List ProxyRevision
insert_desc rev [] = rev ∷ []
insert_desc rev (r ∷ revs) =
    if leb r.revision_num rev.revision_num then rev ∷ r ∷ revs else r ∷ insert_desc rev revs

unfoldable pub sort_desc : List ProxyRevision → List ProxyRevision
sort_desc [] = []
sort_desc (rev ∷ revs) = insert_desc rev (sort_desc revs)

-- `ListProxyRevisions`
unfoldable pub list_proxy_revisions : ProxyStore → String → List ProxyRevision
list_proxy_revisions s proxy = sort_desc (of_proxy proxy s.revisions)

-- `CountProxyRevisions`
unfoldable pub count_proxy_revisions : ProxyStore → String → ℕ
count_proxy_revisions s proxy = length (of_proxy proxy s.revisions)

abbrev pub first : List ProxyRevision → Option ProxyRevision
first [] = none
first (rev ∷ revs) = some rev

-- `GetLatestProxyRevision`
unfoldable pub get_latest_proxy_revision : ProxyStore → String → Option ProxyRevision
get_latest_proxy_revision s proxy = first (sort_desc (of_proxy proxy s.revisions))

unfoldable pub numbered : ℕ → List ProxyRevision → Option ProxyRevision
numbered num [] = none
numbered num (rev ∷ revs) = if rev.revision_num == num then some rev else numbered num revs

-- `GetProxyRevision`
unfoldable pub get_proxy_revision : ProxyStore → String → ℕ → Option ProxyRevision
get_proxy_revision s proxy num = numbered num (of_proxy proxy s.revisions)

-- `CreateProxyRevision`, with the next key.
unfoldable pub create_proxy_revision : ProxyStore → String → ℕ → String → ℤ → ProxyStore
create_proxy_revision s proxy num blob size = record s {
  revisions =
      record {
        id = s.next_id;
        proxy_id = proxy;
        revision_num = num;
        encrypted_blob = blob;
        size_bytes = size;
      }
      ∷ s.revisions;
  next_id = s.next_id + 1;
}

-- `engine.ID(id).Delete`
unfoldable pub delete_id : ℕ → List ProxyRevision → List ProxyRevision
delete_id id [] = []
delete_id id (rev ∷ revs) =
    let rest = delete_id id revs in if rev.id == id then rest else rev ∷ rest

abbrev pub drop : ℕ → List ProxyRevision → List ProxyRevision
drop zero revs = revs
drop (suc n) [] = []
drop (suc n) (rev ∷ revs) = drop n revs

-- The loop over the revisions beyond those that are kept.
unfoldable pub delete_all : List ProxyRevision → List ProxyRevision → List ProxyRevision
delete_all [] rows = rows
delete_all (rev ∷ revs) rows = delete_all revs (delete_id rev.id rows)

-- `DeleteOldestProxyRevisions`: the store and how many were deleted.
unfoldable pub delete_oldest_proxy_revisions : ProxyStore → String → ℕ → ProxyStore × ℕ
delete_oldest_proxy_revisions s proxy keep =
    let revs = sort_desc (of_proxy proxy s.revisions) in
    if keep == 0
    then (s, 0)
    else if leb (length revs) keep
    then (s, 0)
    else (record s { revisions = delete_all (drop keep revs) s.revisions }, length (drop keep revs))

abbrev pub sum_sizes : List ProxyRevision → ℤ
sum_sizes [] = pos 0
sum_sizes (rev ∷ revs) = rev.size_bytes +ℤ sum_sizes revs

unfoldable pub sum_proxies : (String → Bool) → List ProxyRevision → List ProxyConfig → ℤ
sum_proxies fails revs [] = pos 0
sum_proxies fails revs (cfg ∷ cfgs) =
    (if fails cfg.proxy_id then sum_sizes (of_proxy cfg.proxy_id revs) else pos 0)
    +ℤ sum_proxies fails revs cfgs

-- `GetTotalProxyStorageByRoutingToken`: what the query of the sum returns is dropped, so that a proxy adds
-- nothing unless the query fails, in which case its revisions are summed up by hand.
unfoldable pub get_total_proxy_storage : (String → Bool) → ProxyStore → String → ℤ
get_total_proxy_storage fails s token = sum_proxies fails s.revisions (with_token token s.configs)
