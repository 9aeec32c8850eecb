-- ===== src/Hub/Proxies/Examples.antt =====
-- pkg/hub/server/mobile_server.go: requests of two routing tokens.
use nitella.Base.{
  ◌^◌, ℕ, zero, suc, ◌+◌, ◌-◌, ◌*◌, ◌/◌, ◌%◌, ◌≤◌, ◌<◌, min, max, String, ◌≡◌, refl, sym, ap, ◌∙◌,
  ◌≢◌, ◌↔◌, ◌⊎◌, inl, inr, Bool, true, false, not, ◌&&◌, ◌||◌, Option, none, some, List, [], ◌∷◌,
  ◌++◌, map, arith, ltb, leb, ◌==◌, if◌then◌else◌, length, get_or, any-perm, any, all, All, str_eq,
  str_eq_iff, codes, concat, concat_cancel_left, concat_assoc, concat_apart, codes-concat,
  codes-injective, IsFree, separator_cancel, separator-IsFree, cut, split_on, is_digit, includes,
  Bool-cases, Option-cases,
}
use mathlib.Core.Bool.{true≢false}
use nitella.Base.Int.{ℤ, pos}
use nitella.Tier.{ProxyManagementConfig}
use nitella.Hub.Proxies.{
  ProxyConfig, ProxyRevision, ProxyStore, find_config, get_proxy_config, of_proxy, mark_deleted,
  get_total_proxy_storage, create_proxy_revision, create_proxy_config,
  delete_oldest_proxy_revisions, get_latest_proxy_revision, sort_desc, insert_desc, sum_proxies,
  count_proxy_configs, delete_all, delete_id,
}
use nitella.Hub.Proxies.Requests.{
  done, denied, storage_exceeded, check_owner, create_proxy, push_revision, get_revision,
  over_storage, proxy_exists, delete_proxy,
}
use nitella.Hub.Proxies.Reached.{Reach, empty, created, pushes}
use nitella.Hub.Proxies.Pushes.{history, pushed}
use nitella.Hub.Proxies.History.{after_push, push_revision-history, push_revision-get_revision}
use nitella.Hub.Proxies.Owners.{serve, serve-others, push, push_revision-storage}

abbrev limits : ProxyManagementConfig
limits = record {
  enabled = true;
  max_proxies = pos 2;
  max_revisions_per_proxy = pos 2;
  max_storage_kb = pos 1;
  ttl_days = pos 0;
}

abbrev no_fails : String → Bool
no_fails proxy = false

abbrev nothing : ProxyStore
nothing = record { configs = []; revisions = []; next_id = 1 }

abbrev mine : ProxyStore
mine = (create_proxy limits nothing "t1" "p").0

abbrev two : ProxyStore
two =
    (push_revision no_fails limits (push_revision no_fails limits mine "t1" "p" "a" (pos 1000)).0
      "t1" "p" "b" (pos 1000)).0

two-Reach : Reach two
two-Reach =
    pushes no_fails limits (push_revision no_fails limits mine "t1" "p" "a" (pos 1000)).0 "t1" "p"
      "b" (pos 1000)
      (pushes no_fails limits mine "t1" "p" "a" (pos 1000) (created limits nothing "t1" "p" empty))

abbrev entry : ProxyConfig
entry = record { proxy_id = "p"; routing_token = "t1"; deleted = false }

-- the token owns the proxy, and two revisions of 1000 bytes leave room for a third under a limit of 1024
two_facts :
    (check_owner two "t1" "p" ≡ none)
    × (over_storage limits (get_total_proxy_storage no_fails two "t1") (pos 1000) ≡ false)
    × (find_config "p" two.configs ≡ some entry)
    × (length two.revisions ≡ 2)
unfolding push_revision create_proxy check_owner create_proxy_config find_config get_proxy_config
    create_proxy_revision delete_oldest_proxy_revisions get_latest_proxy_revision of_proxy sort_desc
    insert_desc get_total_proxy_storage sum_proxies count_proxy_configs nitella.Base.Int.◌+ℤ◌
    delete_all delete_id
two_facts = (refl, refl, refl, refl)

push_revision-history_example :
    history (push_revision no_fails limits two "t1" "p" "c" (pos 1000)).0 "p"
    ≡ after_push limits (pushed two "p" "c" (pos 1000)) (history two "p")
push_revision-history_example =
    push_revision-history no_fails limits two "t1" "p" "c" (pos 1000) "p" two-Reach two_facts.0
      two_facts.1

push_revision-get_revision_example :
    (num : ℕ) × ((push_revision no_fails limits two "t1" "p" "c" (pos 1000)).1 ≡ done num)
    × (get_revision (push_revision no_fails limits two "t1" "p" "c" (pos 1000)).0 "t1" "p" 0
        ≡ done (pushed two "p" "c" (pos 1000)))
    × (get_revision (push_revision no_fails limits two "t1" "p" "c" (pos 1000)).0 "t1" "p" num
        ≡ done (pushed two "p" "c" (pos 1000)))
push_revision-get_revision_example =
    push_revision-get_revision no_fails limits two "t1" "p" "c" (pos 1000) two-Reach two_facts.0
      two_facts.1

serve-others_example :
    (find_config "p" (serve no_fails limits two "t2" (push "p" "x" (pos 1))).configs ≡ some entry)
    × (history (serve no_fails limits two "t2" (push "p" "x" (pos 1))) "p" ≡ history two "p")
serve-others_example =
    serve-others no_fails limits two "t2" (push "p" "x" (pos 1)) "p" entry two-Reach two_facts.2
      (λ e. true≢false (sym ((str_eq_iff "t1" "t2").1 e)))

push_revision-storage_example :
    (push_revision no_fails limits two "t1" "p" "c" (pos 1025) ≡ (two, denied storage_exceeded))
    ↔ (over_storage limits (pos 0) (pos 1025) ≡ true)
push_revision-storage_example = push_revision-storage limits two "t1" "p" "c" (pos 1025) two_facts.0

-- the name of a deleted proxy is not free again
name_taken : (create_proxy limits (delete_proxy mine "t1" "p").0 "t1" "p").1 ≡ denied proxy_exists
unfolding create_proxy create_proxy_config find_config check_owner get_proxy_config delete_proxy
    mark_deleted count_proxy_configs nitella.Hub.Proxies.delete_proxy_config
name_taken = refl
