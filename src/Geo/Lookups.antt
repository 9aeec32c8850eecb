-- ===== src/Geo/Lookups.antt =====
-- pkg/geoip/manager.go: Lookup over all its sources.
use nitella.Base.{ℕ, String, refl, inl, inr, List, [], ◌∷◌, Option-cases}
use mathlib.Core.Path.{subst}
use nitella.Geo.Cache.{get}
use nitella.Geo.Manager.{
  Manager, Source, l1, l2, local, remote, unknown, ask_remotes, ask_local, ask, try_all, lookup,
}
use nitella.Geo.Answers.{
  Fits, IsFitting, Kept, cache_it-fits, remotes-Fits, get-Fits, ask_l2-fits, refit,
}

module _ {Info : Type 0} (P : String → Info → Type 0) where
  ask-Kept :
      (m : Manager Info) (source : Source) (ip : String) (now : ℕ)
      → IsFitting P m
      → Kept P ip (ask m source ip now)
  unfolding ask
  ask-Kept m l1 ip now f =
      let fits = get-Fits P m.l1_cache ip now (f.in_memory ip) in
      elim (Option-cases (get m.l1_cache ip now)) [
        | inl absent ↦ rw (absent, ask) (refit P m _ refl refl refl refl refl f, tt)
        | inr (info, found) ↦
            rw (found, ask) (refit P m _ refl refl refl refl refl f, subst (Fits P ip) found fits)
      ]
  ask-Kept m l2 ip now f = ask_l2-fits P m m.l2_cache ip now refl f
  ask-Kept m local ip now f = elim (Option-cases (ask_local m ip)) [
    | inl absent ↦ rw (absent, ask) (f, tt)
    | inr (info, found) ↦
        let fits = subst (Fits P ip) found (f.locally ip) in
        rw (found, ask) (cache_it-fits P m ip info now fits f, fits)
  ]
  ask-Kept m remote ip now f =
      let (rest, answer) = remotes-Fits P m.remote_providers ip now f.remotely in
      let m' = record m { remote_providers = (ask_remotes m.remote_providers ip now).0 } in
      let f' : IsFitting P m' = record {
        in_memory = f.in_memory;
        in_table = f.in_table;
        locally = f.locally;
        remotely = rest;
      } in
      elim (Option-cases (ask_remotes m.remote_providers ip now).1) [
        | inl absent ↦ rw (absent, ask) (f', tt)
        | inr (info, found) ↦
            let fits = subst (Fits P ip) found answer in
            rw (found, ask) (cache_it-fits P m' ip info now fits f', fits)
      ]
  ask-Kept m unknown ip now f = (f, tt)

  try_all-Kept :
      (m : Manager Info) (sources : List Source) (ip : String) (now : ℕ)
      → IsFitting P m
      → Kept P ip (try_all m sources ip now)
  unfolding try_all
  try_all-Kept m [] ip now f = (f, tt)
  try_all-Kept m (source ∷ sources) ip now f =
      let (f', fits) = ask-Kept m source ip now f in
      elim (Option-cases (ask m source ip now).1) [
        | inl silent ↦ rw (silent, try_all) (try_all-Kept (ask m source ip now).0 sources ip now f')
        | inr (info, found) ↦ rw (found, try_all) (f', subst (Fits P ip) found fits)
      ]

  -- The answers of lookups of addresses at some times.
  unfoldable pub AllFit : Manager Info → List (String × ℕ) → Type 0
  AllFit m [] = Unit
  AllFit m ((ip, now) ∷ lookups) =
      Fits P ip (lookup m ip now).1 × AllFit (lookup m ip now).0 lookups

  -- Where what the providers answer for an address, and what the caches hold for it, fits the address, every
  -- answer of every sequence of lookups does: no cache, eviction or fallback in any order of the sources
  -- answers an address with what was found for another, or with what nobody found.
  pub lookups-AllFit :
      (m : Manager Info) (lookups : List (String × ℕ)) → IsFitting P m → AllFit m lookups
  unfolding AllFit lookup
  lookups-AllFit m [] f = tt
  lookups-AllFit m ((ip, now) ∷ lookups) f =
      let (f', fits) = try_all-Kept m m.fallback_strategy ip now f in
      (fits, lookups-AllFit (lookup m ip now).0 lookups f')
