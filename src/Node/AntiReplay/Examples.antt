-- ===== src/Node/AntiReplay/Examples.antt =====
-- pkg/node/antireplay.go: the theorems at a command of a paired phone.
use nitella.Base.{◌^◌, ℕ, ◌+◌, ◌-◌, ◌*◌, ◌≡◌, refl, ◌≢◌, ◌↔◌, ◌⊎◌, none, some, [], arith}
use nitella.Base.Map
use nitella.Base.Map.{
  Map, lookup-insert, lookup-erase, lookup-retain, lookup-insert_self, lookup-insert_ne,
  lookup-erase_self, lookup-erase_ne,
}
use nitella.Base.Int.{ℤ, pos}
use nitella.Node.RateLimit.{second}
use nitella.Node.AntiReplay.{cleanup, AntiReplayCache, expired, unix, validate_command}
use nitella.Node.AntiReplay.Acceptance.{IsFresh, IsWrapped, IsTrusted, validate_command_iff}

abbrev cache : AntiReplayCache
cache = record { seen = []; max_age = 60 * second; trusted_fingerprint = "ca" }

-- the clock and the command's timestamp
abbrev now : ℕ
now = 1000 * second

abbrev stamp : ℤ
stamp = pos 990

validate_command_iff_example :
    let (c', error) = validate_command cache "r1" stamp "ca" now in
    ((error ≡ none) ↔ (
      (IsFresh cache.max_age now (unix stamp) ⊎ IsWrapped now (unix stamp))
      × IsTrusted cache "ca"
      × (Map.lookup "r1" cache.seen ≡ none)))
    × (error ≡ none → c'.seen ≡ Map.insert "r1" now cache.seen)
    × (error ≢ none → c' ≡ cache)
validate_command_iff_example = validate_command_iff cache "r1" stamp "ca" now (omega arith)

-- three hundred years ahead, the command is accepted, and again after a cleanup that forgets its id
abbrev far : ℤ
far = pos (1000 + 9500000000)

far_twice :
    ((validate_command cache "r3" far "ca" now).1 ≡ none)
    × ((validate_command
          (cleanup (validate_command cache "r3" far "ca" now).0 (1200 * second))
          "r3"
          far
          "ca"
          (1200 * second)).1
        ≡ none)
unfolding unix validate_command cleanup Map.lookup Map.insert Map.retain
far_twice = (refl, refl)

-- a timestamp beyond the last second of a time is one of long ago
past_the_end : (validate_command cache "r4" (pos (2 ^ 63 - 1)) "ca" now).1 ≡ some expired
unfolding unix validate_command
past_the_end = refl
