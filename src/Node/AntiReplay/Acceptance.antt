-- ===== src/Node/AntiReplay/Acceptance.antt =====
-- pkg/node/antireplay.go: which commands are accepted.
use nitella.Base.{
  ◌^◌, ℕ, ◌+◌, ◌-◌, ◌*◌, ◌≤◌, ◌<◌, String, ◌≡◌, ◌≢◌, ◌↔◌, ◌⊎◌, none, arith, str_eq_iff,
}
use nitella.Base.Map
use nitella.Base.Map.{
  Map, lookup-insert, lookup-erase, lookup-retain, lookup-insert_self, lookup-insert_ne,
  lookup-erase_self, lookup-erase_ne,
}
use nitella.Base.Int.{ℤ, pos_part, neg_part}
use nitella.Node.RateLimit.{second}
use nitella.Node.AntiReplay.{AntiReplayCache, max_skew, unix, validate_command}

-- The time of a command is what `time.Unix` makes of its timestamp: it is at most 30 seconds ahead of the clock and at most `max_age` behind it.
abbrev pub IsFresh : ℕ → ℕ → ℤ → Type 0
IsFresh max_age now t =
    (pos_part t * second ≤ now + neg_part t * second + max_skew)
    × (now + neg_part t * second ≤ pos_part t * second + max_age)

abbrev pub IsTrusted : AntiReplayCache → String → Type 0
IsTrusted c sender = (c.trusted_fingerprint ≡ "") ⊎ (sender ≡ c.trusted_fingerprint)

-- The command's time is so far ahead of the clock that the difference, and its negation, are the least Duration.
abbrev pub IsWrapped : ℕ → ℤ → Type 0
IsWrapped now t = now + neg_part t * second + 2 ^ 63 ≤ pos_part t * second

-- A command is accepted exactly if it is fresh or its time is 2 ^ 63 nanoseconds ahead or more, its sender is
-- trusted and its id is not stored, when the maximal age is below the greatest Duration; it is then stored
-- with the time of the call, and a command that is refused changes nothing.
pub validate_command_iff :
    (c : AntiReplayCache) (id : String) (timestamp : ℤ) (sender : String) (now : ℕ)
    → c.max_age < 2 ^ 63 - 1
    → let (c', error) = validate_command c id timestamp sender now in
      ((error ≡ none) ↔ (
        (IsFresh c.max_age now (unix timestamp) ⊎ IsWrapped now (unix timestamp))
        × IsTrusted c sender
        × (Map.lookup id c.seen ≡ none)))
      × (error ≡ none → c'.seen ≡ Map.insert id now c.seen)
      × (error ≢ none → c' ≡ c)
unfolding validate_command
validate_command_iff c id timestamp sender now small = (
  (
    λ e.
        ground
          (arith, str_eq_iff c.trusted_fingerprint "", str_eq_iff sender c.trusted_fingerprint),
    λ e.
        ground
          (arith, str_eq_iff c.trusted_fingerprint "", str_eq_iff sender c.trusted_fingerprint),
  ),
  (λ e. ground arith),
  (λ e. ground arith),
)
