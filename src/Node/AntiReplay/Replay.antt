-- ===== src/Node/AntiReplay/Replay.antt =====
-- pkg/node/antireplay.go: no command is accepted twice.
use nitella.Base.{
  ℕ, ◌+◌, ◌*◌, ◌≤◌, ◌<◌, String, ◌≡◌, ◌⊎◌, Bool, true, false, Option, none, some, List, [], ◌∷◌,
  leb,
}
use nitella.Base.Map
use nitella.Base.Map.{Map, lookup-erase, lookup-insert_ne, lookup-erase_self, lookup-erase_ne}
use nitella.Base.Int.{ℤ}
use nitella.Node.AntiReplay.{AntiReplayCache, validate_command, cleanup, set_trusted_fingerprint}

pub data Event : Type 0 where
  validates : String → ℤ → String → Event
  cleans : Event
  trusts : String → Event

unfoldable pub step : AntiReplayCache → ℕ × Event → AntiReplayCache
step c (now, validates id timestamp sender) = (validate_command c id timestamp sender now).0
step c (now, cleans) = cleanup c now
step c (now, trusts fingerprint) = set_trusted_fingerprint c fingerprint

unfoldable pub run : AntiReplayCache → List (ℕ × Event) → AntiReplayCache
run c [] = c
run c (e ∷ es) = run (step c e) es

-- The clock does not go back.
abbrev pub Forward : ℕ → List (ℕ × Event) → ℕ → Type 0
Forward t [] end = t ≤ end
Forward t ((now, e) ∷ es) end = (t ≤ now) × Forward now es end

abbrev stored_since : ℕ → Option ℕ → Bool
stored_since t none = false
stored_since t (some ts) = leb t ts

-- At time `t` the id, accepted at `accepted_at`, is still stored, or twice the maximal age has passed.
abbrev Remembers : AntiReplayCache → String → ℕ → ℕ → Type 0
Remembers c id accepted_at t =
    (stored_since accepted_at (Map.lookup id c.seen) ≡ true) ⊎ (accepted_at + c.max_age * 2 < t)
