-- ===== src/Net/HostPort.antt =====
-- Go's `net.SplitHostPort`, as far as the host is used, and a printed address with a port.
use nitella.Base.{
  ℕ, String, Bool, false, not, ◌&&◌, ◌||◌, Option, none, some, ◌==◌, if◌then◌else◌, any, codes,
}
use Prim.Native.Char.{code}

abbrev has : ℕ → String → Bool
has c s = any (λ x. x == c) (codes s)

-- The text before the last `c`.
unfoldable pub before_last : ℕ → String → Option String
before_last c String.[] = none
before_last c (String.◌∷◌ x s) = elim (before_last c s) [
  | some t ↦ some (String.◌∷◌ x t)
  | none ↦ if code x == c then some "" else none
]

-- The text before the first `c` and the one after it.
unfoldable pub cut_text : ℕ → String → Option (String × String)
cut_text c String.[] = none
cut_text c (String.◌∷◌ x s) =
    let rest = cut_text c s in
    if code x == c
    then some ("", s)
    else (elim rest [ none ↦ none | some (t, u) ↦ some (String.◌∷◌ x t, u) ])

-- What follows the closing bracket is a colon and a port with no further one.
is_port : String → Bool
is_port String.[] = false
is_port (String.◌∷◌ x s) = code x == b':' && not (has b':' s)

bracketed : String → Option String
bracketed s = elim (cut_text b']' s) [
  | none ↦ none
  | some (host, after) ↦
      if is_port after && not (has b'[' s) && not (has b']' after) then some host else none
]

plain : String → Option String → Option String
plain s none = none
plain s (some host) = if has b':' host || has b'[' s || has b']' s then none else some host

unfoldable pub split_host : String → Option String
unfolding before_last cut_text is_port bracketed plain
split_host String.[] = none
split_host (String.◌∷◌ x s) =
    let whole = String.◌∷◌ x s in
    if code x == b'[' then bracketed s else plain whole (before_last b':' whole)
