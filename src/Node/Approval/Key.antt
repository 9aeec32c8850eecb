-- ===== src/Node/Approval/Key.antt =====
-- pkg/node/approval.go: the key of a decision. The comment there says that the null byte avoids
-- collisions.

-- `KeySeparator`
use nitella.Base.{
  ℕ, String, ◌≡◌, refl, sym, ap, ◌∙◌, ◌≢◌, inl, inr, Bool, true, false, not, List, [], ◌∷◌, ◌++◌,
  arith, if◌then◌else◌, str_eq, str_eq_iff, codes, concat, codes-concat, codes-injective, IsFree,
  separator_cancel, separator-IsFree, Bool-cases,
}
use mathlib.Core.Path.{subst}
use mathlib.Core.List.{append_assoc}

abbrev pub key_separator : String
key_separator = "\0"

-- `buildKey`
unfoldable pub build_key : String → String → String → String
build_key source_ip rule_id session =
    if not (str_eq session "")
    then concat (concat (concat (concat source_ip key_separator) rule_id) key_separator) session
    else concat (concat source_ip key_separator) rule_id

-- A text with no null byte.
abbrev pub NoNull : String → Type 0
NoNull s = IsFree 0 (codes s)

codes_pair :
    (ip rule : String)
    → codes (concat (concat ip key_separator) rule) ≡ codes ip ++ (0 ∷ codes rule)
codes_pair ip rule = simp (codes-concat, append_assoc)

codes_triple :
    (ip rule session : String)
    → codes (concat (concat (concat (concat ip key_separator) rule) key_separator) session)
      ≡ codes ip ++ (0 ∷ (codes rule ++ (0 ∷ codes session)))
codes_triple ip rule session = simp (codes-concat, append_assoc)

-- What follows the address in a key.
abbrev tail_codes : String → String → List ℕ
tail_codes rule session =
    if not (str_eq session "") then codes rule ++ (0 ∷ codes session) else codes rule

codes-build_key :
    (ip rule session : String)
    → codes (build_key ip rule session) ≡ codes ip ++ (0 ∷ tail_codes rule session)
unfolding build_key
codes-build_key ip rule session = elim (Bool-cases (str_eq session "")) [
  | inl e ↦ rw e (codes_pair ip rule)
  | inr e ↦ rw e (codes_triple ip rule session)
]

abbrev with_session : Bool → List ℕ → List ℕ → List ℕ
with_session true rule session = rule
with_session false rule session = rule ++ (0 ∷ session)

-- A key with no session and one with a session differ.
with_session_apart : (rule rule' session : List ℕ) → IsFree 0 rule → rule ≢ rule' ++ (0 ∷ session)
with_session_apart rule rule' session f e =
    separator-IsFree 0 rule' session (subst (λ s. IsFree 0 s) e f)

with_session-injective :
    (b b' : Bool) (rule session rule' session' : List ℕ)
    → IsFree 0 rule
    → IsFree 0 rule'
    → (b ≡ true → session ≡ [])
    → (b' ≡ true → session' ≡ [])
    → with_session b rule session ≡ with_session b' rule' session'
    → (rule ≡ rule') × (session ≡ session')
with_session-injective true true rule session rule' session' f f' h h' e =
    (e, h refl ∙ sym (h' refl))
with_session-injective true false rule session rule' session' f f' h h' e =
    absurd (with_session_apart rule rule' session' f e)
with_session-injective false true rule session rule' session' f f' h h' e =
    absurd (with_session_apart rule' rule session f' (sym e))
with_session-injective false false rule session rule' session' f f' h h' e =
    separator_cancel 0 rule session rule' session' f f' e

no_codes : (s : String) → str_eq s "" ≡ true → codes s ≡ []
no_codes s e = ap codes ((str_eq_iff s "").0 e)

tail_codes-with_session :
    (rule session : String)
    → tail_codes rule session ≡ with_session (str_eq session "") (codes rule) (codes session)
tail_codes-with_session rule session = ground arith

-- Two keys are equal only if all their parts are, when no address and no rule id holds a null byte.
pub build_key-injective :
    (ip rule session ip' rule' session' : String)
    → NoNull ip
    → NoNull rule
    → NoNull ip'
    → NoNull rule'
    → build_key ip rule session ≡ build_key ip' rule' session'
    → (ip ≡ ip') × (rule ≡ rule') × (session ≡ session')
build_key-injective ip rule session ip' rule' session' f g f' g' e =
    let (same_ip, tails) =
      separator_cancel 0 (codes ip) (tail_codes rule session) (codes ip')
        (tail_codes rule' session') f f'
        (sym (codes-build_key ip rule session) ∙ ap codes e ∙ codes-build_key ip' rule' session') in
    let (same_rule, same_session) =
      with_session-injective (str_eq session "") (str_eq session' "") (codes rule) (codes session)
        (codes rule') (codes session') g g' (no_codes session) (no_codes session')
        (sym (tail_codes-with_session rule session)
          ∙ tails
          ∙ tail_codes-with_session rule' session') in
    (
      codes-injective ip ip' same_ip,
      codes-injective rule rule' same_rule,
      codes-injective session session' same_session,
    )
