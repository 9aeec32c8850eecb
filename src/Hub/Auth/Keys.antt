-- ===== src/Hub/Auth/Keys.antt =====
-- pkg/hub/auth/jwt.go: what a refreshed token says, and which keys it passes.
use nitella.Base.{
  ℕ, ◌+◌, ◌≤◌, ◌<◌, String, ◌≡◌, refl, ◌∙◌, inl, inr, true, Option, none, some, arith, Option-cases,
}
use nitella.Hub.Auth.{
  renew, sign, or_legacy, generate_token_with_all_claims, clean, user_key, check_refresh_rate_limit,
  numeric_date, hour, ok, refresh_token, validate_token, Claims, TokenManager, claims_for,
  duration_of,
}

-- What a token says of its holder.
abbrev pub holder : Claims → String × String × String × String × String
holder c = (c.user_id, c.node_id, c.device_id, c.role, c.tier_id)

-- The claims of a refreshed token.
abbrev pub renewed : TokenManager → Claims → ℕ → Claims
renewed tm c now = record (claims_for tm c.user_id now (duration_of c.role)) {
  user_id = c.user_id;
  node_id = c.node_id;
  device_id = c.device_id;
  role = c.role;
  tier_id = c.tier_id;
}

-- Claims whose dates are whole seconds, as a token writes them.
abbrev pub IsWhole : Claims → Type 0
IsWhole c =
    (numeric_date c.issued_at ≡ c.issued_at)
    × (numeric_date c.not_before ≡ c.not_before)
    × (numeric_date c.expires_at ≡ c.expires_at)

renewed-IsWhole : (tm : TokenManager) (c : Claims) (now : ℕ) → IsWhole (renewed tm c now)
renewed-IsWhole tm c now = (omega arith, omega arith, omega arith)

module _ {Token : Type 0} (signed : Claims → String → Token)
    (parse : ℕ → Token → String → Option Claims) (public_of : String → String) where
  -- A signed token with whole dates passes the public half of its key from its first second until it expires.
  abbrev pub IsVerified : Type 0
  IsVerified =
      (c : Claims) (key : String) (now : ℕ)
      → IsWhole c
      → c.not_before ≤ now
      → now < c.expires_at
      → parse now (signed c key) (public_of key) ≡ some c

  abbrev pub IsMatching : TokenManager → Type 0
  IsMatching tm =
      tm.public_key
      ≡ (elim tm.private_key [ none ↦ tm.public_key | some key ↦ some (public_of key) ])

  -- What a token is parsed to is what was signed, whatever the keys.
  abbrev pub IsHonest : Type 0
  IsHonest =
      (c c' : Claims) (key public : String) (now : ℕ)
      → parse now (signed c key) public ≡ some c'
      → c' ≡ c

  renewed-IsLive :
      (tm : TokenManager) (c : Claims) (now : ℕ)
      → ((renewed tm c now).not_before ≤ now) × (now < (renewed tm c now).expires_at)
  unfolding duration_of
  renewed-IsLive tm c now = ground arith

  -- Renewed claims pass a manager that has the key.
  validate-sign :
      (tm : TokenManager) (c : Claims) (key : String) (now : ℕ)
      → IsVerified
      → tm.public_key ≡ some (public_of key)
      → IsWhole c
      → c.not_before ≤ now
      → now < c.expires_at
      → validate_token signed parse tm (signed c key) now ≡ ok c
  unfolding validate_token
  validate-sign tm c key now verified has_key whole early late =
      rw (has_key, verified c key now whole early late) refl

  keys_kept :
      (tm : TokenManager) (user : String) (now : ℕ)
      → ((check_refresh_rate_limit tm user now).0.private_key ≡ tm.private_key)
        × ((check_refresh_rate_limit tm user now).0.issuer ≡ tm.issuer)
  unfolding check_refresh_rate_limit clean
  keys_kept tm user now = ground arith

  renew-signed :
      (tm tm' : TokenManager) (key : String) (c : Claims) (now : ℕ)
      → tm'.private_key ≡ some key
      → tm'.issuer ≡ tm.issuer
      → renew signed parse tm' c now ≡ ok (signed (renewed tm c now) key)
  unfolding generate_token_with_all_claims sign
  renew-signed tm tm' key c now has_key issuer = rw (has_key, issuer) refl

  refresh_lem :
      (tm : TokenManager) (token : Token) (key : String) (c : Claims) (now : ℕ)
      → tm.private_key ≡ some key
      → validate_token signed parse tm token now ≡ ok c
      → c.expires_at ≤ now + hour
      → (check_refresh_rate_limit tm (user_key c) now).1 ≡ true
      → (refresh_token signed parse tm token now).1 ≡ ok (signed (renewed tm c now) key)
  unfolding refresh_token
  refresh_lem tm token key c now has_key valid near allowed =
      let tm' = (check_refresh_rate_limit tm (user_key c) now).0 in
      let (kept, issuer) = keys_kept tm (user_key c) now in
      rw (valid, refresh_token)
        (ground (
          arith,
          renew-signed tm tm key c now has_key refl,
          renew-signed tm tm' key c now (kept ∙ has_key) issuer,
        ))

  -- A token within an hour of its expiry, of a user under the limit, is refreshed, and the new token passes
  -- every manager that has the public half of the signing key, whatever key the old one was signed by: it
  -- says the same of its holder, with a new start and expiry and the user as its subject.
  pub refresh-validate :
      (tm other : TokenManager) (token : Token) (key : String) (c : Claims) (now : ℕ)
      → IsVerified
      → tm.private_key ≡ some key
      → other.public_key ≡ some (public_of key)
      → validate_token signed parse tm token now ≡ ok c
      → c.expires_at ≤ now + hour
      → (check_refresh_rate_limit tm (user_key c) now).1 ≡ true
      → (token' : Token) × ((refresh_token signed parse tm token now).1 ≡ ok token')
        × (validate_token signed parse other token' now ≡ ok (renewed tm c now))
  refresh-validate tm other token key c now verified has_key has_public valid near allowed =
      let (early, late) = renewed-IsLive tm c now in
      (
        signed (renewed tm c now) key,
        refresh_lem tm token key c now has_key valid near allowed,
        validate-sign other (renewed tm c now) key now verified has_public
            (renewed-IsWhole tm c now) early late,
      )

  -- A token with whole dates that the legacy key signed stays valid until it expires, with the claims that were signed.
  pub validate-legacy :
      (tm : TokenManager) (old current : String) (c : Claims) (now : ℕ)
      → IsVerified
      → IsHonest
      → tm.public_key ≡ some (public_of current)
      → tm.legacy_public_key ≡ some (public_of old)
      → IsWhole c
      → c.not_before ≤ now
      → now < c.expires_at
      → validate_token signed parse tm (signed c old) now ≡ ok c
  unfolding validate_token
  validate-legacy tm old current c now verified honest has_public has_legacy whole early late =
      elim (Option-cases (parse now (signed c old) (public_of current))) [
        | inl unknown ↦
            rw (has_public, has_legacy, unknown, or_legacy, verified c old now whole early late)
              refl
        | inr (c', known) ↦
            rw (has_public, known, honest c c' old (public_of current) now known) refl
      ]
