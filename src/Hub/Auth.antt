-- ===== src/Hub/Auth.antt =====
-- pkg/hub/auth/jwt.go: the tokens of users, nodes and administrators. The library that encodes, signs and
-- verifies tokens is a parameter, with the type of tokens: `signed` is SignedString, `parse` is ParseWithClaims with a key at a time,
-- and `public_of` is the public half of a private key. Times are nanoseconds; the dates of a
-- token are whole seconds.
pub mod Refresh
pub mod Keys
mod Examples
use nitella.Base.{
  ◌^◌, ℕ, zero, suc, ◌+◌, ◌-◌, ◌*◌, ◌/◌, ◌%◌, ◌≤◌, ◌<◌, min, max, String, ◌≡◌, refl, sym, ap, ◌∙◌,
  ◌≢◌, ◌↔◌, ◌⊎◌, inl, inr, Bool, true, false, not, ◌&&◌, ◌||◌, Option, none, some, List, [], ◌∷◌,
  ◌++◌, map, arith, ltb, leb, ◌==◌, if◌then◌else◌, length, get_or, any-perm, any, all, All, str_eq,
  str_eq_iff, codes, concat, concat_cancel_left, concat_assoc, concat_apart, codes-concat,
  codes-injective, IsFree, separator_cancel, separator-IsFree, cut, split_on, is_digit, includes,
  Bool-cases, Option-cases,
}
use nitella.Base.Map
use nitella.Base.Map.{
  Map, lookup-insert, lookup-erase, lookup-retain, lookup-insert_self, lookup-insert_ne,
  lookup-erase_self, lookup-erase_ne,
}

pub record Claims : Type 0 where
  pub issuer : String
  pub subject : String
  pub issued_at : ℕ
  pub expires_at : ℕ
  pub not_before : ℕ
  pub user_id : String
  pub node_id : String
  pub device_id : String
  pub role : String
  pub tier_id : String

-- `maxRefreshPerMin` and the other fields. A key is a text.
pub record TokenManager : Type 0 where
  pub private_key : Option String
  pub public_key : Option String
  pub legacy_public_key : Option String
  pub issuer : String
  pub refresh_attempts : Map (List ℕ)
  pub max_refresh_per_min : ℕ
  pub last_cleanup : ℕ

pub data TokenError : Type 0 where
  private_key_required : TokenError
  public_key_required : TokenError
  invalid_token : TokenError
  rate_limit_exceeded : TokenError

pub data Outcome (A : Type 0) : Type 0 where
  ok : A → Outcome A
  failed : TokenError → Outcome A

abbrev pub second : ℕ
second = 1000000000

abbrev pub minute : ℕ
minute = 60 * second

abbrev pub hour : ℕ
hour = 60 * minute

-- `jwt.NewNumericDate` drops the part of a second.
abbrev pub numeric_date : ℕ → ℕ
numeric_date t = t / second * second

-- The public half of the legacy key, if there is one.
abbrev pub legacy_public : (String → String) → Option String → Option String
legacy_public public_of none = none
legacy_public public_of (some legacy) = some (public_of legacy)

-- `NewTokenManagerWithRotation`, from the keys that were decoded.
unfoldable pub new_token_manager :
    (String → String) → Option String → Option String → Option String → String → Option TokenManager
new_token_manager public_of none none legacy issuer = none
new_token_manager public_of (some private) none legacy issuer = some (record {
  private_key = some private;
  public_key = some (public_of private);
  legacy_public_key = legacy_public public_of legacy;
  issuer = issuer;
  refresh_attempts = [];
  max_refresh_per_min = 10;
  last_cleanup = 0;
})
new_token_manager public_of private (some public) legacy issuer = some (record {
  private_key = private;
  public_key = some public;
  legacy_public_key = legacy_public public_of legacy;
  issuer = issuer;
  refresh_attempts = [];
  max_refresh_per_min = 10;
  last_cleanup = 0;
})

-- The claims that the generators share.
abbrev pub claims_for : TokenManager → String → ℕ → ℕ → Claims
claims_for tm subject now duration = record {
  issuer = tm.issuer;
  subject = subject;
  issued_at = numeric_date now;
  expires_at = numeric_date (now + duration);
  not_before = numeric_date now;
  user_id = "";
  node_id = "";
  device_id = "";
  role = "";
  tier_id = "";
}

-- The checks of a refresh limit: attempts after the cutoff, of which the entries without one are deleted.
unfoldable pub recent : ℕ → List ℕ → List ℕ
recent now [] = []
recent now (t ∷ attempts) =
    let rest = recent now attempts in if ltb now (t + minute) then t ∷ rest else rest

abbrev pub has_recent : ℕ → List ℕ → Bool
has_recent now attempts = any (λ t. ltb now (t + minute)) attempts

abbrev pub attempts_of : Option (List ℕ) → List ℕ
attempts_of none = []
attempts_of (some attempts) = attempts

-- The cleanup, every five minutes.
unfoldable pub clean : TokenManager → ℕ → TokenManager
clean tm now =
    if ltb (5 * minute) (now - tm.last_cleanup)
    then record tm {
      refresh_attempts = Map.retain (has_recent now) tm.refresh_attempts;
      last_cleanup = now;
    }
    else tm

-- `checkRefreshRateLimit`: whether the refresh goes on.
unfoldable pub check_refresh_rate_limit : TokenManager → String → ℕ → TokenManager × Bool
check_refresh_rate_limit tm user now =
    let tm' = clean tm now in
    let attempts = recent now (attempts_of (Map.lookup user tm'.refresh_attempts)) in
    if leb tm.max_refresh_per_min (length attempts)
    then (record tm' { refresh_attempts = Map.insert user attempts tm'.refresh_attempts }, false)
    else (
      record tm' {
        refresh_attempts = Map.insert user (attempts ++ (now ∷ [])) tm'.refresh_attempts;
      },
      true,
    )

-- The duration of a refreshed token.
unfoldable pub duration_of : String → ℕ
duration_of role =
    if str_eq role "mobile" then 24 * hour else if str_eq role "node" then 7 * 24 * hour else hour

-- The key under which refreshes are counted.
unfoldable pub user_key : Claims → String
user_key claims = if str_eq claims.user_id "" then claims.node_id else claims.user_id

module _ {Token : Type 0} (signed : Claims → String → Token)
    (parse : ℕ → Token → String → Option Claims) where
  -- `token.SignedString(tm.privateKey)`
  unfoldable pub sign : TokenManager → Claims → Outcome Token
  sign tm claims = elim tm.private_key [
    | none ↦ failed private_key_required
    | some key ↦ ok (signed claims key)
  ]

  -- `GenerateToken`
  unfoldable pub generate_token : TokenManager → String → String → String → ℕ → ℕ → Outcome Token
  generate_token tm user node role duration now =
      sign tm
        (record (claims_for tm user now duration) { user_id = user; node_id = node; role = role })

  -- `GenerateMobileToken`
  unfoldable pub generate_mobile_token : TokenManager → String → String → ℕ → Outcome Token
  generate_mobile_token tm user device now = sign tm (record (claims_for tm user now (24 * hour)) {
    user_id = user;
    device_id = device;
    role = "mobile";
  })

  -- `GenerateNodeToken`
  unfoldable pub generate_node_token : TokenManager → String → String → ℕ → Outcome Token
  generate_node_token tm node user now = sign tm (record (claims_for tm node now (7 * 24 * hour)) {
    node_id = node;
    user_id = user;
    role = "node";
  })

  -- `GenerateAdminToken`
  unfoldable pub generate_admin_token : TokenManager → String → ℕ → Outcome Token
  generate_admin_token tm admin now =
      sign tm (record (claims_for tm admin now hour) { user_id = admin; role = "admin" })

  -- `GenerateTokenWithAllClaims`
  unfoldable pub generate_token_with_all_claims :
      TokenManager → String → String → String → String → String → ℕ → ℕ → Outcome Token
  generate_token_with_all_claims tm user node device role tier duration now =
      sign tm (record (claims_for tm user now duration) {
        user_id = user;
        node_id = node;
        device_id = device;
        role = role;
        tier_id = tier;
      })

  abbrev pub or_legacy : Option Claims → Option String → Token → ℕ → Outcome Claims
  or_legacy (some claims) legacy token now = ok claims
  or_legacy none none token now = failed invalid_token
  or_legacy none (some legacy) token now = elim (parse now token legacy) [
    | none ↦ failed invalid_token
    | some claims ↦ ok claims
  ]

  -- `ValidateToken`: the current key, then the legacy key.
  unfoldable pub validate_token : TokenManager → Token → ℕ → Outcome Claims
  validate_token tm token now = elim tm.public_key [
    | none ↦ failed public_key_required
    | some key ↦ or_legacy (parse now token key) tm.legacy_public_key token now
  ]

  -- The rest of `RefreshToken`, after the limit.
  abbrev pub renew : TokenManager → Claims → ℕ → Outcome Token
  renew tm claims now =
      generate_token_with_all_claims tm claims.user_id claims.node_id claims.device_id claims.role
        claims.tier_id (duration_of claims.role) now

  -- `RefreshToken`; every call reads the clock once here.
  unfoldable pub refresh_token : TokenManager → Token → ℕ → TokenManager × Outcome Token
  refresh_token tm token now = elim (validate_token tm token now) [
    | failed e ↦ (tm, failed e)
    | ok claims ↦
        if ltb (now + hour) claims.expires_at
        then (tm, ok token)
        else if str_eq (user_key claims) ""
        then (tm, renew tm claims now)
        else (let (tm', allowed) = check_refresh_rate_limit tm (user_key claims) now in
            if allowed then (tm', renew tm' claims now) else (tm', failed rate_limit_exceeded))
  ]
