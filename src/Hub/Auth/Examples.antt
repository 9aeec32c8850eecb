-- ===== src/Hub/Auth/Examples.antt =====
-- pkg/hub/auth/jwt.go: tokens as pairs of claims and key.
use nitella.Base.{
  ℕ, ◌-◌, ◌*◌, ◌≤◌, String, ◌≡◌, refl, ◌&&◌, Option, none, some, List, [], ◌∷◌, arith, ltb, leb,
  if◌then◌else◌, str_eq, str_eq_iff,
}
use nitella.Base.Map
use nitella.Base.Map.{
  Map, lookup-insert, lookup-erase, lookup-retain, lookup-insert_self, lookup-insert_ne,
  lookup-erase_self, lookup-erase_ne,
}
use nitella.Hub.Auth.{
  Claims, TokenManager, Outcome, ok, failed, rate_limit_exceeded, new_token_manager, hour, minute,
  second, claims_for, validate_token, refresh_token, generate_node_token, user_key,
  check_refresh_rate_limit,
}
use nitella.Hub.Auth.Keys.{renewed, refresh-validate, validate-legacy, IsVerified, IsHonest}
use nitella.Hub.Auth.Refresh.{run, granted, granted-le-max}

abbrev Token : Type 0
Token = Claims × String

abbrev signed : Claims → String → Token
signed c key = (c, key)

abbrev parse : ℕ → Token → String → Option Claims
parse now (c, key) public =
    if str_eq key public && (leb c.not_before now && ltb now c.expires_at) then some c else none

abbrev public_of : String → String
public_of key = key

verified : IsVerified signed parse public_of
verified c key now whole early late = ground (arith, str_eq_iff key key)

honest : IsHonest signed parse public_of
honest c c' key public now e = ground arith

-- signed with a key that was rotated out
abbrev manager : TokenManager
manager = record {
  private_key = some "new";
  public_key = some "new";
  legacy_public_key = some "old";
  issuer = "hub";
  refresh_attempts = [];
  max_refresh_per_min = 10;
  last_cleanup = 0;
}

abbrev node_claims : Claims
node_claims = record {
  issuer = "hub";
  subject = "n1";
  issued_at = 0;
  expires_at = 7 * 24 * hour;
  not_before = 0;
  user_id = "u1";
  node_id = "n1";
  device_id = "";
  role = "node";
  tier_id = "";
}

abbrev late : ℕ
late = 7 * 24 * hour - minute

old_valid : validate_token signed parse manager (signed node_claims "old") late ≡ ok node_claims
old_valid =
    validate-legacy signed parse public_of manager "old" "new" node_claims late verified honest refl
      refl (omega arith, omega arith, omega arith) (omega arith) (omega arith)

refresh-validate_example :
    (token' : Token) × ((refresh_token signed parse manager (signed node_claims "old") late).1
      ≡ ok token')
    × (validate_token signed parse (record manager { legacy_public_key = none }) token' late
        ≡ ok (renewed manager node_claims late))
unfolding check_refresh_rate_limit user_key nitella.Hub.Auth.clean Map.lookup
    nitella.Hub.Auth.recent Map.retain Map.insert
refresh-validate_example =
    refresh-validate signed parse public_of manager (record manager { legacy_public_key = none })
      (signed node_claims "old") "new" node_claims late verified refl refl old_valid (omega arith)
      refl

-- the refreshed token of a node has its owner as the subject
subject_changes : (renewed manager node_claims late).subject ≡ "u1"
subject_changes = refl

-- twelve attempts within a second
abbrev burst : List (String × ℕ)
burst =
    ("u1", 1)
    ∷ ("u1", 1)
    ∷ ("u1", 1)
    ∷ ("u2", 1)
    ∷ ("u1", 1)
    ∷ ("u1", 1)
    ∷ ("u1", 1)
    ∷ ("u1", 1)
    ∷ ("u1", 1)
    ∷ ("u1", 1)
    ∷ ("u1", 1)
    ∷ ("u1", 1)
    ∷ []

granted-le-max_example : granted (run manager 0 burst) "u1" hour burst ≤ manager.max_refresh_per_min
granted-le-max_example = granted-le-max manager "u1" 0 burst hour burst refl (omega arith)

ten_go_on : granted manager "u1" hour burst ≡ 10
unfolding granted check_refresh_rate_limit nitella.Hub.Auth.clean Map.lookup nitella.Hub.Auth.recent
    Map.retain Map.insert
ten_go_on = refl
