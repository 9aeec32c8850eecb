-- ===== src/Node/Rules/Matching.antt =====
-- pkg/node/rules.go: `MatchRule` and `matchCondition`, at a minute of the day. A certificate holds the texts
-- that Go prints of it; the digest of a certificate is given.
use nitella.Base.{
  ℕ, String, Bool, true, false, not, Option, none, some, List, [], ◌∷◌, if◌then◌else◌, str_eq,
}
use nitella.Base.Map.{Map}
use nitella.Base.Int.{ℤ}
use nitella.Node.RateLimit.{RateLimitConfig}
use nitella.Net.HostPort.{split_host}
use nitella.Node.GlobalRules.{ActionType}
use nitella.Node.Rules.Texts.{Operator, match_string, match_any}
use nitella.Node.Rules.Times.{match_time_range}

pub data ConditionType : Type 0 where
  unspecified : ConditionType
  source_ip : ConditionType
  geo_country : ConditionType
  geo_city : ConditionType
  geo_isp : ConditionType
  time_range : ConditionType
  tls_fingerprint : ConditionType
  tls_cn : ConditionType
  tls_serial : ConditionType
  tls_present : ConditionType
  tls_ca : ConditionType
  tls_san : ConditionType
  tls_ou : ConditionType

pub record Condition : Type 0 where
  pub type : ConditionType
  pub op : Operator
  pub value : String
  pub negate : Bool

-- The fields of a rule that matching and dispatch read; the mock and the expression are left out.
pub record Rule : Type 0 where
  pub id : String
  pub name : String
  pub priority : ℤ
  pub enabled : Bool
  pub conditions : List Condition
  pub action : ActionType
  pub target_backend : String
  pub rate_limit : Option RateLimitConfig

pub record GeoInfo : Type 0 where
  pub country : String
  pub city : String
  pub isp : String

pub record Certificate : Type 0 where
  pub raw : String
  pub common_name : String
  pub serial_number : String
  pub issuer_common_name : String
  pub dns_names : List String
  pub email_addresses : List String
  pub ip_addresses : List String
  pub organizational_unit : List String

-- `tls_state` is `none` without TLS and after a handshake that failed; else it has the peer's certificates.
pub record Connection : Type 0 where
  pub remote_addr : String
  pub tls_state : Option (List Certificate)

-- The leaf certificate, if `getTLSState` has one.
abbrev pub leaf : Option (List Certificate) → Option Certificate
leaf none = none
leaf (some []) = none
leaf (some (cert ∷ certs)) = some cert

abbrev pub host_of : Connection → String
host_of conn = elim (split_host conn.remote_addr) [ none ↦ conn.remote_addr | some host ↦ host ]

abbrev pub is_some {ℓ} : {A : Type ℓ} → Option A → Bool
is_some none = false
is_some (some _) = true

module _ {Regex : Type 0} (compile_posix : String → Option Regex)
    (match_text : Regex → String → Option Bool) (fingerprint : String → String) where
  -- A check that ends in the one `negate` of the condition.
  abbrev pub negated : Condition → Map (Option Regex) × Bool → Map (Option Regex) × Bool
  negated cond (cache, matched) = (cache, if cond.negate then not matched else matched)

  abbrev pub one_text : Map (Option Regex) → Condition → String → Map (Option Regex) × Bool
  one_text cache cond text =
      negated cond (match_string compile_posix match_text cache cond.op cond.value text)

  abbrev pub some_text : Map (Option Regex) → Condition → List String → Map (Option Regex) × Bool
  some_text cache cond texts =
      negated cond (match_any compile_posix match_text cache cond.op cond.value texts)

  -- The names of a certificate: DNS, then mail, then addresses, up to the first that matches.
  abbrev pub match_san : Map (Option Regex) → Condition → Certificate → Map (Option Regex) × Bool
  match_san cache cond cert =
      let (cache_dns, dns) =
        match_any compile_posix match_text cache cond.op cond.value cert.dns_names in
      let (cache_email, email) =
        match_any compile_posix match_text cache_dns cond.op cond.value cert.email_addresses in
      if dns
      then (cache_dns, true)
      else if email
      then (cache_email, true)
      else match_any compile_posix match_text cache_email cond.op cond.value cert.ip_addresses

  abbrev pub with_geo :
      Map (Option Regex)
      → Condition
      → Option GeoInfo
      → (GeoInfo → String)
      → Map (Option Regex) × Bool
  with_geo cache cond none read = (cache, false)
  with_geo cache cond (some geo) read = one_text cache cond (read geo)

  abbrev pub with_leaf :
      Map (Option Regex)
      → Option Certificate
      → (Certificate → Map (Option Regex) × Bool)
      → Map (Option Regex) × Bool
  with_leaf cache none f = (cache, false)
  with_leaf cache (some cert) f = f cert

  -- `matchCondition`
  unfoldable pub match_condition :
      Map (Option Regex)
      → ConditionType
      → Condition
      → Connection
      → Option GeoInfo
      → ℕ
      → Map (Option Regex) × Bool
  match_condition cache unspecified cond conn geo now = (cache, false)
  match_condition cache source_ip cond conn geo now = one_text cache cond (host_of conn)
  match_condition cache geo_country cond conn geo now = with_geo cache cond geo (λ g. g.country)
  match_condition cache geo_city cond conn geo now = with_geo cache cond geo (λ g. g.city)
  match_condition cache geo_isp cond conn geo now = with_geo cache cond geo (λ g. g.isp)
  match_condition cache time_range cond conn geo now =
      negated cond (cache, match_time_range cond.value now)
  match_condition cache tls_fingerprint cond conn geo now =
      with_leaf cache (leaf conn.tls_state) (λ cert. one_text cache cond (fingerprint cert.raw))
  match_condition cache tls_cn cond conn geo now =
      with_leaf cache (leaf conn.tls_state) (λ cert. one_text cache cond cert.common_name)
  match_condition cache tls_serial cond conn geo now =
      with_leaf cache (leaf conn.tls_state) (λ cert. one_text cache cond cert.serial_number)
  match_condition cache tls_present cond conn geo now =
      let has_cert = is_some (leaf conn.tls_state) in
      negated cond (cache, if str_eq cond.value "false" then not has_cert else has_cert)
  match_condition cache tls_ca cond conn geo now =
      with_leaf cache (leaf conn.tls_state) (λ cert. one_text cache cond cert.issuer_common_name)
  match_condition cache tls_san cond conn geo now =
      with_leaf cache (leaf conn.tls_state) (λ cert. negated cond (match_san cache cond cert))
  match_condition cache tls_ou cond conn geo now =
      with_leaf cache (leaf conn.tls_state) (λ cert. some_text cache cond cert.organizational_unit)

  unfoldable pub match_conditions :
      Map (Option Regex)
      → List Condition
      → Connection
      → Option GeoInfo
      → ℕ
      → Map (Option Regex) × Bool
  match_conditions cache [] conn geo now = (cache, true)
  match_conditions cache (cond ∷ conds) conn geo now =
      let (cache', matched) = match_condition cache cond.type cond conn geo now in
      let rest = match_conditions cache' conds conn geo now in
      if not matched then (cache', false) else rest

  -- `MatchRule`
  unfoldable pub match_rule :
      Map (Option Regex) → Rule → Connection → Option GeoInfo → ℕ → Map (Option Regex) × Bool
  match_rule cache rule conn geo now =
      if not rule.enabled
      then (cache, false)
      else match_conditions cache rule.conditions conn geo now
