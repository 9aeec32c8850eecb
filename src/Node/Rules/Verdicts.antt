-- ===== src/Node/Rules/Verdicts.antt =====
-- pkg/node/rules.go: what `MatchRule` answers, with no cache of patterns and no loops.
use nitella.Base.{
  ℕ, String, ◌≡◌, refl, sym, ap, ◌∙◌, inl, inr, Bool, false, not, ◌&&◌, ◌||◌, Option, none, some,
  List, [], ◌∷◌, ◌++◌, arith, if◌then◌else◌, any, all, str_eq, Bool-cases,
}
use nitella.Base.Map.{Map}
use nitella.Node.Rules.Regexes.{IsSound}
use nitella.Node.Rules.Texts.{match_any, satisfies, match_string-IsSound, match_any-IsSound}
use nitella.Node.Rules.Times.{match_time_range}
use nitella.Node.Rules.Matching.{
  ConditionType, unspecified, source_ip, geo_country, geo_city, geo_isp, time_range,
  tls_fingerprint, tls_cn, tls_serial, tls_present, tls_ca, tls_san, tls_ou, Condition, Rule,
  GeoInfo, Certificate, Connection, leaf, host_of, is_some, with_geo, with_leaf, negated, one_text,
  some_text, match_san, match_condition, match_conditions, match_rule,
}

module _ {Regex : Type 0} (compile_posix : String → Option Regex)
    (match_text : Regex → String → Option Bool) (fingerprint : String → String) where
  -- The texts of a connection that a condition is about, if there are any.
  abbrev geo_text : Option GeoInfo → (GeoInfo → String) → Option (List String)
  geo_text none read = none
  geo_text (some geo) read = some (read geo ∷ [])

  abbrev leaf_texts : Option Certificate → (Certificate → List String) → Option (List String)
  leaf_texts none read = none
  leaf_texts (some cert) read = some (read cert)

  unfoldable pub texts : ConditionType → Connection → Option GeoInfo → Option (List String)
  texts unspecified conn geo = none
  texts source_ip conn geo = some (host_of conn ∷ [])
  texts geo_country conn geo = geo_text geo (λ g. g.country)
  texts geo_city conn geo = geo_text geo (λ g. g.city)
  texts geo_isp conn geo = geo_text geo (λ g. g.isp)
  texts time_range conn geo = none
  texts tls_fingerprint conn geo =
      leaf_texts (leaf conn.tls_state) (λ cert. fingerprint cert.raw ∷ [])
  texts tls_cn conn geo = leaf_texts (leaf conn.tls_state) (λ cert. cert.common_name ∷ [])
  texts tls_serial conn geo = leaf_texts (leaf conn.tls_state) (λ cert. cert.serial_number ∷ [])
  texts tls_present conn geo = none
  texts tls_ca conn geo = leaf_texts (leaf conn.tls_state) (λ cert. cert.issuer_common_name ∷ [])
  texts tls_san conn geo =
      leaf_texts (leaf conn.tls_state)
        (λ cert. cert.dns_names ++ (cert.email_addresses ++ cert.ip_addresses))
  texts tls_ou conn geo = leaf_texts (leaf conn.tls_state) (λ cert. cert.organizational_unit)

  abbrev some_satisfies : Condition → Option (List String) → Option Bool
  some_satisfies cond none = none
  some_satisfies cond (some ts) =
      some (any (satisfies compile_posix match_text cond.op cond.value) ts)

  -- What a condition says of a connection, `none` if it has nothing to look at.
  unfoldable pub holds : ConditionType → Condition → Connection → Option GeoInfo → ℕ → Option Bool
  unfolding texts
  holds time_range cond conn geo now = some (match_time_range cond.value now)
  holds tls_present cond conn geo now = some (
      if str_eq cond.value "false"
      then not (is_some (leaf conn.tls_state))
      else is_some (leaf conn.tls_state))
  holds t cond conn geo now = some_satisfies cond (texts t conn geo)

  -- A condition with nothing to look at fails, negated or not.
  abbrev pub or_fails : Condition → Option Bool → Bool
  or_fails cond none = false
  or_fails cond (some b) = if cond.negate then not b else b

  abbrev pub verdict : Connection → Option GeoInfo → ℕ → Condition → Bool
  verdict conn geo now cond = or_fails cond (holds cond.type cond conn geo now)

  any-append :
      {A : Type 0} → (p : A → Bool) (xs ys : List A) → any p (xs ++ ys) ≡ (any p xs || any p ys)
  any-append p [] ys = refl
  any-append p (x ∷ xs) ys = ground (arith, any-append p xs ys)

  -- The answer of a check, and a cache that stays sound.
  abbrev Answers : Map (Option Regex) × Bool → Bool → Type 0
  Answers answer b = (answer.1 ≡ b) × IsSound compile_posix answer.0

  negated-Answers :
      (cond : Condition) (answer : Map (Option Regex) × Bool) (b : Bool)
      → Answers answer b
      → Answers (negated compile_posix match_text fingerprint cond answer) (or_fails cond (some b))
  negated-Answers cond answer b (same, sound) =
      (ap (λ x. if cond.negate then not x else x) same, sound)

  module _ (cache : Map (Option Regex)) (cond : Condition)
      (sound : IsSound compile_posix cache) where
    one_text-Answers :
        (text : String)
        → Answers
            (one_text compile_posix match_text fingerprint cache cond text)
            (or_fails cond (some_satisfies cond (some (text ∷ []))))
    one_text-Answers text =
        let (same, sound') =
          match_string-IsSound compile_posix match_text cache cond.op cond.value text sound in
        negated-Answers cond _ _ (same ∙ ground arith, sound')

    match_san-Answers :
        (cert : Certificate)
        → Answers (match_san compile_posix match_text fingerprint cache cond cert) (
            any
              (satisfies compile_posix match_text cond.op cond.value)
              (cert.dns_names ++ (cert.email_addresses ++ cert.ip_addresses)))
    match_san-Answers cert =
        let matching = satisfies compile_posix match_text cond.op cond.value in
        let first = match_any compile_posix match_text cache cond.op cond.value cert.dns_names in
        let second =
          match_any compile_posix match_text first.0 cond.op cond.value cert.email_addresses in
        let (dns, s) =
          match_any-IsSound compile_posix match_text cache cond.op cond.value cert.dns_names
            sound in
        let (email, s') =
          match_any-IsSound compile_posix match_text first.0 cond.op cond.value cert.email_addresses
            s in
        let (ip, s'') =
          match_any-IsSound compile_posix match_text second.0 cond.op cond.value cert.ip_addresses
            s' in
        rw
          (
            any-append matching cert.dns_names (cert.email_addresses ++ cert.ip_addresses),
            any-append matching cert.email_addresses cert.ip_addresses,
          )
          (elim (Bool-cases first.1) [
            | inl e ↦ rw (e, sym dns ∙ e) (refl, s)
            | inr e ↦ elim (Bool-cases second.1) [
              | inl e' ↦ rw (e, e', sym dns ∙ e, sym email ∙ e') (refl, s')
              | inr e' ↦ rw (e, e', sym dns ∙ e, sym email ∙ e') (ip, s'')
            ]
          ])

    geo-Answers :
        (geo : Option GeoInfo) (read : GeoInfo → String)
        → Answers
            (with_geo compile_posix match_text fingerprint cache cond geo read)
            (or_fails cond (some_satisfies cond (geo_text geo read)))
    geo-Answers none read = (refl, sound)
    geo-Answers (some g) read = one_text-Answers (read g)

    leaf-Answers :
        (m : Option Certificate) (read : Certificate → String)
        → Answers
            (with_leaf compile_posix match_text fingerprint cache m
              (λ cert. one_text compile_posix match_text fingerprint cache cond (read cert)))
            (or_fails cond (some_satisfies cond (leaf_texts m (λ cert. read cert ∷ []))))
    leaf-Answers none read = (refl, sound)
    leaf-Answers (some cert) read = one_text-Answers (read cert)

    san-Answers :
        (m : Option Certificate)
        → Answers
            (with_leaf compile_posix match_text fingerprint cache m (λ cert.
              negated compile_posix match_text fingerprint cond
                (match_san compile_posix match_text fingerprint cache cond cert)))
            (or_fails cond (
              some_satisfies cond (
                leaf_texts m
                  (λ cert. cert.dns_names ++ (cert.email_addresses ++ cert.ip_addresses)))))
    san-Answers none = (refl, sound)
    san-Answers (some cert) = negated-Answers cond _ _ (match_san-Answers cert)

    unit-Answers :
        (m : Option Certificate)
        → Answers
            (with_leaf compile_posix match_text fingerprint cache m (λ cert.
              some_text compile_posix match_text fingerprint cache cond cert.organizational_unit))
            (or_fails cond (some_satisfies cond (leaf_texts m (λ cert. cert.organizational_unit))))
    unit-Answers none = (refl, sound)
    unit-Answers (some cert) = negated-Answers cond _ _ (
        match_any-IsSound compile_posix match_text cache cond.op cond.value cert.organizational_unit
          sound)

    -- A condition is what it says of the connection, for every type of condition.
    match_condition-Answers :
        (t : ConditionType) (conn : Connection) (geo : Option GeoInfo) (now : ℕ)
        → Answers
            (match_condition compile_posix match_text fingerprint cache t cond conn geo now)
            (or_fails cond (holds t cond conn geo now))
    unfolding match_condition holds texts
    match_condition-Answers unspecified conn geo now = (refl, sound)
    match_condition-Answers source_ip conn geo now = one_text-Answers (host_of conn)
    match_condition-Answers geo_country conn geo now = geo-Answers geo (λ g. g.country)
    match_condition-Answers geo_city conn geo now = geo-Answers geo (λ g. g.city)
    match_condition-Answers geo_isp conn geo now = geo-Answers geo (λ g. g.isp)
    match_condition-Answers time_range conn geo now = (refl, sound)
    match_condition-Answers tls_fingerprint conn geo now =
        leaf-Answers (leaf conn.tls_state) (λ cert. fingerprint cert.raw)
    match_condition-Answers tls_cn conn geo now =
        leaf-Answers (leaf conn.tls_state) (λ cert. cert.common_name)
    match_condition-Answers tls_serial conn geo now =
        leaf-Answers (leaf conn.tls_state) (λ cert. cert.serial_number)
    match_condition-Answers tls_present conn geo now = (refl, sound)
    match_condition-Answers tls_ca conn geo now =
        leaf-Answers (leaf conn.tls_state) (λ cert. cert.issuer_common_name)
    match_condition-Answers tls_san conn geo now = san-Answers (leaf conn.tls_state)
    match_condition-Answers tls_ou conn geo now = unit-Answers (leaf conn.tls_state)

  match_conditions-Answers :
      (cache : Map (Option Regex)) (conds : List Condition) (conn : Connection)
      (geo : Option GeoInfo) (now : ℕ)
      → IsSound compile_posix cache
      → Answers
          (match_conditions compile_posix match_text fingerprint cache conds conn geo now)
          (all (verdict conn geo now) conds)
  unfolding match_conditions
  match_conditions-Answers cache [] conn geo now sound = (refl, sound)
  match_conditions-Answers cache (cond ∷ conds) conn geo now sound =
      let step =
        match_condition compile_posix match_text fingerprint cache cond.type cond conn geo now in
      let (same, s) = match_condition-Answers cache cond sound cond.type conn geo now in
      let rest = match_conditions-Answers step.0 conds conn geo now s in
      elim (Bool-cases step.1) [
        | inl e ↦ rw (e, sym same ∙ e) rest
        | inr e ↦ rw (e, sym same ∙ e) (refl, s)
      ]

  -- An enabled rule matches exactly the connections of which all its conditions hold, and a rule that is
  -- not enabled none: the cache of patterns never shows in the answer, whatever rules were looked at
  -- before, and it stays within its bound, when what it held was compiled from its keys.
  pub match_rule-verdict :
      (cache : Map (Option Regex)) (rule : Rule) (conn : Connection) (geo : Option GeoInfo)
      (now : ℕ)
      → IsSound compile_posix cache
      → let (cache', matched) =
          match_rule compile_posix match_text fingerprint cache rule conn geo now in
        (matched ≡ (rule.enabled && all (verdict conn geo now) rule.conditions))
        × IsSound compile_posix cache'
  unfolding match_rule
  match_rule-verdict cache rule conn geo now sound = elim (Bool-cases rule.enabled) [
    | inl e ↦ rw e (match_conditions-Answers cache rule.conditions conn geo now sound)
    | inr e ↦ rw e (refl, sound)
  ]
