-- ===== src/Node/Health/Probes.antt =====
-- pkg/node/health/checker.go: what a probe asks and what it makes of the answer. A dial and a request are
-- parameters: whether the connection is made, and the status code, if there is an answer.
use nitella.Base.{
  has_prefix, ℕ, ◌≡◌, refl, ap, Bool, true, false, not, ◌&&◌, ◌||◌, Option, none, some, List, [],
  ◌∷◌, ◌++◌, arith, leb, ◌==◌, if◌then◌else◌, str_eq, codes,
}
use nitella.Base.Int.{ℤ, pos, negsuc, ltb_ℤ}
use nitella.Node.Health.{HealthCheck}

-- `strings.HasSuffix(s, "/")`
unfoldable pub ends_in_slash : List ℕ → Bool
ends_in_slash [] = false
ends_in_slash (c ∷ []) = c == b'/'
ends_in_slash (c ∷ d ∷ s) = ends_in_slash (d ∷ s)

-- `strings.TrimSuffix(s, "/")`
unfoldable pub trim_slash : List ℕ → List ℕ
trim_slash [] = []
trim_slash (c ∷ []) = if c == b'/' then [] else c ∷ []
trim_slash (c ∷ d ∷ s) = c ∷ trim_slash (d ∷ s)

abbrev pub starts_with_slash : List ℕ → Bool
starts_with_slash path = has_prefix (codes "/") path

abbrev pub has_scheme : List ℕ → Bool
has_scheme address = has_prefix (codes "http://") address || has_prefix (codes "https://") address

-- The url of `checkHTTP`.
unfoldable pub probe_url : List ℕ → List ℕ → List ℕ
probe_url address path =
    if not (has_prefix (codes "http://") address) && not (has_prefix (codes "https://") address)
    then codes "http://" ++ (address ++ path)
    else if ends_in_slash address && starts_with_slash path
    then trim_slash address ++ path
    else if not (ends_in_slash address) && not (starts_with_slash path)
    then address ++ (b'/' ∷ path)
    else address ++ path

-- `resp.StatusCode == expectedStatus` and `expectedStatus == 0`
abbrev pub is_expected : ℕ → ℤ → Bool
is_expected status (pos n) = status == n
is_expected status (negsuc n) = false

abbrev pub is_zero : ℤ → Bool
is_zero (pos n) = n == 0
is_zero (negsuc n) = false

-- The verdict of `checkHTTP` on an answer.
unfoldable pub check_http : Option ℕ → ℤ → Bool
check_http none expected = false
check_http (some status) expected =
    if ltb_ℤ (pos 0) expected && not (is_expected status expected)
    then false
    else not (is_zero expected && leb 400 status)

-- `check`: which probe a service gets.
unfoldable pub probe : (List ℕ → Bool) → (List ℕ → Option ℕ) → List ℕ → HealthCheck → Bool
probe dial fetch address cfg =
    if str_eq cfg.check_type "http" || str_eq cfg.check_type "https"
    then check_http (fetch (probe_url address cfg.path)) cfg.expected_status
    else dial address

abbrev drop_slash : List ℕ → List ℕ
drop_slash [] = []
drop_slash (c ∷ path) = if c == b'/' then path else c ∷ path

trim_slash-append : (s t : List ℕ) → ends_in_slash s ≡ true → trim_slash s ++ (b'/' ∷ t) ≡ s ++ t
unfolding trim_slash ends_in_slash
trim_slash-append [] t e = cc
trim_slash-append (c ∷ []) t e = ground arith
trim_slash-append (c ∷ d ∷ s) t e = ap (◌∷◌ c) (trim_slash-append (d ∷ s) t e)

untrimmed : (s : List ℕ) → ends_in_slash s ≡ false → trim_slash s ≡ s
unfolding trim_slash ends_in_slash
untrimmed [] e = refl
untrimmed (c ∷ []) e = ground arith
untrimmed (c ∷ d ∷ s) e = ap (◌∷◌ c) (untrimmed (d ∷ s) e)

slash_dropped : (path : List ℕ) → starts_with_slash path ≡ true → b'/' ∷ drop_slash path ≡ path
unfolding has_prefix
slash_dropped [] e = cc
slash_dropped (c ∷ path) e = ground arith

no_slash : (path : List ℕ) → starts_with_slash path ≡ false → drop_slash path ≡ path
unfolding has_prefix
no_slash [] e = refl
no_slash (c ∷ path) e = ground arith

schemed : (a b : Bool) → (a || b) ≡ true → (not a && not b) ≡ false
schemed a b h = ground arith

-- The url of a probe of an address with a scheme joins address and path by exactly one slash, where either,
-- both or none of the two brings one.
pub probe_url-joined :
    (address path : List ℕ)
    → has_scheme address ≡ true
    → probe_url address path ≡ trim_slash address ++ (b'/' ∷ drop_slash path)
unfolding probe_url
probe_url-joined address path scheme = ground (
  arith,
  schemed (has_prefix (codes "http://") address) (has_prefix (codes "https://") address) scheme,
  trim_slash-append address path,
  untrimmed address,
  slash_dropped path,
  no_slash path,
  trim_slash-append address (drop_slash path),
)
