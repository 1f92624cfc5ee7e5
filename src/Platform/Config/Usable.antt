-- ===== src/Platform/Config/Usable.antt =====
-- internal/platform/config.go: what `loadAuthConfig` accepts for JWT.
use oms_go.Prelude.{
  ◌≡◌, ◌≢◌, ◌⊎◌, refl, subst, Bool, Bool-cases, inl, inr, true, false, ◌&&◌, not, Option, none,
  some, String, List, [], ◌∷◌, str_eq, eq_iff, any, All, arith, if◌then◌else◌,
}
use oms_go.Prelude.Int.{ℤ, pos, ltb_ℤ, ◌≤ℤ◌}
use oms_go.Prelude.Exec.{Result, ok, and_then-eq-ok}
use oms_go.Prelude.Text.{trim_space}
use oms_go.Prelude.Text.Blank.{IsBlank, trim_space-empty_iff}
use oms_go.Auth.{mode_jwt}
use oms_go.Auth.Jwt
use oms_go.Http.{Url}
use oms_go.Platform.Config.{
  parse_positive_duration_env, https_url, is_https_url, https_or_empty, read_auth_config, required,
  both_or_neither, same_roles, check_auth_config, load_jwt_config,
}
use oms_go.Platform.Variables.Algorithms.{AreSupported, parse_allowed_algorithms-Accepted}
use oms_go.Platform.Variables.{
  name_required, one_url_required, not_https, roles_not_distinct, refuse_if, positive_duration,
  parse_allowed_algorithms,
}

-- A URL with the scheme "https" and a host.
pub data IsHttps : Option Url → Type 0 where
  secure : (url : Url) → url.scheme ≡ "https" → url.host ≢ "" → IsHttps (some url)

https_url-IsHttps : (o : Option Url) → https_url o ≡ true → IsHttps o
unfolding https_url
https_url-IsHttps none h = absurd (cc)
https_url-IsHttps (some url) h =
    secure url ((eq_iff url.scheme "https").0 (ground arith))
      (λ e. ground (arith, (eq_iff url.host "").1 e, h))

pub IsHttps-https_url : (o : Option Url) → IsHttps o → https_url o ≡ true
unfolding https_url
IsHttps-https_url _ (secure url s h) = elim (Bool-cases (str_eq url.host "")) [
  | inl e ↦ absurd (h ((eq_iff url.host "").0 e))
  | inr f ↦ rw (f, (eq_iff url.scheme "https").1 s)
]

module _ (parse_url : String → Option Url) where
  pub record IsChecked (cfg : Jwt.Config) : Type 0 where
    pub issuer : ¬ IsBlank cfg.issuer
    pub audience : ¬ IsBlank cfg.audience
    pub customer_id_claim : ¬ IsBlank cfg.customer_id_claim
    pub role_claim : ¬ IsBlank cfg.role_claim
    pub role_customer_value : ¬ IsBlank cfg.role_customer_value
    pub role_admin_value : ¬ IsBlank cfg.role_admin_value
    pub role_system_value : ¬ IsBlank cfg.role_system_value
    pub one_url :
        ((cfg.jwks_url ≡ "") × (cfg.oidc_discovery_url ≢ ""))
        ⊎ ((cfg.jwks_url ≢ "") × (cfg.oidc_discovery_url ≡ ""))
    pub https :
        All
          (λ value. value ≢ "" → IsHttps (parse_url value))
          (cfg.issuer ∷ cfg.jwks_url ∷ cfg.oidc_discovery_url ∷ [])
    pub roles :
        (cfg.role_customer_value ≢ cfg.role_admin_value)
        × (cfg.role_customer_value ≢ cfg.role_system_value)
        × (cfg.role_admin_value ≢ cfg.role_system_value)

  -- What a configuration for JWT must be.
  pub record IsUsable (cfg : Jwt.Config) : Type 0 where
    pub for_mode : cfg.mode ≡ mode_jwt
    pub timeout : pos 1 ≤ℤ cfg.http_timeout
    pub checks : IsChecked cfg
    pub algorithms : AreSupported cfg.allowed_algorithms

pub refuse_if-ok :
    {E A : Type 0} (test : Bool) (e : E) (rest : Result E A) {a : A}
    → refuse_if test e rest ≡ ok a
    → (test ≡ false) × (rest ≡ ok a)
refuse_if-ok true e rest h = absurd (cc)
refuse_if-ok false e rest h = (refl, h)

not-IsBlank :
    (values : List String)
    → any (λ value. str_eq (trim_space value) "") values ≡ false
    → All (λ value. ¬ IsBlank value) values
not-IsBlank [] h = tt
not-IsBlank (v ∷ values) h = (
  λ blank. cc ((eq_iff (trim_space v) "").1 ((trim_space-empty_iff v).1 blank), h),
  not-IsBlank values (ground arith),
)

one_of_two :
    (a b : String)
    → (if str_eq a "" then str_eq b "" else not (str_eq b "")) ≡ false
    → ((a ≡ "") × (b ≢ "")) ⊎ ((a ≢ "") × (b ≡ ""))
one_of_two a b h = elim (Bool-cases (str_eq a "")) [
  | inl e ↦ inl ((eq_iff a "").0 e, λ k. cc ((eq_iff b "").1 k, rw e at h))
  | inr f ↦ elim (Bool-cases (str_eq b "")) [
    | inl e ↦ inr ((λ k. cc ((eq_iff a "").1 k, f)), (eq_iff b "").0 e)
    | inr g ↦ absurd (cc (rw (f, g) at h))
  ]
]

pub different : (a b : String) → str_eq a b ≡ false → a ≢ b
different a b f e = cc ((eq_iff a b).1 e, f)

positive_duration-positive :
    (name : String) (o : Option ℤ) (t : ℤ) → positive_duration name o ≡ ok t → pos 1 ≤ℤ t
unfolding positive_duration
positive_duration-positive name none t h = absurd (cc)
positive_duration-positive name (some v) t h = elim (Bool-cases (ltb_ℤ (pos 0) v)) [
  | inl good ↦ let same : v ≡ t = cc (rw good at h) in subst (λ t. pos 1 ≤ℤ t) same (ground arith)
  | inr bad ↦ absurd (cc (rw bad at h))
]

module _ (parse_url : String → Option Url) where
  https_or_empty-https :
      (value : String)
      → https_or_empty parse_url value ≡ true
      → value ≢ ""
      → IsHttps (parse_url value)
  unfolding https_or_empty is_https_url
  https_or_empty-https value h full = elim (Bool-cases (str_eq value "")) [
    | inl empty ↦ absurd (full ((eq_iff value "").0 empty))
    | inr f ↦ https_url-IsHttps (parse_url value) (rw f at h)
  ]

  check_auth_config-IsChecked :
      (c cfg : Jwt.Config) → check_auth_config parse_url c ≡ ok cfg → IsChecked parse_url c
  unfolding check_auth_config both_or_neither same_roles required
  check_auth_config-IsChecked c cfg e =
      let https_urls =
        https_or_empty parse_url c.issuer
        && https_or_empty parse_url c.jwks_url
        && https_or_empty parse_url c.oidc_discovery_url in
      let (named, k₀) =
        refuse_if-ok (any (λ value. str_eq (trim_space value) "") (required c)) name_required
          (refuse_if (both_or_neither c) one_url_required (
            refuse_if (not https_urls) not_https
              (refuse_if (same_roles c) roles_not_distinct (ok c))))
          e in
      let (one, k₁) =
        refuse_if-ok (both_or_neither c) one_url_required
          (refuse_if (not https_urls) not_https
            (refuse_if (same_roles c) roles_not_distinct (ok c)))
          k₀ in
      let (https, k₂) =
        refuse_if-ok (not https_urls) not_https (refuse_if (same_roles c) roles_not_distinct (ok c))
          k₁ in
      let (roles, k₃) = refuse_if-ok (same_roles c) roles_not_distinct (ok c) k₂ in
      let full = not-IsBlank (required c) named in
      record {
        issuer = full.0;
        audience = full.1.0;
        customer_id_claim = full.1.1.0;
        role_claim = full.1.1.1.0;
        role_customer_value = full.1.1.1.1.0;
        role_admin_value = full.1.1.1.1.1.0;
        role_system_value = full.1.1.1.1.1.1.0;
        one_url = one_of_two c.jwks_url c.oidc_discovery_url one;
        https = (
          https_or_empty-https c.issuer (ground arith),
          (
            https_or_empty-https c.jwks_url (ground arith),
            (https_or_empty-https c.oidc_discovery_url (ground arith), tt),
          ),
        );
        roles = (
          different c.role_customer_value c.role_admin_value (ground arith),
          different c.role_customer_value c.role_system_value (ground arith),
          different c.role_admin_value c.role_system_value (ground arith),
        );
      }

module _ (getenv : String → String) (parse_duration : String → Option ℤ)
    (parse_url : String → Option Url) where
  pub duration-positive :
      (name : String) (fallback t : ℤ)
      → pos 1 ≤ℤ fallback
      → parse_positive_duration_env getenv parse_duration name fallback ≡ ok t
      → pos 1 ≤ℤ t
  unfolding parse_positive_duration_env
  duration-positive name fallback t good h = elim (Bool-cases (str_eq (getenv name) "")) [
    | inl unset ↦ let same : fallback ≡ t = cc (rw unset at h) in subst (λ t. pos 1 ≤ℤ t) same good
    | inr set ↦ positive_duration-positive name (parse_duration (getenv name)) t (rw set at h)
  ]

  pub load_jwt_config-IsUsable :
      (cfg : Jwt.Config)
      → load_jwt_config getenv parse_duration parse_url ≡ ok cfg
      → IsUsable parse_url cfg
  unfolding load_jwt_config read_auth_config required
  load_jwt_config-IsUsable cfg h =
      let (timeout, e₀, h₀) =
        and_then-eq-ok
          (parse_positive_duration_env getenv parse_duration "OMS_JWT_HTTP_TIMEOUT"
            (pos 5000000000))
          _ h in
      let (checked, e₁, h₁) =
        and_then-eq-ok (check_auth_config parse_url (read_auth_config getenv timeout [])) _ h₀ in
      let (algorithms, e₂, h₂) =
        and_then-eq-ok (parse_allowed_algorithms (getenv "OMS_JWT_ALLOWED_ALGS")) _ h₁ in
      let same : read_auth_config getenv timeout algorithms ≡ cfg = cc in
      subst (IsUsable parse_url) same (record {
        for_mode = refl;
        timeout =
            duration-positive "OMS_JWT_HTTP_TIMEOUT" (pos 5000000000) timeout (omega arith) e₀;
        checks =
            same_checks timeout algorithms (
              check_auth_config-IsChecked parse_url (read_auth_config getenv timeout []) checked
                e₁);
        algorithms =
            (parse_allowed_algorithms-Accepted (getenv "OMS_JWT_ALLOWED_ALGS") algorithms e₂).0;
      })
    where
      same_checks :
          (t : ℤ) (algorithms : List String)
          → IsChecked parse_url (read_auth_config getenv t [])
          → IsChecked parse_url (read_auth_config getenv t algorithms)
      same_checks t algorithms c = record {
        issuer = c.issuer;
        audience = c.audience;
        customer_id_claim = c.customer_id_claim;
        role_claim = c.role_claim;
        role_customer_value = c.role_customer_value;
        role_admin_value = c.role_admin_value;
        role_system_value = c.role_system_value;
        one_url = c.one_url;
        https = c.https;
        roles = c.roles;
      }
