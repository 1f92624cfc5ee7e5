-- ===== src/Platform/Config/Loaded.antt =====
-- internal/platform/config.go: what is true of a configuration that `LoadConfig` returns.
use oms_go.Prelude.{
  ◌≡◌, ◌≢◌, ◌⊎◌, ◌∙◌, sym, ap, subst, Bool-cases, inl, inr, Option, String, str_eq, eq_iff, arith,
}
use oms_go.Prelude.Int.{ℤ, pos, ◌≤ℤ◌}
use oms_go.Prelude.Exec.{ok-injective, ok, and_then-eq-ok}
use oms_go.Auth.{Mode, mode_locked, mode_dev, mode_jwt}
use oms_go.Auth.Jwt
use oms_go.Http.{Url}
use oms_go.Platform.Config.{
  Config, parse_positive_duration_env, load_auth_config, auth_mode_env, load_config,
  worker_batch_size_env,
}
use oms_go.Platform.Variables.{database_url_required}
use oms_go.Platform.Config.Usable.{
  IsUsable, refuse_if-ok, different, duration-positive, load_jwt_config-IsUsable,
}

module _ (parse_url : String → Option Url) where
  pub record IsLoaded (cfg : Config) : Type 0 where
    pub timeouts :
        (pos 1 ≤ℤ cfg.read_timeout) × (pos 1 ≤ℤ cfg.write_timeout) × (pos 1 ≤ℤ cfg.idle_timeout)
    pub database : cfg.database_url ≢ ""
    pub mode :
        (cfg.auth_mode ≡ mode_locked) ⊎ ((cfg.auth_mode ≡ mode_dev) ⊎ (cfg.auth_mode ≡ mode_jwt))
    pub same_mode : cfg.auth_config.mode ≡ cfg.auth_mode
    pub for_jwt : cfg.auth_mode ≡ mode_jwt → IsUsable parse_url cfg.auth_config

module _ (getenv : String → String) (parse_duration : String → Option ℤ)
    (parse_url : String → Option Url) where
  auth_mode_env-known :
      (mode : Mode)
      → auth_mode_env getenv ≡ ok mode
      → (mode ≡ mode_locked) ⊎ ((mode ≡ mode_dev) ⊎ (mode ≡ mode_jwt))
  unfolding auth_mode_env
  auth_mode_env-known mode h = elim (Bool-cases (str_eq (getenv "OMS_AUTH_MODE") mode_locked)) [
    | inl e ↦ inl (cc (rw e at h))
    | inr e ↦ elim (Bool-cases (str_eq (getenv "OMS_AUTH_MODE") mode_dev)) [
      | inl f ↦ inr (inl (cc (rw (e, f) at h)))
      | inr f ↦ elim (Bool-cases (str_eq (getenv "OMS_AUTH_MODE") mode_jwt)) [
        | inl g ↦ inr (inr (cc (rw (e, f, g) at h)))
        | inr g ↦ absurd (cc (rw (e, f, g) at h))
      ]
    ]
  ]

  load_auth_config-IsUsable :
      (mode : Mode) (cfg : Jwt.Config)
      → load_auth_config getenv parse_duration parse_url mode ≡ ok cfg
      → (cfg.mode ≡ mode) × (mode ≡ mode_jwt → IsUsable parse_url cfg)
  unfolding load_auth_config
  load_auth_config-IsUsable mode cfg h = elim (Bool-cases (str_eq mode mode_jwt)) [
    | inl jwt ↦
        let loaded = rw jwt at h in
        (
          (load_jwt_config-IsUsable getenv parse_duration parse_url cfg loaded).for_mode
              ∙ sym ((eq_iff mode mode_jwt).0 jwt),
          λ _. load_jwt_config-IsUsable getenv parse_duration parse_url cfg loaded,
        )
    | inr other ↦ (
      sym (ap (λ (c : Jwt.Config). c.mode) (ok-injective (rw other at h))),
      λ jwt. absurd (cc ((eq_iff mode mode_jwt).1 jwt, other)),
    )
  ]

  -- A configuration that `LoadConfig` returns has positive timeouts for reading, writing and idling, a
  -- database URL, and one of the three modes, which the configuration of the middleware has too. In the mode
  -- "jwt" the latter has a positive timeout, no blank among its seven required values, exactly one URL of
  -- the two, HTTPS URLs wherever a URL is given, the issuer included, three different role values, and
  -- algorithms that are distinct and neither empty nor "none" nor symmetric.
  pub load_config-IsLoaded :
      (cfg : Config) → load_config getenv parse_duration parse_url ≡ ok cfg → IsLoaded parse_url cfg
  unfolding load_config
  load_config-IsLoaded cfg h =
      let (read, e₀, h₀) =
        and_then-eq-ok
          (parse_positive_duration_env getenv parse_duration "HTTP_READ_TIMEOUT" (pos 5000000000)) _
          h in
      let (write, e₁, h₁) =
        and_then-eq-ok
          (parse_positive_duration_env getenv parse_duration "HTTP_WRITE_TIMEOUT" (pos 10000000000))
          _ h₀ in
      let (idle, e₂, h₂) =
        and_then-eq-ok
          (parse_positive_duration_env getenv parse_duration "HTTP_IDLE_TIMEOUT" (pos 60000000000))
          _ h₁ in
      let (url, h₃) = refuse_if-ok (str_eq (getenv "DATABASE_URL") "") database_url_required _ h₂ in
      let (batch_size, e₄, h₄) = and_then-eq-ok (worker_batch_size_env getenv) _ h₃ in
      let (mode, e₅, h₅) = and_then-eq-ok (auth_mode_env getenv) _ h₄ in
      let (auth_config, e₆, h₆) =
        and_then-eq-ok (load_auth_config getenv parse_duration parse_url mode) _ h₅ in
      let (same, usable) = load_auth_config-IsUsable mode auth_config e₆ in
      subst (IsLoaded parse_url) (ok-injective h₆) (record {
        timeouts = (
          duration-positive getenv parse_duration parse_url "HTTP_READ_TIMEOUT" (pos 5000000000)
              read (omega arith) e₀,
          duration-positive getenv parse_duration parse_url "HTTP_WRITE_TIMEOUT" (pos 10000000000)
              write (omega arith) e₁,
          duration-positive getenv parse_duration parse_url "HTTP_IDLE_TIMEOUT" (pos 60000000000)
              idle (omega arith) e₂,
        );
        database = different (getenv "DATABASE_URL") "" url;
        mode = auth_mode_env-known mode e₅;
        same_mode = same;
        for_jwt = usable;
      })
