-- ===== src/Process/Start/Fits.antt =====
-- cmd/api/main.go: the configuration that `LoadConfig` returns, and the start that takes it.
use oms_go.Prelude.{
  ◌≡◌, ◌⊎◌, refl, sym, ◌∙◌, subst, true, Bool-cases, inl, inr, not, Option, none, some, String,
  str_eq, eq_iff, arith,
}
use oms_go.Prelude.Int.{ℤ, pos, negsuc, ltb_ℤ, ◌≤ℤ◌}
use oms_go.Prelude.Exec.{ok, err, ◌>>=◌}
use oms_go.Auth.{mode_locked, mode_dev, mode_jwt}
use oms_go.Auth.Jwt
use oms_go.Auth.Startup.{
  Client, StartError, keys_url, url_is_https, is_https, new_jwt_identity_middleware,
  new_identity_middleware,
}
use oms_go.Http.{Url}
use oms_go.Platform.Config.{Config, load_config, https_url, is_https_url}
use oms_go.Platform.Config.Usable.{IsHttps-https_url, IsUsable, different}
use oms_go.Platform.Config.Loaded.{load_config-IsLoaded}
use oms_go.Process.Start.{
  Database, Refusal, load_config_failed, auth_failed, pool_failed, connect_failed, connect,
  close_and_refuse, with_pool, with_config, prepare,
}
use oms_go.Process.Start.Faults.{
  Errs, Faults, IsRemote, Faults-err, Faults-ok, Faults-bind, Faults-if, Faults-handle, any_error,
  fetch-Faults, with_keys-Faults, discovered-Faults,
}

positive : (n : ℤ) → pos 1 ≤ℤ n → ltb_ℤ (pos 0) n ≡ true
positive (pos n) h = ground arith
positive (negsuc n) h = ground arith

same_test : (o : Option Url) → https_url o ≡ url_is_https o
unfolding https_url
same_test none = refl
same_test (some url) = refl

module _ {S R E Token : Type 0} (client : Client S R E Token) (cfg : Jwt.Config) where
  -- Without a discovery URL, the URL of the keys is HTTPS.
  keys_are_https :
      IsUsable client.parse_url cfg
      → cfg.oidc_discovery_url ≡ ""
      → is_https client cfg.jwks_url ≡ true
  unfolding is_https is_https_url
  keys_are_https usable empty = elim usable.checks.one_url [
    | inl (_, given) ↦ absurd (given empty)
    | inr (given, _) ↦
        sym (same_test (client.parse_url cfg.jwks_url))
        ∙ IsHttps-https_url (client.parse_url cfg.jwks_url) (usable.checks.https.1.0 given)
  ]

  jwt-Faults :
      {P : Type 0}
      → IsUsable client.parse_url cfg
      → Faults (IsRemote cfg) (new_jwt_identity_middleware client {P = P} cfg)
  unfolding new_jwt_identity_middleware keys_url ◌>>=◌
  jwt-Faults usable =
      Faults-if (IsRemote cfg) (not (ltb_ℤ (pos 0) cfg.http_timeout)) _ _
        (λ bad. absurd (ground (arith, positive cfg.http_timeout usable.timeout)))
        (λ _. elim (Bool-cases (str_eq cfg.oidc_discovery_url "")) [
          | inl empty ↦ rw empty (
              with_keys-Faults client cfg cfg.jwks_url
                (λ bad e. absurd (cc (bad, keys_are_https usable ((eq_iff _ _).0 empty)))))
          | inr full ↦ rw full (
              Faults-bind (IsRemote cfg) _ _
                (Faults-bind (IsRemote cfg) _ _
                  (fetch-Faults client cfg client.decode_discovery cfg.http_timeout
                    cfg.oidc_discovery_url)
                  (discovered-Faults client cfg))
                (λ url. with_keys-Faults client cfg url (λ _. different _ _ full)))
        ])

  identity_middleware-Faults :
      {P : Type 0}
      → (cfg.mode ≡ mode_locked) ⊎ ((cfg.mode ≡ mode_dev) ⊎ (cfg.mode ≡ mode_jwt))
      → (cfg.mode ≡ mode_jwt → IsUsable client.parse_url cfg)
      → Faults (IsRemote cfg) (new_identity_middleware client {P = P} cfg)
  unfolding new_identity_middleware
  identity_middleware-Faults known usable =
      Faults-if (IsRemote cfg) (str_eq cfg.mode mode_locked) _ _ (λ _. Faults-ok (IsRemote cfg) _)
        (λ unlocked.
          Faults-if (IsRemote cfg) (str_eq cfg.mode mode_dev) _ _ (λ _. Faults-ok (IsRemote cfg) _)
            (λ other.
              Faults-if (IsRemote cfg) (str_eq cfg.mode mode_jwt) _ _
                (λ jwt. jwt-Faults (usable ((eq_iff _ _).0 jwt)))
                (λ unknown. absurd (elim known [
                  | inl e ↦ different _ _ unlocked e
                  | inr (inl e) ↦ different _ _ other e
                  | inr (inr e) ↦ different _ _ unknown e
                ]))))

-- Of the early returns, the one for the middleware has a remote error.
abbrev pub IsRemoteRefusal : {E : Type 0} → Jwt.Config → Refusal E → Type 0
IsRemoteRefusal cfg (load_config_failed e) = Unit
IsRemoteRefusal cfg (auth_failed e) = IsRemote cfg e
IsRemoteRefusal cfg (pool_failed e) = Unit
IsRemoteRefusal cfg (connect_failed e) = Unit

module _ {S E Pool R Token : Type 0} (client : Client S R E Token)
    (database : Database S E Pool) where
  with_config-Faults :
      {P : Type 0} (cfg : Config)
      → Faults (IsRemote cfg.auth_config) (new_identity_middleware client {P = P} cfg.auth_config)
      → Faults (IsRemoteRefusal cfg.auth_config) (with_config {P = P} client database cfg)
  unfolding with_config with_pool connect close_and_refuse
  with_config-Faults cfg first =
      Faults-bind (IsRemoteRefusal cfg.auth_config) _ _
        (Faults-handle (IsRemoteRefusal cfg.auth_config) (IsRemote cfg.auth_config) _ _ first
          (λ e remote. Faults-err (IsRemoteRefusal cfg.auth_config) (auth_failed e) remote))
        (λ m.
          Faults-bind (IsRemoteRefusal cfg.auth_config) _ _
            (Faults-handle (IsRemoteRefusal cfg.auth_config) (λ _. Unit {0}) _ _ (any_error _)
              (λ e _. Faults-err (IsRemoteRefusal cfg.auth_config) (pool_failed e) tt))
            (λ pool.
              Faults-bind (IsRemoteRefusal cfg.auth_config) _ _
                (Faults-handle (IsRemoteRefusal cfg.auth_config) (λ _. Unit {0}) _ _ (any_error _)
                  (λ e _. record { at = λ s. tt }))
                (λ _. Faults-ok (IsRemoteRefusal cfg.auth_config) _)))

  -- Whatever the environment says: with a configuration that `LoadConfig` has let through, `main` is not
  -- refused by `NewIdentityMiddleware` for the mode, for the timeout, or, unless there is a discovery URL,
  -- for keys whose URL is not HTTPS.
  pub prepare-IsRemote :
      {P : Type 0} (getenv : String → String) (parse_duration : String → Option ℤ) (cfg : Config)
      → load_config getenv parse_duration client.parse_url ≡ ok cfg
      → (s : S) {e : StartError E} {t : S}
      → prepare {P = P} client database (ok cfg) s ≡ (err (auth_failed e), t)
      → IsRemote cfg.auth_config e
  unfolding prepare
  prepare-IsRemote {P} getenv parse_duration cfg loaded s {e} {t} h =
      let checked = load_config-IsLoaded getenv parse_duration client.parse_url cfg loaded in
      subst (Errs (IsRemoteRefusal cfg.auth_config)) h (
        (with_config-Faults cfg (
            identity_middleware-Faults client cfg.auth_config
              (subst (λ m. (m ≡ mode_locked) ⊎ ((m ≡ mode_dev) ⊎ (m ≡ mode_jwt)))
                (sym checked.same_mode) checked.mode)
              (λ jwt. checked.for_jwt (sym checked.same_mode ∙ jwt)))).at
          s)
