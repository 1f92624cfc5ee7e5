-- ===== src/Process/Start/Prepares.antt =====
-- cmd/api/main.go: what the early returns leave open.
use oms_go.Prelude.{
  ℕ, suc, ◌≡◌, refl, sym, ap, ◌∙◌, subst, String, List, [], ◌∷◌, str_eq, not, ◌==◌,
}
use oms_go.Prelude.Int.{ℤ, pos, ltb_ℤ}
use oms_go.Prelude.Exec.{Result, ok, err, >>=-cases, handle-cases, handle-eq-ok, handle-eq-err}
use oms_go.Auth.{mode_locked, mode_dev, mode_jwt}
use oms_go.Auth.Jwt
use oms_go.Auth.Startup
use oms_go.Auth.Startup.{
  Client, Decode, or_failed, limited_round_trip, fetch_metadata_document, has_keys, probe_jwks,
  discovered, keys_url, is_https, with_keys, new_jwt_identity_middleware, new_identity_middleware,
}
use oms_go.Http.{Middleware, status_ok}
use oms_go.Orders.Service.SafeCalls.{Safe, Safe-lift, Safe-bind, Safe-if}
use oms_go.Platform.Variables.{ConfigError}
use oms_go.Platform.Config.{Config}
use oms_go.Process.Start.{
  Database, Refusal, Prepared, with_pool, with_config, prepare, connect, ping_database,
  database_ping_timeout, close_and_refuse,
}

-- What pgxpool and net/http do to the number of open pools.
pub record PoolLaws {S E Pool R Token : Type 0} (client : Client S R E Token)
    (database : Database S E Pool) (open_pools : S → ℕ) : Type 0 where
  pub opens :
      (url : String) (s : S) {pool : Pool} {t : S}
      → database.new_pool url s ≡ (ok pool, t)
      → open_pools t ≡ suc (open_pools s)
  pub refuses :
      (url : String) (s : S) {e : E} {t : S}
      → database.new_pool url s ≡ (err e, t)
      → open_pools t ≡ open_pools s
  pub pings : (pool : Pool) (d : ℤ) (s : S) → open_pools (database.ping pool d s).1 ≡ open_pools s
  pub closes :
      (pool : Pool) (s : S) (n : ℕ) → open_pools s ≡ suc n → open_pools (database.close pool s) ≡ n
  pub asks :
      (d : ℤ) (url : String) (s : S) → open_pools (client.round_trip d url s).1 ≡ open_pools s

module _ {S E Pool R Token : Type 0} (client : Client S R E Token) (database : Database S E Pool)
    (open_pools : S → ℕ) (laws : PoolLaws client database open_pools) (n : ℕ) where
  abbrev Open : S → Type 0
  Open s = open_pools s ≡ n

  or_failed-Safe : {A : Type 0} (r : Result E A) → Safe Open (or_failed client r)
  unfolding or_failed
  or_failed-Safe (ok a) = Safe-lift Open _
  or_failed-Safe (err e) = Safe-lift Open _

  limited_round_trip-Safe : (d : ℤ) (url : String) → Safe Open (limited_round_trip client d url)
  unfolding limited_round_trip
  limited_round_trip-Safe d url = record {
    after = λ s h.
        (Safe-bind Open _ _ (or_failed-Safe (client.round_trip d url s).0)
            (λ response. Safe-lift Open _)).after
          (client.round_trip d url s).1 (laws.asks d url s ∙ h);
  }

  fetch-Safe :
      {A : Type 0} (decode : Decode R E A) (d : ℤ) (url : String)
      → Safe Open (fetch_metadata_document client decode d url)
  unfolding fetch_metadata_document
  fetch-Safe decode d url = Safe-bind Open _ _ (limited_round_trip-Safe d url) (λ response.
      Safe-if Open (not (response.0 == status_ok)) _ _ (Safe-lift Open _) (or_failed-Safe _))

  has_keys-Safe : (keys : List (List ℕ)) → Safe Open (has_keys client keys)
  unfolding has_keys
  has_keys-Safe [] = Safe-lift Open _
  has_keys-Safe (k ∷ ks) = Safe-lift Open _

  keys_url-Safe : (cfg : Jwt.Config) → Safe Open (keys_url client cfg)
  unfolding keys_url discovered
  keys_url-Safe cfg = Safe-if Open (str_eq cfg.oidc_discovery_url "") _ _ (Safe-lift Open _) (
      Safe-bind Open _ _
        (fetch-Safe client.decode_discovery cfg.http_timeout cfg.oidc_discovery_url)
        (λ discovery.
          Safe-if Open (not (str_eq discovery.issuer cfg.issuer)) _ _ (Safe-lift Open _) (
            Safe-if Open (str_eq discovery.jwks_url "") _ _ (Safe-lift Open _) (Safe-lift Open _))))

  with_keys-Safe :
      {P : Type 0} (cfg : Jwt.Config) (url : String) → Safe Open (with_keys client {P = P} cfg url)
  unfolding with_keys probe_jwks
  with_keys-Safe cfg url = Safe-if Open (not (is_https client url)) _ _ (Safe-lift Open _) (
      Safe-bind Open _ _
        (Safe-bind Open _ _ (fetch-Safe client.decode_keys cfg.http_timeout url) has_keys-Safe)
        (λ _. Safe-lift Open _))

  new_identity_middleware-Safe :
      {P : Type 0} (cfg : Jwt.Config) → Safe Open (new_identity_middleware client {P = P} cfg)
  unfolding new_identity_middleware new_jwt_identity_middleware
  new_identity_middleware-Safe cfg =
      Safe-if Open (str_eq cfg.mode mode_locked) _ _ (Safe-lift Open _) (
        Safe-if Open (str_eq cfg.mode mode_dev) _ _ (Safe-lift Open _) (
          Safe-if Open (str_eq cfg.mode mode_jwt) _ _
            (Safe-if Open (not (ltb_ℤ (pos 0) cfg.http_timeout)) _ _ (Safe-lift Open _)
              (Safe-bind Open _ _ (keys_url-Safe cfg) (with_keys-Safe cfg)))
            (Safe-lift Open _)))

module _ {S E Pool R Token : Type 0} (client : Client S R E Token) (database : Database S E Pool)
    (open_pools : S → ℕ) (laws : PoolLaws client database open_pools) where
  ping_keeps :
      (pool : Pool) (s : S) {x : Result E (Unit {0})} {t : S}
      → database.ping pool database_ping_timeout s ≡ (x, t)
      → open_pools t ≡ open_pools s
  ping_keeps pool s e =
      sym (ap (λ (z : Result E (Unit {0}) × S). open_pools z.1) e)
      ∙ laws.pings pool database_ping_timeout s

  -- The pool that is open beside n others is closed exactly if there is an error.
  abbrev Connected : ℕ → Result (Refusal E) (Unit {0}) × S → Type 0
  Connected n (ok a, t) = open_pools t ≡ suc n
  Connected n (err e, t) = open_pools t ≡ n

  connect-Connected :
      (pool : Pool) (s : S) (n : ℕ) → open_pools s ≡ suc n → Connected n (connect database pool s)
  unfolding connect ping_database close_and_refuse
  connect-Connected pool s n h =
      handle-cases (Connected n) (database.ping pool database_ping_timeout) _ s
        (λ a t e. ping_keeps pool s e ∙ h) (λ x t e. laws.closes pool t n (ping_keeps pool s e ∙ h))

module _ {S E Pool R Token P : Type 0} (client : Client S R E Token) (database : Database S E Pool)
    (open_pools : S → ℕ) where
  -- Everything is there, with one more pool, or there is a reason, and the pools are as before.
  pub data Prepares (loaded : Result ConfigError Config) (s : S)
      : Result (Refusal E) (Prepared S P Pool) × S → Type 0 where
    ready :
        (p : Prepared S P Pool) (s₁ t : S)
        → loaded ≡ ok p.config
        → new_identity_middleware client p.config.auth_config s ≡ (ok p.identity_middleware, s₁)
        → open_pools t ≡ suc (open_pools s)
        → Prepares loaded s (ok p, t)
    refused : (e : Refusal E) (t : S) → open_pools t ≡ open_pools s → Prepares loaded s (err e, t)

  module _ (laws : PoolLaws client database open_pools) where
    middleware_keeps :
        (cfg : Config) (s : S) {x : Result (Startup.StartError E) (Middleware S P)} {t : S}
        → new_identity_middleware client cfg.auth_config s ≡ (x, t)
        → open_pools t ≡ open_pools s
    middleware_keeps cfg s {x} {t} e =
        sym (ap (λ (z : Result (Startup.StartError E) (Middleware S P) × S). open_pools z.1) e)
        ∙ (new_identity_middleware-Safe client database open_pools laws (open_pools s)
              cfg.auth_config).after
            s refl

    -- If a new pool is one more that is open, a closed one is one less, and nothing else opens or closes one:
    -- when `main` gets past its early returns, the configuration was loaded, the middleware is the one of its
    -- settings, and one more pool is open; with every early return as many pools are open as before.
    pub prepare-Prepares :
        (loaded : Result ConfigError Config) (s : S)
        → Prepares loaded s (prepare client database loaded s)
    unfolding prepare with_config with_pool
    prepare-Prepares (err e) s = refused _ s refl
    prepare-Prepares (ok cfg) s =
        >>=-cases (Prepares (ok cfg) s) _ _ s
          (λ m s₁ e. with_pool_of m s₁ (handle-eq-ok _ _ s (λ x t. (_, refl)) e))
          (λ x t e.
            refused x t (let (y, failed) = handle-eq-err _ _ s e in middleware_keeps cfg s failed))
      where
        with_pool_of :
            (m : Middleware S P) (s₁ : S)
            → new_identity_middleware client cfg.auth_config s ≡ (ok m, s₁)
            → Prepares (ok cfg) s (with_pool database cfg m s₁)
        with_pool_of m s₁ e =
            >>=-cases (Prepares (ok cfg) s) _ _ s₁
              (λ pool s₂ opened.
                let more =
                  laws.opens cfg.database_url s₁ (handle-eq-ok _ _ s₁ (λ x t. (_, refl)) opened)
                  ∙ ap suc (middleware_keeps cfg s e) in
                let connected =
                  connect-Connected client database open_pools laws pool s₂ (open_pools s) more in
                >>=-cases (Prepares (ok cfg) s) _ _ s₂
                  (λ _ t c.
                    ready _ s₁ t refl e (
                      subst (Connected client database open_pools laws (open_pools s)) c connected))
                  (λ x t c.
                    refused x t (
                      subst (Connected client database open_pools laws (open_pools s)) c
                        connected)))
              (λ x t failed.
                let (y, none_opened) = handle-eq-err _ _ s₁ failed in
                refused x t
                  (laws.refuses cfg.database_url s₁ none_opened ∙ middleware_keeps cfg s e))
