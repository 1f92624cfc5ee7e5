-- ===== src/Process/Start/Serves.antt =====
-- cmd/api/main.go: what the server is that `main` starts.
use oms_go.Prelude.{◌≡◌, refl, sym, ap, Option, String}
use oms_go.Prelude.Int.{ℤ, pos, ◌≤ℤ◌}
use oms_go.Prelude.Exec.{Result, ok, err, >>=-eq-ok, handle-eq-ok, answer-injective}
use oms_go.Auth.Startup.{Client, new_identity_middleware}
use oms_go.Auth.Startup.Admits.{Verdict}
use oms_go.Auth.Startup.Started.{new_identity_middleware-Guards}
use oms_go.Http.{HttpRequest, Answer, Handler, Middleware}
use oms_go.Orders.Handler.Endpoints.{Route}
use oms_go.Platform.Config.{Config, load_config}
use oms_go.Platform.Config.Loaded.{load_config-IsLoaded}
use oms_go.Process.Start.{Database, Prepared, with_pool, with_config, prepare}
use oms_go.Platform.Variables.{ConfigError}
use oms_go.Server.Listener.{plain, json, healthz, api_v1_orders, router, new_http_server}

module _ {S E Pool R Token P : Type 0} (client : Client S R E Token)
    (routes : Route → Handler S P) where
  -- The server with its timeouts, and each endpoint.
  pub record Serves (p : Prepared S P Pool) : Type 0 where
    pub url : String
    pub timeouts :
        let server = new_http_server p.config routes p.identity_middleware in
        (pos 1 ≤ℤ server.read_timeout)
        × (pos 1 ≤ℤ server.write_timeout)
        × (pos 1 ≤ℤ server.idle_timeout)
    pub health :
        (r : HttpRequest) (s : S)
        → (new_http_server p.config routes p.identity_middleware).handler healthz r s
          ≡ (plain 200 "ok", s)
    pub orders :
        (route : Route) (r : HttpRequest) (s : S)
        → (a : Answer P) × (t : S) × ((new_http_server p.config routes
                p.identity_middleware).handler
              (api_v1_orders route)
              r
              s
            ≡ (json a, t))
          × Verdict client p.config.auth_config url (routes route) r s (a, t)

module _ {S E Pool R Token P : Type 0} (client : Client S R E Token)
    (database : Database S E Pool) where
  with_pool-ok :
      (cfg : Config) (m : Middleware S P) (s : S) {p : Prepared S P Pool} {t : S}
      → with_pool database cfg m s ≡ (ok p, t)
      → (p.config ≡ cfg) × (p.identity_middleware ≡ m)
  unfolding with_pool
  with_pool-ok cfg m s h =
      let (pool, s₁, _, h₁) = >>=-eq-ok _ _ s h in
      let (_, s₂, _, h₂) = >>=-eq-ok _ _ s₁ h₁ in
      let same = (answer-injective h₂).0 in
      (
        ap (λ (q : Prepared S P Pool). q.config) (sym same),
        ap (λ (q : Prepared S P Pool). q.identity_middleware) (sym same),
      )

  -- The configuration and the middleware of a start that gets through.
  prepare-ok :
      (loaded : Result ConfigError Config) (s : S) {p : Prepared S P Pool} {t : S}
      → prepare client database loaded s ≡ (ok p, t)
      → (s₁ : S) × (loaded ≡ ok p.config)
        × (new_identity_middleware client p.config.auth_config s ≡ (ok p.identity_middleware, s₁))
  unfolding prepare with_config
  prepare-ok (err e) s h = absurd (cc)
  prepare-ok (ok cfg) s {p} h =
      let (m, s₁, e₁, h₁) = >>=-eq-ok _ _ s h in
      let (same, given) = with_pool-ok cfg m s₁ h₁ in
      let made = handle-eq-ok _ _ s (λ x t. (_, refl)) e₁ in
      (s₁, ap ok (sym same), rw (same, given) made)

  -- When `main` gets past its early returns with a configuration of `LoadConfig`, the server that it starts
  -- has positive timeouts for reading, writing and idling; /healthz answers 200 with the plain text "ok" to
  -- everybody; and each route of the orders serves exactly the requests that the configuration admits, and
  -- answers 401 to the others.
  pub prepare-Serves :
      (routes : Route → Handler S P) (getenv : String → String) (parse_duration : String → Option ℤ)
      (s : S) {p : Prepared S P Pool} {t : S}
      → prepare client database (load_config getenv parse_duration client.parse_url) s ≡ (ok p, t)
      → Serves client routes p
  unfolding new_http_server router
  prepare-Serves routes getenv parse_duration s {p} {t} h =
      let (s₁, loaded, started) = prepare-ok _ s h in
      let checked = load_config-IsLoaded getenv parse_duration client.parse_url p.config loaded in
      let (url, guards) =
        new_identity_middleware-Guards client p.config.auth_config p.identity_middleware s s₁
          started in
      record {
        url = url;
        timeouts = checked.timeouts;
        health = λ r w. refl;
        orders = λ route r w.
            let (a, u) = p.identity_middleware (routes route) r w in
            (a, u, refl, guards (routes route) r w);
      }
