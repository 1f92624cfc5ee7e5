-- ===== src/Server/Listener.antt =====
-- internal/platform/httpserver.go: `NewHTTPServer`. The routes of chi are the endpoints: /healthz, and
-- those of the orders behind the identity middleware.
use oms_go.Prelude.{ℕ, ◌*◌, ◌^◌, String}
use oms_go.Prelude.Int.{ℤ, pos}
use oms_go.Http.{HttpRequest, Answer, Handler, Middleware, status_ok}
use oms_go.Orders.Handler.Endpoints.{Route}
use oms_go.Platform.Config.{Config}

pub data Endpoint : Type 0 where
  healthz : Endpoint
  api_v1_orders : Route → Endpoint

-- A status with a plain body, or an answer in JSON.
pub data Written (P : Type 0) : Type 0 where
  plain : ℕ → String → Written P
  json : Answer P → Written P

-- `http.Server`.
pub record HttpServer (S P : Type 0) : Type 0 where
  pub addr : String
  pub handler : Endpoint → HttpRequest → S → Written P × S
  pub read_timeout : ℤ
  pub write_timeout : ℤ
  pub read_header_timeout : ℤ
  pub idle_timeout : ℤ

abbrev written : {S P : Type 0} → Answer P × S → Written P × S
written (a, s) = (json a, s)

-- `router`, over the routes of `orders.RegisterRoutes`.
unfoldable pub router :
    {S P : Type 0}
    → (Route → Handler S P)
    → Middleware S P
    → Endpoint
    → HttpRequest
    → S
    → Written P × S
router routes identity_middleware healthz r s = (plain status_ok "ok", s)
router routes identity_middleware (api_v1_orders route) r s =
    written (identity_middleware (routes route) r s)

unfoldable pub new_http_server :
    {S P : Type 0} → Config → (Route → Handler S P) → Middleware S P → HttpServer S P
unfolding router
new_http_server cfg routes identity_middleware = record {
  addr = cfg.http_addr;
  handler = router routes identity_middleware;
  read_timeout = cfg.read_timeout;
  write_timeout = cfg.write_timeout;
  read_header_timeout = pos (5 * 10 ^ 9);
  idle_timeout = cfg.idle_timeout;
}
