-- ===== src/Tests/Sessions.antt =====
-- The worker through one run, and requests behind the middleware of the dev mode.
use oms_go.Prelude.{
  ℕ, suc, ◌≤◌, ◌≡◌, refl, Option, none, some, true, String, List, [], ◌∷◌, str_eq, if◌then◌else◌,
}
use oms_go.Prelude.Int.{pos}
use oms_go.Prelude.Exec.{ok, err}
use oms_go.Db.World.{World}
use oms_go.Orders.Audit.{Audited}
use oms_go.Auth.{mode_dev}
use oms_go.Auth.Guards.{identity_middleware}
use oms_go.Auth.Jwt.{Config}
use oms_go.Auth.Startup.{Client, new_identity_middleware}
use oms_go.Http.{HttpRequest, Middleware}
use oms_go.Orders.Handler.{Payload}
use oms_go.Orders.Handler.Endpoints.{Route, get_order_by_id, post_cancel}
use oms_go.Orders.Worker.{
  WorkerService, Worker, selecting, returned, run, tick, swap, add, go, move, cancel, Reach, start,
  later,
}
use oms_go.Orders.Worker.Ends.{Reach-single, Reach-Returns, Returns, moves_left}
use oms_go.Server.{serve_requests, serve_requests-Audited}
use oms_go.Tests.Requests.{calm, no_addr, uuid_of, Audited-no_rows_yet}
use oms_go.Tests.Bodies.{texts, decoders, cancel_request}

abbrev pub idle_service : Option (WorkerService ℕ)
idle_service = some (record { process_pending_orders_batch = λ input s. (ok [], suc s) })

-- A run is in the service, and the context is cancelled.
abbrev busy : Worker
busy = record {
  loop = selecting;
  is_running = true;
  active_runs = 1;
  in_service = 1;
  leaving = 0;
  cancelled = true;
}

busy-Reach : Reach idle_service (pos 5) busy
unfolding run
busy-Reach =
    later
      (later
        (later (later (later (start _ refl) (move (tick refl))) (move (swap refl refl)))
          (move (add refl)))
        (move (go refl)))
      cancel

Reach-single_example :
    (busy.in_service ≤ 1) × (busy.loop ≡ returned → (busy.in_service ≡ 0) × (busy.leaving ≡ 0))
Reach-single_example = Reach-single busy-Reach

Reach-Returns_example : Returns (moves_left busy) busy
Reach-Returns_example = Reach-Returns busy busy-Reach refl

-- Headers are trusted, and nothing else of the outside is asked.
abbrev pub dev_config : Config
dev_config = record {
  mode = mode_dev;
  issuer = "";
  audience = "";
  jwks_url = "";
  oidc_discovery_url = "";
  allowed_algorithms = [];
  subject_claim = "";
  customer_id_claim = "";
  role_claim = "";
  role_customer_value = "";
  role_admin_value = "";
  role_system_value = "";
  http_timeout = pos 0;
}

abbrev pub nobody : Client World (List ℕ) String String
nobody = record {
  round_trip = λ timeout url w. (err "offline", w);
  read = λ bytes size. ([], none, bytes);
  decode_discovery = λ read r. err "no JSON";
  decode_keys = λ read r. err "no JSON";
  parse_url = λ url. none;
  verify = λ issuer url audience algorithms raw w. (err "bad", w);
  claims_of = λ token. none;
  json = record { as_string = λ raw. none; as_strings = λ raw. none };
  parse_uuid = uuid_of;
}

abbrev pub trusting : Middleware World Payload
trusting = identity_middleware uuid_of mode_dev

abbrev pub as_customer : HttpRequest
as_customer = record {
  headers = λ name. if str_eq name "X-OMS-Role" then "customer" else "product";
  identity = none;
  order_id = "uuid";
  query = λ name. "";
  body = cancel_request.body;
  remote_addr = "";
}

pub trusting-starts : new_identity_middleware nobody dev_config calm ≡ (ok trusting, calm)
unfolding new_identity_middleware
trusting-starts = refl

abbrev visit : List (Route × HttpRequest)
visit = (post_cancel, as_customer) ∷ (get_order_by_id, as_customer) ∷ []

serve_requests-Audited_example :
    Audited (serve_requests no_addr uuid_of texts decoders trusting calm visit).tables
serve_requests-Audited_example =
    serve_requests-Audited no_addr uuid_of texts decoders nobody dev_config trusting
      (λ issuer url audience algorithms raw w. refl) calm calm trusting-starts calm visit
      Audited-no_rows_yet
