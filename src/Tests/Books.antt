-- ===== src/Tests/Books.antt =====
-- The book of orders along a sequence of requests, and behind the middleware.
use oms_go.Prelude.{refl, String}
use oms_go.Db.World.{World}
use oms_go.Http.{HttpRequest}
use oms_go.Orders.Audit.{Audited}
use oms_go.Orders.Book.{book}
use oms_go.Orders.Backend.{serve_all}
use oms_go.Orders.Backend.Spec.{Runs, observed}
use oms_go.Orders.Backend.Spec.Refines.{serve_all-Runs}
use oms_go.Orders.Handler.Endpoints.{Route}
use oms_go.Server.{serve_http}
use oms_go.Server.Owners.{Permitted, serve_http-Permitted}
use oms_go.Tests.Bodies.{texts, decoders}
use oms_go.Tests.Requests.{no_addr, uuid_of, calm, life, Audited-no_rows_yet}
use oms_go.Tests.Sessions.{nobody, dev_config, trusting, trusting-starts}

serve_all-Runs_example :
    Runs
      (observed no_addr uuid_of calm life)
      (book calm.tables)
      (book (serve_all no_addr uuid_of calm life).tables)
serve_all-Runs_example = serve_all-Runs no_addr uuid_of calm life Audited-no_rows_yet

serve_http-Permitted_example :
    (url : String) × ((route : Route) (r : HttpRequest) (w : World)
      → Audited w.tables
      → Permitted no_addr uuid_of texts decoders nobody dev_config url r w
          (book w.tables)
          (book (serve_http no_addr uuid_of texts decoders trusting route r w).1.tables))
serve_http-Permitted_example =
    serve_http-Permitted no_addr uuid_of texts decoders nobody dev_config trusting
      (λ issuer url audience algorithms raw w. refl) calm calm trusting-starts
