-- ===== src/Tests/Processes.antt =====
-- The process from its start to its end, and the book of orders along a sequence of requests.
use oms_go.Prelude.{
  ℕ, suc, ◌-◌, ◌≡◌, ◌<◌, refl, ap, sym, Bool, arith, none, true, false, String, List, [], ◌∷◌,
}
use oms_go.Prelude.Int.{pos}
use oms_go.Prelude.Exec.{Result, ok, err, handle, ◌>>=◌}
use oms_go.Prelude.Text.{trim_space}
use oms_go.Auth.{mode_dev}
use oms_go.Auth.Guards.{identity_middleware}
use oms_go.Auth.Startup.{
  Client, failed, new_identity_middleware, new_jwt_identity_middleware, with_keys, keys_url,
  probe_jwks, fetch_metadata_document, limited_round_trip, or_failed, is_https,
}
use oms_go.Http.{Handler, write_json_error, text}
use oms_go.Orders.Handler.Endpoints.{Route}
use oms_go.Orders.Worker.{Worker, Loop, run, returned, done, wait}
use oms_go.Platform.Config.{
  Config, or_default, load_config, load_auth_config, parse_positive_duration_env,
  worker_batch_size_env, auth_mode_env,
}
use oms_go.Process.{
  Process, Reach, start, later, signal, notice, cancel, shut, stop_serving, drained, work,
  stop_running, joined, close, launched, exited, failing, refused, ended, Running, channel_size,
  in_shutdown, process, running,
}
use oms_go.Process.Steps.{Reach-clean}
use oms_go.Process.Ends.{Ends, steps_left, Reach-Ends}
use oms_go.Process.Start.{
  Database, Prepared, auth_failed, prepare, with_config, with_pool, connect, ping_database, launch,
}
use oms_go.Process.Start.Prepares.{PoolLaws, Prepares, prepare-Prepares}
use oms_go.Process.Start.Faults.{IsRemote}
use oms_go.Process.Start.Fits.{prepare-IsRemote}
use oms_go.Process.Start.Serves.{Serves, prepare-Serves}
use oms_go.Process.Start.Stops.{launch-Ends}
use oms_go.Tests.Requests.{uuid_of}
use oms_go.Tests.Sessions.{idle_service, dev_config as headers_config}
use oms_go.Tests.Settings.{
  environment, no_duration, https, config, loaded, resting, too_big, lookup,
}

-- The worker at its select.
abbrev waiting_worker : Worker
waiting_worker = record {
  loop = Loop.selecting;
  is_running = false;
  active_runs = 0;
  in_service = 0;
  leaving = 0;
  cancelled = false;
}

abbrev begun_process : Process
begun_process = process running waiting_worker

begun : Reach idle_service (pos 5) begun_process
unfolding run launched
begun = start

-- A signal, and then the end of everything.
abbrev stopped_process : Process
stopped_process = record begun_process {
  main = exited true;
  signalled = true;
  serving = ended;
  running = Running.ended;
  worker = record waiting_worker { loop = returned; cancelled = true };
  pool_open = false;
}

stopped : Reach idle_service (pos 5) stopped_process
stopped =
    let told = later begun signal in
    let closing = later (later (later told (notice refl refl)) (cancel refl)) (shut refl) in
    let served = later (later closing (stop_serving refl in_shutdown)) (drained refl refl) in
    let worked =
      later (later (later served (work refl (done refl refl))) (work refl (wait refl refl)))
        (stop_running refl refl) in
    later (later worked (joined refl refl refl)) (close true refl)

Reach-clean_example :
    ((stopped_process.serving ≡ failing → stopped_process.errors < channel_size)
      × (stopped_process.running ≡ refused → stopped_process.errors < channel_size))
    × (stopped_process.main ≡ exited true
        → (stopped_process.requests ≡ 0)
          × (stopped_process.serving ≡ ended)
          × (stopped_process.running ≡ Running.ended)
          × (stopped_process.worker.in_service ≡ 0)
          × (stopped_process.worker.leaving ≡ 0))
    × (stopped_process.pool_open ≡ false → (clean : Bool) × (stopped_process.main ≡ exited clean))
Reach-clean_example = Reach-clean stopped

abbrev told_process : Process
told_process = record begun_process {
  signalled = true;
  worker = record waiting_worker { cancelled = true };
}

told : Reach idle_service (pos 5) told_process
told = later begun signal

Reach-Ends_example : Ends (steps_left told_process) told_process
Reach-Ends_example = Reach-Ends told_process told refl

-- The state is the number of open pools. Nothing on the network answers.
abbrev offline : Client ℕ (List ℕ) String String
offline = record {
  round_trip = λ timeout url n. (err "offline", n);
  read = λ bytes size. ([], none, bytes);
  decode_discovery = λ read r. err "no JSON";
  decode_keys = λ read r. err "no JSON";
  parse_url = https;
  verify = λ issuer url audience algorithms raw n. (err "bad", n);
  claims_of = λ token. none;
  json = record { as_string = λ raw. none; as_strings = λ raw. none };
  parse_uuid = uuid_of;
}

-- A server that refuses connections, and one that takes them.
abbrev refusing : Database ℕ String ℕ
refusing = record {
  new_pool = λ url n. (ok n, suc n);
  ping = λ pool timeout n. (err "refused", n);
  close = λ pool n. n - 1;
}

abbrev accepting : Database ℕ String ℕ
accepting = record {
  new_pool = λ url n. (ok n, suc n);
  ping = λ pool timeout n. (ok tt, n);
  close = λ pool n. n - 1;
}

refusing-PoolLaws : PoolLaws offline refusing (λ n. n)
refusing-PoolLaws = record {
  opens = λ url n {pool} {t} h. sym (ap (λ (z : Result String ℕ × ℕ). z.1) h);
  refuses = λ url n {e} {t} h. absurd (cc (ap (λ (z : Result String ℕ × ℕ). z.0) h));
  pings = λ pool d n. refl;
  closes = λ pool n k h. omega (arith, h);
  asks = λ d url n. refl;
}

abbrev dev_environment : String → String
dev_environment = lookup (("DATABASE_URL", "postgres://oms") ∷ ("OMS_AUTH_MODE", "dev") ∷ [])

prepare-Prepares_example :
    Prepares {P = String} offline refusing
      (λ n. n)
      (load_config dev_environment no_duration https)
      0
      (prepare offline refusing (load_config dev_environment no_duration https) 0)
prepare-Prepares_example =
    prepare-Prepares offline refusing (λ n. n) refusing-PoolLaws
      (load_config dev_environment no_duration https) 0

-- The keys cannot be fetched.
no_keys_there :
    prepare {P = String} offline accepting (ok config) 0 ≡ (err (auth_failed (failed "offline")), 0)
unfolding prepare with_config new_identity_middleware new_jwt_identity_middleware with_keys keys_url
    probe_jwks fetch_metadata_document limited_round_trip or_failed is_https ◌>>=◌ handle
no_keys_there = refl

prepare-IsRemote_example : IsRemote {E = String} config.auth_config (failed "offline")
prepare-IsRemote_example =
    prepare-IsRemote offline accepting environment no_duration config loaded 0 no_keys_there

-- The answer to every request of the orders is the same.
abbrev same_answer : Route → Handler ℕ String
same_answer route r n = (write_json_error 404 "not_found" (text "Not found"), n)

abbrev dev_config : Config
dev_config = record config {
  worker_batch_size = pos 500;
  auth_mode = mode_dev;
  auth_config = headers_config;
}

abbrev dev_prepared : Prepared ℕ String ℕ
dev_prepared = record {
  config = dev_config;
  identity_middleware = identity_middleware uuid_of mode_dev;
  pool = 0;
}

dev_start :
    prepare offline accepting (load_config dev_environment no_duration https) 0
    ≡ (ok dev_prepared, 1)
unfolding prepare with_config with_pool connect ping_database new_identity_middleware load_config
    load_auth_config trim_space parse_positive_duration_env worker_batch_size_env auth_mode_env
    ◌>>=◌ handle or_default
dev_start = refl

prepare-Serves_example : Serves offline same_answer dev_prepared
prepare-Serves_example =
    prepare-Serves offline accepting same_answer dev_environment no_duration 0 dev_start

abbrev big_prepared : Prepared ℕ String ℕ
big_prepared = record dev_prepared { config = config }

launch-Ends_example : Ends (steps_left (launch resting big_prepared)) (launch resting big_prepared)
launch-Ends_example =
    launch-Ends environment no_duration https resting big_prepared 4294967296 loaded too_big
      (omega arith) (omega arith)
