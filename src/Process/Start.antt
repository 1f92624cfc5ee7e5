-- ===== src/Process/Start.antt =====
-- cmd/api/main.go: `main` up to its goroutines, and `pingDatabase`. pgxpool is a parameter: `new_pool` with
-- the URL, `ping` with a timeout, and `close`.
pub mod Prepares
pub mod Faults
pub mod Fits
pub mod Stops
pub mod Serves
use oms_go.Prelude.{ℕ, suc, ◌*◌, ◌^◌, Option, none, some, String}
use oms_go.Prelude.Int.{ℤ, pos}
use oms_go.Prelude.Exec.{Result, ok, err, Exec, pure, raise, lift, handle, ◌>>=◌, ◌>>◌}
use oms_go.Auth.Startup.{Client, new_identity_middleware}
use oms_go.Auth.Startup
use oms_go.Http.{Middleware}
use oms_go.Orders.Worker.{WorkerService, run}
use oms_go.Platform.Variables.{ConfigError}
use oms_go.Platform.Config.{Config}
use oms_go.Process.{Process, launched}

-- 5 * time.Second
abbrev pub database_ping_timeout : ℤ
database_ping_timeout = pos (5 * 10 ^ 9)

pub record Database (S E Pool : Type 0) : Type 0 where
  pub new_pool : String → Exec S E Pool
  pub ping : Pool → ℤ → Exec S E (Unit {0})
  pub close : Pool → S → S

-- The early returns of `main`.
pub data Refusal (E : Type 0) : Type 0 where
  load_config_failed : ConfigError → Refusal E
  auth_failed : Startup.StartError E → Refusal E
  pool_failed connect_failed : E → Refusal E

pub record Prepared (S P Pool : Type 0) : Type 0 where
  pub config : Config
  pub identity_middleware : Middleware S P
  pub pool : Pool

module _ {S E Pool : Type 0} (database : Database S E Pool) where
  open database use {new_pool, ping, close}

  unfoldable pub ping_database : Pool → Exec S E (Unit {0})
  ping_database pool = ping pool database_ping_timeout

  -- The deferred `dbPool.Close()` of the return after a failed ping.
  pub close_and_refuse : {A : Type 0} → Pool → E → Exec S (Refusal E) A
  close_and_refuse pool e s = (err (connect_failed e), close pool s)

  unfoldable pub connect : Pool → Exec S (Refusal E) (Unit {0})
  unfolding ping_database close_and_refuse
  connect pool = handle (ping_database pool) (close_and_refuse pool)

  unfoldable pub with_pool :
      {P : Type 0} → Config → Middleware S P → Exec S (Refusal E) (Prepared S P Pool)
  unfolding connect
  with_pool cfg identity_middleware = do
    pool ← handle (new_pool cfg.database_url) (λ e. raise (pool_failed e))
    connect pool
    pure (record { config = cfg; identity_middleware = identity_middleware; pool = pool })

module _ {S E Pool R Token P : Type 0} (client : Client S R E Token)
    (database : Database S E Pool) where
  unfoldable pub with_config : Config → Exec S (Refusal E) (Prepared S P Pool)
  unfolding with_pool
  with_config cfg = do
    identity_middleware ←
        handle (new_identity_middleware client {P = P} cfg.auth_config) (λ e. raise (auth_failed e))
    with_pool database cfg identity_middleware

  -- `loaded` is the answer of `platform.LoadConfig`.
  unfoldable pub prepare : Result ConfigError Config → Exec S (Refusal E) (Prepared S P Pool)
  unfolding with_config
  prepare (err e) = raise (load_config_failed e)
  prepare (ok cfg) = with_config cfg

-- `orders.NewWorker` and the goroutines.
unfoldable pub launch : {S S' P Pool : Type 0} → WorkerService S → Prepared S' P Pool → Process
launch service prepared = launched (run (some service) prepared.config.worker_batch_size)
