-- ===== src/Tests/Settings.antt =====
-- The configuration of an environment for JWT.
use oms_go.Prelude.{
  ℕ, arith, ◌≡◌, refl, Option, none, some, String, List, [], ◌∷◌, str_eq, if◌then◌else◌,
}
use oms_go.Prelude.Int.{ℤ, pos, wrap32}
use oms_go.Prelude.Exec.{ok, err}
use oms_go.Prelude.Text.{trim_space}
use oms_go.Prelude.Text.Words.{split_on, upper}
use oms_go.Prelude.Numbers.{atoi}
use oms_go.Auth.{mode_jwt}
use oms_go.Auth.Jwt
use oms_go.Http.{Url}
use oms_go.Platform.Variables.{is_unsupported, parse_allowed_algorithms}
use oms_go.Platform.Variables.Algorithms.{Accepted, parse_allowed_algorithms-Accepted}
use oms_go.Platform.Config.{
  Config, parse_positive_duration_env, worker_batch_size_env, auth_mode_env, load_config,
  load_auth_config, load_jwt_config,
}
use oms_go.Platform.Config.BatchSize.{worker_batch_size_env-run}
use oms_go.Orders.Worker.{WorkerService, run, batch_size_not_positive}
use oms_go.Platform.Config.Loaded.{IsLoaded, load_config-IsLoaded}

abbrev pub lookup : List (String × String) → String → String
lookup [] name = ""
lookup ((n, v) ∷ rest) name = if str_eq n name then v else lookup rest name

abbrev pub environment : String → String
environment = lookup (
    ("DATABASE_URL", "postgres://oms")
    ∷ ("WORKER_BATCH_SIZE", "4294967296")
    ∷ ("OMS_AUTH_MODE", "jwt")
    ∷ ("OMS_JWT_ISSUER", "https://i")
    ∷ ("OMS_JWT_AUDIENCE", "oms")
    ∷ ("OMS_JWT_JWKS_URL", "https://k")
    ∷ ("OMS_JWT_CUSTOMER_ID_CLAIM", "c")
    ∷ ("OMS_JWT_ROLE_CLAIM", "r")
    ∷ ("OMS_JWT_ROLE_CUSTOMER_VALUE", "buyer")
    ∷ ("OMS_JWT_ROLE_ADMIN_VALUE", "boss")
    ∷ ("OMS_JWT_ROLE_SYSTEM_VALUE", "bot")
    ∷ ("OMS_JWT_ALLOWED_ALGS", "RS256, RS256,ES256")
    ∷ [])

abbrev pub no_duration : String → Option ℤ
no_duration s = none

abbrev pub https : String → Option Url
https s = some (record { scheme = "https"; host = "host" })

accepted_algorithms : parse_allowed_algorithms "RS256, RS256,ES256" ≡ ok ("RS256" ∷ "ES256" ∷ [])
unfolding parse_allowed_algorithms trim_space split_on is_unsupported upper
accepted_algorithms = refl

parse_allowed_algorithms-Accepted_example : Accepted "RS256, RS256,ES256" ("RS256" ∷ "ES256" ∷ [])
parse_allowed_algorithms-Accepted_example =
    parse_allowed_algorithms-Accepted "RS256, RS256,ES256" ("RS256" ∷ "ES256" ∷ [])
      accepted_algorithms

abbrev jwt_config : Jwt.Config
jwt_config = record {
  mode = mode_jwt;
  issuer = "https://i";
  audience = "oms";
  jwks_url = "https://k";
  oidc_discovery_url = "";
  allowed_algorithms = "RS256" ∷ "ES256" ∷ [];
  subject_claim = "sub";
  customer_id_claim = "c";
  role_claim = "r";
  role_customer_value = "buyer";
  role_admin_value = "boss";
  role_system_value = "bot";
  http_timeout = pos 5000000000;
}

-- The batch size is more than 32 bits, and becomes 0.
abbrev pub config : Config
config = record {
  http_addr = ":8080";
  shutdown_timeout = pos 10000000000;
  read_timeout = pos 5000000000;
  write_timeout = pos 10000000000;
  idle_timeout = pos 60000000000;
  database_url = "postgres://oms";
  worker_batch_size = pos 0;
  auth_mode = mode_jwt;
  auth_config = jwt_config;
}

pub loaded : load_config environment no_duration https ≡ ok config
unfolding load_config load_auth_config load_jwt_config parse_allowed_algorithms trim_space split_on
    is_unsupported upper atoi parse_positive_duration_env worker_batch_size_env auth_mode_env wrap32
loaded = refl

load_config-IsLoaded_example : IsLoaded https config
load_config-IsLoaded_example = load_config-IsLoaded environment no_duration https config loaded

abbrev pub resting : WorkerService ℕ
resting = record { process_pending_orders_batch = λ input s. (ok [], s) }

pub too_big : atoi (environment "WORKER_BATCH_SIZE") ≡ some (pos 4294967296)
unfolding atoi
too_big = refl

worker_batch_size_env-run_example :
    (b : ℤ) × (worker_batch_size_env environment ≡ ok b)
    × (run (some resting) b ≡ err batch_size_not_positive)
worker_batch_size_env-run_example =
    worker_batch_size_env-run environment 4294967296 resting too_big (omega arith) (omega arith)
