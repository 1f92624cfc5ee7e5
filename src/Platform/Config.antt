-- ===== src/Platform/Config.antt =====
-- internal/platform/config.go: `LoadConfig`, over the environment. `time.ParseDuration` (in nanoseconds)
-- and `url.Parse` are parameters. Of several names in one map Go visits any first, so the errors of those
-- loops say no name.
pub mod Usable
pub mod Loaded
pub mod BatchSize
use oms_go.Prelude.{
  ℕ, ◌*◌, Bool, true, false, ◌&&◌, ◌||◌, not, Option, none, some, String, List, [], ◌∷◌, ◌++◌,
  str_eq, any, all, if◌then◌else◌,
}
use oms_go.Prelude.Int.{ℤ, pos, ltb_ℤ, wrap32}
use oms_go.Prelude.Numbers.{atoi}
use oms_go.Prelude.Exec.{Result, ok, err, and_then}
use oms_go.Prelude.Text.{codes, trim_space}
use oms_go.Prelude.Text.Words.{split_on, upper_codes, codes_eq, has_prefix}
use oms_go.Auth.{Mode, mode_locked, mode_dev, mode_jwt}
use oms_go.Auth.Jwt
use oms_go.Http.{Url}
use oms_go.Platform.Variables.{
  ConfigError, database_url_required, invalid_batch_size, invalid_auth_mode, name_required,
  one_url_required, not_https, roles_not_distinct, second, default_worker_batch_size,
  parse_allowed_algorithms, refuse_if, positive_duration,
}

pub record Config : Type 0 where
  pub http_addr : String
  pub shutdown_timeout : ℤ
  pub read_timeout : ℤ
  pub write_timeout : ℤ
  pub idle_timeout : ℤ
  pub database_url : String
  pub worker_batch_size : ℤ
  pub auth_mode : Mode
  pub auth_config : Jwt.Config

unfoldable pub https_url : Option Url → Bool
https_url none = false
https_url (some url) = str_eq url.scheme "https" && not (str_eq url.host "")

unfoldable pub or_default : String → String → String
or_default value fallback = if str_eq value "" then fallback else value

-- The names that must not be blank.
unfoldable pub required : Jwt.Config → List String
required cfg =
    cfg.issuer ∷ cfg.audience ∷ cfg.customer_id_claim ∷ cfg.role_claim ∷ cfg.role_customer_value
    ∷ cfg.role_admin_value ∷ cfg.role_system_value ∷ []

both_or_neither : Jwt.Config → Bool
both_or_neither cfg =
    if str_eq cfg.jwks_url ""
    then str_eq cfg.oidc_discovery_url ""
    else not (str_eq cfg.oidc_discovery_url "")

same_roles : Jwt.Config → Bool
same_roles cfg =
    str_eq cfg.role_customer_value cfg.role_admin_value
    || str_eq cfg.role_customer_value cfg.role_system_value
    || str_eq cfg.role_admin_value cfg.role_system_value

shutdown_of : Option ℤ → ℤ
shutdown_of none = pos (10 * second)
shutdown_of (some parsed) = parsed

batch_size_of : Option ℤ → Result ConfigError ℤ
batch_size_of none = err invalid_batch_size
batch_size_of (some parsed) =
    if ltb_ℤ parsed (pos 1) then err invalid_batch_size else ok (wrap32 parsed)

module _ (parse_url : String → Option Url) where
  unfoldable pub is_https_url : String → Bool
  unfolding https_url
  is_https_url value = https_url (parse_url value)

  -- An empty URL is not looked at.
  https_or_empty : String → Bool
  unfolding is_https_url
  https_or_empty value = str_eq value "" || is_https_url value

  -- The checks of `loadAuthConfig`, in order.
  check_auth_config : Jwt.Config → Result ConfigError Jwt.Config
  unfolding https_or_empty both_or_neither same_roles required
  check_auth_config cfg =
      refuse_if (any (λ value. str_eq (trim_space value) "") (required cfg)) name_required (
        refuse_if (both_or_neither cfg) one_url_required (
          refuse_if
            (not (
              https_or_empty cfg.issuer
              && https_or_empty cfg.jwks_url
              && https_or_empty cfg.oidc_discovery_url))
            not_https (refuse_if (same_roles cfg) roles_not_distinct (ok cfg))))

module _ (getenv : String → String) where
  unfoldable pub env_trimmed : String → String
  env_trimmed name = trim_space (getenv name)

  -- What the environment says, before it is checked.
  unfoldable pub read_auth_config : ℤ → List String → Jwt.Config
  unfolding env_trimmed or_default
  read_auth_config http_timeout allowed_algorithms = record {
    mode = mode_jwt;
    issuer = env_trimmed "OMS_JWT_ISSUER";
    audience = env_trimmed "OMS_JWT_AUDIENCE";
    jwks_url = env_trimmed "OMS_JWT_JWKS_URL";
    oidc_discovery_url = env_trimmed "OMS_OIDC_DISCOVERY_URL";
    allowed_algorithms = allowed_algorithms;
    subject_claim = or_default (env_trimmed "OMS_JWT_SUBJECT_CLAIM") "sub";
    customer_id_claim = env_trimmed "OMS_JWT_CUSTOMER_ID_CLAIM";
    role_claim = env_trimmed "OMS_JWT_ROLE_CLAIM";
    role_customer_value = env_trimmed "OMS_JWT_ROLE_CUSTOMER_VALUE";
    role_admin_value = env_trimmed "OMS_JWT_ROLE_ADMIN_VALUE";
    role_system_value = env_trimmed "OMS_JWT_ROLE_SYSTEM_VALUE";
    http_timeout = http_timeout;
  }

  unfoldable pub worker_batch_size_env : Result ConfigError ℤ
  unfolding batch_size_of
  worker_batch_size_env =
      if str_eq (getenv "WORKER_BATCH_SIZE") ""
      then ok (pos default_worker_batch_size)
      else batch_size_of (atoi (getenv "WORKER_BATCH_SIZE"))

  unfoldable pub auth_mode_env : Result ConfigError Mode
  auth_mode_env =
      let value = getenv "OMS_AUTH_MODE" in
      if str_eq value mode_locked
      then ok mode_locked
      else if str_eq value mode_dev
      then ok mode_dev
      else if str_eq value mode_jwt
      then ok mode_jwt
      else err invalid_auth_mode

  module _ (parse_duration : String → Option ℤ) where
    unfoldable pub parse_positive_duration_env : String → ℤ → Result ConfigError ℤ
    unfolding positive_duration
    parse_positive_duration_env name fallback =
        if str_eq (getenv name) ""
        then ok fallback
        else positive_duration name (parse_duration (getenv name))

    module _ (parse_url : String → Option Url) where
      unfoldable pub load_jwt_config : Result ConfigError Jwt.Config
      unfolding check_auth_config read_auth_config
      load_jwt_config =
          and_then (parse_positive_duration_env "OMS_JWT_HTTP_TIMEOUT" (pos (5 * second)))
            (λ timeout. and_then (check_auth_config parse_url (read_auth_config timeout [])) (λ _.
              and_then (parse_allowed_algorithms (getenv "OMS_JWT_ALLOWED_ALGS"))
                (λ algorithms. ok (read_auth_config timeout algorithms))))

      unfoldable pub load_auth_config : Mode → Result ConfigError Jwt.Config
      load_auth_config mode =
          if not (str_eq mode mode_jwt)
          then ok (record {
            mode = mode;
            issuer = "";
            audience = "";
            jwks_url = "";
            oidc_discovery_url = "";
            allowed_algorithms = [];
            subject_claim = "";
            customer_id_claim = "";
            role_claim = "";
            role_customer_value = "";
            role_admin_value = "";
            role_system_value = "";
            http_timeout = pos 0;
          })
          else load_jwt_config

      -- A shutdown timeout that is no duration is passed over.
      unfoldable pub load_config : Result ConfigError Config
      unfolding shutdown_of
      load_config =
          and_then (parse_positive_duration_env "HTTP_READ_TIMEOUT" (pos (5 * second)))
            (λ read_timeout.
              and_then (parse_positive_duration_env "HTTP_WRITE_TIMEOUT" (pos (10 * second)))
                (λ write_timeout.
                  and_then (parse_positive_duration_env "HTTP_IDLE_TIMEOUT" (pos (60 * second)))
                    (λ idle_timeout.
                      refuse_if (str_eq (getenv "DATABASE_URL") "") database_url_required (
                        and_then worker_batch_size_env (λ batch_size.
                          and_then auth_mode_env (λ mode.
                            and_then (load_auth_config mode) (λ auth_config. ok (record {
                              http_addr = or_default (getenv "HTTP_ADDR") ":8080";
                              shutdown_timeout =
                                  if str_eq (getenv "SHUTDOWN_TIMEOUT") ""
                                  then pos (10 * second)
                                  else shutdown_of (parse_duration (getenv "SHUTDOWN_TIMEOUT"));
                              read_timeout = read_timeout;
                              write_timeout = write_timeout;
                              idle_timeout = idle_timeout;
                              database_url = getenv "DATABASE_URL";
                              worker_batch_size = batch_size;
                              auth_mode = mode;
                              auth_config = auth_config;
                            }))))))))
