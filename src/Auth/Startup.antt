-- ===== src/Auth/Startup.antt =====
-- internal/auth/jwt.go: `NewIdentityMiddleware`, which is called once, at the start. Parameters:
-- `round_trip`, a GET by net/http with a timeout, whose body is a reader over R; encoding/json, which
-- decodes from such a reader; `parse_url`; and go-oidc's verifier, for an issuer, the URL of the keys,
-- an audience and the algorithms.
pub mod Admits
pub mod Started
use oms_go.Prelude.{
  ℕ, Bool, true, false, ◌&&◌, not, Option, none, some, String, List, [], ◌∷◌, str_eq, ◌==◌,
  if◌then◌else◌,
}
use oms_go.Prelude.Int.{ℤ, pos, ltb_ℤ}
use oms_go.Prelude.Exec.{Result, ok, err, Exec, pure, raise, ◌>>=◌, ◌>>◌}
use oms_go.Db.Models.{Uuid}
use oms_go.Auth.{Mode, mode_locked, mode_dev, mode_jwt}
use oms_go.Auth.Jwt.{Config, Json, Claims}
use oms_go.Auth.Limits.{Read, Limited, max_jwt_metadata_response_bytes}
use oms_go.Auth.Limits
use oms_go.Auth.Guards.{identity_middleware, jwt_middleware}
use oms_go.Http.{Middleware, Url, status_ok}

pub record DiscoveryDocument : Type 0 where
  pub issuer : String
  pub jwks_url : String

pub data StartError (E : Type 0) : Type 0 where
  unsupported_mode : Mode → StartError E
  timeout_not_positive issuer_mismatch missing_jwks_uri not_https no_keys : StartError E
  unexpected_status : ℕ → StartError E
  failed : E → StartError E

-- A decoder of JSON from a reader of bytes.
abbrev pub Decode : Type 0 → Type 0 → Type 0 → Type 0
Decode R E A = (Limited R → ℕ → Limits.Answer R E) → Limited R → Result E A

-- What the start uses of other packages.
pub record Client (S R E Token : Type 0) : Type 0 where
  pub round_trip : ℤ → String → Exec S E (ℕ × R)
  pub read : Read R E
  pub decode_discovery : Decode R E DiscoveryDocument
  pub decode_keys : Decode R E (List (List ℕ))
  pub parse_url : String → Option Url
  pub verify : String → String → String → List String → String → Exec S E Token
  pub claims_of : Token → Option Claims
  pub json : Json
  pub parse_uuid : String → Option Uuid

abbrev pub url_is_https : Option Url → Bool
url_is_https none = false
url_is_https (some url) = str_eq url.scheme "https" && not (str_eq url.host "")

module _ {S R E Token : Type 0} (client : Client S R E Token) where
  open client use {
    round_trip, read, decode_discovery, decode_keys, parse_url, verify, claims_of, json, parse_uuid,
  }

  unfoldable pub or_failed : {A : Type 0} → Result E A → Exec S (StartError E) A
  or_failed (ok a) = pure a
  or_failed (err e) = raise (failed e)

  -- `RoundTrip` of `jwtMetadataLimitTransport`, by a client with the timeout.
  unfoldable pub limited_round_trip : ℤ → String → Exec S (StartError E) (ℕ × Limited R)
  unfolding or_failed
  limited_round_trip timeout url s =
      let (answer, s') = round_trip timeout url s in
      (or_failed answer >>= λ response.
      pure (response.0, record { inner = response.1; remaining = max_jwt_metadata_response_bytes }))
        s'

  unfoldable pub fetch_metadata_document :
      {A : Type 0} → Decode R E A → ℤ → String → Exec S (StartError E) A
  unfolding or_failed
  fetch_metadata_document decode timeout url = limited_round_trip timeout url >>= λ response.
      if not (response.0 == status_ok)
      then raise (unexpected_status response.0)
      else or_failed (decode (Limits.read_limited read) response.1)

  unfoldable pub has_keys : List (List ℕ) → Exec S (StartError E) (Unit {0})
  has_keys [] = raise no_keys
  has_keys (k ∷ ks) = pure tt

  unfoldable pub probe_jwks : ℤ → String → Exec S (StartError E) (Unit {0})
  unfolding has_keys
  probe_jwks timeout url = fetch_metadata_document decode_keys timeout url >>= has_keys

  unfoldable pub discovered : Config → DiscoveryDocument → Exec S (StartError E) String
  discovered cfg discovery =
      if not (str_eq discovery.issuer cfg.issuer)
      then raise issuer_mismatch
      else if str_eq discovery.jwks_url ""
      then raise missing_jwks_uri
      else pure discovery.jwks_url

  -- The URL of the keys: the configured one, or the discovered one.
  unfoldable pub keys_url : Config → Exec S (StartError E) String
  unfolding discovered
  keys_url cfg =
      if str_eq cfg.oidc_discovery_url ""
      then pure cfg.jwks_url
      else fetch_metadata_document decode_discovery cfg.http_timeout cfg.oidc_discovery_url
        >>= discovered cfg

  unfoldable pub is_https : String → Bool
  is_https value = url_is_https (parse_url value)

  module _ {P : Type 0} where
    unfoldable pub with_keys : Config → String → Exec S (StartError E) (Middleware S P)
    unfolding is_https
    with_keys cfg url =
        if not (is_https url)
        then raise not_https
        else probe_jwks cfg.http_timeout url
          >> pure (
              jwt_middleware (verify cfg.issuer url cfg.audience cfg.allowed_algorithms) claims_of
                json parse_uuid cfg)

    unfoldable pub new_jwt_identity_middleware : Config → Exec S (StartError E) (Middleware S P)
    unfolding with_keys
    new_jwt_identity_middleware cfg =
        if not (ltb_ℤ (pos 0) cfg.http_timeout)
        then raise timeout_not_positive
        else keys_url cfg >>= with_keys cfg

    unfoldable pub new_identity_middleware : Config → Exec S (StartError E) (Middleware S P)
    new_identity_middleware cfg =
        if str_eq cfg.mode mode_locked
        then pure (identity_middleware parse_uuid mode_locked)
        else if str_eq cfg.mode mode_dev
        then pure (identity_middleware parse_uuid mode_dev)
        else if str_eq cfg.mode mode_jwt
        then new_jwt_identity_middleware cfg
        else raise (unsupported_mode cfg.mode)
