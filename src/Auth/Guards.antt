-- ===== src/Auth/Guards.antt =====
-- internal/auth/middleware.go and jwt.go: the handlers that stand before another. go-oidc's verifier and
-- `token.Claims` are parameters, `verify` and `claims_of`; what the verifier does to the state, when it
-- fetches keys, is left open.
use oms_go.Prelude.{not, Option, none, some, String, List, str_eq, any, if◌then◌else◌}
use oms_go.Prelude.Exec.{Result, ok, err, Exec}
use oms_go.Db.Models.{Uuid}
use oms_go.Auth.{Role, Mode, mode_dev, Identity, identity_from_headers}
use oms_go.Auth.Jwt.{Config, Json, Claims, JwtError, bearer_token, identity_from_jwt}
use oms_go.Http.{with_identity, unauthorized, forbidden, Middleware}

module _ {S P : Type 0} where
  -- `if err != nil`: unauthorized. Otherwise the next handler, with the identity in the context.
  unfoldable pub admit : {E : Type 0} → Result E Identity → Middleware S P
  admit (err e) next r s = (unauthorized, s)
  admit (ok identity) next r s = next (with_identity identity r) s

  unfoldable pub identity_middleware : (String → Option Uuid) → Mode → Middleware S P
  unfolding admit
  identity_middleware parse_uuid mode next r s =
      if not (str_eq mode mode_dev)
      then (unauthorized, s)
      else admit (identity_from_headers parse_uuid r.headers) next r s

  unfoldable pub require_role_of : Option Identity → List Role → Middleware S P
  require_role_of none allowed next r s = (unauthorized, s)
  require_role_of (some identity) allowed next r s =
      if any (λ role. str_eq identity.role role) allowed then next r s else (forbidden, s)

  unfoldable pub require_role : List Role → Middleware S P
  unfolding require_role_of
  require_role allowed next r s = require_role_of r.identity allowed next r s

-- The handler of `newJWTIdentityMiddleware`.
module _ {S P Token E : Type 0} (verify : String → Exec S E Token)
    (claims_of : Token → Option Claims) (json : Json) (parse_uuid : String → Option Uuid)
    (cfg : Config) where
  unfoldable pub admit_claims : Option Claims → Middleware S P
  admit_claims none next r s = (unauthorized, s)
  admit_claims (some claims) next r s =
      admit (identity_from_jwt json parse_uuid claims cfg) next r s

  unfoldable pub admit_verified : Result E Token → Middleware S P
  admit_verified (err e) next r s = (unauthorized, s)
  admit_verified (ok token) next r s = admit_claims (claims_of token) next r s

  unfoldable pub admit_bearer : Result JwtError String → Middleware S P
  admit_bearer (err e) next r s = (unauthorized, s)
  admit_bearer (ok raw) next r s = let (token, s') = verify raw s in admit_verified token next r s'

  unfoldable pub jwt_middleware : Middleware S P
  unfolding admit admit_claims admit_verified admit_bearer
  jwt_middleware next r s = admit_bearer (bearer_token (r.headers "Authorization")) next r s
