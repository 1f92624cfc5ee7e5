-- ===== src/Auth/Jwt/Bearer.antt =====
-- internal/auth/jwt.go: the header that a client writes, and `bearerToken`.
use oms_go.Prelude.{◌≡◌, ◌≢◌, String, [], ◌∷◌, eq_iff, arith}
use oms_go.Prelude.Exec.{ok}
use oms_go.Prelude.Text.{◌<>◌}
use oms_go.Prelude.Text.Words.{fields, IsSolid, fields-solid}
use oms_go.Auth.Jwt.{bearer_token}

fields-bearer :
    (token : String)
    → IsSolid token
    → token ≢ ""
    → fields ("Bearer " <> token) ≡ "Bearer" ∷ token ∷ []
unfolding fields
fields-bearer token solid full = rw (fields-solid token solid full)

-- A token without white space that is not empty is read back from the header `Bearer <token>`.
pub bearer_token-round_trip :
    (token : String) → IsSolid token → token ≢ "" → bearer_token ("Bearer " <> token) ≡ ok token
unfolding bearer_token
bearer_token-round_trip token solid full =
    rw (fields-bearer token solid full) (ground (arith, eq_iff token ""))
