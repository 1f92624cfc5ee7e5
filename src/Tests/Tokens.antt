-- ===== src/Tests/Tokens.antt =====
-- A start with JWT over a small identity provider, its tokens, and readers of bytes.
use oms_go.Prelude.{
  ◌≢◌, arith, ℕ, suc, ◌≡◌, ◌↔◌, refl, ap, zero, ◌==◌, Option, none, some, String, List, [], ◌∷◌,
  ◌++◌, str_eq, if◌then◌else◌,
}
use oms_go.Prelude.Int.{pos}
use oms_go.Prelude.Sort.{take}
use oms_go.Prelude.Exec.{ok, err, ◌>>=◌}
use oms_go.Prelude.Text.{◌<>◌, trim_space, is_space}
use oms_go.Prelude.Text.Words.{IsSolid}
use oms_go.Db.Models.{Uuid}
use oms_go.Auth.{mode_jwt, role_customer, role_admin, Identity, identity_from_headers, role_named}
use oms_go.Prelude.Text.Words.{upper}
use oms_go.Auth.Headers
use oms_go.Auth.Headers.{identity_from_headers_iff}
use oms_go.Auth.Jwt.{
  string_claim, Config, Json, Claims, Raw, bearer_token, resolve_role, identity_from_jwt,
}
use oms_go.Auth.Jwt.RoleClaim.{Values}
use oms_go.Auth.Jwt.Roles.{Names, resolve_role_iff}
use oms_go.Auth.Jwt.Granted.{Granted, identity_from_jwt_iff}
use oms_go.Auth.Jwt.Bearer.{bearer_token-round_trip}
use oms_go.Auth.Limits
use oms_go.Auth.Limits.{Read, Limited, drain, too_large}
use oms_go.Auth.Limits.Reported.{Steady, Bounded, drain-Bounded}
use oms_go.Auth.Guards.{jwt_middleware}
use oms_go.Auth.Startup.{
  Client, new_identity_middleware, new_jwt_identity_middleware, with_keys, keys_url, discovered,
  is_https, probe_jwks, has_keys, fetch_metadata_document, limited_round_trip, or_failed,
}
use oms_go.Auth.Startup.Started.{Guards, new_identity_middleware-Guards}
use oms_go.Http.{Middleware}

abbrev issuer_config : Config
issuer_config = record {
  mode = mode_jwt;
  issuer = "https://issuer";
  audience = "oms";
  jwks_url = "";
  oidc_discovery_url = "https://issuer/discovery";
  allowed_algorithms = "RS256" ∷ [];
  subject_claim = "sub";
  customer_id_claim = "customer";
  role_claim = "role";
  role_customer_value = "buyer";
  role_admin_value = "boss";
  role_system_value = "bot";
  http_timeout = pos 1;
}

-- A raw claim is one byte here: 1 is a uuid, 2 the role of an administrator, 3 a list of roles.
abbrev text_of : Raw → Option String
text_of [] = none
text_of (b ∷ bs) = if b == 1 then some "uuid" else if b == 2 then some "boss" else none

abbrev json : Json
json = record { as_string = text_of; as_strings = λ raw. some ("buyer" ∷ "other" ∷ []) }

abbrev uuid_of : String → Option Uuid
uuid_of s = if str_eq s "uuid" then some 7 else none

abbrev boss_claims : Claims
boss_claims name =
    if str_eq name "sub" then some (1 ∷ []) else if str_eq name "role" then some (2 ∷ []) else none

abbrev boss : Identity
boss = record { role = role_admin; customer_id = none; subject = some "uuid"; subject_id = some 7 }

resolve_role_iff_example : (resolve_role json (some (3 ∷ [])) issuer_config ≡ ok role_customer) ↔ (
    (values : List String) × Values json (some (3 ∷ [])) values
    × Names issuer_config values role_customer)
resolve_role_iff_example = resolve_role_iff json issuer_config (some (3 ∷ [])) role_customer

identity_from_jwt_iff_example :
    (identity_from_jwt json uuid_of boss_claims issuer_config ≡ ok boss)
    ↔ Granted json uuid_of boss_claims issuer_config boss
identity_from_jwt_iff_example = identity_from_jwt_iff json uuid_of boss_claims issuer_config boss

boss_test : identity_from_jwt json uuid_of boss_claims issuer_config ≡ ok boss
unfolding identity_from_jwt trim_space resolve_role string_claim
boss_test = refl

abc-IsSolid : IsSolid "abc"
unfolding is_space
abc-IsSolid = (refl, (refl, (refl, tt)))

bearer_token-round_trip_example : bearer_token ("Bearer " <> "abc") ≡ ok "abc"
bearer_token-round_trip_example = bearer_token-round_trip "abc" abc-IsSolid (λ e. cc)

abbrev drop : ℕ → List ℕ → List ℕ
drop zero s = s
drop (suc n) [] = []
drop (suc n) (x ∷ s) = drop n s

-- Reads from a list of bytes, at most as many as the buffer holds.
abbrev from_list : Read (List ℕ) String
from_list bytes size = (take size bytes, none, drop size bytes)

from_list-splits : (s : List ℕ) (size : ℕ) → s ≡ take size s ++ drop size s
unfolding take
from_list-splits s zero = refl
from_list-splits [] (suc n) = refl
from_list-splits (x ∷ s) (suc n) = ap (λ ys. x ∷ ys) (from_list-splits s n)

from_list-Steady : Steady from_list (λ s. s)
unfolding take
from_list-Steady = record { moves = moves; ends = λ s n h. refl }
  where
    moves : (s : List ℕ) (n : ℕ) → s ≢ [] → take (suc n) s ≢ []
    moves [] n h e = h refl
    moves (x ∷ s) n h e = cc

-- Two bytes are delivered of three, and the third makes the reader fail.
drain-Bounded_example :
    Bounded {E = String}
      (λ s. s)
      (5 ∷ 6 ∷ 7 ∷ [])
      2
      (drain from_list (record { inner = 5 ∷ 6 ∷ 7 ∷ []; remaining = 2 }) (1 ∷ 4 ∷ 4 ∷ []))
drain-Bounded_example =
    drain-Bounded from_list (λ s. s) from_list-splits from_list-Steady
      (record { inner = 5 ∷ 6 ∷ 7 ∷ []; remaining = 2 }) (1 ∷ 4 ∷ 4 ∷ [])
      (omega arith, (omega arith, (omega arith, tt))) (omega arith)

drain_test :
    drain from_list (record { inner = 5 ∷ 6 ∷ 7 ∷ []; remaining = 2 }) (1 ∷ 4 ∷ [])
    ≡ (5 ∷ 6 ∷ [], some too_large, record { inner = []; remaining = 0 })
unfolding drain take
drain_test = refl

-- The provider: the state counts the calls, the keys are one byte, and a token is its text.
abbrev provider : Client ℕ (List ℕ) String String
provider = record {
  round_trip = λ timeout url s. (ok (200, 9 ∷ []), suc s);
  read = from_list;
  decode_discovery = λ read r. ok (record { issuer = "https://issuer"; jwks_url = "https://keys" });
  decode_keys = λ read r. ok ((read r 4).0 ∷ []);
  parse_url = λ url. some (record { scheme = "https"; host = "host" });
  verify =
      λ issuer url audience algorithms raw s. (if str_eq raw "abc" then ok raw else err "bad", s);
  claims_of = λ token. some boss_claims;
  json = json;
  parse_uuid = uuid_of;
}

abbrev guard : Middleware ℕ String
guard =
    jwt_middleware (provider.verify "https://issuer" "https://keys" "oms" ("RS256" ∷ []))
      provider.claims_of json uuid_of issuer_config

started : new_identity_middleware provider {P = String} issuer_config 0 ≡ (ok guard, 2)
unfolding new_identity_middleware new_jwt_identity_middleware with_keys keys_url discovered is_https
    probe_jwks has_keys fetch_metadata_document limited_round_trip or_failed ◌>>=◌
    Limits.read_limited take
started = refl

new_identity_middleware-Guards_example : (url : String) × Guards provider issuer_config url guard
new_identity_middleware-Guards_example =
    new_identity_middleware-Guards provider issuer_config guard 0 2 started

abbrev admin_headers : String → String
admin_headers name = if str_eq name "X-OMS-Role" then "Admin " else ""

abbrev lone_admin : Identity
lone_admin = Headers.as_role role_admin none

identity_from_headers_iff_example :
    (identity_from_headers uuid_of admin_headers ≡ ok lone_admin)
    ↔ Headers.Names uuid_of admin_headers lone_admin
identity_from_headers_iff_example = identity_from_headers_iff uuid_of admin_headers lone_admin

admin_test : identity_from_headers uuid_of admin_headers ≡ ok lone_admin
unfolding identity_from_headers trim_space role_named upper
admin_test = refl
