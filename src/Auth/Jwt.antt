-- ===== src/Auth/Jwt.antt =====
-- internal/auth/jwt.go: what a verified token says of its bearer. The JSON of a claim is a list of
-- bytes, and `json` reads it as a string or as an array of strings (encoding/json). `parse_uuid`
-- stands for `uuid.Parse`.
pub mod Mapping
pub mod RoleClaim
pub mod Roles
pub mod Granted
pub mod Bearer
use oms_go.Prelude.{
  ℕ, Bool, true, false, ◌&&◌, ◌||◌, not, Option, none, some, String, List, [], ◌∷◌, str_eq,
  if◌then◌else◌,
}
use oms_go.Prelude.Int.{ℤ}
use oms_go.Prelude.Exec.{Result, ok, err, and_then, or_fail, some_or_fail}
use oms_go.Prelude.Text.{trim_space}
use oms_go.Prelude.Text.Words.{fields}
use oms_go.Db.Models.{Uuid}
use oms_go.Auth.{Role, role_customer, role_admin, role_system, Mode, Identity}

-- `auth.Config`; a duration is a number of nanoseconds.
pub record Config : Type 0 where
  pub mode : Mode
  pub issuer : String
  pub audience : String
  pub jwks_url : String
  pub oidc_discovery_url : String
  pub allowed_algorithms : List String
  pub subject_claim : String
  pub customer_id_claim : String
  pub role_claim : String
  pub role_customer_value : String
  pub role_admin_value : String
  pub role_system_value : String
  pub http_timeout : ℤ

pub data JwtError : Type 0 where
  malformed_bearer_token missing_claim claim_not_string missing_subject : JwtError
  missing_role role_not_string multiple_roles no_role : JwtError
  missing_customer_id invalid_customer_id subject_not_uuid : JwtError

two_words : List String → Result JwtError String
two_words (scheme ∷ token ∷ []) =
    if not (str_eq scheme "Bearer") || str_eq token "" then err malformed_bearer_token else ok token
two_words _ = err malformed_bearer_token

unfoldable pub bearer_token : String → Result JwtError String
unfolding two_words
bearer_token value = two_words (fields value)

abbrev pub Raw : Type 0
Raw = List ℕ

-- A missing claim is none.
abbrev pub Claims : Type 0
Claims = String → Option Raw

-- `json.Unmarshal` into a string and into a slice of strings.
pub record Json : Type 0 where
  pub as_string : Raw → Option String
  pub as_strings : Raw → Option (List String)

-- The switch on one value of the role claim.
unfoldable pub oms_role : Config → String → Option Role
oms_role cfg value =
    if str_eq value cfg.role_customer_value
    then some role_customer
    else if str_eq value cfg.role_admin_value
    then some role_admin
    else if str_eq value cfg.role_system_value
    then some role_system
    else none

-- One round of the loop: the role matched so far, "" for none yet.
match_role : Role → Option Role → Result JwtError Role
match_role matched none = ok matched
match_role matched (some role) =
    if not (str_eq matched "") && not (str_eq matched role) then err multiple_roles else ok role

match_roles : Config → Role → List String → Result JwtError Role
match_roles cfg matched [] = ok matched
match_roles cfg matched (value ∷ values) =
    and_then (match_role matched (oms_role cfg value)) (λ role. match_roles cfg role values)

some_role : Role → Result JwtError Role
some_role matched = if str_eq matched "" then err no_role else ok matched

module _ (json : Json) where
  -- The values of the role claim.
  pub role_values : Raw → Option String → Result JwtError (List String)
  role_values raw (some single) = ok (single ∷ [])
  role_values raw none = some_or_fail role_not_string (json.as_strings raw)

  unfoldable pub resolve_role : Option Raw → Config → Result JwtError Role
  unfolding role_values match_roles match_role oms_role some_role
  resolve_role none cfg = err missing_role
  resolve_role (some []) cfg = err missing_role
  resolve_role (some (b ∷ bs)) cfg =
      and_then (role_values (b ∷ bs) (json.as_string (b ∷ bs)))
        (λ values. and_then (match_roles cfg "" values) some_role)

  string_of : Option Raw → Result JwtError String
  string_of none = err missing_claim
  string_of (some raw) = some_or_fail claim_not_string (json.as_string raw)

  unfoldable pub string_claim : Claims → String → Result JwtError String
  unfolding string_of
  string_claim claims name = string_of (claims name)

  unfoldable pub subject_of : Claims → Config → Result JwtError String
  subject_of claims cfg =
      and_then (or_fail missing_subject (string_claim claims cfg.subject_claim))
        (λ subject. if str_eq (trim_space subject) "" then err missing_subject else ok subject)

  module _ (parse_uuid : String → Option Uuid) where
    -- The switch on the role; the roles that `resolve_role` answers are the three.
    unfoldable pub identity_of : Claims → Config → String → Role → Result JwtError Identity
    identity_of claims cfg subject role =
        if str_eq role role_customer
        then and_then (or_fail missing_customer_id (string_claim claims cfg.customer_id_claim))
            (λ value. and_then (some_or_fail invalid_customer_id (parse_uuid value)) (λ customer_id.
              ok (record {
                role = role;
                customer_id = some customer_id;
                subject = some subject;
                subject_id = none;
              })))
        else if str_eq role role_admin || str_eq role role_system
        then and_then (some_or_fail subject_not_uuid (parse_uuid subject)) (λ subject_id.
          ok (record {
            role = role;
            customer_id = none;
            subject = some subject;
            subject_id = some subject_id;
          }))
        else ok
            (record { role = role; customer_id = none; subject = some subject; subject_id = none })

    -- `token.Claims` has read the claims; its error is that of the middleware.
    unfoldable pub identity_from_jwt : Claims → Config → Result JwtError Identity
    unfolding subject_of resolve_role identity_of
    identity_from_jwt claims cfg = and_then (subject_of claims cfg) (λ subject.
        and_then (resolve_role (claims cfg.role_claim) cfg)
          (λ role. identity_of claims cfg subject role))
