-- ===== src/Auth.antt =====
-- internal/auth/middleware.go: roles, modes, identities, and who is let through. `parse_uuid` stands for
-- `uuid.Parse`. An identity's field with its Has flag is an option.
pub mod Jwt
pub mod Headers
pub mod Limits
pub mod Guards
pub mod Startup
use oms_go.Prelude.{
  ℕ, Bool, true, false, Option, none, some, String, List, [], ◌∷◌, str_eq, any, if◌then◌else◌,
}
use oms_go.Prelude.Exec.{Result, ok, err, and_then, some_or_fail}
use oms_go.Prelude.Text.{codes, trim_space}
use oms_go.Prelude.Text.Words.{upper, upper_codes, codes_eq}
use oms_go.Db.Models.{Uuid}

abbrev pub Role : Type 0
Role = String

abbrev pub role_customer : Role
role_customer = "CUSTOMER"

abbrev pub role_admin : Role
role_admin = "ADMIN"

abbrev pub role_system : Role
role_system = "SYSTEM"

abbrev pub Mode : Type 0
Mode = String

abbrev pub mode_locked : Mode
mode_locked = ""

abbrev pub mode_dev : Mode
mode_dev = "dev"

abbrev pub mode_jwt : Mode
mode_jwt = "jwt"

pub data AuthError : Type 0 where
  missing_identity invalid_role missing_customer_id invalid_customer_id : AuthError

pub record Identity : Type 0 where
  pub role : Role
  pub customer_id : Option Uuid
  pub subject : Option String
  pub subject_id : Option Uuid

abbrev dev_header_role : String
dev_header_role = "X-OMS-Role"

abbrev dev_header_customer_id : String
dev_header_customer_id = "X-OMS-Customer-ID"

-- `IdentityFromContext` is the option itself.
unfoldable pub customer_id_from_context : Option Identity → Option Uuid
customer_id_from_context none = none
customer_id_from_context (some identity) = identity.customer_id

unfoldable pub role_from_context : Option Identity → Option Role
role_from_context none = none
role_from_context (some identity) = some identity.role

unfoldable pub subject_from_context : Option Identity → Option String
subject_from_context none = none
subject_from_context (some identity) = identity.subject

-- The role that the header names, in any case of letters.
unfoldable pub role_named : String → Option Role
role_named value =
    if codes_eq (upper_codes value) (codes role_customer)
    then some role_customer
    else if codes_eq (upper_codes value) (codes role_admin)
    then some role_admin
    else if codes_eq (upper_codes value) (codes role_system)
    then some role_system
    else none

module _ (parse_uuid : String → Option Uuid) where
  with_customer : Role → Option Uuid → Result AuthError Identity
  with_customer role none = err invalid_customer_id
  with_customer role (some id) =
      ok (record { role = role; customer_id = some id; subject = none; subject_id = none })

  bare : Role → Identity
  bare role = record { role = role; customer_id = none; subject = none; subject_id = none }

  for_role : Role → String → Result AuthError Identity
  for_role role customer_id_value =
      if str_eq role role_customer
      then (if str_eq customer_id_value ""
          then err missing_customer_id
          else with_customer role (parse_uuid customer_id_value))
      else if str_eq customer_id_value ""
      then ok (bare role)
      else with_customer role (parse_uuid customer_id_value)

  unfoldable pub identity_from_headers : (String → String) → Result AuthError Identity
  unfolding for_role with_customer bare role_named
  identity_from_headers headers =
      if str_eq (trim_space (headers dev_header_role)) ""
      then err missing_identity
      else and_then (some_or_fail invalid_role (role_named (trim_space (headers dev_header_role))))
          (λ role. for_role role (trim_space (headers dev_header_customer_id)))
