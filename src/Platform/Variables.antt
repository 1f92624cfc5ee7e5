-- ===== src/Platform/Variables.antt =====
-- internal/platform/config.go: the errors, the list of algorithms, and the parts that its checks share.
pub mod Algorithms
use oms_go.Prelude.{
  ℕ, ◌*◌, Bool, true, false, ◌&&◌, ◌||◌, not, Option, none, some, String, List, [], ◌∷◌, ◌++◌,
  str_eq, any, all, if◌then◌else◌,
}
use oms_go.Prelude.Int.{ℤ, pos, ltb_ℤ, wrap32}
use oms_go.Prelude.Numbers.{atoi}
use oms_go.Prelude.Exec.{Result, ok, err, and_then}
use oms_go.Prelude.Text.{codes, trim_space}
use oms_go.Prelude.Text.Words.{split_on, upper_codes, codes_eq, has_prefix}
use oms_go.Auth.{Mode, mode_locked, mode_dev, mode_jwt}
use oms_go.Auth.Jwt
use oms_go.Http.{Url}

pub data ConfigError : Type 0 where
  invalid_duration not_positive_duration : String → ConfigError
  database_url_required invalid_batch_size invalid_auth_mode : ConfigError
  name_required one_url_required not_https roles_not_distinct : ConfigError
  algorithms_required empty_algorithm : ConfigError
  unsupported_algorithm : String → ConfigError

abbrev pub second : ℕ
second = 1000000000

abbrev pub default_worker_batch_size : ℕ
default_worker_batch_size = 500

-- `strings.EqualFold(a, "none") || strings.HasPrefix(strings.ToUpper(a), "HS")`: no letter but n, o and
-- e folds to one of the letters of "none".
unfoldable pub is_unsupported : String → Bool
is_unsupported algorithm =
    codes_eq (upper_codes algorithm) (codes "NONE")
    || has_prefix (upper_codes algorithm) (codes "HS")

-- One round of the loop; the algorithms so far are those that were seen.
add_algorithm : List String → String → Result ConfigError (List String)
add_algorithm algorithms algorithm =
    if str_eq algorithm ""
    then err empty_algorithm
    else if is_unsupported algorithm
    then err (unsupported_algorithm algorithm)
    else if any (λ seen. str_eq algorithm seen) algorithms
    then ok algorithms
    else ok (algorithms ++ algorithm ∷ [])

add_algorithms : List String → List String → Result ConfigError (List String)
unfolding add_algorithm
add_algorithms algorithms [] = ok algorithms
add_algorithms algorithms (part ∷ parts) =
    and_then (add_algorithm algorithms (trim_space part)) (λ more. add_algorithms more parts)

unfoldable pub parse_allowed_algorithms : String → Result ConfigError (List String)
unfolding add_algorithms
parse_allowed_algorithms value =
    if str_eq (trim_space value) ""
    then err algorithms_required
    else add_algorithms [] (split_on b',' value)

-- `if test { return err }`.
abbrev pub refuse_if : {E A : Type 0} → Bool → E → Result E A → Result E A
refuse_if test e rest = if test then err e else rest

unfoldable pub positive_duration : String → Option ℤ → Result ConfigError ℤ
positive_duration name none = err (invalid_duration name)
positive_duration name (some parsed) =
    if ltb_ℤ (pos 0) parsed then ok parsed else err (not_positive_duration name)
