-- ===== src/Db/Checks.antt =====
-- The CHECK and UNIQUE constraints of db/migrations/000001_init_oms_schema.up.sql, the server's error
-- codes, and how the generated methods of internal/db/orders.sql.go read one row.
use oms_go.Prelude.{Bool, ◌&&◌, ◌||◌, String, List, [], ◌∷◌, str_eq, any, ◌==◌}
use oms_go.Prelude.Exec.{ok, err}
use oms_go.Db.Models.{Uuid, Order}
use oms_go.Db.Tables.{no_rows, Reply}

abbrev pub unique_violation : String
unique_violation = "23505"

abbrev pub check_violation : String
check_violation = "23514"

abbrev pub foreign_key_violation : String
foreign_key_violation = "23503"

abbrev pub invalid_row_count_in_limit_clause : String
invalid_row_count_in_limit_clause = "2201W"

-- The CHECK constraints.
unfoldable pub is_status : String → Bool
is_status s =
    str_eq s "PENDING"
    || str_eq s "PROCESSING"
    || str_eq s "SHIPPED"
    || str_eq s "DELIVERED"
    || str_eq s "CANCELLED"

unfoldable pub is_actor_type : String → Bool
is_actor_type s = str_eq s "CUSTOMER" || str_eq s "ADMIN" || str_eq s "SYSTEM"

-- The keys.
unfoldable pub has_order : Uuid → List Order → Bool
has_order i = any (λ o. o.id == i)

unfoldable pub has_idempotency_key : Uuid → String → List Order → Bool
has_idempotency_key c k = any (λ o. o.customer_id == c && str_eq o.idempotency_key k)

-- `QueryRow` and `Scan`: the first row, or `pgx.ErrNoRows`.
abbrev pub scan_one : {A : Type 0} → List A → Reply A
scan_one [] = err no_rows
scan_one (x ∷ xs) = ok x
