-- ===== src/Db/Tables.antt =====
-- The three tables of the schema, newest row first, with what a statement reports: rows, no row, or
-- an error of the server. `pg_error` has the SQLSTATE code and the constraint's name, as
-- `pgconn.PgError` has; `connection` stands for any other failure of the driver.
use oms_go.Prelude.{String, List}
use oms_go.Prelude.Exec.{Result, Exec, raise}
use oms_go.Db.Models.{Order, OrderEvent, OrderItem}

pub record Tables : Type 0 where
  pub orders : List Order
  pub order_items : List OrderItem
  pub order_events : List OrderEvent

pub data DbError : Type 0 where
  no_rows : DbError
  pg_error : String → String → DbError
  connection : DbError

abbrev pub Reply : Type 0 → Type 0
Reply A = Result DbError A

-- A statement that fails changes nothing.
abbrev pub Statement : Type 0 → Type 0
Statement A = Exec Tables DbError A

abbrev pub reject : {A : Type 0} → DbError → Statement A
reject = raise
