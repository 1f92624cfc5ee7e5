-- ===== src/Db/World.antt =====
-- What the program finds outside: the tables, and at each use of it a clock, a source of uuids, the
-- rows that others have locked, and the driver, which may fail. A use takes the number `step`.
pub mod Answers
use oms_go.Prelude.{ℕ, suc, Bool}
use oms_go.Prelude.Exec.{Exec, err}
use oms_go.Db.Models.{Uuid, Timestamp}
use oms_go.Db.Tables.{Tables, DbError, connection, Statement}

-- `unconfirmed`: the server did the work, and the answer was lost.
pub data Fault : Type 0 where
  fine lost unconfirmed : Fault

pub record World : Type 0 where
  pub tables : Tables
  pub step : ℕ
  pub now : Timestamp
  pub time_at : ℕ → Timestamp
  pub uuid_at : ℕ → Uuid
  pub locked_at : ℕ → Uuid → Bool
  pub fault_at : ℕ → Fault

abbrev pub Action : Type 0 → Type 0
Action A = Exec World DbError A

abbrev pub advance : World → World
advance w = record w { step = suc w.step }

-- `uuid.New()`.
unfoldable pub new_uuid : World → Uuid × World
new_uuid w = (w.uuid_at w.step, advance w)

abbrev after : {A : Type 0} → World → A × Tables → A × World
after w (r, t) = (r, record w { tables = t; step = suc w.step })

-- One statement sent over the connection. Outside a transaction the program only reads, so an answer
-- that is lost leaves the tables as they were; inside one the rollback does.
unfoldable pub run_query : {A : Type 0} → (Timestamp → (Uuid → Bool) → Statement A) → Action A
run_query q w = elim (w.fault_at w.step) [
  | fine ↦ after w (q w.now (w.locked_at w.step) w.tables)
  | _ ↦ (err connection, advance w)
]
