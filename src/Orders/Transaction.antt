-- ===== src/Orders/Transaction.antt =====
-- internal/orders/repository.go: `withTx`, over a connection that may fail at each step.
pub mod Laws
pub mod Outcomes
use oms_go.Prelude.{suc}
use oms_go.Prelude.Exec.{Result, ok, err}
use oms_go.Db.Models.{Uuid}
use oms_go.Db.Tables.{Tables, DbError, connection}
use oms_go.Db.World.{World, Action, fine, lost, unconfirmed, advance, new_uuid}

-- `BeginTx`: now() stands still from here to the end of the transaction.
abbrev pub begin_tx : World → World
begin_tx w = record w { step = suc w.step; now = w.time_at w.step }

abbrev pub roll_back : Tables → World → World
roll_back t w = record w { tables = t; step = suc w.step }

-- What `Commit` leaves, of the tables `before` the transaction and those of `w`.
commit : {A : Type 0} → Tables → A → Action A
commit before a w = elim (w.fault_at w.step) [
  | fine ↦ (ok a, advance w)
  | lost ↦ (err connection, roll_back before w)
  | unconfirmed ↦ (err connection, advance w)
]

-- The end of the transaction: the deferred rollback, unless it was committed.
end_tx : {A : Type 0} → Tables → Result DbError A → Action A
end_tx before (ok a) w = commit before a w
end_tx before (err e) w = (err e, roll_back before w)

within : {A : Type 0} → Tables → Result DbError A × World → Result DbError A × World
within before (r, w) = end_tx before r w

unfoldable pub with_tx : {A : Type 0} → Action A → Action A
unfolding commit end_tx within
with_tx fn w = elim (w.fault_at w.step) [
  | fine ↦ within w.tables (fn (begin_tx w))
  | _ ↦ (err connection, advance w)
]

-- `uuid.New()` within a block.
abbrev pub draw_uuid : Action Uuid
draw_uuid w = let (u, w') = new_uuid w in (ok u, w')
