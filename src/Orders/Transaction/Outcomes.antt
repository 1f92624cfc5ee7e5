-- ===== src/Orders/Transaction/Outcomes.antt =====
-- internal/orders/repository.go: a transaction as one change of the tables, with what its caller is told.
use oms_go.Prelude.{◌≡◌, refl, sym, subst}
use oms_go.Prelude.Exec.{Result, ok, err}
use oms_go.Db.Tables.{Tables, DbError}
use oms_go.Db.World.{World, Action}
use oms_go.Orders.Transaction.{with_tx, begin_tx}
use oms_go.Orders.Transaction.Laws.{
  Atomic, committed, body_failed, refused, in_doubt, with_tx-Atomic,
}

-- The change was made, whatever the answer says, or nothing was done and the answer is an error.
pub data Outcome {E A : Type 0} (Change : Tables → Tables → Type 0) (answer : Result E A)
    (before after : Tables) : Type 0 where
  changed : Change before after → Outcome Change answer before after
  nothing : (e : E) → answer ≡ err e → after ≡ before → Outcome Change answer before after

pub with_tx-Outcome :
    {A : Type 0} (Change : Tables → Tables → Type 0) (fn : Action A) (w : World)
    → ((a : A) (w' : World) → fn (begin_tx w) ≡ (ok a, w') → Change w.tables w'.tables)
    → Outcome Change (with_tx fn w).0 w.tables (with_tx fn w).1.tables
with_tx-Outcome {A} Change fn w body = go (fn (begin_tx w)) refl (with_tx-Atomic fn w)
  where
    made :
        (r : Result DbError A) (w' : World) (a : A)
        → fn (begin_tx w) ≡ (r, w')
        → r ≡ ok a
        → Change w.tables w'.tables
    made r w' a e q = body a w' (rw q at e)

    go :
        (b : Result DbError A × World)
        → fn (begin_tx w) ≡ b
        → Atomic w.tables b (with_tx fn w)
        → Outcome Change (with_tx fn w).0 w.tables (with_tx fn w).1.tables
    go (r, w') e (committed a q _ same) =
        changed (subst (Change w.tables) (sym same) (made r w' a e q))
    go (r, w') e (body_failed x _ answer same) = nothing x answer same
    go (r, w') e (refused answer same) = nothing _ answer same
    go (r, w') e (in_doubt a q _ same) =
        changed (subst (Change w.tables) (sym same) (made r w' a e q))

pub Outcome-map :
    {E A : Type 0} {Change Change' : Tables → Tables → Type 0} {answer : Result E A}
    {before after : Tables}
    → (Change before after → Change' before after)
    → Outcome Change answer before after
    → Outcome Change' answer before after
Outcome-map f (changed c) = changed (f c)
Outcome-map f (nothing e failed same) = nothing e failed same
