-- ===== src/Orders/Transaction/Laws.antt =====
-- internal/orders/repository.go: `withTx`, whatever fails.
use oms_go.Prelude.{◌≡◌, refl, ap, sym, ◌∙◌}
use oms_go.Prelude.Exec.{Result, ok, err}
use oms_go.Db.Tables.{Tables, DbError, connection}
use oms_go.Db.World.{World, Action, Fault, fine, lost, unconfirmed}
use oms_go.Orders.Transaction.{with_tx, begin_tx, end_tx, within, commit}

-- All of the body's work is kept, or none of it is.
pub data Atomic {A : Type 0} (before : Tables) (body after : Result DbError A × World)
    : Type 0 where
  committed :
      (a : A)
      → body.0 ≡ ok a
      → after.0 ≡ ok a
      → after.1.tables ≡ body.1.tables
      → Atomic before body after
  body_failed :
      (e : DbError)
      → body.0 ≡ err e
      → after.0 ≡ err e
      → after.1.tables ≡ before
      → Atomic before body after
  refused : after.0 ≡ err connection → after.1.tables ≡ before → Atomic before body after
  in_doubt :
      (a : A)
      → body.0 ≡ ok a
      → after.0 ≡ err connection
      → after.1.tables ≡ body.1.tables
      → Atomic before body after

commit-Atomic :
    {A : Type 0} (before : Tables) (a : A) (w : World) (f : Fault)
    → w.fault_at w.step ≡ f
    → Atomic before (ok a, w) (commit before a w)
unfolding commit
commit-Atomic before a w fine e = rw (e, commit) (committed a refl refl refl)
commit-Atomic before a w lost e = rw (e, commit) (refused refl refl)
commit-Atomic before a w unconfirmed e = rw (e, commit) (in_doubt a refl refl refl)

within-Atomic :
    {A : Type 0} (before : Tables) (b : Result DbError A × World)
    → Atomic before b (within before b)
unfolding within end_tx
within-Atomic before (ok a, w) = commit-Atomic before a w (w.fault_at w.step) refl
within-Atomic before (err e, w) = body_failed e refl refl refl

-- Whatever fails, `withTx` keeps all of the body's work or none of it: all if it returns the body's
-- result, and otherwise only where the commit was done and its answer lost; a failure of the body is
-- returned as it is, and leaves the tables as they were.
pub with_tx-Atomic :
    {A : Type 0} (fn : Action A) (w : World) → Atomic w.tables (fn (begin_tx w)) (with_tx fn w)
unfolding with_tx
with_tx-Atomic fn w = go (w.fault_at w.step) refl
  where
    go : (f : Fault) → w.fault_at w.step ≡ f → Atomic w.tables (fn (begin_tx w)) (with_tx fn w)
    go fine e = rw (e, with_tx) (within-Atomic w.tables (fn (begin_tx w)))
    go lost e = rw (e, with_tx) (refused refl refl)
    go unconfirmed e = rw (e, with_tx) (refused refl refl)

-- An answer without an error is the body's, and its work is there.
pub with_tx-ok :
    {A : Type 0} (fn : Action A) (w : World) {a : A} {w' : World}
    → with_tx fn w ≡ (ok a, w')
    → (w1 : World) × (fn (begin_tx w) ≡ (ok a, w1)) × (w'.tables ≡ w1.tables)
with_tx-ok {A} fn w {a} {w'} h = go (fn (begin_tx w)) refl (with_tx-Atomic fn w)
  where
    first : (with_tx fn w).0 ≡ ok a
    first = ap (λ (x : Result DbError A × World). x.0) h

    second : (with_tx fn w).1.tables ≡ w'.tables
    second = ap (λ (x : Result DbError A × World). x.1.tables) h

    go :
        (b : Result DbError A × World)
        → fn (begin_tx w) ≡ b
        → Atomic w.tables b (with_tx fn w)
        → (w1 : World) × (fn (begin_tx w) ≡ (ok a, w1)) × (w'.tables ≡ w1.tables)
    go (r, w1) e (committed x p q same) =
        (w1, e ∙ (λ i. ((p ∙ (sym q ∙ first)) i, w1)), sym second ∙ same)
    go (r, w1) e (body_failed x p q same) = absurd (cc)
    go (r, w1) e (refused q same) = absurd (cc)
    go (r, w1) e (in_doubt x p q same) = absurd (cc)

-- What holds before a transaction, and after a body that succeeded, holds afterwards.
pub with_tx_keeps :
    {A : Type 0} (P : Tables → Type 0) (fn : Action A) (w : World)
    → P w.tables
    → ((a : A) (w' : World) → fn (begin_tx w) ≡ (ok a, w') → P w'.tables)
    → P (with_tx fn w).1.tables
with_tx_keeps {A} P fn w before body = go (fn (begin_tx w)) refl (with_tx-Atomic fn w)
  where
    kept :
        (r : Result DbError A) (w' : World) (a : A)
        → fn (begin_tx w) ≡ (r, w')
        → r ≡ ok a
        → P w'.tables
    kept r w' a e q = body a w' (rw q at e)

    go :
        (b : Result DbError A × World)
        → fn (begin_tx w) ≡ b
        → Atomic w.tables b (with_tx fn w)
        → P (with_tx fn w).1.tables
    go (r, w') e (committed a q _ same) = rw same (kept r w' a e q)
    go (r, w') e (body_failed _ _ _ same) = rw same before
    go (r, w') e (refused _ same) = rw same before
    go (r, w') e (in_doubt a q _ same) = rw same (kept r w' a e q)
