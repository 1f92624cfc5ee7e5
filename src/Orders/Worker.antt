-- ===== src/Orders/Worker.antt =====
-- internal/orders/worker.go: `Run`, its goroutines and `runOnce`. The loop, the runs that it starts and
-- the context are interleaved in any order; the ticker may tick at any time. What is logged on the way
-- is left out, but for the outcome of a run.
pub mod Steps
pub mod Ends
use oms_go.Prelude.{
  ℕ, suc, ◌+◌, ◌≡◌, Bool, true, false, Option, none, some, List, length, if◌then◌else◌,
}
use oms_go.Prelude.Int.{ℤ, pos, ltb_ℤ}
use oms_go.Prelude.Exec.{Result, ok, err, Exec}
use oms_go.Db.Models.{Order}
use oms_go.Orders.Errors.{Error}
use oms_go.Orders.Interface.{ProcessPendingOrdersBatchInput}

-- The interface `workerService`.
pub record WorkerService (S : Type 0) : Type 0 where
  pub process_pending_orders_batch : ProcessPendingOrdersBatchInput → Exec S Error (List Order)

-- What `runOnce` logs at its end.
pub data Outcome : Type 0 where
  canceled : Outcome
  failed : Error → Outcome
  completed : ℕ → Outcome

outcome_of : Bool → Result Error (List Order) → Outcome
outcome_of context_done (err e) = if context_done then canceled else failed e
outcome_of context_done (ok orders) = completed (length orders)

-- `context_done` says whether `ctx.Err()` is not nil after the call.
unfoldable pub run_once : {S : Type 0} → WorkerService S → ℤ → (S → Bool) → S → Outcome × S
unfolding outcome_of
run_once service batch_size context_done s =
    let (orders, s') =
      service.process_pending_orders_batch
        (record { limit = batch_size; actor_id = none; reason = none; ip_address = none }) s in
    (outcome_of (context_done s') orders, s')

-- Where the loop stands: at the select, with a tick received, with isRunning swapped, with the run added
-- to activeRuns, at `activeRuns.Wait`, or returned.
pub data Loop : Type 0 where
  selecting ticked swapped added waiting returned : Loop

-- `in_service` goroutines are in `runOnce`; `leaving` ones have set isRunning back, and have not told
-- activeRuns yet.
pub record Worker : Type 0 where
  pub loop : Loop
  pub is_running : Bool
  pub active_runs : ℕ
  pub in_service : ℕ
  pub leaving : ℕ
  pub cancelled : Bool

pub data RunError : Type 0 where
  service_required batch_size_not_positive : RunError

-- `Run`, up to its loop.
unfoldable pub run : {S : Type 0} → Option (WorkerService S) → ℤ → Result RunError Worker
run none batch_size = err service_required
run (some service) batch_size =
    if ltb_ℤ batch_size (pos 1)
    then err batch_size_not_positive
    else ok (record {
      loop = selecting;
      is_running = false;
      active_runs = 0;
      in_service = 0;
      leaving = 0;
      cancelled = false;
    })

-- A step of the loop or of a run.
pub data Move (s : Worker) : Worker → Type 0 where
  done : s.loop ≡ selecting → s.cancelled ≡ true → Move s (record s { loop = waiting })
  tick : s.loop ≡ selecting → Move s (record s { loop = ticked })
  skip : s.loop ≡ ticked → s.is_running ≡ true → Move s (record s { loop = selecting })
  swap :
      s.loop ≡ ticked
      → s.is_running ≡ false
      → Move s (record s { loop = swapped; is_running = true })
  add : s.loop ≡ swapped → Move s (record s { loop = added; active_runs = suc s.active_runs })
  go : s.loop ≡ added → Move s (record s { loop = selecting; in_service = suc s.in_service })
  finish :
      (n : ℕ)
      → s.in_service ≡ suc n
      → Move s (record s { is_running = false; in_service = n; leaving = suc s.leaving })
  leave :
      (n k : ℕ)
      → s.leaving ≡ suc n
      → s.active_runs ≡ suc k
      → Move s (record s { leaving = n; active_runs = k })
  wait : s.loop ≡ waiting → s.active_runs ≡ 0 → Move s (record s { loop = returned })

-- The context is cancelled from outside.
pub data Step (s : Worker) : Worker → Type 0 where
  move : {t : Worker} → Move s t → Step s t
  cancel : Step s (record s { cancelled = true })

pub data Reach {S : Type 0} (service : Option (WorkerService S)) (batch_size : ℤ)
    : Worker → Type 0 where
  start : (s : Worker) → run service batch_size ≡ ok s → Reach service batch_size s
  later : {s t : Worker} → Reach service batch_size s → Step s t → Reach service batch_size t
