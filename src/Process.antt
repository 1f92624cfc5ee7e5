-- ===== src/Process.antt =====
-- cmd/api/main.go: `main` from the start of its two goroutines to its end. The goroutines, the requests in
-- service, the worker's own moves and the signal are interleaved in any order. `ListenAndServe` and
-- `Shutdown` of net/http are taken by their documentation: once `Shutdown` is called no request is
-- accepted and `ListenAndServe` returns ErrServerClosed; `Shutdown` returns nil when no request is left, or
-- the error of its context at the timeout. What is logged is left out, but for the last line.
pub mod Steps
pub mod Ends
pub mod Start
use oms_go.Prelude.{ℕ, suc, ◌<◌, ◌≡◌, ◌⊎◌, Bool, true, false, Option, none, some}
use oms_go.Prelude.Int.{ℤ}
use oms_go.Prelude.Exec.{Result, ok, err}
use oms_go.Orders.Worker.{WorkerService, Worker, RunError, Move, returned, run}

-- Where `main` stands: at its select, before `cancel()`, before `Shutdown`, in `Shutdown`, at `wg.Wait`, on
-- its way out through the deferred calls, after "http server stopped cleanly" or not, and at its end.
pub data Main : Type 0 where
  selecting cancelling closing shutting_down waiting : Main
  returning : Bool → Main
  exited : Bool → Main

-- The goroutine of the server: in `ListenAndServe`, with an error other than ErrServerClosed to send, or done.
pub data Serving : Type 0 where
  listening failing ended : Serving

-- The goroutine of the worker: in `Run`, with an error of `Run` to send, or done.
pub data Running : Type 0 where
  running refused ended : Running

-- `errors` are those in `runErrCh`; `worker.cancelled` says that `appCtx` is done.
pub record Process : Type 0 where
  pub main : Main
  pub signalled : Bool
  pub errors : ℕ
  pub serving : Serving
  pub requests : ℕ
  pub running : Running
  pub worker : Worker
  pub pool_open : Bool

abbrev pub channel_size : ℕ
channel_size = 2

abbrev pub cancel_context : Worker → Worker
cancel_context w = record w { cancelled = true }

-- A worker that has refused to run has started nothing.
abbrev idle : Worker
idle = record {
  loop = returned;
  is_running = false;
  active_runs = 0;
  in_service = 0;
  leaving = 0;
  cancelled = false;
}

abbrev pub process : Running → Worker → Process
process routine w = record {
  main = selecting;
  signalled = false;
  errors = 0;
  serving = listening;
  requests = 0;
  running = routine;
  worker = w;
  pool_open = true;
}

unfoldable pub launched : Result RunError Worker → Process
launched (ok w) = process running w
launched (err e) = process refused idle

-- `server.Shutdown` has been called.
pub data IsShut : Main → Type 0 where
  in_shutdown : IsShut shutting_down
  at_wait : IsShut waiting
  on_return : (clean : Bool) → IsShut (returning clean)
  at_end : (clean : Bool) → IsShut (exited clean)

-- Whether the next request can be accepted.
pub data IsAccepting : Main → Type 0 where
  at_select : IsAccepting selecting
  at_cancel : IsAccepting cancelling
  at_close : IsAccepting closing

pub data Step (s : Process) : Process → Type 0 where
  -- From outside: a signal, a request, a failure of the listener.
  signal : Step s (record s { signalled = true; worker = cancel_context s.worker })
  accept :
      s.serving ≡ listening → IsAccepting s.main → Step s (record s { requests = suc s.requests })
  break : s.serving ≡ listening → Step s (record s { serving = failing })
  -- The goroutine of the server.
  answer : (n : ℕ) → s.requests ≡ suc n → Step s (record s { requests = n })
  stop_serving : s.serving ≡ listening → IsShut s.main → Step s (record s { serving = ended })
  send_serving :
      s.serving ≡ failing
      → s.errors < channel_size
      → Step s (record s { serving = ended; errors = suc s.errors })
  -- The goroutine of the worker.
  work : {w : Worker} → s.running ≡ running → Move s.worker w → Step s (record s { worker = w })
  stop_running :
      s.running ≡ running → s.worker.loop ≡ returned → Step s (record s { running = ended })
  send_running :
      s.running ≡ refused
      → s.errors < channel_size
      → Step s (record s { running = ended; errors = suc s.errors })
  -- `main`.
  receive :
      (n : ℕ)
      → s.main ≡ selecting
      → s.errors ≡ suc n
      → Step s (record s { main = cancelling; errors = n })
  notice : s.main ≡ selecting → s.signalled ≡ true → Step s (record s { main = cancelling })
  cancel :
      s.main ≡ cancelling → Step s (record s { main = closing; worker = cancel_context s.worker })
  shut : s.main ≡ closing → Step s (record s { main = shutting_down })
  drained : s.main ≡ shutting_down → s.requests ≡ 0 → Step s (record s { main = waiting })
  timed_out : s.main ≡ shutting_down → Step s (record s { main = returning false })
  joined :
      s.main ≡ waiting
      → s.serving ≡ ended
      → s.running ≡ ended
      → Step s (record s { main = returning true })
  close :
      (clean : Bool)
      → s.main ≡ returning clean
      → Step s (record s { main = exited clean; pool_open = false })

pub data Reach {S : Type 0} (service : Option (WorkerService S)) (batch_size : ℤ)
    : Process → Type 0 where
  start : Reach service batch_size (launched (run service batch_size))
  later : {s t : Process} → Reach service batch_size s → Step s t → Reach service batch_size t
