-- ===== src/Process/Steps.antt =====
-- cmd/api/main.go: what the goroutines and `main` keep to.
use oms_go.Prelude.{ℕ, ◌+◌, ◌≤◌, ◌<◌, ◌≡◌, refl, Bool, true, false, Option, arith}
use oms_go.Prelude.Int.{ℤ}
use oms_go.Prelude.Exec.{Result, ok, err}
use oms_go.Orders.Worker.{WorkerService, Worker, RunError, returned, run}
use oms_go.Orders.Worker.Steps.{Inv as WorkerInv, Move-Inv, Inv-init}
use oms_go.Orders.Worker.Ends.{still-cancelled}
use oms_go.Process.{
  Main, selecting, cancelling, closing, shutting_down, waiting, returning, exited, Serving,
  listening, failing, ended, Running, running, refused, Process, Step, signal, accept, break,
  answer, stop_serving, send_serving, work, stop_running, send_running, receive, notice, cancel,
  shut, drained, timed_out, joined, close, launched, channel_size, Reach, start, later, IsAccepting,
  at_select, at_cancel, at_close,
}

-- The errors that a goroutine may still send.
abbrev pub owed : Serving → ℕ
owed listening = 1
owed failing = 1
owed ended = 0

abbrev pub due : Running → ℕ
due running = 1
due refused = 1
due Running.ended = 0

abbrev pub is_running : Running → Bool
is_running running = true
is_running refused = false
is_running Running.ended = false

abbrev pub is_cancelled : Main → Bool
is_cancelled selecting = false
is_cancelled cancelling = false
is_cancelled closing = true
is_cancelled shutting_down = true
is_cancelled waiting = true
is_cancelled (returning clean) = true
is_cancelled (exited clean) = true

abbrev pub is_drained : Main → Bool
is_drained selecting = false
is_drained cancelling = false
is_drained closing = false
is_drained shutting_down = false
is_drained waiting = true
is_drained (returning clean) = clean
is_drained (exited clean) = clean

abbrev pub is_joined : Main → Bool
is_joined selecting = false
is_joined cancelling = false
is_joined closing = false
is_joined shutting_down = false
is_joined waiting = false
is_joined (returning clean) = clean
is_joined (exited clean) = clean

abbrev pub is_out : Main → Bool
is_out selecting = false
is_out cancelling = false
is_out closing = false
is_out shutting_down = false
is_out waiting = false
is_out (returning clean) = false
is_out (exited clean) = true

pub record Inv (s : Process) : Type 0 where
  pub few : s.errors + owed s.serving + due s.running ≤ 2
  pub quiet : is_running s.running ≡ false → s.worker.loop ≡ returned
  pub context : is_cancelled s.main ≡ true → s.worker.cancelled ≡ true
  pub heard : s.signalled ≡ true → s.worker.cancelled ≡ true
  pub no_request : is_drained s.main ≡ true → s.requests ≡ 0
  pub served : is_joined s.main ≡ true → s.serving ≡ ended
  pub ran : is_joined s.main ≡ true → s.running ≡ Running.ended
  pub pool : is_out s.main ≡ false → s.pool_open ≡ true
  pub worker : WorkerInv s.worker

IsAccepting-undrained : (m : Main) → IsAccepting m → is_drained m ≡ false
IsAccepting-undrained _ at_select = refl
IsAccepting-undrained _ at_cancel = refl
IsAccepting-undrained _ at_close = refl

pub Step-Inv : {s t : Process} → Step s t → Inv s → Inv t
Step-Inv signal inv = ground arith
Step-Inv (accept l a) inv = ground (arith, IsAccepting-undrained _ a)
Step-Inv (break l) inv = ground arith
Step-Inv (answer n r) inv = ground arith
Step-Inv (stop_serving l h) inv = ground arith
Step-Inv (send_serving l room) inv = ground arith
Step-Inv (work r m) inv = ground (arith, Move-Inv m inv.worker, still-cancelled m)
Step-Inv (stop_running r l) inv = ground arith
Step-Inv (send_running r room) inv = ground arith
Step-Inv (receive n m e) inv = ground arith
Step-Inv (notice m e) inv = ground arith
Step-Inv (cancel m) inv = ground arith
Step-Inv (shut m) inv = ground arith
Step-Inv (drained m r) inv = ground arith
Step-Inv (timed_out m) inv = ground arith
Step-Inv (joined m h r) inv = ground arith
Step-Inv (close clean m) inv = ground arith

Inv-launched :
    (r : Result RunError Worker) → ((w : Worker) → r ≡ ok w → WorkerInv w) → Inv (launched r)
unfolding launched
Inv-launched (ok w) inv = record {
  few = omega arith;
  quiet = λ e. cc;
  context = λ e. cc;
  heard = λ e. cc;
  no_request = λ e. refl;
  served = λ e. cc;
  ran = λ e. cc;
  pool = λ e. refl;
  worker = inv w refl;
}
Inv-launched (err e) inv = ground arith

pub Reach-Inv :
    {S : Type 0} {service : Option (WorkerService S)} {n : ℤ} {s : Process}
    → Reach service n s
    → Inv s
Reach-Inv {S} {service} {n} start = Inv-launched (run service n) (λ w e. Inv-init service n w e)
Reach-Inv (later r k) = Step-Inv k (Reach-Inv r)

exited_of_out : (m : Main) → is_out m ≡ true → (clean : Bool) × (m ≡ exited clean)
exited_of_out selecting h = absurd (cc)
exited_of_out cancelling h = absurd (cc)
exited_of_out closing h = absurd (cc)
exited_of_out shutting_down h = absurd (cc)
exited_of_out waiting h = absurd (cc)
exited_of_out (returning clean) h = absurd (cc)
exited_of_out (exited clean) h = (clean, refl)

-- In whatever order things happen: a goroutine that has an error to send finds room in `runErrCh`, so that
-- it never blocks there; when `main` has ended after "http server stopped cleanly", no request is in
-- service, both goroutines have ended, and no run of the worker is left; and the pool is open until `main`
-- ends.
pub Reach-clean :
    {S : Type 0} {service : Option (WorkerService S)} {n : ℤ} {s : Process}
    → Reach service n s
    → ((s.serving ≡ failing → s.errors < channel_size)
        × (s.running ≡ refused → s.errors < channel_size))
      × (s.main ≡ exited true
          → (s.requests ≡ 0)
            × (s.serving ≡ ended)
            × (s.running ≡ Running.ended)
            × (s.worker.in_service ≡ 0)
            × (s.worker.leaving ≡ 0))
      × (s.pool_open ≡ false → (clean : Bool) × (s.main ≡ exited clean))
Reach-clean {s = s} r =
    let inv = Reach-Inv r in
    (
      (λ e. ground (arith), λ e. ground (arith)),
      λ e. ground arith,
      λ e. exited_of_out s.main (ground arith),
    )
