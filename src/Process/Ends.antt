-- ===== src/Process/Ends.antt =====
-- cmd/api/main.go: how the process ends.
use oms_go.Prelude.{
  ℕ, zero, suc, ◌+◌, ◌≤◌, ◌<◌, ◌≡◌, ◌⊎◌, inl, inr, refl, ap, sym, subst, Bool, Bool-cases, true,
  false, ◌||◌, not, Option, arith, ◌==◌,
}
use oms_go.Prelude.Int.{ℤ}
use oms_go.Orders.Worker.{WorkerService}
use oms_go.Orders.Worker.Ends.{moves_left, IsTick, fewer, can_move, ℕ-cases}
use oms_go.Process.{
  Main, selecting, cancelling, closing, shutting_down, waiting, returning, exited, Serving,
  listening, failing, ended, Running, running, refused, Process, Step, signal, accept, break,
  answer, stop_serving, send_serving, work, stop_running, send_running, receive, notice, cancel,
  shut, drained, timed_out, joined, close, Reach, IsShut, at_wait,
}
use oms_go.Process.Steps.{Inv, Step-Inv, Reach-Inv}

-- Nothing comes from outside any more: no signal, no request, no tick.
abbrev pub IsOutside : {s t : Process} → Step s t → Type 0
IsOutside signal = Unit
IsOutside (accept l a) = Unit
IsOutside (break l) = ⊥
IsOutside (answer n r) = ⊥
IsOutside (stop_serving l h) = ⊥
IsOutside (send_serving l room) = ⊥
IsOutside (work r m) = IsTick m
IsOutside (stop_running r l) = ⊥
IsOutside (send_running r room) = ⊥
IsOutside (receive n m e) = ⊥
IsOutside (notice m e) = ⊥
IsOutside (cancel m) = ⊥
IsOutside (shut m) = ⊥
IsOutside (drained m r) = ⊥
IsOutside (timed_out m) = ⊥
IsOutside (joined m h r) = ⊥
IsOutside (close clean m) = ⊥

abbrev main_left : Main → ℕ
main_left selecting = 6
main_left cancelling = 5
main_left closing = 4
main_left shutting_down = 3
main_left waiting = 2
main_left (returning clean) = 1
main_left (exited clean) = 0

abbrev serving_left : Serving → ℕ
serving_left listening = 2
serving_left failing = 1
serving_left ended = 0

abbrev running_left : Running → ℕ
running_left running = 1
running_left refused = 1
running_left Running.ended = 0

-- A bound for the steps that are left, if nothing comes from outside.
abbrev pub steps_left : Process → ℕ
steps_left s =
    main_left s.main
    + serving_left s.serving
    + running_left s.running
    + s.requests
    + moves_left s.worker

abbrev is_selecting : Main → Bool
is_selecting selecting = true
is_selecting cancelling = false
is_selecting closing = false
is_selecting shutting_down = false
is_selecting waiting = false
is_selecting (returning clean) = false
is_selecting (exited clean) = false

abbrev is_failing : Serving → Bool
is_failing listening = false
is_failing failing = true
is_failing ended = false

abbrev is_refused : Running → Bool
is_refused running = false
is_refused refused = true
is_refused Running.ended = false

-- A signal has come, or the server or the worker has failed, or `main` has left its select.
abbrev pub is_stopping : Process → Bool
is_stopping s =
    s.signalled
    || not (s.errors == 0)
    || is_failing s.serving
    || is_refused s.running
    || not (is_selecting s.main)

still-stopping : {s t : Process} → Step s t → is_stopping s ≡ true → is_stopping t ≡ true
still-stopping signal h = ground arith
still-stopping (accept l a) h = ground arith
still-stopping (break l) h = ground arith
still-stopping (answer n r) h = ground arith
still-stopping (stop_serving l a) h = ground arith
still-stopping (send_serving l room) h = ground arith
still-stopping (work r m) h = ground arith
still-stopping (stop_running r l) h = ground arith
still-stopping (send_running r room) h = ground arith
still-stopping (receive n m e) h = ground arith
still-stopping (notice m e) h = ground arith
still-stopping (cancel m) h = ground arith
still-stopping (shut m) h = ground arith
still-stopping (drained m r) h = ground arith
still-stopping (timed_out m) h = ground arith
still-stopping (joined m a r) h = ground arith
still-stopping (close clean m) h = ground arith

fewer_left : {s t : Process} (k : Step s t) → ¬ IsOutside k → steps_left t < steps_left s
fewer_left signal q = absurd (q tt)
fewer_left (accept l a) q = absurd (q tt)
fewer_left (break l) q = omega (arith, ap serving_left l)
fewer_left (answer n r) q = omega (arith, r)
fewer_left (stop_serving l a) q = omega (arith, ap serving_left l)
fewer_left (send_serving l room) q = omega (arith, ap serving_left l)
fewer_left (work r m) q = let f = fewer m q in omega (arith, f)
fewer_left (stop_running r l) q = omega (arith, ap running_left r)
fewer_left (send_running r room) q = omega (arith, ap running_left r)
fewer_left (receive n m e) q = omega (arith, ap main_left m)
fewer_left (notice m e) q = omega (arith, ap main_left m)
fewer_left (cancel m) q = omega (arith, ap main_left m)
fewer_left (shut m) q = omega (arith, ap main_left m)
fewer_left (drained m r) q = omega (arith, ap main_left m)
fewer_left (timed_out m) q = omega (arith, ap main_left m)
fewer_left (joined m a r) q = omega (arith, ap main_left m)
fewer_left (close clean m) q = omega (arith, ap main_left m)

-- Every sequence of steps without one from outside ends after at most n of them, and it ends only where
-- `main` has ended.
pub data Ends : ℕ → Process → Type 0 where
  over : (n : ℕ) (s : Process) (clean : Bool) → s.main ≡ exited clean → Ends n s
  next :
      (n : ℕ) (s t : Process) (k : Step s t)
      → ¬ IsOutside k
      → ((u : Process) (l : Step s u) → ¬ IsOutside l → Ends n u)
      → Ends (suc n) s

-- A step that is there.
abbrev Can : Process → Type 0
Can s = (t : Process) × (k : Step s t) × (¬ IsOutside k)

module _ (s : Process) (inv : Inv s) where
  send : s.serving ≡ failing → Can s
  send l = (_, send_serving l (ground arith), λ e. e)

  refuse : s.running ≡ refused → Can s
  refuse r = (_, send_running r (ground arith), λ e. e)

  -- At `wg.Wait`, for the worker.
  await_worker : s.main ≡ waiting → s.serving ≡ ended → (r : Running) → s.running ≡ r → Can s
  await_worker m l Running.ended r = (_, joined m l r, λ e. e)
  await_worker m l refused r = refuse r
  await_worker m l running r = elim (can_move s.worker inv.worker (inv.context (ground arith))) [
    | inl back ↦ (_, stop_running r back, λ e. e)
    | inr (w, k, quiet) ↦ (_, work r k, quiet)
  ]

  -- At `wg.Wait`, for the server.
  await : s.main ≡ waiting → (v : Serving) → s.serving ≡ v → Can s
  await m listening l = (_, stop_serving l (subst IsShut (sym m) at_wait), λ e. e)
  await m failing l = send l
  await m ended l = await_worker m l s.running refl

  wake : s.main ≡ selecting → is_stopping s ≡ true → Can s
  wake m h = elim (Bool-cases s.signalled) [
    | inl signalled ↦ (_, notice m signalled, λ e. e)
    | inr unsignalled ↦ elim (ℕ-cases s.errors) [
      | inr (n, errors) ↦ (_, receive n m errors, λ e. e)
      | inl none_sent ↦ by_failure s.serving refl none_sent unsignalled
    ]
  ]
    where
      by_failure : (v : Serving) → s.serving ≡ v → s.errors ≡ 0 → s.signalled ≡ false → Can s
      by_failure failing l e u = send l
      by_failure listening l e u = refuse (ground arith)
      by_failure ended l e u = refuse (ground arith)

  Can-step : is_stopping s ≡ true → ((clean : Bool) × (s.main ≡ exited clean)) ⊎ Can s
  Can-step h = by_main s.main refl
    where
      by_main : (m : Main) → s.main ≡ m → ((clean : Bool) × (s.main ≡ exited clean)) ⊎ Can s
      by_main selecting m = inr (wake m h)
      by_main cancelling m = inr (_, cancel m, λ e. e)
      by_main closing m = inr (_, shut m, λ e. e)
      by_main shutting_down m = inr (_, timed_out m, λ e. e)
      by_main waiting m = inr (await m s.serving refl)
      by_main (returning clean) m = inr (_, close clean m, λ e. e)
      by_main (exited clean) m = inl (clean, m)

exited_of_none_left : (m : Main) → main_left m ≡ 0 → (clean : Bool) × (m ≡ exited clean)
exited_of_none_left selecting h = absurd (omega (arith, h))
exited_of_none_left cancelling h = absurd (omega (arith, h))
exited_of_none_left closing h = absurd (omega (arith, h))
exited_of_none_left shutting_down h = absurd (omega (arith, h))
exited_of_none_left waiting h = absurd (omega (arith, h))
exited_of_none_left (returning clean) h = absurd (omega (arith, h))
exited_of_none_left (exited clean) h = (clean, refl)

ends : (n : ℕ) (s : Process) → Inv s → is_stopping s ≡ true → steps_left s ≤ n → Ends n s
ends zero s inv h few =
    let (clean, e) = exited_of_none_left s.main (omega arith) in over 0 s clean e
ends (suc n) s inv h few = elim (Can-step s inv h) [
  | inl (clean, e) ↦ over (suc n) s clean e
  | inr (t, k, quiet) ↦
      next n s t k quiet (λ u l q.
        ends n u (Step-Inv l inv) (still-stopping l h) (omega (arith, fewer_left l q, few)))
]

-- From every state that the process reaches, once a signal has come or the server or the worker has
-- failed, and in whatever order the goroutines, the requests in service and `main` take turns: if no more
-- signal, request or tick comes, then within `steps_left` steps `main` ends, and until then there is always
-- a step to make, the answer to a request, a run's return from the service and the timeout of `Shutdown`
-- included.
pub Reach-Ends :
    {S : Type 0} {service : Option (WorkerService S)} {batch_size : ℤ} (s : Process)
    → Reach service batch_size s
    → is_stopping s ≡ true
    → Ends (steps_left s) s
Reach-Ends s r h = ends (steps_left s) s (Reach-Inv r) h (omega arith)
