-- ===== src/Orders/Worker/Steps.antt =====
-- internal/orders/worker.go: the runs that are there at one time, and the end of `Run`.
use oms_go.Prelude.{
  ℕ, ◌+◌, ◌≤◌, ◌≡◌, refl, sym, ap, ◌≢◌, subst, Bool, Bool-cases, inl, inr, true, false, Option,
  none, some, arith,
}
use oms_go.Prelude.Int.{ℤ, pos, ltb_ℤ}
use oms_go.Prelude.Exec.{ok}
use oms_go.Orders.Worker.{
  WorkerService, Loop, selecting, ticked, swapped, added, waiting, returned, Worker, run, Move,
  done, tick, skip, swap, add, go, finish, leave, wait, move, cancel, Reach, start, later,
}

-- The run that the loop is about to start.
abbrev pub starting : Loop → ℕ
starting selecting = 0
starting ticked = 0
starting swapped = 1
starting added = 1
starting waiting = 0
starting returned = 0

abbrev pub counted : Loop → ℕ
counted selecting = 0
counted ticked = 0
counted swapped = 0
counted added = 1
counted waiting = 0
counted returned = 0

abbrev pub flag : Bool → ℕ
flag true = 1
flag false = 0

pub flag-le : (b : Bool) → flag b ≤ 1
flag-le true = omega arith
flag-le false = omega arith

pub record Inv (s : Worker) : Type 0 where
  pub one : s.in_service + starting s.loop ≡ flag s.is_running
  pub all : s.active_runs ≡ s.in_service + s.leaving + counted s.loop
  pub over : s.loop ≡ returned → s.active_runs ≡ 0

-- A move of the loop alone.
to :
    {s : Worker} (l : Loop)
    → Inv s
    → starting l ≡ starting s.loop
    → counted l ≡ counted s.loop
    → l ≢ returned
    → Inv (record s { loop = l })
to l inv e k n = record {
  one = omega (arith, inv.one, e);
  all = omega (arith, inv.all, k);
  over = λ r. absurd (n r);
}

pub Move-Inv : {s t : Worker} → Move s t → Inv s → Inv t
Move-Inv (done l c) inv = to waiting inv (sym (ap starting l)) (sym (ap counted l)) (λ e. cc)
Move-Inv (tick l) inv = to ticked inv (sym (ap starting l)) (sym (ap counted l)) (λ e. cc)
Move-Inv (skip l r) inv = to selecting inv (sym (ap starting l)) (sym (ap counted l)) (λ e. cc)
Move-Inv (swap l r) inv = record {
  one = omega (arith, inv.one, ap starting l, ap flag r);
  all = omega (arith, inv.all, ap counted l);
  over = λ e. absurd (cc);
}
Move-Inv (add l) inv = record {
  one = omega (arith, inv.one, ap starting l);
  all = omega (arith, inv.all, ap counted l);
  over = λ e. absurd (cc);
}
Move-Inv (go l) inv = record {
  one = omega (arith, inv.one, ap starting l);
  all = omega (arith, inv.all, ap counted l);
  over = λ e. absurd (cc);
}
Move-Inv {s} (finish n i) inv = record {
  one = omega (arith, inv.one, i, flag-le s.is_running);
  all = omega (arith, inv.all, i);
  over = inv.over;
}
Move-Inv (leave n k l a) inv = record {
  one = inv.one;
  all = omega (arith, inv.all, l, a);
  over = λ e. omega (arith, inv.over e, a);
}
Move-Inv (wait l a) inv = record {
  one = omega (arith, inv.one, ap starting l);
  all = omega (arith, inv.all, ap counted l);
  over = λ e. a;
}

pub Inv-init :
    {S : Type 0} (service : Option (WorkerService S)) (n : ℤ) (s : Worker)
    → run service n ≡ ok s
    → Inv s
unfolding run
Inv-init none n s h = absurd (cc)
Inv-init (some service) n s h = elim (Bool-cases (ltb_ℤ n (pos 1))) [
  | inl bad ↦ absurd (cc (rw bad at h))
  | inr good ↦
      let same : record {
        loop = selecting;
        is_running = false;
        active_runs = 0;
        in_service = 0;
        leaving = 0;
        cancelled = false;
      }
          ≡ s =
        cc (rw good at h) in
      subst Inv same (record { one = omega arith; all = omega arith; over = λ e. refl })
]

pub Reach-Inv :
    {S : Type 0} {service : Option (WorkerService S)} {n : ℤ} {s : Worker}
    → Reach service n s
    → Inv s
Reach-Inv {S} {service} {n} (start s e) = Inv-init service n s e
Reach-Inv (later r (move m)) = Move-Inv m (Reach-Inv r)
Reach-Inv (later r cancel) =
    let inv = Reach-Inv r in record { one = inv.one; all = inv.all; over = inv.over }
