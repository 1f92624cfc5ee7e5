-- ===== src/Orders/Worker/Ends.antt =====
-- internal/orders/worker.go: how many runs there are at one time, and how `Run` ends.
use oms_go.Prelude.{
  ℕ, zero, suc, ◌+◌, ◌*◌, ◌≤◌, ◌<◌, ◌≡◌, ◌⊎◌, refl, ap, Bool-cases, inl, inr, true, Option, arith,
}
use oms_go.Prelude.Int.{ℤ}
use oms_go.Orders.Worker.{
  WorkerService, Loop, selecting, ticked, swapped, added, waiting, returned, Worker, Move, done,
  tick, skip, swap, add, go, finish, leave, wait, Reach,
}
use oms_go.Orders.Worker.Steps.{Inv, flag-le, counted, Move-Inv, Reach-Inv}

-- However the loop, its runs, the ticker and the context take turns: at most one run is in the service at
-- a time, and when `Run` has returned, no run of it is there any more, neither in the service nor leaving.
pub Reach-single :
    {S : Type 0} {service : Option (WorkerService S)} {batch_size : ℤ} {s : Worker}
    → Reach service batch_size s
    → (s.in_service ≤ 1) × (s.loop ≡ returned → (s.in_service ≡ 0) × (s.leaving ≡ 0))
Reach-single {s = s} r =
    let inv = Reach-Inv r in
    (
      omega (arith, inv.one, flag-le s.is_running),
      λ e. (omega (arith, inv.all, inv.over e), omega (arith, inv.all, inv.over e)),
    )

-- A bound for the moves that are left, if no more tick is taken.
abbrev rank : Loop → ℕ
rank returned = 0
rank waiting = 1
rank selecting = 2
rank added = 5
rank swapped = 6
rank ticked = 7

abbrev pub moves_left : Worker → ℕ
moves_left s = 2 * s.in_service + s.leaving + rank s.loop

abbrev pub IsTick : {s t : Worker} → Move s t → Type 0
IsTick (tick l) = Unit
IsTick (done l c) = ⊥
IsTick (skip l r) = ⊥
IsTick (swap l r) = ⊥
IsTick (add l) = ⊥
IsTick (go l) = ⊥
IsTick (finish n i) = ⊥
IsTick (leave n k l a) = ⊥
IsTick (wait l a) = ⊥

-- Every sequence of moves without a tick ends after at most n of them, and it ends only where `Run` has
-- returned.
pub data Returns : ℕ → Worker → Type 0 where
  over : (n : ℕ) (s : Worker) → s.loop ≡ returned → Returns n s
  next :
      (n : ℕ) (s t : Worker) (m : Move s t)
      → ¬ IsTick m
      → ((u : Worker) (k : Move s u) → ¬ IsTick k → Returns n u)
      → Returns (suc n) s

pub ℕ-cases : (n : ℕ) → (n ≡ 0) ⊎ ((k : ℕ) × (n ≡ suc k))
ℕ-cases zero = inl refl
ℕ-cases (suc k) = inr (k, refl)

rank-zero : (l : Loop) → rank l ≡ 0 → l ≡ returned
rank-zero returned h = refl
rank-zero waiting h = absurd (omega (arith, h))
rank-zero selecting h = absurd (omega (arith, h))
rank-zero added h = absurd (omega (arith, h))
rank-zero swapped h = absurd (omega (arith, h))
rank-zero ticked h = absurd (omega (arith, h))

pub fewer : {s t : Worker} (m : Move s t) → ¬ IsTick m → moves_left t < moves_left s
fewer (tick l) k = absurd (k tt)
fewer (done l c) k = omega (arith, ap rank l)
fewer (skip l r) k = omega (arith, ap rank l)
fewer (swap l r) k = omega (arith, ap rank l)
fewer (add l) k = omega (arith, ap rank l)
fewer (go l) k = omega (arith, ap rank l)
fewer (finish n i) k = omega (arith, i)
fewer (leave n j l a) k = omega (arith, l)
fewer (wait l a) k = omega (arith, ap rank l)

pub still-cancelled : {s t : Worker} → Move s t → s.cancelled ≡ true → t.cancelled ≡ true
still-cancelled (done l c) h = h
still-cancelled (tick l) h = h
still-cancelled (skip l r) h = h
still-cancelled (swap l r) h = h
still-cancelled (add l) h = h
still-cancelled (go l) h = h
still-cancelled (finish n i) h = h
still-cancelled (leave n k l a) h = h
still-cancelled (wait l a) h = h

-- While `Run` waits for its runs.
move_on : (s : Worker) → Inv s → s.loop ≡ waiting → (t : Worker) × (m : Move s t) × (¬ IsTick m)
move_on s inv l = elim (ℕ-cases s.leaving) [
  | inr (n, leaving) ↦
      let (k, active) = positive s.active_runs (omega (arith, inv.all, leaving)) in
      (_, leave n k leaving active, λ e. e)
  | inl none_leaving ↦ elim (ℕ-cases s.in_service) [
    | inr (n, running) ↦ (_, finish n running, λ e. e)
    | inl none_running ↦
        (_, wait l (omega (arith, inv.all, none_leaving, none_running, ap counted l)), λ e. e)
  ]
]
  where
    positive : (n : ℕ) → 0 < n → (k : ℕ) × (n ≡ suc k)
    positive zero h = absurd (omega (arith, h))
    positive (suc k) h = (k, refl)

pub can_move :
    (s : Worker)
    → Inv s
    → s.cancelled ≡ true
    → (s.loop ≡ returned) ⊎ ((t : Worker) × (m : Move s t) × (¬ IsTick m))
can_move s inv cancelled = by_loop s.loop refl
  where
    by_loop :
        (l : Loop)
        → s.loop ≡ l
        → (s.loop ≡ returned) ⊎ ((t : Worker) × (m : Move s t) × (¬ IsTick m))
    by_loop selecting l = inr (_, done l cancelled, λ e. e)
    by_loop ticked l = elim (Bool-cases s.is_running) [
      | inl running ↦ inr (_, skip l running, λ e. e)
      | inr idle ↦ inr (_, swap l idle, λ e. e)
    ]
    by_loop swapped l = inr (_, add l, λ e. e)
    by_loop added l = inr (_, go l, λ e. e)
    by_loop waiting l = inr (move_on s inv l)
    by_loop returned l = inl l

returns : (n : ℕ) (s : Worker) → Inv s → s.cancelled ≡ true → moves_left s ≤ n → Returns n s
returns zero s inv cancelled few = over 0 s (rank-zero s.loop (omega arith))
returns (suc n) s inv cancelled few = elim (can_move s inv cancelled) [
  | inl e ↦ over (suc n) s e
  | inr (t, m, quiet) ↦ next n s t m quiet (λ u k q.
      returns n u (Move-Inv k inv) (still-cancelled k cancelled) (omega (arith, fewer k q, few)))
]

-- From every state that the worker reaches, once the context is cancelled, and in whatever order the loop
-- and its runs take turns: if no more tick is taken, then within `moves_left` moves `Run` returns, and
-- until then there is always a move to make, a run's return from the service included.
pub Reach-Returns :
    {S : Type 0} {service : Option (WorkerService S)} {batch_size : ℤ} (s : Worker)
    → Reach service batch_size s
    → s.cancelled ≡ true
    → Returns (moves_left s) s
Reach-Returns s r cancelled = returns (moves_left s) s (Reach-Inv r) cancelled (omega arith)
