-- ===== src/Platform/Config/BatchSize.antt =====
-- internal/platform/config.go: WORKER_BATCH_SIZE and the worker that gets it.
use oms_go.Prelude.{
  ℕ, ◌≡◌, ◌≤◌, ◌^◌, refl, Bool-cases, true, false, inl, inr, ap, none, some, String, str_eq, eq_iff,
  arith,
}
use oms_go.Prelude.Int.{ℤ, pos, wrap32, ltb_ℤ}
use oms_go.Prelude.Numbers.{atoi}
use oms_go.Prelude.Exec.{ok, err}
use oms_go.Orders.Worker.{WorkerService, run, batch_size_not_positive}
use oms_go.Platform.Config.{worker_batch_size_env, batch_size_of}

atoi-nil : atoi "" ≡ none
unfolding atoi
atoi-nil = refl

wrap32-wraps : (n : ℕ) → 2 ^ 31 ≤ n → n ≤ 2 ^ 32 → ltb_ℤ (wrap32 (pos n)) (pos 1) ≡ true
unfolding wrap32
wrap32-wraps n low high = ground arith

-- A batch size that `strconv.Atoi` reads, from 2147483648 to 4294967296, is accepted as a positive
-- integer, and the worker that is given it refuses to run since it is not positive.
pub worker_batch_size_env-run :
    {S : Type 0} (getenv : String → String) (n : ℕ) (service : WorkerService S)
    → atoi (getenv "WORKER_BATCH_SIZE") ≡ some (pos n)
    → 2 ^ 31 ≤ n
    → n ≤ 2 ^ 32
    → (b : ℤ) × (worker_batch_size_env getenv ≡ ok b)
      × (run (some service) b ≡ err batch_size_not_positive)
unfolding worker_batch_size_env batch_size_of run
worker_batch_size_env-run getenv n service read low high =
    let big : ltb_ℤ (pos n) (pos 1) ≡ false = ground arith in
    (
      wrap32 (pos n),
      elim (Bool-cases (str_eq (getenv "WORKER_BATCH_SIZE") "")) [
        | inl empty ↦
            let unset = ap atoi ((eq_iff (getenv "WORKER_BATCH_SIZE") "").0 empty) in
            absurd (cc (unset, atoi-nil, read))
        | inr full ↦ rw (full, read) (rw big refl)
      ],
      rw (wrap32-wraps n low high) refl,
    )
