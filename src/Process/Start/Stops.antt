-- ===== src/Process/Start/Stops.antt =====
-- cmd/api/main.go: a configuration whose worker refuses to run.
use oms_go.Prelude.{◌≡◌, refl, sym, ap, ◌∙◌, ℕ, ◌^◌, ◌≤◌, Option, some, true, String, str_eq}
use oms_go.Prelude.Int.{ℤ, pos}
use oms_go.Prelude.Numbers.{atoi}
use oms_go.Prelude.Exec.{ok-injective, Result, ok, err, and_then-eq-ok}
use oms_go.Http.{Url}
use oms_go.Orders.Worker.{WorkerService, Worker, RunError, run}
use oms_go.Platform.Variables.{database_url_required}
use oms_go.Platform.Config.{
  Config, worker_batch_size_env, auth_mode_env, load_auth_config, parse_positive_duration_env,
  load_config,
}
use oms_go.Platform.Config.Usable.{refuse_if-ok}
use oms_go.Platform.Config.BatchSize.{worker_batch_size_env-run}
use oms_go.Process.{launched, start}
use oms_go.Process.Ends.{Ends, is_stopping, steps_left, Reach-Ends}
use oms_go.Process.Start.{Prepared, launch}

refused-is_stopping :
    (r : Result RunError Worker) {e : RunError} → r ≡ err e → is_stopping (launched r) ≡ true
unfolding launched
refused-is_stopping (ok w) h = absurd (cc)
refused-is_stopping (err x) h = refl

module _ (getenv : String → String) (parse_duration : String → Option ℤ)
    (parse_url : String → Option Url) where
  load_config-batch_size :
      (cfg : Config)
      → load_config getenv parse_duration parse_url ≡ ok cfg
      → worker_batch_size_env getenv ≡ ok cfg.worker_batch_size
  unfolding load_config
  load_config-batch_size cfg h =
      let (read, e₀, h₀) =
        and_then-eq-ok
          (parse_positive_duration_env getenv parse_duration "HTTP_READ_TIMEOUT" (pos 5000000000)) _
          h in
      let (write, e₁, h₁) =
        and_then-eq-ok
          (parse_positive_duration_env getenv parse_duration "HTTP_WRITE_TIMEOUT" (pos 10000000000))
          _ h₀ in
      let (idle, e₂, h₂) =
        and_then-eq-ok
          (parse_positive_duration_env getenv parse_duration "HTTP_IDLE_TIMEOUT" (pos 60000000000))
          _ h₁ in
      let (url, h₃) = refuse_if-ok (str_eq (getenv "DATABASE_URL") "") database_url_required _ h₂ in
      let (batch_size, e₄, h₄) = and_then-eq-ok (worker_batch_size_env getenv) _ h₃ in
      let (mode, e₅, h₅) = and_then-eq-ok (auth_mode_env getenv) _ h₄ in
      let (auth_config, e₆, h₆) =
        and_then-eq-ok (load_auth_config getenv parse_duration parse_url mode) _ h₅ in
      e₄ ∙ ap (λ (c : Config). ok c.worker_batch_size) (ok-injective h₆)

  -- With a configuration that `LoadConfig` has let through, and that has a WORKER_BATCH_SIZE from 2147483648
  -- to 4294967296, the process ends though no signal comes: from its launch, in whatever order the
  -- goroutines and `main` take turns, if no request comes either, within `steps_left` steps, and until then
  -- there is always a step to make.
  pub launch-Ends :
      {S S' P Pool : Type 0} (service : WorkerService S) (p : Prepared S' P Pool) (n : ℕ)
      → load_config getenv parse_duration parse_url ≡ ok p.config
      → atoi (getenv "WORKER_BATCH_SIZE") ≡ some (pos n)
      → 2 ^ 31 ≤ n
      → n ≤ 2 ^ 32
      → Ends (steps_left (launch service p)) (launch service p)
  unfolding launch
  launch-Ends service p n loaded read low high =
      let (b, given, refused) = worker_batch_size_env-run getenv n service read low high in
      let same : p.config.worker_batch_size ≡ b =
        ok-injective (sym (load_config-batch_size p.config loaded) ∙ given) in
      Reach-Ends _ start (
        refused-is_stopping (run (some service) p.config.worker_batch_size)
          (ap (run (some service)) same ∙ refused))
