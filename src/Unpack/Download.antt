-- ===== src/Unpack/Download.antt =====
-- The download of a bundle with its retries: `downloadBundle` of internal/unpack/unpacker.go. One
-- attempt, the timer and the context are arguments, by the number of the attempt.
pub mod Retries
use moe_asset_updater_client.Base.{
  ℕ, zero, suc, ◌+◌, ◌-◌, ◌^◌, Bool, true, false, Option, none, some, ltb, if◌then◌else◌,
}
use moe_asset_updater_client.Base.Outcome.{Outcome, ok, err, panic}
use moe_asset_updater_client.Unpack.Concurrency.{Semaphore, acquire_semaphore, release_semaphore}

pub record Surroundings (E : Type 0) : Type 0 where
  -- what `downloadBundleOnce` returns
  pub once : ℕ → Option E
  -- `ctx.Err()` after an attempt
  pub after_attempt : ℕ → Option E
  -- the context's error where it ends while the client waits for an attempt
  pub while_waiting : ℕ → Option E

-- The attempts made, the seconds waited and the error returned.
pub record Report (E : Type 0) : Type 0 where
  pub tries : ℕ
  pub waited : ℕ
  pub error : Option E

abbrev pub max_retries : ℕ
max_retries = 4

-- The attempt itself, with what the later rounds give.
abbrev pub attempt_once : {E : Type 0} → Surroundings E → ℕ → ℕ → (E → Report E) → Report E
attempt_once s attempt waited later = elim (s.once attempt) [
  | none ↦ record { tries = attempt + 1; waited = waited; error = none }
  | some e ↦ elim (s.after_attempt attempt) [
    | some ended ↦ record { tries = attempt + 1; waited = waited; error = some ended }
    | none ↦ later e
  ]
]

-- `for attempt := 0; attempt < maxRetries; attempt++`, with the rounds left, the attempt, the seconds
-- waited and `lastErr`.
unfoldable pub retry_loop : {E : Type 0} → Surroundings E → ℕ → ℕ → ℕ → Option E → Report E
retry_loop s zero attempt waited last_err = record {
  tries = attempt;
  waited = waited;
  error = last_err;
}
retry_loop s (suc left) zero waited last_err =
    attempt_once s zero waited (λ e. retry_loop s left 1 waited (some e))
retry_loop s (suc left) (suc before) waited last_err = elim (s.while_waiting (suc before)) [
  | some ended ↦ record { tries = suc before; waited = waited; error = some ended }
  | none ↦
      attempt_once s (suc before) (waited + 2 ^ before)
        (λ e. retry_loop s left (suc before + 1) (waited + 2 ^ before) (some e))
]

-- With the context's error where it ends before a slot of the semaphore is free.
unfoldable pub download_bundle :
    {E : Type 0} → Surroundings E → Option E → Semaphore → Semaphore × Report E
unfolding retry_loop acquire_semaphore release_semaphore
download_bundle s before_slot sem = elim (acquire_semaphore before_slot sem) [
  | ok taken ↦ (release_semaphore taken, retry_loop s max_retries 0 0 none)
  | err e ↦ (sem, record { tries = 0; waited = 0; error = some e })
  | panic ↦ (sem, record { tries = 0; waited = 0; error = none })
]
