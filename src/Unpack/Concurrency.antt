-- ===== src/Unpack/Concurrency.antt =====
-- The semaphores of the unpacker: `New`, `effectiveConcurrency`, `acquireSemaphore` and
-- `releaseSemaphore` of internal/unpack/unpacker.go. A semaphore is a buffered channel: its capacity
-- and the slots that are taken. The warnings that are logged have no part here.
pub mod Positive
use moe_asset_updater_client.Base.{
  ℕ, suc, ◌+◌, ◌-◌, Bool, true, false, not, ◌&&◌, ltb, if◌then◌else◌, Option, none, some,
}
use moe_asset_updater_client.Base.Int.{ℤ, pos, is_nonpos, ltb_ℤ}
use moe_asset_updater_client.Base.Outcome.{Outcome, ok, err, panic}
use moe_asset_updater_client.Config.{Config}

unfoldable pub effective_concurrency : ℤ → ℤ → ℤ → ℤ
effective_concurrency value default_value max_value =
    let chosen = if is_nonpos value then default_value else value in
    if not (is_nonpos max_value) && ltb_ℤ max_value chosen then max_value else chosen

-- The capacities of the channels that `New` makes.
pub record Capacities : Type 0 where
  pub download : ℤ
  pub asset_studio : ℤ
  pub post_process : ℤ
  pub usm : ℤ
  pub acb : ℤ
  pub hca : ℤ

unfoldable pub new_capacities : Config → Capacities
unfolding effective_concurrency
new_capacities cfg =
    let studio =
      if is_nonpos cfg.concurrency.asset_studio
      then cfg.worker.max_tasks
      else cfg.concurrency.asset_studio in
    let post =
      if is_nonpos cfg.concurrency.post_process
      then cfg.worker.max_tasks
      else cfg.concurrency.post_process in
    record {
      download = effective_concurrency cfg.concurrency.download (pos 2) (pos 0);
      asset_studio = effective_concurrency studio cfg.worker.max_tasks (pos 0);
      post_process = effective_concurrency post cfg.worker.max_tasks (pos 0);
      usm = effective_concurrency cfg.concurrency.usm (pos 4) (pos 0);
      acb = effective_concurrency cfg.concurrency.acb (pos 16) (pos 0);
      hca = effective_concurrency cfg.concurrency.hca (pos 16) (pos 0);
    }

pub record Semaphore : Type 0 where
  pub capacity : ℕ
  pub held : ℕ

-- What the `select` finds: a slot, or the context done with its error; both are none while it waits.
unfoldable pub acquire_semaphore : {E : Type 0} → Option E → Semaphore → Outcome E Semaphore
acquire_semaphore (some e) sem = err e
acquire_semaphore none sem = ok (record sem { held = sem.held + 1 })

unfoldable pub release_semaphore : Semaphore → Semaphore
release_semaphore sem = record sem { held = sem.held - 1 }
