-- ===== src/Unpack/Concurrency/Positive.antt =====
-- That no semaphore is made without a slot.
use moe_asset_updater_client.Base.{refl, Option, arith, if◌then◌else◌}
use moe_asset_updater_client.Base.Int.{ℤ, pos, is_nonpos}
use moe_asset_updater_client.Config.{Config, apply_defaults}
use moe_asset_updater_client.Config.Trim.{Text}
use moe_asset_updater_client.Config.Defaults.{IsPositive, IsUsable, apply_defaults-IsUsable}
use moe_asset_updater_client.Unpack.Concurrency.{effective_concurrency, Capacities, new_capacities}

-- A channel of each capacity has room for a sender.
pub record HasSlots (c : Capacities) : Type 0 where
  pub download : IsPositive c.download
  pub asset_studio : IsPositive c.asset_studio
  pub post_process : IsPositive c.post_process
  pub usm : IsPositive c.usm
  pub acb : IsPositive c.acb
  pub hca : IsPositive c.hca

effective_concurrency-IsPositive :
    (value default_value : ℤ)
    → IsPositive default_value
    → IsPositive (effective_concurrency value default_value (pos 0))
unfolding effective_concurrency
effective_concurrency-IsPositive value default_value h = ground arith

-- Whatever the configuration says, the defaults give every semaphore of the unpacker a slot at least,
-- so that no acquisition waits for a channel that nothing can be sent on.
pub new_capacities-HasSlots :
    (parse_host : Text → Option Text) (hostname : Option Text) (c : Config)
    → HasSlots (new_capacities (apply_defaults parse_host hostname c))
unfolding new_capacities
new_capacities-HasSlots parse_host hostname c =
    let d : Config = apply_defaults parse_host hostname c in
    let usable : IsUsable d = apply_defaults-IsUsable parse_host hostname c in
    record {
      download = effective_concurrency-IsPositive d.concurrency.download (pos 2) refl;
      asset_studio =
          effective_concurrency-IsPositive
            (if is_nonpos d.concurrency.asset_studio
              then d.worker.max_tasks
              else d.concurrency.asset_studio)
            d.worker.max_tasks usable.max_tasks;
      post_process =
          effective_concurrency-IsPositive
            (if is_nonpos d.concurrency.post_process
              then d.worker.max_tasks
              else d.concurrency.post_process)
            d.worker.max_tasks usable.max_tasks;
      usm = effective_concurrency-IsPositive d.concurrency.usm (pos 4) refl;
      acb = effective_concurrency-IsPositive d.concurrency.acb (pos 16) refl;
      hca = effective_concurrency-IsPositive d.concurrency.hca (pos 16) refl;
    }
