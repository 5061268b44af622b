-- ===== src/Unpack/Download/Retries.antt =====
-- What the retries amount to.
use moe_asset_updater_client.Base.{
  ◌-◌, ◌≤◌, ◌<◌, ◌≡◌, ◌⊎◌, inl, inr, refl, ap, Option, none, some, arith,
}
use moe_asset_updater_client.Unpack.Concurrency.{Semaphore, acquire_semaphore, release_semaphore}
use moe_asset_updater_client.Unpack.Download.{Surroundings, Report, retry_loop, download_bundle}

-- The report of a download, from what the attempts gave.
pub record IsReported {E : Type 0} (s : Surroundings E) (r : Report E) : Type 0 where
  pub tries_le : r.tries ≤ 4
  pub waited_le : r.waited ≤ 7
  -- an error is returned, or the last attempt was made and gave none; that is: no error only after an attempt that gave none
  pub success : ((e : E) × (r.error ≡ some e)) ⊎ ((0 < r.tries) × (s.once (r.tries - 1) ≡ none))

error_or : {E X : Type 0} (o : Option E) → ((o ≡ none) → X) → ((e : E) × (o ≡ some e)) ⊎ X
error_or none k = inr (k refl)
error_or (some e) k = inl (e, refl)

module _ {E : Type 0} (s : Surroundings E) where
  retry_loop-IsReported : IsReported s (retry_loop s 4 0 0 none)
  unfolding retry_loop
  retry_loop-IsReported = record {
    tries_le = ground arith;
    waited_le = ground arith;
    success = error_or (retry_loop s 4 0 0 none).error (λ e. ground arith);
  }

  refused-IsReported : (e : E) → IsReported s (record { tries = 0; waited = 0; error = some e })
  refused-IsReported e = record {
    tries_le = omega arith;
    waited_le = omega arith;
    success = inl (e, refl);
  }

-- Whatever the attempts, the timer and the context do, a download makes at most four attempts and
-- waits at most seven seconds in all, it returns no error only after an attempt that succeeded, and
-- it leaves the semaphore as it found it.
pub download_bundle-IsReported :
    {E : Type 0} (s : Surroundings E) (before_slot : Option E) (sem : Semaphore)
    → ((download_bundle s before_slot sem).0 ≡ sem)
      × IsReported s (download_bundle s before_slot sem).1
unfolding download_bundle acquire_semaphore release_semaphore
download_bundle-IsReported s none sem =
    (ap (λ n. record sem { held = n }) (omega arith), retry_loop-IsReported s)
download_bundle-IsReported s (some e) sem = (refl, refused-IsReported s e)
