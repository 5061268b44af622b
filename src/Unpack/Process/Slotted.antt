-- ===== src/Unpack/Process/Slotted.antt =====
-- The slots and the progress of the single calls, and of a call that runs on a slot.
use moe_asset_updater_client.Base.{
  if◌then◌else◌, ℕ, ◌≡◌, refl, inl, inr, Bool, true, false, Option, none, some, List, [], ◌∷◌, ◌++◌,
  ap, ◌∙◌, append-nil, Bytes,
}
use moe_asset_updater_client.Base.Outcome.{Outcome, ok, err, panic}
use moe_asset_updater_client.Unpack.Concurrency.{acquire_semaphore}
use moe_asset_updater_client.Unpack.Action.{
  run_jobs, pool, sent_files, Slots, Run, Slot, studio, Action, ◌then◌, call, check, report,
  released, released_if_back, with_slot, with_slot_until_return,
}
use moe_asset_updater_client.Unpack.Process.Kept.{
  Told, Keeps, one_more, Leaves, Leaks, release-taken, silent,
}

pub Keeps-check : {E : Type 0} (o : Option E) → Keeps [] (check o)
unfolding check call
Keeps-check none = record { kept = λ run. refl; told = λ run. silent run.reports _ refl }
Keeps-check (some e) = record { kept = λ run. refl; told = λ run. silent run.reports _ refl }

pub Keeps-report : (E : Type 0) (n : ℕ) → Keeps (n ∷ []) (report {E = E} n)
unfolding report
Keeps-report E n = record {
  kept = λ run. refl;
  told = λ run. record { sent = n ∷ []; rest = []; all = refl; now = refl; done = refl };
}

pub Keeps-call : {E A : Type 0} (o : Outcome E A) → Keeps [] (call o)
unfolding call
Keeps-call o = record { kept = λ run. refl; told = λ run. silent run.reports _ refl }

module _ {E A : Type 0} {ns : List ℕ} where
  released-Told :
      (slot : Slot) (before : List ℕ) (r : Run × Outcome E A)
      → Told ns before r
      → Told ns before (released slot r)
  released-Told slot before (run, o) t = record {
    sent = t.sent;
    rest = t.rest;
    all = t.all;
    now = t.now;
    done = t.done;
  }

  released_if_back-Told :
      (before : List ℕ) (r : Run × Outcome E A)
      → Told ns before r
      → Told ns before (released_if_back studio r)
  released_if_back-Told before (run, ok a) t = record {
    sent = t.sent;
    rest = t.rest;
    all = t.all;
    now = t.now;
    done = t.done;
  }
  released_if_back-Told before (run, err e) t = record {
    sent = t.sent;
    rest = t.rest;
    all = t.all;
    now = t.now;
    done = t.done;
  }
  released_if_back-Told before (run, panic) t = t

module _ {E A : Type 0} (m : Action E A) where
  pub Keeps-with_slot :
      (slot : Slot) (ended : Option E) → Keeps [] m → Keeps [] (with_slot slot ended m)
  unfolding with_slot ◌then◌ acquire_semaphore
  Keeps-with_slot slot none k = record {
    kept = λ run.
        let taken = record run { slots = one_more slot run.slots } in
        release-taken slot (m taken).0 run.slots (k.kept taken);
    told = λ run.
        released-Told slot run.reports (m (record run { slots = one_more slot run.slots }))
          (k.told _);
  }
  Keeps-with_slot slot (some e) k = record {
    kept = λ run. refl;
    told = λ run. silent run.reports _ refl;
  }

  until_return :
      (before : Slots) (r : Run × Outcome E A)
      → r.0.slots ≡ one_more studio before
      → Leaves before (released_if_back studio r)
  until_return before (run, ok a) e = inl (release-taken studio run before e)
  until_return before (run, err x) e = inl (release-taken studio run before e)
  until_return before (run, panic) e = inr (refl, e)

  pub Leaks-with_slot_until_return :
      (ended : Option E) → Keeps [] m → Leaks [] (with_slot_until_return studio ended m)
  unfolding with_slot_until_return ◌then◌ acquire_semaphore
  Leaks-with_slot_until_return none k = record {
    left = λ run.
        let taken = record run { slots = one_more studio run.slots } in
        until_return run.slots (m taken) (k.kept taken);
    told = λ run.
        released_if_back-Told run.reports (m (record run { slots = one_more studio run.slots }))
          (k.told _);
  }
  Leaks-with_slot_until_return (some e) k = record {
    left = λ run. inl refl;
    told = λ run. silent run.reports _ refl;
  }

nothing_said : (planned sent rest : List ℕ) → planned ≡ [] → planned ≡ sent ++ rest → sent ≡ []
nothing_said planned [] rest e all = refl
nothing_said planned (n ∷ sent) rest e all = cc

module _ {E : Type 0} (of_panic : E) (job : Bytes → Action E (Unit {0}))
    (keeps : (f : Bytes) → Keeps [] (job f)) where
  jobs_kept :
      (files : List Bytes) (run : Run)
      → ((run_jobs of_panic job files run).0.slots ≡ run.slots)
        × ((run_jobs of_panic job files run).0.reports ≡ run.reports)
  unfolding run_jobs
  jobs_kept [] run = (refl, refl)
  jobs_kept (f ∷ fs) run =
      let told = (keeps f).told run in
      let (slots, reports) = jobs_kept fs (job f run).0 in
      (
        slots ∙ (keeps f).kept run,
        reports
            ∙ told.now
            ∙ ap (λ ns. run.reports ++ ns) (nothing_said [] told.sent told.rest refl told.all)
            ∙ append-nil run.reports,
      )

  pub Keeps-pool :
      (schedule : List Bytes → List Bytes) (stops : Option (ℕ × E)) (files : List Bytes)
      → Keeps [] (pool of_panic schedule stops job files)
  unfolding pool
  Keeps-pool schedule stops files = record {
    kept = λ run. (jobs_kept (schedule (sent_files stops files)) run).0;
    told = λ run. silent run.reports _ (jobs_kept (schedule (sent_files stops files)) run).1;
  }

pub Keeps-if :
    {E A : Type 0} (b : Bool) (m n : Action E A)
    → Keeps [] m
    → Keeps [] n
    → Keeps [] (if b then m else n)
Keeps-if true m n km kn = km
Keeps-if false m n km kn = kn
