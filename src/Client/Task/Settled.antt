-- ===== src/Client/Task/Settled.antt =====
-- How a task ends.
use moe_asset_updater_client.Base.{
  ℕ, suc, ◌+◌, ◌≡◌, refl, sym, ap, ◌∙◌, append-nil, append_assoc, ◌⊎◌, inl, inr, Bool, true, false,
  not, ◌&&◌, List, [], ◌∷◌, ◌++◌, arith, Bytes, equal, Bool-cases,
}
use moe_asset_updater_client.Client.Active.{
  is_active, add_active, is_active-add_active, is_active-remove_active,
}
use moe_asset_updater_client.Client.Task.{
  process_failed, upload_failed, panicked, Event, progress, failed, completed, removed, Worker,
  Settings, Processed, archived, error, crashed, Uploaded, delivered, refused, upload_crashed,
  Processing, cleanup_task_dir, report_all, after_process, handle_task, recover_panic,
  run_task_safely, fail,
}

-- What settles a task at the server: the report of its failure, or its result.
abbrev pub settlements : {P U : Type 0} → List (Event P U) → List (Event P U)
settlements [] = []
settlements (failed id r arrived ∷ es) = failed id r arrived ∷ settlements es
settlements (completed id ∷ es) = completed id ∷ settlements es
settlements (progress id n ∷ es) = settlements es
settlements (removed d ∷ es) = settlements es

-- What is due for the task: its result where the upload delivered it, or else why it failed.
abbrev pub due : {P U : Type 0} → Settings → Bytes → Processed P → Uploaded U → Event P U
due s id (error e) upload = failed id (process_failed e) s.fail_arrives
due s id crashed upload = failed id panicked s.fail_arrives
due s id archived delivered = completed id
due s id archived (refused e) = failed id (upload_failed e) s.fail_arrives
due s id archived upload_crashed = failed id panicked s.fail_arrives

abbrev pub removals : {P U : Type 0} → List (Event P U) → ℕ
removals [] = 0
removals (removed d ∷ es) = suc (removals es)
removals (_ ∷ es) = removals es

-- Whether the result of the task reached the server.
abbrev pub succeeded : {P U : Type 0} → Processed P → Uploaded U → Bool
succeeded archived delivered = true
succeeded _ _ = false

-- A panic is settled by the `recover`.
abbrev of_panic : {P U : Type 0} → Settings → Bytes → Bool → List (Event P U)
of_panic s id true = failed id panicked s.fail_arrives ∷ []
of_panic s id false = []

module _ (P U : Type 0) where
  settlements-report_all :
      (s : Settings) (id : Bytes) (ns : List ℕ)
      → settlements {P = P} {U = U} (report_all s id ns) ≡ []
  settlements-report_all s id [] = refl
  settlements-report_all s id (n ∷ ns) = ground (arith, settlements-report_all s id ns)

  settlements-cleanup :
      (s : Settings) (dir : Bytes) (b : Bool)
      → settlements {P = P} {U = U} (cleanup_task_dir s dir b) ≡ []
  unfolding cleanup_task_dir
  settlements-cleanup s dir b = ground arith

  removals-report_all :
      (s : Settings) (id : Bytes) (ns : List ℕ) → removals {P = P} {U = U} (report_all s id ns) ≡ 0
  removals-report_all s id [] = refl
  removals-report_all s id (n ∷ ns) = ground (arith, removals-report_all s id ns)

module _ {P U : Type 0} where
  settlements-append :
      (xs ys : List (Event P U)) → settlements (xs ++ ys) ≡ settlements xs ++ settlements ys
  settlements-append [] ys = refl
  settlements-append (progress i n ∷ xs) ys = settlements-append xs ys
  settlements-append (failed i r a ∷ xs) ys =
      ap (λ es. failed i r a ∷ es) (settlements-append xs ys)
  settlements-append (completed i ∷ xs) ys = ap (λ es. completed i ∷ es) (settlements-append xs ys)
  settlements-append (removed d ∷ xs) ys = settlements-append xs ys

  settlements-after_process :
      (s : Settings) (id : Bytes) (run : Processing P) (upload : Uploaded U)
      → s.can_fail ≡ true
      → settlements (after_process s id run upload).1
          ++ of_panic s id (after_process s id run upload).0
        ≡ due s id run.ending upload ∷ []
  unfolding after_process
  settlements-after_process s id run upload h = ground (
    arith,
    settlements-cleanup P U s run.task_dir true,
    settlements-cleanup P U s run.task_dir false,
  )

  removals-append : (xs ys : List (Event P U)) → removals (xs ++ ys) ≡ removals xs + removals ys
  removals-append [] ys = omega arith
  removals-append (progress i n ∷ xs) ys = removals-append xs ys
  removals-append (failed i r a ∷ xs) ys = removals-append xs ys
  removals-append (completed i ∷ xs) ys = removals-append xs ys
  removals-append (removed d ∷ xs) ys = omega (arith, removals-append xs ys)

  removals-after_process :
      (s : Settings) (id : Bytes) (run : Processing P) (upload : Uploaded U)
      → s.keep_failed ≡ true
      → succeeded run.ending upload ≡ false
      → removals (after_process s id run upload).1 ≡ 0
  unfolding after_process cleanup_task_dir
  removals-after_process s id run upload k h = ground arith

-- What one run of a task leaves behind.
pub record IsSettled {P U : Type 0} (s : Settings) (id : Bytes) (run : Processing P)
    (upload : Uploaded U) (before after : Worker P U) : Type 0 where
  pub once :
      (s.can_fail ≡ false)
      ⊎ (settlements after.log ≡ settlements before.log ++ due s id run.ending upload ∷ [])
  pub active :
      (j : Bytes) → is_active j after.active ≡ (not (equal j id) && is_active j before.active)
  pub kept :
      (s.keep_failed ≡ false)
      ⊎ ((succeeded run.ending upload ≡ true) ⊎ (removals after.log ≡ removals before.log))

module _ {P U : Type 0} (s : Settings) (id : Bytes) where
  settlements-recover_panic :
      (panics : Bool) (w : Worker P U)
      → s.can_fail ≡ true
      → settlements (recover_panic s id (panics, w)).log ≡ settlements w.log ++ of_panic s id panics
  settlements-recover_panic true w h = rw h (settlements-append w.log _)
  settlements-recover_panic false w h = sym (append-nil (settlements w.log))

  removals-recover_panic :
      (panics : Bool) (w : Worker P U)
      → removals (recover_panic s id (panics, w)).log ≡ removals w.log
  removals-recover_panic true w =
      removals-append w.log (fail s id panicked)
      ∙ ap (λ n. removals w.log + n) none_removed
      ∙ omega arith
    where
      none_removed : removals {P = P} {U = U} (fail s id panicked) ≡ 0
      none_removed = ground arith
  removals-recover_panic false w = refl

  active-recover_panic :
      (panics : Bool) (w : Worker P U) → (recover_panic s id (panics, w)).active ≡ w.active
  active-recover_panic true w = refl
  active-recover_panic false w = refl

module _ {P U : Type 0} (s : Settings) (id : Bytes) (run : Processing P) (upload : Uploaded U)
    (w : Worker P U) where
  settled_once :
      s.can_fail ≡ true
      → settlements (run_task_safely s id run upload w).log
        ≡ settlements w.log ++ due s id run.ending upload ∷ []
  unfolding run_task_safely handle_task
  settled_once h =
      let (panics, events) = after_process s id run upload in
      settlements-recover_panic s id panics (handle_task s id run upload w).1 h
      ∙ ap (λ l. l ++ of_panic s id panics)
          (settlements-append w.log (report_all s id run.reports ++ events)
            ∙ ap (λ l. settlements w.log ++ l)
                (settlements-append (report_all s id run.reports) events
                  ∙ ap (λ l. l ++ settlements events)
                      (settlements-report_all P U s id run.reports)))
      ∙ append_assoc (settlements w.log) (settlements events) (of_panic s id panics)
      ∙ ap (λ l. settlements w.log ++ l) (settlements-after_process s id run upload h)

  inactive_after :
      (j : Bytes)
      → is_active j (run_task_safely s id run upload w).active
        ≡ (not (equal j id) && is_active j w.active)
  unfolding run_task_safely handle_task
  inactive_after j =
      ap (is_active j) (
        active-recover_panic s id (after_process s id run upload).0
          (handle_task s id run upload w).1)
      ∙ is_active-remove_active id j (add_active id w.active)
      ∙ ground (arith, is_active-add_active id j w.active)

  kept_after :
      s.keep_failed ≡ true
      → succeeded run.ending upload ≡ false
      → removals (run_task_safely s id run upload w).log ≡ removals w.log
  unfolding run_task_safely handle_task
  kept_after k h =
      let (panics, events) = after_process s id run upload in
      removals-recover_panic s id panics (handle_task s id run upload w).1
      ∙ omega (
        arith,
        removals-append w.log (report_all s id run.reports ++ events),
        removals-append (report_all s id run.reports) events,
        removals-report_all P U s id run.reports,
        removals-after_process s id run upload k h,
      )

  -- However `Process` and the upload end, a panic of either included: where the transport can report a
  -- failure, it is called once with what is due under the id of the task, its result where Process
  -- succeeded and the upload delivered it, and else the reason of the failure, whether or not that
  -- report gets through; the task is active no more, and every other task is active as it was before;
  -- and where failed tasks are kept, no directory is removed after a run that did not succeed.
  pub run_task_safely-IsSettled : IsSettled s id run upload w (run_task_safely s id run upload w)
  run_task_safely-IsSettled = record {
    once = elim (Bool-cases s.can_fail) [ inl e ↦ inr (settled_once e) | inr e ↦ inl e ];
    active = inactive_after;
    kept = elim (Bool-cases s.keep_failed) [
      | inr k ↦ inl k
      | inl k ↦ inr (elim (Bool-cases (succeeded run.ending upload)) [
        | inl h ↦ inl h
        | inr h ↦ inr (kept_after k h)
      ])
    ];
  }
