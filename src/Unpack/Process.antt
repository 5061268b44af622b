-- ===== src/Unpack/Process.antt =====
-- The work on one bundle: `Process`, `ExtractUnityAssetBundle`, `postProcessExportedFiles`,
-- `finalizeExportRoot`, `handleUSMFiles` and `handleACBFiles` of internal/unpack/unpacker.go, and, of
-- internal/exporter/acb.go, `ExportACB` and `exportHCAFiles` around their calls. What the disk, the
-- server and the other programs do is a record of arguments, one field for each call.
pub mod Kept
pub mod Slotted
pub mod Balance
pub mod Result
use moe_asset_updater_client.Base.{
  ℕ, ◌+◌, ◌-◌, Bool, true, false, ◌&&◌, not, Option, none, some, List, [], ◌∷◌, ◌++◌, if◌then◌else◌,
  Bytes, codes, equal,
}
use moe_asset_updater_client.Base.Outcome.{Outcome, ok, err, panic}
use moe_asset_updater_client.Protocol.{ExportOptions, TaskPayload, TaskResultManifest}
use moe_asset_updater_client.Unpack.Paths.{Runes, PathError, safe_name}
use moe_asset_updater_client.Unpack.Manifest.{
  Entry, Visit, ArchiveError, OutputError, build_manifest, validate_expected_manifest_outputs,
  create_archive,
}
use moe_asset_updater_client.Unpack.Concurrency.{Semaphore, acquire_semaphore, release_semaphore}
use moe_asset_updater_client.Unpack.Action.{
  Slots, Run, Slot, semaphore, with_semaphore, Action, continue, ◌then◌, call, check, report,
  release, acquire, released, with_slot, released_if_back, with_slot_until_return, errors_of,
  run_jobs, first_error, sent_files, pool_ends, pool, studio, post, video, bank, wave,
}
use moe_asset_updater_client.Unpack.Download.{Surroundings, Report, download_bundle}
use moe_asset_updater_client.Unpack.Export.{
  Exported, join_clean, base, actual_export_path, asset_studio_export_types, studio_args,
  resolve_post_process_export_path,
}

pub record World (E : Type 0) : Type 0 where
  pub make_dirs : Option E
  pub download : Surroundings E
  pub download_slot : Option E
  pub studio_slot : Option E
  pub studio_path : Bytes
  pub matches : Bytes → Bytes → Outcome E Bool
  pub run_studio : List Bytes → Option E
  pub exported : Exported E
  -- whether the directory to be processed exists
  pub exists : Bytes → Bool
  pub post_slot : Option E
  pub find_usm : Bytes → Outcome E (List Bytes)
  pub usm_slot : Option E
  pub merge_usm : Bytes → List Bytes → Outcome E Bytes
  pub export_usm : Bytes → Bytes → Outcome E (Unit {0})
  pub find_acb : Bytes → Outcome E (List Bytes)
  -- the error of a panic that a worker recovers
  pub of_panic : E
  -- the order in which the workers of a pool take their jobs
  pub schedule : List Bytes → List Bytes
  -- where the context ends before all the sound banks, or the waves of one, are sent to the workers
  pub banks_stop : Option (ℕ × E)
  pub waves_stop : Bytes → Option (ℕ × E)
  pub bank_slot : Bytes → Option E
  pub wave_slot : Bytes → Option E
  -- `cfg.Concurrency.HCAGlobal`
  pub hca_global : Bool
  -- the extraction of a sound bank: the waves to be decoded
  pub extract_bank : Bytes → Outcome E (List Bytes)
  pub export_hca : Bytes → Outcome E (Unit {0})
  pub move_results : Bytes → Option E
  pub remove_bank : Bytes → Option E
  pub handle_wav : Bytes → Outcome E (Unit {0})
  pub handle_png : Bytes → Outcome E (Unit {0})
  pub finalize_slot : Option E
  pub finalize_wav : Outcome E (Unit {0})
  pub walk : List Entry
  pub path_error : PathError → E
  pub output_error : OutputError → E
  pub write_manifest : TaskResultManifest → Option E
  -- of `os.Create` for the archive, and what the walk for it meets: the disk is walked again
  pub create_fails : Option E
  pub archive_walk : List (Visit E)
  pub archive_error : ArchiveError E → E

abbrev pub with_error : {D E A : Type 0} → (D → E) → Outcome D A → Outcome E A
with_error f (ok a) = ok a
with_error f (err e) = err (f e)
with_error f panic = panic

abbrev pub export_one : {E : Type 0} → World E → Bytes → List Bytes → Outcome E (Unit {0})
export_one w export_path [] = ok tt
export_one w export_path (f ∷ []) = w.export_usm f export_path
export_one w export_path (f ∷ g ∷ fs) = elim (w.merge_usm export_path (f ∷ g ∷ fs)) [
  | ok merged ↦ w.export_usm merged export_path
  | err e ↦ err e
  | panic ↦ panic
]

unfoldable pub export_videos : {E : Type 0} → World E → Bytes → List Bytes → Action E (Unit {0})
unfolding with_slot call
export_videos w export_path [] = call (ok tt)
export_videos w export_path (f ∷ fs) =
    with_slot video w.usm_slot (call (export_one w export_path (f ∷ fs)))

unfoldable pub handle_usm_files :
    {E : Type 0} → World E → ExportOptions → Bytes → Action E (Unit {0})
unfolding ◌then◌ call export_videos
handle_usm_files w options export_path = call (w.find_usm export_path) then λ usm_files.
    if options.export_usm_files && options.decode_usm_files
    then export_videos w export_path usm_files
    else call (ok tt)

-- With the limiter, if there is one.
abbrev pub export_wave : {E : Type 0} → World E → Bytes → Action E (Unit {0})
export_wave w hca_file =
    if w.hca_global
    then with_slot wave (w.wave_slot hca_file) (call (w.export_hca hca_file))
    else call (w.export_hca hca_file)

-- `exportHCAFiles`, and the results moved, where there are waves and they are to be decoded.
unfoldable pub export_hca_files :
    {E : Type 0} → World E → ExportOptions → Bytes → List Bytes → Action E (Unit {0})
unfolding ◌then◌ call check with_slot pool
export_hca_files w options acb_file [] = call (ok tt)
export_hca_files w options acb_file (f ∷ fs) =
    if options.decode_hca_files
    then (pool w.of_panic w.schedule (w.waves_stop acb_file) (export_wave w) (f ∷ fs) then λ _.
        check (w.move_results acb_file))
    else call (ok tt)

-- `ExportACB`.
unfoldable pub export_acb : {E : Type 0} → World E → ExportOptions → Bytes → Action E (Unit {0})
unfolding ◌then◌ call check export_hca_files
export_acb w options acb_file = call (w.extract_bank acb_file) then λ hca_files.
    export_hca_files w options acb_file hca_files then λ _. check (w.remove_bank acb_file)

unfoldable pub export_banks :
    {E : Type 0} → World E → ExportOptions → List Bytes → Action E (Unit {0})
unfolding call with_slot pool export_acb
export_banks w options [] = call (ok tt)
export_banks w options (f ∷ fs) =
    pool w.of_panic w.schedule w.banks_stop
      (λ acb_file. with_slot bank (w.bank_slot acb_file) (export_acb w options acb_file)) (f ∷ fs)

unfoldable pub handle_acb_files :
    {E : Type 0} → World E → ExportOptions → Bytes → Action E (Unit {0})
unfolding ◌then◌ call export_banks
handle_acb_files w options export_path = call (w.find_acb export_path) then λ acb_files.
    if options.export_acb_files && options.decode_acb_files
    then export_banks w options acb_files
    else call (ok tt)

unfoldable pub post_process_exported_files :
    {E : Type 0} → World E → ExportOptions → Bytes → Action E (Unit {0})
unfolding ◌then◌ call with_slot handle_usm_files handle_acb_files
post_process_exported_files w options export_path =
    if w.exists export_path
    then with_slot post w.post_slot (
        handle_usm_files w options export_path then λ _.
        handle_acb_files w options export_path then λ _.
        call (w.handle_wav export_path) then λ _. call (w.handle_png export_path))
    else call (ok tt)

unfoldable pub extract_unity_asset_bundle :
    {E : Type 0} → World E → Bytes → Bytes → Bytes → Bytes → ExportOptions → Action E (Unit {0})
unfolding ◌then◌ call check post_process_exported_files asset_studio_export_types studio_args
    actual_export_path resolve_post_process_export_path equal
extract_unity_asset_bundle w file_path export_path output_dir category options =
    if equal w.studio_path []
    then call (ok tt)
    else (call (asset_studio_export_types w.matches export_path options) then λ export_types.
        check (
          w.run_studio (studio_args file_path export_types export_path output_dir category options))
        then λ _.
            call (
              resolve_post_process_export_path w.exported
                (actual_export_path output_dir export_path category options) output_dir)
            then λ resolved. post_process_exported_files w options resolved.0)

unfoldable pub finalize_export_root : {E : Type 0} → World E → Action E (Unit {0})
unfolding with_slot call
finalize_export_root w = with_slot post w.finalize_slot (call w.finalize_wav)

-- The `downloadBundle` of Download, on its semaphore.
unfoldable pub download : {E : Type 0} → World E → Action E (Unit {0})
unfolding download_bundle check
download w = λ run.
    let (sem, result) = download_bundle w.download w.download_slot run.slots.download in
    check result.error (record run { slots = record run.slots { download = sem } })

unfoldable pub task_dir : Bytes → TaskPayload → Bytes
unfolding safe_name join_clean
task_dir root task = join_clean (root ∷ codes "tasks" ∷ safe_name task.task_id ∷ [])

unfoldable pub bundle_path : Bytes → TaskPayload → Bytes
unfolding task_dir base join_clean
bundle_path root task =
    join_clean
      (task_dir root task ∷ codes "bundle" ∷ (base task.bundle_path ++ codes ".bundle") ∷ [])

unfoldable pub export_root : Bytes → TaskPayload → Bytes
unfolding task_dir join_clean
export_root root task = join_clean (task_dir root task ∷ codes "export" ∷ [])

-- From the manifest on.
unfoldable pub pack :
    {E : Type 0} → World E → TaskPayload → Action E (TaskResultManifest × List Runes)
unfolding build_manifest validate_expected_manifest_outputs create_archive ◌then◌ call check report
pack w task = call (with_error w.path_error (build_manifest (some w.walk) task)) then λ manifest.
    call (with_error w.output_error (validate_expected_manifest_outputs manifest task.options))
    then λ _. check (w.write_manifest manifest) then λ _. report 88 then λ _.
        call (with_error w.archive_error (create_archive w.create_fails w.archive_walk))
        then λ names. call (ok (manifest, names))

-- The manifest and the names in the archive, with the root of the workspace.
unfoldable pub process :
    {E : Type 0} → World E → Bytes → TaskPayload → Action E (TaskResultManifest × List Runes)
unfolding bundle_path export_root check report download extract_unity_asset_bundle
    finalize_export_root pack ◌then◌ with_slot_until_return
process w root task = check w.make_dirs then λ _. report 5 then λ _. download w then λ _.
    report 30 then λ _.
    with_slot_until_return studio w.studio_slot (
      extract_unity_asset_bundle w (bundle_path root task) task.bundle_path (export_root root task)
        task.category task.options)
    then λ _. report 78 then λ _. finalize_export_root w then λ _. report 80 then λ _. pack w task
