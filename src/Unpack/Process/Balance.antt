-- ===== src/Unpack/Process/Balance.antt =====
-- The slots that the work on a bundle takes are given back, but for a panic of the export.
use moe_asset_updater_client.Base.{ap, ◌∙◌, ◌&&◌, some, List, [], ◌∷◌, Bytes, equal}
use moe_asset_updater_client.Base.Outcome.{ok}
use moe_asset_updater_client.Protocol.{ExportOptions, TaskPayload}
use moe_asset_updater_client.Unpack.Download.{download_bundle}
use moe_asset_updater_client.Unpack.Download.Retries.{download_bundle-IsReported}
use moe_asset_updater_client.Unpack.Manifest.{
  build_manifest, validate_expected_manifest_outputs, create_archive,
}
use moe_asset_updater_client.Unpack.Export.{
  asset_studio_export_types, actual_export_path, studio_args, resolve_post_process_export_path,
}
use moe_asset_updater_client.Unpack.Action.{bank, wave, Run, post, video, call, check, report}
use moe_asset_updater_client.Unpack.Process.{
  World, export_one, export_videos, handle_usm_files, export_wave, export_hca_files, export_acb,
  export_banks, handle_acb_files, post_process_exported_files, extract_unity_asset_bundle,
  finalize_export_root, download, bundle_path, export_root, with_error, pack, process,
}
use moe_asset_updater_client.Unpack.Process.Kept.{
  Told, Keeps, Leaves, Leaks, Keeps-then, Leaks-then, then-Leaks,
}
use moe_asset_updater_client.Unpack.Process.Slotted.{
  Keeps-check, Keeps-report, Keeps-call, Keeps-with_slot, Keeps-pool, Leaks-with_slot_until_return,
  Keeps-if,
}

module _ {E : Type 0} (w : World E) where
  Keeps-export_videos : (path : Bytes) (files : List Bytes) → Keeps [] (export_videos w path files)
  unfolding export_videos
  Keeps-export_videos path [] = Keeps-call (ok tt)
  Keeps-export_videos path (f ∷ fs) =
      Keeps-with_slot (call (export_one w path (f ∷ fs))) video w.usm_slot (Keeps-call _)

  Keeps-handle_usm_files :
      (options : ExportOptions) (path : Bytes) → Keeps [] (handle_usm_files w options path)
  unfolding handle_usm_files
  Keeps-handle_usm_files options path =
      Keeps-then (call (w.find_usm path)) _ (Keeps-call _) λ files.
        Keeps-if (options.export_usm_files && options.decode_usm_files) (export_videos w path files)
          (call (ok tt)) (Keeps-export_videos path files) (Keeps-call _)

  Keeps-export_wave : (hca_file : Bytes) → Keeps [] (export_wave w hca_file)
  Keeps-export_wave hca_file =
      Keeps-if w.hca_global _ (call (w.export_hca hca_file))
        (Keeps-with_slot (call (w.export_hca hca_file)) wave (w.wave_slot hca_file) (Keeps-call _))
        (Keeps-call _)

  Keeps-export_hca_files :
      (options : ExportOptions) (acb_file : Bytes) (files : List Bytes)
      → Keeps [] (export_hca_files w options acb_file files)
  unfolding export_hca_files
  Keeps-export_hca_files options acb_file [] = Keeps-call (ok tt)
  Keeps-export_hca_files options acb_file (f ∷ fs) =
      Keeps-if options.decode_hca_files _ (call (ok tt))
        (Keeps-then _ _
          (Keeps-pool w.of_panic (export_wave w) Keeps-export_wave w.schedule
            (w.waves_stop acb_file) (f ∷ fs))
          λ _. Keeps-check (w.move_results acb_file))
        (Keeps-call _)

  Keeps-export_acb :
      (options : ExportOptions) (acb_file : Bytes) → Keeps [] (export_acb w options acb_file)
  unfolding export_acb
  Keeps-export_acb options acb_file =
      Keeps-then (call (w.extract_bank acb_file)) _ (Keeps-call _) λ files.
        Keeps-then (export_hca_files w options acb_file files) _
          (Keeps-export_hca_files options acb_file files) λ _. Keeps-check (w.remove_bank acb_file)

  Keeps-export_banks :
      (options : ExportOptions) (files : List Bytes) → Keeps [] (export_banks w options files)
  unfolding export_banks
  Keeps-export_banks options [] = Keeps-call (ok tt)
  Keeps-export_banks options (f ∷ fs) =
      Keeps-pool w.of_panic _
        (λ acb_file.
          Keeps-with_slot (export_acb w options acb_file) bank (w.bank_slot acb_file)
            (Keeps-export_acb options acb_file))
        w.schedule w.banks_stop (f ∷ fs)

  Keeps-handle_acb_files :
      (options : ExportOptions) (path : Bytes) → Keeps [] (handle_acb_files w options path)
  unfolding handle_acb_files
  Keeps-handle_acb_files options path =
      Keeps-then (call (w.find_acb path)) _ (Keeps-call _) λ files.
        Keeps-if (options.export_acb_files && options.decode_acb_files)
          (export_banks w options files) (call (ok tt)) (Keeps-export_banks options files)
          (Keeps-call _)

  Keeps-post_process_exported_files :
      (options : ExportOptions) (path : Bytes)
      → Keeps [] (post_process_exported_files w options path)
  unfolding post_process_exported_files
  Keeps-post_process_exported_files options path =
      Keeps-if (w.exists path) _ (call (ok tt))
        (Keeps-with_slot _ post w.post_slot (
          Keeps-then (handle_usm_files w options path) _ (Keeps-handle_usm_files options path) λ _.
            Keeps-then (handle_acb_files w options path) _ (Keeps-handle_acb_files options path)
              λ _. Keeps-then (call (w.handle_wav path)) _ (Keeps-call _) λ _. Keeps-call _))
        (Keeps-call _)

  Keeps-extract_unity_asset_bundle :
      (file_path export_path output_dir category : Bytes) (options : ExportOptions)
      → Keeps [] (extract_unity_asset_bundle w file_path export_path output_dir category options)
  unfolding extract_unity_asset_bundle
  Keeps-extract_unity_asset_bundle file_path export_path output_dir category options =
      Keeps-if (equal w.studio_path []) (call (ok tt)) _ (Keeps-call _) (
        Keeps-then (call (asset_studio_export_types w.matches export_path options)) _ (Keeps-call _)
          λ export_types.
            Keeps-then
              (check (
                w.run_studio
                  (studio_args file_path export_types export_path output_dir category options)))
              _ (Keeps-check _)
              λ _.
                Keeps-then
                  (call (
                    resolve_post_process_export_path w.exported
                      (actual_export_path output_dir export_path category options) output_dir))
                  _ (Keeps-call _) λ resolved. Keeps-post_process_exported_files options resolved.0)

  Keeps-finalize_export_root : Keeps [] (finalize_export_root w)
  unfolding finalize_export_root
  Keeps-finalize_export_root =
      Keeps-with_slot (call w.finalize_wav) post w.finalize_slot (Keeps-call _)

  Keeps-download : Keeps [] (download w)
  unfolding download
  Keeps-download = record {
    kept = λ run.
        let given = download_bundle w.download w.download_slot run.slots.download in
        (Keeps-check given.1.error).kept
          (record run { slots = record run.slots { download = given.0 } })
        ∙ ap (λ sem. record run.slots { download = sem })
            (download_bundle-IsReported w.download w.download_slot run.slots.download).0;
    told = λ run.
        let given = download_bundle w.download w.download_slot run.slots.download in
        (Keeps-check given.1.error).told
          (record run { slots = record run.slots { download = given.0 } });
  }

  Keeps-pack : (task : TaskPayload) → Keeps (88 ∷ []) (pack w task)
  unfolding pack
  Keeps-pack task =
      Keeps-then (call (with_error w.path_error (build_manifest (some w.walk) task))) _
        (Keeps-call _)
        λ manifest.
          Keeps-then
            (call (
              with_error w.output_error (validate_expected_manifest_outputs manifest task.options)))
            _ (Keeps-call _)
            λ _. Keeps-then (check (w.write_manifest manifest)) _ (Keeps-check _) λ _.
              Keeps-then (report 88) _ (Keeps-report E 88) λ _.
                Keeps-then
                  (call (with_error w.archive_error (create_archive w.create_fails w.archive_walk)))
                  _ (Keeps-call _) λ names. Keeps-call (ok (manifest, names))

  process-Leaks :
      (root : Bytes) (task : TaskPayload) → Leaks (5 ∷ 30 ∷ 78 ∷ 80 ∷ 88 ∷ []) (process w root task)
  unfolding process
  process-Leaks root task = Leaks-then (check w.make_dirs) _ (Keeps-check w.make_dirs) λ _.
      Leaks-then (report 5) _ (Keeps-report E 5) λ _. Leaks-then (download w) _ Keeps-download λ _.
        Leaks-then (report 30) _ (Keeps-report E 30) λ _.
          then-Leaks _ _
            (Leaks-with_slot_until_return _ w.studio_slot (
              Keeps-extract_unity_asset_bundle (bundle_path root task) task.bundle_path
                (export_root root task) task.category task.options))
            λ _. Keeps-then (report 78) _ (Keeps-report E 78) λ _.
              Keeps-then (finalize_export_root w) _ Keeps-finalize_export_root
                λ _. Keeps-then (report 80) _ (Keeps-report E 80) λ _. Keeps-pack task

-- The slots that Process takes are given back, whatever the disk, the server and the other programs
-- do, unless the export panics: then a slot of the asset studio stays taken.
pub process-Leaves :
    {E : Type 0} (w : World E) (root : Bytes) (task : TaskPayload) (run : Run)
    → Leaves run.slots (process w root task run)
process-Leaves w root task = (process-Leaks w root task).left

-- The progress that Process reports is a front part of 5, 30, 78, 80 and 88 hundredths, in this order,
-- and all of it where Process succeeds.
pub process-Told :
    {E : Type 0} (w : World E) (root : Bytes) (task : TaskPayload) (run : Run)
    → Told (5 ∷ 30 ∷ 78 ∷ 80 ∷ 88 ∷ []) run.reports (process w root task run)
process-Told w root task = (process-Leaks w root task).told
