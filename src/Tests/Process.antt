-- ===== src/Tests/Process.antt =====
-- The work on a bundle, with concrete surroundings.
use moe_asset_updater_client.Unpack.Manifest.Archive.{calm, entry_rels}
use moe_asset_updater_client.Base.{
  map, ◌≡◌, refl, true, false, none, [], ◌∷◌, codes, List, Bytes, equal,
}
use moe_asset_updater_client.Protocol.{ExportOptions}
use moe_asset_updater_client.Base.Outcome.{ok, panic}
use moe_asset_updater_client.Unpack.Export.{present}
use moe_asset_updater_client.Unpack.Action.{Run}
use moe_asset_updater_client.Unpack.Process.{World, process}
use moe_asset_updater_client.Unpack.Process.Kept.{Leaves, Told}
use moe_asset_updater_client.Unpack.Process.Balance.{process-Leaves, process-Told}
use moe_asset_updater_client.Base.Disk.{Disk, size_of, put, size_of-delete}
use moe_asset_updater_client.Exporter.{Programs}
use moe_asset_updater_client.Unpack.Wav.{has_extension, handle_standalone_wav_files}
use moe_asset_updater_client.Unpack.Wav.Removed.{handle_standalone_wav_files_removes}
use moe_asset_updater_client.Unpack.Export.{last_or}
use moe_asset_updater_client.Tests.Unpack.{all_off, walked, some_task, third_time, two_slots}

abbrev before_task : Run
before_task = record {
  slots = record {
    download = two_slots;
    asset_studio = two_slots;
    post_process = two_slots;
    usm = two_slots;
    acb = two_slots;
    hca = two_slots;
  };
  reports = [];
}

-- Every call succeeds, the download at its third attempt.
abbrev calm_world : World (Unit {0})
calm_world = record {
  make_dirs = none;
  download = third_time;
  download_slot = none;
  studio_slot = none;
  studio_path = codes "studio";
  matches = λ _ _. ok false;
  run_studio = λ _. none;
  exported = record { expected = present; outside = ok false; files = ok true };
  exists = λ _. true;
  post_slot = none;
  find_usm = λ _. ok [];
  usm_slot = none;
  merge_usm = λ _ _. ok [];
  export_usm = λ _ _. ok tt;
  find_acb = λ _. ok (codes "a.acb" ∷ []);
  of_panic = tt;
  schedule = λ files. files;
  banks_stop = none;
  waves_stop = λ _. none;
  bank_slot = λ _. none;
  wave_slot = λ _. none;
  hca_global = true;
  extract_bank = λ _. ok (codes "a.hca" ∷ []);
  export_hca = λ _. ok tt;
  move_results = λ _. none;
  remove_bank = λ _. none;
  handle_wav = λ _. ok tt;
  handle_png = λ _. ok tt;
  finalize_slot = none;
  finalize_wav = ok tt;
  walk = walked;
  path_error = λ _. tt;
  output_error = λ _. tt;
  write_manifest = λ _. none;
  create_fails = none;
  archive_walk = map calm (entry_rels walked);
  archive_error = λ _. tt;
}

process-Leaves_example :
    Leaves before_task.slots (process calm_world (codes "work") some_task before_task)
process-Leaves_example = process-Leaves calm_world (codes "work") some_task before_task

process-Told_example :
    Told
      (5 ∷ 30 ∷ 78 ∷ 80 ∷ 88 ∷ [])
      before_task.reports
      (process calm_world (codes "work") some_task before_task)
process-Told_example = process-Told calm_world (codes "work") some_task before_task

-- The conversion of sound banks panics: the slot of the asset studio is not given back.
abbrev panicking_world : World (Unit {0})
panicking_world = record calm_world { handle_wav = λ _. panic }

panicking_world_leaks :
    (process panicking_world (codes "work") some_task before_task).0.slots.asset_studio
    ≡ record two_slots { held = 2 }
unfolding process
panicking_world_leaks = refl

-- An ffmpeg that writes 100 bytes.
abbrev writing : Programs (Unit {0})
writing = record {
  ffmpeg = λ args d. (put (last_or [] args) 100 d, none);
  remove_fails = λ _ _. none;
}

writing_keeps :
    (args : List Bytes) (d : Disk) (p : Bytes)
    → equal p (last_or [] args) ≡ false
    → size_of p (writing.ffmpeg args d).0 ≡ size_of p d
unfolding size_of
writing_keeps args d p e = rw (e, size_of-delete (last_or [] args) p d, e) refl

abbrev mp3_only : ExportOptions
mp3_only = record all_off { convert_audio_to_mp3 = true; remove_wav = true }

abbrev one_wav : Disk
one_wav = (codes "x/a.WAV", 4) ∷ (codes "x/b.mp3", 2) ∷ []

handle_standalone_wav_files_removes_example :
    size_of (codes "x/a.WAV") (handle_standalone_wav_files writing mp3_only one_wav).0 ≡ none
unfolding handle_standalone_wav_files has_extension
handle_standalone_wav_files_removes_example =
    handle_standalone_wav_files_removes writing writing_keeps mp3_only one_wav refl refl
      (codes "x/a.WAV") refl

one_wav_converted :
    handle_standalone_wav_files writing mp3_only one_wav
    ≡ ((codes "x/a.mp3", 100) ∷ (codes "x/b.mp3", 2) ∷ [], none)
unfolding handle_standalone_wav_files
one_wav_converted = refl
