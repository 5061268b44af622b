-- ===== src/Tests/Unpack.antt =====
-- The unwrapper of bundles on concrete data.
use moe_asset_updater_client.Base.{
  ◌≡◌, refl, true, false, none, some, List, [], ◌∷◌, ◌++◌, map, arith, Bytes, codes, All, equal,
  has_prefix,
}
use moe_asset_updater_client.Base.Int.{pos}
use moe_asset_updater_client.Base.Outcome.{ok}
use moe_asset_updater_client.Base.Io.{Writer}
use moe_asset_updater_client.Protocol.{ExportOptions, TaskPayload, ResultFile, TaskResultManifest}
use moe_asset_updater_client.Unpack.Obfuscator.{plain_mark, deobfuscate, deobfuscate_to_writer}
use moe_asset_updater_client.Unpack.Obfuscator.Agree.{
  wrap, deobfuscate-wrap, taken, deobfuscate_to_writer-deobfuscate,
}
use moe_asset_updater_client.Unpack.Paths.{
  Runes, split_path, join_path, clean, clean_parts, sanitize_rune, sanitize_result_path_part,
  sanitize_parts, sanitize_result_relative_path,
}
use moe_asset_updater_client.Unpack.Paths.Safe.{
  IsSafePart, sanitize_result_relative_path-IsSafePart,
}
use moe_asset_updater_client.Base.{ltb, if◌then◌else◌}
use moe_asset_updater_client.Config.{zero_config, apply_defaults}
use moe_asset_updater_client.Unpack.Concurrency.{Semaphore, acquire_semaphore, new_capacities}
use moe_asset_updater_client.Unpack.Concurrency.Positive.{HasSlots, new_capacities-HasSlots}
use moe_asset_updater_client.Unpack.Download.{Surroundings, retry_loop, download_bundle}
use moe_asset_updater_client.Unpack.Download.Retries.{IsReported, download_bundle-IsReported}
use moe_asset_updater_client.Unpack.Manifest.{
  Entry, has_path, reject_duplicates, reject_duplicate_result_paths, manifest_files, insert, before,
  sort_by_path, build_manifest, create_archive,
}
use moe_asset_updater_client.Unpack.Manifest.Distinct.{IsSound, build_manifest-IsSound}
use moe_asset_updater_client.Unpack.Manifest.Archive.{
  calm, entry_rels, create_archive-build_manifest,
}

abbrev empty_file : Writer
empty_file = record { written = []; room = 4096 }

abbrev plain_bundle : Bytes
plain_bundle = plain_mark ++ 0x55 ∷ 0x6E ∷ 0x69 ∷ []

deobfuscate-wrap_example :
    (deobfuscate (wrap (0x55 ∷ 0x6E ∷ [])) ≡ 0x55 ∷ 0x6E ∷ [])
    × (deobfuscate (plain_mark ++ 0x55 ∷ 0x6E ∷ []) ≡ 0x55 ∷ 0x6E ∷ [])
deobfuscate-wrap_example = deobfuscate-wrap (0x55 ∷ 0x6E ∷ [])

deobfuscate_to_writer-deobfuscate_example :
    deobfuscate_to_writer tt empty_file
      (record { content = plain_bundle; fault = none; cut = false })
    ≡ taken empty_file (deobfuscate plain_bundle)
deobfuscate_to_writer-deobfuscate_example =
    deobfuscate_to_writer-deobfuscate tt empty_file plain_bundle (omega arith)

abbrev odd_path : Runes
odd_path = codes "dir/../voice:01/./c.wav"

sanitize_result_relative_path-IsSafePart_example :
    All IsSafePart (split_path (codes "voice_01/c.wav"))
unfolding sanitize_result_relative_path sanitize_parts sanitize_result_path_part sanitize_rune clean
    clean_parts split_path join_path equal has_prefix
sanitize_result_relative_path-IsSafePart_example =
    sanitize_result_relative_path-IsSafePart odd_path {name = codes "voice_01/c.wav"} refl

abbrev some_hash : Runes
some_hash = codes "0a1b"

abbrev pub walked : List Entry
walked =
    record { rel = codes "b.wav"; size = pos 4; sha256 = some_hash }
    ∷ record { rel = codes "a:1.mp3"; size = pos 2; sha256 = some_hash }
    ∷ []

abbrev pub all_off : ExportOptions
all_off = record {
  export_by_category = false;
  unity_version = [];
  export_mesh_obj = false;
  mesh_obj_path_patterns = [];
  export_usm_files = false;
  decode_usm_files = false;
  export_acb_files = false;
  decode_acb_files = false;
  decode_hca_files = false;
  convert_photo_to_webp = false;
  remove_png = false;
  convert_video_to_mp4 = false;
  direct_usm_to_mp4_with_ffmpeg = false;
  remove_m2v = false;
  convert_audio_to_mp3 = false;
  convert_wav_to_flac = false;
  remove_wav = false;
}

abbrev mp3_options : ExportOptions
mp3_options = record all_off {
  export_acb_files = true;
  decode_acb_files = true;
  convert_audio_to_mp3 = true;
}

abbrev pub some_task : TaskPayload
some_task = record {
  task_id = codes "t1";
  job_id = codes "j1";
  region = codes "jp";
  bundle_path = codes "music/long";
  download_path = [];
  bundle_hash = [];
  category = codes "OnDemand";
  download_url = [];
  headers = [];
  options = mp3_options;
  estimated_size_bytes = pos 0;
  queue = [];
  priority = false;
  delayed = false;
}

abbrev pub result_manifest : TaskResultManifest
result_manifest = record {
  task_id = codes "t1";
  job_id = codes "j1";
  region = codes "jp";
  bundle_path = codes "music/long";
  bundle_hash = [];
  files =
      record { path = codes "a_1.mp3"; size = pos 2; sha256 = some_hash }
      ∷ record { path = codes "b.wav"; size = pos 4; sha256 = some_hash }
      ∷ [];
}

pub result_manifest_built : build_manifest (some walked) some_task ≡ ok result_manifest
unfolding build_manifest manifest_files reject_duplicate_result_paths reject_duplicates has_path
    sort_by_path insert before sanitize_result_relative_path sanitize_parts
    sanitize_result_path_part sanitize_rune clean clean_parts split_path join_path equal has_prefix
result_manifest_built = refl

build_manifest-IsSound_example : IsSound result_manifest
build_manifest-IsSound_example =
    build_manifest-IsSound (some walked) some_task result_manifest_built

create_archive-build_manifest_example :
    (files : List ResultFile) × (result_manifest.files ≡ sort_by_path files)
    × (create_archive {E = Unit {0}} none (map calm (entry_rels walked))
        ≡ ok (map (λ (f : ResultFile). f.path) files))
create_archive-build_manifest_example =
    create_archive-build_manifest (Unit {0}) walked some_task result_manifest_built

-- The first two attempts fail, the third gives the bundle.
abbrev pub third_time : Surroundings (Unit {0})
third_time = record {
  once = λ i. if ltb i 2 then some tt else none;
  after_attempt = λ _. none;
  while_waiting = λ _. none;
}

abbrev pub two_slots : Semaphore
two_slots = record { capacity = 2; held = 1 }

download_bundle-IsReported_example :
    ((download_bundle third_time none two_slots).0 ≡ two_slots)
    × IsReported third_time (download_bundle third_time none two_slots).1
download_bundle-IsReported_example = download_bundle-IsReported third_time none two_slots

third_time_report :
    (download_bundle third_time none two_slots).1 ≡ record { tries = 3; waited = 3; error = none }
unfolding download_bundle retry_loop acquire_semaphore
third_time_report = refl

new_capacities-HasSlots_example :
    HasSlots (new_capacities (apply_defaults (λ _. none) none zero_config))
new_capacities-HasSlots_example = new_capacities-HasSlots (λ _. none) none zero_config
