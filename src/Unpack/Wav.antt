-- ===== src/Unpack/Wav.antt =====
-- The WAV files that the sound banks and the studio leave: `handleStandaloneWAVFiles`,
-- `outputFileExistsNonEmpty` and `removeFileIfExists` of internal/unpack/unpacker.go, and
-- `FindFilesByExtension` of internal/utils/utils.go. The walk over the directory does not fail.
pub mod Gone
pub mod Removed
use moe_asset_updater_client.Base.{
  ℕ, Bool, true, false, not, ◌&&◌, ◌||◌, Option, none, some, List, [], ◌∷◌, ◌++◌, ◌==◌, ltb,
  if◌then◌else◌, Bytes, codes, equal, to_lower,
}
use moe_asset_updater_client.Base.Disk.{Disk, size_of}
use moe_asset_updater_client.Protocol.{ExportOptions}
use moe_asset_updater_client.Unpack.Manifest.{ext}
use moe_asset_updater_client.Exporter.{
  Programs, Done, ConvertError, failed, output_missing, output_empty, not_found, on_success, remove,
  convert_wav_to_mp3, convert_wav_to_flac,
}

unfoldable pub has_extension : Bytes → Bytes → Bool
unfolding ext equal
has_extension x p = equal (to_lower (ext p)) x

-- The extension is in lower case.
unfoldable pub find_files_by_extension : Bytes → Disk → List Bytes
unfolding has_extension
find_files_by_extension x [] = []
find_files_by_extension x ((p, n) ∷ d) =
    let rest = find_files_by_extension x d in if has_extension x p then p ∷ rest else rest

-- `strings.TrimSuffix`.
unfoldable pub trim_suffix : Bytes → Bytes → Bytes
unfolding equal
trim_suffix [] suffix = []
trim_suffix (c ∷ cs) suffix =
    let rest = trim_suffix cs suffix in if equal (c ∷ cs) suffix then [] else c ∷ rest

abbrev pub base_path : Bytes → Bytes
base_path wav = trim_suffix wav (ext wav)

abbrev pub output_file_exists_non_empty : Bytes → Disk → Bool
output_file_exists_non_empty path d = elim (size_of path d) [ none ↦ false | some n ↦ ltb 0 n ]

abbrev pub unless_not_found : {E : Type 0} → Done E → Done E
unless_not_found (d, none) = (d, none)
unless_not_found (d, some not_found) = (d, none)
unless_not_found (d, some (failed e)) = (d, some (failed e))
unless_not_found (d, some output_missing) = (d, some output_missing)
unless_not_found (d, some output_empty) = (d, some output_empty)

unfoldable pub remove_file_if_exists : {E : Type 0} → Programs E → Bytes → Disk → Done E
unfolding remove
remove_file_if_exists w path d = unless_not_found (remove w path d)

abbrev pub remove_if : {E : Type 0} → Programs E → Bool → Bytes → Disk → Done E
remove_if w test path d = if test then remove_file_if_exists w path d else (d, none)

-- The body of the loop.
unfoldable pub handle_wav_file : {E : Type 0} → Programs E → ExportOptions → Bytes → Disk → Done E
unfolding ext trim_suffix remove_file_if_exists convert_wav_to_mp3 convert_wav_to_flac size_of
handle_wav_file w options wav d =
    let mp3 = base_path wav ++ codes ".mp3" in
    let flac = base_path wav ++ codes ".flac" in
    if options.convert_audio_to_mp3
    then if output_file_exists_non_empty mp3 d
      then remove_if w options.remove_wav wav d
      else convert_wav_to_mp3 w wav mp3 options.remove_wav d
    else if options.convert_wav_to_flac
    then if output_file_exists_non_empty flac d
      then remove_if w options.remove_wav wav d
      else convert_wav_to_flac w wav flac options.remove_wav d
    else if options.remove_wav
    then remove_file_if_exists w wav d
    else (d, none)

unfoldable pub handle_wav_files :
    {E : Type 0} → Programs E → ExportOptions → List Bytes → Disk → Done E
unfolding handle_wav_file
handle_wav_files w options [] d = (d, none)
handle_wav_files w options (wav ∷ wavs) d =
    on_success (handle_wav_file w options wav d) (handle_wav_files w options wavs)

unfoldable pub handle_standalone_wav_files :
    {E : Type 0} → Programs E → ExportOptions → Disk → Done E
unfolding handle_wav_files find_files_by_extension
handle_standalone_wav_files w options d =
    if not options.convert_audio_to_mp3 && not options.convert_wav_to_flac && not options.remove_wav
    then (d, none)
    else handle_wav_files w options (find_files_by_extension (codes ".wav") d) d
