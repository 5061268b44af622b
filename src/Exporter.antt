-- ===== src/Exporter.antt =====
-- The conversions of media files by ffmpeg, of internal/exporter/converter.go. ffmpeg is an argument:
-- what it does to the disk, and whether it fails. So is whether a removal fails. The messages of the
-- errors are not modelled.
use moe_asset_updater_client.Base.{
  ℕ, Bool, true, false, Option, none, some, List, [], ◌∷◌, ◌++◌, ◌==◌, if◌then◌else◌, Bytes, codes,
}
use moe_asset_updater_client.Base.Disk.{Disk, size_of, delete}

pub data ConvertError (E : Type 0) : Type 0 where
  failed : E → ConvertError E
  output_missing output_empty not_found : ConvertError E

-- The outcome of a call, with the disk after it.
abbrev pub Done : Type 0 → Type 0
Done E = Disk × Option (ConvertError E)

-- The other programs and the system.
pub record Programs (E : Type 0) : Type 0 where
  pub ffmpeg : List Bytes → Disk → Disk × Option E
  pub remove_fails : Bytes → Disk → Option E

-- `if err != nil { return err }`, then the rest.
abbrev pub on_success : {E : Type 0} → Done E → (Disk → Done E) → Done E
on_success (d, none) k = k d
on_success (d, some e) k = (d, some e)

abbrev pub remove_found : {E : Type 0} → Bytes → Disk → Option ℕ → Option E → Done E
remove_found p d none e = (d, some not_found)
remove_found p d (some n) (some e) = (d, some (failed e))
remove_found p d (some n) none = (delete p d, none)

-- `os.Remove`.
unfoldable pub remove : {E : Type 0} → Programs E → Bytes → Disk → Done E
unfolding size_of delete
remove w p d = remove_found p d (size_of p d) (w.remove_fails p d)

abbrev pub run_done : {E : Type 0} → Disk × Option E → Done E
run_done (after, none) = (after, none)
run_done (after, some e) = (after, some (failed e))

abbrev pub run : {E : Type 0} → Programs E → List Bytes → Disk → Done E
run w args d = run_done (w.ffmpeg args d)

abbrev pub base_args : List Bytes
base_args = codes "-hide_banner" ∷ codes "-nostats" ∷ codes "-loglevel" ∷ codes "error" ∷ []

abbrev pub ffmpeg_base_args : List Bytes → List Bytes
ffmpeg_base_args args = base_args ++ args

-- An empty output is removed, and an error of that is ignored.
abbrev pub validate_found : {E : Type 0} → Programs E → Bytes → Disk → Option ℕ → Done E
validate_found w path d none = (d, some output_missing)
validate_found w path d (some n) =
    if n == 0 then ((remove w path d).0, some output_empty) else (d, none)

unfoldable pub validate_output_file : {E : Type 0} → Programs E → Bytes → Disk → Done E
unfolding size_of
validate_output_file w path d = validate_found w path d (size_of path d)

abbrev pub delete_found : {E : Type 0} → Programs E → Bytes → Disk → Option ℕ → Done E
delete_found w path d none = (d, none)
delete_found w path d (some n) = remove w path d

-- The original is removed where it is still there.
unfoldable pub delete_original : {E : Type 0} → Programs E → Bool → Bytes → Disk → Done E
unfolding size_of
delete_original w false path d = (d, none)
delete_original w true path d = delete_found w path d (size_of path d)

-- What the two conversions of audio share.
unfoldable pub converted :
    {E : Type 0} → Programs E → List Bytes → Bytes → Bytes → Bool → Disk → Done E
unfolding validate_output_file delete_original
converted w args wav out delete_wav d =
    on_success (run w args d)
      λ d. on_success (validate_output_file w out d) λ d. delete_original w delete_wav wav d

unfoldable pub convert_wav_to_mp3 : {E : Type 0} → Programs E → Bytes → Bytes → Bool → Disk → Done E
unfolding converted
convert_wav_to_mp3 w wav mp3 delete_wav d =
    let args =
      ffmpeg_base_args (codes "-i" ∷ wav ∷ codes "-b:a" ∷ codes "320k" ∷ codes "-y" ∷ mp3 ∷ []) in
    converted w args wav mp3 delete_wav d

unfoldable pub convert_wav_to_flac :
    {E : Type 0} → Programs E → Bytes → Bytes → Bool → Disk → Done E
unfolding converted
convert_wav_to_flac w wav flac delete_wav d =
    let args =
      ffmpeg_base_args
        (codes "-i" ∷ wav ∷ codes "-compression_level" ∷ codes "12" ∷ codes "-y" ∷ flac ∷ []) in
    converted w args wav flac delete_wav d

unfoldable pub convert_usm_to_mp4 : {E : Type 0} → Programs E → Bytes → Bytes → Disk → Done E
unfolding validate_output_file
convert_usm_to_mp4 w usm mp4 d =
    let args = ffmpeg_base_args (
      codes "-i"
      ∷ usm
      ∷ codes "-c:v"
      ∷ codes "libx264"
      ∷ codes "-c:a"
      ∷ codes "aac"
      ∷ codes "-b:a"
      ∷ codes "192k"
      ∷ codes "-movflags"
      ∷ codes "+faststart"
      ∷ codes "-y"
      ∷ mp4
      ∷ []) in
    on_success (run w args d) λ d. validate_output_file w mp4 d

-- The rate of the frames as ffmpeg reads it, where one is known.
abbrev pub rate_args : Option Bytes → List Bytes
rate_args none = []
rate_args (some rate) = codes "-r" ∷ rate ∷ []

unfoldable pub convert_m2v_to_mp4 :
    {E : Type 0} → Programs E → Bytes → Bytes → Bool → Option Bytes → Disk → Done E
unfolding remove validate_output_file
convert_m2v_to_mp4 w m2v mp4 delete_m2v rate d =
    let args = ffmpeg_base_args (
      rate_args rate
      ++ codes "-i"
        ∷ m2v
        ∷ codes "-c:v"
        ∷ codes "libx264"
        ∷ (rate_args rate ++ codes "-y" ∷ mp4 ∷ [])) in
    on_success (run w args d) λ d.
      on_success (validate_output_file w mp4 d)
        λ d. if delete_m2v then remove w m2v d else (d, none)
