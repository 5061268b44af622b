-- ===== src/Usm/Extract.antt =====
-- `ExtractUSM`, `ExtractUSMFile` and `createOutputFiles` of internal/cricodecs/usm/usm.go, and the
-- functions of internal/cricodecs/usm/metadata.go that open a file. The decoder of Shift JIS, `os.Open`
-- and `os.Create` are arguments: the content of a file, and whether a file can be created. The writes
-- succeed; what a call that fails leaves on the disk is not modelled.
pub mod Whole
pub mod Rounds
use moe_asset_updater_client.Base.{
  ℕ, suc, Bool, true, false, ◌&&◌, Option, none, some, List, [], ◌∷◌, ◌++◌, if◌then◌else◌, length,
  Bytes, codes,
}
use mathlib.Core.Option
use moe_asset_updater_client.Base.Int.{ℤ}
use moe_asset_updater_client.Base.Outcome.{Outcome, ok, err, panic, ◌>>=◌}
use moe_asset_updater_client.Acb.Reader.{ReadError}
use moe_asset_updater_client.Unpack.Manifest.{ext}
use moe_asset_updater_client.Unpack.Export.{base, join_clean}
use moe_asset_updater_client.Unpack.Wav.{trim_suffix}
use moe_asset_updater_client.Usm.Masks.{Masks, get_mask}
use moe_asset_updater_client.Usm.Chunks.{Outputs, extract_chunks}
use moe_asset_updater_client.Usm.Header.{UsmError, parse_usm_header}
use moe_asset_updater_client.Usm.Metadata.{Metadata, Section, read_metadata, video_frame_rate}
use moe_asset_updater_client.Usm.Metadata.Text.{Decoder}

pub data FileError (E : Type 0) : Type 0 where
  -- from `os.Open` or `os.Create`
  file_failed : E → FileError E
  usm_failed : UsmError → FileError E
  read_failed : ReadError → FileError E
  no_frame_rate : FileError E
  -- the rounds of the model ran out
  out_of_rounds : FileError E

abbrev pub from_usm : {E A : Type 0} → Outcome UsmError A → Outcome (FileError E) A
from_usm (ok a) = ok a
from_usm (err e) = err (usm_failed e)
from_usm panic = panic

-- The paths of the video and of the audio, where that is written.
abbrev pub Paths : Type 0
Paths = Bytes × Option Bytes

module _ {E : Type 0} (create : Bytes → Option E) where
  abbrev pub created : Bytes → Outcome (FileError E) Bytes
  created path = elim (create path) [ none ↦ ok path | some e ↦ err (file_failed e) ]

  abbrev pub create_audio : Bool → Bytes → Bytes → Outcome (FileError E) Paths
  create_audio false video_path audio_path = ok (video_path, none)
  create_audio true video_path audio_path =
      created audio_path >>= λ path. ok (video_path, some path)

  unfoldable pub create_output_files : Bytes → Bytes → Bool → Bool → Outcome (FileError E) Paths
  create_output_files target_dir decoded_filename has_audio export_audio =
      let base_name = trim_suffix decoded_filename (ext decoded_filename) in
      let path_of : Bytes → Bytes = λ x. join_clean (target_dir ∷ (base_name ++ x) ∷ []) in
      created (path_of (codes ".m2v")) >>= λ video_path.
      create_audio (has_audio && export_audio) video_path (path_of (codes ".adx"))

abbrev with_audio : Option Bytes → Option Bytes → List (Bytes × Bytes)
with_audio (some path) (some written) = (path, written) ∷ []
with_audio (some path) none = []
with_audio none written = []

-- The files and what was written to them.
abbrev pub output_files : Paths → Outputs → List (Bytes × Bytes)
output_files (video_path, audio_path) outs =
    (video_path, outs.video) ∷ with_audio audio_path outs.audio

abbrev pub from_chunks :
    {E : Type 0}
    → Paths
    → Option (Outcome ReadError Outputs)
    → Outcome (FileError E) (List (Bytes × Bytes))
from_chunks paths none = err out_of_rounds
from_chunks paths (some (ok outs)) = ok (output_files paths outs)
from_chunks paths (some (err e)) = err (read_failed e)
from_chunks paths (some panic) = panic

abbrev pub decoded : Decoder → Bytes → Bytes
decoded shift_jis filename = elim (shift_jis filename) [ none ↦ filename | some name ↦ name ]

-- The empty files.
abbrev pub opened : Paths → Outputs
opened (video_path, audio_path) = record { video = []; audio = Option.map (λ path. []) audio_path }

-- More rounds than the file has bytes.
abbrev pub rounds : Bytes → ℕ
rounds content = suc (length content)

module _ {E : Type 0} (create : Bytes → Option E) (shift_jis : Decoder) where
  -- The output files with their contents.
  unfoldable pub extract_usm :
      Bytes → Bytes → Bytes → Option ℕ → Bool → Outcome (FileError E) (List (Bytes × Bytes))
  extract_usm content target_dir fallback_name key export_audio =
      from_usm (parse_usm_header content fallback_name) >>= λ (filename, has_audio, start).
      create_output_files create target_dir (decoded shift_jis filename) has_audio export_audio
      >>= λ paths.
          from_chunks paths
            (extract_chunks content (Option.map get_mask key) (rounds content) start (opened paths))

  abbrev pub open_with : Outcome E Bytes → Outcome (FileError E) Bytes
  open_with (ok content) = ok content
  open_with (err e) = err (file_failed e)
  open_with panic = panic

  unfoldable pub extract_usm_file :
      (Bytes → Outcome E Bytes)
      → Bytes
      → Bytes
      → Option ℕ
      → Bool
      → Outcome (FileError E) (List (Bytes × Bytes))
  extract_usm_file open_file usm_path target_dir key export_audio =
      open_with (open_file usm_path) >>= λ content.
      extract_usm content target_dir (base usm_path) key export_audio

  unfoldable pub read_metadata_file :
      (Bytes → Outcome E Bytes) → Bytes → Outcome (FileError E) Metadata
  read_metadata_file open_file usm_path = open_with (open_file usm_path) >>= λ content.
      from_usm (read_metadata shift_jis content (base usm_path))

  abbrev pub rate_found : Option (ℤ × ℤ) → Outcome (FileError E) (ℤ × ℤ)
  rate_found none = err no_frame_rate
  rate_found (some rate) = ok rate

  unfoldable pub read_video_frame_rate_file :
      (ℕ → ℤ) → (Bytes → Outcome E Bytes) → Bytes → Outcome (FileError E) (ℤ × ℤ)
  read_video_frame_rate_file float_to_int open_file usm_path =
      read_metadata_file open_file usm_path >>= λ metadata.
      rate_found (video_frame_rate float_to_int metadata.sections)
