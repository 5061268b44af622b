-- ===== src/Unpack/Manifest.antt =====
-- The manifest and the archive of a result, of internal/unpack/unpacker.go. The walk over the export
-- directory is an argument: the files in its order, each with its path below the root, its size and
-- its hash, or none where there is no such directory. The archive walks the directory again, and what
-- it meets is another argument, with the errors of its calls. A walk of the manifest that fails, the
-- hashing and the compression of the files are not modelled.
pub mod Distinct
pub mod Outputs
pub mod Archive
use moe_asset_updater_client.Base.{
  ℕ, zero, suc, ◌+◌, Bool, true, false, not, ◌&&◌, ◌||◌, Option, none, some, List, [], ◌∷◌, ◌++◌,
  map, reverse, ltb, leb, ◌==◌, if◌then◌else◌, Bytes, codes, equal, to_lower,
}
use moe_asset_updater_client.Base.Int.{ℤ}
use moe_asset_updater_client.Base.Outcome.{Outcome, ok, err, panic, ◌>>=◌, ◌>>◌, guard}
use moe_asset_updater_client.Protocol.{ExportOptions, TaskPayload, ResultFile, TaskResultManifest}
use moe_asset_updater_client.Unpack.Paths.{
  Runes, slash, PathError, duplicate_path, sanitize_result_relative_path,
}

pub record Entry : Type 0 where
  pub rel : Runes
  pub size : ℤ
  pub sha256 : Runes

-- `_, ok := seen[path]`.
unfoldable pub has_path : Runes → List Runes → Bool
unfolding equal
has_path p [] = false
has_path p (q ∷ qs) = equal p q || has_path p qs

-- The loop, with the paths seen.
unfoldable pub reject_duplicates : List Runes → List ResultFile → Outcome PathError (Unit {0})
unfolding has_path
reject_duplicates seen [] = ok tt
reject_duplicates seen (f ∷ fs) =
    let rest = reject_duplicates (f.path ∷ seen) fs in
    if has_path f.path seen then err duplicate_path else rest

unfoldable pub reject_duplicate_result_paths : List ResultFile → Outcome PathError (Unit {0})
unfolding reject_duplicates
reject_duplicate_result_paths files = reject_duplicates [] files

-- The files of the walk with their names.
unfoldable pub manifest_files : List Entry → Outcome PathError (List ResultFile)
unfolding sanitize_result_relative_path
manifest_files [] = ok []
manifest_files (e ∷ es) = do
  name ← sanitize_result_relative_path e.rel
  files ← manifest_files es
  ok (record { path = name; size = e.size; sha256 = e.sha256 } ∷ files)

-- `a < b` on strings.
unfoldable pub before : Runes → Runes → Bool
before [] [] = false
before [] (y ∷ ys) = true
before (x ∷ xs) [] = false
before (x ∷ xs) (y ∷ ys) = ltb x y || (x == y && before xs ys)

unfoldable pub insert : ResultFile → List ResultFile → List ResultFile
unfolding before
insert f [] = f ∷ []
insert f (g ∷ gs) = if before g.path f.path then g ∷ insert f gs else f ∷ g ∷ gs

-- `sort.Slice` by path. The paths are distinct by then, so that any sort gives the same list.
unfoldable pub sort_by_path : List ResultFile → List ResultFile
unfolding insert
sort_by_path [] = []
sort_by_path (f ∷ fs) = insert f (sort_by_path fs)

-- Where the root does not exist, the walk is none.
unfoldable pub build_manifest :
    Option (List Entry) → TaskPayload → Outcome PathError TaskResultManifest
unfolding manifest_files reject_duplicate_result_paths sort_by_path
build_manifest walk task =
    let manifest : TaskResultManifest = record {
      task_id = task.task_id;
      job_id = task.job_id;
      region = task.region;
      bundle_path = task.bundle_path;
      bundle_hash = task.bundle_hash;
      files = [];
    } in
    elim walk [
      | none ↦ ok manifest
      | some entries ↦ manifest_files entries >>= λ files.
          reject_duplicate_result_paths files >> ok (record manifest { files = sort_by_path files })
    ]

-- What the walk of the archive meets: a file, or an error in place of it, and what fails of the calls
-- for it.
pub record Visit (E : Type 0) : Type 0 where
  pub rel : Runes
  -- of `WalkDir` or `filepath.Rel`
  pub walk_fails : Option E
  pub info_fails : Option E
  -- of `tar.FileInfoHeader`
  pub no_header : Option E
  pub header_fails : Option E
  pub open_fails : Option E
  pub copy_fails : Option E
  pub close_fails : Option E

pub data ArchiveError (E : Type 0) : Type 0 where
  bad_path : PathError → ArchiveError E
  io_failed : E → ArchiveError E

-- `if err != nil { return err }`.
abbrev pub unless : {E : Type 0} → Option E → Outcome (ArchiveError E) (Unit {0})
unless none = ok tt
unless (some e) = err (io_failed e)

abbrev pub archive_name : {E : Type 0} → Outcome PathError Runes → Outcome (ArchiveError E) Runes
archive_name (ok name) = ok name
archive_name (err e) = err (bad_path e)
archive_name panic = panic

-- The file is closed first, and the error of the copy comes before that of the closing.
abbrev pub copied : {E : Type 0} → Option E → Option E → Outcome (ArchiveError E) (Unit {0})
copied (some e) close_fails = err (io_failed e)
copied none close_fails = unless close_fails

abbrev pub pack_file : {E : Type 0} → Visit E → Outcome (ArchiveError E) (Unit {0})
pack_file v =
    unless v.info_fails
    >> unless v.no_header
    >> unless v.header_fails
    >> unless v.open_fails
    >> copied v.copy_fails v.close_fails

-- The walk, with the names seen: the names of the files in the archive, in its order.
unfoldable pub archive_files :
    {E : Type 0} → List Runes → List (Visit E) → Outcome (ArchiveError E) (List Runes)
unfolding sanitize_result_relative_path has_path
archive_files seen [] = ok []
archive_files seen (v ∷ vs) = unless v.walk_fails >>= λ _.
    archive_name (sanitize_result_relative_path v.rel) >>= λ name.
    let rest = archive_files (name ∷ seen) vs in
    if has_path name seen
    then err (bad_path duplicate_path)
    else pack_file v >>= λ _. rest >>= λ names. ok (name ∷ names)

-- With the error of `os.Create`. The errors of closing the archive are dropped.
unfoldable pub create_archive :
    {E : Type 0} → Option E → List (Visit E) → Outcome (ArchiveError E) (List Runes)
unfolding archive_files
create_archive create_fails visits = unless create_fails >>= λ _. archive_files [] visits

-- `filepath.Ext`: from the last dot of the last element on, on the reversed path.
unfoldable pub ext_of_reversed : Runes → Runes → Runes
ext_of_reversed [] taken = []
ext_of_reversed (r ∷ rs) taken =
    let rest = ext_of_reversed rs (r ∷ taken) in
    if r == slash then [] else if r == b'.' then r ∷ taken else rest

unfoldable pub ext : Runes → Runes
unfolding ext_of_reversed
ext path = ext_of_reversed (reverse path) []

-- `counts[ext] > 0`: the files of an extension, in any case of its letters.
unfoldable pub has_ext : Runes → List ResultFile → Bool
unfolding ext equal
has_ext x [] = false
has_ext x (f ∷ fs) = equal (to_lower (ext f.path)) x || has_ext x fs

pub data OutputError : Type 0 where
  wav_without_mp3 wav_without_flac wav_not_removed m2v_without_mp4 png_without_webp : OutputError

-- The messages of the errors, with their counts and samples, are not modelled.
unfoldable pub validate_expected_manifest_outputs :
    TaskResultManifest → ExportOptions → Outcome OutputError (Unit {0})
unfolding has_ext
validate_expected_manifest_outputs manifest export =
    let has : Runes → Bool = λ x. has_ext x manifest.files in
    let decoded = export.export_acb_files && export.decode_acb_files in
    guard
      (not
        (export.convert_audio_to_mp3 && decoded && has (codes ".wav") && not (has (codes ".mp3"))))
      wav_without_mp3
    >> guard
        (not (
          export.convert_wav_to_flac && decoded && has (codes ".wav") && not (has (codes ".flac"))))
        wav_without_flac
    >> guard
        (not (
          export.remove_wav
          && (export.convert_audio_to_mp3 || export.convert_wav_to_flac)
          && has (codes ".wav")))
        wav_not_removed
    >> guard (not (export.convert_video_to_mp4 && has (codes ".m2v") && not (has (codes ".mp4"))))
        m2v_without_mp4
    >> guard
        (not (
          export.convert_photo_to_webp
          && export.remove_png
          && has (codes ".png")
          && not (has (codes ".webp"))))
        png_without_webp
