-- ===== src/Unpack/Manifest/Archive.antt =====
-- The archive against the manifest.
use moe_asset_updater_client.Base.{
  ◌≡◌, refl, sym, ap, ◌∙◌, Bool, true, false, Option, some, none, List, [], ◌∷◌, map, All,
  if◌then◌else◌,
}
use moe_asset_updater_client.Base.Outcome.{
  Outcome, ok, err, panic, ◌>>=◌, OnOk, OnOk->>=, OnOk-at, OnOk-if, ok-injective, ◌>>◌,
}
use moe_asset_updater_client.Protocol.{TaskPayload, ResultFile, TaskResultManifest}
use moe_asset_updater_client.Unpack.Paths.{
  Runes, PathError, duplicate_path, sanitize_result_relative_path,
}
use moe_asset_updater_client.Unpack.Manifest.{
  Entry, has_path, reject_duplicates, reject_duplicate_result_paths, manifest_files, sort_by_path,
  build_manifest, Visit, ArchiveError, bad_path, unless, copied, archive_name, pack_file,
  archive_files, create_archive,
}

abbrev pub paths : List ResultFile → List Runes
paths = map (λ (f : ResultFile). f.path)

-- The files that a walk meets.
abbrev pub entry_rels : List Entry → List Runes
entry_rels = map (λ (e : Entry). e.rel)

abbrev pub visit_rels : {E : Type 0} → List (Visit E) → List Runes
visit_rels {E = E} = map (λ (v : Visit E). v.rel)

-- The names alone, where no call fails.
unfoldable archive_names : List Runes → List Runes → Outcome PathError (List Runes)
unfolding has_path sanitize_result_relative_path
archive_names seen [] = ok []
archive_names seen (r ∷ rs) = sanitize_result_relative_path r >>= λ name.
    let rest = archive_names (name ∷ seen) rs in
    if has_path name seen then err duplicate_path else rest >>= λ names. ok (name ∷ names)

-- The same test for duplicates, in both walks.
same_test :
    (seen_before : Bool) (name : Runes) (names : List Runes)
    (rejected : Outcome PathError (Unit {0})) (packed : Outcome PathError (List Runes))
    → OnOk (λ _. packed ≡ ok names) rejected
    → OnOk
        (λ _.
          (if seen_before then err duplicate_path else packed >>= λ ns. ok (name ∷ ns))
          ≡ ok (name ∷ names))
        (if seen_before then err duplicate_path else rejected)
same_test true name names rejected packed h = tt
same_test false name names (ok _) packed h = rw h
same_test false name names (err x) packed h = tt
same_test false name names panic packed h = tt

archive_names-manifest_files :
    (seen : List Runes) (es : List Entry)
    → OnOk
        (λ (files : List ResultFile).
          OnOk
            (λ _. archive_names seen (entry_rels es) ≡ ok (paths files))
            (reject_duplicates seen files))
        (manifest_files es)
unfolding archive_names manifest_files reject_duplicates
archive_names-manifest_files seen [] = refl
archive_names-manifest_files seen (e ∷ es) =
    OnOk->>= _ (sanitize_result_relative_path e.rel) _ λ name named.
      OnOk->>= _ (manifest_files es) _ λ files listed. rw named (
        same_test (has_path name seen) name (paths files) (reject_duplicates (name ∷ seen) files)
          (archive_names (name ∷ seen) (entry_rels es))
          (OnOk-at _ (manifest_files es) (archive_names-manifest_files (name ∷ seen) es) listed))

-- A visit where nothing fails.
abbrev pub calm : {E : Type 0} → Runes → Visit E
calm r = record {
  rel = r;
  walk_fails = none;
  info_fails = none;
  no_header = none;
  header_fails = none;
  open_fails = none;
  copy_fails = none;
  close_fails = none;
}

module _ (E : Type 0) where
  calm_end :
      (seen_before : Bool) (name : Runes) (rest : Outcome PathError (List Runes))
      (packed : Outcome (ArchiveError E) (List Runes))
      → OnOk (λ ns. packed ≡ ok ns) rest
      → OnOk
          (λ names.
            (if seen_before then err (bad_path duplicate_path) else packed >>= λ ns. ok (name ∷ ns))
            ≡ ok names)
          (if seen_before then err duplicate_path else rest >>= λ ns. ok (name ∷ ns))
  calm_end true name rest packed h = tt
  calm_end false name (ok ns) packed h = rw h refl
  calm_end false name (err x) packed h = tt
  calm_end false name panic packed h = tt

  -- Where nothing fails, the names are all that there is to it.
  archive_files-calm :
      (seen rs : List Runes)
      → OnOk (λ names. archive_files {E = E} seen (map calm rs) ≡ ok names) (archive_names seen rs)
  unfolding archive_files archive_names
  archive_files-calm seen [] = refl
  archive_files-calm seen (r ∷ rs) = OnOk->>= _ (sanitize_result_relative_path r) _ λ name named.
      rw named (
        calm_end (has_path name seen) name (archive_names (name ∷ seen) rs)
          (archive_files (name ∷ seen) (map calm rs)) (archive_files-calm (name ∷ seen) rs))

module _ {E : Type 0} where
  names_end :
      (seen_before : Bool) (name : Runes) (rest : Outcome PathError (List Runes))
      (file : Outcome (ArchiveError E) (Unit {0})) (packed : Outcome (ArchiveError E) (List Runes))
      → OnOk (λ ns. rest ≡ ok ns) packed
      → OnOk
          (λ names.
            (if seen_before then err duplicate_path else rest >>= λ ns. ok (name ∷ ns)) ≡ ok names)
          (if seen_before
            then err (bad_path duplicate_path)
            else file >>= λ _. packed >>= λ ns. ok (name ∷ ns))
  names_end true name rest file packed h = tt
  names_end false name rest (ok _) (ok ns) h = rw h refl
  names_end false name rest (ok _) (err x) h = tt
  names_end false name rest (ok _) panic h = tt
  names_end false name rest (err x) packed h = tt
  names_end false name rest panic packed h = tt

  unpacked :
      (o : Outcome PathError Runes) {name : Runes} → archive_name {E = E} o ≡ ok name → o ≡ ok name
  unpacked (ok n) e = ap ok (ok-injective e)
  unpacked (err x) e = cc
  unpacked panic e = cc

  names_step :
      (seen : List Runes) (v : Visit E) (rs : List Runes) {name : Runes}
      (packed : Outcome (ArchiveError E) (List Runes))
      → sanitize_result_relative_path v.rel ≡ ok name
      → OnOk (λ ns. archive_names (name ∷ seen) rs ≡ ok ns) packed
      → OnOk
          (λ names. archive_names seen (v.rel ∷ rs) ≡ ok names)
          (if has_path name seen
            then err (bad_path duplicate_path)
            else pack_file v >>= λ _. packed >>= λ ns. ok (name ∷ ns))
  unfolding archive_names
  names_step seen v rs {name} packed named h =
      rw named (
        names_end (has_path name seen) name (archive_names (name ∷ seen) rs) (pack_file v) packed h)

  -- What is packed without an error has the names that the files alone give.
  archive_files-names :
      (seen : List Runes) (vs : List (Visit E))
      → OnOk (λ names. archive_names seen (visit_rels vs) ≡ ok names) (archive_files seen vs)
  unfolding archive_files archive_names
  archive_files-names seen [] = refl
  archive_files-names seen (v ∷ vs) = OnOk->>= _ (unless v.walk_fails) _ λ _ _.
      OnOk->>= _ (archive_name (sanitize_result_relative_path v.rel)) _ λ name named.
        names_step seen v (visit_rels vs) (archive_files (name ∷ seen) vs)
          (unpacked (sanitize_result_relative_path v.rel) named)
          (archive_files-names (name ∷ seen) vs)

-- No call for the file failed.
abbrev pub IsCalm : {E : Type 0} → Visit E → Type 0
IsCalm v =
    (v.walk_fails ≡ none)
    × (v.info_fails ≡ none)
    × (v.no_header ≡ none)
    × (v.header_fails ≡ none)
    × (v.open_fails ≡ none)
    × (v.copy_fails ≡ none)
    × (v.close_fails ≡ none)

module _ {E : Type 0} where
  calm_one : (a : Option E) {u : Unit {0}} → unless a ≡ ok u → a ≡ none
  calm_one none h = refl
  calm_one (some e) h = cc

  calm_six :
      (a b c d e f : Option E) {u : Unit {0}}
      → (unless a >> unless b >> unless c >> unless d >> copied e f) ≡ ok u
      → (a ≡ none) × (b ≡ none) × (c ≡ none) × (d ≡ none) × (e ≡ none) × (f ≡ none)
  calm_six none none none none none none h = (refl, refl, refl, refl, refl, refl)
  calm_six (some x) b c d e f h = cc
  calm_six none (some x) c d e f h = cc
  calm_six none none (some x) d e f h = cc
  calm_six none none none (some x) e f h = cc
  calm_six none none none none (some x) f h = cc
  calm_six none none none none none (some x) h = cc

  -- What is packed without an error had no call that failed.
  archive_files-IsCalm :
      (seen : List Runes) (vs : List (Visit E)) → OnOk (λ _. All IsCalm vs) (archive_files seen vs)
  unfolding archive_files
  archive_files-IsCalm seen [] = tt
  archive_files-IsCalm seen (v ∷ vs) = OnOk->>= _ (unless v.walk_fails) _ λ _ met.
      OnOk->>= _ (archive_name (sanitize_result_relative_path v.rel)) _ λ name _.
        OnOk-if _ (has_path name seen) _ _ (λ _. tt)
          λ _. OnOk->>= _ (pack_file v) _ λ _ packed.
            OnOk->>= _ (archive_files (name ∷ seen) vs) _ λ names rest.
              let (info, header, written, opened, copy, close) =
                calm_six v.info_fails v.no_header v.header_fails v.open_fails v.copy_fails
                  v.close_fails packed in
              (
                (calm_one v.walk_fails met, info, header, written, opened, copy, close),
                OnOk-at _ (archive_files (name ∷ seen) vs) (archive_files-IsCalm (name ∷ seen) vs)
                    rest,
              )

-- The names of the files that a manifest of these entries lists, before they are sorted.
abbrev Listed : List Entry → TaskResultManifest → Type 0
Listed entries m =
    (files : List ResultFile) × (m.files ≡ sort_by_path files)
    × (archive_names [] (entry_rels entries) ≡ ok (paths files))

build_manifest-Listed :
    (entries : List Entry) (task : TaskPayload)
    → OnOk (Listed entries) (build_manifest (some entries) task)
unfolding build_manifest reject_duplicate_result_paths
build_manifest-Listed entries task = OnOk->>= _ (manifest_files entries) _ λ files listed.
    OnOk->>= _ (reject_duplicates [] files) _ λ _ apart. (
      files,
      refl,
      OnOk-at _ (reject_duplicates [] files)
          (OnOk-at _ (manifest_files entries) (archive_names-manifest_files [] entries) listed)
          apart,
    )

-- Where a manifest is built of a walk and the archive is made, its walk meets the same files and no
-- call for it fails, the archive is packed without an error and holds a file under each path that the
-- manifest lists and no other: the manifest's files are those of the archive, sorted.
pub create_archive-build_manifest :
    (E : Type 0) (entries : List Entry) (task : TaskPayload) {manifest : TaskResultManifest}
    → build_manifest (some entries) task ≡ ok manifest
    → (files : List ResultFile) × (manifest.files ≡ sort_by_path files)
      × (create_archive {E = E} none (map calm (entry_rels entries)) ≡ ok (paths files))
unfolding create_archive
create_archive-build_manifest E entries task built =
    let (files, sorted, names) =
      OnOk-at (Listed entries) (build_manifest (some entries) task)
        (build_manifest-Listed entries task) built in
    (
      files,
      sorted,
      OnOk-at _ (archive_names [] (entry_rels entries))
          (archive_files-calm E [] (entry_rels entries)) names,
    )

-- Where a manifest is built of a walk and the archive is packed without an error, whatever might have
-- failed, and its walk met the same files, their names are those of the manifest, and no call failed.
pub create_archive-names :
    {E : Type 0} (entries : List Entry) (task : TaskPayload) {manifest : TaskResultManifest}
    (create_fails : Option E) (visits : List (Visit E)) {names : List Runes}
    → visit_rels visits ≡ entry_rels entries
    → build_manifest (some entries) task ≡ ok manifest
    → create_archive create_fails visits ≡ ok names
    → (files : List ResultFile) × (manifest.files ≡ sort_by_path files)
      × (names ≡ paths files)
      × All IsCalm visits
unfolding create_archive
create_archive-names entries task create_fails visits {names} same built archived =
    let (files, sorted, listed) =
      OnOk-at (Listed entries) (build_manifest (some entries) task)
        (build_manifest-Listed entries task) built in
    let packed : archive_names [] (visit_rels visits) ≡ ok names =
      OnOk-at (λ ns. archive_names [] (visit_rels visits) ≡ ok ns)
        (unless create_fails >>= λ _. archive_files [] visits)
        (OnOk->>= _ (unless create_fails) _ λ _ _. archive_files-names [] visits) archived in
    (
      files,
      sorted,
      ok-injective (sym packed ∙ ap (archive_names []) same ∙ listed),
      OnOk-at (λ _. All IsCalm visits) (unless create_fails >>= λ _. archive_files [] visits)
          (OnOk->>= _ (unless create_fails) _ λ _ _. archive_files-IsCalm [] visits) archived,
    )
