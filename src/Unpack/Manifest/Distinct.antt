-- ===== src/Unpack/Manifest/Distinct.antt =====
-- What a manifest and an archive list.
use moe_asset_updater_client.Base.{
  ◌≡◌, ◌≢◌, refl, sym, inl, inr, Bool, true, false, Option, none, some, List, [], ◌∷◌, arith,
  if◌then◌else◌, All, equal_iff, Bool-cases,
}
use moe_asset_updater_client.Base.Outcome.{Outcome, ok, err, panic, OnOk, OnOk->>=, OnOk-at}
use moe_asset_updater_client.Protocol.{TaskPayload, ResultFile, TaskResultManifest}
use moe_asset_updater_client.Unpack.Paths.{
  Runes, PathError, duplicate_path, split_path, sanitize_result_relative_path,
}
use moe_asset_updater_client.Unpack.Paths.Safe.{
  IsSafePart, sanitize_result_relative_path-IsSafePart,
}
use moe_asset_updater_client.Unpack.Manifest.{
  Entry, has_path, reject_duplicates, reject_duplicate_result_paths, manifest_files, insert, before,
  sort_by_path, build_manifest,
}

-- The name and the elements of each stay below the root.
abbrev pub IsSafeFile : ResultFile → Type 0
IsSafeFile f = All IsSafePart (split_path f.path)

-- No two files have a path in common.
abbrev pub Distinct : List ResultFile → Type 0
Distinct [] = Unit
Distinct (f ∷ fs) = All (λ (g : ResultFile). f.path ≢ g.path) fs × Distinct fs

-- Apart from the paths seen.
abbrev Apart : List Runes → List ResultFile → Type 0
Apart seen = All (λ (g : ResultFile). has_path g.path seen ≡ false)

has_path-false :
    (p q : Runes) (qs : List Runes)
    → has_path p (q ∷ qs) ≡ false
    → (q ≢ p) × (has_path p qs ≡ false)
unfolding has_path
has_path-false p q qs h = (λ e. ground (arith, equal_iff p q), ground arith)

uncons_seen :
    (p : Runes) (seen : List Runes) (fs : List ResultFile)
    → Apart (p ∷ seen) fs
    → All (λ (g : ResultFile). p ≢ g.path) fs × Apart seen fs
uncons_seen p seen [] h = (tt, tt)
uncons_seen p seen (g ∷ gs) h =
    let (ne, out) = has_path-false g.path p seen h.0 in
    let (nes, outs) = uncons_seen p seen gs h.1 in ((ne, nes), (out, outs))

reject_duplicates-Distinct :
    (seen : List Runes) (fs : List ResultFile)
    → OnOk (λ _. Apart seen fs × Distinct fs) (reject_duplicates seen fs)
unfolding reject_duplicates
reject_duplicates-Distinct seen [] = (tt, tt)
reject_duplicates-Distinct seen (f ∷ fs) =
    on_test (has_path f.path seen) (reject_duplicates (f.path ∷ seen) fs)
      (reject_duplicates-Distinct (f.path ∷ seen) fs) refl
  where
    on_test :
        (seen_before : Bool) (r : Outcome PathError (Unit {0}))
        → OnOk (λ _. Apart (f.path ∷ seen) fs × Distinct fs) r
        → has_path f.path seen ≡ seen_before
        → OnOk
            (λ _. Apart seen (f ∷ fs) × Distinct (f ∷ fs))
            (if seen_before then err duplicate_path else r)
    on_test true r h e = tt
    on_test false (ok _) (apart, distinct) e =
        let (nes, outs) = uncons_seen f.path seen fs apart in ((e, outs), (nes, distinct))
    on_test false (err x) h e = tt
    on_test false panic h e = tt

-- Sorting keeps what holds of every file, and that no two share a path.
module _ (P : ResultFile → Type 0) where
  All-insert : (f : ResultFile) (fs : List ResultFile) → P f → All P fs → All P (insert f fs)
  unfolding insert
  All-insert f [] pf h = (pf, tt)
  All-insert f (g ∷ gs) pf h = elim (Bool-cases (before g.path f.path)) [
    | inl e ↦ rw e (h.0, All-insert f gs pf h.1)
    | inr e ↦ rw e (pf, h)
  ]

  All-sort_by_path : (fs : List ResultFile) → All P fs → All P (sort_by_path fs)
  unfolding sort_by_path
  All-sort_by_path [] h = tt
  All-sort_by_path (f ∷ fs) h = All-insert f (sort_by_path fs) h.0 (All-sort_by_path fs h.1)

apart_sym :
    (f : ResultFile) (fs : List ResultFile)
    → All (λ (g : ResultFile). f.path ≢ g.path) fs
    → All (λ (g : ResultFile). g.path ≢ f.path) fs
apart_sym f [] h = tt
apart_sym f (g ∷ gs) h = ((λ e. h.0 (sym e)), apart_sym f gs h.1)

insert-Distinct :
    (f : ResultFile) (fs : List ResultFile)
    → All (λ (g : ResultFile). f.path ≢ g.path) fs
    → Distinct fs
    → Distinct (insert f fs)
unfolding insert
insert-Distinct f [] h d = (tt, tt)
insert-Distinct f (g ∷ gs) h d = elim (Bool-cases (before g.path f.path)) [
  | inl e ↦ rw e (
    All-insert (λ (x : ResultFile). g.path ≢ x.path) f gs (λ k. h.0 (sym k)) d.0,
    insert-Distinct f gs h.1 d.1,
  )
  | inr e ↦ rw e (h, d)
]

sort_by_path-Distinct : (fs : List ResultFile) → Distinct fs → Distinct (sort_by_path fs)
unfolding sort_by_path
sort_by_path-Distinct [] d = tt
sort_by_path-Distinct (f ∷ fs) d =
    insert-Distinct f (sort_by_path fs)
      (All-sort_by_path (λ (g : ResultFile). f.path ≢ g.path) fs d.0) (sort_by_path-Distinct fs d.1)

manifest_files-IsSafeFile : (es : List Entry) → OnOk (All IsSafeFile) (manifest_files es)
unfolding manifest_files
manifest_files-IsSafeFile [] = tt
manifest_files-IsSafeFile (e ∷ es) =
    OnOk->>= (All IsSafeFile) (sanitize_result_relative_path e.rel) _ λ name named.
      OnOk->>= (All IsSafeFile) (manifest_files es) _ λ files rest. (
        sanitize_result_relative_path-IsSafePart e.rel named,
        OnOk-at (All IsSafeFile) (manifest_files es) (manifest_files-IsSafeFile es) rest,
      )

-- A manifest that is fit to be sent.
pub record IsSound (m : TaskResultManifest) : Type 0 where
  pub safe : All IsSafeFile m.files
  pub distinct : Distinct m.files

built : (walk : Option (List Entry)) (task : TaskPayload) → OnOk IsSound (build_manifest walk task)
unfolding build_manifest reject_duplicate_result_paths
built none task = record { safe = tt; distinct = tt }
built (some entries) task = OnOk->>= IsSound (manifest_files entries) _ λ files listed.
    OnOk->>= IsSound (reject_duplicates [] files) _ λ _ apart. record {
      safe = All-sort_by_path IsSafeFile files (
          OnOk-at (All IsSafeFile) (manifest_files entries) (manifest_files-IsSafeFile entries)
            listed);
      distinct =
          sort_by_path-Distinct files
            (OnOk-at (λ _. Apart [] files × Distinct files) (reject_duplicates [] files)
              (reject_duplicates-Distinct [] files) apart).1;
    }

-- Whatever the walk finds, a manifest that is built lists no path twice, and every path in it stays
-- below the root of the result.
pub build_manifest-IsSound :
    (walk : Option (List Entry)) (task : TaskPayload) {manifest : TaskResultManifest}
    → build_manifest walk task ≡ ok manifest
    → IsSound manifest
build_manifest-IsSound walk task = OnOk-at IsSound (build_manifest walk task) (built walk task)
