-- ===== src/Unpack/Wav/Gone.antt =====
-- What the removals and conversions of single files leave where they succeed.
use moe_asset_updater_client.Base.{
  ℕ, zero, suc, ◌≡◌, refl, ap, ◌∙◌, inl, inr, true, false, Option, none, some, List, arith,
  if◌then◌else◌, Bytes, equal, equal_iff, Bool-cases,
}
use moe_asset_updater_client.Base.Disk.{Disk, size_of, size_of-delete}
use moe_asset_updater_client.Exporter.{
  Programs, Done, on_success, run, run_done, remove, remove_found, validate_output_file,
  validate_found, delete_found, delete_original,
}
use moe_asset_updater_client.Unpack.Wav.{unless_not_found, remove_file_if_exists}

module _ {E : Type 0} where
  pub on_success-none :
      (m : Done E) (k : Disk → Done E)
      → (on_success m k).1 ≡ none
      → (m.1 ≡ none) × (on_success m k ≡ k m.0)
  on_success-none (d, none) k h = (refl, refl)
  on_success-none (d, some e) k h = cc

-- The file is gone, and the others are as they were.
abbrev pub Drops : Bytes → Disk → Disk → Type 0
Drops path before after =
    (p : Bytes) → size_of p after ≡ (if equal p path then none else size_of p before)

absent-Drops : (path : Bytes) (d : Disk) → size_of path d ≡ none → Drops path d d
absent-Drops path d h p = elim (Bool-cases (equal p path)) [
  | inl e ↦ rw e (ap (λ q. size_of q d) ((equal_iff p path).0 e) ∙ h)
  | inr e ↦ rw e refl
]

module _ {E : Type 0} where
  remove_found-Drops :
      (path : Bytes) (d : Disk) (found : Option ℕ) (e : Option E)
      → (remove_found path d found e).1 ≡ none
      → Drops path d (remove_found path d found e).0
  remove_found-Drops path d none e h p = cc
  remove_found-Drops path d (some n) (some e) h p = cc
  remove_found-Drops path d (some n) none h p = size_of-delete path p d

  if_exists-Drops :
      (path : Bytes) (d : Disk) (found : Option ℕ) (e : Option E)
      → size_of path d ≡ found
      → (unless_not_found (remove_found path d found e)).1 ≡ none
      → Drops path d (unless_not_found (remove_found path d found e)).0
  if_exists-Drops path d none e k h p = absent-Drops path d k p
  if_exists-Drops path d (some n) (some e) k h p = cc
  if_exists-Drops path d (some n) none k h p = size_of-delete path p d

module _ {E : Type 0} (w : Programs E) where
  validate_found_same :
      (path : Bytes) (d : Disk) (found : Option ℕ)
      → (validate_found w path d found).1 ≡ none
      → (validate_found w path d found).0 ≡ d
  validate_found_same path d none h = cc
  validate_found_same path d (some zero) h = cc
  validate_found_same path d (some (suc n)) h = ground arith

  delete_found-Drops :
      (path : Bytes) (d : Disk) (found : Option ℕ)
      → size_of path d ≡ found
      → (delete_found w path d found).1 ≡ none
      → Drops path d (delete_found w path d found).0
  unfolding remove
  delete_found-Drops path d none k h = absent-Drops path d k
  delete_found-Drops path d (some n) k h =
      remove_found-Drops path d (size_of path d) (w.remove_fails path d) h

  pub remove_file_if_exists-Drops :
      (path : Bytes) (d : Disk)
      → (remove_file_if_exists w path d).1 ≡ none
      → Drops path d (remove_file_if_exists w path d).0
  unfolding remove_file_if_exists remove
  remove_file_if_exists-Drops path d h =
      if_exists-Drops path d (size_of path d) (w.remove_fails path d) refl h

  pub run_ffmpeg : (args : List Bytes) (d : Disk) → (run w args d).0 ≡ (w.ffmpeg args d).0
  run_ffmpeg args d = given (w.ffmpeg args d)
    where
      given : (r : Disk × Option E) → (run_done r).0 ≡ r.0
      given (after, none) = refl
      given (after, some x) = refl

  pub delete_original-Drops :
      (path : Bytes) (d : Disk)
      → (delete_original w true path d).1 ≡ none
      → Drops path d (delete_original w true path d).0
  unfolding delete_original
  delete_original-Drops path d h = delete_found-Drops path d (size_of path d) refl h

  pub validate_output_file_same :
      (path : Bytes) (d : Disk)
      → (validate_output_file w path d).1 ≡ none
      → (validate_output_file w path d).0 ≡ d
  unfolding validate_output_file
  validate_output_file_same path d h = validate_found_same path d (size_of path d) h

-- The WAV file is gone, and no other file but the output has changed.
abbrev pub Converts : Bytes → Bytes → Disk → Disk → Type 0
Converts wav out before after =
    (p : Bytes)
    → equal p out ≡ false
    → size_of p after ≡ (if equal p wav then none else size_of p before)
