-- ===== src/Unpack/Wav/Removed.antt =====
-- What the handling of WAV files leaves where it succeeds.
use moe_asset_updater_client.Base.{
  ℕ, ◌≡◌, refl, sym, ap, ◌∙◌, ◌⊎◌, inl, inr, Bool, true, false, not, ◌&&◌, ◌||◌, Option, none, List,
  [], ◌∷◌, ◌++◌, arith, if◌then◌else◌, Bytes, codes, equal, equal_iff, to_lower, Bool-cases,
}
use mathlib.Core.List.{reverse-append}
use moe_asset_updater_client.Base.Disk.{Disk, size_of}
use moe_asset_updater_client.Protocol.{ExportOptions}
use moe_asset_updater_client.Unpack.Manifest.{ext, ext_of_reversed, has_path}
use moe_asset_updater_client.Unpack.Export.{last_or}
use moe_asset_updater_client.Exporter.{
  Programs, Done, run, validate_output_file, converted, convert_wav_to_mp3, convert_wav_to_flac,
}
use moe_asset_updater_client.Unpack.Wav.{
  has_extension, find_files_by_extension, base_path, output_file_exists_non_empty, remove_if,
  handle_wav_file, handle_wav_files, handle_standalone_wav_files,
}
use moe_asset_updater_client.Unpack.Wav.Gone.{
  on_success-none, remove_file_if_exists-Drops, run_ffmpeg, delete_original-Drops,
  validate_output_file_same, Converts,
}

abbrev pub is_wav : Bytes → Bool
is_wav = has_extension (codes ".wav")

-- Of the WAV files this one is gone and the others are as they were, if the call succeeded.
abbrev Lost : {E : Type 0} → Bytes → Disk → Done E → Type 0
Lost wav before m =
    m.1 ≡ none
    → (p : Bytes) → is_wav p ≡ true
    → size_of p m.0 ≡ (if equal p wav then none else size_of p before)

if-Lost :
    {E : Type 0} (wav : Bytes) (d : Disk) (b : Bool) (m n : Done E)
    → Lost wav d m
    → Lost wav d n
    → Lost wav d (if b then m else n)
if-Lost wav d true m n km kn = km
if-Lost wav d false m n km kn = kn

remove_if-Lost :
    {E : Type 0} (w : Programs E) (b : Bool) (wav : Bytes) (d : Disk)
    → b ≡ true
    → Lost wav d (remove_if w b wav d)
remove_if-Lost w true wav d r h p is = remove_file_if_exists-Drops w wav d h p
remove_if-Lost w false wav d r h p is = cc

listed :
    (d : Disk) (p : Bytes)
    → is_wav p ≡ true
    → (has_path p (find_files_by_extension (codes ".wav") d) ≡ true) ⊎ (size_of p d ≡ none)
unfolding has_path find_files_by_extension size_of
listed [] p is = inr refl
listed ((q, n) ∷ d) p is = ground (arith, listed d p is, equal_iff p q)

ext_mp3 : (x : Bytes) → ext (x ++ codes ".mp3") ≡ codes ".mp3"
unfolding ext ext_of_reversed
ext_mp3 x = rw (reverse-append x (codes ".mp3")) refl

ext_flac : (x : Bytes) → ext (x ++ codes ".flac") ≡ codes ".flac"
unfolding ext ext_of_reversed
ext_flac x = rw (reverse-append x (codes ".flac")) refl

-- A path with another extension than a WAV file's is none.
not_wav :
    (q p : Bytes) {x : Bytes}
    → is_wav p ≡ true
    → ext q ≡ x
    → equal (to_lower x) (codes ".wav") ≡ false
    → equal p q ≡ false
unfolding has_extension
not_wav q p h e other = elim (Bool-cases (equal p q)) [
  | inl same ↦ absurd (
      apart (
        sym (
          ap (λ y. equal (to_lower y) (codes ".wav")) (sym (ap ext ((equal_iff p q).0 same) ∙ e))
          ∙ h)
        ∙ other))
  | inr differs ↦ differs
]
  where
    apart : true ≡ false → ⊥
    apart e = cc

mp3_not_wav : (x p : Bytes) → is_wav p ≡ true → equal p (x ++ codes ".mp3") ≡ false
unfolding equal
mp3_not_wav x p h = not_wav (x ++ codes ".mp3") p h (ext_mp3 x) refl

flac_not_wav : (x p : Bytes) → is_wav p ≡ true → equal p (x ++ codes ".flac") ≡ false
unfolding equal
flac_not_wav x p h = not_wav (x ++ codes ".flac") p h (ext_flac x) refl

-- ffmpeg changes no file but its output, which is its last argument.
module _ {E : Type 0} (w : Programs E)
    (kept : (args : List Bytes) (d : Disk) (p : Bytes)
      → equal p (last_or [] args) ≡ false
      → size_of p (w.ffmpeg args d).0 ≡ size_of p d) where
  converted-Converts :
      (args : List Bytes) (wav out : Bytes) (d : Disk)
      → last_or [] args ≡ out
      → (converted w args wav out true d).1 ≡ none
      → Converts wav out d (converted w args wav out true d).0
  unfolding converted
  converted-Converts args wav out d l h p e =
      let (ran, at_ran) = on_success-none (run w args d) _ h in
      let (valid, at_valid) =
        on_success-none (validate_output_file w out (run w args d).0) _
          (sym (ap (λ r. r.1) at_ran) ∙ h) in
      let last = delete_original-Drops w wav _ (sym (ap (λ r. r.1) (at_ran ∙ at_valid)) ∙ h) p in
      ap (λ r. size_of p r.0) (at_ran ∙ at_valid)
      ∙ last
      ∙ ap (λ s. if equal p wav then none else s)
          (ap (size_of p)
              (validate_output_file_same w out (run w args d).0 valid ∙ run_ffmpeg w args d)
            ∙ kept args d p (ap (equal p) l ∙ e))

  convert_wav_to_mp3-Lost :
      (wav x : Bytes) (b : Bool) (d : Disk)
      → b ≡ true
      → Lost wav d (convert_wav_to_mp3 w wav (x ++ codes ".mp3") b d)
  unfolding convert_wav_to_mp3
  convert_wav_to_mp3-Lost wav x true d r h p is =
      converted-Converts _ wav (x ++ codes ".mp3") d refl h p (mp3_not_wav x p is)
  convert_wav_to_mp3-Lost wav x false d r h p is = cc

  convert_wav_to_flac-Lost :
      (wav x : Bytes) (b : Bool) (d : Disk)
      → b ≡ true
      → Lost wav d (convert_wav_to_flac w wav (x ++ codes ".flac") b d)
  unfolding convert_wav_to_flac
  convert_wav_to_flac-Lost wav x true d r h p is =
      converted-Converts _ wav (x ++ codes ".flac") d refl h p (flac_not_wav x p is)
  convert_wav_to_flac-Lost wav x false d r h p is = cc

  handle_wav_file-Lost :
      (options : ExportOptions) (wav : Bytes) (d : Disk)
      → options.remove_wav ≡ true
      → Lost wav d (handle_wav_file w options wav d)
  unfolding handle_wav_file
  handle_wav_file-Lost options wav d r =
      if-Lost wav d options.convert_audio_to_mp3 _ _
        (if-Lost wav d (output_file_exists_non_empty (base_path wav ++ codes ".mp3") d) _ _
          (remove_if-Lost w options.remove_wav wav d r)
          (convert_wav_to_mp3-Lost wav (base_path wav) options.remove_wav d r))
        (if-Lost wav d options.convert_wav_to_flac _ _
          (if-Lost wav d (output_file_exists_non_empty (base_path wav ++ codes ".flac") d) _ _
            (remove_if-Lost w options.remove_wav wav d r)
            (convert_wav_to_flac-Lost wav (base_path wav) options.remove_wav d r))
          (remove_if-Lost w options.remove_wav wav d r))

  handle_wav_files_gone :
      (options : ExportOptions) (wavs : List Bytes) (d : Disk)
      → options.remove_wav ≡ true
      → (handle_wav_files w options wavs d).1 ≡ none
      → (p : Bytes) → is_wav p ≡ true
      → size_of p (handle_wav_files w options wavs d).0
        ≡ (if has_path p wavs then none else size_of p d)
  unfolding handle_wav_files has_path
  handle_wav_files_gone options [] d r h p is = refl
  handle_wav_files_gone options (wav ∷ wavs) d r h p is =
      let (first, then_rest) =
        on_success-none (handle_wav_file w options wav d) (handle_wav_files w options wavs) h in
      let rest =
        handle_wav_files_gone options wavs (handle_wav_file w options wav d).0 r
          (sym (ap (λ m. m.1) then_rest) ∙ h) p is in
      ap (λ m. size_of p m.0) then_rest
      ∙ rest
      ∙ ap (λ s. if has_path p wavs then none else s)
          (handle_wav_file-Lost options wav d r first p is)
      ∙ either (equal p wav) (has_path p wavs) (size_of p d)
    where
      either :
          (a b : Bool) (s : Option ℕ)
          → (if b then none else if a then none else s) ≡ (if a || b then none else s)
      either true true s = refl
      either true false s = refl
      either false b s = refl

  -- With an ffmpeg that changes no file but its output, and WAV files that are to be removed: where
  -- handleStandaloneWAVFiles succeeds, no file with the extension .wav, in any case, is left.
  pub handle_standalone_wav_files_removes :
      (options : ExportOptions) (d : Disk)
      → options.remove_wav ≡ true
      → (handle_standalone_wav_files w options d).1 ≡ none
      → (p : Bytes) → is_wav p ≡ true
      → size_of p (handle_standalone_wav_files w options d).0 ≡ none
  unfolding handle_standalone_wav_files
  handle_standalone_wav_files_removes options d r h p is =
      let wavs = find_files_by_extension (codes ".wav") d in
      let at_work =
        to_work options.convert_audio_to_mp3 options.convert_wav_to_flac options.remove_wav
          (d, none) (handle_wav_files w options wavs d) r in
      ap (λ m. size_of p m.0) at_work
      ∙ handle_wav_files_gone options wavs d r (sym (ap (λ m. m.1) at_work) ∙ h) p is
      ∙ elim (listed d p is) [
        | inl e ↦ rw e refl
        | inr e ↦ none_either (has_path p wavs) (size_of p d) e
      ]
    where
      to_work :
          (a b c : Bool) (m n : Done E) → c ≡ true → (if not a && not b && not c then m else n) ≡ n
      to_work a b true m n e = ground arith
      to_work a b false m n e = cc

      none_either : (b : Bool) (s : Option ℕ) → s ≡ none → (if b then none else s) ≡ none
      none_either true s e = refl
      none_either false s e = e
