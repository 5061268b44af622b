-- ===== src/Unpack/Manifest/Outputs.antt =====
-- What the last test before the upload lets through.
use moe_asset_updater_client.Base.{
  ◌≡◌, ◌≢◌, refl, ◌⊎◌, inl, inr, Bool, true, false, not, ◌&&◌, ◌||◌, List, [], ◌∷◌, arith, codes,
  equal, equal_iff, to_lower, All, Bool-cases,
}
use moe_asset_updater_client.Base.Outcome.{ok, ◌>>◌, guard}
use moe_asset_updater_client.Protocol.{ExportOptions, ResultFile, TaskResultManifest}
use moe_asset_updater_client.Unpack.Paths.{Runes}
use moe_asset_updater_client.Unpack.Manifest.{
  ext, has_ext, wav_without_mp3, wav_without_flac, wav_not_removed, m2v_without_mp4,
  png_without_webp, validate_expected_manifest_outputs,
}

-- No file has this extension.
abbrev pub Lacks : Runes → List ResultFile → Type 0
Lacks x = All (λ (f : ResultFile). to_lower (ext f.path) ≢ x)

-- Some file has it.
abbrev pub Has : Runes → List ResultFile → Type 0
Has x [] = ⊥
Has x (f ∷ fs) = (to_lower (ext f.path) ≡ x) ⊎ Has x fs

has_ext-Lacks : (x : Runes) (fs : List ResultFile) → has_ext x fs ≡ false → Lacks x fs
unfolding has_ext
has_ext-Lacks x [] h = tt
has_ext-Lacks x (f ∷ fs) h =
    let (here, there) = both_false (equal (to_lower (ext f.path)) x) (has_ext x fs) h in
    (λ e. ground (arith, equal_iff (to_lower (ext f.path)) x), has_ext-Lacks x fs there)
  where
    both_false : (a b : Bool) → (a || b) ≡ false → (a ≡ false) × (b ≡ false)
    both_false a b h = ground arith

has_ext-Has : (x : Runes) (fs : List ResultFile) → has_ext x fs ≡ true → Has x fs
unfolding has_ext
has_ext-Has x [] h = absurd (ground arith)
has_ext-Has x (f ∷ fs) h = elim (Bool-cases (equal (to_lower (ext f.path)) x)) [
  | inl e ↦ inl ((equal_iff (to_lower (ext f.path)) x).0 e)
  | inr e ↦ inr (has_ext-Has x fs (rw e at h))
]

-- An original is gone, or what it was to become is there.
abbrev pub Converted : Runes → Runes → List ResultFile → Type 0
Converted from to fs = Lacks from fs ⊎ Has to fs

converted :
    (from to : Runes) (fs : List ResultFile)
    → (has_ext from fs && not (has_ext to fs)) ≡ false
    → Converted from to fs
converted from to fs h = elim (Bool-cases (has_ext from fs)) [
  | inl e ↦ inr (has_ext-Has to fs (ground arith))
  | inr e ↦ inl (has_ext-Lacks from fs e)
]

abbrev pub On : Bool → Type 0 → Type 0
On test P = (test ≡ false) ⊎ P

-- What the options promise of the files.
pub record KeepsOptions (options : ExportOptions) (fs : List ResultFile) : Type 0 where
  pub mp3 :
      On
        (options.convert_audio_to_mp3 && (options.export_acb_files && options.decode_acb_files))
        (Converted (codes ".wav") (codes ".mp3") fs)
  pub flac :
      On
        (options.convert_wav_to_flac && (options.export_acb_files && options.decode_acb_files))
        (Converted (codes ".wav") (codes ".flac") fs)
  pub no_wav :
      On
        (options.remove_wav && (options.convert_audio_to_mp3 || options.convert_wav_to_flac))
        (Lacks (codes ".wav") fs)
  pub mp4 : On options.convert_video_to_mp4 (Converted (codes ".m2v") (codes ".mp4") fs)
  pub webp :
      On
        (options.convert_photo_to_webp && options.remove_png)
        (Converted (codes ".png") (codes ".webp") fs)

-- The two forms of the tests, where they pass.
passed_conversion :
    (a : Bool) (from to : Runes) (fs : List ResultFile)
    → not (a && has_ext from fs && not (has_ext to fs)) ≡ true
    → On a (Converted from to fs)
passed_conversion true from to fs h = inr (converted from to fs (ground arith))
passed_conversion false from to fs h = inl refl

passed_removal :
    (a : Bool) (x : Runes) (fs : List ResultFile)
    → not (a && has_ext x fs) ≡ true
    → On a (Lacks x fs)
passed_removal true x fs h = inr (has_ext-Lacks x fs (ground arith))
passed_removal false x fs h = inl refl

five_guards :
    (a b c d e : Bool)
    → (guard a wav_without_mp3
        >> guard b wav_without_flac
        >> guard c wav_not_removed
        >> guard d m2v_without_mp4
        >> guard e png_without_webp)
      ≡ ok tt
    → (a ≡ true) × (b ≡ true) × (c ≡ true) × (d ≡ true) × (e ≡ true)
five_guards a b c d e h = ground arith

-- A manifest that passes the test before the upload keeps what the options promise: where audio of
-- sound banks is to become MP3 or FLAC, there is such a file or no WAV; where WAV files are to be
-- removed after a conversion there is none; video that is to become MP4 and images that are to be
-- replaced by WebP likewise.
pub validate_expected_manifest_outputs-KeepsOptions :
    (manifest : TaskResultManifest) (options : ExportOptions)
    → validate_expected_manifest_outputs manifest options ≡ ok tt
    → KeepsOptions options manifest.files
unfolding validate_expected_manifest_outputs
validate_expected_manifest_outputs-KeepsOptions manifest options h =
    let fs = manifest.files in
    let bank = options.export_acb_files && options.decode_acb_files in
    let (mp3, flac, wav, mp4, webp) = five_guards _ _ _ _ _ h in
    record {
      mp3 =
          passed_conversion (options.convert_audio_to_mp3 && bank) (codes ".wav") (codes ".mp3") fs
            mp3;
      flac =
          passed_conversion (options.convert_wav_to_flac && bank) (codes ".wav") (codes ".flac") fs
            flac;
      no_wav =
          passed_removal
            (options.remove_wav && (options.convert_audio_to_mp3 || options.convert_wav_to_flac))
            (codes ".wav") fs wav;
      mp4 = passed_conversion options.convert_video_to_mp4 (codes ".m2v") (codes ".mp4") fs mp4;
      webp =
          passed_conversion (options.convert_photo_to_webp && options.remove_png) (codes ".png")
            (codes ".webp") fs webp;
    }
