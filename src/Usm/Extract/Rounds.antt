-- ===== src/Usm/Extract/Rounds.antt =====
-- That ExtractUSM comes to its end.
use moe_asset_updater_client.Base.{
  ℕ, Bool, true, false, ◌&&◌, Option, arith, Bytes, ◌≢◌, inl, inr, Option-cases,
}
use mathlib.Core.Option
use moe_asset_updater_client.Base.Outcome.{Outcome, ok, err, panic, ◌>>=◌}
use moe_asset_updater_client.Usm.Masks.{get_mask}
use moe_asset_updater_client.Usm.Header.{UsmError, parse_usm_header}
use moe_asset_updater_client.Usm.Chunks.{Outputs}
use moe_asset_updater_client.Acb.Reader.{ReadError}
use moe_asset_updater_client.Usm.Chunks.Rounds.{Ends, gives, panics, extract_chunks-Ends}
use moe_asset_updater_client.Usm.Metadata.Text.{Decoder}
use moe_asset_updater_client.Usm.Extract.{
  FileError, file_failed, usm_failed, read_failed, no_frame_rate, out_of_rounds, from_usm, created,
  create_audio, Paths, create_output_files, from_chunks, decoded, opened, rounds, extract_usm,
}

-- The model's rounds have not run out.
abbrev Within : {E A : Type 0} → Outcome (FileError E) A → Type 0
Within (ok a) = Unit
Within (err (file_failed e)) = Unit
Within (err (usm_failed e)) = Unit
Within (err (read_failed e)) = Unit
Within (err no_frame_rate) = Unit
Within (err out_of_rounds) = ⊥
Within panic = Unit

Within->>= :
    {E A B : Type 0} (m : Outcome (FileError E) A) (f : A → Outcome (FileError E) B)
    → Within m
    → ((a : A) → Within (f a))
    → Within (m >>= f)
Within->>= (ok a) f h k = k a
Within->>= (err (file_failed e)) f h k = tt
Within->>= (err (usm_failed e)) f h k = tt
Within->>= (err (read_failed e)) f h k = tt
Within->>= (err no_frame_rate) f h k = tt
Within->>= (err out_of_rounds) f h k = h
Within->>= panic f h k = tt

Within-from_usm : (E : Type 0) {A : Type 0} (m : Outcome UsmError A) → Within (from_usm {E = E} m)
Within-from_usm E (ok a) = tt
Within-from_usm E (err e) = tt
Within-from_usm E panic = tt

Within-from_chunks :
    (E : Type 0) (paths : Paths) {o : Option (Outcome ReadError Outputs)}
    → Ends o
    → Within (from_chunks {E = E} paths o)
Within-from_chunks E paths gives = tt
Within-from_chunks E paths panics = tt

Within-refused : {E A : Type 0} (m : Outcome (FileError E) A) → Within m → m ≢ err out_of_rounds
Within-refused (ok a) h e = cc
Within-refused (err (file_failed x)) h e = cc
Within-refused (err (usm_failed x)) h e = cc
Within-refused (err (read_failed x)) h e = cc
Within-refused (err no_frame_rate) h e = cc
Within-refused (err out_of_rounds) h e = h
Within-refused panic h e = cc

module _ {E : Type 0} (create : Bytes → Option E) (shift_jis : Decoder) where
  created-Within : (path : Bytes) → Within (created create path)
  created-Within path = elim (Option-cases (create path)) [
    | inl e ↦ rw (created, e) tt
    | inr (x, e) ↦ rw (created, e) tt
  ]

  create_audio-Within :
      (b : Bool) (video audio : Bytes) → Within (create_audio create b video audio)
  create_audio-Within false video audio = tt
  create_audio-Within true video audio =
      Within->>= (created create audio) _ (created-Within audio) λ path. tt

  -- Whatever the file and the key, the rounds that ExtractUSM's loop is given are enough.
  pub extract_usm-Within :
      (content target_dir fallback : Bytes) (key : Option ℕ) (export_audio : Bool)
      → extract_usm create shift_jis content target_dir fallback key export_audio
        ≢ err out_of_rounds
  unfolding extract_usm create_output_files
  extract_usm-Within content target_dir fallback key export_audio =
      Within-refused (extract_usm create shift_jis content target_dir fallback key export_audio) (
        Within->>= (from_usm (parse_usm_header content fallback)) _
          (Within-from_usm E (parse_usm_header content fallback))
          λ (name, has_audio, start).
            Within->>=
              (create_output_files create target_dir (decoded shift_jis name) has_audio
                export_audio)
              _
              (Within->>= (created create _) _ (created-Within _)
                λ video. create_audio-Within (has_audio && export_audio) video _)
              λ paths. Within-from_chunks E paths (
                extract_chunks-Ends content (Option.map get_mask key) (rounds content) start
                  (opened paths) (omega arith)))
