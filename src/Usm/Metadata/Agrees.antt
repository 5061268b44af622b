-- ===== src/Usm/Metadata/Agrees.antt =====
-- The two readers of the header, of usm.go and of metadata.go, on the same file.
use moe_asset_updater_client.Base.{
  ℕ, ◌≡◌, refl, sym, ap, ◌∙◌, Bool, true, List, [], ◌∷◌, ◌++◌, Bytes, codes, equal, Bool-cases, inl,
  inr,
}
use moe_asset_updater_client.Base.Outcome.{ok, guard, OnOk, OnOk->>=, OnOk-at, OnOk-map}
use moe_asset_updater_client.Binary.{Got}
use moe_asset_updater_client.Usm.Header.{
  video_sig, audio_sig, expected_signature, optional_audio, audio_header_end, header_ends,
  parse_usm_header_chunks, skip_metadata_section,
}
use moe_asset_updater_client.Usm.Metadata.{
  Section, read_signature_at, read_utf_section, read_marker_section, optional_audio_section,
  audio_end_section, final_sections, ended_sections, read_metadata_sections,
}
use moe_asset_updater_client.Usm.Metadata.Text.{Decoder}
use moe_asset_updater_client.Usm.Metadata.Sections.{
  guard-ok, sig_at, UtfSection, MarkerSection, seek_and_check_signature-ok, read_signature_at-lem,
  read_marker_section-lem, header_end-ok, audio_end_section-lem, read_utf_section-lem,
  final_sections-lem,
}

abbrev Found : Type 0
Found = Bool × List Section × ℕ × Bytes

abbrev Result : Type 0
Result = Bool × List Section × ℕ

module _ (decoder : Decoder) (content : Bytes) where
  -- usm.go finds the same signature, at the same offset.
  record SameAudio (offset : ℕ) (found : Found) : Type 0 where
    header :
        optional_audio content offset (sig_at content offset)
        ≡ (found.0, found.2, sig_at content found.2)
    sig : found.3 ≡ (sig_at content found.2).value

  optional_audio_section-lem :
      (video_header : Section) (offset : ℕ)
      → OnOk
          (SameAudio offset)
          (optional_audio_section decoder content video_header offset (sig_at content offset).value)
  unfolding optional_audio optional_audio_section
  optional_audio_section-lem video_header offset =
      elim (Bool-cases (equal (sig_at content offset).value audio_sig)) [
        | inr e ↦
            rw (e, optional_audio_section)
              (record { header = rw (e, optional_audio) refl; sig = refl })
        | inl e ↦
            rw (e, optional_audio_section)
              (OnOk->>= (SameAudio offset)
                (read_utf_section decoder content offset audio_sig (codes "audio_header")) _
                λ (audio_header, after) read.
                  let u =
                    OnOk-at (UtfSection content decoder offset audio_sig) _
                      (read_utf_section-lem content decoder offset audio_sig (codes "audio_header"))
                      read in
                  OnOk->>= (SameAudio offset) (read_signature_at content after) _ λ sig got.
                    record {
                      header =
                          rw (e, optional_audio)
                            (ap (λ o. (true, o, sig_at content o)) (sym u.next));
                      sig =
                          OnOk-at (λ s. s ≡ (sig_at content after).value) _
                            (read_signature_at-lem content after) got;
                    })
      ]

  -- usm.go gets through the same header, to the same position.
  record SameStart (given : Bool × ℕ × Got Bytes) (result : Result) : Type 0 where
    offset : ℕ
    header : header_ends content given ≡ ok (result.0, offset)
    start : skip_metadata_section content offset ≡ ok result.2

  ended_sections-lem :
      (has_audio : Bool) (sections : List Section) (offset : ℕ)
      → OnOk (SameStart (has_audio, offset, sig_at content offset)) (
          ended_sections decoder content
            (has_audio, sections, offset, (sig_at content offset).value))
  unfolding ended_sections header_ends
  ended_sections-lem has_audio sections offset =
      let P = SameStart (has_audio, offset, sig_at content offset) in
      let marker = codes "#HEADER END" in
      let sig = (sig_at content offset).value in
      OnOk->>= P (guard (equal sig video_sig) (expected_signature video_sig)) _ λ t matched.
        OnOk->>= P (read_marker_section content offset video_sig (codes "video_header_end") marker)
          _
          λ (ended, after) read.
            let m =
              OnOk-at (MarkerSection content offset video_sig marker) _
                (read_marker_section-lem content offset video_sig (codes "video_header_end") marker)
                read in
            OnOk->>= P (audio_end_section content has_audio (sections ++ ended ∷ []) after) _
              λ (others, final) audio.
                let a =
                  OnOk-at
                    (λ (r : List Section × ℕ). audio_header_end content has_audio after ≡ ok r.1) _
                    (audio_end_section-lem content has_audio (sections ++ ended ∷ []) after)
                    audio in
                let header : header_ends content (has_audio, offset, sig_at content offset)
                    ≡ ok (has_audio, final) =
                  rw
                    (
                      guard-ok (equal sig video_sig) _ matched,
                      header_end-ok content offset (sig_at content offset).after m.marked,
                      sym m.next,
                      a,
                    )
                    refl in
                OnOk-map P (final_sections decoder content has_audio (others, final))
                  (final_sections-lem content decoder has_audio others final)
                  λ result s. record {
                    offset = final;
                    header = header ∙ ap (λ b. ok (b, final)) (sym s.same);
                    start = s.skipped;
                  }

  pub record SameHeader (offset : ℕ) (result : Result) : Type 0 where
    pub ended : ℕ
    pub header : parse_usm_header_chunks content offset ≡ ok (result.0, ended)
    pub start : skip_metadata_section content ended ≡ ok result.2

  pub read_metadata_sections-lem :
      (offset : ℕ) → OnOk (SameHeader offset) (read_metadata_sections decoder content offset)
  unfolding read_metadata_sections parse_usm_header_chunks
  read_metadata_sections-lem offset =
      let P = SameHeader offset in
      OnOk->>= P (read_utf_section decoder content offset video_sig (codes "video_header")) _
        λ (video_header, after) read.
          let u =
            OnOk-at (UtfSection content decoder offset video_sig) _
              (read_utf_section-lem content decoder offset video_sig (codes "video_header")) read in
          OnOk->>= P (read_signature_at content after) _ λ sig got.
            let seen =
              OnOk-at (λ s. s ≡ (sig_at content after).value) _
                (read_signature_at-lem content after) got in
            OnOk->>= P (optional_audio_section decoder content video_header after sig) _
              λ (has_audio, sections, offset', sig') found.
                let o =
                  OnOk-at (SameAudio after)
                    (optional_audio_section decoder content video_header after
                      (sig_at content after).value)
                    (optional_audio_section-lem video_header after)
                    (ap (optional_audio_section decoder content video_header after) (sym seen)
                      ∙ found) in
                OnOk-map {P = SameStart (has_audio, offset', sig_at content offset')} P
                  (ended_sections decoder content (has_audio, sections, offset', sig'))
                  (rw o.sig (ended_sections-lem has_audio sections offset'))
                  λ result s. record {
                    ended = s.offset;
                    header =
                        rw
                          (
                            seek_and_check_signature-ok content offset video_sig u.matches,
                            sym u.next,
                            o.header,
                          )
                          s.header;
                    start = s.start;
                  }
