-- ===== src/Usm/Metadata/Sections.antt =====
-- What a section that metadata.go reads shows of the file, in the terms of usm.go.
use moe_asset_updater_client.Base.{
  ℕ, ◌+◌, ◌-◌, ◌≤◌, ◌≡◌, refl, sym, ap, ◌∙◌, Bool, true, false, Option, none, some, List, [], ◌∷◌,
  ◌++◌, arith, length, length-take, take, drop, replicate, Bytes, codes, equal,
}
use moe_asset_updater_client.Base.Int.{pos}
use moe_asset_updater_client.Base.Outcome.{ok, guard, OnOk, OnOk->>=, OnOk-at}
use moe_asset_updater_client.Acb.Reader.{ReadError}
use moe_asset_updater_client.Binary.{Got, seek_current, read_bytes, align_stream}
use moe_asset_updater_client.Usm.Chunks.Reads.{seek_current_forward}
use moe_asset_updater_client.Usm.Header.{
  video_sig, audio_sig, seek_and_check_signature, past_block, header_end, audio_header_end,
  skip_metadata_section,
}
use moe_asset_updater_client.Usm.Metadata.{
  Section, unless_short, complete_read, check_marker, read_signature_at, read_detailed_utf_table,
  read_utf_section, read_marker_section, read_metadata_end_section, audio_end_section,
  final_sections,
}
use moe_asset_updater_client.Usm.Metadata.Text.{Decoder}

-- What a test leaves when it succeeds.
pub guard-ok : {E : Type 0} (b : Bool) (e : E) {t : Unit {0}} → guard b e ≡ ok t → b ≡ true
guard-ok true e h = refl
guard-ok false e h = cc

module _ (content : Bytes) where
  -- The signature that stands at an offset.
  abbrev pub sig_at : ℕ → Got Bytes
  sig_at offset = read_bytes content 4 offset

  record Checked (offset : ℕ) (expected : Bytes) (p : ℕ) : Type 0 where
    pub matches : equal (sig_at offset).value expected ≡ true
    after : p ≡ (sig_at offset).after

  seek_and_check_signature-Checked :
      (offset : ℕ) (expected : Bytes)
      → OnOk (Checked offset expected) (seek_and_check_signature content offset expected)
  unfolding seek_and_check_signature
  seek_and_check_signature-Checked offset expected =
      OnOk->>= (Checked offset expected) (guard (equal (sig_at offset).value expected) _) _ λ t e.
        record { matches = guard-ok (equal (sig_at offset).value expected) _ e; after = refl }

  module _ (decoder : Decoder) where
    pub record UtfSection (offset : ℕ) (expected : Bytes) (result : Section × ℕ) : Type 0 where
      pub matches : equal (sig_at offset).value expected ≡ true
      pub next : result.1 ≡ past_block content offset (sig_at offset).after

    pub read_utf_section-lem :
        (offset : ℕ) (expected kind : Bytes)
        → OnOk (UtfSection offset expected) (read_utf_section decoder content offset expected kind)
    unfolding read_utf_section
    read_utf_section-lem offset expected kind =
        OnOk->>= (UtfSection offset expected) (seek_and_check_signature content offset expected) _
          λ p checked.
            let c =
              OnOk-at (Checked offset expected) _ (seek_and_check_signature-Checked offset expected)
                checked in
            OnOk->>= (UtfSection offset expected) (read_detailed_utf_table content (offset + 0x20))
              _
              λ table _. record {
                matches = c.matches;
                next = ap (past_block content offset) c.after;
              }

unless_short-lem :
    (got : Got Bytes) (fault : Option ReadError) → OnOk (λ v. v ≡ got) (unless_short got fault)
unless_short-lem got none = refl
unless_short-lem got (some e) = tt

complete_read-lem : (got : Got Bytes) → OnOk (λ v. v ≡ got) (complete_read got)
complete_read-lem got = unless_short-lem got got.fault

check_marker-lem :
    (marker : Bytes) (got : Got Bytes)
    → OnOk (λ v. (equal got.value marker ≡ true) × (v ≡ got)) (check_marker marker got)
check_marker-lem marker got =
    OnOk->>= (λ v. (equal got.value marker ≡ true) × (v ≡ got)) (complete_read got) _
      λ v e.
        let same = OnOk-at (λ v. v ≡ got) (complete_read got) (complete_read-lem got) e in
        OnOk->>= (λ v. (equal got.value marker ≡ true) × (v ≡ got)) (guard (equal v.value marker) _)
          _
          λ t marked. (
            ap (λ g. equal g.value marker) (sym same) ∙ guard-ok (equal v.value marker) _ marked,
            same,
          )

-- Four bytes that are a signature were all there.
four_there :
    (got : Bytes)
    → length got ≤ 4
    → equal (got ++ replicate (4 - length got) 0) video_sig ≡ true
    → length got ≡ 4
unfolding equal
four_there [] h e = cc
four_there (a ∷ []) h e = ground arith
four_there (a ∷ b ∷ []) h e = ground arith
four_there (a ∷ b ∷ c ∷ []) h e = ground arith
four_there (a ∷ b ∷ c ∷ d ∷ []) h e = refl
four_there (a ∷ b ∷ c ∷ d ∷ x ∷ got) h e = absurd (omega arith)

module _ (content : Bytes) where
  signature_read :
      (offset : ℕ)
      → equal (sig_at content offset).value video_sig ≡ true
      → (sig_at content offset).after ≡ offset + 4
  unfolding read_bytes
  signature_read offset e =
      let got = take 4 (drop offset content) in
      ap (λ n. offset + n) (four_there got (omega (arith, length-take 4 (drop offset content))) e)

  pub seek_and_check_signature-ok :
      (offset : ℕ) (expected : Bytes)
      → equal (sig_at content offset).value expected ≡ true
      → seek_and_check_signature content offset expected ≡ ok (sig_at content offset).after
  unfolding seek_and_check_signature
  seek_and_check_signature-ok offset expected e = rw e refl

  pub read_signature_at-lem :
      (offset : ℕ)
      → OnOk (λ sig. sig ≡ (sig_at content offset).value) (read_signature_at content offset)
  unfolding read_signature_at
  read_signature_at-lem offset =
      OnOk->>= (λ sig. sig ≡ (sig_at content offset).value) (complete_read (sig_at content offset))
        _
        λ v e.
          ap (λ (g : Got Bytes). g.value)
            (OnOk-at (λ v. v ≡ sig_at content offset) (complete_read (sig_at content offset))
              (complete_read-lem (sig_at content offset)) e)

  pub record MarkerSection (offset : ℕ) (expected marker : Bytes) (result : Section × ℕ)
      : Type 0 where
    pub matches : equal (sig_at content offset).value expected ≡ true
    pub marked : equal (read_bytes content (length marker) (offset + 0x20)).value marker ≡ true
    pub next : result.1 ≡ past_block content offset (sig_at content offset).after

  pub read_marker_section-lem :
      (offset : ℕ) (expected kind marker : Bytes)
      → OnOk
          (MarkerSection offset expected marker)
          (read_marker_section content offset expected kind marker)
  unfolding read_marker_section
  read_marker_section-lem offset expected kind marker =
      let found = read_bytes content (length marker) (offset + 0x20) in
      OnOk->>= (MarkerSection offset expected marker)
        (seek_and_check_signature content offset expected) _
        λ p checked.
          let c =
            OnOk-at (Checked content offset expected) _
              (seek_and_check_signature-Checked content offset expected) checked in
          OnOk->>= (MarkerSection offset expected marker) (check_marker marker found) _ λ v e.
            record {
              matches = c.matches;
              marked =
                  (OnOk-at (λ v. (equal found.value marker ≡ true) × (v ≡ found))
                    (check_marker marker found) (check_marker-lem marker found) e).0;
              next = ap (past_block content offset) c.after;
            }

  -- The end of a header, as usm.go tests it.
  pub header_end-ok :
      (offset p : ℕ)
      → equal (read_bytes content 11 (offset + 0x20)).value (codes "#HEADER END") ≡ true
      → header_end content offset p ≡ ok (past_block content offset p)
  unfolding header_end
  header_end-ok offset p e = rw e refl

  pub audio_end_section-lem :
      (has_audio : Bool) (sections : List Section) (offset : ℕ)
      → OnOk
          (λ r. audio_header_end content has_audio offset ≡ ok r.1)
          (audio_end_section content has_audio sections offset)
  unfolding audio_end_section audio_header_end
  audio_end_section-lem false sections offset = refl
  audio_end_section-lem true sections offset =
      OnOk->>= (λ (r : List Section × ℕ). audio_header_end content true offset ≡ ok r.1)
        (read_marker_section content offset audio_sig (codes "audio_header_end")
          (codes "#HEADER END"))
        _
        λ (section, after) e.
          let m =
            OnOk-at (MarkerSection offset audio_sig (codes "#HEADER END")) _
              (read_marker_section-lem offset audio_sig (codes "audio_header_end")
                (codes "#HEADER END"))
              e in
          rw (seek_and_check_signature-ok offset audio_sig m.matches)
            (header_end-ok offset (sig_at content offset).after m.marked ∙ ap ok (sym m.next))

  -- The end of the metadata is the start of the stream.
  skip_metadata_section-ok :
      (offset after : ℕ)
      → equal (sig_at content offset).value video_sig ≡ true
      → after ≡ past_block content offset (sig_at content offset).after
      → equal (sig_at content after).value video_sig ≡ true
      → equal (read_bytes content 13 (after + 0x20)).value (codes "#METADATA END") ≡ true
      → skip_metadata_section content offset
        ≡ ok (seek_current (pos 16) (align_stream 4 (read_bytes content 13 (after + 0x20)).after))
  unfolding skip_metadata_section
  skip_metadata_section-ok offset after e next f marked =
      let there : (sig_at content after).after + 28 ≡ after + 0x20 =
        omega (arith, signature_read after f) in
      rw
        (
          seek_and_check_signature-ok offset video_sig e,
          sym next,
          seek_and_check_signature-ok after video_sig f,
          seek_current_forward 28 (sig_at content after).after,
          there,
          marked,
        )
        refl

  record EndSection (offset : ℕ) (result : Section × ℕ) : Type 0 where
    pub matches : equal (sig_at content offset).value video_sig ≡ true
    pub marked : equal (read_bytes content 13 (offset + 0x20)).value (codes "#METADATA END") ≡ true
    pub next :
        result.1
        ≡ seek_current (pos 16) (align_stream 4 (read_bytes content 13 (offset + 0x20)).after)

  read_metadata_end_section-lem :
      (offset : ℕ) → OnOk (EndSection offset) (read_metadata_end_section content offset)
  unfolding read_metadata_end_section
  read_metadata_end_section-lem offset =
      let marker = codes "#METADATA END" in
      let found = read_bytes content 13 (offset + 0x20) in
      OnOk->>= (EndSection offset) (seek_and_check_signature content offset video_sig) _
        λ p checked.
          let c =
            OnOk-at (Checked content offset video_sig) _
              (seek_and_check_signature-Checked content offset video_sig) checked in
          OnOk->>= (EndSection offset) (check_marker marker found) _ λ v e.
            let m =
              OnOk-at (λ v. (equal found.value marker ≡ true) × (v ≡ found))
                (check_marker marker found) (check_marker-lem marker found) e in
            record {
              matches = c.matches;
              marked = m.0;
              next = ap (λ (g : Got Bytes). seek_current (pos 16) (align_stream 4 g.after)) m.1;
            }

  module _ (decoder : Decoder) where
    pub record Skipped (has_audio : Bool) (offset : ℕ) (result : Bool × List Section × ℕ)
        : Type 0 where
      pub same : result.0 ≡ has_audio
      pub skipped : skip_metadata_section content offset ≡ ok result.2

    pub final_sections-lem :
        (has_audio : Bool) (sections : List Section) (offset : ℕ)
        → OnOk
            (Skipped has_audio offset)
            (final_sections decoder content has_audio (sections, offset))
    unfolding final_sections
    final_sections-lem has_audio sections offset =
        OnOk->>= (Skipped has_audio offset)
          (read_utf_section decoder content offset video_sig (codes "video_metadata")) _
          λ (video_metadata, after) e.
            let u =
              OnOk-at (UtfSection content decoder offset video_sig) _
                (read_utf_section-lem content decoder offset video_sig (codes "video_metadata"))
                e in
            OnOk->>= (Skipped has_audio offset) (read_metadata_end_section content after) _
              λ (last, start) ended.
                let m = OnOk-at (EndSection after) _ (read_metadata_end_section-lem after) ended in
                record {
                  same = refl;
                  skipped =
                      skip_metadata_section-ok offset after u.matches u.next m.matches m.marked
                      ∙ ap ok (sym m.next);
                }
