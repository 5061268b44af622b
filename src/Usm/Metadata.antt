-- ===== src/Usm/Metadata.antt =====
-- The metadata of a USM file: the sections that `ReadMetadata` reads and the rate of the frames, of
-- internal/cricodecs/usm/metadata.go. All reads start with a seek from the start, so that only the
-- offsets are passed on. `offsetReadSeeker` shows the content from an offset on to `NewUTFTable`.
pub mod Text
pub mod Offset
pub mod Sections
pub mod Agrees
pub mod Start
use moe_asset_updater_client.Base.{
  ℕ, ◌+◌, ◌%◌, ◌^◌, Bool, true, false, not, ◌&&◌, ◌||◌, Option, none, some, List, [], ◌∷◌, ◌++◌,
  map, ltb, ◌==◌, if◌then◌else◌, length, drop, Bytes, codes, equal,
}
use moe_asset_updater_client.Base.Int.{ℤ, pos, eqb_ℤ}
use moe_asset_updater_client.Base.Outcome.{Outcome, ok, err, panic, ◌>>=◌, ◌>>◌, guard}
use moe_asset_updater_client.Acb.Reader.{ReadError, Reader, signed}
use moe_asset_updater_client.Acb.Utf.{
  UtfError, UtfTable, Row, Value, uint_value, int_value, float_value, string_value, bytes_value,
  data_promise, string_promise, new_utf_table,
}
use moe_asset_updater_client.Acb.Fields.{field}
use moe_asset_updater_client.Binary.{
  Got, faulty, seek_current, read_bytes, align_stream, big, read_uint32,
}
use moe_asset_updater_client.Usm.Header.{
  UsmError, bad_crid, expected_signature, expected_marker, short_read, table_failed, video_sig,
  audio_sig, seek_and_check_signature, past_block,
}
use moe_asset_updater_client.Usm.Metadata.Text.{
  Normal, Decoder, normalize_metadata_value, number, text, stringify_bytes,
  stringify_metadata_value,
}

-- `normalizeDetailedUTFTable`: the name, and the rows with their keys.
pub record Table : Type 0 where
  pub table_name : Normal
  pub rows : List (List (Bytes × Normal))

pub data SectionData : Type 0 where
  table_data : Table → SectionData
  marker_data : Bytes → SectionData

pub record Section : Type 0 where
  pub kind : Bytes
  pub signature : Bytes
  pub offset : ℕ
  pub block_size : ℕ
  pub contents : SectionData

pub record Metadata : Type 0 where
  pub container_filename : Bytes
  pub has_audio : Bool
  pub stream_offset : ℕ
  pub sections : List Section

abbrev pub from_read : {A : Type 0} → Outcome UtfError A → Outcome UsmError A
from_read (ok a) = ok a
from_read (err e) = err (table_failed e)
from_read panic = panic

-- `if err != nil { return err }` after a read.
abbrev pub unless_short : Got Bytes → Option ReadError → Outcome UsmError (Got Bytes)
unless_short got none = ok got
unless_short got (some e) = err (short_read e)

abbrev pub complete_read : Got Bytes → Outcome UsmError (Got Bytes)
complete_read got = unless_short got got.fault

module _ (decoder : Decoder) where
  unfoldable pub normalize_rows : List Row → List (List (Bytes × Normal))
  normalize_rows rows =
      map (λ row. map (λ ((k, v) : Bytes × Value). (k, normalize_metadata_value decoder v)) row)
        rows

  unfoldable pub normalize_detailed_utf_table : UtfTable → Table
  normalize_detailed_utf_table table = record {
    table_name = normalize_metadata_value decoder (string_value table.name);
    rows = normalize_rows table.rows;
  }

  abbrev or_bytes : Bytes → Option Bytes → Bytes
  or_bytes fallback none = stringify_bytes decoder fallback
  or_bytes fallback (some name) = name

  abbrev named : Bytes → Option Value → Bytes
  named fallback none = stringify_bytes decoder fallback
  named fallback (some v) = or_bytes fallback (stringify_metadata_value decoder v)

  abbrev final_row : Row → List Row → Row
  final_row row [] = row
  final_row row (next ∷ rows) = final_row next rows

  unfoldable pub extract_container_filename : List Row → Bytes → Bytes
  extract_container_filename [] fallback = stringify_bytes decoder fallback
  extract_container_filename (row ∷ rows) fallback =
      named fallback (field (codes "filename") (final_row row rows))

abbrev pub check_marker : Bytes → Got Bytes → Outcome UsmError (Got Bytes)
check_marker marker got = complete_read got >>= λ value.
    guard (equal value.value marker) (expected_marker marker) >> ok value

module _ (content : Bytes) where
  unfoldable pub read_signature_at : ℕ → Outcome UsmError Bytes
  read_signature_at offset = complete_read (read_bytes content 4 offset) >>= λ sig. ok sig.value

  unfoldable pub read_detailed_utf_table : ℕ → Outcome UsmError UtfTable
  read_detailed_utf_table offset =
      from_read (new_utf_table (record { content = drop offset content; position = 0 }))

  abbrev pub section_of : Bytes → Bytes → ℕ → ℕ → SectionData → Section
  section_of kind sig offset p contents = record {
    kind = kind;
    signature = sig;
    offset = offset;
    block_size = (read_uint32 big content p).value;
    contents = contents;
  }

  unfoldable pub read_marker_section : ℕ → Bytes → Bytes → Bytes → Outcome UsmError (Section × ℕ)
  read_marker_section offset expected kind marker =
      seek_and_check_signature content offset expected >>= λ p.
      check_marker marker (read_bytes content (length marker) (offset + 0x20)) >>= λ value.
      ok (section_of kind expected offset p (marker_data marker), past_block content offset p)

  -- The last section, and the offset of the stream.
  unfoldable pub read_metadata_end_section : ℕ → Outcome UsmError (Section × ℕ)
  read_metadata_end_section offset =
      let marker = codes "#METADATA END" in
      seek_and_check_signature content offset video_sig >>= λ p.
      check_marker marker (read_bytes content 13 (offset + 0x20)) >>= λ value. ok (
        section_of (codes "video_metadata_end") video_sig offset p (marker_data marker),
        seek_current (pos 16) (align_stream 4 value.after),
      )

  unfoldable pub audio_end_section : Bool → List Section → ℕ → Outcome UsmError (List Section × ℕ)
  audio_end_section false sections offset = ok (sections, offset)
  audio_end_section true sections offset =
      read_marker_section offset audio_sig (codes "audio_header_end") (codes "#HEADER END")
      >>= λ (audio_header_end, after). ok (sections ++ audio_header_end ∷ [], after)

module _ (decoder : Decoder) (content : Bytes) where
  -- A section and the offset after it.
  unfoldable pub read_utf_section : ℕ → Bytes → Bytes → Outcome UsmError (Section × ℕ)
  read_utf_section offset expected kind = seek_and_check_signature content offset expected >>= λ p.
      read_detailed_utf_table content (offset + 0x20) >>= λ table. ok (
        section_of content kind expected offset p
            (table_data (normalize_detailed_utf_table decoder table)),
        past_block content offset p,
      )

  -- The optional header of the audio: whether it is there, the sections so far, the offset and the
  -- signature after it.
  unfoldable pub optional_audio_section :
      Section → ℕ → Bytes → Outcome UsmError (Bool × List Section × ℕ × Bytes)
  optional_audio_section video_header offset next_sig = elim (equal next_sig audio_sig) [
    | true ↦ read_utf_section offset audio_sig (codes "audio_header") >>= λ (audio_header, after).
        read_signature_at content after >>= λ sig.
        ok (true, video_header ∷ audio_header ∷ [], after, sig)
    | false ↦ ok (false, video_header ∷ [], offset, next_sig)
  ]

  -- From the end of the headers on.
  unfoldable pub final_sections :
      Bool → List Section × ℕ → Outcome UsmError (Bool × List Section × ℕ)
  final_sections has_audio (sections, offset) =
      read_utf_section offset video_sig (codes "video_metadata") >>= λ (video_metadata, after).
      read_metadata_end_section content after >>= λ (video_metadata_end, stream_offset).
      ok (has_audio, sections ++ video_metadata ∷ video_metadata_end ∷ [], stream_offset)

  unfoldable pub ended_sections :
      Bool × List Section × ℕ × Bytes → Outcome UsmError (Bool × List Section × ℕ)
  ended_sections (has_audio, sections, offset, next_sig) =
      guard (equal next_sig video_sig) (expected_signature video_sig) >>= λ _.
      read_marker_section content offset video_sig (codes "video_header_end") (codes "#HEADER END")
      >>= λ (video_header_end, after).
          audio_end_section content has_audio (sections ++ video_header_end ∷ []) after >>= λ rest.
          final_sections has_audio rest

  unfoldable pub read_metadata_sections : ℕ → Outcome UsmError (Bool × List Section × ℕ)
  read_metadata_sections offset =
      read_utf_section offset video_sig (codes "video_header") >>= λ (video_header, after).
      read_signature_at content after >>= λ next_sig.
      optional_audio_section video_header after next_sig >>= λ found. ended_sections found

  unfoldable pub read_metadata : Bytes → Outcome UsmError Metadata
  read_metadata fallback_name =
      let sig = read_bytes content 4 0 in
      guard (not (faulty sig.fault || not (equal sig.value (codes "CRID")))) bad_crid >>= λ _.
      read_detailed_utf_table content 0x20 >>= λ entry_table.
      read_metadata_sections (past_block content 0 sig.after)
      >>= λ (has_audio, sections, stream_offset). ok (record {
        container_filename = extract_container_filename decoder entry_table.rows fallback_name;
        has_audio = has_audio;
        stream_offset = stream_offset;
        sections =
            section_of content (codes "crid") (codes "CRID") 0 sig.after
              (table_data (normalize_detailed_utf_table decoder entry_table))
            ∷ sections;
      })

-- `metadataNumberToInt`: a `uint64` wraps around; `float_to_int` is Go's conversion of a `float32`,
-- which the implementation chooses out of range.
unfoldable pub metadata_number_to_int : (ℕ → ℤ) → Option Normal → Option ℤ
metadata_number_to_int float_to_int none = none
metadata_number_to_int float_to_int (some (number (uint_value n))) = some (signed (2 ^ 63) n)
metadata_number_to_int float_to_int (some (number (int_value n))) = some n
metadata_number_to_int float_to_int (some (number (float_value bits))) = some (float_to_int bits)
metadata_number_to_int float_to_int (some _) = none

abbrev pub normal_field : Bytes → List (Bytes × Normal) → Option Normal
normal_field k [] = none
normal_field k ((j, v) ∷ row) = let rest = normal_field k row in if equal k j then some v else rest

module _ (float_to_int : ℕ → ℤ) where
  abbrev nonzero_rate : Option ℤ → Option ℤ → Option (ℤ × ℤ)
  nonzero_rate none d = none
  nonzero_rate (some n) none = none
  nonzero_rate (some n) (some d) = if eqb_ℤ d (pos 0) then none else some (n, d)

  unfoldable pub rate_of_rows : SectionData → Option (ℤ × ℤ)
  rate_of_rows (marker_data marker) = none
  rate_of_rows (table_data table) = elim table.rows [
    | [] ↦ none
    | row ∷ rows ↦
        nonzero_rate (metadata_number_to_int float_to_int (normal_field (codes "framerate_n") row))
          (metadata_number_to_int float_to_int (normal_field (codes "framerate_d") row))
  ]

  -- `VideoFrameRate`, on the sections.
  unfoldable pub video_frame_rate : List Section → Option (ℤ × ℤ)
  video_frame_rate [] = none
  video_frame_rate (section ∷ sections) =
      let rest = video_frame_rate sections in
      if equal section.kind (codes "video_header") then rate_of_rows section.contents else rest
