-- ===== src/Usm/Header.antt =====
-- The header of a USM file: `parseUSMHeader`, `parseUSMHeaderChunks`, `seekAndCheckSignature` and
-- `skipMetadataSection` of internal/cricodecs/usm/usm.go. All reads start with a seek from the start,
-- so that only the offsets are passed on; the tables whose results the code drops are not read here,
-- since the next seek replaces the position that they leave.
use moe_asset_updater_client.Base.{
  ℕ, ◌+◌, ◌%◌, ◌^◌, Bool, true, false, not, ◌||◌, Option, none, some, List, if◌then◌else◌, Bytes,
  codes, equal,
}
use moe_asset_updater_client.Base.Int.{pos}
use moe_asset_updater_client.Base.Outcome.{Outcome, ok, err, ◌>>=◌, ◌>>◌, guard}
use moe_asset_updater_client.Acb.Reader.{ReadError}
use moe_asset_updater_client.Acb.Utf.{UtfError}
use moe_asset_updater_client.Binary.{
  Got, big, faulty, seek_current, read_bytes, read_uint32, align_stream,
}
use moe_asset_updater_client.Usm.Table.{TableRow, get_utf_table, extract_filename}

pub data UsmError : Type 0 where
  bad_crid bad_utf : UsmError
  expected_signature expected_marker : Bytes → UsmError
  -- from the reads of metadata.go
  short_read : ReadError → UsmError
  table_failed : UtfError → UsmError

abbrev pub video_sig : Bytes
video_sig = codes "@SFV"

abbrev pub audio_sig : Bytes
audio_sig = codes "@SFA"

module _ (content : Bytes) where
  -- The position after the signature.
  unfoldable pub seek_and_check_signature : ℕ → Bytes → Outcome UsmError ℕ
  seek_and_check_signature offset expected =
      let sig = read_bytes content 4 offset in
      guard (equal sig.value expected) (expected_signature expected) >> ok sig.after

  -- `offset + int64(8+blockSize)`, with the size read at p. The sum of the `uint32` wraps around.
  unfoldable pub past_block : ℕ → ℕ → ℕ
  past_block offset p = offset + (8 + (read_uint32 big content p).value) % 2 ^ 32

  -- The optional `@SFA` chunk: whether it is there, and the offset and the signature after it.
  unfoldable pub optional_audio : ℕ → Got Bytes → Bool × ℕ × Got Bytes
  optional_audio offset next_sig =
      let after = past_block offset next_sig.after in
      if equal next_sig.value audio_sig
      then (true, after, read_bytes content 4 after)
      else (false, offset, next_sig)

  -- The test of a chunk that ends a header, whose size is read at p.
  unfoldable pub header_end : ℕ → ℕ → Outcome UsmError ℕ
  header_end offset p =
      guard (equal (read_bytes content 11 (offset + 0x20)).value (codes "#HEADER END"))
        (expected_marker (codes "#HEADER END"))
      >> ok (past_block offset p)

  unfoldable pub audio_header_end : Bool → ℕ → Outcome UsmError ℕ
  audio_header_end false offset = ok offset
  audio_header_end true offset =
      seek_and_check_signature offset audio_sig >>= λ p. header_end offset p

  -- What follows the optional chunk.
  unfoldable pub header_ends : Bool × ℕ × Got Bytes → Outcome UsmError (Bool × ℕ)
  header_ends (has_audio, offset, next_sig) =
      guard (equal next_sig.value video_sig) (expected_signature video_sig)
      >> header_end offset next_sig.after
      >>= λ ended. audio_header_end has_audio ended >>= λ final. ok (has_audio, final)

  unfoldable pub parse_usm_header_chunks : ℕ → Outcome UsmError (Bool × ℕ)
  parse_usm_header_chunks offset = seek_and_check_signature offset video_sig >>= λ p.
      let after = past_block offset p in
      header_ends (optional_audio after (read_bytes content 4 after))

  -- The position where the stream of chunks starts.
  unfoldable pub skip_metadata_section : ℕ → Outcome UsmError ℕ
  skip_metadata_section offset = seek_and_check_signature offset video_sig >>= λ p.
      seek_and_check_signature (past_block offset p) video_sig >>= λ q.
      let metadata_end = read_bytes content 13 (seek_current (pos 28) q) in
      guard (equal metadata_end.value (codes "#METADATA END"))
        (expected_marker (codes "#METADATA END"))
      >> ok (seek_current (pos 16) (align_stream 4 metadata_end.after))

  abbrev pub table_found : Option (List TableRow) × ℕ → Outcome UsmError (List TableRow)
  table_found (none, p) = err bad_utf
  table_found (some rows, p) = ok rows

  -- The name, whether there is audio, and the position after the header.
  unfoldable pub parse_usm_header : Bytes → Outcome UsmError (Bytes × Bool × ℕ)
  parse_usm_header fallback_name =
      let sig = read_bytes content 4 0 in
      guard (not (faulty sig.fault || not (equal sig.value (codes "CRID")))) bad_crid
      >> table_found (get_utf_table content 0x20)
      >>= λ entry_table. parse_usm_header_chunks (past_block 0 sig.after) >>= λ (has_audio, offset).
          skip_metadata_section offset >>= λ start.
          ok (extract_filename entry_table fallback_name, has_audio, start)
