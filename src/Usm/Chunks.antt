-- ===== src/Usm/Chunks.antt =====
-- The stream of chunks after the header of a USM file: `extractUSMChunks` and `processChunk` of
-- internal/cricodecs/usm/usm.go. An output file is the bytes written to it, in a disk with room for
-- them; the audio file may not be there, as in the code. The loop runs on rounds.
pub mod Rounds
pub mod Reads
pub mod Container
use moe_asset_updater_client.Base.{
  ℕ, zero, suc, ◌+◌, bit_and, Bool, true, false, ◌&&◌, Option, none, some, ◌++◌, ◌==◌,
  if◌then◌else◌, Bytes, codes, equal,
}
use moe_asset_updater_client.Base.Int.{ℤ, pos, negsuc, sub_ℕ}
use moe_asset_updater_client.Base.Outcome.{Outcome, ok, err, panic, ◌>>=◌}
use moe_asset_updater_client.Acb.Reader.{ReadError}
use moe_asset_updater_client.Binary.{
  Got, big, faulty, seek_current, read_bytes, read_length, read_uint, read_uint16, read_uint32,
  read_uchar,
}
use moe_asset_updater_client.Usm.Masks.{Masks, mask_video, mask_audio}

-- The header of a chunk, up to its contents.
pub record ChunkHead : Type 0 where
  pub block_size : ℕ
  pub next_offset : ℕ
  pub header_size : ℕ
  pub footer_size : ℕ
  pub data_type : ℕ
  -- where the contents start
  pub start : ℕ

unfoldable pub read_head : Bytes → ℕ → ChunkHead
read_head content p =
    let block_size = read_uint32 big content p in
    let header_size = read_uint16 big content block_size.after in
    let footer_size = read_uint16 big content header_size.after in
    let skipped = read_bytes content 3 footer_size.after in
    let data_type = read_uchar content skipped.after in
    record {
      block_size = block_size.value;
      next_offset = block_size.after + block_size.value;
      header_size = header_size.value;
      footer_size = footer_size.value;
      data_type = bit_and data_type.value 3;
      start = seek_current (pos 16) data_type.after;
    }

-- The files `videoFile` and `audioFile`.
pub record Outputs : Type 0 where
  pub video : Bytes
  pub audio : Option Bytes

-- `dataType == 0 && vmask != nil`; there are masks where there is a key.
unfoldable pub unmasked_video : ℕ → Option Masks → Bytes → Bytes
unmasked_video data_type none content = content
unmasked_video data_type (some masks) content =
    if data_type == 0 then mask_video content masks else content

unfoldable pub unmasked_audio : ℕ → Option Masks → Bytes → Bytes
unmasked_audio data_type none content = content
unmasked_audio data_type (some masks) content =
    if data_type == 0 then mask_audio content masks.audio else content

-- `videoFile.Write` and `audioFile.Write` of what was read.
abbrev pub write_video : ℕ → Option Masks → Outputs → Bytes → Outputs
write_video data_type masks outs content = record outs {
  video = outs.video ++ unmasked_video data_type masks content;
}

abbrev pub write_audio : ℕ → Option Masks → Outputs → Bytes → Bytes → Outputs
write_audio data_type masks outs written content = record outs {
  audio = some (written ++ unmasked_audio data_type masks content);
}

abbrev with_content : (Bytes → Outputs) → Outcome ReadError (Got Bytes) → Outcome ReadError Outputs
with_content f (ok got) = ok (f got.value)
with_content f (err e) = err e
with_content f panic = panic

module _ (content : Bytes) (masks : Option Masks) where
  -- `sig == "@SFA" && audioFile != nil`.
  abbrev pub process_audio : Bool → ℤ → ℕ → ℕ → Outputs → Option Bytes → Outcome ReadError Outputs
  process_audio true read_data_len data_type p outs (some written) =
      with_content (write_audio data_type masks outs written) (read_length content read_data_len p)
  process_audio true read_data_len data_type p outs none = ok outs
  process_audio false read_data_len data_type p outs audio = ok outs

  -- The position that it leaves is replaced by the loop's seek.
  unfoldable pub process_chunk : Bytes → ℤ → ℕ → ℕ → Outputs → Outcome ReadError Outputs
  process_chunk sig read_data_len data_type p outs =
      if equal sig (codes "@SFV")
      then with_content (write_video data_type masks outs) (read_length content read_data_len p)
      else process_audio (equal sig (codes "@SFA")) read_data_len data_type p outs outs.audio

  -- What a round does with the signature that it read, the chunk's header and the test for the end,
  -- and with what the later rounds give.
  unfoldable pub chunk_step :
      (ℕ → Outputs → Option (Outcome ReadError Outputs))
      → Outputs
      → Got Bytes
      → ChunkHead
      → Got Bytes
      → Option (Outcome ReadError Outputs)
  chunk_step later outs sig head contents_end = elim (faulty sig.fault) [
    | true ↦ some (ok outs)
    | false ↦ elim (equal contents_end.value (codes "#CONTENTS END")) [
      | true ↦ some (ok outs)
      | false ↦
          elim (process_chunk sig.value
            (sub_ℕ head.block_size (head.header_size + head.footer_size)) head.data_type
            (seek_current (negsuc 12) contents_end.after) outs) [
              | ok outs' ↦ later head.next_offset outs'
              | err e ↦ some (err e)
              | panic ↦ some panic
            ]
    ]
  ]

  unfoldable pub chunk_round :
      (ℕ → Outputs → Option (Outcome ReadError Outputs))
      → ℕ
      → Outputs
      → Option (Outcome ReadError Outputs)
  chunk_round later p outs =
      let sig = read_bytes content 4 p in
      let head = read_head content sig.after in
      chunk_step later outs sig head (read_bytes content 13 head.start)

  -- None where the rounds run out.
  unfoldable pub extract_chunks : ℕ → ℕ → Outputs → Option (Outcome ReadError Outputs)
  extract_chunks zero p outs = none
  extract_chunks (suc n) p outs = chunk_round (extract_chunks n) p outs
