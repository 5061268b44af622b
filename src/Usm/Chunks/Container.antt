-- ===== src/Usm/Chunks/Container.antt =====
-- One chunk as an encoder writes it, and the round of the loop that reads it.
pub mod Stream
pub mod Sealed
use moe_asset_updater_client.Base.{
  ℕ, zero, suc, ◌+◌, ◌-◌, ◌*◌, ◌^◌, ◌<◌, ◌≤◌, ◌≡◌, refl, sym, ap, ◌∙◌, Bool, true, false, Option,
  none, some, bit_and, List, [], ◌∷◌, ◌++◌, append_assoc, arith, length, length-append, length-take,
  take, drop, take-append-drop, All, Bytes, codes, equal, if◌then◌else◌, Bool-cases, inl, inr,
}
use mathlib.Core.Path.{subst}
use moe_asset_updater_client.Base.Int.{ℤ, pos, negsuc, sub_ℕ}
use moe_asset_updater_client.Base.Outcome.{Outcome, ok, err, panic}
use moe_asset_updater_client.Acb.Reader.{ReadError}
use moe_asset_updater_client.Binary.{faulty, seek_current, read_bytes, read_length}
use moe_asset_updater_client.Usm.Masks.{Masks}
use moe_asset_updater_client.Usm.Chunks.{
  process_audio, ChunkHead, Outputs, unmasked_video, unmasked_audio, write_video, write_audio,
  process_chunk, read_head, chunk_step, chunk_round, extract_chunks,
}
use moe_asset_updater_client.Usm.Chunks.Reads.{
  At, At-be16, At-be32, complete, be16, be32, seek_current_forward, seek_current_back, At-skip,
  read_bytes-At, read_length-At, read_uint16-At, read_uint32-At, read_uchar-At,
}

-- A chunk as it stands in the file: the bytes that the client does not look at are `filler`, three of
-- them, and `padding`, sixteen.
pub record Chunk : Type 0 where
  pub sig : Bytes
  pub filler : Bytes
  pub kind : ℕ
  pub padding : Bytes
  pub contents : Bytes
  pub footer : Bytes

abbrev pub contents_end : Bytes
contents_end = codes "#CONTENTS END"

abbrev pub chunk_size : Chunk → ℕ
chunk_size c = 24 + length c.contents + length c.footer

pub record IsChunk (c : Chunk) : Type 0 where
  pub sig : length c.sig ≡ 4
  pub filler : length c.filler ≡ 3
  pub padding : length c.padding ≡ 16
  pub footer : length c.footer < 2 ^ 16
  pub size : chunk_size c < 2 ^ 32
  pub long : 13 ≤ length c.contents

-- `string(contentsEnd) == "#CONTENTS END"`.
unfoldable pub is_end : Chunk → Bool
is_end c = equal (take 13 c.contents) contents_end

unfoldable pub encode_head : Chunk → Bytes → Bytes
encode_head c rest =
    be32 (chunk_size c)
    ++ (be16 24 ++ (be16 (length c.footer) ++ (c.filler ++ c.kind ∷ (c.padding ++ rest))))

unfoldable pub encode_chunk : Chunk → Bytes → Bytes
encode_chunk c rest = c.sig ++ encode_head c (c.contents ++ (c.footer ++ rest))

-- A chunk takes a byte at least.
pub length-encode_chunk :
    (c : Chunk) (rest : Bytes) → suc (length rest) ≤ length (encode_chunk c rest)
unfolding encode_chunk encode_head
length-encode_chunk c rest =
    let body = c.contents ++ (c.footer ++ rest) in
    let r5 = c.kind ∷ (c.padding ++ body) in
    let r4 = c.filler ++ r5 in
    let r3 = be16 (length c.footer) ++ r4 in
    let r2 = be16 24 ++ r3 in
    omega (
      arith,
      length-append c.footer rest,
      length-append c.contents (c.footer ++ rest),
      length-append c.padding body,
      length-append c.filler r5,
      length-append (be16 (length c.footer)) r4,
      length-append (be16 24) r3,
      length-append (be32 (chunk_size c)) r2,
      length-append c.sig (be32 (chunk_size c) ++ r2),
    )

module _ (content : Bytes) (c : Chunk) (valid : IsChunk c) where
  read_head-At :
      (rest : Bytes) (p : ℕ)
      → At content p (encode_head c rest)
      → read_head content p ≡ record {
        block_size = chunk_size c;
        next_offset = p + 4 + chunk_size c;
        header_size = 24;
        footer_size = length c.footer;
        data_type = bit_and c.kind 3;
        start = p + 4 + 2 + 2 + 3 + 1 + 16;
      }
  unfolding read_head encode_head
  read_head-At rest p at =
      let r5 = c.kind ∷ (c.padding ++ rest) in
      let r4 = c.filler ++ r5 in
      let r3 = be16 (length c.footer) ++ r4 in
      let r2 = be16 24 ++ r3 in
      let at1 = At-be32 content (chunk_size c) r2 p at in
      let at2 = At-be16 content 24 r3 (p + 4) at1 in
      let at3 = At-be16 content (length c.footer) r4 (p + 4 + 2) at2 in
      let at4 = At-skip content c.filler r5 3 (p + 4 + 2 + 2) valid.filler at3 in
      rw
        (
          read_uint32-At content (chunk_size c) r2 p valid.size at,
          read_uint16-At content 24 r3 (p + 4) (omega arith) at1,
          read_uint16-At content (length c.footer) r4 (p + 4 + 2) valid.footer at2,
          read_bytes-At content c.filler r5 3 (p + 4 + 2 + 2) valid.filler at3,
          read_uchar-At content c.kind (c.padding ++ rest) (p + 4 + 2 + 2 + 3) at4,
          seek_current_forward 16 (p + 4 + 2 + 2 + 3 + 1),
        )
        refl

  -- Where the contents start.
  body-At :
      (rest : Bytes) (p : ℕ)
      → At content p (encode_head c rest)
      → At content (p + 4 + 2 + 2 + 3 + 1 + 16) rest
  unfolding encode_head
  body-At rest p at =
      let r5 = c.kind ∷ (c.padding ++ rest) in
      let r4 = c.filler ++ r5 in
      let r3 = be16 (length c.footer) ++ r4 in
      let r2 = be16 24 ++ r3 in
      let at1 = At-be32 content (chunk_size c) r2 p at in
      let at2 = At-be16 content 24 r3 (p + 4) at1 in
      let at3 = At-be16 content (length c.footer) r4 (p + 4 + 2) at2 in
      let at4 = At-skip content c.filler r5 3 (p + 4 + 2 + 2) valid.filler at3 in
      let at5 = At-skip content (c.kind ∷ []) (c.padding ++ rest) 1 (p + 4 + 2 + 2 + 3) refl at4 in
      At-skip content c.padding rest 16 (p + 4 + 2 + 2 + 3 + 1) valid.padding at5

  -- Where the next chunk starts.
  pub chunk-skip :
      (rest : Bytes) (p : ℕ)
      → At content p (encode_chunk c rest)
      → At content (p + 4 + 4 + chunk_size c) rest
  unfolding encode_chunk
  chunk-skip rest p at =
      let body = c.contents ++ (c.footer ++ rest) in
      let at_head = At-skip content c.sig (encode_head c body) 4 p valid.sig at in
      let at_body = body-At body (p + 4) at_head in
      let q = p + 4 + 4 + 2 + 2 + 3 + 1 + 16 in
      let at_footer =
        At-skip content c.contents (c.footer ++ rest) (length c.contents) q refl at_body in
      subst (λ t. At content t rest) (omega arith)
        (At-skip content c.footer rest (length c.footer) (q + length c.contents) refl at_footer)

-- What a chunk adds to the files.
abbrev pub write_audio_to : Option Masks → Chunk → Outputs → Option Bytes → Outputs
write_audio_to masks c outs none = outs
write_audio_to masks c outs (some written) =
    write_audio (bit_and c.kind 3) masks outs written c.contents

pub write_chunk : Option Masks → Chunk → Outputs → Outputs
write_chunk masks c outs =
    if equal c.sig (codes "@SFV")
    then write_video (bit_and c.kind 3) masks outs c.contents
    else if equal c.sig (codes "@SFA")
    then write_audio_to masks c outs outs.audio
    else outs

module _ (content : Bytes) (masks : Option Masks) (c : Chunk) where
  audio-write :
      (b : Bool) (rest : Bytes) (p : ℕ) (outs : Outputs) (audio : Option Bytes)
      → At content p (c.contents ++ rest)
      → process_audio content masks b (pos (length c.contents)) (bit_and c.kind 3) p outs audio
        ≡ ok (if b then write_audio_to masks c outs audio else outs)
  audio-write true rest p outs (some written) at =
      rw (read_length-At content c.contents rest p at) refl
  audio-write true rest p outs none at = refl
  audio-write false rest p outs audio at = refl

  process-write :
      (rest : Bytes) (p : ℕ) (outs : Outputs)
      → At content p (c.contents ++ rest)
      → process_chunk content masks c.sig (pos (length c.contents)) (bit_and c.kind 3) p outs
        ≡ ok (write_chunk masks c outs)
  unfolding process_chunk write_chunk
  process-write rest p outs at = elim (Bool-cases (equal c.sig (codes "@SFV"))) [
    | inl e ↦ rw (e, read_length-At content c.contents rest p at) refl
    | inr e ↦ rw e (audio-write (equal c.sig (codes "@SFA")) rest p outs outs.audio at)
  ]

data_length : (c : Chunk) → sub_ℕ (chunk_size c) (24 + length c.footer) ≡ pos (length c.contents)
data_length c = ground arith

-- One chunk of the stream.
module _ (content : Bytes) (masks : Option Masks) (c : Chunk) (valid : IsChunk c) where
  marker-At :
      (rest : Bytes) (p : ℕ)
      → At content p (c.contents ++ rest)
      → read_bytes content 13 p ≡ complete (take 13 c.contents) (p + 13)
  marker-At rest p at =
      read_bytes-At content (take 13 c.contents) (drop 13 c.contents ++ rest) 13 p
        (omega (arith, length-take 13 c.contents, valid.long))
        (record {
          seen =
              at.seen
              ∙ ap (λ t. t ++ rest) (sym (take-append-drop 13 c.contents))
              ∙ append_assoc (take 13 c.contents) (drop 13 c.contents) rest;
        })

  -- The values that the reads of one round give.
  abbrev head_of : ℕ → ChunkHead
  head_of p = record {
    block_size = chunk_size c;
    next_offset = p + 4 + chunk_size c;
    header_size = 24;
    footer_size = length c.footer;
    data_type = bit_and c.kind 3;
    start = p + 4 + 2 + 2 + 3 + 1 + 16;
  }

  chunk_step-one :
      (later : ℕ → Outputs → Option (Outcome ReadError Outputs)) (p : ℕ) (outs : Outputs)
      (rest : Bytes)
      → is_end c ≡ false
      → At content (head_of p).start (c.contents ++ rest)
      → chunk_step content masks later outs
          (complete c.sig p)
          (head_of p)
          (complete (take 13 c.contents) ((head_of p).start + 13))
        ≡ later (p + 4 + chunk_size c) (write_chunk masks c outs)
  unfolding chunk_step is_end
  chunk_step-one later p outs rest not_end at =
      rw
        (
          chunk_step,
          not_end,
          data_length c,
          seek_current_back 12 (head_of p).start,
          process-write content masks c rest (head_of p).start outs at,
        )
        refl

  chunk_step-end :
      (later : ℕ → Outputs → Option (Outcome ReadError Outputs)) (p : ℕ) (outs : Outputs)
      → is_end c ≡ true
      → chunk_step content masks later outs
          (complete c.sig p)
          (head_of p)
          (complete (take 13 c.contents) ((head_of p).start + 13))
        ≡ some (ok outs)
  unfolding chunk_step is_end
  chunk_step-end later p outs last = rw (chunk_step, last) refl

  pub chunk_round-one :
      (later : ℕ → Outputs → Option (Outcome ReadError Outputs)) (p : ℕ) (outs : Outputs)
      (rest : Bytes)
      → is_end c ≡ false
      → At content p (encode_chunk c rest)
      → chunk_round content masks later p outs
        ≡ later (p + 4 + 4 + chunk_size c) (write_chunk masks c outs)
  unfolding encode_chunk chunk_round
  chunk_round-one later p outs rest not_end at =
      let body = c.contents ++ (c.footer ++ rest) in
      let at_head = At-skip content c.sig (encode_head c body) 4 p valid.sig at in
      let at_body = body-At content c valid body (p + 4) at_head in
      rw
        (
          read_bytes-At content c.sig (encode_head c body) 4 p valid.sig at,
          read_head-At content c valid body (p + 4) at_head,
          marker-At (c.footer ++ rest) (p + 4 + 4 + 2 + 2 + 3 + 1 + 16) at_body,
        )
        (chunk_step-one later (p + 4) outs (c.footer ++ rest) not_end at_body)

  pub chunk_round-end :
      (later : ℕ → Outputs → Option (Outcome ReadError Outputs)) (p : ℕ) (outs : Outputs)
      (rest : Bytes)
      → is_end c ≡ true
      → At content p (encode_chunk c rest)
      → chunk_round content masks later p outs ≡ some (ok outs)
  unfolding encode_chunk chunk_round
  chunk_round-end later p outs rest last at =
      let body = c.contents ++ (c.footer ++ rest) in
      let at_head = At-skip content c.sig (encode_head c body) 4 p valid.sig at in
      let at_body = body-At content c valid body (p + 4) at_head in
      rw
        (
          read_bytes-At content c.sig (encode_head c body) 4 p valid.sig at,
          read_head-At content c valid body (p + 4) at_head,
          marker-At (c.footer ++ rest) (p + 4 + 4 + 2 + 2 + 3 + 1 + 16) at_body,
        )
        (chunk_step-end later (p + 4) outs last)
