-- ===== src/Usm/Chunks/Rounds.antt =====
-- How long the loop over the chunks runs.
use moe_asset_updater_client.Base.{
  ℕ, zero, suc, ◌+◌, ◌-◌, ◌<◌, ◌≤◌, ◌≡◌, Bool, true, false, Option, none, some, inl, inr, arith,
  length, length-take, length-drop, take, drop, Bytes, codes, equal, Bool-cases,
}
use moe_asset_updater_client.Base.Int.{ℤ, pos, negsuc, sub_ℕ}
use moe_asset_updater_client.Base.Outcome.{Outcome, ok, err, panic}
use moe_asset_updater_client.Acb.Reader.{ReadError}
use moe_asset_updater_client.Binary.{
  faulty, full_fault, seek_current, read_bytes, read_length, read_uint32,
}
use moe_asset_updater_client.Usm.Masks.{Masks}
use moe_asset_updater_client.Usm.Chunks.{
  Outputs, with_content, write_video, process_audio, process_chunk, read_head, chunk_step,
  chunk_round, extract_chunks,
}

-- A read without an error took all its bytes.
full_fault-lem : (n k : ℕ) → faulty (full_fault n k) ≡ false → n ≤ k
full_fault-lem n k h = ground arith

read_bytes-fits :
    (content : Bytes) (n p : ℕ)
    → faulty (read_bytes content (suc n) p).fault ≡ false
    → p + suc n ≤ length content
unfolding read_bytes
read_bytes-fits content n p h = omega (
  arith,
  full_fault-lem (suc n) (length (take (suc n) (drop p content))) h,
  length-take (suc n) (drop p content),
  length-drop p content,
)

read_bytes-after :
    (content : Bytes) (n p : ℕ) → p + n ≤ length content → (read_bytes content n p).after ≡ p + n
unfolding read_bytes
read_bytes-after content n p h =
    omega (arith, length-take n (drop p content), length-drop p content)

read_head-moves : (content : Bytes) (p : ℕ) → p ≤ (read_head content p).next_offset
unfolding read_head read_uint32
read_head-moves content p = omega arith

-- A result that is a success or a panic.
pub data Ends : Option (Outcome ReadError Outputs) → Type 0 where
  gives : {outs : Outputs} → Ends (some (ok outs))
  panics : Ends (some panic)

pub data Settles : Outcome ReadError Outputs → Type 0 where
  done : {outs : Outputs} → Settles (ok outs)
  crashed : Settles panic

module _ (content : Bytes) (masks : Option Masks) where
  process_audio-Settles :
      (b : Bool) (len : ℤ) (data_type p : ℕ) (outs : Outputs) (audio : Option Bytes)
      → Settles (process_audio content masks b len data_type p outs audio)
  unfolding read_length
  process_audio-Settles true (pos n) data_type p outs (some written) = done
  process_audio-Settles true (negsuc n) data_type p outs (some written) = crashed
  process_audio-Settles true len data_type p outs none = done
  process_audio-Settles false len data_type p outs audio = done

  with_content-Settles :
      (f : Bytes → Outputs) (len : ℤ) (p : ℕ) → Settles (with_content f (read_length content len p))
  unfolding read_length
  with_content-Settles f (pos n) p = done
  with_content-Settles f (negsuc n) p = crashed

  process_chunk-Settles :
      (sig : Bytes) (len : ℤ) (data_type p : ℕ) (outs : Outputs)
      → Settles (process_chunk content masks sig len data_type p outs)
  unfolding process_chunk
  process_chunk-Settles sig len data_type p outs = elim (Bool-cases (equal sig (codes "@SFV"))) [
    | inl e ↦ rw e (with_content-Settles (write_video data_type masks outs) len p)
    | inr e ↦
        rw e (process_audio-Settles (equal sig (codes "@SFA")) len data_type p outs outs.audio)
  ]

  Ends-then :
      (o : Outcome ReadError Outputs) (f : Outputs → Option (Outcome ReadError Outputs))
      → Settles o
      → ((outs : Outputs) → Ends (f outs))
      → Ends (elim o [ ok outs' ↦ f outs' | err e ↦ some (err e) | panic ↦ some panic ])
  Ends-then (ok outs) f done go = go outs
  Ends-then (err e) f settles go = elim settles [ ]
  Ends-then panic f crashed go = panics

  -- With more rounds than there are bytes left, the loop over the chunks comes to its end, or panics;
  -- it does not run out of rounds and does not return an error.
  pub extract_chunks-Ends :
      (n p : ℕ) (outs : Outputs)
      → length content - p < n
      → Ends (extract_chunks content masks n p outs)
  unfolding extract_chunks chunk_round chunk_step
  extract_chunks-Ends zero p outs h = absurd (omega arith)
  extract_chunks-Ends (suc n) p outs h =
      let sig = read_bytes content 4 p in
      let head = read_head content sig.after in
      let contents_end = read_bytes content 13 head.start in
      elim (Bool-cases (faulty sig.fault)) [
        | inl e ↦ rw (e, chunk_step) gives
        | inr e ↦
            rw (e, chunk_step)
              (elim (Bool-cases (equal contents_end.value (codes "#CONTENTS END"))) [
                | inl m ↦ rw (m, chunk_step) gives
                | inr m ↦
                    rw (m, chunk_step)
                      (Ends-then
                        (process_chunk content masks sig.value
                          (sub_ℕ head.block_size (head.header_size + head.footer_size))
                          head.data_type (seek_current (negsuc 12) contents_end.after) outs)
                        (λ outs'. extract_chunks content masks n head.next_offset outs')
                        (process_chunk-Settles sig.value
                          (sub_ℕ head.block_size (head.header_size + head.footer_size))
                          head.data_type (seek_current (negsuc 12) contents_end.after) outs)
                        λ outs'. extract_chunks-Ends n head.next_offset outs' (
                          omega (
                            arith,
                            read_bytes-fits content 3 p e,
                            read_bytes-after content 4 p (read_bytes-fits content 3 p e),
                            read_head-moves content sig.after,
                          )))
              ])
      ]
