-- ===== src/Usm/Chunks/Container/Stream.antt =====
-- The stream of chunks that an encoder writes, and what comes out of it.
use moe_asset_updater_client.Base.{
  ℕ, zero, suc, ◌+◌, ◌<◌, ◌≡◌, ◌∙◌, true, false, Option, some, List, [], ◌∷◌, arith, length, All,
  Bytes,
}
use moe_asset_updater_client.Base.Outcome.{ok}
use moe_asset_updater_client.Usm.Masks.{Masks}
use moe_asset_updater_client.Usm.Chunks.{Outputs, extract_chunks}
use moe_asset_updater_client.Usm.Chunks.Reads.{At}
use moe_asset_updater_client.Usm.Chunks.Container.{
  Chunk, IsChunk, is_end, chunk_size, encode_chunk, chunk-skip, write_chunk, chunk_round-one,
  chunk_round-end,
}

unfoldable pub encode_stream : List Chunk → Bytes → Bytes
encode_stream [] rest = rest
encode_stream (c ∷ cs) rest = encode_chunk c (encode_stream cs rest)

-- What the chunks of a stream leave in the files.
unfoldable pub write_chunks : Option Masks → List Chunk → Outputs → Outputs
write_chunks masks [] outs = outs
write_chunks masks (c ∷ cs) outs = write_chunks masks cs (write_chunk masks c outs)

module _ (content : Bytes) (masks : Option Masks) (last : Chunk) (valid : IsChunk last) where
  pub extract_chunks-stream :
      (cs : List Chunk) (n p : ℕ) (outs : Outputs) (rest : Bytes)
      → length cs < n
      → is_end last ≡ true
      → All (λ c. IsChunk c × (is_end c ≡ false)) cs
      → At content p (encode_stream cs (encode_chunk last rest))
      → extract_chunks content masks n p outs ≡ some (ok (write_chunks masks cs outs))
  unfolding extract_chunks write_chunks encode_stream
  extract_chunks-stream cs zero p outs rest h ends valids at = absurd (omega arith)
  extract_chunks-stream [] (suc n) p outs rest h ends valids at =
      chunk_round-end content masks last valid (extract_chunks content masks n) p outs rest ends at
  extract_chunks-stream (c ∷ cs) (suc n) p outs rest h ends (one, others) at =
      let after = encode_stream cs (encode_chunk last rest) in
      chunk_round-one content masks c one.0 (extract_chunks content masks n) p outs after one.1 at
      ∙ extract_chunks-stream cs n (p + 4 + 4 + chunk_size c) (write_chunk masks c outs) rest
          (omega arith) ends others (chunk-skip content c one.0 after p at)
