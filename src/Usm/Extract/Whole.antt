-- ===== src/Usm/Extract/Whole.antt =====
-- A whole file: what ExtractUSM writes.
use moe_asset_updater_client.Base.{
  ℕ, ◌+◌, ◌<◌, ◌≤◌, ◌≡◌, refl, ap, Bool, true, false, Option, none, some, List, [], ◌∷◌, ◌++◌,
  arith, map, length, length-append, length-map, All, Bytes,
}
use moe_asset_updater_client.Base.Outcome.{ok}
use moe_asset_updater_client.Usm.Masks.{get_mask}
use moe_asset_updater_client.Usm.Header.{video_sig, audio_sig, parse_usm_header}
use moe_asset_updater_client.Usm.Chunks.Container.{
  Chunk, IsChunk, is_end, encode_chunk, length-encode_chunk,
}
use moe_asset_updater_client.Usm.Chunks.Container.Stream.{encode_stream}
use moe_asset_updater_client.Usm.Chunks.Container.Sealed.{
  seal, contents_of, added, extract_chunks-seal,
}
use moe_asset_updater_client.Usm.Metadata.Text.{Decoder}
use moe_asset_updater_client.Usm.Extract.{
  Paths, create_output_files, output_files, decoded, opened, rounds, extract_usm,
}

length-encode_stream :
    (cs : List Chunk) (rest : Bytes) → length cs + length rest ≤ length (encode_stream cs rest)
unfolding encode_stream
length-encode_stream [] rest = omega arith
length-encode_stream (c ∷ cs) rest =
    omega (arith, length-encode_stream cs rest, length-encode_chunk c (encode_stream cs rest))

-- The files of a video whose chunks these are.
unfoldable pub expected_files : Paths → List Chunk → List (Bytes × Bytes)
expected_files (video_path, none) cs = (video_path, contents_of video_sig cs) ∷ []
expected_files (video_path, some audio_path) cs =
    (video_path, contents_of video_sig cs) ∷ (audio_path, contents_of audio_sig cs) ∷ []

output_files-added :
    (paths : Paths) (cs : List Chunk)
    → output_files paths (added cs (opened paths)) ≡ expected_files paths cs
unfolding added expected_files
output_files-added (video_path, none) cs = refl
output_files-added (video_path, some audio_path) cs = refl

module _ {E : Type 0} (create : Bytes → Option E) (shift_jis : Decoder) where
  -- A file whose header ends where the stream starts, with the chunks that an encoder masked by the
  -- key, an end chunk and any bytes after that, each chunk with fields of their lengths, sizes that fit
  -- and at least 13 bytes of contents, and no data chunk that begins like the end marker: where
  -- parseUSMHeader gets through the header and the
  -- output files can be created, ExtractUSM with the key writes the clear contents of the video
  -- chunks to the video file and those of the audio chunks to the audio file, where there is one.
  pub extract_usm-seal :
      (key : ℕ) (cs : List Chunk) (last : Chunk) (header rest target_dir fallback name : Bytes)
      (has_audio export_audio : Bool) (paths : Paths)
      → All (λ c. IsChunk (seal (get_mask key) c) × (is_end (seal (get_mask key) c) ≡ false)) cs
      → IsChunk last
      → is_end last ≡ true
      → parse_usm_header
          (header ++ encode_stream (map (seal (get_mask key)) cs) (encode_chunk last rest))
          fallback
        ≡ ok (name, has_audio, length header)
      → create_output_files create target_dir (decoded shift_jis name) has_audio export_audio
        ≡ ok paths
      → extract_usm create shift_jis
          (header ++ encode_stream (map (seal (get_mask key)) cs) (encode_chunk last rest))
          target_dir
          fallback
          (some key)
          export_audio
        ≡ ok (expected_files paths cs)
  unfolding extract_usm
  extract_usm-seal key cs last header rest target_dir fallback name has_audio export_audio paths
        chunks last_valid ends parsed files =
      let masks = get_mask key in
      let stream = encode_stream (map (seal masks) cs) (encode_chunk last rest) in
      let enough : length cs < rounds (header ++ stream) = omega (
        arith,
        length-append header stream,
        length-map cs (seal masks),
        length-encode_stream (map (seal masks) cs) (encode_chunk last rest),
      ) in
      rw
        (
          parsed,
          files,
          extract_chunks-seal masks cs last header rest (rounds (header ++ stream)) (opened paths)
              enough chunks last_valid ends,
        )
        (ap ok (output_files-added paths cs))
