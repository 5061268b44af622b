-- ===== src/Hca/Header.antt =====
-- The chunks of an HCA header, in the order of the file: `decodeBaseHeader` to `decodeCommentChunk`
-- and `decodeChunks` of internal/cricodecs/hca/clhca.go.
pub mod Ranges
use moe_asset_updater_client.Base.{
  ℕ, zero, suc, ◌+◌, ◌-◌, ◌%◌, ◌^◌, bit_and, Bool, true, false, not, ◌&&◌, ◌||◌, List, [], ◌∷◌, ltb,
  leb, ◌==◌, if◌then◌else◌, length, Bytes,
}
use moe_asset_updater_client.Hca.Crc.{crc16_checksum}
use moe_asset_updater_client.Hca.Bitreader.{bitreader_read, bitreader_peek}
use moe_asset_updater_client.Hca.State.{
  ClHca, HcaError, invalid_signature, unsupported_version, incomplete_header, header_checksum,
  missing_fmt, invalid_channel_count, invalid_frame_count, invalid_sample_rate, missing_comp_dec,
  invalid_loop_points, invalid_cipher, sub_64,
}
use moe_asset_updater_client.Hca.Decode.{
  Decode, pure, ◌>>=◌, ◌>>◌, require, choose, lift, read, skip, peek_tag, store,
}

unfoldable pub decode_base_header : ClHca → Bytes → Decode ClHca
decode_base_header hca bytes = do
  tag ← peek_tag
  require (tag == 0x48434100) invalid_signature
  skip 32
  version ← read 16
  header_size ← read 16
  require
      (version == 0x0101
        || version == 0x0102
        || version == 0x0103
        || version == 0x0200
        || version == 0x0300)
      unsupported_version
  require (leb header_size (length bytes)) incomplete_header
  sum ← lift (crc16_checksum bytes header_size)
  require (sum == 0) header_checksum
  pure (record hca { version = version; header_size = header_size })

unfoldable pub decode_fmt_chunk : ClHca → Decode ClHca
decode_fmt_chunk hca = do
  tag ← peek_tag
  require (tag == 0x666D7400) missing_fmt
  skip 32
  channels ← read 8
  sample_rate ← read 24
  frame_count ← read 32
  encoder_delay ← read 16
  encoder_padding ← read 16
  require (leb 1 channels && leb channels 16) invalid_channel_count
  require (not (frame_count == 0)) invalid_frame_count
  require (leb 1 sample_rate && leb sample_rate 0x7FFFFF) invalid_sample_rate
  pure (record hca {
    channels = channels;
    sample_rate = sample_rate;
    frame_count = frame_count;
    encoder_delay = encoder_delay;
    encoder_padding = encoder_padding;
  })

unfoldable pub decode_comp_chunk : ClHca → Decode ClHca
decode_comp_chunk hca = do
  skip 32
  frame_size ← read 16
  min_resolution ← read 8
  max_resolution ← read 8
  track_count ← read 8
  channel_config ← read 8
  total_band_count ← read 8
  base_band_count ← read 8
  stereo_band_count ← read 8
  bands_per_hfr_group ← read 8
  ms_stereo ← read 8
  reserved ← read 8
  pure (record hca {
    frame_size = frame_size;
    min_resolution = min_resolution;
    max_resolution = max_resolution;
    track_count = track_count;
    channel_config = channel_config;
    total_band_count = total_band_count;
    base_band_count = base_band_count;
    stereo_band_count = stereo_band_count;
    bands_per_hfr_group = bands_per_hfr_group;
    ms_stereo = ms_stereo;
    reserved = reserved;
  })

-- The subtraction of the band counts wraps around where the base is the larger.
unfoldable pub decode_dec_chunk : ClHca → Decode ClHca
decode_dec_chunk hca = do
  skip 32
  frame_size ← read 16
  min_resolution ← read 8
  max_resolution ← read 8
  total ← read 8
  base ← read 8
  track_count ← read 4
  channel_config ← read 4
  stereo_type ← read 8
  let base_band_count = if stereo_type == 0 then total + 1 else base + 1
  pure (record hca {
    frame_size = frame_size;
    min_resolution = min_resolution;
    max_resolution = max_resolution;
    track_count = track_count;
    channel_config = channel_config;
    stereo_type = stereo_type;
    total_band_count = total + 1;
    base_band_count = base_band_count;
    stereo_band_count = sub_64 (total + 1) base_band_count;
    bands_per_hfr_group = 0;
  })

unfoldable pub decode_comp_dec_chunk : ClHca → Decode ClHca
unfolding decode_comp_chunk decode_dec_chunk
decode_comp_dec_chunk hca = do
  tag ← peek_tag
  choose (tag == 0x636F6D70) (decode_comp_chunk hca) (
      choose (tag == 0x64656300) (decode_dec_chunk hca)
        (require false missing_comp_dec >> pure hca))

unfoldable pub decode_vbr_chunk : ClHca → Decode ClHca
decode_vbr_chunk hca = do
  tag ← peek_tag
  choose (tag == 0x76627200)
      (do
        skip 32
        size ← read 16
        noise ← read 16
        pure (record hca { vbr_max_frame_size = size; vbr_noise_level = noise }))
      (pure (record hca { vbr_max_frame_size = 0; vbr_noise_level = 0 }))

unfoldable pub decode_ath_chunk : ClHca → Decode ClHca
decode_ath_chunk hca = do
  tag ← peek_tag
  choose (tag == 0x61746800) (do skip 32; kind ← read 16; pure (record hca { ath_type = kind }))
      (pure (record hca { ath_type = if ltb hca.version 0x0200 then 1 else 0 }))

unfoldable pub decode_loop_chunk : ClHca → Decode ClHca
decode_loop_chunk hca = do
  tag ← peek_tag
  choose (tag == 0x6C6F6F70)
      (do
        skip 32
        start ← read 32
        end ← read 32
        delay ← read 16
        padding ← read 16
        require (leb start end && ltb end hca.frame_count) invalid_loop_points
        pure (record hca {
          loop_start_frame = start;
          loop_end_frame = end;
          loop_start_delay = delay;
          loop_end_padding = padding;
          loop_flag = 1;
        }))
      (pure (record hca { loop_flag = 0 }))

unfoldable pub decode_cipher_chunk : ClHca → Decode ClHca
decode_cipher_chunk hca = do
  tag ← peek_tag
  choose (tag == 0x63697068)
      (do
        skip 32
        kind ← read 16
        require (kind == 0 || kind == 1 || kind == 56) invalid_cipher
        pure (record hca { ciph_type = kind }))
      (pure (record hca { ciph_type = 0 }))

-- The bits of 1.0 where there is no chunk.
unfoldable pub decode_rva_chunk : ClHca → Decode ClHca
decode_rva_chunk hca = do
  tag ← peek_tag
  choose (tag == 0x72766100)
      (do skip 32; volume ← read 32; pure (record hca { rva_volume = volume % 2 ^ 32 }))
      (pure (record hca { rva_volume = 0x3F800000 }))

-- `for i := 0; i < commentLen; i++ { comment[i] = byte(read 8) }`.
unfoldable pub read_comment : ℕ → ℕ → Bytes → Decode Bytes
read_comment zero i comment = pure comment
read_comment (suc n) i comment = do
  c ← read 8
  comment' ← lift (store comment i (c % 2 ^ 8))
  read_comment n (i + 1) comment'

unfoldable pub decode_comment_chunk : ClHca → Decode ClHca
unfolding read_comment
decode_comment_chunk hca = do
  tag ← peek_tag
  choose (tag == 0x636F6D6D)
      (do
        skip 32
        len ← read 8
        comment ← read_comment len 0 hca.comment
        comment' ← lift (store comment len 0)
        pure (record hca { comment_len = len; comment = comment' }))
      (pure (record hca { comment_len = 0 }))

unfoldable pub decode_chunks : ClHca → Decode ClHca
decode_chunks hca = do
  hca₁ ← decode_fmt_chunk hca
  hca₂ ← decode_comp_dec_chunk hca₁
  hca₃ ← decode_vbr_chunk hca₂
  hca₄ ← decode_ath_chunk hca₃
  hca₅ ← decode_loop_chunk hca₄
  hca₆ ← decode_cipher_chunk hca₅
  hca₇ ← decode_rva_chunk hca₆
  decode_comment_chunk hca₇
