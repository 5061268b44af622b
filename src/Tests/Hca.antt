-- ===== src/Tests/Hca.antt =====
-- The HCA decoder on concrete streams.
use moe_asset_updater_client.Base.{
  ℕ, ◌+◌, ◌*◌, ◌<◌, ◌≡◌, ◌≢◌, refl, inl, inr, [], ◌∷◌, arith, length, get_or, Bytes,
}
use moe_asset_updater_client.Base.Outcome.{ok, panic}
use moe_asset_updater_client.Hca.State.{ClHca, zero_hca, HcaError}
use moe_asset_updater_client.Hca.Bitreader.{ClData}
use moe_asset_updater_client.Hca.Bitreader.Exact.{bitreader_peek-bits_at, bitreader_peek-panic}
use moe_asset_updater_client.Hca.Crc.Polynomial.{remainder, crc16_checksum-remainder}
use moe_asset_updater_client.Hca.Crc.Detects.{crc16_checksum_detects}
use moe_asset_updater_client.Hca.Cipher.{cipher_init56_create_table}
use moe_asset_updater_client.Hca.Cipher.Nibbles.{Enumerates, cipher_init56_create_table-Enumerates}
use moe_asset_updater_client.Hca.Ath.{ath_init1}
use moe_asset_updater_client.Hca.Ath.Closed.{entry_at, ath_init1-entry_at}
use moe_asset_updater_client.Hca.Info.{CriWareHcaInfo, get_info}
use moe_asset_updater_client.Hca.Info.Player.{IsPlayable, decode_header-get_info}
use moe_asset_updater_client.Hca.Validate.{
  decode_header, validate_and_initialize, initialize_decoder_state, init_channels, set_channels,
  coded_count, write_tracks, write_layout, track_layout, validate_tracks_and_bands,
  validate_frame_and_resolution, header_ceil2,
}
use moe_asset_updater_client.Hca.Header.{
  decode_base_header, decode_chunks, decode_fmt_chunk, decode_comp_dec_chunk, decode_comp_chunk,
  decode_dec_chunk, decode_vbr_chunk, decode_ath_chunk, decode_loop_chunk, decode_cipher_chunk,
  decode_rva_chunk, decode_comment_chunk,
}
use moe_asset_updater_client.Hca.Decode.{
  ◌>>=◌, pure, require, choose, lift, read, skip, peek_tag, store,
}
use moe_asset_updater_client.Hca.Bitreader.{
  bitreader_init, byte_at, load, shr, peek_bytes, bitreader_peek, bitreader_skip, bitreader_read,
}
use moe_asset_updater_client.Hca.Crc.{crc16_checksum, crc16_loop, crc_step, crc_mask_table}
use moe_asset_updater_client.Hca.Ath.{ath_init, ath_init0}
use moe_asset_updater_client.Hca.Cipher.{cipher_init, cipher_init0, count_from}
use moe_asset_updater_client.Hca.Validate.Configured.{IsConfigured, decode_header-IsConfigured}

abbrev six_bytes : Bytes
six_bytes = 0x12 ∷ 0x34 ∷ 0x56 ∷ 0x78 ∷ 0x9A ∷ 0xBC ∷ []

abbrev at_bit : ℕ → ClData
at_bit i = record { bytes = six_bytes; size = 48; bit = i }

bitreader_peek-bits_at_example : bitreader_peek {E = HcaError} (at_bit 4) 12 ≡ ok 0x234
bitreader_peek-bits_at_example =
    bitreader_peek-bits_at {E = HcaError} (at_bit 4) 12
      (record {
        bytes_valid = ground arith;
        size_le = omega arith;
        some_bits = omega arith;
        enough = omega arith;
      })
      (omega arith) (inr (omega arith))

bitreader_peek-panic_example : bitreader_peek {E = HcaError} (at_bit 34) 14 ≡ panic
bitreader_peek-panic_example =
    bitreader_peek-panic {E = HcaError} (at_bit 34) 14
      (record {
        bytes_valid = ground arith;
        size_le = omega arith;
        some_bits = omega arith;
        enough = omega arith;
      })
      (omega arith) (inl (omega arith))

crc16_checksum-remainder_example :
    crc16_checksum {E = HcaError} six_bytes 6 ≡ ok (remainder six_bytes 0)
crc16_checksum-remainder_example =
    crc16_checksum-remainder {E = HcaError} six_bytes [] (ground arith)

crc16_checksum_detects_example :
    crc16_checksum {E = HcaError} (0x12 ∷ 0x34 ∷ 0x56 ∷ []) 3
    ≢ crc16_checksum (0x12 ∷ 0x35 ∷ 0x56 ∷ []) 3
crc16_checksum_detects_example =
    crc16_checksum_detects {E = HcaError} (0x12 ∷ []) (0x56 ∷ []) 0x34 0x35 (omega arith, tt)
      (omega arith, tt) (omega arith) (omega arith) (λ e. ground arith)

cipher_init56_create_table-Enumerates_example : Enumerates 16 (cipher_init56_create_table 0xC7)
cipher_init56_create_table-Enumerates_example =
    cipher_init56_create_table-Enumerates 0xC7 (omega arith)

ath_init1-entry_at_example :
    (length (ath_init1 44100) ≡ 128)
    × ((i : ℕ) → i < 128 → get_or (ath_init1 44100) i 0 ≡ entry_at (44100 * (i + 1)))
ath_init1-entry_at_example = ath_init1-entry_at 44100

-- A stereo stream of ten frames, with its checksum, and room for more chunks.
abbrev stereo_header : Bytes
stereo_header =
    0x48 ∷ 0x43 ∷ 0x41 ∷ 0x00 ∷ 0x02 ∷ 0x00 ∷ 0x00 ∷ 0x40 ∷ 0x66 ∷ 0x6D ∷ 0x74 ∷ 0x00 ∷ 0x02 ∷ 0x00
    ∷ 0xAC ∷ 0x44 ∷ 0x00 ∷ 0x00 ∷ 0x00 ∷ 0x0A ∷ 0x00 ∷ 0x80 ∷ 0x00 ∷ 0x00 ∷ 0x63 ∷ 0x6F ∷ 0x6D
    ∷ 0x70 ∷ 0x02 ∷ 0x00 ∷ 0x01 ∷ 0x0F ∷ 0x01 ∷ 0x00 ∷ 0x80 ∷ 0x60 ∷ 0x10 ∷ 0x04 ∷ 0x00 ∷ 0x00
    ∷ 0x70 ∷ 0x61 ∷ 0x64 ∷ 0x00 ∷ 0x00 ∷ 0x00 ∷ 0x00 ∷ 0x00 ∷ 0x00 ∷ 0x00 ∷ 0x00 ∷ 0x00 ∷ 0x00
    ∷ 0x00 ∷ 0x00 ∷ 0x00 ∷ 0x00 ∷ 0x00 ∷ 0x00 ∷ 0x00 ∷ 0x00 ∷ 0x00 ∷ 0xC1 ∷ 0x27 ∷ []

abbrev stereo_decoder : ClHca
stereo_decoder = elim (decode_header zero_hca stereo_header) [ ok h ↦ h | _ ↦ zero_hca ]

stereo_header_accepted : decode_header zero_hca stereo_header ≡ ok stereo_decoder
unfolding decode_header validate_and_initialize initialize_decoder_state init_channels set_channels
    coded_count write_tracks write_layout track_layout validate_tracks_and_bands
    validate_frame_and_resolution header_ceil2 decode_base_header decode_chunks decode_fmt_chunk
    decode_comp_dec_chunk decode_comp_chunk decode_dec_chunk decode_vbr_chunk decode_ath_chunk
    decode_loop_chunk decode_cipher_chunk decode_rva_chunk decode_comment_chunk ◌>>=◌ pure require
    choose lift read skip peek_tag store bitreader_init byte_at load shr peek_bytes bitreader_peek
    bitreader_skip bitreader_read crc16_checksum crc16_loop crc_step crc_mask_table ath_init
    ath_init0 cipher_init cipher_init0 count_from
stereo_header_accepted = refl

decode_header-IsConfigured_example : IsConfigured stereo_decoder
decode_header-IsConfigured_example =
    decode_header-IsConfigured zero_hca stereo_header stereo_header_accepted

decode_header-get_info_example :
    (i : CriWareHcaInfo) × (get_info stereo_decoder ≡ ok i) × IsPlayable i
decode_header-get_info_example =
    decode_header-get_info zero_hca stereo_header stereo_header_accepted
