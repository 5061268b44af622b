-- ===== src/Hca/Validate.antt =====
-- What follows the chunks of an HCA header: `validateAndInitialize` with its parts, `headerCeil2`,
-- `initChannels`, and `DecodeHeader` as a whole, of internal/cricodecs/hca/clhca.go.
pub mod Configured
use moe_asset_updater_client.Base.{
  ℕ, zero, suc, ◌+◌, ◌-◌, ◌*◌, ◌/◌, ◌%◌, ◌^◌, Bool, true, false, not, ◌&&◌, ◌||◌, List, [], ◌∷◌,
  ltb, leb, ◌==◌, if◌then◌else◌, length, get_or, replicate, Bytes,
}
use moe_asset_updater_client.Base.Outcome.{Outcome, ok, err, panic, ◌>>=◌, ◌>>◌, guard}
use moe_asset_updater_client.Hca.Bitreader.{ClData, bitreader_init}
use moe_asset_updater_client.Hca.Ath.{ath_init}
use moe_asset_updater_client.Hca.Cipher.{cipher_init}
use moe_asset_updater_client.Hca.State.{
  ChannelType, discrete, stereo_primary, stereo_secondary, StChannel, ClHca, HcaError,
  data_too_small, invalid_frame_size, invalid_resolution_for_version, invalid_resolution_range,
  track_count_exceeds, invalid_bands, invalid_ath, invalid_cipher, ms_stereo_unsupported, sub_64,
  default_random,
}
use moe_asset_updater_client.Hca.Decode.{store, Decode}
use moe_asset_updater_client.Hca.Header.{decode_base_header, decode_chunks}

unfoldable pub header_ceil2 : ℕ → ℕ → ℕ
header_ceil2 a b = if ltb b 1 then 0 else if a % b == 0 then a / b else a / b + 1

unfoldable pub validate_frame_and_resolution : ClHca → Outcome HcaError ClHca
validate_frame_and_resolution hca = do
  guard (leb 8 hca.frame_size && leb hca.frame_size 0xFFFF) invalid_frame_size
  if leb hca.version 0x0200
      then guard (hca.min_resolution == 1 && hca.max_resolution == 15)
          invalid_resolution_for_version
      else guard (leb hca.min_resolution hca.max_resolution && leb hca.max_resolution 15)
          invalid_resolution_range
  ok hca

-- The two subtractions of the band counts wrap around where the total is the smaller.
unfoldable pub validate_tracks_and_bands : ClHca → Outcome HcaError ClHca
unfolding header_ceil2
validate_tracks_and_bands hca = do
  let tracks = if hca.track_count == 0 then 1 else hca.track_count
  guard (leb tracks hca.channels) track_count_exceeds
  guard
      (leb hca.total_band_count 128
        && leb hca.base_band_count 128
        && leb hca.stereo_band_count 128
        && leb (hca.base_band_count + hca.stereo_band_count) 128
        && leb hca.bands_per_hfr_group 128)
      invalid_bands
  let rest = sub_64 (sub_64 hca.total_band_count hca.base_band_count) hca.stereo_band_count
  ok (record hca {
    track_count = tracks;
    hfr_group_count = header_ceil2 rest hca.bands_per_hfr_group;
  })

-- `ct[0] = …; ct[1] = …` of one track, by the count of its channels.
unfoldable pub track_layout : ℕ → ℕ → List ChannelType
track_layout per_track config =
    if per_track == 2
    then stereo_primary ∷ stereo_secondary ∷ []
    else if per_track == 3
    then stereo_primary ∷ stereo_secondary ∷ discrete ∷ []
    else if per_track == 4
    then stereo_primary
      ∷ stereo_secondary
      ∷ (if config == 0 then stereo_primary ∷ stereo_secondary ∷ [] else discrete ∷ discrete ∷ [])
    else if per_track == 5
    then stereo_primary
      ∷ stereo_secondary
      ∷ discrete
      ∷ (if leb config 2 then stereo_primary ∷ stereo_secondary ∷ [] else discrete ∷ discrete ∷ [])
    else if per_track == 6
    then stereo_primary ∷ stereo_secondary ∷ discrete ∷ discrete ∷ stereo_primary ∷ stereo_secondary
      ∷ []
    else if per_track == 7
    then stereo_primary ∷ stereo_secondary ∷ discrete ∷ discrete ∷ stereo_primary ∷ stereo_secondary
      ∷ discrete ∷ []
    else if per_track == 8
    then stereo_primary ∷ stereo_secondary ∷ discrete ∷ discrete ∷ stereo_primary ∷ stereo_secondary
      ∷ stereo_primary ∷ stereo_secondary ∷ []
    else []

-- The writes of one track from position `at` on.
unfoldable pub write_layout :
    List ChannelType → ℕ → List ChannelType → Outcome HcaError (List ChannelType)
unfolding store
write_layout types at [] = ok types
write_layout types at (t ∷ ts) = do types' ← store types at t; write_layout types' (at + 1) ts

-- `for i := 0; i < trackCount; i++`, with the rounds left and i.
unfoldable pub write_tracks : ℕ → ℕ → ℕ → ℕ → List ChannelType → Outcome HcaError (List ChannelType)
unfolding write_layout track_layout
write_tracks zero i per_track config types = ok types
write_tracks (suc n) i per_track config types = do
  types' ← write_layout types (i * per_track) (track_layout per_track config)
  write_tracks n (i + 1) per_track config types'

unfoldable pub coded_count : ClHca → ChannelType → ℕ
coded_count hca stereo_secondary = hca.base_band_count
coded_count hca _ = hca.base_band_count + hca.stereo_band_count

-- `hca.channel[i]` for the first `channels` of the sixteen; the others keep what they hold.
unfoldable pub set_channels : ℕ → ClHca → List ChannelType → List StChannel → List StChannel
unfolding coded_count
set_channels (suc n) hca (t ∷ ts) (c ∷ cs) =
    record { channel_type = t; coded_count = coded_count hca t } ∷ set_channels n hca ts cs
set_channels _ hca _ cs = cs

-- The division by a track count of zero panics.
unfoldable pub init_channels : ClHca → Outcome HcaError ClHca
unfolding write_tracks set_channels
init_channels hca = do
  let types = replicate 16 discrete
  let per_track = hca.channels / hca.track_count
  types' ←
      if hca.track_count == 0
      then panic
      else if ltb 0 hca.stereo_band_count && ltb 1 per_track
      then write_tracks hca.track_count 0 per_track hca.channel_config types
      else ok types
  ok (record hca { channel = set_channels hca.channels hca types' hca.channel })

unfoldable pub initialize_decoder_state : ClHca → Outcome HcaError ClHca
initialize_decoder_state hca = do
  curve ← ath_init invalid_ath hca.ath_type hca.sample_rate
  table ← cipher_init invalid_cipher hca.cipher_table hca.ciph_type hca.keycode
  hca' ← init_channels (record hca { ath_curve = curve; cipher_table = table })
  guard (hca'.ms_stereo == 0) ms_stereo_unsupported
  ok (record hca' { random = default_random })

unfoldable pub validate_and_initialize : ClHca → Outcome HcaError ClHca
validate_and_initialize hca = do
  hca₁ ← validate_frame_and_resolution hca
  hca₂ ← validate_tracks_and_bands hca₁
  initialize_decoder_state hca₂

unfoldable pub decode_header : ClHca → Bytes → Outcome HcaError ClHca
decode_header hca bytes = do
  guard (leb 8 (length bytes)) data_too_small
  (hca₁, br₁) ←
      decode_base_header (record hca { is_valid = false }) bytes
        (bitreader_init bytes (length bytes))
  (hca₂, br₂) ← decode_chunks hca₁ br₁
  hca₃ ← validate_and_initialize hca₂
  ok (record hca₃ { is_valid = true })
