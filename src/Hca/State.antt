-- ===== src/Hca/State.antt =====
-- The decoder object of internal/cricodecs/hca/clhca.go, `ClHCA`, as far as the header decoder writes
-- it, with the constants and the errors of that file. `uint` has 64 bits. The sample buffers of
-- `stChannel` are floats that only the frame decoder touches; they have no field here.
use moe_asset_updater_client.Base.{ℕ, ◌+◌, ◌-◌, ◌%◌, ◌^◌, Bool, false, List, replicate, Bytes}

abbrev pub hca_mask : ℕ
hca_mask = 0x7F7F7F7F

abbrev pub samples_per_subframe : ℕ
samples_per_subframe = 128

abbrev pub subframes : ℕ
subframes = 8

abbrev pub samples_per_frame : ℕ
samples_per_frame = 1024

abbrev pub max_channels : ℕ
max_channels = 16

abbrev pub default_random : ℕ
default_random = 1

-- `a - b` on `uint`.
abbrev pub sub_64 : ℕ → ℕ → ℕ
sub_64 a b = (a + 2 ^ 64 - b % 2 ^ 64) % 2 ^ 64

pub data ChannelType : Type 0 where
  discrete stereo_primary stereo_secondary : ChannelType

pub record StChannel : Type 0 where
  pub channel_type : ChannelType
  pub coded_count : ℕ

pub record ClHca : Type 0 where
  pub is_valid : Bool
  pub version : ℕ
  pub header_size : ℕ
  pub channels : ℕ
  pub sample_rate : ℕ
  pub frame_count : ℕ
  pub encoder_delay : ℕ
  pub encoder_padding : ℕ
  pub frame_size : ℕ
  pub min_resolution : ℕ
  pub max_resolution : ℕ
  pub track_count : ℕ
  pub channel_config : ℕ
  pub stereo_type : ℕ
  pub total_band_count : ℕ
  pub base_band_count : ℕ
  pub stereo_band_count : ℕ
  pub bands_per_hfr_group : ℕ
  pub ms_stereo : ℕ
  pub reserved : ℕ
  pub vbr_max_frame_size : ℕ
  pub vbr_noise_level : ℕ
  pub ath_type : ℕ
  pub loop_start_frame : ℕ
  pub loop_end_frame : ℕ
  pub loop_start_delay : ℕ
  pub loop_end_padding : ℕ
  pub loop_flag : ℕ
  pub ciph_type : ℕ
  pub keycode : ℕ
  -- the bits of the `float32`
  pub rva_volume : ℕ
  pub comment_len : ℕ
  pub comment : Bytes
  pub hfr_group_count : ℕ
  pub ath_curve : Bytes
  pub cipher_table : Bytes
  pub random : ℕ
  pub channel : List StChannel

-- The zero value, `ClHCA{}`.
abbrev pub zero_hca : ClHca
zero_hca = record {
  is_valid = false;
  version = 0;
  header_size = 0;
  channels = 0;
  sample_rate = 0;
  frame_count = 0;
  encoder_delay = 0;
  encoder_padding = 0;
  frame_size = 0;
  min_resolution = 0;
  max_resolution = 0;
  track_count = 0;
  channel_config = 0;
  stereo_type = 0;
  total_band_count = 0;
  base_band_count = 0;
  stereo_band_count = 0;
  bands_per_hfr_group = 0;
  ms_stereo = 0;
  reserved = 0;
  vbr_max_frame_size = 0;
  vbr_noise_level = 0;
  ath_type = 0;
  loop_start_frame = 0;
  loop_end_frame = 0;
  loop_start_delay = 0;
  loop_end_padding = 0;
  loop_flag = 0;
  ciph_type = 0;
  keycode = 0;
  rva_volume = 0;
  comment_len = 0;
  comment = replicate 256 0;
  hfr_group_count = 0;
  ath_curve = replicate 128 0;
  cipher_table = replicate 256 0;
  random = 0;
  channel = replicate 16 (record { channel_type = discrete; coded_count = 0 });
}

-- The messages of the errors.
pub data HcaError : Type 0 where
  data_too_small invalid_signature unsupported_version incomplete_header : HcaError
  header_checksum missing_fmt invalid_channel_count invalid_frame_count : HcaError
  invalid_sample_rate missing_comp_dec invalid_loop_points invalid_cipher : HcaError
  invalid_frame_size invalid_resolution_for_version invalid_resolution_range : HcaError
  track_count_exceeds invalid_bands invalid_ath ms_stereo_unsupported : HcaError
  -- of clhcadecoder.go
  invalid_coded_count invalid_scalefactor : HcaError
