-- ===== src/Hca/Info.antt =====
-- The decoder object as its callers see it: `NewClHCA`, `Clear`, `SetKey`, `IsOurFile`, `GetInfo` and
-- `DecodeReset` of internal/cricodecs/hca/clhca.go. What `DecodeReset` does to the sample buffers,
-- which are floats, has no part here.
pub mod Player
use moe_asset_updater_client.Base.{
  ℕ, zero, suc, ◌+◌, bit_and, Bool, true, false, List, [], ◌∷◌, ltb, leb, ◌==◌, if◌then◌else◌,
  length, take, Bytes,
}
use moe_asset_updater_client.Base.Int.{ℤ, pos, negsuc}
use moe_asset_updater_client.Base.Outcome.{Outcome, ok, err, panic, ◌>>=◌, ◌>>◌, guard}
use moe_asset_updater_client.Hca.Bitreader.{
  bitreader_init, bitreader_peek, bitreader_skip, bitreader_read,
}
use moe_asset_updater_client.Hca.Cipher.{cipher_init}
use moe_asset_updater_client.Hca.State.{
  ClHca, HcaError, zero_hca, hca_mask, samples_per_frame, default_random, invalid_cipher,
}

abbrev pub clear : ClHca → ClHca
clear hca = record zero_hca { is_valid = false }

abbrev pub new_cl_hca : ClHca
new_cl_hca = clear zero_hca

-- The error of the cipher is dropped, and the table is what it was.
unfoldable pub set_key : ClHca → ℕ → Outcome HcaError ClHca
set_key hca keycode =
    let keyed : ClHca = record hca { keycode = keycode } in
    if hca.is_valid
    then (elim (cipher_init {E = HcaError} invalid_cipher hca.cipher_table hca.ciph_type keycode) [
      | ok table ↦ ok (record keyed { cipher_table = table })
      | err e ↦ ok keyed
      | panic ↦ panic
    ])
    else ok keyed

-- `hcaErrorParams` and `hcaErrorHeader`.
abbrev pub error_params : ℤ
error_params = negsuc 0

abbrev pub error_header : ℤ
error_header = negsuc 1

unfoldable pub is_our_file : Bytes → Outcome HcaError ℤ
is_our_file bytes = if ltb (length bytes) 8 then ok error_params else (do
  let br = bitreader_init bytes 8
  tag ← bitreader_peek br 32
  if bit_and tag hca_mask == 0x48434100
      then (do
        (size, _) ← bitreader_read (bitreader_skip br 48) 16
        ok (if size == 0 then error_header else pos size))
      else ok error_header)

pub record CriWareHcaInfo : Type 0 where
  pub version : ℕ
  pub header_size : ℕ
  pub sampling_rate : ℕ
  pub channel_count : ℕ
  pub block_size : ℕ
  pub block_count : ℕ
  pub encoder_delay : ℕ
  pub encoder_padding : ℕ
  pub loop_enabled : ℕ
  pub loop_start_block : ℕ
  pub loop_end_block : ℕ
  pub loop_start_delay : ℕ
  pub loop_end_padding : ℕ
  pub samples_per_block : ℕ
  pub comment : Bytes
  pub encryption_enabled : Bool

pub data InfoError : Type 0 where
  not_initialized : InfoError

-- `hca.comment[:hca.commentLen]`: a slice past the array panics.
unfoldable pub info_comment : ClHca → Outcome InfoError Bytes
info_comment hca =
    if hca.comment_len == 0
    then ok []
    else if ltb (length hca.comment) hca.comment_len
    then panic
    else ok (take hca.comment_len hca.comment)

abbrev pub info_of : ClHca → Bytes → CriWareHcaInfo
info_of hca comment = record {
  version = hca.version;
  header_size = hca.header_size;
  sampling_rate = hca.sample_rate;
  channel_count = hca.channels;
  block_size = hca.frame_size;
  block_count = hca.frame_count;
  encoder_delay = hca.encoder_delay;
  encoder_padding = hca.encoder_padding;
  loop_enabled = hca.loop_flag;
  loop_start_block = hca.loop_start_frame;
  loop_end_block = hca.loop_end_frame;
  loop_start_delay = hca.loop_start_delay;
  loop_end_padding = hca.loop_end_padding;
  samples_per_block = samples_per_frame;
  comment = comment;
  encryption_enabled = hca.ciph_type == 56;
}

unfoldable pub get_info : ClHca → Outcome InfoError CriWareHcaInfo
unfolding info_comment
get_info hca = do
  guard hca.is_valid not_initialized
  comment ← info_comment hca
  ok (info_of hca comment)

unfoldable pub decode_reset : ClHca → ClHca
decode_reset hca = if hca.is_valid then record hca { random = default_random } else hca
