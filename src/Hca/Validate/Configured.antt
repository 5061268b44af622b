-- ===== src/Hca/Validate/Configured.antt =====
-- The headers that `DecodeHeader` accepts.
use moe_asset_updater_client.Base.{◌+◌, ◌≤◌, ◌≡◌, true, false, arith, length, leb, ◌==◌, Bytes}
use moe_asset_updater_client.Base.Outcome.{ok, ◌>>◌, guard, OnOk, OnOk->>=, OnOk-at}
use moe_asset_updater_client.Hca.Ath.{ath_init}
use moe_asset_updater_client.Hca.Cipher.{cipher_init}
use moe_asset_updater_client.Hca.State.{
  ms_stereo_unsupported, invalid_ath, invalid_cipher, data_too_small, default_random, ClHca,
}
use moe_asset_updater_client.Hca.Bitreader.{bitreader_init}
use moe_asset_updater_client.Hca.Header.{decode_base_header, decode_chunks}
use moe_asset_updater_client.Hca.Header.Ranges.{
  IsParsed, HasVersion, decode_base_header-HasVersion, decode_chunks-IsParsed,
}
use moe_asset_updater_client.Hca.Validate.{
  validate_frame_and_resolution, validate_tracks_and_bands, initialize_decoder_state, init_channels,
  validate_and_initialize, decode_header,
}

-- What the frame decoder relies on.
pub record IsConfigured (h : ClHca) : Type 0 where
  pub valid : h.is_valid ≡ true
  pub parsed : IsParsed h
  pub frame_size_ge : 8 ≤ h.frame_size
  pub frame_size_le : h.frame_size ≤ 0xFFFF
  pub resolution_order : h.min_resolution ≤ h.max_resolution
  pub resolution_le : h.max_resolution ≤ 15
  pub tracks_pos : 1 ≤ h.track_count
  pub tracks_le : h.track_count ≤ h.channels
  pub total_le : h.total_band_count ≤ 128
  pub bands_le : h.base_band_count + h.stereo_band_count ≤ 128
  pub group_le : h.bands_per_hfr_group ≤ 128
  pub no_ms_stereo : h.ms_stereo ≡ 0

-- The same but for the flag, and, before the last step, for what that step checks.
record HasSizes (h : ClHca) : Type 0 where
  parsed : IsParsed h
  frame_size_ge : 8 ≤ h.frame_size
  frame_size_le : h.frame_size ≤ 0xFFFF
  resolution_order : h.min_resolution ≤ h.max_resolution
  resolution_le : h.max_resolution ≤ 15

pub record HasBands (h : ClHca) : Type 0 where
  pub parsed : IsParsed h
  pub frame_size_ge : 8 ≤ h.frame_size
  pub frame_size_le : h.frame_size ≤ 0xFFFF
  pub resolution_order : h.min_resolution ≤ h.max_resolution
  pub resolution_le : h.max_resolution ≤ 15
  pub tracks_pos : 1 ≤ h.track_count
  pub tracks_le : h.track_count ≤ h.channels
  pub total_le : h.total_band_count ≤ 128
  pub bands_le : h.base_band_count + h.stereo_band_count ≤ 128
  pub group_le : h.bands_per_hfr_group ≤ 128

module _ (h : ClHca) where
  validate_frame_and_resolution-HasSizes :
      IsParsed h → {h' : ClHca} → validate_frame_and_resolution h ≡ ok h' → HasSizes h'
  unfolding validate_frame_and_resolution
  validate_frame_and_resolution-HasSizes p e = ground arith

  validate_tracks_and_bands-HasBands :
      HasSizes h → {h' : ClHca} → validate_tracks_and_bands h ≡ ok h' → HasBands h'
  unfolding validate_tracks_and_bands
  validate_tracks_and_bands-HasBands p e = ground arith

abbrev WillBeConfigured : ClHca → Type 0
WillBeConfigured h = IsConfigured (record h { is_valid = true })

module _ (h : ClHca) (p : HasBands h) where
  init_channels-HasBands : {h' : ClHca} → init_channels h ≡ ok h' → HasBands h'
  unfolding init_channels
  init_channels-HasBands e = ground arith

  with_tables-HasBands :
      (curve table : Bytes) → HasBands (record h { ath_curve = curve; cipher_table = table })
  with_tables-HasBands curve table = ground arith

-- The last steps: a guard on a flag that the format allows, and the seed.
last_steps :
    (h : ClHca)
    → HasBands h
    → OnOk WillBeConfigured (
        guard (h.ms_stereo == 0) ms_stereo_unsupported >> ok (record h { random = default_random }))
last_steps h p = ground arith

initialize_decoder_state-IsConfigured :
    (h : ClHca) → HasBands h → OnOk WillBeConfigured (initialize_decoder_state h)
unfolding initialize_decoder_state
initialize_decoder_state-IsConfigured h p =
    OnOk->>= _ (ath_init invalid_ath h.ath_type h.sample_rate) _ λ curve _.
      OnOk->>= _ (cipher_init invalid_cipher h.cipher_table h.ciph_type h.keycode) _ λ table _.
        OnOk->>= _ (init_channels (record h { ath_curve = curve; cipher_table = table })) _
          λ h' e. last_steps h' (init_channels-HasBands _ (with_tables-HasBands h p curve table) e)

validate_and_initialize-IsConfigured :
    (h : ClHca) → IsParsed h → OnOk WillBeConfigured (validate_and_initialize h)
unfolding validate_and_initialize
validate_and_initialize-IsConfigured h p = OnOk->>= _ (validate_frame_and_resolution h) _ λ h₁ e₁.
    OnOk->>= _ (validate_tracks_and_bands h₁) _ λ h₂ e₂.
      initialize_decoder_state-IsConfigured h₂
        (validate_tracks_and_bands-HasBands h₁ (validate_frame_and_resolution-HasSizes h p e₁) e₂)

-- Whenever `DecodeHeader` accepts a header, with any bytes and any decoder object before, the decoder
-- is valid, its version, cipher, channel count, sample rate and frame size are in range, the loop
-- points lie inside the stream, and the bands fit a subframe's 128 entries.
pub decode_header-IsConfigured :
    (h : ClHca) (bytes : Bytes) {h' : ClHca} → decode_header h bytes ≡ ok h' → IsConfigured h'
unfolding decode_header
decode_header-IsConfigured h bytes = OnOk-at IsConfigured _ (
    OnOk->>= _ (guard (leb 8 (length bytes)) data_too_small) _ λ _ _.
      OnOk->>= _
        (decode_base_header (record h { is_valid = false }) bytes
          (bitreader_init bytes (length bytes)))
        _
        λ (h₁, br₁) e₁. OnOk->>= _ (decode_chunks h₁ br₁) _ λ (h₂, br₂) e₂.
          OnOk->>= _ (validate_and_initialize h₂) _ λ h₃ e₃.
            let v : HasVersion h₁ =
              OnOk-at _ _ ((decode_base_header-HasVersion _ bytes).result _) e₁ in
            let q : IsParsed h₂ = OnOk-at _ _ ((decode_chunks-IsParsed h₁ v).result br₁) e₂ in
            OnOk-at WillBeConfigured _ (validate_and_initialize-IsConfigured h₂ q) e₃)
