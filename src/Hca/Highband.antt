-- ===== src/Hca/Highband.antt =====
-- The bands that a frame does not hold, and those that two channels share, of
-- internal/cricodecs/hca/clhcadecoder.go: `reconstructHighFrequency`, `applyIntensityStereo` and
-- `applyMsStereo`, on the spectra of one subframe. The arithmetic of floats is an argument.
pub mod Restored
use moe_asset_updater_client.Base.{
  ℕ, zero, suc, ◌+◌, ◌-◌, ◌/◌, Bool, true, false, ◌||◌, not, List, leb, ◌==◌, if◌then◌else◌, Bytes,
}
use moe_asset_updater_client.Base.Outcome.{Outcome, ok, err, panic, ◌>>=◌}
use moe_asset_updater_client.Hca.State.{HcaError, ChannelType, sub_64}
use moe_asset_updater_client.Hca.Decode.{store}
use moe_asset_updater_client.Hca.Frame.{FrameChannel, entry, scale_by, is_primary}
use moe_asset_updater_client.Hca.Unpack.{version_200, is_secondary, scales_from}

-- `highband`, `lowband` and the spectrum.
pub record Restoring (F : Type 0) : Type 0 where
  pub highband : ℕ
  pub lowband : ℕ
  pub spectra : List F

module _ {F : Type 0} (scaled : ℕ → F → F) (scale_factors : Bytes) (total_band_count : ℕ) where
  -- `for i := uint(0); i < bandsPerHfrGroup; i++`, with the rounds left. The test `lowband < 0` of the
  -- break is never true of a `uint`.
  unfoldable pub restore_bands : ℕ → ℕ → ℕ → Restoring F → Outcome HcaError (Restoring F)
  restore_bands hfr_scale lowband_sub zero st = ok st
  restore_bands hfr_scale lowband_sub (suc n) st = elim (leb total_band_count st.highband) [
    | true ↦ ok st
    | false ↦ entry scale_factors st.lowband >>= λ s. entry st.spectra st.lowband >>= λ x.
        scale_by scaled (hfr_scale + 63 - s) x >>= λ y.
        store st.spectra st.highband y >>= λ spectra.
        restore_bands hfr_scale lowband_sub n (record {
          highband = st.highband + 1;
          lowband = sub_64 st.lowband lowband_sub;
          spectra = spectra;
        })
  ]

  -- `for group := uint(0); group < hfrGroupCount; group++`, with the rounds left. The scales of the
  -- groups start at an index.
  unfoldable pub restore_groups : ℕ → ℕ → ℕ → ℕ → ℕ → Restoring F → Outcome HcaError (Restoring F)
  restore_groups first bands_per_hfr_group group_limit zero group st = ok st
  restore_groups first bands_per_hfr_group group_limit (suc n) group st =
      entry scale_factors (first + group) >>= λ hfr_scale.
      restore_bands hfr_scale (if leb group_limit group then 0 else 1) bands_per_hfr_group st
      >>= λ st'. restore_groups first bands_per_hfr_group group_limit n (group + 1) st'

-- The number of groups is below 2^63, so that it is not negative as an `int`.
abbrev pub group_limit : ℕ → ℕ → ℕ
group_limit version hfr_group_count =
    if leb version version_200 then hfr_group_count else hfr_group_count / 2

module _ {F : Type 0} (scaled : ℕ → F → F) (zero_sample : F) where
  unfoldable pub reconstruct_high_frequency :
      FrameChannel F → ℕ → ℕ → ℕ → ℕ → ℕ → ℕ → Outcome HcaError (FrameChannel F)
  reconstruct_high_frequency ch hfr_group_count bands_per_hfr_group stereo_band_count
        base_band_count total_band_count version =
      elim ((bands_per_hfr_group == 0) || is_secondary ch.channel_type) [
        | true ↦ ok ch
        | false ↦ scales_from hfr_group_count >>= λ first.
            restore_groups scaled ch.scale_factors total_band_count first bands_per_hfr_group
              (group_limit version hfr_group_count) hfr_group_count 0
              (record {
                highband = stereo_band_count + base_band_count;
                lowband = sub_64 (stereo_band_count + base_band_count) 1;
                spectra = ch.spectra;
              })
            >>= λ st. store st.spectra (sub_64 st.highband 1) zero_sample >>= λ spectra.
                ok (record ch { spectra = spectra })
      ]

-- Both channels of a pair, band by band, with the rounds left: `spL[band] = f l r`, `spR[band] = g l r`.
unfoldable pub mix_bands :
    {F : Type 0} → (F → F → F × F) → ℕ → ℕ → List F → List F → Outcome HcaError (List F × List F)
mix_bands f zero band left right = ok (left, right)
mix_bands f (suc n) band left right = entry left band >>= λ l. entry right band >>= λ r.
    store left band (f l r).0 >>= λ left'.
    store right band (f l r).1 >>= λ right'. mix_bands f n (band + 1) left' right'

module _ {F : Type 0} (times minus plus : F → F → F) where
  -- With the right channel's intensity of the subframe: the table has 16 entries. `two` is 2.0.
  unfoldable pub apply_intensity_stereo :
      (ℕ → F) → F → ChannelType → ℕ → ℕ → ℕ → List F → List F → Outcome HcaError (List F × List F)
  apply_intensity_stereo intensity_ratio two channel_type intensity base_band_count total_band_count
        left right =
      elim (is_primary channel_type) [
        | false ↦ ok (left, right)
        | true ↦ elim (leb 16 intensity) [
          | true ↦ panic
          | false ↦
              let ratio_l = intensity_ratio intensity in
              let ratio_r = minus two ratio_l in
              mix_bands (λ l r. (times l ratio_l, times l ratio_r))
                (total_band_count - base_band_count) base_band_count left right
        ]
      ]

  -- `ratio` is 0.70710676908493.
  unfoldable pub apply_ms_stereo :
      F → ChannelType → ℕ → ℕ → ℕ → List F → List F → Outcome HcaError (List F × List F)
  apply_ms_stereo ratio channel_type ms_stereo base_band_count total_band_count left right =
      elim ((ms_stereo == 0) || not (is_primary channel_type)) [
        | true ↦ ok (left, right)
        | false ↦
            mix_bands (λ l r. (times (plus l r) ratio, times (minus l r) ratio))
              (total_band_count - base_band_count) base_band_count left right
      ]
