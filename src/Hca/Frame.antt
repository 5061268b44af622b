-- ===== src/Hca/Frame.antt =====
-- The bands of a frame, of internal/cricodecs/hca/clhcadecoder.go: `calculateResolution`, which tells
-- the bands that the frame holds from those that noise replaces, and `reconstructNoise`, which fills
-- the latter. A sample is of any type; `scaled` is the product of an entry of the scale conversion
-- table and a sample. The fields of a channel are those that these functions use, with the spectrum of
-- one subframe. An index out of an array is a panic.
pub mod Sorted
pub mod Filled
use moe_asset_updater_client.Base.{
  ℕ, zero, suc, ◌+◌, ◌-◌, ◌*◌, ◌/◌, ◌%◌, ◌^◌, bit_and, Bool, true, false, ◌||◌, not, Option, none,
  some, List, [], ◌∷◌, ◌++◌, ltb, leb, ◌==◌, if◌then◌else◌, get_elem?, get_or, length, take,
  replicate, Bytes,
}
use moe_asset_updater_client.Base.Int.{ℤ, pos, negsuc, ◌+ℤ◌, ◌-ℤ◌}
use moe_asset_updater_client.Base.Outcome.{Outcome, ok, err, panic, ◌>>=◌}
use moe_asset_updater_client.Hca.State.{
  ChannelType, discrete, stereo_primary, stereo_secondary, HcaError, samples_per_subframe, sub_64,
}
use moe_asset_updater_client.Hca.Decode.{store}

pub record FrameChannel (F : Type 0) : Type 0 where
  pub channel_type : ChannelType
  pub coded_count : ℕ
  pub scale_factors : Bytes
  pub resolution : Bytes
  pub noises : Bytes
  pub noise_count : ℕ
  pub valid_count : ℕ
  -- of the subframe
  pub spectra : List F

abbrev pub found {ℓ} : {A : Type ℓ} → Option A → Outcome HcaError A
found none = panic
found (some a) = ok a

-- `xs[i]`.
abbrev pub entry {ℓ} : {A : Type ℓ} → List A → ℕ → Outcome HcaError A
entry xs i = found (get_elem? xs i)

abbrev pub invert_table : Bytes
invert_table =
    14 ∷ 14 ∷ 14 ∷ 14 ∷ 14 ∷ 14 ∷ 13 ∷ 13 ∷ 13 ∷ 13 ∷ 13 ∷ 13 ∷ 12 ∷ 12 ∷ 12 ∷ 12 ∷ 12 ∷ 12 ∷ 11
    ∷ 11 ∷ 11 ∷ 11 ∷ 11 ∷ 11 ∷ 10 ∷ 10 ∷ 10 ∷ 10 ∷ 10 ∷ 10 ∷ 10 ∷ 9 ∷ 9 ∷ 9 ∷ 9 ∷ 9 ∷ 9 ∷ 8 ∷ 8 ∷ 8
    ∷ 8 ∷ 8 ∷ 8 ∷ 7 ∷ 6 ∷ 6 ∷ 5 ∷ 4 ∷ 4 ∷ 4 ∷ 3 ∷ 3 ∷ 3 ∷ 2 ∷ 2 ∷ 2 ∷ 2 ∷ 1 ∷ 1 ∷ 1 ∷ 1 ∷ 1 ∷ 1 ∷ 1
    ∷ 1 ∷ 1 ∷ []

-- `n >> 8` of an `int`, rounded down.
abbrev shr_8 : ℤ → ℤ
shr_8 (pos n) = pos (n / 256)
shr_8 (negsuc n) = negsuc (n / 256)

-- `curvePosition`, with the ATH's value at band i and a scale factor.
unfoldable pub curve_position : ℤ → ℕ → ℕ → ℕ → ℤ
unfolding ◌+ℤ◌ ◌-ℤ◌
curve_position packed_noise_level i ath scalefactor =
    (pos ath +ℤ shr_8 (packed_noise_level +ℤ pos i)) +ℤ pos 1 -ℤ pos (5 * scalefactor / 2)

abbrev pub resolution_of : ℤ → ℕ
resolution_of (negsuc n) = 15
resolution_of (pos c) = if leb c 65 then get_or invert_table c 0 else 0

abbrev pub clamped : ℕ → ℕ → ℕ → ℕ
clamped min_resolution max_resolution r =
    if ltb (max_resolution % 256) r
    then max_resolution % 256
    else if ltb r (min_resolution % 256)
    then min_resolution % 256
    else r

-- What the loop over the bands changes.
pub record Bands : Type 0 where
  pub resolution : Bytes
  pub noises : Bytes
  pub noise_count : ℕ
  pub valid_count : ℕ

-- A band goes to the front of `noises`, or to the back.
unfoldable pub mark_band : ℕ → ℕ → Bands → Outcome HcaError Bands
mark_band i zero b = store b.noises b.noise_count (i % 256) >>= λ noises.
    ok (record b { noises = noises; noise_count = b.noise_count + 1 })
mark_band i (suc r) b =
    store b.noises (sub_64 (samples_per_subframe - 1) b.valid_count) (i % 256) >>= λ noises.
    ok (record b { noises = noises; valid_count = b.valid_count + 1 })

-- `ch.resolution[i] = newResolution`.
abbrev pub store_resolution : ℕ → ℕ → Bands → Outcome HcaError Bands
store_resolution i r b =
    store b.resolution i r >>= λ resolution. ok (record b { resolution = resolution })

module _ (packed_noise_level : ℤ) (ath_curve : Bytes) (min_resolution max_resolution : ℕ) where
  -- One band with its scale factor.
  unfoldable pub resolve_band : ℕ → ℕ → Bands → Outcome HcaError Bands
  resolve_band i zero b = store_resolution i 0 b
  resolve_band i (suc s) b = entry ath_curve i >>= λ ath.
      let r =
        clamped min_resolution max_resolution
          (resolution_of (curve_position packed_noise_level i ath (suc s))) in
      mark_band i r b >>= λ b'. store_resolution i r b'

  -- `for i := uint(0); i < crCount; i++`, with the rounds left.
  unfoldable pub resolve_bands : Bytes → ℕ → ℕ → Bands → Outcome HcaError Bands
  resolve_bands scale_factors zero i b = ok b
  resolve_bands scale_factors (suc n) i b = entry scale_factors i >>= λ s.
      resolve_band i s b >>= λ b'. resolve_bands scale_factors n (i + 1) b'

  -- The resolutions from the coded count on are zero.
  unfoldable pub calculate_resolution :
      {F : Type 0} → FrameChannel F → Outcome HcaError (FrameChannel F)
  calculate_resolution ch =
      resolve_bands ch.scale_factors ch.coded_count 0 (record {
        resolution = ch.resolution;
        noises = ch.noises;
        noise_count = 0;
        valid_count = 0;
      })
      >>= λ b. ok (record ch {
        resolution =
            take ch.coded_count b.resolution ++ replicate (samples_per_subframe - ch.coded_count) 0;
        noises = b.noises;
        noise_count = b.noise_count;
        valid_count = b.valid_count;
      })

-- `r = 0x343FD*r + 0x269EC3` on `uint`.
abbrev pub next_random : ℕ → ℕ
next_random r = (0x343FD * r + 0x269EC3) % 2 ^ 64

abbrev pub random_index : ℕ → ℕ → ℕ
random_index valid_count r =
    sub_64 samples_per_subframe valid_count + bit_and r 0x7FFF * valid_count / 2 ^ 15

abbrev pub is_primary : ChannelType → Bool
is_primary discrete = false
is_primary stereo_primary = true
is_primary stereo_secondary = false

module _ {F : Type 0} (scaled : ℕ → F → F) where
  -- The table has 128 entries; the index is not below zero.
  abbrev pub scale_by : ℕ → F → Outcome HcaError F
  scale_by index x = if ltb index 128 then ok (scaled index x) else panic

  -- `for i := uint(0); i < ch.noiseCount; i++`, with the rounds left: the spectrum and the seed.
  unfoldable pub fill_noise : FrameChannel F → ℕ → ℕ → ℕ → List F → Outcome HcaError (List F × ℕ)
  fill_noise ch zero i r spectra = ok (spectra, r)
  fill_noise ch (suc n) i r spectra =
      let r' = next_random r in
      entry ch.noises i >>= λ noise_index.
      entry ch.noises (random_index ch.valid_count r') >>= λ valid_index.
      entry ch.scale_factors noise_index >>= λ sf_noise.
      entry ch.scale_factors valid_index >>= λ sf_valid. entry spectra valid_index >>= λ x.
      scale_by (sf_noise + 62 - sf_valid) x >>= λ y.
      store spectra noise_index y >>= λ spectra'. fill_noise ch n (i + 1) r' spectra'

  unfoldable pub reconstruct_noise :
      FrameChannel F → ℕ → ℕ → ℕ → Outcome HcaError (FrameChannel F × ℕ)
  reconstruct_noise ch min_resolution ms_stereo random =
      elim (ltb 0 min_resolution
        || (ch.valid_count == 0)
        || (ch.noise_count == 0)
        || not ((ms_stereo == 0) || is_primary ch.channel_type)) [
          | true ↦ ok (ch, random)
          | false ↦ fill_noise ch ch.noise_count 0 random ch.spectra >>= λ (spectra, r).
              ok (record ch { spectra = spectra }, r)
        ]
