-- ===== src/Tests/Frame.antt =====
-- The bands of a frame on a concrete channel.
use moe_asset_updater_client.Base.{
  ℕ, zero, suc, ◌+◌, ◌*◌, ◌<◌, ◌≡◌, refl, arith, some, List, [], ◌∷◌, get_elem?, replicate, Bytes,
  All,
}
use moe_asset_updater_client.Base.Int.{pos}
use moe_asset_updater_client.Base.Outcome.{ok, panic, ◌>>=◌}
use moe_asset_updater_client.Hca.State.{discrete}
use moe_asset_updater_client.Hca.Frame.{
  FrameChannel, curve_position, mark_band, resolve_band, resolve_bands, fill_noise,
  calculate_resolution, reconstruct_noise,
}
use moe_asset_updater_client.Hca.Decode.{store}
use moe_asset_updater_client.Hca.Highband.{
  reconstruct_high_frequency, restore_groups, restore_bands,
}
use moe_asset_updater_client.Hca.Highband.Restored.{
  IsRestored, reconstruct_high_frequency-IsRestored,
}
use moe_asset_updater_client.Hca.Frame.Sorted.{Yields, HasArrays}
use moe_asset_updater_client.Hca.Frame.Filled.{IsFilled, reconstruct_noise-calculate_resolution}

-- Two bands with a scale factor and one without are coded; the second is too quiet to have a resolution.
abbrev scales : Bytes
scales = 63 ∷ 1 ∷ 0 ∷ replicate 125 0

abbrev three_bands : FrameChannel ℕ
three_bands = record {
  channel_type = discrete;
  coded_count = 3;
  scale_factors = scales;
  resolution = replicate 128 0;
  noises = replicate 128 0;
  noise_count = 0;
  valid_count = 0;
  spectra = replicate 128 0;
}

abbrev curve : Bytes
curve = replicate 128 100

abbrev samples : List ℕ
samples = 7 ∷ 0 ∷ 0 ∷ replicate 125 0

six_bits_of : (xs : Bytes) → All (λ s. s < 64) xs → (j s : ℕ) → get_elem? xs j ≡ some s → s < 64
six_bits_of [] h j s e = cc
six_bits_of (x ∷ xs) h zero s e = ground arith
six_bits_of (x ∷ xs) h (suc j) s e = six_bits_of xs h.1 j s e

All-replicate : (n : ℕ) → All (λ s. s < 64) (replicate n 0)
All-replicate zero = tt
All-replicate (suc n) = (omega arith, All-replicate n)

three_bands-HasArrays : HasArrays three_bands
three_bands-HasArrays = record {
  coded = omega arith;
  scales = refl;
  resolutions = refl;
  entries = refl;
  samples = refl;
  six_bits = six_bits_of scales (omega arith, (omega arith, (omega arith, All-replicate 125)));
}

reconstruct_noise-calculate_resolution_example :
    Yields
      (λ (got : FrameChannel ℕ × ℕ). IsFilled (λ index x. index * 1000 + x) samples got.0)
      (calculate_resolution (pos 0) curve 0 15 three_bands >>= λ ch'.
        reconstruct_noise (λ index x. index * 1000 + x) (record ch' { spectra = samples }) 0 0 1)
reconstruct_noise-calculate_resolution_example =
    reconstruct_noise-calculate_resolution (λ index x. index * 1000 + x) (pos 0) curve 0 15 0 1
      three_bands samples refl refl three_bands-HasArrays

-- The quiet band takes the sample 7 of the loud one, scaled by the entry 0.
three_bands-filled :
    (calculate_resolution (pos 0) curve 0 15 three_bands >>= λ ch'.
    reconstruct_noise (λ index x. index * 1000 + x) (record ch' { spectra = samples }) 0 0 1
    >>= λ (ch, r). ok ch.spectra)
    ≡ ok (7 ∷ 7 ∷ 0 ∷ replicate 125 0)
unfolding calculate_resolution resolve_bands resolve_band mark_band curve_position reconstruct_noise
    fill_noise store
three_bands-filled = refl

-- Two bands are held, and two more restored from them.
abbrev two_held : FrameChannel ℕ
two_held = record three_bands { spectra = 7 ∷ 8 ∷ replicate 126 9 }

reconstruct_high_frequency-IsRestored_example :
    Yields
      (λ (after : FrameChannel ℕ). IsRestored 2 4 (7 ∷ 8 ∷ replicate 126 9) after.spectra)
      (reconstruct_high_frequency (λ index x. index * 1000 + x) 0 two_held 1 2 0 2 4 0x0200)
reconstruct_high_frequency-IsRestored_example =
    reconstruct_high_frequency-IsRestored (λ index x. index * 1000 + x) 0 two_held 1 2 0 2 4 0x0200
      (record {
        coded = omega arith;
        scales = refl;
        resolutions = refl;
        entries = refl;
        samples = refl;
        six_bits = three_bands-HasArrays.six_bits;
      })
      (omega arith) (omega arith) (omega arith) (omega arith) (omega arith)

-- The first from the second with the entry 0 + 63 - 1; the last is cleared.
two_held-restored :
    (reconstruct_high_frequency (λ index x. index * 1000 + x) 0 two_held 1 2 0 2 4 0x0200 >>= λ ch.
    ok ch.spectra)
    ≡ ok (7 ∷ 8 ∷ 62008 ∷ 0 ∷ replicate 124 9)
unfolding reconstruct_high_frequency restore_groups restore_bands store
two_held-restored = refl

-- One band is held, and three are to be restored from it: the index below the first band wraps around.
one_held-panics :
    reconstruct_high_frequency (λ index x. index * 1000 + x) 0 two_held 1 3 0 1 4 0x0200 ≡ panic
unfolding reconstruct_high_frequency restore_groups restore_bands store
one_held-panics = refl
