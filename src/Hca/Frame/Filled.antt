-- ===== src/Hca/Frame/Filled.antt =====
-- What `reconstructNoise` writes after `calculateResolution`.
use moe_asset_updater_client.Base.{
  ℕ, zero, suc, ◌+◌, ◌-◌, ◌*◌, ◌/◌, ◌^◌, ◌≤◌, ◌<◌, ◌≡◌, ◌≢◌, inl, inr, refl, sym, ap, ◌∙◌, bit_and,
  Bool, true, false, not, ◌||◌, some, List, arith, ltb, lt→ltb, ◌==◌, ==_iff, length, length-set,
  get_elem?, get_elem?-set_self, get_elem?-set_ne, set, Bytes, Bool-cases,
}
use mathlib.Core.Path.{subst}
use native.Mathlib.Nat.{mul-le-mul_right}
use moe_asset_updater_client.Base.Int.{ℤ}
use moe_asset_updater_client.Base.Bits.{bit_and_mask}
use moe_asset_updater_client.Base.Outcome.{◌>>=◌}
use moe_asset_updater_client.Hca.Frame.{
  FrameChannel, next_random, random_index, scale_by, is_primary, fill_noise, reconstruct_noise,
  calculate_resolution,
}
use moe_asset_updater_client.Hca.Frame.Sorted.{
  Yields, yields, Yields->>=, store-Yields, entry-Yields, AreSorted, bands_of, HasArrays,
  calculate_resolution-IsResolved,
}

-- A sample after the noise: as it was, or that of a band with a resolution, scaled, in one without.
pub data Filled {F : Type 0} (scaled : ℕ → F → F) (resolution : Bytes) (before after : List F)
    (band : ℕ) : Type 0 where
  kept : get_elem? after band ≡ get_elem? before band → Filled scaled resolution before after band
  noise :
      (source bits index : ℕ) (x : F)
      → get_elem? resolution band ≡ some 0
      → get_elem? resolution source ≡ some (suc bits)
      → get_elem? before source ≡ some x
      → get_elem? after band ≡ some (scaled index x)
      → Filled scaled resolution before after band

-- The random place is one of the last entries of the list.
random_index-lt : (v r : ℕ) → 0 < v → v ≤ 128 → (k : ℕ) × (k < v) × (random_index v r ≡ 127 - k)
random_index-lt v r pos le =
    let x = bit_and r 0x7FFF in
    let q = x * v / 2 ^ 15 in
    let top : x * v ≤ 32767 * v = mul-le-mul_right v (omega (arith, bit_and_mask 15 r)) in
    (v - 1 - q, omega arith, omega arith)

module _ {F : Type 0} (scaled : ℕ → F → F) (ch : FrameChannel F)
    (s : AreSorted ch.coded_count (bands_of ch)) (a : HasArrays ch)
    (some_valid : 0 < ch.valid_count) where
  record AreFilled (result : List F) : Type 0 where
    size : length result ≡ 128
    each : (band : ℕ) → Filled scaled ch.resolution ch.spectra result band

  -- A band with a resolution has its own sample still.
  tonal_kept :
      (spectra : List F) (band bits : ℕ) (x : F)
      → Filled scaled ch.resolution ch.spectra spectra band
      → get_elem? ch.resolution band ≡ some (suc bits)
      → get_elem? spectra band ≡ some x
      → get_elem? ch.spectra band ≡ some x
  tonal_kept spectra band bits x (kept e) h f = sym e ∙ f
  tonal_kept spectra band bits x (noise source more index y e _ _ _) h f = cc

  stored :
      (spectra : List F) (target source bits index : ℕ) (x : F)
      → AreFilled spectra
      → target < 128
      → get_elem? ch.resolution target ≡ some 0
      → get_elem? ch.resolution source ≡ some (suc bits)
      → get_elem? ch.spectra source ≡ some x
      → AreFilled (set spectra target (scaled index x))
  stored spectra target source bits index x f small silent tonal sample = record {
    size = length-set spectra target (scaled index x) ∙ f.size;
    each = λ band. elim (Bool-cases (target == band)) [
      | inl e ↦
          let same = (==_iff target band).0 e in
          noise source bits index x (ap (get_elem? ch.resolution) (sym same) ∙ silent) tonal sample
            (ap (get_elem? (set spectra target (scaled index x))) (sym same)
              ∙ get_elem?-set_self spectra target (scaled index x) (omega (arith, f.size)))
      | inr e ↦
          Filled-other spectra target (scaled index x) band
            (λ same. false_true (sym e ∙ (==_iff target band).1 same)) (f.each band)
    ];
  }
    where
      false_true : false ≡ true → ⊥
      false_true e = cc

      Filled-other :
          (spectra : List F) (target : ℕ) (y : F) (band : ℕ)
          → target ≢ band
          → Filled scaled ch.resolution ch.spectra spectra band
          → Filled scaled ch.resolution ch.spectra (set spectra target y) band
      Filled-other spectra target y band ne (kept e) = kept (get_elem?-set_ne spectra y ne ∙ e)
      Filled-other spectra target y band ne (noise source bits index x h t b e) =
          noise source bits index x h t b (get_elem?-set_ne spectra y ne ∙ e)

  scale_by-Yields :
      (index : ℕ) (x : F) → index < 128 → Yields (λ y. y ≡ scaled index x) (scale_by scaled index x)
  scale_by-Yields index x h = rw (lt→ltb index 128 h) (yields refl)

  fill_noise-AreFilled :
      (n i r : ℕ) (spectra : List F)
      → i + n ≡ ch.noise_count
      → AreFilled spectra
      → Yields (λ (got : List F × ℕ). AreFilled got.0) (fill_noise scaled ch n i r spectra)
  unfolding fill_noise
  fill_noise-AreFilled zero i r spectra e f = yields f
  fill_noise-AreFilled (suc n) i r spectra e f =
      let r' = next_random r in
      let place = random_index-lt ch.valid_count r' some_valid (omega (arith, s.count, a.coded)) in
      let silent = s.silent i (omega arith) in
      let tonal = s.tonal place.0 place.1 in
      let target_small : silent.band < 128 = omega (arith, silent.below, a.coded) in
      let source_small : tonal.band < 128 = omega (arith, tonal.below, a.coded) in
      rw (silent.listed, place.2, tonal.listed)
        (Yields->>= (entry-Yields ch.scale_factors silent.band (omega (arith, a.scales)))
          λ sf_noise e1.
            Yields->>= (entry-Yields ch.scale_factors tonal.band (omega (arith, a.scales)))
              λ sf_valid e2.
                Yields->>= (entry-Yields spectra tonal.band (omega (arith, f.size))) λ x e3.
                  Yields->>=
                    (scale_by-Yields (sf_noise + 62 - sf_valid) x
                      (omega (arith, a.six_bits silent.band sf_noise e1)))
                    λ y e4.
                      Yields->>= (store-Yields spectra silent.band y (omega (arith, f.size)))
                        λ spectra' e5. fill_noise-AreFilled n (i + 1) r' spectra' (omega arith) (
                          subst AreFilled (sym (e5 ∙ ap (set spectra silent.band) e4)) (
                            stored spectra silent.band tonal.band tonal.bits
                              (sf_noise + 62 - sf_valid) x f target_small silent.none_left
                              tonal.kept
                              (tonal_kept spectra tonal.band tonal.bits x (f.each tonal.band)
                                tonal.kept e3))))

-- Every sample of a channel is explained.
pub record IsFilled {F : Type 0} (scaled : ℕ → F → F) (samples : List F) (ch : FrameChannel F)
    : Type 0 where
  pub size : length ch.spectra ≡ 128
  pub each : (band : ℕ) → Filled scaled ch.resolution samples ch.spectra band

module _ {F : Type 0} (scaled : ℕ → F → F) where
  reconstruct_noise-IsFilled :
      (ch : FrameChannel F) (min_resolution ms_stereo random : ℕ)
      → AreSorted ch.coded_count (bands_of ch)
      → HasArrays ch
      → Yields
          (λ (got : FrameChannel F × ℕ). IsFilled scaled ch.spectra got.0)
          (reconstruct_noise scaled ch min_resolution ms_stereo random)
  unfolding reconstruct_noise
  reconstruct_noise-IsFilled ch min_resolution ms_stereo random s a =
      elim (Bool-cases (
        ltb 0 min_resolution
        || (ch.valid_count == 0)
        || (ch.noise_count == 0)
        || not ((ms_stereo == 0) || is_primary ch.channel_type))) [
          | inl e ↦
              rw (e, reconstruct_noise)
                (yields (record { size = a.samples; each = λ band. kept refl }))
          | inr e ↦
              rw (e, reconstruct_noise)
                (Yields->>=
                  (fill_noise-AreFilled scaled ch s a
                    (has_valid ch.valid_count (ltb 0 min_resolution) _ _ e) ch.noise_count 0 random
                    ch.spectra (omega arith)
                    (record { size = a.samples; each = λ band. kept refl }))
                  λ (spectra, r) f. yields (record { size = f.size; each = f.each }))
        ]
    where
      has_valid : (v : ℕ) (b c d : Bool) → (b || (v == 0) || c || d) ≡ false → 0 < v
      has_valid v b c d e = ground arith

-- A channel with the arrays of 128 entries, scale factors of six bits and at most 128 coded bands: the
-- resolutions are computed, the samples of a subframe are read, whatever they are, and the noise is
-- filled in. No call fails or panics. Each sample is then as it was read, or it stands in a band
-- without a resolution and is the sample that was read for a band with one, scaled by an entry of the
-- table.
pub reconstruct_noise-calculate_resolution :
    {F : Type 0} (scaled : ℕ → F → F) (packed_noise_level : ℤ) (ath_curve : Bytes)
    (min_resolution max_resolution ms_stereo random : ℕ) (ch : FrameChannel F) (samples : List F)
    → length ath_curve ≡ 128
    → length samples ≡ 128
    → HasArrays ch
    → Yields
        (λ (got : FrameChannel F × ℕ). IsFilled scaled samples got.0)
        (calculate_resolution packed_noise_level ath_curve min_resolution max_resolution ch
          >>= λ ch'.
              reconstruct_noise scaled
                (record ch' { spectra = samples })
                min_resolution
                ms_stereo
                random)
reconstruct_noise-calculate_resolution scaled packed_noise_level ath_curve min_resolution
      max_resolution ms_stereo random ch samples curve size arrays =
    Yields->>=
      (calculate_resolution-IsResolved packed_noise_level ath_curve min_resolution max_resolution ch
        curve arrays)
      λ ch' resolved.
        let b = resolved.arrays in
        reconstruct_noise-IsFilled scaled (record ch' { spectra = samples }) min_resolution
          ms_stereo random resolved.sorted
          (record {
            coded = b.coded;
            scales = b.scales;
            resolutions = b.resolutions;
            entries = b.entries;
            samples = size;
            six_bits = b.six_bits;
          })
