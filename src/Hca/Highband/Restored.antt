-- ===== src/Hca/Highband/Restored.antt =====
-- That the high bands are restored from bands that are there.
use moe_asset_updater_client.Base.{
  ℕ, zero, suc, ◌+◌, ◌-◌, ◌%◌, ◌^◌, ◌≤◌, ◌<◌, ◌≡◌, ◌≢◌, ◌⊎◌, inl, inr, refl, ◌∙◌, Bool, true, false,
  ◌||◌, some, List, arith, leb, leb→le, lt→ltb, le→leb, ◌==◌, if◌then◌else◌, length, length-set,
  get_elem?, get_elem?-set_ne, set, Bytes, Bool-cases,
}
use moe_asset_updater_client.Hca.State.{sub_64}
use moe_asset_updater_client.Hca.Frame.{FrameChannel, scale_by}
use moe_asset_updater_client.Hca.Frame.Sorted.{
  Yields, yields, Yields->>=, store-Yields, entry-Yields, HasArrays,
}
use moe_asset_updater_client.Hca.Highband.{
  Restoring, restore_bands, restore_groups, group_limit, reconstruct_high_frequency,
}
use moe_asset_updater_client.Hca.Unpack.{is_secondary}

-- The next band to restore is above the first one, and while there is one to restore, the band that it
-- is restored from is below that.
pub record IsRestoring {F : Type 0} (start total : ℕ) (before : List F) (st : Restoring F)
    : Type 0 where
  pub size : length st.spectra ≡ 128
  pub from : start ≤ st.highband
  pub within : st.highband ≤ 128
  pub upto : (st.highband ≤ start) ⊎ (st.highband ≤ total)
  pub source :
      (total ≤ st.highband)
      ⊎ ((st.lowband < start) × (start ≤ st.lowband + 1 + (st.highband - start)))
  pub low : (band : ℕ) → band < start → get_elem? st.spectra band ≡ get_elem? before band
  pub high :
      (band : ℕ) → total ≤ band → start ≤ band → get_elem? st.spectra band ≡ get_elem? before band

not_leb : (a b : ℕ) → leb a b ≡ false → b < a
not_leb a b e = ground arith

mod_small : (sub : ℕ) → sub ≤ 1 → sub % 2 ^ 64 ≡ sub
mod_small sub h = omega arith

scale_by-index :
    {F : Type 0} (scaled : ℕ → F → F) (index : ℕ) (x : F)
    → index < 128
    → Yields (λ y. y ≡ scaled index x) (scale_by scaled index x)
scale_by-index scaled index x h = rw (lt→ltb index 128 h) (yields refl)

module _ {F : Type 0} (scaled : ℕ → F → F) (scale_factors : Bytes) (start total : ℕ)
    (before : List F) (some_low : 0 < start) (fits : total ≤ 128) (enough : total ≤ start + start)
    (scales : length scale_factors ≡ 128)
    (six_bits : (j s : ℕ) → get_elem? scale_factors j ≡ some s → s < 64) where
  restored :
      (st : Restoring F) (y : F) (sub : ℕ)
      → sub ≤ 1
      → st.highband < total
      → st.lowband < start
      → start ≤ st.lowband + 1 + (st.highband - start)
      → IsRestoring start total before st
      → IsRestoring start total before (record {
        highband = st.highband + 1;
        lowband = sub_64 st.lowband sub;
        spectra = set st.spectra st.highband y;
      })
  restored st y sub le more below reach s = record {
    size = length-set st.spectra st.highband y ∙ s.size;
    from = omega (arith, s.from);
    within = omega arith;
    upto = inr (omega arith);
    source = next_source (Bool-cases (leb total (st.highband + 1)));
    low = λ band h. get_elem?-set_ne st.spectra y (omega (arith, s.from)) ∙ s.low band h;
    high = λ band h k. get_elem?-set_ne st.spectra y (omega arith) ∙ s.high band h k;
  }
    where
      next_source :
          (leb total (st.highband + 1) ≡ true) ⊎ (leb total (st.highband + 1) ≡ false)
          → (total ≤ st.highband + 1)
            ⊎ ((sub_64 st.lowband sub < start)
                × (start ≤ sub_64 st.lowband sub + 1 + (st.highband + 1 - start)))
      next_source (inl e) = inl (leb→le total (st.highband + 1) e)
      next_source (inr e) =
          let more' : st.highband + 1 < total = not_leb total (st.highband + 1) e in
          let there : sub ≤ st.lowband = omega (arith, s.from) in
          let small : st.lowband < 128 = omega (arith, s.from, s.within) in
          let down : sub_64 st.lowband sub ≡ st.lowband - sub = omega (arith, mod_small sub le) in
          inr (omega arith, omega (arith, s.from))

  -- One group, and all groups.
  restore_bands-IsRestoring :
      (hfr_scale sub n : ℕ) (st : Restoring F)
      → hfr_scale < 64
      → sub ≤ 1
      → IsRestoring start total before st
      → Yields
          (IsRestoring start total before)
          (restore_bands scaled scale_factors total hfr_scale sub n st)
  unfolding restore_bands
  restore_bands-IsRestoring hfr_scale sub zero st six le s = yields s
  restore_bands-IsRestoring hfr_scale sub (suc n) st six le s =
      elim (Bool-cases (leb total st.highband)) [
        | inl e ↦ rw (e, restore_bands) (yields s)
        | inr e ↦
            rw (e, restore_bands)
              (let more = not_leb total st.highband e in
                let source = in_reach s.source more in
                Yields->>=
                  (entry-Yields scale_factors st.lowband
                    (omega (arith, source.0, s.from, s.within)))
                  λ sf e1.
                    Yields->>=
                      (entry-Yields st.spectra st.lowband
                        (omega (arith, source.0, s.from, s.within, s.size)))
                      λ x e2.
                        Yields->>= (scale_by-index scaled (hfr_scale + 63 - sf) x (omega arith))
                          λ y _.
                            Yields->>=
                              (store-Yields st.spectra st.highband y (omega (arith, s.size)))
                              λ spectra e3. rw e3 (
                                restore_bands-IsRestoring hfr_scale sub n _ six le
                                  (restored st y sub le more source.0 source.1 s)))
      ]
    where
      in_reach :
          {high low : ℕ}
          → (total ≤ high) ⊎ ((low < start) × (start ≤ low + 1 + (high - start)))
          → high < total
          → (low < start) × (start ≤ low + 1 + (high - start))
      in_reach (inl h) more = absurd (omega arith)
      in_reach (inr h) more = h

  at_most_one : (b : Bool) → (if b then 0 else 1) ≤ 1
  at_most_one true = omega arith
  at_most_one false = omega arith

  restore_groups-IsRestoring :
      (first bands limit n group : ℕ) (st : Restoring F)
      → first + group + n ≤ 128
      → IsRestoring start total before st
      → Yields
          (IsRestoring start total before)
          (restore_groups scaled scale_factors total first bands limit n group st)
  unfolding restore_groups
  restore_groups-IsRestoring first bands limit zero group st small s = yields s
  restore_groups-IsRestoring first bands limit (suc n) group st small s =
      Yields->>= (entry-Yields scale_factors (first + group) (omega arith)) λ hfr_scale e.
        Yields->>=
          (restore_bands-IsRestoring hfr_scale _ bands st (six_bits (first + group) hfr_scale e)
            (at_most_one (leb limit group)) s)
          λ st' s'. restore_groups-IsRestoring first bands limit n (group + 1) st' (omega arith) s'

apart :
    {start total highband band : ℕ}
    → (highband ≤ start) ⊎ (highband ≤ total)
    → total ≤ band
    → start ≤ band
    → 0 < highband
    → highband - 1 ≢ band
apart (inl e) h k p = omega arith
apart (inr e) h k p = omega arith

-- What the reconstruction keeps: all bands below the one before the first restored, and all from the
-- total on.
pub record IsRestored {F : Type 0} (start total : ℕ) (before after : List F) : Type 0 where
  pub size : length after ≡ 128
  pub low : (band : ℕ) → band + 1 < start → get_elem? after band ≡ get_elem? before band
  pub high : (band : ℕ) → total ≤ band → start ≤ band → get_elem? after band ≡ get_elem? before band

-- A channel with the arrays of 128 entries and scale factors of six bits, whose bands end at 128, with at
-- most 128 groups and with a held band for each band to restore: the call neither fails nor panics, and
-- it keeps the samples below the last held band and those from the total count of bands on.
pub reconstruct_high_frequency-IsRestored :
    {F : Type 0} (scaled : ℕ → F → F) (zero_sample : F) (ch : FrameChannel F)
    (groups bands stereo base total version : ℕ)
    → HasArrays ch
    → groups ≤ 128
    → 0 < stereo + base
    → stereo + base ≤ 128
    → total ≤ 128
    → total ≤ (stereo + base) + (stereo + base)
    → Yields
        (λ (after : FrameChannel F). IsRestored (stereo + base) total ch.spectra after.spectra)
        (reconstruct_high_frequency scaled zero_sample ch groups bands stereo base total version)
unfolding reconstruct_high_frequency
reconstruct_high_frequency-IsRestored scaled zero_sample ch groups bands stereo base total version a
      few some_low start_le total_le enough =
    let start = stereo + base in
    elim (Bool-cases ((bands == 0) || is_secondary ch.channel_type)) [
      | inl e ↦
          rw (e, reconstruct_high_frequency)
            (yields (record { size = a.samples; low = λ band h. refl; high = λ band h k. refl }))
      | inr e ↦
          rw (e, reconstruct_high_frequency, le→leb groups 128 few)
            (Yields->>=
              (restore_groups-IsRestoring scaled ch.scale_factors start total ch.spectra some_low
                total_le enough a.scales a.six_bits (128 - groups) bands
                (group_limit version groups) groups 0 _ (omega arith)
                (record {
                  size = a.samples;
                  from = omega arith;
                  within = start_le;
                  upto = inl (omega arith);
                  source = inr (omega arith, omega arith);
                  low = λ band h. refl;
                  high = λ band h k. refl;
                }))
              λ st s.
                let last : sub_64 st.highband 1 ≡ st.highband - 1 =
                  omega (arith, s.from, s.within) in
                Yields->>=
                  (store-Yields st.spectra (sub_64 st.highband 1) zero_sample
                    (omega (arith, s.size, s.from, s.within)))
                  λ spectra e3. yields (
                    rw (e3, last)
                      (record {
                        size = length-set st.spectra (st.highband - 1) zero_sample ∙ s.size;
                        low = λ band h.
                            get_elem?-set_ne st.spectra zero_sample (omega (arith, s.from))
                            ∙ s.low band (omega arith);
                        high = λ band h k.
                            get_elem?-set_ne st.spectra zero_sample
                              (apart s.upto h k (omega (arith, s.from)))
                            ∙ s.high band h k;
                      })))
    ]
