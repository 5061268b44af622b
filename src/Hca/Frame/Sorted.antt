-- ===== src/Hca/Frame/Sorted.antt =====
-- Where `calculateResolution` puts the bands: those without a resolution at the front of `noises`,
-- those with one at its end.
use moe_asset_updater_client.Base.{
  ℕ, zero, suc, ◌+◌, ◌-◌, ◌%◌, ◌≤◌, ◌<◌, ◌≡◌, ◌≢◌, ◌⊎◌, inl, inr, Bool-cases, ltb→lt, refl, ap, ◌∙◌,
  some, List, [], ◌∷◌, ◌++◌, arith, ltb, lt→ltb, length, length-set, length-append, length-take,
  length-replicate, get_elem?, get_elem?-set_self, get_elem?-set_ne, set, take, replicate, Bytes,
}
use mathlib.Core.Path.{subst}
use moe_asset_updater_client.Base.Int.{ℤ}
use moe_asset_updater_client.Base.Outcome.{Outcome, ok, ◌>>=◌}
use moe_asset_updater_client.Hca.State.{HcaError, sub_64}
use moe_asset_updater_client.Hca.Decode.{store}
use moe_asset_updater_client.Hca.Frame.{
  FrameChannel, entry, resolution_of, clamped, curve_position, Bands, mark_band, store_resolution,
  resolve_band, resolve_bands, calculate_resolution,
}

-- The call gives a value with a property: it neither fails nor panics.
pub data Yields {A : Type 0} (P : A → Type 0) : Outcome HcaError A → Type 0 where
  yields : {a : A} → P a → Yields P (ok a)

pub Yields->>= :
    {A B : Type 0} {P : B → Type 0} {Q : A → Type 0} {m : Outcome HcaError A}
    {f : A → Outcome HcaError B}
    → Yields Q m
    → ((a : A) → Q a → Yields P (f a))
    → Yields P (m >>= f)
Yields->>= (yields q) k = k _ q

pub store-Yields :
    {A : Type 0} (xs : List A) (i : ℕ) (v : A)
    → i < length xs
    → Yields (λ ys. ys ≡ set xs i v) (store xs i v)
unfolding store
store-Yields xs i v h = rw (lt→ltb i (length xs) h) (yields refl)

store-ok :
    {A : Type 0} (xs : List A) (i : ℕ) (v : A) → i < length xs → store xs i v ≡ ok (set xs i v)
unfolding store
store-ok xs i v h = rw (lt→ltb i (length xs) h) refl

pub get_elem?-in :
    {A : Type 0} (xs : List A) (i : ℕ) → i < length xs → (x : A) × (get_elem? xs i ≡ some x)
get_elem?-in [] i h = absurd (omega arith)
get_elem?-in (x ∷ xs) zero h = (x, refl)
get_elem?-in (x ∷ xs) (suc i) h = get_elem?-in xs i (omega arith)

pub entry-Yields :
    {A : Type 0} (xs : List A) (i : ℕ)
    → i < length xs
    → Yields (λ x. get_elem? xs i ≡ some x) (entry xs i)
entry-Yields xs i h = let there = get_elem?-in xs i h in rw (entry, there.1) (yields refl)

-- The k-th entry is a band below i that has no resolution, or has one.
pub record IsSilent (noises resolution : Bytes) (i k : ℕ) : Type 0 where
  pub band : ℕ
  pub listed : get_elem? noises k ≡ some band
  pub below : band < i
  pub none_left : get_elem? resolution band ≡ some 0

pub record IsTonal (noises resolution : Bytes) (i k : ℕ) : Type 0 where
  pub band : ℕ
  pub bits : ℕ
  pub listed : get_elem? noises k ≡ some band
  pub below : band < i
  pub kept : get_elem? resolution band ≡ some (suc bits)

-- The bands below i have been sorted.
pub record AreSorted (i : ℕ) (b : Bands) : Type 0 where
  pub resolutions : length b.resolution ≡ 128
  pub entries : length b.noises ≡ 128
  pub count : b.noise_count + b.valid_count ≤ i
  pub silent : (k : ℕ) → k < b.noise_count → IsSilent b.noises b.resolution i k
  pub tonal : (k : ℕ) → k < b.valid_count → IsTonal b.noises b.resolution i (127 - k)

-- A band's resolution is stored; those of the bands before it stay.
IsSilent-store :
    {noises resolution : Bytes} {i k : ℕ} (v : ℕ)
    → IsSilent noises resolution i k
    → IsSilent noises (set resolution i v) (suc i) k
IsSilent-store {resolution = resolution} {i = i} v s = record {
  band = s.band;
  listed = s.listed;
  below = omega (arith, s.below);
  none_left = get_elem?-set_ne resolution v (omega (arith, s.below)) ∙ s.none_left;
}

IsTonal-store :
    {noises resolution : Bytes} {i k : ℕ} (v : ℕ)
    → IsTonal noises resolution i k
    → IsTonal noises (set resolution i v) (suc i) k
IsTonal-store {resolution = resolution} {i = i} v s = record {
  band = s.band;
  bits = s.bits;
  listed = s.listed;
  below = omega (arith, s.below);
  kept = get_elem?-set_ne resolution v (omega (arith, s.below)) ∙ s.kept;
}

-- Another place of the list is written.
IsSilent-other :
    {noises resolution : Bytes} {i k : ℕ} (j v : ℕ)
    → j ≢ k
    → IsSilent noises resolution i k
    → IsSilent (set noises j v) resolution i k
IsSilent-other {noises = noises} j v ne s = record {
  band = s.band;
  listed = get_elem?-set_ne noises v ne ∙ s.listed;
  below = s.below;
  none_left = s.none_left;
}

IsTonal-other :
    {noises resolution : Bytes} {i k : ℕ} (j v : ℕ)
    → j ≢ k
    → IsTonal noises resolution i k
    → IsTonal (set noises j v) resolution i k
IsTonal-other {noises = noises} j v ne s = record {
  band = s.band;
  bits = s.bits;
  listed = get_elem?-set_ne noises v ne ∙ s.listed;
  below = s.below;
  kept = s.kept;
}

below_or_last : (k n : ℕ) → k < n + 1 → (k < n) ⊎ (k ≡ n)
below_or_last k n h = elim (Bool-cases (ltb k n)) [
  | inl e ↦ inl (ltb→lt k n e)
  | inr e ↦ inr (ground arith)
]

module _ (i : ℕ) (b : Bands) (small : i < 128) (s : AreSorted i b) where
  silent_band : AreSorted (suc i) (record b { resolution = set b.resolution i 0 })
  silent_band = record {
    resolutions = length-set b.resolution i 0 ∙ s.resolutions;
    entries = s.entries;
    count = omega (arith, s.count);
    silent = λ k h. IsSilent-store 0 (s.silent k h);
    tonal = λ k h. IsTonal-store 0 (s.tonal k h);
  }

  noisy_band : AreSorted (suc i) (record {
    resolution = set b.resolution i 0;
    noises = set b.noises b.noise_count i;
    noise_count = b.noise_count + 1;
    valid_count = b.valid_count;
  })
  noisy_band = record {
    resolutions = length-set b.resolution i 0 ∙ s.resolutions;
    entries = length-set b.noises b.noise_count i ∙ s.entries;
    count = omega (arith, s.count);
    silent = λ k h. elim (below_or_last k b.noise_count h) [
      | inl before ↦
          IsSilent-other b.noise_count i (omega arith) (IsSilent-store 0 (s.silent k before))
      | inr last ↦ record {
        band = i;
        listed =
            ap (get_elem? (set b.noises b.noise_count i)) last
            ∙ get_elem?-set_self b.noises b.noise_count i (omega (arith, s.count, s.entries));
        below = omega arith;
        none_left = get_elem?-set_self b.resolution i 0 (omega (arith, s.resolutions));
      }
    ];
    tonal = λ k h.
        IsTonal-other b.noise_count i (omega (arith, s.count)) (IsTonal-store 0 (s.tonal k h));
  }

  tonal_band :
      (r : ℕ)
      → AreSorted (suc i) (record {
        resolution = set b.resolution i (suc r);
        noises = set b.noises (127 - b.valid_count) i;
        noise_count = b.noise_count;
        valid_count = b.valid_count + 1;
      })
  tonal_band r = record {
    resolutions = length-set b.resolution i (suc r) ∙ s.resolutions;
    entries = length-set b.noises (127 - b.valid_count) i ∙ s.entries;
    count = omega (arith, s.count);
    silent = λ k h.
        IsSilent-other (127 - b.valid_count) i (omega (arith, s.count))
          (IsSilent-store (suc r) (s.silent k h));
    tonal = λ k h. elim (below_or_last k b.valid_count h) [
      | inl before ↦
          IsTonal-other (127 - b.valid_count) i (omega (arith, s.count))
            (IsTonal-store (suc r) (s.tonal k before))
      | inr last ↦ record {
        band = i;
        bits = r;
        listed =
            ap (λ j. get_elem? (set b.noises (127 - b.valid_count) i) (127 - j)) last
            ∙ get_elem?-set_self b.noises (127 - b.valid_count) i (omega (arith, s.entries));
        below = omega arith;
        kept = get_elem?-set_self b.resolution i (suc r) (omega (arith, s.resolutions));
      }
    ];
  }

  last_place : sub_64 127 b.valid_count ≡ 127 - b.valid_count
  last_place = omega (arith, s.count)

  whole_byte : i % 256 ≡ i
  whole_byte = omega arith

  -- The code's writes.
  mark_band-AreSorted :
      (r : ℕ) → Yields (AreSorted (suc i)) (mark_band i r b >>= λ b'. store_resolution i r b')
  unfolding mark_band
  mark_band-AreSorted zero =
      rw
        (
          whole_byte,
          store-ok b.noises b.noise_count i (omega (arith, s.count, s.entries)),
          store-ok b.resolution i 0 (omega (arith, s.resolutions)),
        )
        (yields noisy_band)
  mark_band-AreSorted (suc r) =
      rw
        (
          whole_byte,
          last_place,
          store-ok b.noises (127 - b.valid_count) i (omega (arith, s.entries)),
          store-ok b.resolution i (suc r) (omega (arith, s.resolutions)),
        )
        (yields (tonal_band r))

module _ (packed_noise_level : ℤ) (ath_curve : Bytes) (min_resolution max_resolution : ℕ) where
  resolve_band-AreSorted :
      (i s : ℕ) (b : Bands)
      → i < 128
      → i < length ath_curve
      → AreSorted i b
      → Yields
          (AreSorted (suc i))
          (resolve_band packed_noise_level ath_curve min_resolution max_resolution i s b)
  unfolding resolve_band
  resolve_band-AreSorted i zero b small curve sorted =
      rw (store-ok b.resolution i 0 (omega (arith, sorted.resolutions)))
        (yields (silent_band i b small sorted))
  resolve_band-AreSorted i (suc s) b small curve sorted =
      Yields->>= (entry-Yields ath_curve i curve) λ ath _. mark_band-AreSorted i b small sorted (
        clamped min_resolution max_resolution
          (resolution_of (curve_position packed_noise_level i ath (suc s))))

  resolve_bands-AreSorted :
      (scale_factors : Bytes) (n i : ℕ) (b : Bands)
      → i + n ≤ 128
      → i + n ≤ length ath_curve
      → i + n ≤ length scale_factors
      → AreSorted i b
      → Yields (AreSorted (i + n)) (
          resolve_bands packed_noise_level ath_curve min_resolution max_resolution scale_factors n i
            b)
  unfolding resolve_bands
  resolve_bands-AreSorted scale_factors zero i b small curve scales sorted =
      yields (subst (λ k. AreSorted k b) (omega arith) sorted)
  resolve_bands-AreSorted scale_factors (suc n) i b small curve scales sorted =
      Yields->>= (entry-Yields scale_factors i (omega arith)) λ s _.
        Yields->>= (resolve_band-AreSorted i s b (omega arith) (omega arith) sorted) λ b' sorted'.
          subst
            (λ k. Yields (AreSorted k) (
              resolve_bands packed_noise_level ath_curve min_resolution max_resolution scale_factors
                n (i + 1) b'))
            (omega arith)
            (resolve_bands-AreSorted scale_factors n (i + 1) b' (omega arith) (omega arith)
              (omega arith) (subst (λ k. AreSorted k b') (omega arith) sorted'))

get_elem?-take :
    (n : ℕ) (xs ys : Bytes) (j : ℕ)
    → j < n
    → n ≤ length xs
    → get_elem? (take n xs ++ ys) j ≡ get_elem? xs j
get_elem?-take zero xs ys j h e = absurd (omega arith)
get_elem?-take (suc n) [] ys j h e = absurd (omega arith)
get_elem?-take (suc n) (x ∷ xs) ys zero h e = refl
get_elem?-take (suc n) (x ∷ xs) ys (suc j) h e =
    get_elem?-take n xs ys j (omega arith) (omega arith)

abbrev pub bands_of : {F : Type 0} → FrameChannel F → Bands
bands_of ch = record {
  resolution = ch.resolution;
  noises = ch.noises;
  noise_count = ch.noise_count;
  valid_count = ch.valid_count;
}

-- The arrays of a channel.
pub record HasArrays {F : Type 0} (ch : FrameChannel F) : Type 0 where
  pub coded : ch.coded_count ≤ 128
  pub scales : length ch.scale_factors ≡ 128
  pub resolutions : length ch.resolution ≡ 128
  pub entries : length ch.noises ≡ 128
  pub samples : length ch.spectra ≡ 128
  pub six_bits : (j s : ℕ) → get_elem? ch.scale_factors j ≡ some s → s < 64

-- The resolutions past the coded count are cleared.
cleared-AreSorted :
    (n : ℕ) (b : Bands)
    → n ≤ 128
    → AreSorted n b
    → AreSorted n (record b { resolution = take n b.resolution ++ replicate (128 - n) 0 })
cleared-AreSorted n b small s = record {
  resolutions = omega (
    arith,
    s.resolutions,
    length-append (take n b.resolution) (replicate (128 - n) 0),
    length-take n b.resolution,
    length-replicate {A = ℕ} (128 - n) 0,
  );
  entries = s.entries;
  count = s.count;
  silent = λ k h.
      let t = s.silent k h in
      record {
        band = t.band;
        listed = t.listed;
        below = t.below;
        none_left =
            get_elem?-take n b.resolution (replicate (128 - n) 0) t.band t.below
              (omega (arith, s.resolutions))
            ∙ t.none_left;
      };
  tonal = λ k h.
      let t = s.tonal k h in
      record {
        band = t.band;
        bits = t.bits;
        listed = t.listed;
        below = t.below;
        kept =
            get_elem?-take n b.resolution (replicate (128 - n) 0) t.band t.below
              (omega (arith, s.resolutions))
            ∙ t.kept;
      };
}

-- What calculateResolution leaves of a channel.
pub record IsResolved {F : Type 0} (before after : FrameChannel F) : Type 0 where
  pub sorted : AreSorted after.coded_count (bands_of after)
  pub arrays : HasArrays after
  pub spectra : after.spectra ≡ before.spectra

module _ (packed_noise_level : ℤ) (ath_curve : Bytes) (min_resolution max_resolution : ℕ) where
  pub calculate_resolution-IsResolved :
      {F : Type 0} (ch : FrameChannel F)
      → length ath_curve ≡ 128
      → HasArrays ch
      → Yields
          (IsResolved ch)
          (calculate_resolution packed_noise_level ath_curve min_resolution max_resolution ch)
  unfolding calculate_resolution
  calculate_resolution-IsResolved ch curve arrays =
      let start : AreSorted 0 (record {
        resolution = ch.resolution;
        noises = ch.noises;
        noise_count = 0;
        valid_count = 0;
      }) =
        record {
          resolutions = arrays.resolutions;
          entries = arrays.entries;
          count = omega arith;
          silent = λ k h. absurd (omega arith);
          tonal = λ k h. absurd (omega arith);
        } in
      Yields->>=
        (resolve_bands-AreSorted packed_noise_level ath_curve min_resolution max_resolution
          ch.scale_factors ch.coded_count 0 _ (omega (arith, arrays.coded))
          (omega (arith, curve, arrays.coded)) (omega (arith, arrays.scales, arrays.coded)) start)
        λ b sorted.
          let s =
            cleared-AreSorted ch.coded_count b arrays.coded
              (subst (λ n. AreSorted n b) (omega arith) sorted) in
          yields (record {
            sorted = s;
            arrays = record {
              coded = arrays.coded;
              scales = arrays.scales;
              resolutions = s.resolutions;
              entries = s.entries;
              samples = arrays.samples;
              six_bits = arrays.six_bits;
            };
            spectra = refl;
          })
