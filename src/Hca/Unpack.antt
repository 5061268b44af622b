-- ===== src/Hca/Unpack.antt =====
-- The bits of a frame, of internal/cricodecs/hca/clhcadecoder.go: `unpackScaleFactors`,
-- `unpackIntensity`, and what `TestBlock` says of a frame before and after it is decoded.
use moe_asset_updater_client.Base.{
  ℕ, zero, suc, ◌+◌, ◌-◌, ◌*◌, ◌/◌, ◌%◌, ◌^◌, Bool, true, false, ◌&&◌, ◌||◌, not, [], ◌∷◌, ltb, leb,
  ◌==◌, if◌then◌else◌, length, drop, take, replicate, Bytes,
}
use moe_asset_updater_client.Base.Int.{ℤ, pos, negsuc}
use moe_asset_updater_client.Base.Outcome.{Outcome, ok, panic}
use moe_asset_updater_client.Base.Outcome
use moe_asset_updater_client.Hca.Bitreader.{bitreader_peek}
use moe_asset_updater_client.Hca.State.{
  ChannelType, discrete, stereo_primary, stereo_secondary, HcaError, samples_per_subframe,
  subframes, sub_64, invalid_coded_count, invalid_scalefactor,
}
use moe_asset_updater_client.Hca.Decode.{
  Decode, pure, ◌>>=◌, ◌>>◌, require, lift, read, skip, choose, store,
}
use moe_asset_updater_client.Hca.Frame.{FrameChannel, entry}

abbrev pub version_200 : ℕ
version_200 = 0x0200

abbrev pub is_secondary : ChannelType → Bool
is_secondary discrete = false
is_secondary stereo_primary = false
is_secondary stereo_secondary = true

unfoldable pub peek : ℕ → Decode ℕ
peek n br = Outcome.◌>>=◌ (bitreader_peek br n) λ v. ok (v, br)

-- `xs[i] = byte(bitreaderRead(br, bits))` for the indices from i on, with the rounds left.
unfoldable pub read_values : ℕ → ℕ → ℕ → Bytes → Decode Bytes
read_values bits zero i xs = pure xs
read_values bits (suc n) i xs =
    read bits >>= λ v. lift (store xs i (v % 256)) >>= λ xs'. read_values bits n (i + 1) xs'

-- The loop over deltas, with `expectedDelta` and the value so far.
abbrev pub next_scale : ℕ → ℕ → ℕ → Decode ℕ
next_scale expected_delta value delta =
    choose (delta == expected_delta) (read 6 >>= λ v. pure (v % 256)) (
      require
        (leb (expected_delta / 2) (value + delta) && ltb (value + delta) (64 + expected_delta / 2))
        invalid_scalefactor
      >> pure ((value + 256 - expected_delta / 2 + delta) % 256 % 64))

unfoldable pub read_deltas : ℕ → ℕ → ℕ → ℕ → ℕ → Bytes → Decode Bytes
read_deltas delta_bits expected_delta value zero i xs = pure xs
read_deltas delta_bits expected_delta value (suc n) i xs = read delta_bits >>= λ d.
    next_scale expected_delta value (d % 256) >>= λ v.
    lift (store xs i v) >>= λ xs'. read_deltas delta_bits expected_delta v n (i + 1) xs'

-- `ch.scaleFactors[127-i] = ch.scaleFactors[csCount-i]` for the indices from i on.
unfoldable pub derive_scales : ℕ → ℕ → ℕ → Bytes → Outcome HcaError Bytes
derive_scales cs_count zero i xs = ok xs
derive_scales cs_count (suc n) i xs = Outcome.◌>>=◌ (entry xs (sub_64 cs_count i)) λ s.
    Outcome.◌>>=◌ (store xs (sub_64 (samples_per_subframe - 1) i) s)
      λ xs'. derive_scales cs_count n (i + 1) xs'

unfoldable pub extra_count : ChannelType → ℕ → ℕ → ℕ
extra_count channel_type hfr_group_count version =
    if is_secondary channel_type || (hfr_group_count == 0) || leb version version_200
    then 0
    else hfr_group_count

unfoldable pub read_scales : ℕ → ℕ → Bytes → Decode Bytes
read_scales delta_bits cs_count xs = choose (leb 6 delta_bits) (read_values 6 cs_count 0 xs) (
    choose (ltb 0 delta_bits)
      (read 6 >>= λ v. lift (store xs 0 (v % 256)) >>= λ xs'.
        read_deltas delta_bits ((2 ^ delta_bits - 1) % 256) (v % 256) (cs_count - 1) 1 xs')
      (pure (replicate samples_per_subframe 0)))

-- The channel with its scale factors.
unfoldable pub unpack_scale_factors :
    {F : Type 0} → FrameChannel F → ℕ → ℕ → Decode (FrameChannel F)
unpack_scale_factors ch hfr_group_count version = read 3 >>= λ delta_bits.
    let extra = extra_count ch.channel_type hfr_group_count version in
    let cs_count = ch.coded_count + extra in
    require ((extra == 0) || leb cs_count samples_per_subframe) invalid_coded_count >>= λ _.
    read_scales delta_bits cs_count ch.scale_factors >>= λ xs.
    lift (derive_scales cs_count extra 0 xs) >>= λ scales.
    pure (record ch { scale_factors = scales })

-- What `unpackIntensity` leaves: the intensities, the scale factors, and whether it returned no error.
-- Its caller drops the error, and goes on with what was written by then.
pub record Unpacked : Type 0 where
  pub intensity : Bytes
  pub scale_factors : Bytes
  pub valid : Bool

abbrev unpacked : Bytes → Bytes → Unpacked
unpacked scales intensity = record { intensity = intensity; scale_factors = scales; valid = true }

-- The loop over deltas, with `bmax` and the value so far. Bytes wrap around.
unfoldable pub intensity_deltas : Bytes → ℕ → ℕ → ℕ → ℕ → ℕ → Bytes → Decode Unpacked
intensity_deltas scales bits bmax value zero i xs = pure (unpacked scales xs)
intensity_deltas scales bits bmax value (suc n) i xs = read bits >>= λ d.
    choose (d % 256 == bmax)
      (read 4 >>= λ v. lift (store xs i (v % 256)) >>= λ xs'.
        intensity_deltas scales bits bmax (v % 256) n (i + 1) xs')
      (let v = (value + 256 - bmax / 2 + d % 256) % 256 in
        choose (ltb 15 v) (pure (record { intensity = xs; scale_factors = scales; valid = false }))
          (lift (store xs i v) >>= λ xs'. intensity_deltas scales bits bmax v n (i + 1) xs'))

-- Up to version 2.0: an intensity of 15 leaves the others as they are.
unfoldable pub old_intensity : Bytes → Bytes → Decode Unpacked
old_intensity scales xs = peek 4 >>= λ value. lift (store xs 0 (value % 256)) >>= λ xs'.
    choose (ltb (value % 256) 15)
      (skip 4 >> read_values 4 (subframes - 1) 1 xs' >>= λ ys. pure (unpacked scales ys))
      (pure (unpacked scales xs'))

unfoldable pub new_intensity : Bytes → Bytes → Decode Unpacked
new_intensity scales xs = peek 4 >>= λ peeked.
    let value = peeked % 256 in
    choose (ltb value 15)
      (skip 4 >> read 2 >>= λ delta_bits. lift (store xs 0 value) >>= λ xs'.
        choose (delta_bits == 3)
          (read_values 4 (subframes - 1) 1 xs' >>= λ ys. pure (unpacked scales ys))
          (intensity_deltas scales (delta_bits + 1) ((2 * 2 ^ delta_bits - 1) % 256) value
            (subframes - 1) 1 xs'))
      (skip 4 >> pure (unpacked scales (replicate subframes 7)))

-- `ch.scaleFactors[128-hfrGroupCount:]` panics where the count is larger than 128.
abbrev pub scales_from : ℕ → Outcome HcaError ℕ
scales_from hfr_group_count = if leb hfr_group_count 128 then ok (128 - hfr_group_count) else panic

unfoldable pub unpack_intensity : ChannelType → ℕ → ℕ → Bytes → Bytes → Decode Unpacked
unpack_intensity channel_type hfr_group_count version scales intensity =
    choose (is_secondary channel_type)
      (choose (leb version version_200) (old_intensity scales intensity)
        (new_intensity scales intensity))
      (choose (leb version version_200)
        (lift (scales_from hfr_group_count) >>= λ first.
          read_values 6 hfr_group_count first scales >>= λ ys. pure (unpacked ys intensity))
        (pure (unpacked scales intensity)))

-- `for i := 0x02; i < len(data)-0x02; i++`.
abbrev pub all_zero : Bytes → Bool
all_zero [] = true
all_zero (b ∷ bs) = (b == 0) && all_zero bs

unfoldable pub is_empty_block : Bytes → Bool
is_empty_block bytes = all_zero (take (length bytes - 4) (drop 2 bytes))

-- Bytes from an index on are zero, with the rounds left.
unfoldable pub zero_from : Bytes → ℕ → ℕ → Outcome HcaError ℤ
zero_from bytes zero i = ok (pos 0)
zero_from bytes (suc n) i =
    Outcome.◌>>=◌ (entry bytes i)
      λ b. elim (b == 0) [ true ↦ zero_from bytes n (i + 1) | false ↦ ok (negsuc 0) ]

-- `hcaErrorBitreader` where fewer than 14 bits are left, -1 where a byte after the last one read is not
-- zero.
unfoldable pub validate_bitreader : Bytes → ℕ → ℕ → Outcome HcaError ℤ
validate_bitreader bytes status frame_size =
    if ltb (frame_size * 8) (status + 14)
    then ok (negsuc 5)
    else let byte_start = (status + 7) / 8 in
      zero_from bytes (frame_size - 2 - byte_start) byte_start

-- `calculateScore`, with the blanks of the first two channels.
unfoldable pub calculate_score : ℕ → ℕ → ℕ → ℕ → ℕ → ℕ → ℕ
calculate_score clips blanks first second framesamples channels =
    let counted = if clips == 1 then clips + 1 else clips in
    if ltb 1 counted
    then counted
    else if blanks == channels * framesamples
    then 0
    else if leb 2 channels && (first == framesamples) && not (second == framesamples)
    then 3
    else 1
