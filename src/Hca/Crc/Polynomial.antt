-- ===== src/Hca/Crc/Polynomial.antt =====
-- The table-driven loop against the division that defines the checksum: bit by bit, by the
-- polynomial x^16 + x^15 + x^2 + 1.
use moe_asset_updater_client.Base.{
  ℕ, zero, suc, ◌+◌, ◌*◌, ◌/◌, ◌%◌, ◌^◌, ◌<◌, ◌≡◌, refl, ◌∙◌, bit_xor, true, [], ◌∷◌, ◌++◌, arith,
  length, All, Bytes, IsByte, ltb, ltb→lt, ◌==◌, ==_iff, if◌then◌else◌, get_or,
}
use moe_asset_updater_client.Base.Tests.{all_below, all_below_sound}
use moe_asset_updater_client.Base.Bits.{bit_xor-div, bit_xor-mod, bit_xor-zero, bit_xor-lt}
use moe_asset_updater_client.Base.Outcome.{ok}
use moe_asset_updater_client.Hca.Crc.{crc_mask_table, crc_step, crc16_loop, crc16_checksum}

-- One bit of the division: shift, and subtract the polynomial if a one falls out.
abbrev pub divide_bit : ℕ → ℕ
divide_bit s = if ltb s 0x8000 then s * 2 else bit_xor (s * 2 % 2 ^ 16) 0x8005

unfoldable pub divide_bits : ℕ → ℕ → ℕ
divide_bits zero s = s
divide_bits (suc n) s = divide_bits n (divide_bit s)

-- The remainder after one more byte, and after all of a slice.
abbrev pub remainder_step : ℕ → ℕ → ℕ
remainder_step s b = divide_bits 8 (bit_xor s (b * 2 ^ 8))

pub remainder : Bytes → ℕ → ℕ
remainder [] s = s
remainder (b ∷ bs) s = remainder bs (remainder_step s b)

states_agree :
    all_below 256
      (λ hi. all_below 256 (λ lo. crc_step (hi * 256 + lo) 0 == divide_bits 8 (hi * 256 + lo)))
    ≡ true
unfolding all_below crc_step crc_mask_table divide_bits
states_agree = refl

state_agrees : (t : ℕ) → t < 2 ^ 16 → crc_step t 0 ≡ divide_bits 8 t
state_agrees t h =
    let e : t ≡ t / 256 * 256 + t % 256 = omega arith in
    let row = all_below_sound 256 _ (t / 256) states_agree (omega arith) in
    let cell = all_below_sound 256 _ (t % 256) row (omega arith) in rw e ((==_iff _ _).0 cell)

-- A byte enters the state at its high end.
high_byte : (s b : ℕ) → bit_xor s (b * 2 ^ 8) / 2 ^ 8 ≡ bit_xor (s / 2 ^ 8) b
high_byte s b = let e : b * 2 ^ 8 / 2 ^ 8 ≡ b = omega arith in rw (bit_xor-div 8 s (b * 2 ^ 8), e)

low_byte : (s b : ℕ) → bit_xor s (b * 2 ^ 8) % 2 ^ 8 ≡ s % 2 ^ 8
low_byte s b =
    let e : b * 2 ^ 8 % 2 ^ 8 ≡ 0 = omega arith in
    rw (bit_xor-mod 8 s (b * 2 ^ 8), e, bit_xor-zero (s % 2 ^ 8))

crc_step-high : (s b : ℕ) → s < 2 ^ 16 → crc_step s b ≡ crc_step (bit_xor s (b * 2 ^ 8)) 0
unfolding crc_step
crc_step-high s b h =
    let e : bit_xor s (b * 2 ^ 8) * 2 ^ 8 % 2 ^ 16 ≡ s * 2 ^ 8 % 2 ^ 16 =
      omega (arith, low_byte s b) in
    rw (e, high_byte s b, bit_xor-zero (bit_xor (s / 2 ^ 8) b))

-- From a 16-bit state with a byte, one round by the table is eight steps of the bitwise division.
pub crc_step-remainder_step : (s b : ℕ) → s < 2 ^ 16 → IsByte b → crc_step s b ≡ remainder_step s b
crc_step-remainder_step s b hs hb =
    crc_step-high s b hs
    ∙ state_agrees (bit_xor s (b * 2 ^ 8)) (bit_xor-lt 16 s (b * 2 ^ 8) hs (omega arith))

table_words : all_below 256 (λ i. ltb (get_or crc_mask_table i 0) (2 ^ 16)) ≡ true
unfolding all_below crc_mask_table
table_words = refl

pub crc_step-lt : (s b : ℕ) → s < 2 ^ 16 → IsByte b → crc_step s b < 2 ^ 16
unfolding crc_step
crc_step-lt s b hs hb = bit_xor-lt 16 _ _ (omega arith) (
    ltb→lt _ _ (
      all_below_sound 256 (λ i. ltb (get_or crc_mask_table i 0) (2 ^ 16)) (bit_xor (s / 2 ^ 8) b)
        table_words (bit_xor-lt 8 (s / 2 ^ 8) b (omega arith) hb)))

crc16_loop-remainder :
    {E : Type 0} (bytes rest : Bytes) (s : ℕ)
    → s < 2 ^ 16
    → All IsByte bytes
    → crc16_loop {E = E} (length bytes) (bytes ++ rest) s ≡ ok (remainder bytes s)
unfolding crc16_loop remainder
crc16_loop-remainder [] rest s hs h = refl
crc16_loop-remainder {E = E} (b ∷ bs) rest s hs h =
    rw (← crc_step-remainder_step s b hs h.0)
      (crc16_loop-remainder {E = E} bs rest (crc_step s b) (crc_step-lt s b hs h.0) h.1)

-- For bytes in range, the checksum of the first bytes of a slice is the remainder of their division.
pub crc16_checksum-remainder :
    {E : Type 0} (bytes rest : Bytes)
    → All IsByte bytes
    → crc16_checksum {E = E} (bytes ++ rest) (length bytes) ≡ ok (remainder bytes 0)
unfolding crc16_checksum
crc16_checksum-remainder {E = E} bytes rest h =
    crc16_loop-remainder {E = E} bytes rest 0 (omega arith) h
