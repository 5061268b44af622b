-- ===== src/Hca/Crc/Detects.antt =====
-- What the checksum is for: bytes followed by their checksum give 0, and one changed byte changes it.
use moe_asset_updater_client.Base.{
  ℕ, zero, suc, ◌*◌, ◌/◌, ◌%◌, ◌^◌, ◌<◌, ◌≡◌, ◌≢◌, refl, ap, sym, ◌∙◌, append-nil, bit_xor, true,
  [], ◌∷◌, ◌++◌, arith, length, All, Bytes, IsByte, ◌==◌, ==_iff, if◌then◌else◌, get_or,
}
use moe_asset_updater_client.Base.Tests.{all_below, all_below_sound}
use moe_asset_updater_client.Base.Bits.{
  bit_xor-lt, bit_xor-mod, bit_xor_cancel, bit_xor_comm, bit_xor_self, zero-bit_xor,
}
use moe_asset_updater_client.Base.Outcome.{ok, ok-injective}
use moe_asset_updater_client.Hca.Crc.{crc_mask_table, crc_step, crc16_loop, crc16_checksum}
use moe_asset_updater_client.Hca.Crc.Polynomial.{crc_step-lt}

-- The state after a run of bytes.
pub state_after : Bytes → ℕ → ℕ
state_after [] s = s
state_after (b ∷ bs) s = state_after bs (crc_step s b)

pub crc16_loop-state_after :
    {E : Type 0} (bytes rest : Bytes) (s : ℕ)
    → crc16_loop {E = E} (length bytes) (bytes ++ rest) s ≡ ok (state_after bytes s)
unfolding crc16_loop state_after
crc16_loop-state_after [] rest s = refl
crc16_loop-state_after {E = E} (b ∷ bs) rest s =
    crc16_loop-state_after {E = E} bs rest (crc_step s b)

state_after-append :
    (xs ys : Bytes) (s : ℕ) → state_after (xs ++ ys) s ≡ state_after ys (state_after xs s)
unfolding state_after
state_after-append [] ys s = refl
state_after-append (x ∷ xs) ys s = state_after-append xs ys (crc_step s x)

state_after-lt : (bs : Bytes) (s : ℕ) → s < 2 ^ 16 → All IsByte bs → state_after bs s < 2 ^ 16
unfolding state_after
state_after-lt [] s h a = h
state_after-lt (b ∷ bs) s h a = state_after-lt bs (crc_step s b) (crc_step-lt s b h a.0) a.1

-- The two bytes that a writer appends: the state, high byte first.
abbrev pub trailer : ℕ → Bytes
trailer s = s / 2 ^ 8 ∷ s % 2 ^ 8 ∷ []

abbrev entry : ℕ → ℕ
entry i = get_or crc_mask_table i 0

entry-zero : entry 0 ≡ 0
unfolding crc_mask_table
entry-zero = refl

-- A byte that equals the state's high byte leaves the low byte, moved up.
crc_step_same : (s : ℕ) → crc_step s (s / 2 ^ 8) ≡ s * 2 ^ 8 % 2 ^ 16
unfolding crc_step
crc_step_same s =
    rw (bit_xor_self (s / 2 ^ 8), entry-zero, bit_xor_comm (s * 2 ^ 8 % 2 ^ 16) 0)
      (zero-bit_xor (s * 2 ^ 8 % 2 ^ 16))

trailer-zero : (s : ℕ) → s < 2 ^ 16 → state_after (trailer s) s ≡ 0
unfolding state_after
trailer-zero s h =
    let t : ℕ = s % 2 ^ 8 * 2 ^ 8 in
    let first : crc_step s (s / 2 ^ 8) ≡ t = crc_step_same s ∙ omega arith in
    let e : s % 2 ^ 8 ≡ t / 2 ^ 8 = omega arith in
    let second : crc_step t (s % 2 ^ 8) ≡ 0 = ap (crc_step t) e ∙ crc_step_same t ∙ omega arith in
    rw first second

-- The low bytes of the table's entries tell the entries apart.
abbrev index_of : ℕ → ℕ → ℕ
index_of low zero = 0
index_of low (suc i) = if get_or crc_mask_table i 0 % 2 ^ 8 == low then i else index_of low i

low_bytes : all_below 256 (λ i. index_of (get_or crc_mask_table i 0 % 2 ^ 8) 256 == i) ≡ true
unfolding all_below crc_mask_table
low_bytes = refl

entry-injective : (i j : ℕ) → i < 256 → j < 256 → entry i % 2 ^ 8 ≡ entry j % 2 ^ 8 → i ≡ j
entry-injective i j hi hj e =
    let back = λ (k : ℕ) (h : k < 256).
      (==_iff _ _).0
        (all_below_sound 256 (λ i. index_of (entry i % 2 ^ 8) 256 == i) k low_bytes h) in
    sym (back i hi) ∙ ap (λ (t : ℕ). index_of t 256) e ∙ back j hj

crc_step-low : (s b : ℕ) → crc_step s b % 2 ^ 8 ≡ entry (bit_xor (s / 2 ^ 8) b) % 2 ^ 8
unfolding crc_step
crc_step-low s b =
    let e : s * 2 ^ 8 % 2 ^ 16 % 2 ^ 8 ≡ 0 = omega arith in
    rw (bit_xor-mod 8 (s * 2 ^ 8 % 2 ^ 16) (entry (bit_xor (s / 2 ^ 8) b)), e) (zero-bit_xor _)

bit_xor-injective : (a b m : ℕ) → bit_xor a m ≡ bit_xor b m → a ≡ b
bit_xor-injective a b m e =
    sym (bit_xor_cancel a m) ∙ ap (λ (t : ℕ). bit_xor t m) e ∙ bit_xor_cancel b m

same_index :
    (s t a b : ℕ)
    → s < 2 ^ 16
    → t < 2 ^ 16
    → IsByte a
    → IsByte b
    → crc_step s a ≡ crc_step t b
    → bit_xor (s / 2 ^ 8) a ≡ bit_xor (t / 2 ^ 8) b
same_index s t a b hs ht ha hb e =
    entry-injective _ _ (bit_xor-lt 8 _ _ (omega arith) ha) (bit_xor-lt 8 _ _ (omega arith) hb)
      (sym (crc_step-low s a) ∙ ap (λ (x : ℕ). x % 2 ^ 8) e ∙ crc_step-low t b)

crc_step-injective_byte :
    (s a b : ℕ) → s < 2 ^ 16 → IsByte a → IsByte b → crc_step s a ≡ crc_step s b → a ≡ b
crc_step-injective_byte s a b hs ha hb e =
    bit_xor-injective a b (s / 2 ^ 8)
      (bit_xor_comm a _ ∙ same_index s s a b hs hs ha hb e ∙ bit_xor_comm _ b)

crc_step-injective_state :
    (s t b : ℕ) → s < 2 ^ 16 → t < 2 ^ 16 → IsByte b → crc_step s b ≡ crc_step t b → s ≡ t
crc_step-injective_state s t b hs ht hb e = omega (arith, high, low)
  where
    index : bit_xor (s / 2 ^ 8) b ≡ bit_xor (t / 2 ^ 8) b
    index = same_index s t b b hs ht hb hb e

    high : s / 2 ^ 8 ≡ t / 2 ^ 8
    high = bit_xor-injective _ _ b index

    parts :
        bit_xor (s * 2 ^ 8 % 2 ^ 16) (entry (bit_xor (s / 2 ^ 8) b))
        ≡ bit_xor (t * 2 ^ 8 % 2 ^ 16) (entry (bit_xor (s / 2 ^ 8) b))
    parts = unfold crc_step in (rw (← index) at e)

    low : s * 2 ^ 8 % 2 ^ 16 ≡ t * 2 ^ 8 % 2 ^ 16
    low = bit_xor-injective _ _ _ parts

state_after-injective :
    (bs : Bytes) (s t : ℕ)
    → s < 2 ^ 16
    → t < 2 ^ 16
    → All IsByte bs
    → state_after bs s ≡ state_after bs t
    → s ≡ t
unfolding state_after
state_after-injective [] s t hs ht h e = e
state_after-injective (b ∷ bs) s t hs ht h e = crc_step-injective_state s t b hs ht h.0 (
    state_after-injective bs (crc_step s b) (crc_step t b) (crc_step-lt s b hs h.0)
      (crc_step-lt t b ht h.0) h.1 e)

checksum-state_after :
    {E : Type 0} (bytes : Bytes)
    → crc16_checksum {E = E} bytes (length bytes) ≡ ok (state_after bytes 0)
unfolding crc16_checksum
checksum-state_after {E = E} bytes = rw append-nil at (crc16_loop-state_after {E = E} bytes [] 0)

module _ {E : Type 0} where
  -- Bytes followed by their own checksum, high byte first, have the checksum 0.
  pub crc16_checksum-trailer :
      (bytes : Bytes) (s : ℕ)
      → All IsByte bytes
      → crc16_checksum {E = E} bytes (length bytes) ≡ ok s
      → crc16_checksum {E = E} (bytes ++ trailer s) (length (bytes ++ trailer s)) ≡ ok 0
  crc16_checksum-trailer bytes s h e =
      let same : state_after bytes 0 ≡ s =
        ok-injective {E = E} (sym (checksum-state_after {E = E} bytes) ∙ e) in
      let small : s < 2 ^ 16 = rw same at (state_after-lt bytes 0 (omega arith) h) in
      checksum-state_after {E = E} (bytes ++ trailer s)
      ∙ ap ok (state_after-append bytes (trailer s) 0 ∙ rw same (trailer-zero s small))

  -- Two slices of bytes that differ in exactly one byte have different checksums.
  pub crc16_checksum_detects :
      (front back : Bytes) (a b : ℕ)
      → All IsByte front
      → All IsByte back
      → IsByte a
      → IsByte b
      → a ≢ b
      → crc16_checksum {E = E} (front ++ a ∷ back) (length (front ++ a ∷ back))
        ≢ crc16_checksum (front ++ b ∷ back) (length (front ++ b ∷ back))
  crc16_checksum_detects front back a b hf hk ha hb ne e =
      let s : ℕ = state_after front 0 in
      let hs : s < 2 ^ 16 = state_after-lt front 0 (omega arith) hf in
      let same : state_after (front ++ a ∷ back) 0 ≡ state_after (front ++ b ∷ back) 0 =
        ok-injective {E = E} (
          sym (checksum-state_after {E = E} (front ++ a ∷ back))
          ∙ e
          ∙ checksum-state_after {E = E} (front ++ b ∷ back)) in
      let tails : state_after (a ∷ back) s ≡ state_after (b ∷ back) s =
        sym (state_after-append front (a ∷ back) 0)
        ∙ same
        ∙ state_after-append front (b ∷ back) 0 in
      ne (
        crc_step-injective_byte s a b hs ha hb (
          state_after-injective back (crc_step s a) (crc_step s b) (crc_step-lt s a hs ha)
            (crc_step-lt s b hs hb) hk (unfold state_after in tails)))
