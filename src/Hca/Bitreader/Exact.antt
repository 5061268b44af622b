-- ===== src/Hca/Bitreader/Exact.antt =====
-- `bitreaderPeek` against the bits of the slice.
use moe_asset_updater_client.Base.{
  ℕ, zero, suc, ◌+◌, ◌-◌, ◌*◌, ◌/◌, ◌%◌, ◌^◌, ◌≤◌, ◌<◌, ◌≡◌, refl, ap, sym, ◌∙◌, ◌⊎◌, List, [], ◌∷◌,
  ◌++◌, arith, length, length-take, length-drop, take, drop, take-append-drop, get_or, All, Bytes,
  IsByte, ◌==◌, leb, ==_iff,
}
use moe_asset_updater_client.Base.Tests.{all_below, all_below_sound, if◌then◌else◌}
use native.Mathlib.Nat.{suc-add}
use moe_asset_updater_client.Base.Bits.{bit_and_mask, bit_or_shifted}
use moe_asset_updater_client.Base.Outcome.{ok, panic}
use moe_asset_updater_client.Hca.Bitreader.{
  ClData, byte_at, load, masks_32, masks_24, masks_16, masks_8, peek_bytes, bitreader_peek,
}
use moe_asset_updater_client.Hca.Bitreader.Window.{
  IsBit, bits, bits_at, byte_bits, value_onto, value_middle, length-bits, bits-IsBit, bits-append,
  take-drop_append, drop-bits,
}

-- The byte at a position in range stands in front of the rest.
byte_at-drop {ℓ} :
    {E : Type ℓ} (bytes : Bytes) (i : ℕ)
    → i < length bytes
    → (b : ℕ) × (byte_at {E = E} bytes i ≡ ok b) × (drop i bytes ≡ b ∷ drop (i + 1) bytes)
unfolding byte_at
byte_at-drop [] i h = absurd (omega arith)
byte_at-drop (x ∷ xs) zero h = (x, refl, refl)
byte_at-drop {E = E} (x ∷ xs) (suc i) h =
    let (b, e, d) = byte_at-drop {E = E} xs i (omega arith) in (b, e, rw suc-add d)

value_onto-byte :
    (v b : ℕ) (xs : List ℕ)
    → b < 256
    → value_onto v (byte_bits b ++ xs) ≡ value_onto (v * 2 ^ 8 + b) xs
value_onto-byte v b xs h = ap (λ (t : ℕ). value_onto t xs) (omega arith)

All-drop {κ} : (P : ℕ → Type κ) (n : ℕ) (xs : List ℕ) → All P xs → All P (drop n xs)
All-drop P zero xs h = h
All-drop P (suc n) [] h = h
All-drop P (suc n) (x ∷ xs) h = All-drop P n xs h.1

-- Loading n bytes from byte i on.
load_lem {ℓ} :
    {E : Type ℓ} (n : ℕ) (bytes : Bytes) (i v : ℕ)
    → i + n ≤ length bytes
    → All IsByte bytes
    → load {E = E} n bytes i v ≡ ok (value_onto v (bits (take n (drop i bytes))))
unfolding load
load_lem zero bytes i v h a = refl
load_lem {E = E} (suc n) bytes i v h a =
    let (b, e, d) = byte_at-drop {E = E} bytes i (omega arith) in
    let ab : All IsByte (b ∷ drop (i + 1) bytes) = rw d at (All-drop IsByte i bytes a) in
    rw
      (
        d,
        e,
        value_onto-byte v b (bits (take n (drop (i + 1) bytes))) ab.0,
        bit_or_shifted 8 v b ab.0,
      )
      (load_lem n bytes (i + 1) (v * 2 ^ 8 + b) (omega arith) a)

length-take_le {ℓ} : {A : Type ℓ} (n : ℕ) (xs : List A) → n ≤ length xs → length (take n xs) ≡ n
length-take_le n xs h = omega (arith, length-take n xs)

All-take {κ} : (P : ℕ → Type κ) (n : ℕ) (xs : List ℕ) → All P xs → All P (take n xs)
All-take P zero xs h = tt
All-take P (suc n) [] h = tt
All-take P (suc n) (x ∷ xs) h = (h.0, All-take P n xs h.1)

-- `&` with a mask of n - r ones and `>>` by n - (r + k) cut k bits out of n.
cut :
    (xs : List ℕ) (r k : ℕ)
    → All IsBit xs
    → r + k ≤ length xs
    → value_onto 0 xs % 2 ^ (length xs - r) / 2 ^ (length xs - (r + k))
      ≡ value_onto 0 (take k (drop r xs))
cut xs r k bin h =
    let ys : List ℕ = drop r xs in
    let whole : take r xs ++ (take k ys ++ drop k ys) ≡ xs =
      rw (take-append-drop k ys) (take-append-drop r xs) in
    let lb : length (take k ys) ≡ k = omega (arith, length-take k ys, length-drop r xs) in
    let lc : length (drop k ys) ≡ length xs - (r + k) =
      omega (arith, length-drop k ys, length-drop r xs) in
    let e : length xs - r ≡ k + (length xs - (r + k)) = omega arith in
    let m =
      value_middle (take r xs) (take k ys) (drop k ys)
        (All-take IsBit k ys (All-drop IsBit r xs bin))
        (All-drop IsBit k ys (All-drop IsBit r xs bin)) in
    rw e (rw (whole, lb, lc) at m)

-- A table of masks is right for n bytes where entry r has the low 8n - r bits set.
abbrev AreMasks : ℕ → List ℕ → Type 0
AreMasks n mask = (r : ℕ) → r < 8 → get_or mask r 0 ≡ 2 ^ (8 * n - r) - 1

masks_32-AreMasks : AreMasks 4 masks_32
unfolding all_below
masks_32-AreMasks r h =
    (==_iff _ _).0 (all_below_sound 8 (λ r. get_or masks_32 r 0 == 2 ^ (8 * 4 - r) - 1) r refl h)

masks_24-AreMasks : AreMasks 3 masks_24
unfolding all_below
masks_24-AreMasks r h =
    (==_iff _ _).0 (all_below_sound 8 (λ r. get_or masks_24 r 0 == 2 ^ (8 * 3 - r) - 1) r refl h)

masks_16-AreMasks : AreMasks 2 masks_16
unfolding all_below
masks_16-AreMasks r h =
    (==_iff _ _).0 (all_below_sound 8 (λ r. get_or masks_16 r 0 == 2 ^ (8 * 2 - r) - 1) r refl h)

masks_8-AreMasks : AreMasks 1 masks_8
unfolding all_below
masks_8-AreMasks r h =
    (==_iff _ _).0 (all_below_sound 8 (λ r. get_or masks_8 r 0 == 2 ^ (8 * 1 - r) - 1) r refl h)

-- The window of n bytes holds the bits asked for.
window :
    (n : ℕ) (bytes : Bytes) (pos k : ℕ)
    → pos / 8 + n ≤ length bytes
    → pos % 8 + k ≤ 8 * n
    → take k (drop (pos % 8) (bits (take n (drop (pos / 8) bytes))))
      ≡ take k (drop pos (bits bytes))
window n bytes pos k h f =
    let j = pos / 8 in
    let r = pos % 8 in
    let ys : Bytes = drop j bytes in
    let e : pos ≡ 8 * j + r = omega arith in
    let fit : r + k ≤ length (bits (take n ys)) =
      omega (arith, length-bits (take n ys), length-take n ys, length-drop j bytes) in
    let d : drop pos (bits bytes) ≡ drop r (bits ys) =
      ap (λ (t : ℕ). drop t (bits bytes)) e ∙ drop-bits j r bytes (omega arith) in
    let a : bits ys ≡ bits (take n ys) ++ bits (drop n ys) =
      ap bits (sym (take-append-drop n ys)) ∙ bits-append (take n ys) (drop n ys) in
    let t : take k (drop r (bits ys)) ≡ take k (drop r (bits (take n ys))) =
      ap (λ (x : List ℕ). take k (drop r x)) a
      ∙ take-drop_append r k (bits (take n ys)) (bits (drop n ys)) fit in
    sym (ap (take k) d ∙ t)

peek_bytes_fits {ℓ} :
    {E : Type ℓ} (n : ℕ) (mask : List ℕ) (bytes : Bytes) (pos k : ℕ)
    → AreMasks n mask
    → All IsByte bytes
    → pos / 8 + n ≤ length bytes
    → pos % 8 + k ≤ 8 * n
    → peek_bytes {E = E} n mask bytes pos k ≡ ok (bits_at bytes pos k)
unfolding peek_bytes
peek_bytes_fits {E = E} n mask bytes pos k m a h f =
    let r = pos % 8 in
    let xs : List ℕ = bits (take n (drop (pos / 8) bytes)) in
    let l : length xs ≡ 8 * n = omega (
      arith,
      length-bits (take n (drop (pos / 8) bytes)),
      length-take n (drop (pos / 8) bytes),
      length-drop (pos / 8) bytes,
    ) in
    let c = cut xs r k (bits-IsBit (take n (drop (pos / 8) bytes))) (omega arith) in
    let c' : value_onto 0 xs % 2 ^ (8 * n - r) / 2 ^ (8 * n - (r + k)) ≡ bits_at bytes pos k =
      rw l at c ∙ ap (value_onto 0) (window n bytes pos k h f) in
    rw
      (
        load_lem {E = E} n bytes (pos / 8) 0 h a,
        m r (omega arith),
        bit_and_mask (8 * n - r) (value_onto 0 xs),
        c',
      )
      (ground arith)

-- A window that is too narrow makes the shift count negative.
peek_bytes_narrow {ℓ} :
    {E : Type ℓ} (n : ℕ) (mask : List ℕ) (bytes : Bytes) (pos k : ℕ)
    → All IsByte bytes
    → pos / 8 + n ≤ length bytes
    → 8 * n < pos % 8 + k
    → peek_bytes {E = E} n mask bytes pos k ≡ panic
unfolding peek_bytes
peek_bytes_narrow {E = E} n mask bytes pos k a h f =
    rw (load_lem {E = E} n bytes (pos / 8) 0 h a) (ground arith)

-- What a call asks for: bits that the reader has, of a slice that holds what the reader counts.
pub record IsAsked (br : ClData) (k : ℕ) : Type 0 where
  pub bytes_valid : All IsByte br.bytes
  pub size_le : br.size ≤ 8 * length br.bytes
  pub some_bits : 0 < k
  pub enough : br.bit + k ≤ br.size

-- The bits of the whole bytes that a read of `off` bits from inside a byte spans, up to 32.
abbrev pub spanned : ℕ → ℕ
spanned off = if leb off 8 then 8 else if leb off 16 then 16 else if leb off 24 then 24 else 32

module _ {E : Type 0} (br : ClData) (k : ℕ) (asked : IsAsked br k) where
  peek_1 : br.bit % 8 + k ≤ 8 → bitreader_peek {E = E} br k ≡ ok (bits_at br.bytes br.bit k)
  unfolding bitreader_peek
  peek_1 h = ground (
    arith,
    peek_bytes_fits {E = E} 1 masks_8 br.bytes br.bit k masks_8-AreMasks asked.bytes_valid
        (omega (arith, asked.size_le, asked.enough, asked.some_bits)) (omega arith),
  )

  peek_2 :
      8 < br.bit % 8 + k
      → br.bit % 8 + k ≤ 16
      → br.bit + 16 ≤ br.size
      → bitreader_peek {E = E} br k ≡ ok (bits_at br.bytes br.bit k)
  unfolding bitreader_peek
  peek_2 lo hi room = ground (
    arith,
    peek_bytes_fits {E = E} 2 masks_16 br.bytes br.bit k masks_16-AreMasks asked.bytes_valid
        (omega (arith, asked.size_le, asked.enough, asked.some_bits)) (omega arith),
  )

  peek_3 :
      16 < br.bit % 8 + k
      → br.bit % 8 + k ≤ 24
      → br.bit + 24 ≤ br.size
      → bitreader_peek {E = E} br k ≡ ok (bits_at br.bytes br.bit k)
  unfolding bitreader_peek
  peek_3 lo hi room = ground (
    arith,
    peek_bytes_fits {E = E} 3 masks_24 br.bytes br.bit k masks_24-AreMasks asked.bytes_valid
        (omega (arith, asked.size_le, asked.enough, asked.some_bits)) (omega arith),
  )

  peek_4 :
      24 < br.bit % 8 + k
      → br.bit % 8 + k ≤ 32
      → br.bit + 32 ≤ br.size
      → bitreader_peek {E = E} br k ≡ ok (bits_at br.bytes br.bit k)
  unfolding bitreader_peek
  peek_4 lo hi room = ground (
    arith,
    peek_bytes_fits {E = E} 4 masks_32 br.bytes br.bit k masks_32-AreMasks asked.bytes_valid
        (omega (arith, asked.size_le, asked.enough, asked.some_bits)) (omega arith),
  )

  -- For bytes that hold the size in bits, and k > 0 bits that are left: where the read spans at most
  -- 32 bits from its first byte on, and spans one byte or bytes that hold no more bits than are left,
  -- the ladder of windows gives the k bits from the current position on.
  pub bitreader_peek-bits_at :
      br.bit % 8 + k ≤ 32
      → (br.bit % 8 + k ≤ 8) ⊎ (br.bit + spanned (br.bit % 8 + k) ≤ br.size)
      → bitreader_peek {E = E} br k ≡ ok (bits_at br.bytes br.bit k)
  bitreader_peek-bits_at le room = ground (arith, peek_1, peek_2, peek_3, peek_4)

  -- For bytes that hold the size in bits, and k > 0 bits that are left: where the read spans more than
  -- one byte, and the bytes that it spans hold more bits than are left or are more than four, the
  -- ladder falls to a window that is too narrow, and Go panics on the negative shift count.
  pub bitreader_peek-panic :
      8 < br.bit % 8 + k
      → br.size < br.bit + spanned (br.bit % 8 + k) ⊎ (32 < br.bit % 8 + k)
      → bitreader_peek {E = E} br k ≡ panic
  unfolding bitreader_peek
  bitreader_peek-panic wide short = ground (
    arith,
    peek_bytes_narrow {E = E} 4 masks_32 br.bytes br.bit k asked.bytes_valid,
    peek_bytes_narrow {E = E} 3 masks_24 br.bytes br.bit k asked.bytes_valid,
    peek_bytes_narrow {E = E} 2 masks_16 br.bytes br.bit k asked.bytes_valid,
    peek_bytes_narrow {E = E} 1 masks_8 br.bytes br.bit k asked.bytes_valid,
  )
