-- ===== src/Hca/Bitreader.antt =====
-- The bit reader of internal/cricodecs/hca/clhca.go: `clData`, `bitreaderInit`, `bitreaderPeek`,
-- `bitreaderRead`, `bitreaderSkip`. An index out of a slice and a shift by a negative count are the
-- panics that Go makes of them. Every count of bits passed by the header decoder is a constant.
pub mod Window
pub mod Exact
use moe_asset_updater_client.Base.{
  ℕ, zero, suc, ◌+◌, ◌-◌, ◌*◌, ◌/◌, ◌%◌, ◌^◌, bit_and, bit_or, Bool, ◌&&◌, List, [], ◌∷◌, none,
  some, ltb, leb, ◌==◌, if◌then◌else◌, get_elem?, get_or, Bytes,
}
use moe_asset_updater_client.Base.Outcome.{Outcome, ok, panic, ◌>>=◌}

-- `size` and `bit` count bits.
pub record ClData : Type 0 where
  pub bytes : Bytes
  pub size : ℕ
  pub bit : ℕ

unfoldable pub bitreader_init : Bytes → ℕ → ClData
bitreader_init bytes size = record { bytes = bytes; size = size * 8; bit = 0 }

-- `data[i]`.
unfoldable pub byte_at {ℓ} : {E : Type ℓ} → Bytes → ℕ → Outcome E ℕ
byte_at bytes i = elim (get_elem? bytes i) [ some b ↦ ok b | none ↦ panic ]

-- `v = (v << 8) | uint(data[i])` for n bytes in turn.
unfoldable pub load {ℓ} : {E : Type ℓ} → ℕ → Bytes → ℕ → ℕ → Outcome E ℕ
unfolding byte_at
load zero bytes i v = ok v
load (suc n) bytes i v = do b ← byte_at bytes i; load n bytes (i + 1) (bit_or (v * 2 ^ 8) b)

abbrev pub masks_32 : List ℕ
masks_32 =
    0xFFFFFFFF ∷ 0x7FFFFFFF ∷ 0x3FFFFFFF ∷ 0x1FFFFFFF ∷ 0x0FFFFFFF ∷ 0x07FFFFFF ∷ 0x03FFFFFF
    ∷ 0x01FFFFFF ∷ []

abbrev pub masks_24 : List ℕ
masks_24 =
    0xFFFFFF ∷ 0x7FFFFF ∷ 0x3FFFFF ∷ 0x1FFFFF ∷ 0x0FFFFF ∷ 0x07FFFF ∷ 0x03FFFF ∷ 0x01FFFF ∷ []

abbrev pub masks_16 : List ℕ
masks_16 = 0xFFFF ∷ 0x7FFF ∷ 0x3FFF ∷ 0x1FFF ∷ 0x0FFF ∷ 0x07FF ∷ 0x03FF ∷ 0x01FF ∷ []

abbrev pub masks_8 : List ℕ
masks_8 = 0xFF ∷ 0x7F ∷ 0x3F ∷ 0x1F ∷ 0x0F ∷ 0x07 ∷ 0x03 ∷ 0x01 ∷ []

-- `v >> (width - used)`: Go panics on a negative count.
unfoldable pub shr {ℓ} : {E : Type ℓ} → ℕ → ℕ → ℕ → Outcome E ℕ
shr v width used = if ltb width used then panic else ok (v / 2 ^ (width - used))

-- One branch of the ladder: load n bytes, `v &= mask[bitRem]`, `v >>= 8n - bitRem - bitsRead`.
unfoldable pub peek_bytes {ℓ} : {E : Type ℓ} → ℕ → List ℕ → Bytes → ℕ → ℕ → Outcome E ℕ
unfolding load shr
peek_bytes n mask bytes bit_pos bits_read = do
  let bit_rem = bit_pos % 8
  v ← load n bytes (bit_pos / 8) 0
  shr (bit_and v (get_or mask bit_rem 0)) (8 * n) (bit_rem + bits_read)

unfoldable pub bitreader_peek {ℓ} : {E : Type ℓ} → ClData → ℕ → Outcome E ℕ
unfolding peek_bytes
bitreader_peek br bits_read =
    let bit_offset = bits_read + br.bit % 8 in
    let bits_left = br.size - br.bit in
    if ltb br.size (br.bit + bits_read)
    then ok 0
    else if bits_read == 0
    then ok 0
    else if leb 32 bits_left && leb 25 bit_offset
    then peek_bytes 4 masks_32 br.bytes br.bit bits_read
    else if leb 24 bits_left && leb 17 bit_offset
    then peek_bytes 3 masks_24 br.bytes br.bit bits_read
    else if leb 16 bits_left && leb 9 bit_offset
    then peek_bytes 2 masks_16 br.bytes br.bit bits_read
    else peek_bytes 1 masks_8 br.bytes br.bit bits_read

unfoldable pub bitreader_skip : ClData → ℕ → ClData
bitreader_skip br bitsize = record br { bit = br.bit + bitsize }

unfoldable pub bitreader_read {ℓ} : {E : Type ℓ} → ClData → ℕ → Outcome E (ℕ × ClData)
unfolding bitreader_peek bitreader_skip
bitreader_read br bitsize = do v ← bitreader_peek br bitsize; ok (v, bitreader_skip br bitsize)
