-- ===== src/Binary.antt =====
-- `BinaryStream` of internal/utils/binary.go: typed reads from a file or a slice that does not change
-- while it is read. Such a stream is its content and a position; the functions take both and give the
-- new position. A seek to a negative offset fails and moves nothing, one past the end is allowed. What
-- a short read could not fill stays zero, and most callers drop its error.
use moe_asset_updater_client.Base.{
  ℕ, ◌+◌, ◌-◌, ◌%◌, ◌^◌, Bool, true, false, Option, none, some, [], ◌∷◌, ◌++◌, reverse, leb, ◌==◌,
  if◌then◌else◌, length, take, drop, replicate, Bytes,
}
use moe_asset_updater_client.Base.Int.{ℤ, pos, negsuc, ◌+ℤ◌}
use moe_asset_updater_client.Base.Outcome.{Outcome, ok, panic}
use moe_asset_updater_client.Acb.Reader.{ReadError, eof, unexpected_eof, big_endian, signed}

pub data Endian : Type 0 where
  big little : Endian

-- What a read gives: a value, an error or none, and the position after it.
pub record Got (A : Type 0) : Type 0 where
  pub value : A
  pub fault : Option ReadError
  pub after : ℕ

-- The error of `io.ReadFull` for n bytes where there were k.
abbrev pub full_fault : ℕ → ℕ → Option ReadError
full_fault n k = if leb n k then none else if k == 0 then some eof else some unexpected_eof

-- `err != nil`.
abbrev pub faulty : Option ReadError → Bool
faulty none = false
faulty (some e) = true

-- n bytes, filled up with zeros from the bytes that were there.
abbrev pub padded : ℕ → Bytes → ℕ → Got Bytes
padded n got p = record {
  value = got ++ replicate (n - length got) 0;
  fault = full_fault n (length got);
  after = p + length got;
}

-- `Seek(offset, io.SeekStart)` for an offset that may be negative, from the position p.
abbrev pub seek_start : ℤ → ℕ → ℕ
seek_start (pos offset) p = offset
seek_start (negsuc n) p = p

-- `Seek(offset, io.SeekCurrent)`.
unfoldable pub seek_current : ℤ → ℕ → ℕ
unfolding ◌+ℤ◌
seek_current offset p = seek_start (pos p +ℤ offset) p

unfoldable pub read_bytes : Bytes → ℕ → ℕ → Got Bytes
read_bytes content n p = padded n (take n (drop p content)) p

-- `make` panics where the length is negative.
unfoldable pub read_length : Bytes → ℤ → ℕ → Outcome ReadError (Got Bytes)
unfolding read_bytes
read_length content (pos n) p = ok (read_bytes content n p)
read_length content (negsuc n) p = panic

-- `Uint16`, `Uint32` and `Uint64` of the byte order.
abbrev pub ordered : Endian → Bytes → ℕ
ordered big bytes = big_endian 0 bytes
ordered little bytes = big_endian 0 (reverse bytes)

module _ (endian : Endian) (content : Bytes) where
  unfoldable pub read_uint : ℕ → ℕ → Got ℕ
  unfolding read_bytes
  read_uint n p =
      let got = read_bytes content n p in
      record { value = ordered endian got.value; fault = got.fault; after = got.after }

  unfoldable pub read_uint16 : ℕ → Got ℕ
  unfolding read_uint
  read_uint16 p = read_uint 2 p

  unfoldable pub read_uint32 : ℕ → Got ℕ
  unfolding read_uint
  read_uint32 p = read_uint 4 p

  unfoldable pub read_uint64 : ℕ → Got ℕ
  unfolding read_uint
  read_uint64 p = read_uint 8 p

  unfoldable pub read_int : ℕ → ℕ → ℕ → Got ℤ
  unfolding read_uint
  read_int half n p =
      let got = read_uint n p in
      record { value = signed half got.value; fault = got.fault; after = got.after }

  unfoldable pub read_int16 : ℕ → Got ℤ
  unfolding read_int
  read_int16 p = read_int (2 ^ 15) 2 p

  unfoldable pub read_int32 : ℕ → Got ℤ
  unfolding read_int
  read_int32 p = read_int (2 ^ 31) 4 p

  -- The bits of the `float32`.
  unfoldable pub read_float32 : ℕ → Got ℕ
  unfolding read_uint
  read_float32 p = read_uint 4 p

-- One byte, which is zero at the end.
unfoldable pub read_uchar : Bytes → ℕ → Got ℕ
unfolding read_uint
read_uchar content p = read_uint big content 1 p

unfoldable pub read_char : Bytes → ℕ → Got ℤ
unfolding read_int
read_char content p = read_int big content (2 ^ 7) 1 p

-- The position is restored.
unfoldable pub read_bytes_at : Bytes → ℕ → ℤ → ℕ → Got Bytes
unfolding read_bytes
read_bytes_at content n offset p =
    let got = read_bytes content n (seek_start offset p) in
    record { value = got.value; fault = got.fault; after = p }

-- The bytes before the first zero; at the end of the stream, those there were and an error.
unfoldable pub string_to_null : Bytes → ℕ → Got Bytes
string_to_null [] p = record { value = []; fault = some eof; after = p }
string_to_null (b ∷ bs) p =
    let rest = string_to_null bs (p + 1) in
    if b == 0
    then record { value = []; fault = none; after = p + 1 }
    else record rest { value = b ∷ rest.value }

unfoldable pub read_string_to_null : Bytes → ℕ → Got Bytes
unfolding string_to_null
read_string_to_null content p = string_to_null (drop p content) p

unfoldable pub read_string_to_null_at : Bytes → ℤ → ℕ → Got Bytes
unfolding read_string_to_null
read_string_to_null_at content offset p =
    let got = read_string_to_null content (seek_start offset p) in
    record { value = got.value; fault = got.fault; after = p }

unfoldable pub align_stream : ℕ → ℕ → ℕ
align_stream alignment p = if p % alignment == 0 then p else p + (alignment - p % alignment)
