-- ===== src/Acb/Reader.antt =====
-- `Reader` of internal/cricodecs/acb/reader.go: typed reads from a stream with a position, which is
-- the content of a file or of a slice. A seek past the end is allowed and the next read fails. A
-- `float32` is kept as its bits.
use moe_asset_updater_client.Base.{
  ℕ, ◌+◌, ◌-◌, ◌*◌, ◌^◌, [], ◌∷◌, ltb, leb, ◌==◌, if◌then◌else◌, Bytes, length, take, drop,
}
use moe_asset_updater_client.Base.Int.{ℤ, pos, negsuc}
use moe_asset_updater_client.Base.Outcome.{Outcome, ok, err, ◌>>=◌}

pub record Reader : Type 0 where
  pub content : Bytes
  pub position : ℕ

pub data ReadError : Type 0 where
  eof unexpected_eof : ReadError

abbrev pub Read : Type 0 → Type 0
Read A = Outcome ReadError (A × Reader)

abbrev pub rest_of : Reader → Bytes
rest_of r = drop r.position r.content

abbrev pub seek : ℕ → Reader → Reader
seek offset r = record r { position = offset }

abbrev pub bytes_from : ℕ → Bytes → Outcome ReadError Bytes
bytes_from n rest =
    if leb n (length rest)
    then ok (take n rest)
    else if length rest == 0
    then err eof
    else err unexpected_eof

unfoldable pub read_bytes : ℕ → Reader → Read Bytes
read_bytes n r = bytes_from n (rest_of r) >>= λ got. ok (got, seek (r.position + n) r)

abbrev pub big_endian : ℕ → Bytes → ℕ
big_endian value [] = value
big_endian value (b ∷ bs) = big_endian (value * 256 + b) bs

unfoldable pub read_uint : ℕ → Reader → Read ℕ
unfolding read_bytes
read_uint n r = read_bytes n r >>= λ (got, after). ok (big_endian 0 got, after)

unfoldable pub read_uint8 : Reader → Read ℕ
unfolding read_uint
read_uint8 = read_uint 1

unfoldable pub read_uint16 : Reader → Read ℕ
unfolding read_uint
read_uint16 = read_uint 2

unfoldable pub read_uint32 : Reader → Read ℕ
unfolding read_uint
read_uint32 = read_uint 4

unfoldable pub read_uint64 : Reader → Read ℕ
unfolding read_uint
read_uint64 = read_uint 8

-- In two's complement, with half of the range.
abbrev pub signed : ℕ → ℕ → ℤ
signed half v = if ltb v half then pos v else negsuc (half + half - 1 - v)

unfoldable pub read_int8 : Reader → Read ℤ
unfolding read_uint
read_int8 r = read_uint 1 r >>= λ (v, after). ok (signed (2 ^ 7) v, after)

unfoldable pub read_int16 : Reader → Read ℤ
unfolding read_uint
read_int16 r = read_uint 2 r >>= λ (v, after). ok (signed (2 ^ 15) v, after)

unfoldable pub read_int32 : Reader → Read ℤ
unfolding read_uint
read_int32 r = read_uint 4 r >>= λ (v, after). ok (signed (2 ^ 31) v, after)

unfoldable pub read_float32 : Reader → Read ℕ
unfolding read_uint
read_float32 = read_uint 4

-- The position is restored.
unfoldable pub read_bytes_at : ℕ → ℕ → Reader → Outcome ReadError Bytes
read_bytes_at n offset r = bytes_from n (drop offset r.content)

-- The bytes before the first zero byte. Go reads them in pieces of 16.
unfoldable pub until_zero : Bytes → Outcome ReadError Bytes
until_zero [] = err eof
until_zero (b ∷ bs) = let rest = until_zero bs in if b == 0 then ok [] else rest >>= λ s. ok (b ∷ s)

unfoldable pub read_string0_at : ℕ → Reader → Outcome ReadError Bytes
unfolding until_zero
read_string0_at offset r = until_zero (drop offset r.content)
