-- ===== src/Usm/Metadata/Text.antt =====
-- The values that the metadata shows as text: the functions of internal/cricodecs/usm/metadata.go
-- from `stringifyMetadataValue` to `isMostlyText`, with Go's `utf8.Valid`, the runes of a string,
-- `unicode.IsControl`, `unicode.IsSpace` and `hex.EncodeToString`. The decoder of Shift JIS is an
-- argument.
use moe_asset_updater_client.Base.{
  ℕ, zero, suc, ◌+◌, ◌-◌, ◌*◌, ◌/◌, ◌%◌, Bool, true, false, not, ◌&&◌, ◌||◌, Option, none, some,
  List, [], ◌∷◌, ltb, leb, ◌==◌, if◌then◌else◌, length, take, Bytes,
}
use moe_asset_updater_client.Acb.Utf.{
  Value, uint_value, int_value, float_value, string_value, bytes_value, data_promise,
  string_promise,
}

-- `decodeShiftJIS`: none where it fails.
abbrev pub Decoder : Type 0
Decoder = Bytes → Option Bytes

-- A value as it goes into the JSON: a number as it is, a text, or the summary of other bytes with
-- their size, the start of their hexadecimal digits and whether that leaves some out.
pub data Normal : Type 0 where
  number : Value → Normal
  text : Bytes → Normal
  summary : ℕ → Bytes → Bool → Normal

-- `utf8.RuneError`.
abbrev pub rune_error : ℕ
rune_error = 0xFFFD

abbrev is_continuation : ℕ → Bool
is_continuation b = leb 0x80 b && leb b 0xBF

abbrev within : ℕ → ℕ → ℕ → Bool
within low high b = leb low b && leb b high

-- The rune at the start of a string and how many bytes it takes, or none where they are not UTF-8. The
-- second byte's range excludes what is too long, the surrogates and what is too large.
abbrev rune2 : ℕ → Bytes → Option (ℕ × ℕ)
rune2 a (b ∷ bs) = if is_continuation b then some (a % 32 * 64 + b % 64, 2) else none
rune2 a [] = none

abbrev rune3 : ℕ → Bytes → Option (ℕ × ℕ)
rune3 a (b ∷ c ∷ bs) =
    let low = if a == 0xE0 then 0xA0 else 0x80 in
    let high = if a == 0xED then 0x9F else 0xBF in
    if within low high b && is_continuation c
    then some ((a % 16 * 64 + b % 64) * 64 + c % 64, 3)
    else none
rune3 a _ = none

abbrev rune4 : ℕ → Bytes → Option (ℕ × ℕ)
rune4 a (b ∷ c ∷ d ∷ bs) =
    let low = if a == 0xF0 then 0x90 else 0x80 in
    let high = if a == 0xF4 then 0x8F else 0xBF in
    if within low high b && is_continuation c && is_continuation d
    then some (((a % 8 * 64 + b % 64) * 64 + c % 64) * 64 + d % 64, 4)
    else none
rune4 a _ = none

unfoldable pub decode_rune : ℕ → Bytes → Option (ℕ × ℕ)
decode_rune a rest =
    if ltb a 0x80
    then some (a, 1)
    else if within 0xC2 0xDF a
    then rune2 a rest
    else if within 0xE0 0xEF a
    then rune3 a rest
    else if within 0xF0 0xF4 a
    then rune4 a rest
    else none

-- `for _, r := range s`: the runes, where a byte that is not UTF-8 gives an error. The number is how
-- many bytes of the last rune are left to pass.
abbrev onto_runes : Option (ℕ × ℕ) → (ℕ → List ℕ) → List ℕ
onto_runes none later = rune_error ∷ later 0
onto_runes (some (r, size)) later = r ∷ later (size - 1)

unfoldable pub runes_from : Bytes → ℕ → List ℕ
unfolding decode_rune
runes_from [] skip = []
runes_from (a ∷ rest) zero = onto_runes (decode_rune a rest) (runes_from rest)
runes_from (a ∷ rest) (suc skip) = runes_from rest skip

-- `utf8.Valid`.
unfoldable pub valid_from : Bytes → ℕ → Bool
unfolding decode_rune
valid_from [] skip = true
valid_from (a ∷ rest) zero = elim (decode_rune a rest) [
  | none ↦ false
  | some (r, size) ↦ valid_from rest (size - 1)
]
valid_from (a ∷ rest) (suc skip) = valid_from rest skip

abbrev pub is_control : ℕ → Bool
is_control r = ltb r 0x20 || within 0x7F 0x9F r

abbrev pub is_space : ℕ → Bool
is_space r =
    within 0x09 0x0D r
    || (r == 0x20)
    || (r == 0x85)
    || (r == 0xA0)
    || (r == 0x1680)
    || within 0x2000 0x200A r
    || (r == 0x2028)
    || (r == 0x2029)
    || (r == 0x202F)
    || (r == 0x205F)
    || (r == 0x3000)

-- The loop of `isMostlyText`.
unfoldable pub all_text : List ℕ → Bool
all_text [] = true
all_text (r ∷ rs) =
    let rest = all_text rs in
    if r == rune_error then false else if is_control r && not (is_space r) then false else rest

unfoldable pub is_mostly_text : Bytes → Bool
unfolding runes_from all_text
is_mostly_text s = all_text (runes_from s 0)

abbrev hex_digit : ℕ → ℕ
hex_digit n = if ltb n 10 then b'0' + n else b'a' + (n - 10)

unfoldable pub encode_to_string : Bytes → Bytes
encode_to_string [] = []
encode_to_string (b ∷ bs) = hex_digit (b / 16) ∷ hex_digit (b % 16) ∷ encode_to_string bs

unfoldable pub summarize_binary : Bytes → Normal
unfolding encode_to_string
summarize_binary [] = summary 0 [] false
summarize_binary (b ∷ bs) =
    let size = length (b ∷ bs) in summary size (encode_to_string (take 32 (b ∷ bs))) (ltb 32 size)

module _ (decoder : Decoder) where
  abbrev text_if_mostly : Option Bytes → Option Bytes
  text_if_mostly none = none
  text_if_mostly (some s) = if is_mostly_text s then some s else none

  unfoldable pub decode_text_bytes : Bytes → Option Bytes
  unfolding valid_from is_mostly_text
  decode_text_bytes [] = some []
  decode_text_bytes (b ∷ bs) =
      if valid_from (b ∷ bs) 0 && is_mostly_text (b ∷ bs)
      then some (b ∷ bs)
      else text_if_mostly (decoder (b ∷ bs))

  unfoldable pub decode_text_string : Bytes → Option Bytes
  unfolding decode_text_bytes valid_from is_mostly_text
  decode_text_string s = if valid_from s 0 && is_mostly_text s then some s else decode_text_bytes s

  abbrev or_else : {A : Type 0} → (Bytes → A) → A → Option Bytes → A
  or_else f a none = a
  or_else f a (some s) = f s

  unfoldable pub stringify_bytes : Bytes → Bytes
  unfolding decode_text_bytes encode_to_string
  stringify_bytes bytes = or_else (λ s. s) (encode_to_string bytes) (decode_text_bytes bytes)

  -- None where the value is neither text nor bytes.
  unfoldable pub stringify_metadata_value : Value → Option Bytes
  unfolding decode_text_string stringify_bytes encode_to_string
  stringify_metadata_value (bytes_value v) = some (stringify_bytes v)
  stringify_metadata_value (string_value v) =
      some (or_else (λ s. s) (encode_to_string v) (decode_text_string v))
  stringify_metadata_value _ = none

  -- The values of a table are neither lists nor maps.
  unfoldable pub normalize_metadata_value : Value → Normal
  unfolding decode_text_string decode_text_bytes summarize_binary
  normalize_metadata_value (string_value v) =
      or_else text (summarize_binary v) (decode_text_string v)
  normalize_metadata_value (bytes_value v) = or_else text (summarize_binary v) (decode_text_bytes v)
  normalize_metadata_value (uint_value n) = number (uint_value n)
  normalize_metadata_value (int_value n) = number (int_value n)
  normalize_metadata_value (float_value n) = number (float_value n)
  normalize_metadata_value (data_promise offset size) = number (data_promise offset size)
  normalize_metadata_value (string_promise offset) = number (string_promise offset)
