-- ===== src/Acb/Fields.antt =====
-- The fields of a row, of internal/cricodecs/acb/helpers.go.
use moe_asset_updater_client.Base.{◌^◌, Option, none, some, [], ◌∷◌, if◌then◌else◌, Bytes, equal}
use moe_asset_updater_client.Base.Int.{ℤ, pos}
use moe_asset_updater_client.Acb.Reader.{signed}
use moe_asset_updater_client.Acb.Utf.{
  Row, Value, uint_value, int_value, float_value, string_value, bytes_value, data_promise,
  string_promise,
}

-- `val, ok := row[key]`.
unfoldable pub field : Bytes → Row → Option Value
unfolding equal
field k [] = none
field k ((j, v) ∷ row) = let rest = field k row in if equal k j then some v else rest

abbrev pub as_bytes : Option Value → Option Bytes
as_bytes (some (bytes_value b)) = some b
as_bytes (some (uint_value n)) = none
as_bytes (some (int_value n)) = none
as_bytes (some (float_value n)) = none
as_bytes (some (string_value s)) = none
as_bytes (some (data_promise o n)) = none
as_bytes (some (string_promise o)) = none
as_bytes none = none

-- None where the field is missing or holds something else: both are errors.
unfoldable pub get_bytes_field : Row → Bytes → Option Bytes
unfolding field
get_bytes_field row key = as_bytes (field key row)

abbrev pub as_string : Option Value → Bytes
as_string (some (string_value s)) = s
as_string (some (bytes_value b)) = []
as_string (some (uint_value n)) = []
as_string (some (int_value n)) = []
as_string (some (float_value n)) = []
as_string (some (data_promise o n)) = []
as_string (some (string_promise o)) = []
as_string none = []

unfoldable pub get_string_field : Row → Bytes → Bytes
unfolding field
get_string_field row key = as_string (field key row)

-- A `uint64` wraps around to a negative `int`.
abbrev pub as_int : Option Value → ℤ
as_int (some (uint_value n)) = signed (2 ^ 63) n
as_int (some (int_value n)) = n
as_int (some (string_value s)) = pos 0
as_int (some (bytes_value b)) = pos 0
as_int (some (float_value n)) = pos 0
as_int (some (data_promise o n)) = pos 0
as_int (some (string_promise o)) = pos 0
as_int none = pos 0

unfoldable pub get_int_field : Row → Bytes → ℤ
unfolding field
get_int_field row key = as_int (field key row)
