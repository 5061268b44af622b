-- ===== src/Acb/Utf.antt =====
-- The tables of a sound bank: `NewUTFTable` and its parts, of internal/cricodecs/acb/utf.go, with the
-- flags and types of columns of const.go. A Go map is a list of keys and values. An offset is a
-- `uint32`, and its wrap-around is written out. The texts of the errors are not modelled.
pub mod Layout
pub mod Rows
pub mod Table
use moe_asset_updater_client.Base.{
  ℕ, zero, suc, ◌+◌, ◌-◌, ◌*◌, ◌%◌, ◌^◌, bit_and, Bool, true, false, not, ◌&&◌, ◌||◌, List, [], ◌∷◌,
  ◌++◌, ltb, leb, ◌==◌, if◌then◌else◌, Bytes, codes, equal, length,
}
use moe_asset_updater_client.Base.Int.{ℤ}
use moe_asset_updater_client.Base.Outcome.{Outcome, ok, err, panic, ◌>>=◌, ◌>>◌, guard}
use moe_asset_updater_client.Acb.Reader.{
  Reader, ReadError, Read, seek, read_uint8, read_uint16, read_uint32, read_uint64, read_int8,
  read_int16, read_int32, read_float32, read_bytes_at, read_string0_at,
}

pub record UtfHeader : Type 0 where
  pub table_size : ℕ
  pub version : ℕ
  pub row_offset : ℕ
  pub string_table_offset : ℕ
  pub data_offset : ℕ
  pub table_name_offset : ℕ
  pub number_of_fields : ℕ
  pub row_size : ℕ
  pub number_of_rows : ℕ

pub record ColumnSchema : Type 0 where
  pub flag : ℕ
  pub typ : ℕ
  pub name : Bytes
  pub offset : ℕ

pub data Value : Type 0 where
  uint_value : ℕ → Value
  int_value : ℤ → Value
  -- the bits of a `float32`
  float_value : ℕ → Value
  string_value : Bytes → Value
  bytes_value : Bytes → Value
  data_promise : ℕ → ℕ → Value
  string_promise : ℕ → Value

abbrev pub Row : Type 0
Row = List (Bytes × Value)

-- `m[key] = value`.
unfoldable pub put_field : Bytes → Value → Row → Row
unfolding equal
put_field k v [] = (k, v) ∷ []
put_field k v ((j, u) ∷ row) =
    let rest = put_field k v row in if equal k j then (k, v) ∷ row else (j, u) ∷ rest

pub data UtfError : Type 0 where
  read_failed : ReadError → UtfError
  bad_magic no_columns schema_too_large out_of_bounds unknown_flag unknown_type : UtfError

abbrev pub tried : {A : Type 0} → Outcome ReadError A → Outcome UtfError A
tried (ok a) = ok a
tried (err e) = err (read_failed e)
tried panic = panic

abbrev pub uint32 : ℕ
uint32 = 2 ^ 32

unfoldable pub column_value_size : ℕ → Outcome UtfError ℕ
column_value_size typ =
    if leb typ 0x01
    then ok 1
    else if leb typ 0x03
    then ok 2
    else if leb typ 0x05 || (typ == 0x08) || (typ == 0x0A)
    then ok 4
    else if (typ == 0x06) || (typ == 0x0B)
    then ok 8
    else err unknown_type

-- The value of a type whose reader gives it at once.
abbrev pub value_of : {A : Type 0} → (A → Value) → Read A → Outcome UtfError (Value × Reader)
value_of f m = tried m >>= λ (a, r). ok (f a, r)

abbrev pub data_value : UtfHeader → Bool → Reader → Outcome UtfError (Value × Reader)
data_value h is_constant r = tried (read_uint32 r) >>= λ (offset, r).
    tried (read_uint32 r) >>= λ (size, r).
    let at_once = tried (read_bytes_at size ((h.data_offset + 8 + offset) % uint32) r) >>= λ b.
    ok (bytes_value b, r) in
    if is_constant then ok (data_promise offset size, r) else at_once

abbrev pub text_value : UtfHeader → Bool → Reader → Outcome UtfError (Value × Reader)
text_value h is_constant r = tried (read_uint32 r) >>= λ (offset, r).
    let at_once = tried (read_string0_at ((h.string_table_offset + 8 + offset) % uint32) r) >>= λ s.
    ok (string_value s, r) in
    if is_constant then ok (string_promise offset, r) else at_once

unfoldable pub read_column_value : UtfHeader → ℕ → Bool → Reader → Outcome UtfError (Value × Reader)
unfolding read_uint8 read_uint16 read_uint32 read_uint64 read_int8 read_int16 read_int32
    read_float32 read_bytes_at read_string0_at
read_column_value h typ is_constant r =
    if typ == 0x0B
    then data_value h is_constant r
    else if typ == 0x0A
    then text_value h is_constant r
    else if typ == 0x08
    then value_of float_value (read_float32 r)
    else if typ == 0x06
    then value_of uint_value (read_uint64 r)
    else if typ == 0x05
    then value_of int_value (read_int32 r)
    else if typ == 0x04
    then value_of uint_value (read_uint32 r)
    else if typ == 0x03
    then value_of int_value (read_int16 r)
    else if typ == 0x02
    then value_of uint_value (read_uint16 r)
    else if typ == 0x01
    then value_of int_value (read_int8 r)
    else if typ == 0x00
    then value_of uint_value (read_uint8 r)
    else err unknown_type

-- What is known of the columns so far, in their order, and the offset of the next one in a row.
pub record Schema : Type 0 where
  pub columns : List ColumnSchema
  pub dynamic_keys : List Bytes
  pub constants : Row
  pub row_column_offset : ℕ

abbrev pub empty_schema : Schema
empty_schema = record { columns = []; dynamic_keys = []; constants = []; row_column_offset = 0 }

abbrev pub is_default : ℕ → Bool
is_default flag = not (bit_and flag 0x20 == 0)

abbrev pub is_row : ℕ → Bool
is_row flag = not (bit_and flag 0x40 == 0)

abbrev pub is_known : ℕ → Bool
is_known flag = not (flag == 0) && not (bit_and flag 0x10 == 0) && (bit_and flag 0x80 == 0)

abbrev pub constant_column : Schema → ColumnSchema → Value → Schema
constant_column s col value = record s {
  columns = s.columns ++ col ∷ [];
  constants = put_field col.name value s.constants;
}

abbrev pub row_column : Schema → ColumnSchema → ℕ → Schema
row_column s col size = record s {
  columns = s.columns ++ (record col { offset = s.row_column_offset }) ∷ [];
  dynamic_keys = s.dynamic_keys ++ col.name ∷ [];
  row_column_offset = (s.row_column_offset + size) % uint32;
}

-- A column with a known name, flag and size of values.
abbrev pub add_column :
    UtfHeader → Schema → ColumnSchema → ℕ → Reader → Outcome UtfError (Schema × Reader)
add_column h s col size r =
    let constant =
      read_column_value h col.typ true r >>= λ (value, r). ok (constant_column s col value, r) in
    if is_default col.flag
    then constant
    else if is_row col.flag
    then ok (row_column s col size, r)
    else ok (record s { columns = s.columns ++ col ∷ [] }, r)

-- One round of the loop.
unfoldable pub parse_column : UtfHeader → Schema → Reader → Outcome UtfError (Schema × Reader)
unfolding read_uint8 read_uint32 read_string0_at column_value_size read_column_value put_field
parse_column h s r = tried (read_uint8 r) >>= λ (info, r).
    tried (read_uint32 r) >>= λ (name_offset, r).
    let flag = bit_and info 0xF0 in
    let typ = bit_and info 0x0F in
    guard (is_known flag) unknown_flag
    >> (tried (read_string0_at ((h.string_table_offset + 8 + name_offset) % uint32) r) >>= λ name.
        column_value_size typ >>= λ size.
        add_column h s (record { flag = flag; typ = typ; name = name; offset = 0 }) size r)

-- The loop, with the fields left.
unfoldable pub parse_columns : UtfHeader → ℕ → Schema → Reader → Outcome UtfError Schema
unfolding parse_column
parse_columns h zero s r = ok s
parse_columns h (suc left) s r = parse_column h s r >>= λ (s, r). parse_columns h left s r

unfoldable pub parse_schema : UtfHeader → Reader → Outcome UtfError Schema
unfolding parse_columns
parse_schema h r = parse_columns h h.number_of_fields empty_schema (seek 0x20 r)

unfoldable pub resolve_promise : UtfHeader → Reader → Value → Outcome UtfError Value
unfolding read_bytes_at read_string0_at
resolve_promise h r (data_promise offset size) =
    tried (read_bytes_at size ((h.data_offset + 8 + offset) % uint32) r) >>= λ b. ok (bytes_value b)
resolve_promise h r (string_promise offset) =
    tried (read_string0_at ((h.string_table_offset + 8 + offset) % uint32) r) >>= λ s.
    ok (string_value s)
resolve_promise h r (uint_value n) = ok (uint_value n)
resolve_promise h r (int_value n) = ok (int_value n)
resolve_promise h r (float_value n) = ok (float_value n)
resolve_promise h r (string_value s) = ok (string_value s)
resolve_promise h r (bytes_value b) = ok (bytes_value b)

unfoldable pub resolve_constants : UtfHeader → Reader → Row → Outcome UtfError Row
unfolding resolve_promise
resolve_constants h r [] = ok []
resolve_constants h r ((k, v) ∷ row) = resolve_promise h r v >>= λ value.
    resolve_constants h r row >>= λ resolved. ok ((k, value) ∷ resolved)

-- The fields of one row that stand in it, from its start on.
unfoldable pub read_fields : UtfHeader → Reader → ℕ → List ColumnSchema → Row → Outcome UtfError Row
unfolding read_column_value resolve_promise put_field
read_fields h r row_start [] row = ok row
read_fields h r row_start (col ∷ cols) row =
    let skipped = read_fields h r row_start cols row in
    let taken =
      read_column_value h col.typ false (seek (row_start + col.offset) r) >>= λ (value, _).
      resolve_promise h r value >>= λ resolved.
      read_fields h r row_start cols (put_field col.name resolved row) in
    if not (is_row col.flag) || is_default col.flag then skipped else taken

-- The rows from an index on, with the rows left.
unfoldable pub rows_from :
    UtfHeader → Reader → List ColumnSchema → Row → ℕ → ℕ → Outcome UtfError (List Row)
unfolding read_fields
rows_from h r cols constants zero i = ok []
rows_from h r cols constants (suc left) i =
    read_fields h r ((h.row_offset + 8 + i * h.row_size) % uint32) cols constants >>= λ row.
    rows_from h r cols constants left (i + 1) >>= λ rows. ok (row ∷ rows)

unfoldable pub read_rows : UtfHeader → Reader → Schema → Outcome UtfError (List Row)
unfolding rows_from resolve_constants
read_rows h r s = resolve_constants h r s.constants >>= λ constants.
    rows_from h r s.columns constants h.number_of_rows 0

unfoldable pub read_header : Reader → Outcome UtfError UtfHeader
unfolding read_uint16 read_uint32
read_header r = tried (read_uint32 r) >>= λ (table_size, r).
    tried (read_uint16 r) >>= λ (version, r). tried (read_uint16 r) >>= λ (row_offset, r).
    tried (read_uint32 r) >>= λ (string_table_offset, r).
    tried (read_uint32 r) >>= λ (data_offset, r).
    tried (read_uint32 r) >>= λ (table_name_offset, r).
    tried (read_uint16 r) >>= λ (number_of_fields, r). tried (read_uint16 r) >>= λ (row_size, r).
    tried (read_uint32 r) >>= λ (number_of_rows, r). ok (record {
      table_size = table_size;
      version = version;
      row_offset = row_offset;
      string_table_offset = string_table_offset;
      data_offset = data_offset;
      table_name_offset = table_name_offset;
      number_of_fields = number_of_fields;
      row_size = row_size;
      number_of_rows = number_of_rows;
    })

pub record UtfTable : Type 0 where
  pub header : UtfHeader
  pub name : Bytes
  pub schema : Schema
  pub rows : List Row

-- The header's offsets count from byte 8 on.
abbrev pub check_header : UtfHeader → Outcome UtfError (Unit {0})
check_header h =
    let size = (h.table_size + 8) % uint32 in
    guard (not (h.number_of_fields == 0)) no_columns
    >> guard (ltb ((h.row_offset + 8 + (uint32 - 0x20)) % uint32) 0x8000) schema_too_large
    >> guard
        (leb (h.row_offset + 8) size
          && leb ((h.string_table_offset + 8) % uint32) size
          && leb ((h.data_offset + 8) % uint32) size)
        out_of_bounds

unfoldable pub new_utf_table : Reader → Outcome UtfError UtfTable
unfolding read_uint32 read_header parse_schema read_rows read_string0_at
new_utf_table r = tried (read_uint32 r) >>= λ (magic, r).
    guard (magic == 0x40555446) bad_magic
    >> (read_header r >>= λ h.
        check_header h
        >> (tried (read_string0_at ((h.string_table_offset + 8 + h.table_name_offset) % uint32) r)
            >>= λ name. parse_schema h r >>= λ schema. read_rows h r schema >>= λ rows.
                ok (record { header = h; name = name; schema = schema; rows = rows })))
