-- ===== src/Usm/Table.antt =====
-- The tables in a USM file: `readColumnData`, `getUTFTable` and `extractFilename` of
-- internal/cricodecs/usm/usm.go. Their reads drop their errors. A Go map is the list of its
-- assignments, the latest first; a value `nil` is none. The strings and the data of a table are byte
-- slices both.
use moe_asset_updater_client.Base.{
  ℕ, zero, suc, ◌+◌, ◌-◌, ◌%◌, ◌^◌, bit_and, ◌||◌, not, Option, none, some, List, [], ◌∷◌, ◌==◌,
  if◌then◌else◌, Bytes, codes, equal,
}
use moe_asset_updater_client.Base.Int.{sub_ℕ}
use moe_asset_updater_client.Acb.Utf.{Value, uint_value, int_value, float_value, bytes_value}
use moe_asset_updater_client.Acb.Fields.{as_bytes}
use moe_asset_updater_client.Binary.{
  Got, big, faulty, seek_start, read_bytes, read_uint16, read_uint32, read_uint64, read_int16,
  read_int32, read_float32, read_uchar, read_char, read_bytes_at, read_string_to_null_at,
}

abbrev pub Cell : Type 0
Cell = Option Value

abbrev pub TableRow : Type 0
TableRow = List (Bytes × Cell)

-- `row[key]`, which is nil where there is no such key.
unfoldable pub cell : Bytes → TableRow → Cell
unfolding equal
cell k [] = none
cell k ((j, v) ∷ row) = let rest = cell k row in if equal k j then v else rest

abbrev with_value : {A : Type 0} → (A → Value) → Got A → Cell × ℕ
with_value f got = (some (f got.value), got.after)

module _ (content : Bytes) where
  -- `case ColumnTypeData` and `case ColumnTypeString`.
  unfoldable pub read_data : ℕ → ℕ → Cell × ℕ
  unfolding read_bytes_at read_uint32
  read_data data_offset p =
      let offset = read_uint32 big content p in
      let size = read_uint32 big content offset.after in
      with_value bytes_value
        (read_bytes_at content size.value (sub_ℕ (data_offset + offset.value) 24) size.after)

  unfoldable pub read_text : ℕ → ℕ → Cell × ℕ
  unfolding read_string_to_null_at read_uint32
  read_text string_table_offset p =
      let offset = read_uint32 big content p in
      with_value bytes_value (
        read_string_to_null_at content (sub_ℕ (string_table_offset + offset.value) 24) offset.after)

  -- The value, and the position after it.
  unfoldable pub read_column_data : ℕ → ℕ → ℕ → ℕ → Cell × ℕ
  unfolding read_data read_text read_uint16 read_uint32 read_uint64 read_int16 read_int32
      read_float32 read_uchar read_char
  read_column_data column_type string_table_offset data_offset p =
      if column_type == 0x0B
      then read_data data_offset p
      else if column_type == 0x0A
      then read_text string_table_offset p
      else if column_type == 0x08
      then with_value float_value (read_float32 big content p)
      else if column_type == 0x06
      then with_value uint_value (read_uint64 big content p)
      else if column_type == 0x05
      then with_value int_value (read_int32 big content p)
      else if column_type == 0x04
      then with_value uint_value (read_uint32 big content p)
      else if column_type == 0x03
      then with_value int_value (read_int16 big content p)
      else if column_type == 0x02
      then with_value uint_value (read_uint16 big content p)
      else if column_type == 0x01
      then with_value int_value (read_char content p)
      else if column_type == 0x00
      then with_value uint_value (read_uchar content p)
      else (none, p)

pub record FieldInfo : Type 0 where
  pub name : Bytes
  pub column_type : ℕ
  pub constant : Cell

-- The fields and the rows of the table data, whose offsets count from 24 bytes before it.
module _ (table_data : Bytes) (string_table_offset data_offset : ℕ) where
  -- The constant of a field and the position after it.
  unfoldable pub read_constant : ℕ → ℕ → ℕ → Cell × ℕ
  unfolding read_column_data
  read_constant occurrence type_key p =
      if (occurrence == 0x30) || (occurrence == 0x70)
      then read_column_data table_data type_key string_table_offset data_offset p
      else (none, p)

  -- `for i := 0; i < int(numberOfFields); i++`.
  unfoldable pub read_field_infos : ℕ → ℕ → List FieldInfo × ℕ
  unfolding read_constant read_uchar read_uint32 read_string_to_null_at
  read_field_infos zero p = ([], p)
  read_field_infos (suc n) p =
      let field_type = read_uchar table_data p in
      let name_offset = read_uint32 big table_data field_type.after in
      let name =
        read_string_to_null_at table_data (sub_ℕ (string_table_offset + name_offset.value) 24)
          name_offset.after in
      let type_key = bit_and field_type.value 0x0F in
      let constant = read_constant (bit_and field_type.value 0xF0) type_key name.after in
      let rest = read_field_infos n constant.1 in
      (record { name = name.value; column_type = type_key; constant = constant.0 } ∷ rest.0, rest.1)

  -- A constant, or the value that is read.
  abbrev pub cell_of : FieldInfo → ℕ → Cell → Cell × ℕ
  cell_of field p (some v) = (some v, p)
  cell_of field p none =
      read_column_data table_data field.column_type string_table_offset data_offset p

  unfoldable pub fill_row : List FieldInfo → TableRow → ℕ → TableRow × ℕ
  unfolding read_column_data
  fill_row [] row p = (row, p)
  fill_row (field ∷ fields) row p =
      let got = cell_of field p field.constant in fill_row fields ((field.name, got.0) ∷ row) got.1

  -- `for n := 0; n < int(numberOfRows); n++`.
  unfoldable pub fill_rows : List FieldInfo → ℕ → ℕ → List TableRow
  unfolding fill_row
  fill_rows fields zero p = []
  fill_rows fields (suc n) p = let got = fill_row fields [] p in got.0 ∷ fill_rows fields n got.1

module _ (content : Bytes) where
  -- What follows the signature.
  unfoldable pub utf_table_after : ℕ → List TableRow × ℕ
  utf_table_after p =
      let table_size = read_uint32 big content p in
      let row_offset = read_uint16 big content table_size.after in
      let string_table_offset = read_uint32 big content row_offset.after in
      let data_offset = read_uint32 big content string_table_offset.after in
      let table_name_offset = read_uint32 big content data_offset.after in
      let number_of_fields = read_uint16 big content table_name_offset.after in
      let row_size = read_uint16 big content number_of_fields.after in
      let number_of_rows = read_uint32 big content row_size.after in
      let table_data =
        read_bytes content ((table_size.value + (2 ^ 32 - 24)) % 2 ^ 32) number_of_rows.after in
      let fields =
        read_field_infos table_data.value string_table_offset.value data_offset.value
          number_of_fields.value 0 in
      (
        fill_rows table_data.value string_table_offset.value data_offset.value fields.0
            number_of_rows.value (seek_start (sub_ℕ row_offset.value 24) fields.1),
        table_data.after,
      )

  abbrev with_rows : List TableRow × ℕ → Option (List TableRow) × ℕ
  with_rows (rows, after) = (some rows, after)

  -- None where the signature is wrong; and the position after the table.
  unfoldable pub get_utf_table : ℕ → Option (List TableRow) × ℕ
  get_utf_table p =
      let sig = read_bytes content 4 p in
      if faulty sig.fault || not (equal sig.value (codes "@UTF"))
      then (none, sig.after)
      else with_rows (utf_table_after sig.after)

abbrev pub last_row : TableRow → List TableRow → TableRow
last_row row [] = row
last_row row (next ∷ rows) = last_row next rows

abbrev pub or_fallback : Bytes → Option Bytes → Bytes
or_fallback fallback none = fallback
or_fallback fallback (some name) = name

unfoldable pub extract_filename : List TableRow → Bytes → Bytes
unfolding cell
extract_filename [] fallback_name = fallback_name
extract_filename (row ∷ rows) fallback_name =
    or_fallback fallback_name (as_bytes (cell (codes "filename") (last_row row rows)))
