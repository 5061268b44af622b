-- ===== src/Acb/Utf/Table.antt =====
-- What a table that was read holds.
use moe_asset_updater_client.Base.{
  ℕ, zero, suc, ◌+◌, ◌-◌, ◌%◌, ◌^◌, ◌<◌, ◌≡◌, sym, Bool, not, ◌&&◌, arith, ltb, leb, ◌==◌, length,
  All,
}
use mathlib.Core.Path.{subst}
use moe_asset_updater_client.Base.Outcome.{ok, ◌>>◌, guard, OnOk, OnOk->>=, OnOk-at}
use moe_asset_updater_client.Acb.Reader.{Reader, read_uint32, read_string0_at}
use moe_asset_updater_client.Acb.Utf.{
  UtfHeader, tried, bad_magic, no_columns, schema_too_large, out_of_bounds, parse_schema, read_rows,
  read_header, UtfTable, check_header, new_utf_table,
}
use moe_asset_updater_client.Acb.Utf.Layout.{Layout, dynamic_names, IsSchema, parse_schema-IsSchema}
use moe_asset_updater_client.Acb.Utf.Rows.{HasKeys, read_rows-HasKeys}

pub record IsTable (t : UtfTable) : Type 0 where
  pub some_field : 0 < t.header.number_of_fields
  pub columns : length t.schema.columns ≡ t.header.number_of_fields
  pub layout : Layout 0 t.schema.columns
  pub keys : t.schema.dynamic_keys ≡ dynamic_names t.schema.columns
  pub rows : length t.rows ≡ t.header.number_of_rows
  pub fields : All (HasKeys t.schema.constants t.schema.dynamic_keys) t.rows

has_field : (h : UtfHeader) → check_header h ≡ ok tt → 0 < h.number_of_fields
has_field h e =
    from_guard h.number_of_fields schema_fits
      (leb (h.row_offset + 8) size
        && leb ((h.string_table_offset + 8) % 2 ^ 32) size
        && leb ((h.data_offset + 8) % 2 ^ 32) size)
      e
  where
    schema_fits : Bool
    schema_fits = ltb ((h.row_offset + 8 + (2 ^ 32 - 0x20)) % 2 ^ 32) 0x8000

    size : ℕ
    size = (h.table_size + 8) % 2 ^ 32

    from_guard :
        (n : ℕ) (b c : Bool)
        → (guard (not (n == 0)) no_columns >> guard b schema_too_large >> guard c out_of_bounds)
          ≡ ok tt
        → 0 < n
    from_guard zero b c e = cc
    from_guard (suc n) b c e = omega arith

-- What the header's tests let through, and the whole.
module _ (r : Reader) where
  new_utf_table-OnOk : OnOk IsTable (new_utf_table r)
  unfolding new_utf_table
  new_utf_table-OnOk = OnOk->>= IsTable (tried (read_uint32 r)) _ λ (magic, r1) _.
      OnOk->>= IsTable (guard (magic == 0x40555446) bad_magic) _ λ _ _.
        OnOk->>= IsTable (read_header r1) _ λ h _. OnOk->>= IsTable (check_header h) _ λ _ valid.
          OnOk->>= IsTable
            (tried
              (read_string0_at ((h.string_table_offset + 8 + h.table_name_offset) % 2 ^ 32) r1))
            _
            λ name _. OnOk->>= IsTable (parse_schema h r1) _ λ schema parsed.
              OnOk->>= IsTable (read_rows h r1 schema) _ λ rows filled.
                let inv =
                  OnOk-at (IsSchema h.number_of_fields) (parse_schema h r1)
                    (parse_schema-IsSchema h r1) parsed in
                let given =
                  OnOk-at
                    (λ rows.
                      (length rows ≡ h.number_of_rows)
                      × All (HasKeys schema.constants (dynamic_names schema.columns)) rows)
                    (read_rows h r1 schema) (read_rows-HasKeys h r1 schema) filled in
                record {
                  some_field = has_field h valid;
                  columns = inv.count;
                  layout = inv.layout;
                  keys = inv.keys;
                  rows = given.0;
                  fields =
                      subst (λ names. All (HasKeys schema.constants names) rows) (sym inv.keys)
                        given.1;
                }

-- A table that NewUTFTable returns has at least one column, and as many columns and rows as its header
-- says; the keys that it names dynamic are those of the columns with values in the rows; each such
-- column starts where the ones before it end, modulo 2^32; and each row has exactly the keys of the
-- constants and the dynamic ones.
pub new_utf_table-IsTable : (r : Reader) {t : UtfTable} → new_utf_table r ≡ ok t → IsTable t
new_utf_table-IsTable r = OnOk-at IsTable (new_utf_table r) (new_utf_table-OnOk r)
