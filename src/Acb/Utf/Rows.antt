-- ===== src/Acb/Utf/Rows.antt =====
-- Which keys the rows have.
use moe_asset_updater_client.Base.{
  ℕ, zero, suc, ◌+◌, ◌*◌, ◌%◌, ◌^◌, ◌≡◌, refl, sym, ap, ◌∙◌, Bool, true, false, not, ◌&&◌, ◌||◌,
  List, [], ◌∷◌, arith, Bytes, equal, equal_iff, length, All,
}
use mathlib.Core.Path.{subst}
use moe_asset_updater_client.Base.Outcome.{◌>>=◌, OnOk, OnOk->>=, OnOk-at, OnOk-map, OnOk-if}
use moe_asset_updater_client.Acb.Reader.{Reader, seek}
use moe_asset_updater_client.Acb.Utf.{
  UtfHeader, ColumnSchema, Value, Row, put_field, read_column_value, Schema, is_default, is_row,
  resolve_promise, resolve_constants, read_fields, rows_from, read_rows,
}
use moe_asset_updater_client.Acb.Utf.Layout.{dynamic_names}

abbrev pub has_key : Bytes → Row → Bool
has_key k [] = false
has_key k ((j, v) ∷ row) = equal k j || has_key k row

abbrev pub has_name : Bytes → List Bytes → Bool
has_name k [] = false
has_name k (j ∷ names) = equal k j || has_name k names

-- A row has the keys of the constants and these.
abbrev pub HasKeys : Row → List Bytes → Row → Type 0
HasKeys constants keys row = (k : Bytes) → has_key k row ≡ (has_key k constants || has_name k keys)

has_key-put_field :
    (k j : Bytes) (v : Value) (row : Row)
    → has_key k (put_field j v row) ≡ (equal k j || has_key k row)
unfolding put_field
has_key-put_field k j v [] = refl
has_key-put_field k j v ((i, u) ∷ row) =
    ground (arith, has_key-put_field k j v row, equal_iff j i, equal_iff k i, equal_iff k j)

names_without :
    (c : ColumnSchema) (cols : List ColumnSchema)
    → (not (is_row c.flag) || is_default c.flag) ≡ true
    → dynamic_names (c ∷ cols) ≡ dynamic_names cols
names_without c cols e = rw (apart (is_row c.flag) (is_default c.flag) e) refl
  where
    apart : (a b : Bool) → (not a || b) ≡ true → (not b && a) ≡ false
    apart a b e = ground arith

names_with :
    (c : ColumnSchema) (cols : List ColumnSchema)
    → (not (is_row c.flag) || is_default c.flag) ≡ false
    → dynamic_names (c ∷ cols) ≡ c.name ∷ dynamic_names cols
names_with c cols e = rw (both (is_row c.flag) (is_default c.flag) e) refl
  where
    both : (a b : Bool) → (not a || b) ≡ false → (not b && a) ≡ true
    both a b e = ground arith

All-HasKeys :
    (before after : Row) (names : List Bytes)
    → HasKeys after [] before
    → (rows : List Row) → All (HasKeys before names) rows
    → All (HasKeys after names) rows
All-HasKeys before after names same [] keys = tt
All-HasKeys before after names same (row ∷ rows) (first, rest) = (
  (λ k. first k ∙ ap (λ b. b || has_name k names) (same k ∙ or_false (has_key k after))),
  All-HasKeys before after names same rows rest,
)
  where
    or_false : (b : Bool) → (b || false) ≡ b
    or_false b = ground arith

-- The columns give the rows their keys.
module _ (h : UtfHeader) (r : Reader) where
  read_fields-HasKeys :
      (row_start : ℕ) (cols : List ColumnSchema) (row : Row)
      → OnOk (HasKeys row (dynamic_names cols)) (read_fields h r row_start cols row)
  unfolding read_fields
  read_fields-HasKeys row_start [] row = λ k. ground arith
  read_fields-HasKeys row_start (c ∷ cols) row =
      OnOk-if (HasKeys row (dynamic_names (c ∷ cols))) (not (is_row c.flag) || is_default c.flag) _
        _
        (λ e.
          subst (λ names. OnOk (HasKeys row names) (read_fields h r row_start cols row))
            (sym (names_without c cols e)) (read_fields-HasKeys row_start cols row))
        (λ e.
          subst
            (λ names. OnOk (HasKeys row names) (
              read_column_value h c.typ false (seek (row_start + c.offset) r) >>= λ (value, _).
              resolve_promise h r value >>= λ resolved.
              read_fields h r row_start cols (put_field c.name resolved row)))
            (sym (names_with c cols e))
            (OnOk->>= (HasKeys row (c.name ∷ dynamic_names cols))
              (read_column_value h c.typ false (seek (row_start + c.offset) r)) _
              λ (value, _) _.
                OnOk->>= (HasKeys row (c.name ∷ dynamic_names cols)) (resolve_promise h r value) _
                  λ resolved _.
                    OnOk-map _ (read_fields h r row_start cols (put_field c.name resolved row))
                      (read_fields-HasKeys row_start cols (put_field c.name resolved row))
                      λ after keys k.
                        keys k
                        ∙ ap (λ b. b || has_name k (dynamic_names cols))
                            (has_key-put_field k c.name resolved row)
                        ∙ swap (equal k c.name) (has_key k row) (has_name k (dynamic_names cols))))
    where
      swap : (a b c : Bool) → ((a || b) || c) ≡ (b || (a || c))
      swap a b c = ground arith

  resolve_constants-keys :
      (constants : Row) → OnOk (HasKeys constants []) (resolve_constants h r constants)
  unfolding resolve_constants
  resolve_constants-keys [] = λ k. refl
  resolve_constants-keys ((j, v) ∷ constants) =
      OnOk->>= (HasKeys ((j, v) ∷ constants) []) (resolve_promise h r v) _ λ value _.
        OnOk->>= (HasKeys ((j, v) ∷ constants) []) (resolve_constants h r constants) _ λ resolved e.
          let rest =
            OnOk-at (HasKeys constants []) (resolve_constants h r constants)
              (resolve_constants-keys constants) e in
          λ k. step (equal k j) (has_key k resolved) (has_key k constants) (rest k)
    where
      step : (a b c : Bool) → b ≡ (c || false) → (a || b) ≡ ((a || c) || false)
      step a b c e = ground arith

  rows_from-HasKeys :
      (cols : List ColumnSchema) (constants : Row) (left i : ℕ)
      → OnOk
          (λ rows. (length rows ≡ left) × All (HasKeys constants (dynamic_names cols)) rows)
          (rows_from h r cols constants left i)
  unfolding rows_from
  rows_from-HasKeys cols constants zero i = (refl, tt)
  rows_from-HasKeys cols constants (suc left) i =
      OnOk->>= _ (read_fields h r ((h.row_offset + 8 + i * h.row_size) % 2 ^ 32) cols constants) _
        λ row at. OnOk->>= _ (rows_from h r cols constants left (i + 1)) _ λ rows rest.
          let all =
            OnOk-at
              (λ rows. (length rows ≡ left) × All (HasKeys constants (dynamic_names cols)) rows)
              (rows_from h r cols constants left (i + 1))
              (rows_from-HasKeys cols constants left (i + 1)) rest in
          (
            omega (arith, all.0),
            (
              OnOk-at (HasKeys constants (dynamic_names cols))
                  (read_fields h r ((h.row_offset + 8 + i * h.row_size) % 2 ^ 32) cols constants)
                  (read_fields-HasKeys ((h.row_offset + 8 + i * h.row_size) % 2 ^ 32) cols
                    constants)
                  at,
              all.1,
            ),
          )

  pub read_rows-HasKeys :
      (s : Schema)
      → OnOk
          (λ rows.
            (length rows ≡ h.number_of_rows)
            × All (HasKeys s.constants (dynamic_names s.columns)) rows)
          (read_rows h r s)
  unfolding read_rows
  read_rows-HasKeys s = OnOk->>= _ (resolve_constants h r s.constants) _ λ constants e.
      let same =
        OnOk-at (HasKeys s.constants []) (resolve_constants h r s.constants)
          (resolve_constants-keys s.constants) e in
      OnOk-map _ (rows_from h r s.columns constants h.number_of_rows 0)
        (rows_from-HasKeys s.columns constants h.number_of_rows 0)
        λ rows (count, keys).
          (count, All-HasKeys constants s.constants (dynamic_names s.columns) same rows keys)
