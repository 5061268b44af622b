-- ===== src/Acb/Utf/Layout.antt =====
-- Where the columns of a row stand.
use moe_asset_updater_client.Base.{
  ℕ, zero, suc, ◌+◌, ◌%◌, ◌^◌, ◌≡◌, refl, sym, ap, ◌∙◌, ◌⊎◌, inl, inr, Bool, true, false, not, ◌&&◌,
  List, [], ◌∷◌, ◌++◌, append-nil, arith, bit_and, if◌then◌else◌, Bytes, length, length-append,
  Bool-cases,
}
use mathlib.Core.Path.{subst}
use moe_asset_updater_client.Base.Outcome.{ok, err, panic, guard, OnOk, OnOk->>=, OnOk-at, OnOk-if}
use moe_asset_updater_client.Acb.Reader.{Reader, seek, read_uint8, read_uint32, read_string0_at}
use moe_asset_updater_client.Acb.Utf.{
  UtfHeader, ColumnSchema, tried, column_value_size, read_column_value, Schema, empty_schema,
  is_default, is_row, is_known, unknown_flag, add_column, parse_column, parse_columns, parse_schema,
}

-- The column has a value in each row.
abbrev pub is_dynamic : ColumnSchema → Bool
is_dynamic c = not (is_default c.flag) && is_row c.flag

abbrev pub width : ColumnSchema → ℕ
width c = elim (column_value_size c.typ) [ ok n ↦ n | err e ↦ 0 | panic ↦ 0 ]

-- The bytes of a row that the columns take.
abbrev pub row_width : List ColumnSchema → ℕ
row_width [] = 0
row_width (c ∷ cs) = (if is_dynamic c then width c else 0) + row_width cs

abbrev pub dynamic_names : List ColumnSchema → List Bytes
dynamic_names [] = []
dynamic_names (c ∷ cs) = let rest = dynamic_names cs in if is_dynamic c then c.name ∷ rest else rest

-- With these bytes before them: each column with a value in the row starts where the ones before it end.
abbrev pub Layout : ℕ → List ColumnSchema → Type 0
Layout o [] = Unit
Layout o (c ∷ cs) =
    ((is_dynamic c ≡ false) ⊎ (c.offset ≡ o % 2 ^ 32))
    × Layout (o + (if is_dynamic c then width c else 0)) cs

-- The schema of the first columns.
pub record Inv (i : ℕ) (cols : List ColumnSchema) (names : List Bytes) (next : ℕ) : Type 0 where
  pub count : length cols ≡ i
  pub layout : Layout 0 cols
  pub keys : names ≡ dynamic_names cols
  pub offset : next ≡ row_width cols % 2 ^ 32

Layout-append :
    (o : ℕ) (cols : List ColumnSchema) (c : ColumnSchema)
    → Layout o cols
    → (is_dynamic c ≡ false) ⊎ (c.offset ≡ (o + row_width cols) % 2 ^ 32)
    → Layout o (cols ++ c ∷ [])
Layout-append o [] c l (inl e) = (inl e, tt)
Layout-append o [] c l (inr e) = (inr (e ∙ ap (λ n. n % 2 ^ 32) (omega arith)), tt)
Layout-append o (d ∷ cols) c (first, l) at = (
  first,
  Layout-append (o + (if is_dynamic d then width d else 0)) cols c l
      (elim at [ inl e ↦ inl e | inr e ↦ inr (e ∙ ap (λ n. n % 2 ^ 32) (omega arith)) ]),
)

row_width-append :
    (cols : List ColumnSchema) (c : ColumnSchema)
    → row_width (cols ++ c ∷ []) ≡ row_width cols + (if is_dynamic c then width c else 0)
row_width-append [] c = omega arith
row_width-append (d ∷ cols) c = omega (arith, row_width-append cols c)

names-append :
    (cols : List ColumnSchema) (c : ColumnSchema)
    → dynamic_names (cols ++ c ∷ [])
      ≡ dynamic_names cols ++ (if is_dynamic c then c.name ∷ [] else [])
names-append [] c = elim (Bool-cases (is_dynamic c)) [ inl e ↦ rw e refl | inr e ↦ rw e refl ]
names-append (d ∷ cols) c = elim (Bool-cases (is_dynamic d)) [
  | inl e ↦ rw e (ap (λ l. d.name ∷ l) (names-append cols c))
  | inr e ↦ rw e (names-append cols c)
]

module _ (i : ℕ) (cols : List ColumnSchema) (names : List Bytes) (offset : ℕ)
    (inv : Inv i cols names offset) where
  static-Inv : (c : ColumnSchema) → is_dynamic c ≡ false → Inv (i + 1) (cols ++ c ∷ []) names offset
  static-Inv c e = record {
    count = length-append cols (c ∷ []) ∙ ap (λ n. n + 1) inv.count;
    layout = Layout-append 0 cols c inv.layout (inl e);
    keys = inv.keys ∙ sym (append-nil _) ∙ sym (names-append cols c ∙ rw e refl);
    offset = inv.offset ∙ ap (λ n. n % 2 ^ 32) (sym (row_width-append cols c ∙ rw e (omega arith)));
  }

  dynamic-Inv :
      (c : ColumnSchema) (size : ℕ)
      → is_dynamic c ≡ true
      → c.offset ≡ offset
      → width c ≡ size
      → Inv (i + 1) (cols ++ c ∷ []) (names ++ c.name ∷ []) ((offset + size) % 2 ^ 32)
  dynamic-Inv c size e at w = record {
    count = length-append cols (c ∷ []) ∙ ap (λ n. n + 1) inv.count;
    layout =
        Layout-append 0 cols c inv.layout
          (inr (at ∙ inv.offset ∙ ap (λ n. n % 2 ^ 32) (omega arith)));
    keys = ap (λ l. l ++ c.name ∷ []) inv.keys ∙ sym (names-append cols c ∙ rw e refl);
    offset =
        let total : row_width (cols ++ c ∷ []) ≡ row_width cols + size =
          row_width-append cols c ∙ ap (λ n. row_width cols + n) (rw e w) in
        omega (arith, inv.offset, total);
  }

default_static : (c : ColumnSchema) → is_default c.flag ≡ true → is_dynamic c ≡ false
default_static c e = rw e refl

other_static : (c : ColumnSchema) → is_row c.flag ≡ false → is_dynamic c ≡ false
other_static c f = last (is_default c.flag) (is_row c.flag) f
  where
    last : (a b : Bool) → b ≡ false → (not a && b) ≡ false
    last a b e = ground arith

row_dynamic :
    (c : ColumnSchema) (n : ℕ)
    → is_default c.flag ≡ false
    → is_row c.flag ≡ true
    → is_dynamic (record c { offset = n }) ≡ true
row_dynamic c n e f = both (is_default c.flag) (is_row c.flag) e f
  where
    both : (a b : Bool) → a ≡ false → b ≡ true → (not a && b) ≡ true
    both a b e f = ground arith

-- What a schema is known to be.
abbrev pub IsSchema : ℕ → Schema → Type 0
IsSchema i s = Inv i s.columns s.dynamic_keys s.row_column_offset

-- The same of a round of the loop.
abbrev Next : ℕ → Schema × Reader → Type 0
Next i p = IsSchema (i + 1) p.0

module _ (h : UtfHeader) where
  add_column-IsSchema :
      (i : ℕ) (s : Schema) (c : ColumnSchema) (size : ℕ) (r : Reader)
      → IsSchema i s
      → column_value_size c.typ ≡ ok size
      → OnOk (Next i) (add_column h s c size r)
  add_column-IsSchema i s c size r inv sized =
      OnOk-if (Next i) (is_default c.flag) _ _
        (λ e. OnOk->>= (Next i) (read_column_value h c.typ true r) _ λ _ _.
          static-Inv i s.columns s.dynamic_keys s.row_column_offset inv c (default_static c e))
        (λ e.
          OnOk-if (Next i) (is_row c.flag) _ _
            (λ f.
              dynamic-Inv i s.columns s.dynamic_keys s.row_column_offset inv
                (record c { offset = s.row_column_offset }) size
                (row_dynamic c s.row_column_offset e f) refl (rw (sized, width) refl))
            (λ f.
              static-Inv i s.columns s.dynamic_keys s.row_column_offset inv c (other_static c f)))

  parse_column-IsSchema :
      (i : ℕ) (s : Schema) (r : Reader) → IsSchema i s → OnOk (Next i) (parse_column h s r)
  unfolding parse_column
  parse_column-IsSchema i s r inv = OnOk->>= (Next i) (tried (read_uint8 r)) _ λ (info, r1) _.
      OnOk->>= (Next i) (tried (read_uint32 r1)) _ λ (name_offset, r2) _.
        OnOk->>= (Next i) (guard (is_known (bit_and info 0xF0)) unknown_flag) _ λ _ _.
          OnOk->>= (Next i)
            (tried (read_string0_at ((h.string_table_offset + 8 + name_offset) % 2 ^ 32) r2)) _
            λ name _. OnOk->>= (Next i) (column_value_size (bit_and info 0x0F)) _ λ size sized.
              add_column-IsSchema i s
                (record {
                  flag = bit_and info 0xF0;
                  typ = bit_and info 0x0F;
                  name = name;
                  offset = 0;
                })
                size r2 inv sized

  parse_columns-IsSchema :
      (left i : ℕ) (s : Schema) (r : Reader)
      → IsSchema i s
      → OnOk (IsSchema (i + left)) (parse_columns h left s r)
  unfolding parse_columns
  parse_columns-IsSchema zero i s r inv = subst (λ n. IsSchema n s) (omega arith) inv
  parse_columns-IsSchema (suc left) i s r inv =
      OnOk->>= (IsSchema (i + suc left)) (parse_column h s r) _ λ (s', r') e.
        subst (λ n. OnOk (IsSchema n) (parse_columns h left s' r')) (omega arith)
          (parse_columns-IsSchema left (i + 1) s' r'
            (OnOk-at (Next i) (parse_column h s r) (parse_column-IsSchema i s r inv) e))

  pub parse_schema-IsSchema : (r : Reader) → OnOk (IsSchema h.number_of_fields) (parse_schema h r)
  unfolding parse_schema
  parse_schema-IsSchema r =
      subst (λ n. OnOk (IsSchema n) (parse_columns h h.number_of_fields empty_schema (seek 0x20 r)))
        (omega arith)
        (parse_columns-IsSchema h.number_of_fields 0 empty_schema (seek 0x20 r)
          (record { count = refl; layout = tt; keys = refl; offset = refl }))
