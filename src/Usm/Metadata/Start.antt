-- ===== src/Usm/Metadata/Start.antt =====
-- Where the stream starts: `ReadMetadata` and `parseUSMHeader` on the same file.
use moe_asset_updater_client.Base.{
  ℕ, zero, suc, ◌+◌, ◌≡◌, refl, not, ◌||◌, List, [], ◌∷◌, arith, length, take, drop, All, Bytes,
  IsByte, codes, equal, ◌==◌, ==_iff, le→leb,
}
use moe_asset_updater_client.Base.Outcome.{Outcome, ok, err, panic, guard, OnOk, OnOk->>=, OnOk-at}
use moe_asset_updater_client.Acb.Reader
use moe_asset_updater_client.Acb.Reader.{
  ReadError, Reader, big_endian, bytes_from, read_uint, read_uint32,
}
use moe_asset_updater_client.Acb.Utf.{UtfError, tried, bad_magic, new_utf_table}
use moe_asset_updater_client.Binary.{faulty, padded, read_bytes}
use moe_asset_updater_client.Usm.Table.{TableRow, utf_table_after, get_utf_table, extract_filename}
use moe_asset_updater_client.Usm.Chunks.Reads.{complete}
use moe_asset_updater_client.Usm.Header.{bad_crid, past_block, table_found, parse_usm_header}
use moe_asset_updater_client.Usm.Metadata.{
  Metadata, from_read, read_detailed_utf_table, read_metadata_sections, read_metadata,
}
use moe_asset_updater_client.Usm.Metadata.Text.{Decoder}
use moe_asset_updater_client.Usm.Metadata.Sections.{guard-ok, sig_at}
use moe_asset_updater_client.Usm.Metadata.Agrees.{SameHeader, read_metadata_sections-lem}

-- The four bytes of the table's signature, read as a number and as a string.
abbrev IsUtf : Bytes → Type 0
IsUtf rest = (p : ℕ) → padded 4 (take 4 rest) p ≡ complete (codes "@UTF") (p + 4)

utf_letters :
    (a b c d : ℕ)
    → IsByte a
    → IsByte b
    → IsByte c
    → IsByte d
    → big_endian 0 (a ∷ b ∷ c ∷ d ∷ []) ≡ 0x40555446
    → (a ≡ 0x40) × (b ≡ 0x55) × (c ≡ 0x54) × (d ≡ 0x46)
utf_letters a b c d ha hb hc hd e = (omega arith, omega arith, omega arith, omega arith)

IsUtf-word :
    (a b c d : ℕ)
    → (a ≡ 0x40) × (b ≡ 0x55) × (c ≡ 0x54) × (d ≡ 0x46)
    → (rest : Bytes) → IsUtf (a ∷ b ∷ c ∷ d ∷ rest)
IsUtf-word a b c d (ea, eb, ec, ed) rest p = rw (ea, eb, ec, ed) refl

bytes_from-IsUtf :
    (rest : Bytes)
    → All IsByte rest
    → OnOk (λ got. big_endian 0 got ≡ 0x40555446 → IsUtf rest) (bytes_from 4 rest)
bytes_from-IsUtf [] h = tt
bytes_from-IsUtf (a ∷ []) h = tt
bytes_from-IsUtf (a ∷ b ∷ []) h = tt
bytes_from-IsUtf (a ∷ b ∷ c ∷ []) h = tt
bytes_from-IsUtf (a ∷ b ∷ c ∷ d ∷ rest) (ha, (hb, (hc, (hd, _)))) =
    rw (le→leb 4 (length (a ∷ b ∷ c ∷ d ∷ rest)) (omega arith))
      λ e. IsUtf-word a b c d (utf_letters a b c d ha hb hc hd e) rest

OnOk-tried : {A : Type 0} (P : A → Type 0) (m : Outcome ReadError A) → OnOk P m → OnOk P (tried m)
OnOk-tried P (ok a) h = h
OnOk-tried P (err e) h = tt
OnOk-tried P panic h = tt

OnOk-from_read :
    {A : Type 0} (P : A → Type 0) (m : Outcome UtfError A) → OnOk P m → OnOk P (from_read m)
OnOk-from_read P (ok a) h = h
OnOk-from_read P (err e) h = tt
OnOk-from_read P panic h = tt

-- A fact that does not speak of the value.
OnOk-always : {E A : Type 0} (X : Type 0) (m : Outcome E A) → X → OnOk (λ _. X) m
OnOk-always X (ok a) x = x
OnOk-always X (err e) x = tt
OnOk-always X panic x = tt

module _ (rest : Bytes) (bytes : All IsByte rest) where
  reader : Reader
  reader = record { content = rest; position = 0 }

  read_uint32-IsUtf :
      OnOk (λ (got : ℕ × Reader). got.0 ≡ 0x40555446 → IsUtf rest) (read_uint32 reader)
  unfolding read_uint32 reader
  read_uint32-IsUtf =
      OnOk->>= (λ (got : ℕ × Reader). got.0 ≡ 0x40555446 → IsUtf rest) (Reader.read_bytes 4 reader)
        _
        λ (got, after) e.
          OnOk-at (λ (got : Bytes × Reader). big_endian 0 got.0 ≡ 0x40555446 → IsUtf rest)
            (Reader.read_bytes 4 reader)
            (OnOk->>= (λ (got : Bytes × Reader). big_endian 0 got.0 ≡ 0x40555446 → IsUtf rest)
              (bytes_from 4 rest) _
              λ got' e'.
                OnOk-at (λ got. big_endian 0 got ≡ 0x40555446 → IsUtf rest) (bytes_from 4 rest)
                  (bytes_from-IsUtf rest bytes) e')
            e

  new_utf_table-IsUtf : OnOk (λ t. IsUtf rest) (new_utf_table reader)
  unfolding new_utf_table
  new_utf_table-IsUtf =
      OnOk->>= (λ t. IsUtf rest) (tried (read_uint32 reader)) _
        λ (magic, after) e.
          OnOk->>= (λ t. IsUtf rest) (guard (magic == 0x40555446) bad_magic) _
            λ t matched. OnOk-always (IsUtf rest) _ (
              OnOk-at (λ (got : ℕ × Reader). got.0 ≡ 0x40555446 → IsUtf rest)
                (tried (read_uint32 reader)) (OnOk-tried _ (read_uint32 reader) read_uint32-IsUtf) e
                ((==_iff magic 0x40555446).0 (guard-ok (magic == 0x40555446) bad_magic matched)))

All-drop : (n : ℕ) (bytes : Bytes) → All IsByte bytes → All IsByte (drop n bytes)
All-drop zero bytes h = h
All-drop (suc n) [] h = tt
All-drop (suc n) (b ∷ bytes) (hb, h) = All-drop n bytes h

-- The table that usm.go reads there has its signature.
module _ (content : Bytes) (bytes : All IsByte content) where
  sig_bytes :
      (p : ℕ) → IsUtf (drop p content) → read_bytes content 4 p ≡ complete (codes "@UTF") (p + 4)
  unfolding read_bytes
  sig_bytes p h = h p

  get_utf_table-found :
      (p : ℕ)
      → IsUtf (drop p content)
      → (rows : List TableRow) × (table_found content (get_utf_table content p) ≡ ok rows)
  unfolding get_utf_table equal
  get_utf_table-found p h =
      ((utf_table_after content (p + 4)).0, rw (sig_bytes p h, get_utf_table) refl)

  -- usm.go gets through the header to the same position.
  record SameFile (fallback : Bytes) (m : Metadata) : Type 0 where
    name : Bytes
    header : parse_usm_header content fallback ≡ ok (name, m.has_audio, m.stream_offset)

  read_metadata-SameFile :
      (decoder : Decoder) (shown fallback : Bytes)
      → OnOk (SameFile fallback) (read_metadata decoder content shown)
  unfolding read_metadata parse_usm_header read_detailed_utf_table reader
  read_metadata-SameFile decoder shown fallback =
      let P = SameFile fallback in
      let sig = sig_at content 0 in
      let valid = not (faulty sig.fault || not (equal sig.value (codes "CRID"))) in
      OnOk->>= P (guard valid bad_crid) _ λ t matched.
        OnOk->>= P (read_detailed_utf_table content 0x20) _ λ entry_table read.
          let rest = drop 0x20 content in
          let rest_bytes = All-drop 0x20 content bytes in
          let found = get_utf_table-found 0x20 (
            OnOk-at (λ t. IsUtf rest) (from_read (new_utf_table (reader rest rest_bytes)))
              (OnOk-from_read (λ t. IsUtf rest) (new_utf_table (reader rest rest_bytes))
                (new_utf_table-IsUtf rest rest_bytes))
              read) in
          OnOk->>= P (read_metadata_sections decoder content (past_block content 0 sig.after)) _
            λ (has_audio, sections, stream_offset) e.
              let s =
                OnOk-at (SameHeader decoder content (past_block content 0 sig.after)) _
                  (read_metadata_sections-lem decoder content (past_block content 0 sig.after)) e in
              record {
                name = extract_filename found.0 fallback;
                header = rw (guard-ok valid bad_crid matched, found.1, s.header, s.start) refl;
              }

-- Where ReadMetadata succeeds on a file of bytes, parseUSMHeader gets through its header too, whatever
-- the two fallback names: it finds audio or none as the metadata says, and leaves the file at the
-- metadata's stream offset, from where ExtractUSM reads the chunks.
pub parse_usm_header-read_metadata :
    (decoder : Decoder) (content shown fallback : Bytes) {m : Metadata}
    → All IsByte content
    → read_metadata decoder content shown ≡ ok m
    → (name : Bytes) × (parse_usm_header content fallback ≡ ok (name, m.has_audio, m.stream_offset))
parse_usm_header-read_metadata decoder content shown fallback bytes e =
    let s =
      OnOk-at (SameFile content bytes fallback) _
        (read_metadata-SameFile content bytes decoder shown fallback) e in
    (s.name, s.header)
