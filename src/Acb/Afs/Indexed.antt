-- ===== src/Acb/Afs/Indexed.antt =====
-- What the index of an archive says.
use moe_asset_updater_client.Base.{
  ℕ, zero, suc, ◌+◌, ◌-◌, ◌*◌, ◌^◌, ◌≤◌, ◌≡◌, refl, ap, ◌⊎◌, inl, inr, List, [], ◌∷◌, arith, true,
  leb, ◌==◌, Bytes, length, length-take, length-drop, append-nil, take, drop, map,
}
use moe_asset_updater_client.Acb.Afs.{
  Afs2FileEntry, AfsArchive, bad_magic, little_endian, read_le, read_entry, read_entries, mask_all,
  entries_of, nth, offset_mask, archive_of, new_afs_archive,
}
use moe_asset_updater_client.Acb.Reader.{Reader, big_endian, read_uint32}
use moe_asset_updater_client.Base.Outcome.{ok, panic, guard, OnOk, OnOk-at, OnOk->>=, OnOk-if}
use moe_asset_updater_client.Acb.Afs.Aligned.{Chain, entries_of-Chain}

length-mask_all : (mask : ℕ) (vs : List ℕ) → length (mask_all mask vs) ≡ length vs
length-mask_all mask [] = refl
length-mask_all mask (v ∷ vs) = omega (arith, length-mask_all mask vs)

abbrev pub at : Bytes → ℕ → Reader
at content p = record { content = content; position = p }

-- The number of so many bytes at a position, the lowest byte first.
abbrev pub number : Bytes → ℕ → ℕ → ℕ
number content p size = little_endian (take size (drop p content))

-- The numbers of a table, one after the other.
abbrev pub table : Bytes → ℕ → ℕ → ℕ → List ℕ
table content size p zero = []
table content size p (suc n) = number content p size ∷ table content size (p + size) n

-- The fields of the header: the version holds the sizes of the numbers in the two tables.
abbrev pub version : Bytes → Bytes
version content = take 4 (drop 4 content)

abbrev pub file_count : Bytes → ℕ
file_count content = number content 8 4

abbrev pub cue_size : Bytes → ℕ
cue_size content = nth 2 (version content)

abbrev pub offset_size : Bytes → ℕ
offset_size content = nth 1 (version content)

-- Behind the cues, with the mask of a number of their size.
abbrev pub offset_table : Bytes → List ℕ
offset_table content = mask_all (2 ^ (offset_size content * 8) - 1) (
    table content (offset_size content) (16 + cue_size content * file_count content)
      (file_count content + 1))

abbrev pub cue_ids : List Afs2FileEntry → List ℕ
cue_ids = map (λ (e : Afs2FileEntry). e.cue_id)

-- The entries are those of the two tables in the file, and follow one another.
pub record IsArchive (content : Bytes) (a : AfsArchive) : Type 0 where
  pub alignment : a.alignment ≡ number content 12 4
  pub cues : cue_ids a.files ≡ table content (cue_size content) 16 (file_count content)
  pub chain : Chain a.alignment (offset_table content) a.files

got_all :
    (n p : ℕ) (content : Bytes) → p + n ≤ length content → length (take n (drop p content)) ≡ n
got_all n p content h = omega (arith, length-take n (drop p content), length-drop p content, h)

read_le-number :
    (n p : ℕ) (content : Bytes)
    → p + n ≤ length content
    → read_le n (at content p) ≡ (number content p n, at content (p + n))
unfolding read_le
read_le-number n p content h = rw (got_all n p content h) (ground arith)

abbrev pub IsRead : ℕ → Type 0
IsRead size = (size ≡ 2) ⊎ (size ≡ 4)

read_entry-number :
    (size p : ℕ) (content : Bytes)
    → IsRead size
    → p + size ≤ length content
    → read_entry size (at content p) ≡ (number content p size, at content (p + size))
read_entry-number size p content (inl e) h = rw e (read_le-number 2 p content (omega (arith, h, e)))
read_entry-number size p content (inr e) h = rw e (read_le-number 4 p content (omega (arith, h, e)))

times_suc : (size n : ℕ) → IsRead size → size * suc n ≡ size + size * n
times_suc size n (inl e) = rw e (omega arith)
times_suc size n (inr e) = rw e (omega arith)

read_entries-table :
    (size left p : ℕ) (content : Bytes)
    → IsRead size
    → p + size * left ≤ length content
    → read_entries size left (at content p)
      ≡ (table content size p left, at content (p + size * left))
unfolding read_entries
read_entries-table size zero p content s h = ap (λ q. ([], at content q)) (omega arith)
read_entries-table size (suc left) p content s h =
    rw
      (
        read_entry-number size p content s (omega (arith, times_suc size left s)),
        read_entries-table size left (p + size) content s (omega (arith, times_suc size left s)),
        times_suc size left s,
      )
      (ap (λ q. (table content size p (suc left), at content q)) (omega arith))

length-table : (content : Bytes) (size p n : ℕ) → length (table content size p n) ≡ n
length-table content size p zero = refl
length-table content size p (suc n) = ap suc (length-table content size (p + size) n)

cue_ids-entries_of :
    (alignment : ℕ) (cues offsets : List ℕ)
    → length offsets ≡ length cues + 1
    → cue_ids (entries_of alignment cues offsets) ≡ cues
unfolding entries_of
cue_ids-entries_of alignment [] offsets h = refl
cue_ids-entries_of alignment (c ∷ cues) [] h = absurd (omega arith)
cue_ids-entries_of alignment (c ∷ cues) (o ∷ []) h = absurd (omega arith)
cue_ids-entries_of alignment (c ∷ cues) (o ∷ next ∷ os) h =
    ap (λ ids. c ∷ ids) (cue_ids-entries_of alignment cues (next ∷ os) (omega arith))

offset_mask-lem : (size : ℕ) → IsRead size → offset_mask size ≡ 2 ^ (size * 8) - 1
offset_mask-lem size (inl e) = rw e refl
offset_mask-lem size (inr e) = rw e refl

module _ (content : Bytes) (cues_read : IsRead (cue_size content))
    (offsets_read : IsRead (offset_size content))
    (fits : 16
        + cue_size content * file_count content
        + offset_size content * (file_count content + 1)
      ≤ length content) where
  offsets_more :
      length (offset_table content)
      ≡ length (table content (cue_size content) 16 (file_count content)) + 1
  offsets_more = omega (
    arith,
    length-mask_all (2 ^ (offset_size content * 8) - 1) (
        table content (offset_size content) (16 + cue_size content * file_count content)
          (file_count content + 1)),
    length-table content (offset_size content) (16 + cue_size content * file_count content)
        (file_count content + 1),
    length-table content (cue_size content) 16 (file_count content),
  )

  archive_of-IsArchive :
      OnOk
        (IsArchive content)
        (archive_of (version content) (file_count content) (number content 12 4) (at content 16))
  unfolding archive_of
  archive_of-IsArchive =
      rw
        (
          read_entries-table (cue_size content) (file_count content) 16 content cues_read
              (omega (arith, fits)),
          read_entries-table (offset_size content) (file_count content + 1)
              (16 + cue_size content * file_count content) content offsets_read fits,
          offset_mask-lem (offset_size content) offsets_read,
        )
        (OnOk-if (IsArchive content) (file_count content == 2 ^ 32 - 1) panic _ (λ _. tt)
          λ _. record {
            alignment = refl;
            cues =
                cue_ids-entries_of (number content 12 4)
                  (table content (cue_size content) 16 (file_count content)) (offset_table content)
                  offsets_more;
            chain =
                entries_of-Chain (number content 12 4)
                  (table content (cue_size content) 16 (file_count content)) (offset_table content)
                  offsets_more;
          })

  enough : 4 ≤ length content
  enough = omega (arith, fits)

  magic_read : read_uint32 (at content 0) ≡ ok (big_endian 0 (take 4 content), at content 4)
  unfolding read_uint32
  magic_read = rw (leb_true enough) refl
    where
      leb_true : {m n : ℕ} → m ≤ n → leb m n ≡ true
      leb_true h = ground arith

  -- In an archive that NewAFSArchive returns for a file that holds both tables whole, with numbers of two
  -- or four bytes: the alignment and the cues are those of the file; there is one offset more than
  -- entries, those of the file's second table, masked to their size; and each entry starts at the first
  -- multiple of the alignment from its offset on, modulo 2^32, or at zero where the alignment is zero,
  -- and ends, modulo 2^32, where the next offset is.
  pub new_afs_archive-IsArchive :
      {a : AfsArchive} → new_afs_archive (at content 0) ≡ ok a → IsArchive content a
  unfolding new_afs_archive
  new_afs_archive-IsArchive = OnOk-at (IsArchive content) (new_afs_archive (at content 0)) (
      rw magic_read (
        OnOk->>= (IsArchive content) (guard (big_endian 0 (take 4 content) == 0x41465332) bad_magic)
          _
          λ _ _.
            rw
              (
                got_all 4 4 content (omega (arith, fits)),
                append-nil (take 4 (drop 4 content)),
                read_le-number 4 8 content (omega (arith, fits)),
                read_le-number 4 12 content (omega (arith, fits)),
              )
              archive_of-IsArchive))
