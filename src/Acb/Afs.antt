-- ===== src/Acb/Afs.antt =====
-- The archive of waves beside a sound bank: `NewAFSArchive`, `FileDataForCueID` and `FileData` of
-- internal/cricodecs/acb/afs.go and `align` of helpers.go. After the magic number the code ignores the
-- errors of its reads: a number is then zero, and the bytes that are missing are zero. Go's `align`
-- divides floats; for 32-bit numbers the quotient, rounded up, is exact, and a division by zero is
-- followed by a product with zero.
pub mod Aligned
pub mod Indexed
use moe_asset_updater_client.Base.{
  ℕ, zero, suc, ◌+◌, ◌-◌, ◌*◌, ◌/◌, ◌%◌, ◌^◌, bit_and, Bool, true, false, ◌&&◌, ◌||◌, List, [], ◌∷◌,
  ◌++◌, ltb, leb, ◌==◌, if◌then◌else◌, Bytes, length, take,
}
use moe_asset_updater_client.Base.Outcome.{Outcome, ok, err, panic, ◌>>=◌, ◌>>◌, guard}
use moe_asset_updater_client.Acb.Reader.{
  Reader, ReadError, Read, seek, rest_of, big_endian, read_uint32, read_bytes_at,
}

pub record Afs2FileEntry : Type 0 where
  pub cue_id : ℕ
  pub offset : ℕ
  pub size : ℕ

pub record AfsArchive : Type 0 where
  pub alignment : ℕ
  pub files : List Afs2FileEntry
  pub reader : Reader

pub data AfsError : Type 0 where
  read_failed : ReadError → AfsError
  bad_magic cue_not_found : AfsError

abbrev pub zeros : ℕ → Bytes
zeros zero = []
zeros (suc n) = 0 ∷ zeros n

-- A read whose error is ignored: the bytes, and the reader after those that there were.
abbrev pub padded : ℕ → Reader → Bytes × Reader
padded n r =
    let got = take n (rest_of r) in
    (got ++ zeros (n - length got), seek (r.position + length got) r)

abbrev pub little_endian : Bytes → ℕ
little_endian [] = 0
little_endian (b ∷ bs) = b + 256 * little_endian bs

-- A number that is zero where the read fails.
unfoldable pub read_le : ℕ → Reader → ℕ × Reader
read_le n r =
    let got = take n (rest_of r) in
    let after = seek (r.position + length got) r in
    if length got == n then (little_endian got, after) else (0, after)

-- A number of a table, with the size of its numbers: only 2 and 4 are read.
abbrev pub read_entry : ℕ → Reader → ℕ × Reader
read_entry size r = if (size == 2) || (size == 4) then read_le size r else (0, r)

-- The loops over the tables, with the numbers left.
unfoldable pub read_entries : ℕ → ℕ → Reader → List ℕ × Reader
unfolding read_le
read_entries size zero r = ([], r)
read_entries size (suc left) r =
    let (v, r1) = read_entry size r in let (vs, r2) = read_entries size left r1 in (v ∷ vs, r2)

abbrev pub mask_all : ℕ → List ℕ → List ℕ
mask_all mask [] = []
mask_all mask (v ∷ vs) = bit_and v mask ∷ mask_all mask vs

unfoldable pub align : ℕ → ℕ → ℕ
align alignment offset =
    if alignment == 0 then 0 else (offset + (alignment - 1)) / alignment * alignment % 2 ^ 32

abbrev pub entry_of : ℕ → ℕ → ℕ → ℕ → Afs2FileEntry
entry_of alignment cue_id offset next_offset = record {
  cue_id = cue_id;
  offset = align alignment offset;
  size = (next_offset + (2 ^ 32 - align alignment offset)) % 2 ^ 32;
}

-- The last loop: an offset and the next one for each cue.
unfoldable pub entries_of : ℕ → List ℕ → List ℕ → List Afs2FileEntry
unfolding align
entries_of alignment (c ∷ cs) (o ∷ next ∷ os) =
    entry_of alignment c o next ∷ entries_of alignment cs (next ∷ os)
entries_of alignment _ _ = []

abbrev pub tried : {A : Type 0} → Outcome ReadError A → Outcome AfsError A
tried (ok a) = ok a
tried (err e) = err (read_failed e)
tried panic = panic

abbrev pub nth : ℕ → Bytes → ℕ
nth n [] = 0
nth zero (b ∷ bs) = b
nth (suc n) (b ∷ bs) = nth n bs

-- `uint32((1 << (offsetSize * 8)) - 1)`.
abbrev pub offset_mask : ℕ → ℕ
offset_mask offset_size = (2 ^ (offset_size * 8) % 2 ^ 64 + (2 ^ 64 - 1)) % 2 ^ 32

-- With the numbers of the header. A count of 2^32 - 1 makes a table of offsets without a place.
unfoldable pub archive_of : Bytes → ℕ → ℕ → Reader → Outcome AfsError AfsArchive
unfolding read_entries entries_of
archive_of version file_count alignment r =
    let (cue_ids, r1) = read_entries (nth 2 version) file_count (seek 0x10 r) in
    let (offsets, r2) = read_entries (nth 1 version) (file_count + 1) r1 in
    if file_count == 2 ^ 32 - 1
    then panic
    else ok (record {
      alignment = alignment;
      files = entries_of alignment cue_ids (mask_all (offset_mask (nth 1 version)) offsets);
      reader = r2;
    })

unfoldable pub new_afs_archive : Reader → Outcome AfsError AfsArchive
unfolding read_uint32 read_le archive_of
new_afs_archive r = tried (read_uint32 r) >>= λ (magic, r).
    guard (magic == 0x41465332) bad_magic
    >> (let (version, r1) = padded 4 r in
        let (file_count, r2) = read_le 4 r1 in
        let (alignment, r3) = read_le 4 r2 in archive_of version file_count alignment r3)

unfoldable pub file_data : AfsArchive → Afs2FileEntry → Outcome AfsError Bytes
unfolding read_bytes_at
file_data a entry = tried (read_bytes_at entry.size entry.offset a.reader)

-- The first entry of the cue, if there is one; else the first entry, if its cue is 0.
unfoldable pub find_cue : ℕ → List Afs2FileEntry → Outcome AfsError Afs2FileEntry
find_cue cue_id [] = err cue_not_found
find_cue cue_id (f ∷ fs) =
    let rest = find_cue cue_id fs in if f.cue_id == cue_id then ok f else rest

abbrev pub first_if_zero : List Afs2FileEntry → Outcome AfsError Afs2FileEntry
first_if_zero [] = err cue_not_found
first_if_zero (f ∷ fs) = if f.cue_id == 0 then ok f else err cue_not_found

abbrev pub or_first :
    List Afs2FileEntry → Outcome AfsError Afs2FileEntry → Outcome AfsError Afs2FileEntry
or_first fs (ok f) = ok f
or_first fs (err e) = first_if_zero fs
or_first fs panic = panic

unfoldable pub file_data_for_cue_id : AfsArchive → ℕ → Outcome AfsError Bytes
unfolding file_data find_cue
file_data_for_cue_id a cue_id = or_first a.files (find_cue cue_id a.files) >>= file_data a
