-- ===== src/Usm/Metadata/Offset.antt =====
-- `offsetReadSeeker` of internal/cricodecs/usm/metadata.go, and what it shows: the content from its
-- start on, which `NewUTFTable` reads. A read of the file gives what there is, up to the bytes asked for.
use moe_asset_updater_client.Base.{ℕ, ◌+◌, ◌≡◌, ap, Option, none, some, length, take, drop, Bytes}
use moe_asset_updater_client.Base.Int.{ℤ, pos, negsuc, ◌+ℤ◌}
use moe_asset_updater_client.Acb.Reader.{Reader, rest_of}
use moe_asset_updater_client.Usm.Chunks.Reads.{drop-drop}

pub record OffsetReadSeeker : Type 0 where
  pub start : ℕ
  pub position : ℕ

pub data Whence : Type 0 where
  from_start from_current from_end : Whence

-- The bytes that `Read` gives for n of them, and the reader after it.
unfoldable pub offset_read : Bytes → ℕ → OffsetReadSeeker → Bytes × OffsetReadSeeker
offset_read content n r =
    let got = take n (drop (r.start + r.position) content) in
    (got, record r { position = r.position + length got })

-- `next < 0` is an error.
abbrev moved : OffsetReadSeeker → ℤ → Option OffsetReadSeeker
moved r (pos next) = some (record r { position = next })
moved r (negsuc n) = none

-- None where it fails, which moves nothing.
unfoldable pub offset_seek : ℤ → Whence → OffsetReadSeeker → Option OffsetReadSeeker
unfolding ◌+ℤ◌
offset_seek offset from_start r = moved r offset
offset_seek offset from_current r = moved r (pos r.position +ℤ offset)
offset_seek offset from_end r = none

-- As a reader of the content from the start on.
abbrev pub as_reader : Bytes → OffsetReadSeeker → Reader
as_reader content r = record { content = drop r.start content; position = r.position }

-- A read gives the bytes of that reader.
pub offset_read-as_reader :
    (content : Bytes) (n : ℕ) (r : OffsetReadSeeker)
    → (offset_read content n r).0 ≡ take n (rest_of (as_reader content r))
unfolding offset_read
offset_read-as_reader content n r = ap (take n) (drop-drop r.start r.position content)
