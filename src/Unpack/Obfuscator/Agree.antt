-- ===== src/Unpack/Obfuscator/Agree.antt =====
-- The streaming unwrapper against the one in memory, and both against the wrapping they undo.
use moe_asset_updater_client.Base.{
  false, ℕ, zero, suc, ◌+◌, ◌-◌, ◌%◌, ◌≤◌, ◌≡◌, refl, ap, ◌∙◌, true, none, [], ◌∷◌, ◌++◌,
  append_assoc, arith, leb, length, length-take, length-drop, length-append, take-append-drop,
  get_or, take, drop, if◌then◌else◌, Bytes, equal,
}
use moe_asset_updater_client.Base.Bits.{bit_xor_cancel}
use moe_asset_updater_client.Base.Io.{read_full, Writer, Written, written_to, write, copy}
use moe_asset_updater_client.Unpack.Obfuscator.{
  deobfuscate_header_pattern, plain_mark, masked_mark, mask_from, deobfuscate, write_and_copy,
  write_masked, deobfuscate_to_writer,
}

length-mask_from : (n i : ℕ) (bs : Bytes) → length (mask_from n i bs) ≡ length bs
unfolding mask_from
length-mask_from (suc n) i (b ∷ bs) = ap suc (length-mask_from n (i + 1) bs)
length-mask_from zero i bs = refl
length-mask_from (suc n) i [] = refl

-- The mask is its own inverse.
mask_from-mask_from : (n i : ℕ) (bs : Bytes) → mask_from n i (mask_from n i bs) ≡ bs
unfolding mask_from
mask_from-mask_from (suc n) i (b ∷ bs) = rw (
  bit_xor_cancel b (get_or deobfuscate_header_pattern (i % 8) 0),
  mask_from-mask_from n (i + 1) bs,
)
mask_from-mask_from zero i bs = refl
mask_from-mask_from (suc n) i [] = refl

-- Only the first n data change.
pub mask_from-split :
    (n i : ℕ) (bs : Bytes) → mask_from n i bs ≡ mask_from n i (take n bs) ++ drop n bs
unfolding mask_from
mask_from-split (suc n) i (b ∷ bs) = rw (mask_from-split n (i + 1) bs)
mask_from-split zero i bs = refl
mask_from-split (suc n) i [] = refl

-- The wrapping that the server applies: the mark, and the mask over the first 128 data.
abbrev pub wrap : Bytes → Bytes
wrap bytes = masked_mark ++ (if leb 128 (length bytes) then mask_from 128 0 bytes else bytes)

four_more : (n : ℕ) → leb 4 (suc (suc (suc (suc n)))) ≡ true
four_more n = ground arith

deobfuscate-masked :
    (rest : Bytes)
    → deobfuscate (masked_mark ++ rest)
      ≡ (if leb 128 (length rest) then mask_from 128 0 rest else rest)
unfolding deobfuscate equal
deobfuscate-masked rest = rw (four_more (length rest))

deobfuscate-plain : (rest : Bytes) → deobfuscate (plain_mark ++ rest) ≡ rest
unfolding deobfuscate equal
deobfuscate-plain rest = rw (four_more (length rest))

-- Both marks are taken off, and the mask of the second with it: whatever was wrapped comes out.
pub deobfuscate-wrap :
    (bytes : Bytes)
    → (deobfuscate (wrap bytes) ≡ bytes) × (deobfuscate (plain_mark ++ bytes) ≡ bytes)
deobfuscate-wrap bytes = (
  deobfuscate-masked (if leb 128 (length bytes) then mask_from 128 0 bytes else bytes)
      ∙ ground (arith, length-mask_from 128 0 bytes, mask_from-mask_from 128 0 bytes),
  deobfuscate-plain bytes,
)

-- The writer after it took some data.
abbrev pub taken : {E : Type 0} → Writer → Bytes → Written E
taken dst bytes =
    written_to (record { written = dst.written ++ bytes; room = dst.room - length bytes }) none

module _ {E : Type 0} (no_room : E) (dst : Writer) where
  write-taken :
      (bytes : Bytes) → length bytes ≤ dst.room → write no_room dst bytes ≡ taken dst bytes
  unfolding write
  write-taken bytes h = ground arith

  copy-taken :
      (bytes : Bytes)
      → length bytes ≤ dst.room
      → copy no_room dst (record { content = bytes; fault = none; cut = false }) ≡ taken dst bytes
  unfolding copy
  copy-taken bytes h = ground (arith, write-taken bytes h)

module _ {E : Type 0} (no_room : E) (dst : Writer) where
  write_and_copy-taken :
      (p rest : Bytes)
      → length p + length rest ≤ dst.room
      → write_and_copy no_room
          (write no_room dst p)
          (record { content = rest; fault = none; cut = false })
        ≡ taken dst (p ++ rest)
  write_and_copy-taken p rest h = rw (write-taken no_room dst p (omega arith)) (
      copy-taken no_room (record { written = dst.written ++ p; room = dst.room - length p }) rest
        (omega arith)
      ∙ ground (arith, append_assoc dst.written p rest, length-append p rest))

  masked-taken :
      (rest : Bytes)
      → length rest ≤ dst.room
      → write_masked no_room dst
          (read_full (record { content = rest; fault = none; cut = false }) 128)
        ≡ taken dst (if leb 128 (length rest) then mask_from 128 0 rest else rest)
  unfolding read_full
  masked-taken rest h = ground (
    arith,
    length-mask_from 128 0 (take 128 rest),
    length-take 128 rest,
    length-drop 128 rest,
    mask_from-split 128 0 rest,
    write-taken no_room dst rest h,
    write_and_copy-taken (mask_from 128 0 (take 128 rest)) (drop 128 rest),
  )

  -- With room for the data and no read error, the streaming unwrapper writes exactly what the one in
  -- memory returns, and reports no error: for every mark, and for data too short for one.
  pub deobfuscate_to_writer-deobfuscate :
      (bytes : Bytes)
      → length bytes ≤ dst.room
      → deobfuscate_to_writer no_room dst (record { content = bytes; fault = none; cut = false })
        ≡ taken dst (deobfuscate bytes)
  unfolding deobfuscate_to_writer deobfuscate read_full
  deobfuscate_to_writer-deobfuscate bytes h = ground (
    arith,
    length-take 4 bytes,
    length-drop 4 bytes,
    take-append-drop 4 bytes,
    write-taken no_room dst bytes h,
    copy-taken no_room dst (drop 4 bytes),
    masked-taken (drop 4 bytes),
    write_and_copy-taken (take 4 bytes) (drop 4 bytes),
  )
