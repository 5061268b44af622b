-- ===== src/Unpack/Obfuscator.antt =====
-- The two unwrappers of a downloaded bundle, of internal/unpack/obfuscator.go.
pub mod Agree
use moe_asset_updater_client.Base.{
  ℕ, zero, suc, ◌+◌, ◌%◌, Bool, true, false, ◌&&◌, Option, none, some, List, [], ◌∷◌, ◌++◌, leb,
  length, get_or, take, drop, bit_xor, if◌then◌else◌, Bytes, equal,
}
use moe_asset_updater_client.Base.Io.{
  Reader, ReadResult, full, ended, cut_off, failed, read_full, Writer, Written, written_to, write,
  copy,
}

abbrev pub deobfuscate_header_pattern : Bytes
deobfuscate_header_pattern = 0xFF ∷ 0xFF ∷ 0xFF ∷ 0xFF ∷ 0xFF ∷ 0x00 ∷ 0x00 ∷ 0x00 ∷ []

abbrev pub plain_mark : Bytes
plain_mark = 0x20 ∷ 0x00 ∷ 0x00 ∷ 0x00 ∷ []

abbrev pub masked_mark : Bytes
masked_mark = 0x10 ∷ 0x00 ∷ 0x00 ∷ 0x00 ∷ []

-- `data[i] ^= pattern[i % len(pattern)]` for n data, from position i on.
unfoldable pub mask_from : ℕ → ℕ → Bytes → Bytes
mask_from (suc n) i (b ∷ bs) =
    bit_xor b (get_or deobfuscate_header_pattern (i % length deobfuscate_header_pattern) 0)
    ∷ mask_from n (i + 1) bs
mask_from _ i bs = bs

unfoldable pub deobfuscate : Bytes → Bytes
unfolding mask_from equal
deobfuscate bytes =
    if leb 4 (length bytes) && equal (take 4 bytes) plain_mark
    then drop 4 bytes
    else if leb 4 (length bytes) && equal (take 4 bytes) masked_mark
    then (let rest = drop 4 bytes in if leb 128 (length rest) then mask_from 128 0 rest else rest)
    else bytes

-- `dst.Write(p)`, and on success the copy of what is left.
abbrev pub write_and_copy : {E : Type 0} → E → Written E → Reader E → Written E
write_and_copy no_room (written_to dst none) src = copy no_room dst src
write_and_copy no_room (written_to dst (some e)) src = written_to dst (some e)

-- After the mark of a masked bundle.
abbrev pub write_masked : {E : Type 0} → E → Writer → ReadResult E → Written E
write_masked no_room dst (full header src) =
    write_and_copy no_room (write no_room dst (mask_from 128 0 header)) src
write_masked no_room dst (ended got) = write no_room dst got
write_masked no_room dst (cut_off got) = write no_room dst got
write_masked no_room dst (failed e) = written_to dst (some e)

-- With the error of a writer that has no room.
abbrev pub after_prefix : {E : Type 0} → E → Writer → ReadResult E → Written E
after_prefix no_room dst (full mark src) =
    if equal mark plain_mark
    then copy no_room dst src
    else if equal mark masked_mark
    then write_masked no_room dst (read_full src 128)
    else write_and_copy no_room (write no_room dst mark) src
after_prefix no_room dst (ended got) = write no_room dst got
after_prefix no_room dst (cut_off got) = write no_room dst got
after_prefix no_room dst (failed e) = written_to dst (some e)

unfoldable pub deobfuscate_to_writer : {E : Type 0} → E → Writer → Reader E → Written E
unfolding read_full
deobfuscate_to_writer no_room dst src = after_prefix no_room dst (read_full src 4)
