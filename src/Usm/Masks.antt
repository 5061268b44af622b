-- ===== src/Usm/Masks.antt =====
-- The masks of a key, and the two unmasked streams: `getMask`, `maskVideo` and `maskAudio` of
-- internal/cricodecs/usm/usm.go. The loops write a copy of the content in place; here each walks the
-- part of the content that it writes, with the round i and the mask that it updates.
pub mod Roundtrip
use moe_asset_updater_client.Base.{
  ℕ, zero, suc, ◌+◌, ◌-◌, ◌*◌, ◌/◌, ◌%◌, ◌^◌, bit_xor, Bool, List, [], ◌∷◌, ◌++◌, map, leb, ◌==◌,
  if◌then◌else◌, length, get_or, set, take, drop, Bytes,
}

-- `byte(a - b)` of two bytes.
unfoldable pub sub_byte : ℕ → ℕ → ℕ
sub_byte a b = (a + 256 - b) % 256

-- The table t[0x00] … t[0x1F].
unfoldable pub key_table : ℕ → Bytes
unfolding sub_byte
key_table key =
    let key1 = key % 2 ^ 32 in
    let key2 = key / 2 ^ 32 % 2 ^ 32 in
    let t00 = key1 % 256 in
    let t01 = key1 / 2 ^ 8 % 256 in
    let t02 = key1 / 2 ^ 16 % 256 in
    let t03 = sub_byte (key1 / 2 ^ 24 % 256) 0x34 in
    let t04 = (key2 % 16 + 0xF9) % 256 in
    let t05 = bit_xor (key2 / 2 ^ 8 % 256) 0x13 in
    let t06 = (key2 / 2 ^ 16 % 256 + 0x61) % 256 in
    let t07 = bit_xor t00 0xFF in
    let t08 = (t02 + t01) % 256 in
    let t09 = sub_byte t01 t07 in
    let t0A = bit_xor t02 0xFF in
    let t0B = bit_xor t01 0xFF in
    let t0C = (t0B + t09) % 256 in
    let t0D = sub_byte t08 t03 in
    let t0E = bit_xor t0D 0xFF in
    let t0F = sub_byte t0A t0B in
    let t10 = sub_byte t08 t0F in
    let t11 = bit_xor t10 t07 in
    let t12 = bit_xor t0F 0xFF in
    let t13 = bit_xor t03 0x10 in
    let t14 = sub_byte t04 0x32 in
    let t15 = (t05 + 0xED) % 256 in
    let t16 = bit_xor t06 0xF3 in
    let t17 = sub_byte t13 t0F in
    let t18 = (t15 + t07) % 256 in
    let t19 = sub_byte 0x21 t13 in
    let t1A = bit_xor t14 t17 in
    let t1B = (t16 + t16) % 256 in
    let t1C = (t17 + 0x44) % 256 in
    let t1D = (t03 + t04) % 256 in
    let t1E = sub_byte t05 t16 in
    let t1F = bit_xor t1D t13 % 256 in
    t00 ∷ t01 ∷ t02 ∷ t03 ∷ t04 ∷ t05 ∷ t06 ∷ t07 ∷ t08 ∷ t09 ∷ t0A ∷ t0B ∷ t0C ∷ t0D ∷ t0E ∷ t0F
    ∷ t10 ∷ t11 ∷ t12 ∷ t13 ∷ t14 ∷ t15 ∷ t16 ∷ t17 ∷ t18 ∷ t19 ∷ t1A ∷ t1B ∷ t1C ∷ t1D ∷ t1E ∷ t1F
    ∷ []

-- `[]byte("URUC")`.
abbrev pub audio_letters : Bytes
audio_letters = b'U' ∷ b'R' ∷ b'U' ∷ b'C' ∷ []

unfoldable pub audio_mask : ℕ → Bytes → Bytes
audio_mask i [] = []
audio_mask i (t ∷ ts) =
    (if i % 2 == 0 then bit_xor t 0xFF else get_or audio_letters (i / 2 % 4) 0)
    ∷ audio_mask (i + 1) ts

pub record Masks : Type 0 where
  pub video₁ : Bytes
  pub video₂ : Bytes
  pub audio : Bytes

unfoldable pub get_mask : ℕ → Masks
unfolding key_table audio_mask
get_mask key =
    let t = key_table key in
    record { video₁ = t; video₂ = map (λ b. bit_xor b 0xFF) t; audio = audio_mask 0 t }

-- `for i := 0x100; i < size; i++`.
unfoldable pub unmask_tail : Bytes → Bytes → ℕ → Bytes → Bytes
unmask_tail key mask i [] = []
unmask_tail key mask i (c ∷ cs) =
    let p = bit_xor c (get_or mask (i % 32) 0) in
    p ∷ unmask_tail key (set mask (i % 32) (bit_xor p (get_or key (i % 32) 0))) (i + 1) cs

-- `for i := 0; i < 0x100; i++`, with the bytes 0x100 further on, which are unmasked by then.
unfoldable pub unmask_head : Bytes → ℕ → Bytes → Bytes → Bytes
unmask_head mask i (c ∷ cs) (r ∷ rs) =
    let m = bit_xor (get_or mask (i % 32) 0) r in
    bit_xor c m ∷ unmask_head (set mask (i % 32) m) (i + 1) cs rs
unmask_head mask i cs _ = cs

-- What follows the 0x40 bytes that are left alone, of which there are 0x200 at least.
unfoldable pub unmask_body : Masks → Bytes → Bytes
unfolding unmask_tail unmask_head
unmask_body masks body =
    let rest = unmask_tail masks.video₂ masks.video₂ 0x100 (drop 0x100 body) in
    unmask_head masks.video₁ 0 (take 0x100 body) rest ++ rest

unfoldable pub mask_video : Bytes → Masks → Bytes
unfolding unmask_body
mask_video content masks =
    if leb (0x40 + 0x200) (length content)
    then take 0x40 content ++ unmask_body masks (drop 0x40 content)
    else content

-- `for i := 0; i < size; i++`.
unfoldable pub unmask_audio : Bytes → ℕ → Bytes → Bytes
unmask_audio mask i [] = []
unmask_audio mask i (c ∷ cs) = bit_xor c (get_or mask (i % 32) 0) ∷ unmask_audio mask (i + 1) cs

unfoldable pub mask_audio : Bytes → Bytes → Bytes
unfolding unmask_audio
mask_audio content mask = take 0x140 content ++ unmask_audio mask 0 (drop 0x140 content)
