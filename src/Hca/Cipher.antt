-- ===== src/Hca/Cipher.antt =====
-- The substitution ciphers of HCA frames: `cipherDecrypt`, `cipherInit0`, `cipherInit1`,
-- `cipherInit56CreateTable`, `cipherInit56`, `cipherInit` of internal/cricodecs/hca/clhca.go.
-- A table is the list of its 256 bytes. The array that an initialiser overwrites is an argument
-- where some of its entries could survive.
pub mod Nibbles
use moe_asset_updater_client.Base.{
  ℕ, zero, suc, ◌+◌, ◌-◌, ◌*◌, ◌/◌, ◌%◌, ◌^◌, bit_and, bit_or, bit_xor, Bool, true, false, not,
  ◌&&◌, ◌||◌, List, [], ◌∷◌, ◌++◌, map, some, none, ltb, ◌==◌, if◌then◌else◌, get_elem?, get_or,
  set, length, Bytes,
}
use moe_asset_updater_client.Base.Outcome.{Outcome, ok, err, panic, ◌>>=◌}

-- `data[i] = cipherTable[data[i]]` for the first `size` bytes; an index past the slice panics.
-- A byte indexes an array of 256, so the table's index is in range.
unfoldable pub cipher_decrypt {ℓ} : {E : Type ℓ} → List ℕ → Bytes → ℕ → Outcome E Bytes
cipher_decrypt table bytes zero = ok bytes
cipher_decrypt table [] (suc n) = panic
cipher_decrypt table (b ∷ bytes) (suc n) = do
  rest ← cipher_decrypt table bytes n
  ok (get_or table b 0 ∷ rest)

-- `start, start + 1, …`, n numbers.
unfoldable pub count_from : ℕ → ℕ → List ℕ
count_from start zero = []
count_from start (suc n) = start ∷ count_from (start + 1) n

unfoldable pub cipher_init0 : List ℕ
unfolding count_from
cipher_init0 = map (λ i. i % 2 ^ 8) (count_from 0 256)

-- `v = (v*mul + add) & 0xFF`, once more if that gives 0 or 0xFF.
abbrev pub next_value : ℕ → ℕ
next_value v =
    let w = bit_and (v * 13 + 11) 0xFF in
    if w == 0 || w == 0xFF then bit_and (w * 13 + 11) 0xFF else w

unfoldable pub init1_values : ℕ → ℕ → List ℕ
init1_values zero v = []
init1_values (suc n) v = next_value v ∷ init1_values n (next_value v)

-- Entries 1 to 254 in turn, then the first and the last.
unfoldable pub cipher_init1 : List ℕ
unfolding init1_values
cipher_init1 = 0 ∷ (init1_values 254 0 ++ 0xFF ∷ [])

-- `key = (key*mul + add) & 0xF; r[i] = key`, n times.
unfoldable pub nibble_values : ℕ → ℕ → ℕ → ℕ → List ℕ
nibble_values zero mul add key = []
nibble_values (suc n) mul add key =
    let key' = bit_and ((key * mul + add) % 2 ^ 8) 0xF in key' ∷ nibble_values n mul add key'

unfoldable pub cipher_init56_create_table : ℕ → List ℕ
unfolding nibble_values
cipher_init56_create_table key =
    nibble_values 16 (bit_or (bit_and key 1 * 2 ^ 3) 5) (bit_or (bit_and key 0xE) 1) (key / 2 ^ 4)

-- `kc[r] = byte(keycode & 0xFF); keycode >>= 8`, seven times.
unfoldable pub key_bytes : ℕ → ℕ → List ℕ
key_bytes zero keycode = []
key_bytes (suc n) keycode = bit_and keycode 0xFF ∷ key_bytes n (keycode / 2 ^ 8)

unfoldable pub key_seed : List ℕ → List ℕ
key_seed kc =
    let k = λ (i : ℕ). get_or kc i 0 in
    k 1
    ∷ bit_xor (k 1) (k 6)
    ∷ bit_xor (k 2) (k 3)
    ∷ k 2
    ∷ bit_xor (k 2) (k 1)
    ∷ bit_xor (k 3) (k 4)
    ∷ k 3
    ∷ bit_xor (k 3) (k 2)
    ∷ bit_xor (k 4) (k 5)
    ∷ k 4
    ∷ bit_xor (k 4) (k 3)
    ∷ bit_xor (k 5) (k 6)
    ∷ k 5
    ∷ bit_xor (k 5) (k 4)
    ∷ bit_xor (k 6) (k 1)
    ∷ k 6
    ∷ []

-- `base[r*16+c] = nb | baseC[c]`, row by row, with `nb = baseR[r] << 4`.
unfoldable pub base_rows : List ℕ → List ℕ → List ℕ
unfolding cipher_init56_create_table
base_rows (r ∷ rs) (s ∷ ss) =
    map (λ c. bit_or (r * 2 ^ 4 % 2 ^ 8) c) (cipher_init56_create_table s) ++ base_rows rs ss
base_rows _ _ = []

-- The last loop: `x = (x + 17) & 0xFF`, and every byte but 0 and 0xFF goes to the next position.
unfoldable pub fill_table : ℕ → List ℕ → List ℕ → ℕ → ℕ → List ℕ
fill_table zero base table x next = table
fill_table (suc n) base table x next =
    let x' = bit_and (x + 17) 0xFF in
    let b = get_or base x' 0 in
    let keep = not (b == 0) && not (b == 0xFF) in
    fill_table n base (if keep then set table next b else table) x'
      (if keep then next + 1 else next)

unfoldable pub cipher_init56 : List ℕ → ℕ → List ℕ
unfolding key_bytes key_seed base_rows fill_table cipher_init56_create_table
cipher_init56 table keycode =
    let kc = key_bytes 7 (if keycode == 0 then keycode else keycode - 1) in
    let base = base_rows (cipher_init56_create_table (get_or kc 0 0)) (key_seed kc) in
    set (set (fill_table 256 base table 0 1) 0 0) 0xFF 0xFF

-- `invalid` is the error value of the caller.
unfoldable pub cipher_init {ℓ} : {E : Type ℓ} → E → List ℕ → ℕ → ℕ → Outcome E (List ℕ)
unfolding cipher_init0 cipher_init1 cipher_init56
cipher_init invalid table ciph_type keycode =
    let kind = if ciph_type == 56 && keycode == 0 then 0 else ciph_type in
    if kind == 0
    then ok cipher_init0
    else if kind == 1
    then ok cipher_init1
    else if kind == 56
    then ok (cipher_init56 table keycode)
    else err invalid
