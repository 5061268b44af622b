-- ===== src/Hca/Cipher/Nibbles.antt =====
-- The tables that the cipher is made of.
use moe_asset_updater_client.Base.{
  ℕ, suc, ◌<◌, ◌≡◌, refl, true, Bool, ◌&&◌, List, [], ◌∷◌, ◌==◌, ==_iff, &&_iff, if◌then◌else◌,
  get_or, length,
}
use moe_asset_updater_client.Base.Tests.{all_below, all_below_sound}
use moe_asset_updater_client.Hca.Cipher.{cipher_init0, cipher_init1, cipher_init56_create_table}

-- Where a value stands in a list, or the length.
abbrev pub position : ℕ → List ℕ → ℕ
position v [] = 0
position v (x ∷ xs) = if x == v then 0 else suc (position v xs)

-- `values` holds every number below n, each at one place only.
abbrev pub Enumerates : ℕ → List ℕ → Type 0
Enumerates n values =
    (length values ≡ n)
    × ((v : ℕ) → v < n → get_or values (position v values) n ≡ v)
    × ((i : ℕ) → i < n → position (get_or values i n) values ≡ i)

abbrev enumerates : ℕ → List ℕ → Bool
enumerates n values =
    length values == n
    && all_below n (λ v. get_or values (position v values) n == v)
    && all_below n (λ i. position (get_or values i n) values == i)

enumerates_sound : (n : ℕ) (values : List ℕ) → enumerates n values ≡ true → Enumerates n values
enumerates_sound n values h =
    let outer = (&&_iff _ _).0 h in
    let inner = (&&_iff _ _).0 outer.0 in
    (
      (==_iff _ _).0 inner.0,
      λ v lt. (==_iff _ _).0 (all_below_sound n _ v inner.1 lt),
      λ i lt. (==_iff _ _).0 (all_below_sound n _ i outer.1 lt),
    )

nibbles_table : all_below 256 (λ key. enumerates 16 (cipher_init56_create_table key)) ≡ true
unfolding all_below cipher_init56_create_table
nibbles_table = refl

-- For every key byte, the nibble table has sixteen entries and holds each nibble at one place only.
pub cipher_init56_create_table-Enumerates :
    (key : ℕ) → key < 256 → Enumerates 16 (cipher_init56_create_table key)
cipher_init56_create_table-Enumerates key h = enumerates_sound 16 (cipher_init56_create_table key) (
    all_below_sound 256 (λ key. enumerates 16 (cipher_init56_create_table key)) key nibbles_table h)

fixed_tables : (enumerates 256 cipher_init0 && enumerates 256 cipher_init1) ≡ true
unfolding all_below cipher_init0 cipher_init1
fixed_tables = refl

-- The tables of cipher types 0 and 1 have 256 entries and hold each byte at one place only.
pub fixed_tables-Enumerates : Enumerates 256 cipher_init0 × Enumerates 256 cipher_init1
fixed_tables-Enumerates =
    let both = (&&_iff _ _).0 fixed_tables in
    (enumerates_sound 256 cipher_init0 both.0, enumerates_sound 256 cipher_init1 both.1)
