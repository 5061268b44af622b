-- ===== src/Config/Trim.antt =====
-- Texts as lists of code points, with `strings.TrimSpace`.
use moe_asset_updater_client.Base.{
  ℕ, Bool, ◌&&◌, ◌||◌, List, [], ◌∷◌, reverse, leb, ◌==◌, if◌then◌else◌, codes,
}
use Prim.Native.String.{String}

abbrev pub Text : Type 0
Text = List ℕ

abbrev pub text : String → Text
text = codes

-- `unicode.IsSpace`.
unfoldable pub is_space : ℕ → Bool
is_space r =
    leb 0x09 r && leb r 0x0D
    || (r == 0x20)
    || (r == 0x85)
    || (r == 0xA0)
    || (r == 0x1680)
    || (leb 0x2000 r && leb r 0x200A)
    || (r == 0x2028)
    || (r == 0x2029)
    || (r == 0x202F)
    || (r == 0x205F)
    || (r == 0x3000)

unfoldable pub trim_left : Text → Text
unfolding is_space
trim_left [] = []
trim_left (r ∷ rs) = let rest = trim_left rs in if is_space r then rest else r ∷ rs

unfoldable pub trim_space : Text → Text
unfolding trim_left
trim_space s = reverse (trim_left (reverse (trim_left s)))
