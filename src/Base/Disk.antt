-- ===== src/Base/Disk.antt =====
-- The files of a disk, with their sizes. Directories are not modelled.
use Prim.Native.Nat.{ℕ}
use mathlib.Core.Path.{◌≡◌}
use mathlib.Core.Option.{Option, none, some}
use mathlib.Core.List.{List, [], ◌∷◌}
use native.Mathlib.Omega.{arith}
use moe_asset_updater_client.Base.Tests.{if◌then◌else◌}
use moe_asset_updater_client.Base.Text.{Bytes, equal, equal_iff}

abbrev pub Disk : Type 0
Disk = List (Bytes × ℕ)

-- `os.Stat(p)`: the size, or that there is no such file.
unfoldable pub size_of : Bytes → Disk → Option ℕ
unfolding equal
size_of p [] = none
size_of p ((q, n) ∷ d) = let rest = size_of p d in if equal p q then some n else rest

unfoldable pub delete : Bytes → Disk → Disk
unfolding equal
delete p [] = []
delete p ((q, n) ∷ d) = let rest = delete p d in if equal p q then rest else (q, n) ∷ rest

-- The file is new, or replaced.
abbrev pub put : Bytes → ℕ → Disk → Disk
put p n d = (p, n) ∷ delete p d

pub size_of-delete :
    (p q : Bytes) (d : Disk) → size_of q (delete p d) ≡ (if equal q p then none else size_of q d)
unfolding size_of delete
size_of-delete p q [] = ground arith
size_of-delete p q ((r, n) ∷ d) =
    ground (arith, size_of-delete p q d, equal_iff q p, equal_iff p r, equal_iff q r)
