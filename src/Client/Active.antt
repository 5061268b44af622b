-- ===== src/Client/Active.antt =====
-- The set of active tasks, `Worker.active`: `addActive`, `removeActive`, `activeTaskIDs` and
-- `activeTaskCount` of internal/client/worker.go. The map is the list of its keys, each one once; the
-- order in which Go walks a map is not promised, so that only membership and the count mean anything.
use moe_asset_updater_client.Base.{
  ℕ, ◌≡◌, Bool, false, not, ◌&&◌, ◌||◌, List, [], ◌∷◌, arith, length, if◌then◌else◌, Bytes, equal,
  equal_iff, Bool-cases, inl, inr,
}

unfoldable pub is_active : Bytes → List Bytes → Bool
is_active id [] = false
is_active id (x ∷ xs) = equal id x || is_active id xs

unfoldable pub add_active : Bytes → List Bytes → List Bytes
unfolding is_active
add_active id active = if is_active id active then active else id ∷ active

unfoldable pub remove_active : Bytes → List Bytes → List Bytes
remove_active id [] = []
remove_active id (x ∷ xs) = let rest = remove_active id xs in if equal id x then rest else x ∷ rest

abbrev pub active_task_ids : List Bytes → List Bytes
active_task_ids active = active

abbrev pub active_task_count : List Bytes → ℕ
active_task_count = length

pub is_active-add_active :
    (id j : Bytes) (active : List Bytes)
    → is_active j (add_active id active) ≡ (equal j id || is_active j active)
unfolding add_active is_active
is_active-add_active id j active = elim (Bool-cases (is_active id active)) [
  | inl e ↦ elim (Bool-cases (equal j id)) [
    | inl k ↦ rw (e, k) (rw ((equal_iff j id).0 k) e)
    | inr k ↦ rw (e, k)
  ]
  | inr e ↦ rw e
]

pub is_active-remove_active :
    (id j : Bytes) (active : List Bytes)
    → is_active j (remove_active id active) ≡ (not (equal j id) && is_active j active)
unfolding remove_active is_active
is_active-remove_active id j [] = ground arith
is_active-remove_active id j (x ∷ xs) =
    ground (arith, is_active-remove_active id j xs, equal_iff id x, equal_iff j x, equal_iff j id)
