-- ===== src/Acb/Afs/Aligned.antt =====
-- How the entries of an archive follow from the offsets.
use moe_asset_updater_client.Base.{
  ℕ, ◌+◌, ◌-◌, ◌*◌, ◌/◌, ◌%◌, ◌^◌, ◌≤◌, ◌<◌, ◌≡◌, refl, ◌⊎◌, inl, inr, List, [], ◌∷◌, arith, ◌==◌,
  length, Bool-cases, pos→not_zero,
}
use native.Mathlib.Nat.{div-add-mod', mod-lt, mul-mod_left}
use moe_asset_updater_client.Acb.Afs.{Afs2FileEntry, align, entry_of, entries_of}

-- The offset rounded up.
round_up :
    (alignment offset : ℕ)
    → 0 < alignment
    → (offset ≤ (offset + (alignment - 1)) / alignment * alignment)
      × ((offset + (alignment - 1)) / alignment * alignment < offset + alignment)
round_up alignment offset p =
    let whole = div-add-mod' (offset + (alignment - 1)) alignment in
    let left = mod-lt (offset + (alignment - 1)) p in
    (omega (arith, whole, left), omega (arith, whole, left))

-- An entry starts at the first multiple of the alignment from its offset on, modulo 2^32, or at zero where
-- the alignment is zero, and ends where the next offset is, modulo 2^32.
pub record IsIndexed (alignment offset next : ℕ) (e : Afs2FileEntry) : Type 0 where
  pub aligned :
      ((alignment ≡ 0) × (e.offset ≡ 0))
      ⊎ ((start : ℕ) × (start % alignment ≡ 0)
          × (offset ≤ start)
          × (start < offset + alignment)
          × (e.offset ≡ start % 2 ^ 32))
  pub ends : (e.offset + e.size) % 2 ^ 32 ≡ next % 2 ^ 32

zero_or_pos : (n : ℕ) → (n ≡ 0) ⊎ (0 < n)
zero_or_pos n = omega arith

align-lt : (alignment offset : ℕ) → align alignment offset < 2 ^ 32
unfolding align
align-lt alignment offset = elim (Bool-cases (alignment == 0)) [
  | inl e ↦ rw e (omega arith)
  | inr e ↦ rw e (omega arith)
]

align-zero : (offset : ℕ) → align 0 offset ≡ 0
unfolding align
align-zero offset = refl

align-wraps :
    (alignment offset : ℕ)
    → 0 < alignment
    → align alignment offset ≡ (offset + (alignment - 1)) / alignment * alignment % 2 ^ 32
unfolding align
align-wraps alignment offset p = rw (pos→not_zero alignment p) refl

entry_of-IsIndexed :
    (alignment cue_id offset next : ℕ)
    → IsIndexed alignment offset next (entry_of alignment cue_id offset next)
entry_of-IsIndexed alignment cue_id offset next = record {
  aligned = elim (zero_or_pos alignment) [
    | inl z ↦ inl (z, rw z (align-zero offset))
    | inr p ↦
        (let start = (offset + (alignment - 1)) / alignment * alignment in
          let (from, to) = round_up alignment offset p in
          inr (
            start,
            mul-mod_left ((offset + (alignment - 1)) / alignment) alignment,
            from,
            to,
            align-wraps alignment offset p,
          ))
  ];
  ends = omega (arith, align-lt alignment offset);
}

-- Each entry is indexed by its offset and the next one.
abbrev pub Chain : ℕ → List ℕ → List Afs2FileEntry → Type 0
Chain alignment [] es = ⊥
Chain alignment (o ∷ []) [] = Unit
Chain alignment (o ∷ []) (e ∷ es) = ⊥
Chain alignment (o ∷ next ∷ os) [] = ⊥
Chain alignment (o ∷ next ∷ os) (e ∷ es) =
    IsIndexed alignment o next e × Chain alignment (next ∷ os) es

pub entries_of-Chain :
    (alignment : ℕ) (cues offsets : List ℕ)
    → length offsets ≡ length cues + 1
    → Chain alignment offsets (entries_of alignment cues offsets)
unfolding entries_of
entries_of-Chain alignment cues [] h = absurd (omega arith)
entries_of-Chain alignment [] (o ∷ []) h = tt
entries_of-Chain alignment [] (o ∷ next ∷ os) h = absurd (omega arith)
entries_of-Chain alignment (c ∷ cues) (o ∷ []) h = absurd (omega arith)
entries_of-Chain alignment (c ∷ cues) (o ∷ next ∷ os) h = (
  entry_of-IsIndexed alignment c o next,
  entries_of-Chain alignment cues (next ∷ os) (omega arith),
)
