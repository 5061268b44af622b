-- ===== src/Hca/Ath/Closed.antt =====
-- The curve entry by entry, with no loop.
use moe_asset_updater_client.Base.{
  ℕ, zero, suc, ◌+◌, ◌*◌, ◌/◌, ◌^◌, ◌≤◌, ◌<◌, ◌≡◌, refl, ap, sym, ◌∙◌, arith, leb, if◌then◌else◌,
  get_or, length, replicate, length-replicate, Bool-cases, true, inl, inr, leb→le,
}
use moe_asset_updater_client.Hca.Ath.{ath_base_curve, ath_loop, ath_init1}

-- The entry for the frequency sum `acc`.
abbrev pub entry_at : ℕ → ℕ
entry_at acc = if leb 654 (acc / 2 ^ 13) then 0xFF else get_or ath_base_curve (acc / 2 ^ 13) 0

get_or-replicate : (n i v d : ℕ) → i < n → get_or (replicate n v) i d ≡ v
get_or-replicate zero i v d h = absurd (omega arith)
get_or-replicate (suc n) zero v d h = refl
get_or-replicate (suc n) (suc i) v d h = get_or-replicate n i v d (omega arith)

-- From 654 on everything is 0xFF.
entry_at_past : (a b : ℕ) → a ≤ b → leb 654 (a / 2 ^ 13) ≡ true → entry_at b ≡ 0xFF
entry_at_past a b h high =
    let far : 654 ≤ b / 2 ^ 13 = omega (arith, leb→le _ _ high) in ground arith

ath_loop-entry_at :
    (n rate acc i : ℕ) → i < n → get_or (ath_loop n rate acc) i 0 ≡ entry_at (acc + rate * (i + 1))
unfolding ath_loop
ath_loop-entry_at zero rate acc i h = absurd (omega arith)
ath_loop-entry_at (suc n) rate acc zero h = ground (arith)
ath_loop-entry_at (suc n) rate acc (suc i) h = elim (Bool-cases (leb 654 ((acc + rate) / 2 ^ 13))) [
  | inl high ↦ rw high (
      get_or-replicate n i 0xFF 0 (omega arith)
      ∙ sym (entry_at_past (acc + rate) (acc + rate * (suc i + 1)) (omega arith) high))
  | inr low ↦
      rw low (ath_loop-entry_at n rate (acc + rate) i (omega arith) ∙ ap entry_at (omega arith))
]

length-ath_loop : (n rate acc : ℕ) → length (ath_loop n rate acc) ≡ n
unfolding ath_loop
length-ath_loop zero rate acc = refl
length-ath_loop (suc n) rate acc =
    ground (arith, length-ath_loop n rate (acc + rate), length-replicate {A = ℕ} (suc n) 0xFF)

-- For every sample rate the curve has 128 entries, and entry i is the base curve's at
-- (i + 1) * rate / 8192, or 0xFF from position 654 on.
pub ath_init1-entry_at :
    (rate : ℕ)
    → (length (ath_init1 rate) ≡ 128)
      × ((i : ℕ) → i < 128 → get_or (ath_init1 rate) i 0 ≡ entry_at (rate * (i + 1)))
unfolding ath_init1
ath_init1-entry_at rate = (
  length-ath_loop 128 rate 0,
  λ i h. ath_loop-entry_at 128 rate 0 i h ∙ ap entry_at (omega arith),
)
