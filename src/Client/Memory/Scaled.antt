-- ===== src/Client/Memory/Scaled.antt =====
-- How numbers of bytes are logged.
use moe_asset_updater_client.Base.{
  ℕ, zero, suc, ◌+◌, ◌*◌, ◌/◌, ◌%◌, ◌^◌, ◌<◌, ◌≤◌, ◌≡◌, refl, ap, ◌∙◌, sym, false, arith, ltb, leb,
  Bool-cases, inl, inr, lt→ltb, leb→le, ltb→lt, ◌⊎◌,
}
use native.Mathlib.Nat.{mul-le-mul_left, mul_comm, pow-succ'}
use moe_asset_updater_client.Base.Outcome.{Outcome, ok, err, panic}
use moe_asset_updater_client.Client.Memory.{
  Formatted, unlimited, plain, scaled, scale, format_bytes,
}

-- The number is written as it is below 1024, and otherwise with a unit that exists and that fits it.
abbrev pub Fits : ℕ → Outcome (Unit {0}) Formatted → Type 0
Fits v (ok unlimited) = ⊥
Fits v (ok (plain n)) = (n ≡ v) × (v < 1024)
Fits v (ok (scaled div exp)) = (exp < 6) × (div ≡ 1024 ^ (exp + 1)) × (div ≤ v) × (v < div * 1024)
Fits v (err e) = ⊥
Fits v panic = ⊥

-- A unit below the sixth, where the next one is still in range.
small : (exp div : ℕ) → div ≡ 1024 ^ (exp + 1) → div * 1024 < 2 ^ 64 → exp ≤ 5 → exp + 1 ≤ 5
small exp div e h le = elim (at_most exp le) [
  | inl five ↦ absurd (fifth (e ∙ ap (λ i. 1024 ^ (i + 1)) five))
  | inr less ↦ less
]
  where
    at_most : (exp : ℕ) → exp ≤ 5 → (exp ≡ 5) ⊎ (exp + 1 ≤ 5)
    at_most exp le = omega arith

    fifth : div ≡ 1024 ^ 6 → ⊥
    fifth e = omega arith

below_unit : (n : ℕ) → leb 1024 n ≡ false → n + 1 ≤ 1024
below_unit n h = ground arith

next_power : (n : ℕ) → 1024 ^ n * 1024 ≡ 1024 ^ (n + 1)
next_power n = mul_comm (1024 ^ n) 1024 ∙ sym (pow-succ' 1024 n) ∙ ap (λ i. 1024 ^ i) (omega arith)

scale-Fits :
    (left v n exp div : ℕ)
    → div ≡ 1024 ^ (exp + 1)
    → div * n ≤ v
    → v < div * (n + 1)
    → 1 ≤ n
    → v < 2 ^ 64
    → exp ≤ 5
    → 6 ≤ left + exp
    → Fits v (scale left n div exp)
unfolding scale
scale-Fits zero v n exp div e lo hi one bound le enough = absurd (omega arith)
scale-Fits (suc left) v n exp div e lo hi one bound le enough = elim (Bool-cases (leb 1024 n)) [
  | inl large ↦
      let next = mul-le-mul_left div (leb→le 1024 n large) in
      let lower : 1024 * (n / 1024) ≤ n = omega arith in
      let upper : n + 1 ≤ 1024 * (n / 1024 + 1) = omega arith in
      let wrap : div * 1024 % 2 ^ 64 ≡ div * 1024 = omega (arith, next) in
      let from_below = mul-le-mul_left div lower in
      let from_above = mul-le-mul_left div upper in
      rw (large, wrap)
        (scale-Fits left v (n / 1024) (exp + 1) (div * 1024)
          (ap (λ d. d * 1024) e ∙ next_power (exp + 1)) (omega (arith, from_below))
          (omega (arith, from_above)) (omega (arith, leb→le 1024 n large)) bound
          (small exp div e (omega (arith, next)) le) (omega arith))
  | inr last ↦
      let below = mul-le-mul_left div (below_unit n last) in
      let one_unit = mul-le-mul_left div one in
      rw (last, lt→ltb exp 6 (omega arith))
        (omega arith, e, omega (arith, one_unit), omega (arith, below))
]

-- Whatever the number of bytes, the loop that scales it ends, and the number is logged as it is below
-- 1024 and otherwise with one of the six units, the one that fits: it is at least one such unit and
-- less than 1024 of them.
pub format_bytes-Fits : (v : ℕ) → v < 2 ^ 64 → Fits v (format_bytes v)
unfolding format_bytes
format_bytes-Fits v bound = elim (Bool-cases (ltb v 1024)) [
  | inl e ↦ rw e (refl, ltb→lt v 1024 e)
  | inr e ↦ rw e (
      scale-Fits 64 v (v / 1024) 0 1024 refl (omega arith) (omega arith) (from_unit v e) bound
        (omega arith) (omega arith))
]
  where
    from_unit : (v : ℕ) → ltb v 1024 ≡ false → 1 ≤ v / 1024
    from_unit v h = omega (arith, at_least v h)
      where
        at_least : (v : ℕ) → ltb v 1024 ≡ false → 1024 ≤ v
        at_least v h = ground arith
