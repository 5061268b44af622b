-- ===== src/Hca/Bitreader/Window.antt =====
-- What the bits of a byte slice are, with no reader: most significant first, eight to a byte.
use moe_asset_updater_client.Base.{
  ℕ, zero, suc, ◌+◌, ◌*◌, ◌/◌, ◌%◌, ◌^◌, ◌≤◌, ◌<◌, ◌≡◌, refl, ap, List, [], ◌∷◌, ◌++◌, arith,
  length, take, drop, All, All-append, Bytes,
}
use native.Mathlib.Nat.{pow-suc, zero-add, suc-add}

abbrev pub byte_bits : ℕ → List ℕ
byte_bits b =
    b / 128 % 2
    ∷ b / 64 % 2
    ∷ b / 32 % 2
    ∷ b / 16 % 2
    ∷ b / 8 % 2
    ∷ b / 4 % 2
    ∷ b / 2 % 2
    ∷ b % 2
    ∷ []

abbrev pub bits : Bytes → List ℕ
bits [] = []
bits (b ∷ bs) = byte_bits b ++ bits bs

-- The number that a run of bits stands for.
abbrev pub value_onto : ℕ → List ℕ → ℕ
value_onto v [] = v
value_onto v (x ∷ xs) = value_onto (2 * v + x) xs

-- The k bits from position `pos` on, as a number.
abbrev pub bits_at : Bytes → ℕ → ℕ → ℕ
bits_at bytes pos k = value_onto 0 (take k (drop pos (bits bytes)))

abbrev pub IsBit : ℕ → Type 0
IsBit x = x < 2

pub value_onto-split : (xs : List ℕ) (v : ℕ) → value_onto v xs ≡ v * 2 ^ length xs + value_onto 0 xs
value_onto-split [] v = omega arith
value_onto-split (x ∷ xs) v = ground (
  arith,
  value_onto-split xs (2 * v + x),
  value_onto-split xs x,
  ap (λ (t : ℕ). v * t) (pow-suc 2 (length xs)),
)

value_onto-append :
    (xs ys : List ℕ) (v : ℕ) → value_onto v (xs ++ ys) ≡ value_onto (value_onto v xs) ys
value_onto-append [] ys v = refl
value_onto-append (x ∷ xs) ys v = value_onto-append xs ys (2 * v + x)

value_onto-lt : (xs : List ℕ) → All IsBit xs → value_onto 0 xs < 2 ^ length xs
value_onto-lt [] h = omega arith
value_onto-lt (zero ∷ xs) h = omega (arith, pow-suc 2 (length xs), value_onto-lt xs h.1)
value_onto-lt (suc zero ∷ xs) h =
    omega (arith, pow-suc 2 (length xs), value_onto-split xs 1, value_onto-lt xs h.1)
value_onto-lt (suc (suc x) ∷ xs) h = absurd (omega (arith, h.0))

pow-add : (k c : ℕ) → 2 ^ (k + c) ≡ 2 ^ k * 2 ^ c
pow-add zero c = rw zero-add (omega arith)
pow-add (suc k) c =
    ground
      (arith, pow-suc 2 k, pow-suc 2 (k + c), pow-add k c, ap (λ (t : ℕ). t * 2 ^ c) (pow-suc 2 k))

mod_low : (q m r : ℕ) → r < m → (q * m + r) % m ≡ r
mod_low q m r h = grind arith

div_high : (q m r : ℕ) → r < m → (q * m + r) / m ≡ q
div_high q m r h = grind arith

middle : (a b c p q : ℕ) → b < p → c < q → ((a * p + b) * q + c) % (p * q) / q ≡ b
middle a b c p q hb hc =
    let e : (a * p + b) * q + c ≡ a * (p * q) + (b * q + c) = omega arith in
    rw (e, mod_low a (p * q) (b * q + c) (grind arith)) (div_high b q c hc)

-- The middle of three runs of bits: what `&` and `>>` cut out of the number of all three.
pub value_middle :
    (a b c : List ℕ)
    → All IsBit b
    → All IsBit c
    → value_onto 0 (a ++ (b ++ c)) % 2 ^ (length b + length c) / 2 ^ length c ≡ value_onto 0 b
value_middle a b c hb hc =
    rw
      (
        value_onto-append a (b ++ c) 0,
        value_onto-append b c (value_onto 0 a),
        value_onto-split c (value_onto (value_onto 0 a) b),
        value_onto-split b (value_onto 0 a),
        pow-add (length b) (length c),
      )
      (middle (value_onto 0 a) _ _ _ _ (value_onto-lt b hb) (value_onto-lt c hc))

pub bits-IsBit : (bytes : Bytes) → All IsBit (bits bytes)
bits-IsBit [] = tt
bits-IsBit (b ∷ bs) = All-append IsBit (byte_bits b) (bits bs) (omega arith) (bits-IsBit bs)

pub bits-append : (xs ys : Bytes) → bits (xs ++ ys) ≡ bits xs ++ bits ys
bits-append [] ys = refl
bits-append (x ∷ xs) ys = rw (bits-append xs ys)

pub length-bits : (bytes : Bytes) → length (bits bytes) ≡ 8 * length bytes
length-bits [] = refl
length-bits (b ∷ bs) = omega (arith, length-bits bs)

pub drop-add {ℓ} : {A : Type ℓ} (a b : ℕ) (xs : List A) → drop (a + b) xs ≡ drop b (drop a xs)
drop-add zero b xs = rw zero-add
drop-add (suc a) zero [] = rw suc-add
drop-add (suc a) (suc b) [] = rw suc-add
drop-add (suc a) b (x ∷ xs) = rw suc-add (drop-add a b xs)

pub take-drop_append {ℓ} :
    {A : Type ℓ} (r k : ℕ) (xs ys : List A)
    → r + k ≤ length xs
    → take k (drop r (xs ++ ys)) ≡ take k (drop r xs)
take-drop_append zero zero xs ys h = refl
take-drop_append zero (suc k) [] ys h = absurd (omega arith)
take-drop_append zero (suc k) (x ∷ xs) ys h =
    ap (◌∷◌ x) (take-drop_append zero k xs ys (omega arith))
take-drop_append (suc r) k [] ys h = absurd (omega arith)
take-drop_append (suc r) k (x ∷ xs) ys h = take-drop_append r k xs ys (omega arith)

pub drop-bits :
    (j r : ℕ) (bytes : Bytes)
    → j ≤ length bytes
    → drop (8 * j + r) (bits bytes) ≡ drop r (bits (drop j bytes))
drop-bits zero r bytes h = rw zero-add
drop-bits (suc j) r [] h = absurd (omega arith)
drop-bits (suc j) r (b ∷ bs) h =
    let e : 8 * suc j + r ≡ 8 + (8 * j + r) = omega arith in
    rw (e, drop-add 8 (8 * j + r) (bits (b ∷ bs))) (drop-bits j r bs (omega arith))
