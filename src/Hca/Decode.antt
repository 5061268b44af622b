-- ===== src/Hca/Decode.antt =====
-- The chunk decoders share one bit reader by reference: a computation over it that may fail.
use moe_asset_updater_client.Base.{
  ℕ, ◌≡◌, refl, Bool, true, false, List, ltb, if◌then◌else◌, length, set, bit_and,
}
use moe_asset_updater_client.Base.Outcome
use moe_asset_updater_client.Base.Outcome.{Outcome, ok, err, panic, OnOk}
use moe_asset_updater_client.Hca.Bitreader.{ClData, bitreader_peek, bitreader_read, bitreader_skip}
use moe_asset_updater_client.Hca.State.{HcaError, hca_mask}

abbrev pub Decode : Type 0 → Type 0
Decode A = ClData → Outcome HcaError (A × ClData)

unfoldable pub pure : {A : Type 0} → A → Decode A
pure a br = ok (a, br)

infixl 5 ◌>>=◌ ◌>>◌
unfoldable pub ◌>>=◌ : {A B : Type 0} → Decode A → (A → Decode B) → Decode B
◌>>=◌ m f br = elim (m br) [ ok (a, br') ↦ f a br' | err e ↦ err e | panic ↦ panic ]

abbrev pub ◌>>◌ : {B : Type 0} → Decode (Unit {0}) → Decode B → Decode B
m >> k = m >>= λ _. k

-- `if !test { return e }`.
unfoldable pub require : Bool → HcaError → Decode (Unit {0})
require test e br = if test then ok (tt, br) else err e

unfoldable pub lift : {A : Type 0} → Outcome HcaError A → Decode A
lift (ok a) br = ok (a, br)
lift (err e) br = err e
lift panic br = panic

unfoldable pub read : ℕ → Decode ℕ
read n br = bitreader_read br n

unfoldable pub skip : ℕ → Decode (Unit {0})
skip n br = ok (tt, bitreader_skip br n)

-- `if test { m } else { k }`.
unfoldable pub choose : {A : Type 0} → Bool → Decode A → Decode A → Decode A
choose test m k br = elim test [ true ↦ m br | false ↦ k br ]

-- `bitreaderPeek(br, 32) & hcaMask`: the tag of the next chunk, without the cipher's top bits.
unfoldable pub peek_tag : Decode ℕ
peek_tag br = Outcome.◌>>=◌ (bitreader_peek br 32) λ v. ok (bit_and v hca_mask, br)

-- `xs[i] = v`; an index past the array panics.
unfoldable pub store : {A : Type 0} → List A → ℕ → A → Outcome HcaError (List A)
store xs i v = if ltb i (length xs) then ok (set xs i v) else panic

-- Whatever the bits, a result of `m` satisfies P.
pub record Gives {A : Type 0} (P : A → Type 0) (m : Decode A) : Type 0 where
  pub result : (br : ClData) → OnOk (λ (p : A × ClData). P p.0) (m br)

module _ {A : Type 0} {P : A → Type 0} where
  pub done : (a : A) → P a → Gives P (pure a)
  unfolding pure
  done a h = record { result = λ br. h }

  pub branch :
      (b : Bool) (m k : Decode A)
      → (b ≡ true → Gives P m)
      → (b ≡ false → Gives P k)
      → Gives P (choose b m k)
  unfolding choose
  branch true m k t f = t refl
  branch false m k t f = f refl

  pub tested :
      (test : Bool) (e : HcaError) (f : Unit {0} → Decode A)
      → (test ≡ true → Gives P (f tt))
      → Gives P (require test e >>= f)
  unfolding ◌>>=◌ require
  tested true e f t = record { result = λ br. (t refl).result br }
  tested false e f t = record { result = λ br. tt }

  pub refused : (e : HcaError) (f : Unit {0} → Decode A) → Gives P (require false e >>= f)
  refused e f = tested false e f (λ h. cc)

module _ {A B : Type 0} {P : B → Type 0} where
  on_outcome :
      (Q : A → Type 0) (f : A → Decode B) (r : Outcome HcaError (A × ClData))
      → OnOk (λ (p : A × ClData). Q p.0) r
      → ((a : A) → Q a → Gives P (f a))
      → OnOk
          (λ (p : B × ClData). P p.0)
          (elim r [ ok (a, br') ↦ f a br' | err e ↦ err e | panic ↦ panic ])
  on_outcome Q f (ok (a, br)) q k = (k a q).result br
  on_outcome Q f (err e) q k = tt
  on_outcome Q f panic q k = tt

  -- The bind of a computation with a known postcondition.
  pub after :
      (m : Decode A) (f : A → Decode B) (Q : A → Type 0)
      → Gives Q m
      → ((a : A) → Q a → Gives P (f a))
      → Gives P (m >>= f)
  unfolding ◌>>=◌
  after m f Q g k = record { result = λ br. on_outcome Q f (m br) (g.result br) k }

anything : {A : Type 0} (r : Outcome HcaError (A × ClData)) → OnOk (λ (p : A × ClData). Unit {0}) r
anything (ok a) = tt
anything (err e) = tt
anything panic = tt

-- The bind of a computation of which nothing is known.
pub any :
    {A B : Type 0} {P : B → Type 0} (m : Decode A) (f : A → Decode B)
    → ((a : A) → Gives P (f a))
    → Gives P (m >>= f)
any m f k = after m f (λ a. Unit {0}) (record { result = λ br. anything (m br) }) (λ a _. k a)
