-- ===== src/Usm/Chunks/Reads.antt =====
-- Reads at a position whose bytes are known.
use moe_asset_updater_client.Base.{
  ℕ, zero, suc, ◌+◌, ◌-◌, ◌/◌, ◌%◌, ◌^◌, ◌<◌, ◌≡◌, refl, sym, ap, ◌∙◌, none, List, [], ◌∷◌, ◌++◌,
  arith, le→leb, append-nil, length, drop, replicate, take-length_append, drop-length_append, Bytes,
}
use moe_asset_updater_client.Base.Int.{pos, negsuc}
use moe_asset_updater_client.Base.Outcome.{ok}
use moe_asset_updater_client.Binary.{
  Got, big, ordered, padded, seek_current, read_bytes, read_length, read_uint, read_uint16,
  read_uint32, read_uchar,
}
use native.Mathlib.Nat.{zero-add}

suc_sum : (n k : ℕ) → suc n + k ≡ suc (n + k)
suc_sum n k = omega arith

drop-nil {ℓ} : {A : Type ℓ} (n : ℕ) → drop {A = A} n [] ≡ []
drop-nil zero = refl
drop-nil (suc n) = refl

pub drop-drop {ℓ} : {A : Type ℓ} (n k : ℕ) (xs : List A) → drop (n + k) xs ≡ drop k (drop n xs)
drop-drop zero k xs = ap (λ t. drop t xs) (zero-add k)
drop-drop (suc n) k [] = drop-nil (suc n + k) ∙ sym (drop-nil k)
drop-drop (suc n) k (x ∷ xs) = ap (λ t. drop t (x ∷ xs)) (suc_sum n k) ∙ drop-drop n k xs

-- The bytes of the content from the position on.
pub record At (content : Bytes) (p : ℕ) (rest : Bytes) : Type 0 where
  pub seen : drop p content ≡ rest

abbrev pub complete : {A : Type 0} → A → ℕ → Got A
complete x after = record { value = x; fault = none; after = after }

-- A big-endian number from a read of bytes.
abbrev as_uint : Got Bytes → Got ℕ
as_uint got = record { value = ordered big got.value; fault = got.fault; after = got.after }

no_padding : (n : ℕ) → replicate {A = ℕ} (n - n) 0 ≡ []
no_padding n = let e : n - n ≡ 0 = omega arith in ap (λ k. replicate {A = ℕ} k 0) e

padded_whole : (got : Bytes) (p : ℕ) → padded (length got) got p ≡ complete got (p + length got)
padded_whole got p =
    rw (le→leb (length got) (length got) (omega arith), no_padding (length got), append-nil got)
      refl

pub seek_current_forward : (k p : ℕ) → seek_current (pos k) p ≡ p + k
unfolding seek_current
seek_current_forward k p = ground arith

pub seek_current_back : (k p : ℕ) → seek_current (negsuc k) (p + suc k) ≡ p
unfolding seek_current
seek_current_back k p = ground arith

-- Two and four bytes, the highest first.
unfoldable pub be16 : ℕ → Bytes
be16 v = v / 2 ^ 8 % 256 ∷ v % 256 ∷ []

unfoldable pub be32 : ℕ → Bytes
be32 v = v / 2 ^ 24 % 256 ∷ v / 2 ^ 16 % 256 ∷ v / 2 ^ 8 % 256 ∷ v % 256 ∷ []

ordered-be16 : (v : ℕ) → v < 2 ^ 16 → ordered big (be16 v) ≡ v
unfolding be16
ordered-be16 v h = omega arith

ordered-be32 : (v : ℕ) → v < 2 ^ 32 → ordered big (be32 v) ≡ v
unfolding be32
ordered-be32 v h = omega arith

module _ (content : Bytes) where
  pub At-skip :
      (x rest : Bytes) (n p : ℕ) → length x ≡ n → At content p (x ++ rest) → At content (p + n) rest
  At-skip x rest n p e at = record {
    seen =
        rw (sym e) (
          drop-drop p (length x) content
          ∙ ap (drop (length x)) at.seen
          ∙ drop-length_append x rest);
  }

  pub At-be16 :
      (v : ℕ) (rest : Bytes) (p : ℕ) → At content p (be16 v ++ rest) → At content (p + 2) rest
  unfolding be16
  At-be16 v rest p at = At-skip (be16 v) rest 2 p refl at

  pub At-be32 :
      (v : ℕ) (rest : Bytes) (p : ℕ) → At content p (be32 v ++ rest) → At content (p + 4) rest
  unfolding be32
  At-be32 v rest p at = At-skip (be32 v) rest 4 p refl at

  pub read_bytes-At :
      (x rest : Bytes) (n p : ℕ)
      → length x ≡ n
      → At content p (x ++ rest)
      → read_bytes content n p ≡ complete x (p + n)
  unfolding read_bytes
  read_bytes-At x rest n p e at = rw (sym e, at.seen, take-length_append x rest) (padded_whole x p)

  pub read_length-At :
      (x rest : Bytes) (p : ℕ)
      → At content p (x ++ rest)
      → read_length content (pos (length x)) p ≡ ok (complete x (p + length x))
  unfolding read_length read_bytes
  read_length-At x rest p at = ap ok (read_bytes-At x rest (length x) p refl at)

  read_uint-At :
      (x rest : Bytes) (n p : ℕ)
      → length x ≡ n
      → At content p (x ++ rest)
      → read_uint big content n p ≡ complete (ordered big x) (p + n)
  unfolding read_uint read_bytes
  read_uint-At x rest n p e at = ap as_uint (read_bytes-At x rest n p e at)

  pub read_uint16-At :
      (v : ℕ) (rest : Bytes) (p : ℕ)
      → v < 2 ^ 16
      → At content p (be16 v ++ rest)
      → read_uint16 big content p ≡ complete v (p + 2)
  unfolding read_uint16 be16
  read_uint16-At v rest p h at =
      read_uint-At (be16 v) rest 2 p refl at ∙ ap (λ t. complete t (p + 2)) (ordered-be16 v h)

  pub read_uint32-At :
      (v : ℕ) (rest : Bytes) (p : ℕ)
      → v < 2 ^ 32
      → At content p (be32 v ++ rest)
      → read_uint32 big content p ≡ complete v (p + 4)
  unfolding read_uint32 be32
  read_uint32-At v rest p h at =
      read_uint-At (be32 v) rest 4 p refl at ∙ ap (λ t. complete t (p + 4)) (ordered-be32 v h)

  pub read_uchar-At :
      (v : ℕ) (rest : Bytes) (p : ℕ)
      → At content p (v ∷ rest)
      → read_uchar content p ≡ complete v (p + 1)
  unfolding read_uchar
  read_uchar-At v rest p at =
      read_uint-At (v ∷ []) rest 1 p refl at ∙ ap (λ t. complete t (p + 1)) (zero-add v)
