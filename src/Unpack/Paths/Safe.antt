-- ===== src/Unpack/Paths/Safe.antt =====
-- The names that the sanitizer lets through.
use moe_asset_updater_client.Base.{
  ℕ, suc, ◌≤◌, ◌≡◌, ◌≢◌, refl, ap, ◌∙◌, inl, inr, false, ◌||◌, List, [], ◌∷◌, ◌++◌, arith, ◌==◌,
  All, codes, equal, has_prefix, Bool-cases, length,
}
use moe_asset_updater_client.Base.Outcome.{ok, OnOk, OnOk->>=, OnOk-at}
use moe_asset_updater_client.Unpack.Paths.{
  Runes, slash, onto_first, split_path, join_path, clean, sanitize_rune, sanitize_result_path_part,
  sanitize_parts, sanitize_result_relative_path,
}

-- A code point that neither ends an element nor means anything to a file system.
pub record IsPlain (r : ℕ) : Type 0 where
  pub no_slash : r ≢ slash
  pub no_colon : r ≢ b':'
  pub no_backslash : r ≢ b'\\'
  pub no_control : 0x20 ≤ r
  pub no_delete : r ≢ 0x7F

abbrev pub HasNoSlash : Runes → Type 0
HasNoSlash = All (λ r. r ≢ slash)

-- An element that names an entry of its directory.
pub record IsSafePart (p : Runes) : Type 0 where
  pub runes : All IsPlain p
  pub not_empty : equal p [] ≡ false
  pub not_here : equal p (codes ".") ≡ false
  pub not_up : equal p (codes "..") ≡ false

onto_first-HasNoSlash :
    (c : ℕ) (ps : List Runes) → c ≢ slash → All HasNoSlash ps → All HasNoSlash (onto_first c ps)
onto_first-HasNoSlash c [] n h = ((n, tt), tt)
onto_first-HasNoSlash c (p ∷ ps) n h = ((n, h.0), h.1)

split_path-HasNoSlash : (s : Runes) → All HasNoSlash (split_path s)
unfolding split_path
split_path-HasNoSlash [] = (tt, tt)
split_path-HasNoSlash (c ∷ cs) = elim (Bool-cases (c == slash)) [
  | inl e ↦ rw e (tt, split_path-HasNoSlash cs)
  | inr e ↦
      rw e
        (onto_first-HasNoSlash c (split_path cs) (λ same. ground arith) (split_path-HasNoSlash cs))
]

split_path-of_one : (p : Runes) → HasNoSlash p → split_path p ≡ p ∷ []
unfolding split_path
split_path-of_one [] h = refl
split_path-of_one (c ∷ cs) h = ground (arith, split_path-of_one cs)

split_path-append : (p s : Runes) → HasNoSlash p → split_path (p ++ slash ∷ s) ≡ p ∷ split_path s
unfolding split_path
split_path-append [] s h = refl
split_path-append (c ∷ cs) s h = ground (arith, split_path-append cs s)

split_path-join_path :
    (p : Runes) (ps : List Runes)
    → All HasNoSlash (p ∷ ps)
    → split_path (join_path (p ∷ ps)) ≡ p ∷ ps
unfolding join_path
split_path-join_path p [] h = split_path-of_one p h.0
split_path-join_path p (q ∷ ps) h =
    split_path-append p (join_path (q ∷ ps)) h.0 ∙ ap (◌∷◌ p) (split_path-join_path q ps h.1)

sanitize_rune-IsPlain : (r : ℕ) → r ≢ slash → IsPlain (sanitize_rune r)
unfolding sanitize_rune
sanitize_rune-IsPlain r n = record {
  no_slash = ground arith;
  no_colon = ground arith;
  no_backslash = ground arith;
  no_control = ground arith;
  no_delete = ground arith;
}

sanitize_result_path_part-IsPlain :
    (p : Runes) → HasNoSlash p → All IsPlain (sanitize_result_path_part p)
unfolding sanitize_result_path_part
sanitize_result_path_part-IsPlain [] h = tt
sanitize_result_path_part-IsPlain (r ∷ rs) h =
    (sanitize_rune-IsPlain r h.0, sanitize_result_path_part-IsPlain rs h.1)

length-onto_first : (c : ℕ) (ps : List Runes) → 1 ≤ length ps → length (onto_first c ps) ≡ length ps
length-onto_first c [] h = absurd (omega arith)
length-onto_first c (p ∷ ps) h = refl

split_path-nonempty : (s : Runes) → 1 ≤ length (split_path s)
unfolding split_path
split_path-nonempty [] = omega arith
split_path-nonempty (c ∷ cs) =
    ground (arith, split_path-nonempty cs, length-onto_first c (split_path cs))

-- The parts that the loop makes of those of a path.
record AreNames (count : ℕ) (names : List Runes) : Type 0 where
  safe : All IsSafePart names
  as_many : length names ≡ count

more-AreNames :
    (p : Runes) (n : ℕ) (names : List Runes)
    → IsSafePart p
    → AreNames n names
    → AreNames (suc n) (p ∷ names)
more-AreNames p n names h k = record { safe = (h, k.safe); as_many = omega (arith, k.as_many) }

sanitize_parts-AreNames :
    (ps : List Runes) → All HasNoSlash ps → OnOk (AreNames (length ps)) (sanitize_parts ps)
unfolding sanitize_parts
sanitize_parts-AreNames [] h = record { safe = tt; as_many = refl }
sanitize_parts-AreNames (p ∷ ps) h =
    let name = sanitize_result_path_part p in
    elim (Bool-cases (equal name [])) [
      | inl e ↦ rw e tt
      | inr e ↦ elim (Bool-cases (equal name (codes "."))) [
        | inl k ↦ rw (e, k) tt
        | inr k ↦ elim (Bool-cases (equal name (codes ".."))) [
          | inl u ↦ rw (e, k, u) tt
          | inr u ↦
              rw (e, k, u)
                (OnOk->>= (AreNames (suc (length ps))) (sanitize_parts ps)
                  (λ names. ok (name ∷ names))
                  λ names done.
                    more-AreNames name (length ps) names
                      (record {
                        runes = sanitize_result_path_part-IsPlain p h.0;
                        not_empty = e;
                        not_here = k;
                        not_up = u;
                      })
                      (OnOk-at (AreNames (length ps)) (sanitize_parts ps)
                        (sanitize_parts-AreNames ps h.1) done))
        ]
      ]
    ]

All-no_slash : (p : Runes) → All IsPlain p → HasNoSlash p
All-no_slash [] h = tt
All-no_slash (r ∷ rs) h = (h.0.no_slash, All-no_slash rs h.1)

safe-HasNoSlash : (ps : List Runes) → All IsSafePart ps → All HasNoSlash ps
safe-HasNoSlash [] h = tt
safe-HasNoSlash (p ∷ ps) h = (All-no_slash p h.0.runes, safe-HasNoSlash ps h.1)

joined-safe :
    (n : ℕ) (names : List Runes)
    → 1 ≤ n
    → AreNames n names
    → All IsSafePart (split_path (join_path names))
joined-safe n [] h k = absurd (omega (arith, k.as_many))
joined-safe n (p ∷ ps) h k = rw (split_path-join_path p ps (safe-HasNoSlash (p ∷ ps) k.safe)) k.safe

accepted :
    (rel : Runes)
    → OnOk (λ name. All IsSafePart (split_path name)) (sanitize_result_relative_path rel)
unfolding sanitize_result_relative_path
accepted rel =
    let cleaned = clean rel in
    let parts = split_path cleaned in
    elim (Bool-cases (
      equal cleaned (codes ".")
      || has_prefix cleaned (codes "../")
      || equal cleaned (codes "..")
      || has_prefix cleaned (codes "/"))) [
        | inl e ↦ rw e tt
        | inr e ↦ rw e (
            OnOk->>= _ (sanitize_parts parts) (λ names. ok (join_path names))
              λ names done. joined-safe (length parts) names (split_path-nonempty cleaned) (
                OnOk-at (AreNames (length parts)) (sanitize_parts parts)
                  (sanitize_parts-AreNames parts (split_path-HasNoSlash cleaned)) done))
      ]

-- Whatever path the walk gives, the name that the sanitizer accepts stays below the directory that it
-- is unpacked in: each of its elements is not empty, not `.` and not `..`, and holds no slash, colon,
-- backslash or control character.
pub sanitize_result_relative_path-IsSafePart :
    (rel : Runes) {name : Runes}
    → sanitize_result_relative_path rel ≡ ok name
    → All IsSafePart (split_path name)
sanitize_result_relative_path-IsSafePart rel =
    OnOk-at (λ name. All IsSafePart (split_path name)) (sanitize_result_relative_path rel)
      (accepted rel)
