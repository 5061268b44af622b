-- ===== src/Hca/Header/Ranges.antt =====
-- What each chunk decoder establishes, and what it leaves alone, when it succeeds.
use moe_asset_updater_client.Base.{List, length, length-set, ℕ, ◌≤◌, ◌<◌, ◌≡◌, ◌⊎◌, arith, Bytes}
use moe_asset_updater_client.Hca.State.{ClHca}
use moe_asset_updater_client.Hca.Decode.{
  lift, store, Gives, any, tested, branch, done, after, refused,
}
use moe_asset_updater_client.Hca.Header.{
  decode_base_header, decode_fmt_chunk, decode_comp_chunk, decode_dec_chunk, decode_comp_dec_chunk,
  decode_vbr_chunk, decode_ath_chunk, decode_loop_chunk, decode_cipher_chunk, decode_rva_chunk,
  decode_comment_chunk, decode_chunks,
}

abbrev pub KnownVersion : ℕ → Type 0
KnownVersion v = (v ≡ 0x0101) ⊎ (v ≡ 0x0102) ⊎ (v ≡ 0x0103) ⊎ (v ≡ 0x0200) ⊎ (v ≡ 0x0300)

-- The version, from the base header.
pub record HasVersion (h : ClHca) : Type 0 where
  pub known : KnownVersion h.version

-- The sizes of the stream, from the fmt chunk.
pub record HasFormat (h : ClHca) : Type 0 where
  pub version_known : KnownVersion h.version
  pub channels_pos : 1 ≤ h.channels
  pub channels_le : h.channels ≤ 16
  pub frames_pos : 0 < h.frame_count
  pub rate_pos : 1 ≤ h.sample_rate
  pub rate_le : h.sample_rate ≤ 0x7FFFFF

-- The loop points, where there are any, lie within the stream.
abbrev pub LoopInside : ClHca → Type 0
LoopInside h =
    (h.loop_flag ≡ 0)
    ⊎ ((h.loop_start_frame ≤ h.loop_end_frame) × (h.loop_end_frame < h.frame_count))

abbrev pub KnownCipher : ℕ → Type 0
KnownCipher c = (c ≡ 0) ⊎ (c ≡ 1) ⊎ (c ≡ 56)

pub record HasLoop (h : ClHca) : Type 0 where
  pub format : HasFormat h
  pub loop : LoopInside h

record HasCipher (h : ClHca) : Type 0 where
  format : HasFormat h
  loop : LoopInside h
  cipher : KnownCipher h.ciph_type

-- After the last chunk, whose comment fits the array that holds it.
pub record IsParsed (h : ClHca) : Type 0 where
  pub format : HasFormat h
  pub loop : LoopInside h
  pub cipher : KnownCipher h.ciph_type
  pub comment_le : h.comment_len ≤ length h.comment

pub decode_base_header-HasVersion :
    (h : ClHca) (bytes : Bytes) → Gives HasVersion (decode_base_header h bytes)
unfolding decode_base_header
decode_base_header-HasVersion h bytes = any _ _ λ _. tested _ _ _ λ _. any _ _ λ _. any _ _ λ v.
    any _ _
      λ _. tested _ _ _ λ hv. tested _ _ _ λ _. any _ _ λ _. tested _ _ _ λ _. done _ (ground arith)

module _ (h : ClHca) (v : HasVersion h) where
  decode_fmt_chunk-HasFormat : Gives HasFormat (decode_fmt_chunk h)
  unfolding decode_fmt_chunk
  decode_fmt_chunk-HasFormat = any _ _ λ _. tested _ _ _ λ _. any _ _ λ _. any _ _ λ c. any _ _ λ r.
      any _ _ λ f. any _ _ λ _.
        any _ _ λ _. tested _ _ _ λ hc. tested _ _ _ λ hf. tested _ _ _ λ hr. done _ (ground arith)

module _ (h : ClHca) (f : HasFormat h) where
  decode_comp_chunk-HasFormat : Gives HasFormat (decode_comp_chunk h)
  unfolding decode_comp_chunk
  decode_comp_chunk-HasFormat = any _ _ λ _. any _ _ λ _. any _ _ λ _. any _ _ λ _. any _ _ λ _.
      any _ _ λ _.
        any _ _ λ _.
          any _ _ λ _. any _ _ λ _. any _ _ λ _. any _ _ λ _. any _ _ λ _. done _ (ground arith)

  decode_dec_chunk-HasFormat : Gives HasFormat (decode_dec_chunk h)
  unfolding decode_dec_chunk
  decode_dec_chunk-HasFormat = any _ _ λ _. any _ _ λ _. any _ _ λ _.
      any _ _
        λ _. any _ _ λ _. any _ _ λ _. any _ _ λ _. any _ _ λ _. any _ _ λ _. done _ (ground arith)

  decode_comp_dec_chunk-HasFormat : Gives HasFormat (decode_comp_dec_chunk h)
  unfolding decode_comp_dec_chunk
  decode_comp_dec_chunk-HasFormat = any _ _ λ _.
      branch _ _ _ (λ _. decode_comp_chunk-HasFormat)
        (λ _. branch _ _ _ (λ _. decode_dec_chunk-HasFormat) (λ _. refused _ _))

  decode_vbr_chunk-HasFormat : Gives HasFormat (decode_vbr_chunk h)
  unfolding decode_vbr_chunk
  decode_vbr_chunk-HasFormat = any _ _ λ _.
      branch _ _ _ (λ _. any _ _ λ _. any _ _ λ _. any _ _ λ _. done _ (ground arith))
        (λ _. done _ (ground arith))

  decode_ath_chunk-HasFormat : Gives HasFormat (decode_ath_chunk h)
  unfolding decode_ath_chunk
  decode_ath_chunk-HasFormat = any _ _ λ _.
      branch _ _ _ (λ _. any _ _ λ _. any _ _ λ _. done _ (ground arith))
        (λ _. done _ (ground arith))

  decode_loop_chunk-HasLoop : Gives HasLoop (decode_loop_chunk h)
  unfolding decode_loop_chunk
  decode_loop_chunk-HasLoop = any _ _ λ _.
      branch _ _ _
        (λ _. any _ _ λ _.
          any _ _
            λ _. any _ _ λ _. any _ _ λ _. any _ _ λ _. tested _ _ _ λ hl. done _ (ground arith))
        (λ _. done _ (ground arith))

decode_cipher_chunk-HasCipher : (h : ClHca) → HasLoop h → Gives HasCipher (decode_cipher_chunk h)
unfolding decode_cipher_chunk
decode_cipher_chunk-HasCipher h l = any _ _ λ _.
    branch _ _ _ (λ _. any _ _ λ _. any _ _ λ _. tested _ _ _ λ hc. done _ (ground arith))
      (λ _. done _ (ground arith))

-- A write that succeeds lies within the array, and leaves its length.
stored : (xs : List ℕ) (i v : ℕ) → Gives (λ ys. i < length ys) (lift (store xs i v))
unfolding lift store
stored xs i v = record { result = λ br. ground (arith, length-set xs i v) }

module _ (h : ClHca) (p : HasCipher h) where
  decode_rva_chunk-HasCipher : Gives HasCipher (decode_rva_chunk h)
  unfolding decode_rva_chunk
  decode_rva_chunk-HasCipher = any _ _ λ _.
      branch _ _ _ (λ _. any _ _ λ _. any _ _ λ _. done _ (ground arith))
        (λ _. done _ (ground arith))

  decode_comment_chunk-IsParsed : Gives IsParsed (decode_comment_chunk h)
  unfolding decode_comment_chunk
  decode_comment_chunk-IsParsed = any _ _ λ _.
      branch _ _ _
        (λ _. any _ _ λ _. any _ _ λ len. any _ _ λ comment.
          after _ _ (λ (ys : List ℕ). len < length ys) (stored comment len 0)
            λ _ inside. done _ (ground arith))
        (λ _. done _ (ground arith))

-- The chunks in their order, after a base header of a known version.
pub decode_chunks-IsParsed : (h : ClHca) → HasVersion h → Gives IsParsed (decode_chunks h)
unfolding decode_chunks
decode_chunks-IsParsed h v = after _ _ _ (decode_fmt_chunk-HasFormat h v) λ h₁ f₁.
    after _ _ _ (decode_comp_dec_chunk-HasFormat h₁ f₁) λ h₂ f₂.
      after _ _ _ (decode_vbr_chunk-HasFormat h₂ f₂) λ h₃ f₃.
        after _ _ _ (decode_ath_chunk-HasFormat h₃ f₃) λ h₄ f₄.
          after _ _ _ (decode_loop_chunk-HasLoop h₄ f₄) λ h₅ l₅.
            after _ _ _ (decode_cipher_chunk-HasCipher h₅ l₅)
              λ h₆ p₆. after _ _ _ (decode_rva_chunk-HasCipher h₆ p₆) decode_comment_chunk-IsParsed
