-- ===== src/Usm/Masks/Roundtrip.antt =====
-- The encoder's side of the masks, and that the two streams come back.
use moe_asset_updater_client.Base.{
  ℕ, zero, suc, ◌+◌, ◌%◌, ◌≤◌, ◌≡◌, refl, ap, ◌∙◌, bit_xor, [], ◌∷◌, ◌++◌, arith, leb,
  if◌then◌else◌, length, length-append, length-take, length-drop, take-append-drop, get_or, set,
  take, drop, take-split, drop-split, Bytes, inl, inr, Bool-cases, leb→le, le→leb,
}
use moe_asset_updater_client.Base.Bits.{bit_xor_cancel}
use moe_asset_updater_client.Usm.Masks.{
  Masks, unmask_tail, unmask_head, unmask_body, mask_video, unmask_audio, mask_audio,
}

-- The masking of a stream: each byte of the tail with its predecessor 32 bytes before.
pub mask_tail : Bytes → Bytes → ℕ → Bytes → Bytes
mask_tail key mask i [] = []
mask_tail key mask i (p ∷ ps) =
    bit_xor p (get_or mask (i % 32) 0)
    ∷ mask_tail key (set mask (i % 32) (bit_xor p (get_or key (i % 32) 0))) (i + 1) ps

pub hide_body : Masks → Bytes → Bytes
unfolding mask_tail
hide_body masks body =
    unmask_head masks.video₁ 0 (take 0x100 body) (drop 0x100 body)
    ++ mask_tail masks.video₂ masks.video₂ 0x100 (drop 0x100 body)

unfoldable pub hide_video : Bytes → Masks → Bytes
unfolding hide_body
hide_video content masks =
    if leb (0x40 + 0x200) (length content)
    then take 0x40 content ++ hide_body masks (drop 0x40 content)
    else content

unmask_tail-mask_tail :
    (key mask : Bytes) (i : ℕ) (ps : Bytes) → unmask_tail key mask i (mask_tail key mask i ps) ≡ ps
unfolding unmask_tail mask_tail
unmask_tail-mask_tail key mask i [] = refl
unmask_tail-mask_tail key mask i (p ∷ ps) = rw (
  bit_xor_cancel p (get_or mask (i % 32) 0),
  unmask_tail-mask_tail key (set mask (i % 32) (bit_xor p (get_or key (i % 32) 0))) (i + 1) ps,
)

-- The head's mask comes from the bytes further on alone, so it is its own inverse.
unmask_head_twice :
    (mask : Bytes) (i : ℕ) (cs rs : Bytes) → unmask_head mask i (unmask_head mask i cs rs) rs ≡ cs
unfolding unmask_head
unmask_head_twice mask i [] rs = refl
unmask_head_twice mask i (c ∷ cs) [] = refl
unmask_head_twice mask i (c ∷ cs) (r ∷ rs) =
    let m = bit_xor (get_or mask (i % 32) 0) r in
    rw (bit_xor_cancel c m, unmask_head_twice (set mask (i % 32) m) (i + 1) cs rs)

length-unmask_head :
    (mask : Bytes) (i : ℕ) (cs rs : Bytes) → length (unmask_head mask i cs rs) ≡ length cs
unfolding unmask_head
length-unmask_head mask i [] rs = refl
length-unmask_head mask i (c ∷ cs) [] = refl
length-unmask_head mask i (c ∷ cs) (r ∷ rs) =
    ap suc
      (length-unmask_head (set mask (i % 32) (bit_xor (get_or mask (i % 32) 0) r)) (i + 1) cs rs)

length-mask_tail :
    (key mask : Bytes) (i : ℕ) (ps : Bytes) → length (mask_tail key mask i ps) ≡ length ps
unfolding mask_tail
length-mask_tail key mask i [] = refl
length-mask_tail key mask i (p ∷ ps) =
    ap suc (length-mask_tail key (set mask (i % 32) (bit_xor p (get_or key (i % 32) 0))) (i + 1) ps)

unmask_body-hide_body :
    (masks : Masks) (body : Bytes)
    → 0x200 ≤ length body
    → unmask_body masks (hide_body masks body) ≡ body
unfolding unmask_body hide_body
unmask_body-hide_body masks body h =
    let head = take 0x100 body in
    let tail = drop 0x100 body in
    let hidden = unmask_head masks.video₁ 0 head tail in
    let covered = mask_tail masks.video₂ masks.video₂ 0x100 tail in
    let long : length hidden ≡ 0x100 =
      length-unmask_head masks.video₁ 0 head tail ∙ omega (arith, length-take 0x100 body) in
    rw
      (
        take-split 0x100 hidden covered long,
        drop-split 0x100 hidden covered long,
        unmask_tail-mask_tail masks.video₂ masks.video₂ 0x100 tail,
        unmask_head_twice masks.video₁ 0 head tail,
      )
      (take-append-drop 0x100 body)

length-hide_body : (masks : Masks) (body : Bytes) → length (hide_body masks body) ≡ length body
unfolding hide_body
length-hide_body masks body = omega (
  arith,
  length-append (unmask_head masks.video₁ 0 (take 0x100 body) (drop 0x100 body))
      (mask_tail masks.video₂ masks.video₂ 0x100 (drop 0x100 body)),
  length-unmask_head masks.video₁ 0 (take 0x100 body) (drop 0x100 body),
  length-mask_tail masks.video₂ masks.video₂ 0x100 (drop 0x100 body),
  length-take 0x100 body,
  length-drop 0x100 body,
)

-- The two sides of a content that is long enough.
module _ (content : Bytes) (masks : Masks) (long : 0x240 ≤ length content) where
  hidden_parts : hide_video content masks ≡ take 0x40 content ++ hide_body masks (drop 0x40 content)
  unfolding hide_video
  hidden_parts = rw (le→leb 0x240 (length content) long)

  shown_parts :
      (front : Bytes)
      → length front ≡ 0x40
      → mask_video (front ++ hide_body masks (drop 0x40 content)) masks
        ≡ front ++ unmask_body masks (hide_body masks (drop 0x40 content))
  unfolding mask_video
  shown_parts front e =
      let body = hide_body masks (drop 0x40 content) in
      rw (
        le→leb 0x240 (length (front ++ body)) (
            omega (
              arith,
              length-append front body,
              length-hide_body masks (drop 0x40 content),
              length-drop 0x40 content,
            )),
        take-split 0x40 front body e,
        drop-split 0x40 front body e,
      )

  long-roundtrip : mask_video (hide_video content masks) masks ≡ content
  long-roundtrip = rw hidden_parts (
      shown_parts (take 0x40 content) (omega (arith, length-take 0x40 content))
      ∙ rw
          (unmask_body-hide_body masks (drop 0x40 content)
            (omega (arith, length-drop 0x40 content)))
          (take-append-drop 0x40 content))

-- Whatever the content and the masks, unmasking a masked video gives the video back.
pub mask_video-hide_video :
    (content : Bytes) (masks : Masks) → mask_video (hide_video content masks) masks ≡ content
unfolding mask_video hide_video
mask_video-hide_video content masks = elim (Bool-cases (leb 0x240 (length content))) [
  | inl e ↦ long-roundtrip content masks (omega (arith, leb→le 0x240 (length content) e))
  | inr e ↦ rw (e, e)
]

unmask_audio_twice :
    (mask : Bytes) (i : ℕ) (cs : Bytes) → unmask_audio mask i (unmask_audio mask i cs) ≡ cs
unfolding unmask_audio
unmask_audio_twice mask i [] = refl
unmask_audio_twice mask i (c ∷ cs) =
    rw (bit_xor_cancel c (get_or mask (i % 32) 0), unmask_audio_twice mask (i + 1) cs)

mask_audio_twice_from :
    (n : ℕ) (mask content : Bytes)
    → let once = take n content ++ unmask_audio mask 0 (drop n content) in
      take n once ++ unmask_audio mask 0 (drop n once) ≡ content
unfolding unmask_audio
mask_audio_twice_from zero mask content = unmask_audio_twice mask 0 content
mask_audio_twice_from (suc n) mask [] = refl
mask_audio_twice_from (suc n) mask (c ∷ content) = ap (◌∷◌ c) (mask_audio_twice_from n mask content)

-- Whatever the content and the mask, unmasking the audio twice gives it back: the operation is its
-- own inverse.
pub mask_audio_twice : (content mask : Bytes) → mask_audio (mask_audio content mask) mask ≡ content
unfolding mask_audio
mask_audio_twice content mask = mask_audio_twice_from 0x140 mask content
