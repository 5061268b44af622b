-- ===== src/Usm/Chunks/Container/Sealed.antt =====
-- A stream whose chunks an encoder has masked, and the contents that come back.
use moe_asset_updater_client.Base.{
  ℕ, ◌<◌, ◌≡◌, refl, sym, ap, ◌∙◌, bit_and, true, false, Option, none, some, List, [], ◌∷◌, ◌++◌,
  append-nil, append_assoc, ◌==◌, if◌then◌else◌, map, arith, length, length-map, All, Bytes, codes,
  equal, equal_iff, Bool-cases, inl, inr, drop-length_append,
}
use mathlib.Core.Option
use moe_asset_updater_client.Base.Outcome.{ok}
use moe_asset_updater_client.Usm.Masks.{Masks, mask_audio}
use moe_asset_updater_client.Usm.Masks.Roundtrip.{
  hide_video, mask_video-hide_video, mask_audio_twice,
}
use moe_asset_updater_client.Usm.Chunks.{Outputs, unmasked_video, unmasked_audio, extract_chunks}
use moe_asset_updater_client.Usm.Chunks.Container.{
  Chunk, IsChunk, is_end, write_chunk, encode_chunk,
}
use moe_asset_updater_client.Usm.Chunks.Container.Stream.{
  encode_stream, write_chunks, extract_chunks-stream,
}

-- The encoder masks the chunks of type 0.
unfoldable pub sealed : Masks → Chunk → Bytes
sealed masks c =
    if bit_and c.kind 3 == 0
    then if equal c.sig (codes "@SFV")
      then hide_video c.contents masks
      else mask_audio c.contents masks.audio
    else c.contents

unfoldable pub seal : Masks → Chunk → Chunk
seal masks c = record c { contents = sealed masks c }

-- The contents of the chunks with this signature, one after the other.
unfoldable pub contents_of : Bytes → List Chunk → Bytes
contents_of sig [] = []
contents_of sig (c ∷ cs) =
    let rest = contents_of sig cs in if equal c.sig sig then c.contents ++ rest else rest

video-clear :
    (masks : Masks) (c : Chunk)
    → equal c.sig (codes "@SFV") ≡ true
    → unmasked_video (bit_and c.kind 3) (some masks) (sealed masks c) ≡ c.contents
unfolding unmasked_video sealed
video-clear masks c e = elim (Bool-cases (bit_and c.kind 3 == 0)) [
  | inl z ↦ rw (z, e) (mask_video-hide_video c.contents masks)
  | inr z ↦ rw z refl
]

audio-clear :
    (masks : Masks) (c : Chunk)
    → equal c.sig (codes "@SFV") ≡ false
    → unmasked_audio (bit_and c.kind 3) (some masks) (sealed masks c) ≡ c.contents
unfolding unmasked_audio sealed
audio-clear masks c e = elim (Bool-cases (bit_and c.kind 3 == 0)) [
  | inl z ↦ rw (z, e) (mask_audio_twice c.contents masks.audio)
  | inr z ↦ rw z refl
]

-- The files with the contents of some chunks added.
unfoldable pub added : List Chunk → Outputs → Outputs
added cs outs = record {
  video = outs.video ++ contents_of (codes "@SFV") cs;
  audio = Option.map (λ written. written ++ contents_of (codes "@SFA") cs) outs.audio;
}

abbrev outputs : Bytes → Option Bytes → Outputs
outputs video audio = record { video = video; audio = audio }

-- No chunk is both.
not_audio : (sig : Bytes) → equal sig (codes "@SFV") ≡ true → equal sig (codes "@SFA") ≡ false
unfolding equal
not_audio sig e = rw ((equal_iff sig (codes "@SFV")).0 e) refl

module _ (masks : Masks) (c : Chunk) (cs : List Chunk) (video : Bytes) where
  added-video :
      (audio : Option Bytes)
      → equal c.sig (codes "@SFV") ≡ true
      → added cs (write_chunk (some masks) (seal masks c) (outputs video audio))
        ≡ added (c ∷ cs) (outputs video audio)
  unfolding added contents_of write_chunk seal
  added-video audio e =
      rw
        (
          e,
          not_audio c.sig e,
          video-clear masks c e,
          append_assoc video c.contents (contents_of (codes "@SFV") cs),
        )
        refl

  added-audio :
      (audio : Option Bytes)
      → equal c.sig (codes "@SFV") ≡ false
      → equal c.sig (codes "@SFA") ≡ true
      → added cs (write_chunk (some masks) (seal masks c) (outputs video audio))
        ≡ added (c ∷ cs) (outputs video audio)
  unfolding added contents_of write_chunk seal
  added-audio none e f = rw (e, f) refl
  added-audio (some written) e f =
      rw
        (
          e,
          f,
          audio-clear masks c e,
          append_assoc written c.contents (contents_of (codes "@SFA") cs),
        )
        refl

  added-other :
      (audio : Option Bytes)
      → equal c.sig (codes "@SFV") ≡ false
      → equal c.sig (codes "@SFA") ≡ false
      → added cs (write_chunk (some masks) (seal masks c) (outputs video audio))
        ≡ added (c ∷ cs) (outputs video audio)
  unfolding added contents_of write_chunk seal
  added-other audio e f = rw (e, f) refl

  added-one :
      (audio : Option Bytes)
      → added cs (write_chunk (some masks) (seal masks c) (outputs video audio))
        ≡ added (c ∷ cs) (outputs video audio)
  added-one audio = elim (Bool-cases (equal c.sig (codes "@SFV"))) [
    | inl e ↦ added-video audio e
    | inr e ↦ elim (Bool-cases (equal c.sig (codes "@SFA"))) [
      | inl f ↦ added-audio audio e f
      | inr f ↦ added-other audio e f
    ]
  ]

no_more : (audio : Option Bytes) → audio ≡ Option.map (λ written. written ++ []) audio
no_more none = refl
no_more (some written) = ap some (sym (append-nil written))

All-map :
    {A B : Type 0} (P : B → Type 0) (f : A → B) (xs : List A)
    → All (λ x. P (f x)) xs
    → All P (map f xs)
All-map P f [] h = tt
All-map P f (x ∷ xs) (one, others) = (one, All-map P f xs others)

write_chunks-added :
    (masks : Masks) (cs : List Chunk) (outs : Outputs)
    → write_chunks (some masks) (map (seal masks) cs) outs ≡ added cs outs
unfolding write_chunks added contents_of
write_chunks-added masks [] outs =
    ap (λ v. outputs v outs.audio) (sym (append-nil outs.video))
    ∙ ap (outputs (outs.video ++ [])) (no_more outs.audio)
write_chunks-added masks (c ∷ cs) outs =
    write_chunks-added masks cs (write_chunk (some masks) (seal masks c) outs)
    ∙ added-one masks c cs outs.video outs.audio

-- A file in which masked chunks and an end chunk follow any header: with the key's masks, the loop
-- that starts behind the header and has more rounds than there are chunks adds to the video file the
-- clear contents of the video chunks, in their order, and to the audio file, where there is one,
-- those of the audio chunks; nothing else is written. The chunks as they stand in the file have
-- the sizes of a chunk, and only the last begins with the end marker.
pub extract_chunks-seal :
    (masks : Masks) (cs : List Chunk) (last : Chunk) (header rest : Bytes) (n : ℕ) (outs : Outputs)
    → length cs < n
    → All (λ c. IsChunk (seal masks c) × (is_end (seal masks c) ≡ false)) cs
    → IsChunk last
    → is_end last ≡ true
    → extract_chunks
        (header ++ encode_stream (map (seal masks) cs) (encode_chunk last rest))
        (some masks)
        n
        (length header)
        outs
      ≡ some (ok (added cs outs))
extract_chunks-seal masks cs last header rest n outs h valids last_valid ends =
    let stream = encode_stream (map (seal masks) cs) (encode_chunk last rest) in
    extract_chunks-stream (header ++ stream) (some masks) last last_valid (map (seal masks) cs) n
      (length header) outs rest (omega (arith, length-map cs (seal masks))) ends
      (All-map (λ c. IsChunk c × (is_end c ≡ false)) (seal masks) cs valids)
      (record { seen = drop-length_append header stream })
    ∙ ap (λ o. some (ok o)) (write_chunks-added masks cs outs)
