-- ===== src/Unpack/Fetch/Taken.antt =====
-- A body that went through the unwrapper without an error was written whole.
use mathlib.Core.Path.{subst}
use moe_asset_updater_client.Base.{
  ℕ, ◌-◌, ◌≡◌, refl, ap, sym, ◌∙◌, inl, inr, ◌⊎◌, ◌<◌, ◌≤◌, arith, Bool, length-drop, Bool-cases,
  true, false, Option, none, some, ◌++◌, append_assoc, take-append-drop, leb, length, take, drop,
  if◌then◌else◌, Bytes, equal, equal_iff,
}
use moe_asset_updater_client.Base.Io.{
  Reader, full, short_read, read_full, Writer, Written, written_to, write, copy,
}
use moe_asset_updater_client.Unpack.Obfuscator.{
  plain_mark, masked_mark, mask_from, deobfuscate, write_and_copy, write_masked, after_prefix,
  deobfuscate_to_writer,
}
use moe_asset_updater_client.Unpack.Obfuscator.Agree.{mask_from-split}

-- What was read was the whole body, or it was cut short before the mark and the masked header ended.
abbrev pub IsWhole : {E : Type 0} → Reader E → Type 0
IsWhole body =
    (body.fault ≡ none)
    ⊎ ((body.cut ≡ true)
        × ((length body.content < 4)
            ⊎ ((take 4 body.content ≡ masked_mark) × (length body.content < 132))))

-- Without an error, the writer took just these data, and this held of the reader.
abbrev pub IsTaken : {E : Type 0} → Writer → Bytes → Type 0 → Written E → Type 0
IsTaken dst bytes Read (written_to dst' none) = (dst'.written ≡ dst.written ++ bytes) × Read
IsTaken dst bytes Read (written_to dst' (some e)) = Unit

module _ {E : Type 0} (no_room : E) where
  write-full :
      (dst : Writer) (bytes : Bytes)
      → leb (length bytes) dst.room ≡ true
      → write no_room dst bytes
        ≡ written_to
            (record { written = dst.written ++ bytes; room = dst.room - length bytes })
            none
  unfolding write
  write-full dst bytes e = rw (e, write)

  write-short :
      (dst : Writer) (bytes : Bytes)
      → leb (length bytes) dst.room ≡ false
      → write no_room dst bytes
        ≡ written_to
            (record { written = dst.written ++ take dst.room bytes; room = 0 })
            (some no_room)
  unfolding write
  write-short dst bytes e = rw (e, write)

  read_full-more :
      (src : Reader E) (n : ℕ)
      → leb n (length src.content) ≡ true
      → read_full src n ≡ full (take n src.content) (record src { content = drop n src.content })
  unfolding read_full
  read_full-more src n e = rw (e, read_full)

  read_full-less :
      (src : Reader E) (n : ℕ)
      → leb n (length src.content) ≡ false
      → read_full src n ≡ short_read src.content src.fault src.cut
  unfolding read_full
  read_full-less src n e = rw (e, read_full)

  IsTaken-map :
      {P Q : Type 0}
      → (P → Q)
      → (dst : Writer) (bytes : Bytes) (w : Written E) → IsTaken dst bytes P w
      → IsTaken dst bytes Q w
  IsTaken-map f dst bytes (written_to dst' none) (took, p) = (took, f p)
  IsTaken-map f dst bytes (written_to dst' (some e)) _ = tt

  -- The data went on from what another writer had.
  IsTaken-on :
      (dst dst' : Writer) (p c : Bytes) (P : Type 0) (w : Written E)
      → dst'.written ≡ dst.written ++ p
      → IsTaken dst' c P w
      → IsTaken dst (p ++ c) P w
  IsTaken-on dst dst' p c P (written_to after none) h (took, whole) =
      (took ∙ ap (λ bytes. bytes ++ c) h ∙ append_assoc dst.written p c, whole)
  IsTaken-on dst dst' p c P (written_to after (some e)) h _ = tt

  write-IsTaken :
      (dst : Writer) (bytes : Bytes) {P : Type 0}
      → P
      → IsTaken dst bytes P (write no_room dst bytes)
  write-IsTaken dst bytes p = elim (Bool-cases (leb (length bytes) dst.room)) [
    | inl e ↦ rw (write-full dst bytes e) (refl, p)
    | inr e ↦ rw (write-short dst bytes e) tt
  ]

  fault-IsTaken :
      (dst dst' : Writer) (bytes : Bytes) (fault : Option E)
      → dst'.written ≡ dst.written ++ bytes
      → IsTaken dst bytes (fault ≡ none) (written_to dst' fault)
  fault-IsTaken dst dst' bytes none h = (h, refl)
  fault-IsTaken dst dst' bytes (some e) h = tt

  copy-IsTaken :
      (dst : Writer) (src : Reader E)
      → IsTaken dst src.content (src.fault ≡ none) (copy no_room dst src)
  unfolding copy
  copy-IsTaken dst src = elim (Bool-cases (leb (length src.content) dst.room)) [
    | inl e ↦
        rw (write-full dst src.content e, copy)
          (let dst' : Writer = record {
            written = dst.written ++ src.content;
            room = dst.room - length src.content;
          } in
            fault-IsTaken dst dst' src.content src.fault refl)
    | inr e ↦ rw (write-short dst src.content e, copy) tt
  ]

  write_and_copy-IsTaken :
      (dst : Writer) (p : Bytes) (src : Reader E)
      → IsTaken dst
          (p ++ src.content)
          (src.fault ≡ none)
          (write_and_copy no_room (write no_room dst p) src)
  write_and_copy-IsTaken dst p src = elim (Bool-cases (leb (length p) dst.room)) [
    | inl e ↦ rw (write-full dst p e) (
        let dst' : Writer = record { written = dst.written ++ p; room = dst.room - length p } in
        IsTaken-on dst dst' p src.content _ _ refl (copy-IsTaken dst' src))
    | inr e ↦ rw (write-short dst p e) tt
  ]

  -- What is left of a body that ended early.
  ended-IsTaken :
      (dst : Writer) (bytes : Bytes) (fault : Option E) (cut : Bool)
      → length bytes < 4
      → IsTaken dst bytes
          (IsWhole (record { content = bytes; fault = fault; cut = cut }))
          (after_prefix no_room dst (short_read bytes fault cut))
  ended-IsTaken dst bytes none cut h = write-IsTaken dst bytes (inl refl)
  ended-IsTaken dst bytes (some e) true h = write-IsTaken dst bytes (inr (refl, inl h))
  ended-IsTaken dst bytes (some e) false h = tt

  masked_ended-IsTaken :
      (dst : Writer) (bytes : Bytes) (fault : Option E) (cut : Bool)
      → IsTaken dst bytes
          ((fault ≡ none) ⊎ (cut ≡ true))
          (write_masked no_room dst (short_read bytes fault cut))
  masked_ended-IsTaken dst bytes none cut = write-IsTaken dst bytes (inl refl)
  masked_ended-IsTaken dst bytes (some e) true = write-IsTaken dst bytes (inr refl)
  masked_ended-IsTaken dst bytes (some e) false = tt

  -- After the mark of a masked body.
  masked-IsTaken :
      (dst : Writer) (rest : Bytes) (fault : Option E) (cut : Bool)
      → IsTaken dst
          (if leb 128 (length rest) then mask_from 128 0 rest else rest)
          ((fault ≡ none) ⊎ ((cut ≡ true) × (length rest < 128)))
          (write_masked no_room dst
            (read_full (record { content = rest; fault = fault; cut = cut }) 128))
  masked-IsTaken dst rest fault cut =
      let body : Reader E = record { content = rest; fault = fault; cut = cut } in
      let left : Reader E = record { content = drop 128 rest; fault = fault; cut = cut } in
      elim (Bool-cases (leb 128 (length rest))) [
        | inl e ↦
            rw (e, read_full-more body 128 e)
              (IsTaken-map inl dst (mask_from 128 0 rest) _ (
                subst
                  (λ c. IsTaken dst c (fault ≡ none) (
                    write_and_copy no_room (write no_room dst (mask_from 128 0 (take 128 rest)))
                      left))
                  (sym (mask_from-split 128 0 rest))
                  (write_and_copy-IsTaken dst (mask_from 128 0 (take 128 rest)) left)))
        | inr e ↦
            rw (e, read_full-less body 128 e)
              (IsTaken-map (short e) dst rest _ (masked_ended-IsTaken dst rest fault cut))
      ]
    where
      short :
          leb 128 (length rest) ≡ false
          → (fault ≡ none) ⊎ (cut ≡ true)
          → (fault ≡ none) ⊎ ((cut ≡ true) × (length rest < 128))
      short e (inl h) = inl h
      short e (inr h) = inr (h, ground arith)

  prefix-IsTaken :
      (dst : Writer) (bytes : Bytes) (fault : Option E) (cut : Bool)
      → 4 ≤ length bytes
      → IsTaken dst
          (if equal (take 4 bytes) plain_mark
            then drop 4 bytes
            else if equal (take 4 bytes) masked_mark
            then (let rest = drop 4 bytes in
                if leb 128 (length rest) then mask_from 128 0 rest else rest)
            else bytes)
          (IsWhole (record { content = bytes; fault = fault; cut = cut }))
          (after_prefix no_room dst
            (full (take 4 bytes) (record { content = drop 4 bytes; fault = fault; cut = cut })))
  prefix-IsTaken dst bytes fault cut four =
      let rest : Reader E = record { content = drop 4 bytes; fault = fault; cut = cut } in
      elim (Bool-cases (equal (take 4 bytes) plain_mark)) [
        | inl e ↦ rw (e) (IsTaken-map inl dst (drop 4 bytes) _ (copy-IsTaken dst rest))
        | inr e ↦ rw (e) (elim (Bool-cases (equal (take 4 bytes) masked_mark)) [
          | inl m ↦
              rw (m) (IsTaken-map (short m) dst _ _ (masked-IsTaken dst (drop 4 bytes) fault cut))
          | inr m ↦ rw (m) (
              IsTaken-map inl dst bytes _ (
                subst
                  (λ c.
                    IsTaken dst c (fault ≡ none)
                      (write_and_copy no_room (write no_room dst (take 4 bytes)) rest))
                  (take-append-drop 4 bytes) (write_and_copy-IsTaken dst (take 4 bytes) rest)))
        ])
      ]
    where
      short :
          equal (take 4 bytes) masked_mark ≡ true
          → (fault ≡ none) ⊎ ((cut ≡ true) × (length (drop 4 bytes) < 128))
          → IsWhole {E = E} (record { content = bytes; fault = fault; cut = cut })
      short m (inl h) = inl h
      short m (inr (h, l)) = inr (
        h,
        inr (
          (equal_iff (take 4 bytes) masked_mark).0 m,
          omega (arith, length-drop 4 bytes, four, l),
        ),
      )

  pub deobfuscate_to_writer-IsTaken :
      (dst : Writer) (bytes : Bytes) (fault : Option E) (cut : Bool)
      → IsTaken dst
          (deobfuscate bytes)
          (IsWhole (record { content = bytes; fault = fault; cut = cut }))
          (deobfuscate_to_writer no_room dst (record { content = bytes; fault = fault; cut = cut }))
  unfolding deobfuscate deobfuscate_to_writer
  deobfuscate_to_writer-IsTaken dst bytes fault cut =
      let body : Reader E = record { content = bytes; fault = fault; cut = cut } in
      elim (Bool-cases (leb 4 (length bytes))) [
        | inl e ↦
            rw (e, read_full-more body 4 e) (prefix-IsTaken dst bytes fault cut (ground arith))
        | inr e ↦ rw (e, read_full-less body 4 e) (ended-IsTaken dst bytes fault cut (ground arith))
      ]
