-- ===== src/Unpack/Fetch/Settled.antt =====
-- What an attempt to download a bundle leaves on the disk.
use moe_asset_updater_client.Base.{
  ℕ, ◌≤◌, ◌<◌, ◌≡◌, refl, inl, inr, Bool, Bool-cases, true, false, Option, none, some, List, [],
  ◌&&◌, arith, leb, ltb, length, if◌then◌else◌, Bytes, equal, equal_refl, ◌∷◌,
}
use moe_asset_updater_client.Base.Io.{Reader, Written, written_to}
use moe_asset_updater_client.Unpack.Obfuscator.{deobfuscate}
use moe_asset_updater_client.Unpack.Obfuscator.Agree.{deobfuscate_to_writer-deobfuscate}
use moe_asset_updater_client.Unpack.Fetch.{
  Files, set, Reply, not_requested, not_sent, answered, System, Fetched, tmp_path, remove_tmp,
  rename_tmp, close_tmp, after_copy, store_body, is_refused, take_answer, download_bundle_once,
}
use moe_asset_updater_client.Unpack.Fetch.Taken.{IsTaken, IsWhole, deobfuscate_to_writer-IsTaken}

-- The bundle is as before, and so is every file but the temporary one.
abbrev pub IsKept : Files → Bytes → Files → Type 0
IsKept before bundle after =
    (after bundle ≡ before bundle)
    × ((q : Bytes)
        → (if equal q (tmp_path bundle) then none else after q)
          ≡ (if equal q (tmp_path bundle) then none else before q))

-- The bundle is the body unwrapped, the temporary file is gone, and any other file is as before.
abbrev pub IsReplaced : Files → Bytes → Bytes → Files → Type 0
IsReplaced before bundle body after =
    (q : Bytes)
    → after q ≡ (
        if equal q bundle
        then some (deobfuscate body)
        else if equal q (tmp_path bundle)
        then none
        else before q)

-- After a body that was read.
abbrev pub IsStored : {E : Type 0} → Files → Bytes → Reader E → Fetched E → Type 0
IsStored before bundle body (after, none) =
    IsWhole body × IsReplaced before bundle body.content after
IsStored before bundle body (after, some e) = IsKept before bundle after

-- Success is an answer of 200 to 299 with a body that is whole, or cut short where that is not seen.
abbrev pub IsSettled : {E : Type 0} → Files → Bytes → Reply E → Fetched E → Type 0
IsSettled before bundle (answered status body) (after, none) =
    (leb 200 status && ltb status 300 ≡ true) × IsStored before bundle body (after, none)
IsSettled before bundle (not_requested e) (after, none) = ⊥
IsSettled before bundle (not_sent e) (after, none) = ⊥
IsSettled before bundle answer (after, some e) = IsKept before bundle after

tmp_path-apart : (bundle : Bytes) → equal bundle (tmp_path bundle) ≡ false
unfolding equal
tmp_path-apart [] = refl
tmp_path-apart (b ∷ bundle) = ground (arith, tmp_path-apart bundle)

set_hidden :
    (t : Bool) (v a b : Option Bytes)
    → (if t then none else a) ≡ (if t then none else b)
    → (if t then none else if t then v else a) ≡ (if t then none else b)
set_hidden true v a b h = refl
set_hidden false v a b h = h

module _ (before : Files) (bundle : Bytes) where
  set-IsKept :
      (v : Option Bytes) (files : Files)
      → IsKept before bundle files
      → IsKept before bundle (set (tmp_path bundle) v files)
  set-IsKept v files (same, others) = (
    rw (tmp_path-apart bundle) same,
    λ q. set_hidden (equal q (tmp_path bundle)) v (files q) (before q) (others q),
  )

module _ {E : Type 0} (s : System E) (before : Files) (bundle : Bytes) where
  remove_tmp-IsKept :
      (fails : Option E) (files : Files)
      → IsKept before bundle files
      → IsKept before bundle (remove_tmp fails (tmp_path bundle) files)
  remove_tmp-IsKept none files h = set-IsKept before bundle none files h
  remove_tmp-IsKept (some e) files h = h

  module _ (body : Reader E) (files : Files) (kept : IsKept before bundle files)
      (whole : IsWhole body)
      (stored : files (tmp_path bundle) ≡ some (deobfuscate body.content)) where
    rename_tmp-IsStored :
        (fails : Option E) → IsStored before bundle body (rename_tmp s bundle files fails)
    rename_tmp-IsStored none = (
      whole,
      λ q. elim (Bool-cases (equal q bundle)) [ inl e ↦ rw (e) stored | inr e ↦ rw (e) (kept.1 q) ],
    )
    rename_tmp-IsStored (some e) = remove_tmp-IsKept s.remove_fails files kept

    close_tmp-IsStored :
        (fails : Option E) → IsStored before bundle body (close_tmp s bundle files fails)
    close_tmp-IsStored none = rename_tmp-IsStored s.rename_fails
    close_tmp-IsStored (some e) = remove_tmp-IsKept s.remove_fails files kept

  after_copy-IsStored :
      (body : Reader E) (files : Files) (w : Written E)
      → IsKept before bundle files
      → IsTaken (record { written = []; room = s.room }) (deobfuscate body.content) (IsWhole body) w
      → IsStored before bundle body (after_copy s bundle files w)
  after_copy-IsStored body files (written_to dst none) kept (took, whole) =
      close_tmp-IsStored body (set (tmp_path bundle) (some dst.written) files)
        (set-IsKept before bundle (some dst.written) files kept) whole
        (rw (equal_refl (tmp_path bundle), took) refl) s.close_fails
  after_copy-IsStored body files (written_to dst (some e)) kept _ =
      remove_tmp-IsKept s.remove_fails (set (tmp_path bundle) (some dst.written) files)
        (set-IsKept before bundle (some dst.written) files kept)

  store_body-IsStored :
      (body : Reader E) (fails : Option E)
      → IsStored before bundle body (store_body s bundle before body fails)
  store_body-IsStored body none =
      after_copy-IsStored body (set (tmp_path bundle) (some []) before) _
        (set-IsKept before bundle (some []) before (refl, λ q. refl))
        (deobfuscate_to_writer-IsTaken s.no_room (record { written = []; room = s.room })
          body.content body.fault body.cut)
  store_body-IsStored body (some e) = (refl, λ q. refl)

  with_status :
      (status : ℕ) (body : Reader E) (done : Fetched E)
      → is_refused status ≡ false
      → IsStored before bundle body done
      → IsSettled before bundle (answered status body) done
  with_status status body (after, none) h stored = (ground arith, stored)
  with_status status body (after, some e) h stored = stored

  answer-IsSettled :
      (answer : Reply E) → IsSettled before bundle answer (take_answer s bundle before answer)
  answer-IsSettled (not_requested e) = (refl, λ q. refl)
  answer-IsSettled (not_sent e) = (refl, λ q. refl)
  answer-IsSettled (answered status body) = elim (Bool-cases (is_refused status)) [
    | inl e ↦ rw (e) (refl, λ q. refl)
    | inr e ↦ rw (e) (with_status status body _ e (store_body-IsStored body s.open_fails))
  ]

  -- An attempt succeeds only on an answer of 200 to 299 whose body was read to its end without a fault,
  -- or was cut short, with `io.ErrUnexpectedEOF`, before its mark or the masked header behind it ended;
  -- the bundle is then what was read, unwrapped, the temporary file is gone and every other file is as
  -- before. In every other case, whatever fails, the bundle and each file but the temporary one are as
  -- before.
  pub download_bundle_once-IsSettled :
      (client : Bytes → List (Bytes × Bytes) → Reply E) (url : Bytes)
      (headers : List (Bytes × Bytes))
      → IsSettled before bundle
          (client url headers)
          (download_bundle_once client s url headers bundle before)
  unfolding download_bundle_once
  download_bundle_once-IsSettled client url headers = answer-IsSettled (client url headers)

-- A system where nothing fails.
abbrev pub sound_system : {E : Type 0} → ℕ → E → System E
sound_system room no_room = record {
  open_fails = none;
  close_fails = none;
  rename_fails = none;
  remove_fails = none;
  room = room;
  no_room = no_room;
}

ok_status : (status : ℕ) → 200 ≤ status → status < 300 → is_refused status ≡ false
ok_status status h h' = ground arith

-- Where nothing of the system fails, a body of 200 to 299 that is read whole, and for which there is
-- room, becomes the bundle without an error.
pub download_bundle_once-succeeds :
    {E : Type 0} (no_room : E) (room : ℕ) (before : Files) (bundle : Bytes)
    (client : Bytes → List (Bytes × Bytes) → Reply E) (url : Bytes) (headers : List (Bytes × Bytes))
    (status : ℕ) (body : Bytes)
    → client url headers ≡ answered status (record { content = body; fault = none; cut = false })
    → 200 ≤ status
    → status < 300
    → length body ≤ room
    → (download_bundle_once client (sound_system room no_room) url headers bundle before).1 ≡ none
unfolding download_bundle_once
download_bundle_once-succeeds no_room room before bundle client url headers status body answer h h'
      fits =
    rw
      (
        answer,
        ok_status status h h',
        deobfuscate_to_writer-deobfuscate no_room (record { written = []; room = room }) body fits,
      )
      refl
