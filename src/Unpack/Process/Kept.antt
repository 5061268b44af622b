-- ===== src/Unpack/Process/Kept.antt =====
-- What a call leaves of the slots and the progress, and how that goes on along a sequence of calls.
use moe_asset_updater_client.Base.{
  if◌then◌else◌, ℕ, ◌+◌, ◌≡◌, refl, sym, ap, ◌∙◌, append-nil, append_assoc, ◌⊎◌, inl, inr, List, [],
  ◌++◌, arith,
}
use moe_asset_updater_client.Base.Outcome.{Outcome, ok, err, panic, OnOk}
use moe_asset_updater_client.Unpack.Concurrency.{release_semaphore}
use moe_asset_updater_client.Unpack.Action.{
  Slots, Run, Slot, studio, post, video, bank, wave, semaphore, with_semaphore, Action, continue,
  ◌then◌, release,
}

-- Of these reports a front part was made, and all of them where the call succeeded.
pub record Told {E A : Type 0} (planned before : List ℕ) (after : Run × Outcome E A) : Type 0 where
  pub sent : List ℕ
  pub rest : List ℕ
  pub all : planned ≡ sent ++ rest
  pub now : after.0.reports ≡ before ++ sent
  pub done : OnOk (λ _. rest ≡ []) after.1

-- The slots are afterwards as they were, and these reports were made.
pub record Keeps {E A : Type 0} (planned : List ℕ) (m : Action E A) : Type 0 where
  pub kept : (run : Run) → (m run).0.slots ≡ run.slots
  pub told : (run : Run) → Told planned run.reports (m run)

abbrev pub one_more : Slot → Slots → Slots
one_more slot s =
    with_semaphore slot s (record (semaphore slot s) { held = (semaphore slot s).held + 1 })

-- They are as they were, or the call panicked and a slot of the asset studio is still taken.
abbrev pub Leaves : {E A : Type 0} → Slots → Run × Outcome E A → Type 0
Leaves {A = A} before after =
    (after.0.slots ≡ before) ⊎ ((after.1 ≡ panic) × (after.0.slots ≡ one_more studio before))

pub record Leaks {E A : Type 0} (planned : List ℕ) (m : Action E A) : Type 0 where
  pub left : (run : Run) → Leaves run.slots (m run)
  pub told : (run : Run) → Told planned run.reports (m run)

given_back :
    (slot : Slot) (s : Slots)
    → with_semaphore slot (one_more slot s) (release_semaphore (semaphore slot (one_more slot s)))
      ≡ s
unfolding release_semaphore
given_back studio s =
    ap (λ n. record s { asset_studio = record s.asset_studio { held = n } }) (omega arith)
given_back post s =
    ap (λ n. record s { post_process = record s.post_process { held = n } }) (omega arith)
given_back video s = ap (λ n. record s { usm = record s.usm { held = n } }) (omega arith)
given_back bank s = ap (λ n. record s { acb = record s.acb { held = n } }) (omega arith)
given_back wave s = ap (λ n. record s { hca = record s.hca { held = n } }) (omega arith)

pub release-taken :
    (slot : Slot) (run : Run) (s : Slots)
    → run.slots ≡ one_more slot s
    → (release slot run).slots ≡ s
release-taken slot run s e =
    ap (λ t. with_semaphore slot t (release_semaphore (semaphore slot t))) e ∙ given_back slot s

pub silent :
    {E A : Type 0} (before : List ℕ) (after : Run × Outcome E A)
    → after.0.reports ≡ before
    → Told [] before after
silent before (run, o) e = record {
  sent = [];
  rest = [];
  all = refl;
  now = e ∙ sym (append-nil before);
  done = nothing_left o;
}
  where
    nothing_left : {E A : Type 0} (o : Outcome E A) → OnOk (λ _. ◌≡◌ {A = List ℕ} [] []) o
    nothing_left (ok a) = refl
    nothing_left (err e) = tt
    nothing_left panic = tt

module _ {E A B : Type 0} {ms : List ℕ} where
  Keeps-continue :
      (f : A → Action E B)
      → ((a : A) → Keeps ms (f a))
      → (r : Run × Outcome E A) → (continue f r).0.slots ≡ r.0.slots
  Keeps-continue f k (run, ok a) = (k a).kept run
  Keeps-continue f k (run, err e) = refl
  Keeps-continue f k (run, panic) = refl

module _ {E A B : Type 0} {ns ms : List ℕ} where
  Told-continue :
      (f : A → Action E B) (before : List ℕ) (r : Run × Outcome E A)
      → Told ns before r
      → ((a : A) (run : Run) → Told ms run.reports (f a run))
      → Told (ns ++ ms) before (continue f r)
  Told-continue f before (run, ok a) t k =
      let u = k a run in
      record {
        sent = t.sent ++ u.sent;
        rest = u.rest;
        all =
            ap (λ l. l ++ ms) (t.all ∙ ap (λ r. t.sent ++ r) t.done ∙ append-nil t.sent)
            ∙ ap (λ l. t.sent ++ l) u.all
            ∙ sym (append_assoc t.sent u.sent u.rest);
        now = u.now ∙ ap (λ l. l ++ u.sent) t.now ∙ append_assoc before t.sent u.sent;
        done = u.done;
      }
  Told-continue f before (run, err e) t k = record {
    sent = t.sent;
    rest = t.rest ++ ms;
    all = ap (λ l. l ++ ms) t.all ∙ append_assoc t.sent t.rest ms;
    now = t.now;
    done = tt;
  }
  Told-continue f before (run, panic) t k = record {
    sent = t.sent;
    rest = t.rest ++ ms;
    all = ap (λ l. l ++ ms) t.all ∙ append_assoc t.sent t.rest ms;
    now = t.now;
    done = tt;
  }

  pub Keeps-then :
      (m : Action E A) (f : A → Action E B)
      → Keeps ns m
      → ((a : A) → Keeps ms (f a))
      → Keeps (ns ++ ms) (m then f)
  unfolding ◌then◌
  Keeps-then m f km kf = record {
    kept = λ run. Keeps-continue f kf (m run) ∙ km.kept run;
    told = λ run. Told-continue f run.reports (m run) (km.told run) (λ a. (kf a).told);
  }

  pub Leaks-then :
      (m : Action E A) (f : A → Action E B)
      → Keeps ns m
      → ((a : A) → Leaks ms (f a))
      → Leaks (ns ++ ms) (m then f)
  unfolding ◌then◌
  Leaks-then m f km kf = record {
    left = λ run. after run.slots (m run) (km.kept run);
    told = λ run. Told-continue f run.reports (m run) (km.told run) (λ a. (kf a).told);
  }
    where
      after :
          (before : Slots) (r : Run × Outcome E A)
          → r.0.slots ≡ before
          → Leaves before (continue f r)
      after before (run', ok a) e = elim ((kf a).left run') [
        | inl h ↦ inl (h ∙ e)
        | inr (p, h) ↦ inr (p, h ∙ ap (one_more studio) e)
      ]
      after before (run', err x) e = inl e
      after before (run', panic) e = inl e

  pub then-Leaks :
      (m : Action E A) (f : A → Action E B)
      → Leaks ns m
      → ((a : A) → Keeps ms (f a))
      → Leaks (ns ++ ms) (m then f)
  unfolding ◌then◌
  then-Leaks m f km kf = record {
    left = λ run. after run.slots (m run) (km.left run);
    told = λ run. Told-continue f run.reports (m run) (km.told run) (λ a. (kf a).told);
  }
    where
      after :
          (before : Slots) (r : Run × Outcome E A) → Leaves before r → Leaves before (continue f r)
      after before (run', ok a) (inl e) = inl ((kf a).kept run' ∙ e)
      after before (run', ok a) (inr (p, e)) = cc
      after before (run', err x) (inl e) = inl e
      after before (run', err x) (inr (p, e)) = cc
      after before (run', panic) (inl e) = inl e
      after before (run', panic) (inr (p, e)) = inr (refl, e)
