-- ===== src/Client/Pool/Invariant.antt =====
-- What every step keeps.
use moe_asset_updater_client.Base.{
  ℕ, ◌+◌, ◌-◌, ◌≤◌, ◌<◌, ◌≡◌, refl, sym, ap, ◌∙◌, Bool, true, false, ◌&&◌, ◌||◌, List, [], ◌∷◌,
  ◌++◌, arith, length, length-append, Bytes, equal, equal_iff,
}
use mathlib.Core.Path.{subst}
use moe_asset_updater_client.Client.Active.{
  is_active, add_active, remove_active, is_active-add_active, is_active-remove_active,
}
use moe_asset_updater_client.Client.Pool.{
  Stage, started, working, leaving, Running, Pool, ids, Step, admit, begin, finish, release, Reach,
  start, later,
}

abbrev pub works : Stage → Bool
works working = true
works _ = false

-- Some goroutine is at work on this task.
abbrev pub is_working : Bytes → List Running → Bool
is_working j [] = false
is_working j (r ∷ rs) = equal j r.0 && works r.1 || is_working j rs

-- No id twice.
abbrev pub Distinct : List Bytes → Type 0
Distinct [] = Unit
Distinct (x ∷ xs) = (is_active x xs ≡ false) × Distinct xs

pub record Inv (capacity : ℕ) (once : Bool) (p : Pool) : Type 0 where
  pub slots : p.held ≡ length p.running
  pub slots_le : p.held ≤ capacity
  pub truthful : (j : Bytes) → is_active j p.active ≡ true → is_working j p.running ≡ true
  pub complete :
      (once ≡ true) → (j : Bytes) → is_working j p.running ≡ true → is_active j p.active ≡ true
  pub distinct : (once ≡ true) → Distinct (ids p.running)

is_working-append :
    (j : Bytes) (xs ys : List Running)
    → is_working j (xs ++ ys) ≡ (is_working j xs || is_working j ys)
is_working-append j [] ys = refl
is_working-append j (x ∷ xs) ys = ground (arith, is_working-append j xs ys)

-- The stage of a task has no part in its id.
ids-middle :
    (xs : List Running) (id : Bytes) (s t : Stage) (ys : List Running)
    → ids (xs ++ (id, s) ∷ ys) ≡ ids (xs ++ (id, t) ∷ ys)
ids-middle [] id s t ys = refl
ids-middle (x ∷ xs) id s t ys = ap (◌∷◌ x.0) (ids-middle xs id s t ys)

is_working-is_active :
    (j : Bytes) (xs : List Running) → is_working j xs ≡ true → is_active j (ids xs) ≡ true
unfolding is_active
is_working-is_active j [] h = h
is_working-is_active j (x ∷ xs) h = ground (arith, is_working-is_active j xs)

is_active-append :
    (j : Bytes) (xs : List Running) (r : Running) (ys : List Running)
    → is_active j (ids (xs ++ r ∷ ys))
      ≡ (is_active j (ids xs) || (equal j r.0 || is_active j (ids ys)))
unfolding is_active
is_active-append j [] r ys = refl
is_active-append j (x ∷ xs) r ys = ground (arith, is_active-append j xs r ys)

-- Of distinct ids, the one in the middle is on neither side.
middle_alone :
    (xs : List Running) (r : Running) (ys : List Running)
    → Distinct (ids (xs ++ r ∷ ys))
    → (is_active r.0 (ids xs) ≡ false) × (is_active r.0 (ids ys) ≡ false)
unfolding is_active
middle_alone [] r ys d = (refl, d.0)
middle_alone (x ∷ xs) r ys d =
    let (front, back) = middle_alone xs r ys d.1 in
    (ground (arith, is_active-append x.0 xs r ys, equal_iff x.0 r.0, equal_iff r.0 x.0), back)

is_active-joined :
    (j : Bytes) (xs ys : List Running)
    → is_active j (ids (xs ++ ys)) ≡ (is_active j (ids xs) || is_active j (ids ys))
unfolding is_active
is_active-joined j [] ys = refl
is_active-joined j (x ∷ xs) ys = ground (arith, is_active-joined j xs ys)

Distinct-drop :
    (xs : List Running) (r : Running) (ys : List Running)
    → Distinct (ids (xs ++ r ∷ ys))
    → Distinct (ids (xs ++ ys))
Distinct-drop [] r ys d = d.1
Distinct-drop (x ∷ xs) r ys d = (
  ground (arith, is_active-append x.0 xs r ys, is_active-joined x.0 xs ys),
  Distinct-drop xs r ys d.1,
)

module _ (capacity : ℕ) (once : Bool) where
  abbrev State : ℕ → List Bytes → List Running → Type 0
  State held active running =
      Inv capacity once (record { held = held; active = active; running = running })

  admit-Inv :
      (held : ℕ) (active : List Bytes) (running : List Running) (id : Bytes)
      → held < capacity
      → ((once ≡ true) → is_active id (ids running) ≡ false)
      → State held active running
      → State (held + 1) active ((id, started) ∷ running)
  admit-Inv held active running id lt fresh inv = record {
    slots = omega (arith, inv.slots);
    slots_le = omega arith;
    truthful = λ j h. ground (arith, inv.truthful j h);
    complete = λ o j h. inv.complete o j (ground arith);
    distinct = λ o. (fresh o, inv.distinct o);
  }

  module _ (held : ℕ) (active : List Bytes) (xs : List Running) (id : Bytes)
      (ys : List Running) where
    begin-Inv :
        State held active (xs ++ (id, started) ∷ ys)
        → State held (add_active id active) (xs ++ (id, working) ∷ ys)
    begin-Inv inv = record {
      slots =
          inv.slots
          ∙ length-append xs ((id, started) ∷ ys)
          ∙ sym (length-append xs ((id, working) ∷ ys));
      slots_le = inv.slots_le;
      truthful = λ j h. ground (
        arith,
        is_working-append j xs ((id, started) ∷ ys),
        is_working-append j xs ((id, working) ∷ ys),
        is_active-add_active id j active,
        inv.truthful j,
      );
      complete = λ o j h. ground (
        arith,
        is_working-append j xs ((id, started) ∷ ys),
        is_working-append j xs ((id, working) ∷ ys),
        is_active-add_active id j active,
        inv.complete o j,
      );
      distinct = λ o. rw (ids-middle xs id working started ys) (inv.distinct o);
    }

    finish-Inv :
        State held active (xs ++ (id, working) ∷ ys)
        → State held (remove_active id active) (xs ++ (id, leaving) ∷ ys)
    finish-Inv inv = record {
      slots =
          inv.slots
          ∙ length-append xs ((id, working) ∷ ys)
          ∙ sym (length-append xs ((id, leaving) ∷ ys));
      slots_le = inv.slots_le;
      truthful = λ j h. ground (
        arith,
        is_working-append j xs ((id, working) ∷ ys),
        is_working-append j xs ((id, leaving) ∷ ys),
        is_active-remove_active id j active,
        inv.truthful j,
      );
      complete = λ o j h.
          let (front, back) = middle_alone xs (id, working) ys (inv.distinct o) in
          ground (
            arith,
            is_working-append j xs ((id, working) ∷ ys),
            is_working-append j xs ((id, leaving) ∷ ys),
            is_active-remove_active id j active,
            inv.complete o j,
            equal_iff j id,
            is_working-is_active j xs,
            is_working-is_active j ys,
          );
      distinct = λ o. rw (ids-middle xs id leaving working ys) (inv.distinct o);
    }

    release-Inv : State held active (xs ++ (id, leaving) ∷ ys) → State (held - 1) active (xs ++ ys)
    release-Inv inv = record {
      slots = omega (arith, inv.slots, length-append xs ((id, leaving) ∷ ys), length-append xs ys);
      slots_le = omega (arith, inv.slots_le);
      truthful = λ j h. ground (
        arith,
        is_working-append j xs ((id, leaving) ∷ ys),
        is_working-append j xs ys,
        inv.truthful j,
      );
      complete = λ o j h. ground (
        arith,
        is_working-append j xs ((id, leaving) ∷ ys),
        is_working-append j xs ys,
        inv.complete o j,
      );
      distinct = λ o. Distinct-drop xs (id, leaving) ys (inv.distinct o);
    }

  pub Step-Inv : {p q : Pool} → Step capacity once p q → Inv capacity once p → Inv capacity once q
  Step-Inv {p = p} (admit id lt fresh e) inv =
      subst (Inv capacity once) (sym e) (admit-Inv p.held p.active p.running id lt fresh inv)
  Step-Inv {p = p} (begin xs id ys at e) inv =
      subst (Inv capacity once) (sym e)
        (begin-Inv p.held p.active xs id ys (subst (State p.held p.active) at inv))
  Step-Inv {p = p} (finish xs id ys at e) inv =
      subst (Inv capacity once) (sym e)
        (finish-Inv p.held p.active xs id ys (subst (State p.held p.active) at inv))
  Step-Inv {p = p} (release xs id ys at e) inv =
      subst (Inv capacity once) (sym e)
        (release-Inv p.held p.active xs id ys (subst (State p.held p.active) at inv))

  pub Reach-Inv : {p : Pool} → Reach capacity once p → Inv capacity once p
  unfolding is_active
  Reach-Inv start = record {
    slots = refl;
    slots_le = omega arith;
    truthful = λ j h. h;
    complete = λ o j h. h;
    distinct = λ o. tt;
  }
  Reach-Inv (later r s) = Step-Inv s (Reach-Inv r)
