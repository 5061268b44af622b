-- ===== src/Unpack/Action.antt =====
-- The calls of internal/unpack/unpacker.go that run on the slots of its semaphores and report progress:
-- a call runs on the slots that are taken and the progress reported so far. A pool of workers, as of
-- `handleACBFiles` and of `exportHCAFiles` of internal/exporter/acb.go, is modelled by its jobs one
-- after the other, in an order that is an argument; their number is not modelled.
use moe_asset_updater_client.Base.{
  ℕ, Option, none, some, List, [], ◌∷◌, ◌++◌, if◌then◌else◌, Bytes, ltb, length, take,
}
use moe_asset_updater_client.Base.Outcome.{Outcome, ok, err, panic}
use moe_asset_updater_client.Unpack.Concurrency.{Semaphore, acquire_semaphore, release_semaphore}

pub record Slots : Type 0 where
  pub download : Semaphore
  pub asset_studio : Semaphore
  pub post_process : Semaphore
  pub usm : Semaphore
  pub acb : Semaphore
  pub hca : Semaphore

pub record Run : Type 0 where
  pub slots : Slots
  -- in hundredths
  pub reports : List ℕ

pub data Slot : Type 0 where
  studio post video bank wave : Slot

abbrev pub semaphore : Slot → Slots → Semaphore
semaphore studio s = s.asset_studio
semaphore post s = s.post_process
semaphore video s = s.usm
semaphore bank s = s.acb
semaphore wave s = s.hca

abbrev pub with_semaphore : Slot → Slots → Semaphore → Slots
with_semaphore studio s sem = record s { asset_studio = sem }
with_semaphore post s sem = record s { post_process = sem }
with_semaphore video s sem = record s { usm = sem }
with_semaphore bank s sem = record s { acb = sem }
with_semaphore wave s sem = record s { hca = sem }

abbrev pub Action : Type 0 → Type 0 → Type 0
Action E A = Run → Run × Outcome E A

abbrev pub continue : {E A B : Type 0} → (A → Action E B) → Run × Outcome E A → Run × Outcome E B
continue f (run, ok a) = f a run
continue f (run, err e) = (run, err e)
continue f (run, panic) = (run, panic)

infixl 5 ◌then◌
unfoldable pub ◌then◌ : {E A B : Type 0} → Action E A → (A → Action E B) → Action E B
m then f = λ run. continue f (m run)

unfoldable pub call : {E A : Type 0} → Outcome E A → Action E A
call o = λ run. (run, o)

-- `if err := …; err != nil { return err }`.
unfoldable pub check : {E : Type 0} → Option E → Action E (Unit {0})
unfolding call
check none = call (ok tt)
check (some e) = call (err e)

unfoldable pub report : {E : Type 0} → ℕ → Action E (Unit {0})
report n = λ run. (record run { reports = run.reports ++ n ∷ [] }, ok tt)

abbrev pub release : Slot → Run → Run
release slot run = record run {
  slots = with_semaphore slot run.slots (release_semaphore (semaphore slot run.slots));
}

-- With the context's error where it ends before a slot is free.
abbrev pub acquire : {E : Type 0} → Slot → Option E → Action E (Unit {0})
acquire slot ended = λ run. elim (acquire_semaphore ended (semaphore slot run.slots)) [
  | ok sem ↦ (record run { slots = with_semaphore slot run.slots sem }, ok tt)
  | err e ↦ (run, err e)
  | panic ↦ (run, panic)
]

abbrev pub released : {E A : Type 0} → Slot → Run × Outcome E A → Run × Outcome E A
released slot (run, o) = (release slot run, o)

-- The release is deferred: it runs on a panic too.
unfoldable pub with_slot : {E A : Type 0} → Slot → Option E → Action E A → Action E A
unfolding ◌then◌ acquire_semaphore release_semaphore
with_slot slot ended body = acquire slot ended then λ _ run. released slot (body run)

abbrev pub released_if_back : {E A : Type 0} → Slot → Run × Outcome E A → Run × Outcome E A
released_if_back slot (run, ok a) = (release slot run, ok a)
released_if_back slot (run, err e) = (release slot run, err e)
released_if_back slot (run, panic) = (run, panic)

-- The release is the next statement: a panic skips it.
unfoldable pub with_slot_until_return : {E A : Type 0} → Slot → Option E → Action E A → Action E A
unfolding ◌then◌ acquire_semaphore release_semaphore
with_slot_until_return slot ended body =
    acquire slot ended then λ _ run. released_if_back slot (body run)

-- The errors of a job of a pool: a panic is recovered, and reported as an error.
abbrev pub errors_of : {E : Type 0} → E → Outcome E (Unit {0}) → List E
errors_of of_panic (ok _) = []
errors_of of_panic (err e) = e ∷ []
errors_of of_panic panic = of_panic ∷ []

-- The jobs of a pool, one after the other, with their errors.
unfoldable pub run_jobs :
    {E : Type 0} → E → (Bytes → Action E (Unit {0})) → List Bytes → Run → Run × List E
run_jobs of_panic job [] run = (run, [])
run_jobs of_panic job (f ∷ fs) run =
    let (ran, o) = job f run in
    let (ended, errors) = run_jobs of_panic job fs ran in (ended, errors_of of_panic o ++ errors)

abbrev pub first_error : {E : Type 0} → List E → Outcome E (Unit {0})
first_error [] = ok tt
first_error (e ∷ es) = err e

-- The files that the workers get where the context ends, if it does, after so many of them.
abbrev pub sent_files : {E : Type 0} → Option (ℕ × E) → List Bytes → List Bytes
sent_files none files = files
sent_files (some (n, e)) files = take n files

-- The context's error where not every file was sent, or else the first error.
abbrev pub pool_ends : {E : Type 0} → Option (ℕ × E) → List Bytes → List E → Outcome E (Unit {0})
pool_ends none files errors = first_error errors
pool_ends (some (n, e)) files errors = if ltb n (length files) then err e else first_error errors

-- The jobs of the files that were sent, in the order that the workers take.
unfoldable pub pool :
    {E : Type 0}
    → E
    → (List Bytes → List Bytes)
    → Option (ℕ × E)
    → (Bytes → Action E (Unit {0}))
    → List Bytes
    → Action E (Unit {0})
unfolding run_jobs
pool of_panic schedule stops job files = λ run.
    let (ended, errors) = run_jobs of_panic job (schedule (sent_files stops files)) run in
    (ended, pool_ends stops files errors)
