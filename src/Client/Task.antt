-- ===== src/Client/Task.antt =====
-- One task, from its lease to its end: `runTaskSafelyWithTransport`, `handleTaskWithTransport` and
-- `cleanupTaskDir` of internal/client/worker.go.
-- What `Unpacker.Process` reports and returns, or that it panics, what the upload returns, or that it
-- panics, and whether the transport's report of a failure gets through are arguments; Unpack.Process
-- and Http model them. That report is taken not to panic. The log keeps the calls that the server and
-- the disk get, in order; log messages are left out.
pub mod Settled
use moe_asset_updater_client.Base.{
  ℕ, Bool, true, false, not, ◌&&◌, ◌||◌, List, [], ◌∷◌, ◌++◌, map, if◌then◌else◌, Bytes, equal,
}
use moe_asset_updater_client.Client.Active.{add_active, remove_active}

pub data Reason (P U : Type 0) : Type 0 where
  process_failed : P → Reason P U
  upload_failed : U → Reason P U
  panicked : Reason P U

pub data Event (P U : Type 0) : Type 0 where
  -- a progress report, in hundredths
  progress : Bytes → ℕ → Event P U
  -- the report of a failure, and whether it got through: its error is dropped
  failed : Bytes → Reason P U → Bool → Event P U
  completed : Bytes → Event P U
  removed : Bytes → Event P U

pub record Worker (P U : Type 0) : Type 0 where
  pub active : List Bytes
  pub log : List (Event P U)

-- What the task's configuration says, and which calls its transport has.
pub record Settings : Type 0 where
  pub cleanup : Bool
  pub keep_failed : Bool
  pub can_report : Bool
  pub can_fail : Bool
  -- whether the call that reports a failure returns without an error
  pub fail_arrives : Bool

-- How `uploadResult` ends.
pub data Uploaded (U : Type 0) : Type 0 where
  delivered : Uploaded U
  refused : U → Uploaded U
  upload_crashed : Uploaded U

-- How `Process` ends.
pub data Processed (P : Type 0) : Type 0 where
  archived : Processed P
  error : P → Processed P
  crashed : Processed P

-- One run of `Process`: the hundredths that it reports, the task's directory and how it ends.
pub record Processing (P : Type 0) : Type 0 where
  pub reports : List ℕ
  pub task_dir : Bytes
  pub ending : Processed P

unfoldable pub cleanup_task_dir : {P U : Type 0} → Settings → Bytes → Bool → List (Event P U)
unfolding equal
cleanup_task_dir s task_dir failed_task =
    if equal task_dir [] || not s.cleanup
    then []
    else if failed_task && s.keep_failed
    then []
    else removed task_dir ∷ []

abbrev pub report : {P U : Type 0} → Settings → Bytes → ℕ → List (Event P U)
report s id percent = if s.can_report then progress id percent ∷ [] else []

abbrev pub report_all : {P U : Type 0} → Settings → Bytes → List ℕ → List (Event P U)
report_all s id [] = []
report_all s id (n ∷ ns) = report s id n ++ report_all s id ns

abbrev pub fail : {P U : Type 0} → Settings → Bytes → Reason P U → List (Event P U)
fail s id reason = if s.can_fail then failed id reason s.fail_arrives ∷ [] else []

-- After the upload: whether it panicked, and what follows.
abbrev pub after_upload :
    {P U : Type 0} → Settings → Bytes → Bytes → Uploaded U → Bool × List (Event P U)
after_upload s id task_dir upload_crashed = (true, [])
after_upload s id task_dir (refused e) =
    (false, fail s id (upload_failed e) ++ cleanup_task_dir s task_dir true)
after_upload s id task_dir delivered = (false, completed id ∷ cleanup_task_dir s task_dir false)

-- After `Process`, with how the upload ends; whether the body panicked, and what it did.
unfoldable pub after_process :
    {P U : Type 0} → Settings → Bytes → Processing P → Uploaded U → Bool × List (Event P U)
unfolding cleanup_task_dir
after_process s id run upload = elim run.ending [
  | crashed ↦ (true, [])
  | error e ↦ (false, fail s id (process_failed e) ++ cleanup_task_dir s run.task_dir true)
  | archived ↦
      (let (panics, events) = after_upload s id run.task_dir upload in
        (panics, report s id 92 ++ events))
]

-- The deferred calls run in any case; a panic goes on to the caller.
unfoldable pub handle_task :
    {P U : Type 0} → Settings → Bytes → Processing P → Uploaded U → Worker P U → Bool × Worker P U
unfolding after_process add_active remove_active
handle_task s id run upload w =
    let (panics, events) = after_process s id run upload in
    (
      panics,
      record {
        active = remove_active id (add_active id w.active);
        log = w.log ++ (report_all s id run.reports ++ events);
      },
    )

-- The `recover` reports the panic.
abbrev pub recover_panic : {P U : Type 0} → Settings → Bytes → Bool × Worker P U → Worker P U
recover_panic s id (true, w) = record w { log = w.log ++ fail s id panicked }
recover_panic s id (false, w) = w

unfoldable pub run_task_safely :
    {P U : Type 0} → Settings → Bytes → Processing P → Uploaded U → Worker P U → Worker P U
unfolding handle_task
run_task_safely s id run upload w = recover_panic s id (handle_task s id run upload w)
