-- ===== src/Client/Pool.antt =====
-- The tasks of a worker and the semaphore that bounds them: the loop of `runHTTP` in
-- internal/client/worker.go and that of `runTCPConnection` in internal/client/tcp_worker.go, with the
-- goroutine that each starts per task. A step is what one goroutine does between two points where
-- another may run: the loop sends on the semaphore and starts a task; the task's goroutine adds its id
-- to the active ones, removes it, and receives from the semaphore.
pub mod Invariant
pub mod Bounded
use moe_asset_updater_client.Base.{
  ℕ, suc, ◌+◌, ◌-◌, ◌<◌, ◌≡◌, Bool, true, false, ◌&&◌, ◌||◌, List, [], ◌∷◌, ◌++◌, map, Bytes, equal,
}
use moe_asset_updater_client.Client.Active.{is_active, add_active, remove_active}

pub data Stage : Type 0 where
  started working leaving : Stage

-- A goroutine's task, and how far it is.
abbrev pub Running : Type 0
Running = Bytes × Stage

pub record Pool : Type 0 where
  -- the slots that are taken, `len(sem)`
  pub held : ℕ
  pub active : List Bytes
  pub running : List Running

abbrev pub empty_pool : Pool
empty_pool = record { held = 0; active = []; running = [] }

abbrev pub ids : List Running → List Bytes
ids = map (λ (r : Running). r.0)

-- With room for `capacity` tasks. Where `once` holds, the server leases no task again that runs.
pub data Step (capacity : ℕ) (once : Bool) (p q : Pool) : Type 0 where
  admit :
      (id : Bytes)
      → p.held < capacity
      → ((once ≡ true) → is_active id (ids p.running) ≡ false)
      → q ≡ record p { held = p.held + 1; running = (id, started) ∷ p.running }
      → Step capacity once p q
  begin :
      (xs : List Running) (id : Bytes) (ys : List Running)
      → p.running ≡ xs ++ (id, started) ∷ ys
      → q ≡ record p { active = add_active id p.active; running = xs ++ (id, working) ∷ ys }
      → Step capacity once p q
  finish :
      (xs : List Running) (id : Bytes) (ys : List Running)
      → p.running ≡ xs ++ (id, working) ∷ ys
      → q ≡ record p { active = remove_active id p.active; running = xs ++ (id, leaving) ∷ ys }
      → Step capacity once p q
  release :
      (xs : List Running) (id : Bytes) (ys : List Running)
      → p.running ≡ xs ++ (id, leaving) ∷ ys
      → q ≡ record p { held = p.held - 1; running = xs ++ ys }
      → Step capacity once p q

pub data Reach (capacity : ℕ) (once : Bool) : Pool → Type 0 where
  start : Reach capacity once empty_pool
  later : {p q : Pool} → Reach capacity once p → Step capacity once p q → Reach capacity once q
