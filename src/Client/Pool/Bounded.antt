-- ===== src/Client/Pool/Bounded.antt =====
-- What holds of the tasks in every state that the worker reaches.
use moe_asset_updater_client.Base.{ℕ, ◌≤◌, ◌≡◌, refl, Bool, true, arith, length, Bytes}
use moe_asset_updater_client.Client.Active.{is_active}
use moe_asset_updater_client.Client.Pool.{Pool, Reach}
use moe_asset_updater_client.Client.Pool.Invariant.{is_working, Reach-Inv}

-- Whatever the server leases and however the goroutines interleave: in every state that is reached, no
-- more tasks run than there are slots, and each slot that is taken is held by one of them.
pub Reach-slots :
    (capacity : ℕ) (once : Bool) {p : Pool}
    → Reach capacity once p
    → (length p.running ≤ capacity) × (p.held ≡ length p.running)
Reach-slots capacity once r =
    let inv = Reach-Inv capacity once r in (omega (arith, inv.slots, inv.slots_le), inv.slots)

-- Whatever the server leases and however the goroutines interleave: in every state that is reached, an
-- id that a heartbeat reports as active is that of a task at work.
pub Reach-is_working :
    (capacity : ℕ) (once : Bool) {p : Pool}
    → Reach capacity once p
    → (j : Bytes) → is_active j p.active ≡ true
    → is_working j p.running ≡ true
Reach-is_working capacity once r = (Reach-Inv capacity once r).truthful

-- Where the server leases no task again that runs: in every state that is reached, the ids that a
-- heartbeat reports are exactly those of the tasks at work.
pub Reach-is_active :
    (capacity : ℕ) {p : Pool}
    → Reach capacity true p
    → (j : Bytes) → is_active j p.active ≡ is_working j p.running
Reach-is_active capacity {p} r j =
    let inv = Reach-Inv capacity true r in
    both (is_active j p.active) (is_working j p.running) (inv.truthful j) (inv.complete refl j)
  where
    both : (a b : Bool) → (a ≡ true → b ≡ true) → (b ≡ true → a ≡ true) → a ≡ b
    both a b f g = ground arith
