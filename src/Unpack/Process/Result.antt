-- ===== src/Unpack/Process/Result.antt =====
-- What Process returns where it succeeds.
use moe_asset_updater_client.Base.{All, ◌≡◌, List}
use moe_asset_updater_client.Base.Outcome.{Outcome, OnOk}
use moe_asset_updater_client.Protocol.{ResultFile, TaskPayload, TaskResultManifest}
use moe_asset_updater_client.Unpack.Paths.{Runes}
use moe_asset_updater_client.Unpack.Manifest.{Visit, sort_by_path}
use moe_asset_updater_client.Unpack.Manifest.Distinct.{IsSound}
use moe_asset_updater_client.Unpack.Manifest.Archive.{paths, IsCalm}
use moe_asset_updater_client.Unpack.Manifest.Outputs.{KeepsOptions}
use moe_asset_updater_client.Unpack.Action.{Run, Action}

-- The manifest, and the names under which the archive holds its files.
pub record IsPacked {E : Type 0} (visits : List (Visit E)) (task : TaskPayload)
    (given : TaskResultManifest × List Runes) : Type 0 where
  pub sound : IsSound given.0
  pub promised : KeepsOptions task.options given.0.files
  pub archived :
      (files : List ResultFile) × (given.0.files ≡ sort_by_path files) × (given.1 ≡ paths files)
  -- no call for the archive failed
  pub whole : All IsCalm visits

pub record Gives {E A : Type 0} (P : A → Type 0) (m : Action E A) : Type 0 where
  pub given : (run : Run) → OnOk P (m run).1
