-- ===== src/Model/Upgrades.antt =====
-- internal/model/model.go: the host updaters, and upgrade tasks and batches.
use xmesh.Common.{ℕ, Bool, String, List}

pub data Role : Type 0 where
  gateway agent unset : Role

-- The stages that the Controller writes; `other` is any other text.
pub data Stage : Type 0 where
  preparing pending running uncertain downloading prepared switching : Stage
  verifying rolling_back succeeded rolled_back manual_intervention failed : Stage
  cancelled expired paused recovering : Stage
  other : String → Stage

pub record Updater : Type 0 where
  pub node_id : String
  pub role : Role
  pub credential_hash : String
  pub pending_credential_hash : String
  pub pair_token_hash : String
  pub pair_expires_at : ℕ
  pub mode : String
  pub arch : String
  pub version : String
  pub protocol : ℕ
  pub last_seen : ℕ

pub record UpgradeTask : Type 0 where
  pub id : String
  pub manual : Bool
  pub batch_id : String
  pub node_id : String
  pub role : Role
  pub actor : String
  pub from_version : String
  pub target_version : String
  pub asset : String
  pub baseline_links : List String
  pub sha256 : String
  pub mode : String
  pub arch : String
  pub stage : Stage
  pub attempt : ℕ
  pub error : String
  pub created_at : ℕ
  pub expires_at : ℕ
  pub updated_at : ℕ

pub record UpgradeBatch : Type 0 where
  pub id : String
  pub task_ids : List String
  pub stage : Stage
  pub error : String
  pub created_at : ℕ
  pub recovery_task_id : String
  pub recovery_deadline : ℕ
