-- ===== src/Controller/Upgrades/Stages.antt =====
-- internal/controller/node_upgrades.go: the tests on stages, and access to tasks and batches.
use xmesh.Common.{ℕ, Bool, true, false, ◌&&◌, not, none, some, [], String, str_eq, ltb}
use xmesh.Common.Dict
use xmesh.Common.Dict.{get_or}
use xmesh.Model.{State, Role, Stage, Updater, UpgradeTask, UpgradeBatch}
use xmesh.Model.Upgrades.{
  gateway, agent, unset, preparing, pending, running, uncertain, downloading, prepared, switching,
  verifying, rolling_back, succeeded, rolled_back, manual_intervention, failed, cancelled, expired,
  paused, recovering, other,
}

abbrev pub second : ℕ
second = 1_000_000_000

-- The text of a stage, by which the program compares stages.
unfoldable pub stage_text : Stage → String
stage_text preparing = "preparing"
stage_text pending = "pending"
stage_text running = "running"
stage_text uncertain = "uncertain"
stage_text downloading = "downloading"
stage_text prepared = "prepared"
stage_text switching = "switching"
stage_text verifying = "verifying"
stage_text rolling_back = "rolling_back"
stage_text succeeded = "succeeded"
stage_text rolled_back = "rolled_back"
stage_text manual_intervention = "manual_intervention"
stage_text failed = "failed"
stage_text cancelled = "cancelled"
stage_text expired = "expired"
stage_text paused = "paused"
stage_text recovering = "recovering"
stage_text (other s) = s

abbrev pub is_pending : Stage → Bool
is_pending pending = true
is_pending _ = false

abbrev pub is_preparing : Stage → Bool
is_preparing preparing = true
is_preparing _ = false

abbrev pub is_running : Stage → Bool
is_running running = true
is_running _ = false

abbrev pub is_succeeded : Stage → Bool
is_succeeded succeeded = true
is_succeeded _ = false

abbrev pub is_recovering : Stage → Bool
is_recovering recovering = true
is_recovering _ = false

abbrev pub is_paused : Stage → Bool
is_paused paused = true
is_paused _ = false

-- The stages of a task that an updater has claimed and not finished.
unfoldable pub in_flight : Stage → Bool
in_flight running = true
in_flight uncertain = true
in_flight downloading = true
in_flight prepared = true
in_flight switching = true
in_flight verifying = true
in_flight rolling_back = true
in_flight _ = false

-- `activeUpgrade`
unfoldable pub active_upgrade : Stage → Bool
unfolding in_flight
active_upgrade preparing = true
active_upgrade pending = true
active_upgrade stage = in_flight stage

-- The map `allowed` of `updaterReport`.
unfoldable pub reportable : Stage → Bool
reportable downloading = true
reportable prepared = true
reportable switching = true
reportable verifying = true
reportable uncertain = true
reportable rolling_back = true
reportable succeeded = true
reportable rolled_back = true
reportable manual_intervention = true
reportable failed = true
reportable _ = false

-- `nodeExists`
unfoldable pub node_exists : State → Role → String → Bool
node_exists s gateway id = elim (Dict.get s.gateways id) [ none ↦ false | some g ↦ true ]
node_exists s agent id = elim (Dict.get s.agents id) [
  | none ↦ false
  | some a ↦ str_eq a.gateway_id ""
]
node_exists s unset id = false

-- `pairingInProgress`
unfoldable pub pairing_in_progress : Updater → ℕ → Bool
pairing_in_progress up now = not (str_eq up.pair_token_hash "") && ltb now up.pair_expires_at

-- What a missing key gives.
abbrev pub zero_task : UpgradeTask
zero_task = record {
  id = "";
  manual = false;
  batch_id = "";
  node_id = "";
  role = unset;
  actor = "";
  from_version = "";
  target_version = "";
  asset = "";
  baseline_links = [];
  sha256 = "";
  mode = "";
  arch = "";
  stage = other "";
  attempt = 0;
  error = "";
  created_at = 0;
  expires_at = 0;
  updated_at = 0;
}

abbrev pub zero_batch : UpgradeBatch
zero_batch = record {
  id = "";
  task_ids = [];
  stage = other "";
  error = "";
  created_at = 0;
  recovery_task_id = "";
  recovery_deadline = 0;
}

-- state.UpgradeTasks[task.ID] = task
abbrev pub set_task : State → UpgradeTask → State
set_task s task = record s { upgrade_tasks = Dict.put s.upgrade_tasks task.id task }

-- state.UpgradeBatches[batch.ID] = batch
abbrev pub set_batch : State → UpgradeBatch → State
set_batch s batch = record s { upgrade_batches = Dict.put s.upgrade_batches batch.id batch }
