-- ===== src/Controller/Upgrades/Tests.antt =====
-- Witnesses of the upgrades' theorems: a batch of two tasks, the first of which has succeeded.
use xmesh.Common.{
  ℕ, ◌≡◌, ◌≢◌, ◌↔◌, refl, inl, inr, true, false, some, [], ◌∷◌, All, String, ok, arith,
}
use Prim.Native.String.{◌++◌ as ◌<>◌}
use xmesh.Common.Dict
use xmesh.Common.Dict.{Dict}
use xmesh.Common.Int.{pos}
use xmesh.Model.{State, new_state, Attachment, Link, LinkStatus, Updater, UpgradeTask, UpgradeBatch}
use xmesh.Model.Upgrades.{
  gateway, Stage, pending, running, paused, succeeded, recovering, failed, downloading,
}
use xmesh.Controller.Upgrades.{
  Caller, Moments, updater_task, updater_report, visit, claim_pending, claim_loop, has_task,
  priors_succeeded,
}
use xmesh.Controller.Upgrades.Stages.{stage_text, in_flight, reportable, active_upgrade, set_task}
use xmesh.Controller.Upgrades.Recovery.{
  Settings, status_problem, endpoint_problem, attachment_uses_node, link_attachment, link_problem,
  links_problem, upgrade_recovery_problem, recovery_task, reconcile_batch, reconcile_batches,
  reconcile_upgrade_recovery, reconciled, settle, finished, all_succeeded,
}
use xmesh.Controller.Upgrades.Recovered.{IsRecovered, upgrade_recovery_problem-IsRecovered}
use xmesh.Controller.Upgrades.Gate.{AreKeyed}
use xmesh.Controller.Upgrades.Outcomes.{
  reconcile_upgrade_recovery-finished, reconcile_upgrade_recovery-waits,
  reconcile_upgrade_recovery-paused,
}
use xmesh.Controller.Upgrades.Order.{Handed, updater_task-Handed, updater_task-stopped}
use xmesh.Controller.Upgrades.Reports.{updater_report-finished, updater_report-failure}

abbrev settings : Settings
settings = record { offline_after_seconds = 45; itoa = λ n. "45" }

abbrev link : Link
link = record {
  id = "l";
  attachment_id = "x";
  name = "Link";
  url = "";
  priority = pos 1;
  weight = pos 1;
  connections = pos 1;
  max_streams = pos 8;
  enabled = true;
  created_at = 0;
}

abbrev attachment : Attachment
attachment = record {
  id = "x";
  gateway_id = "gw";
  agent_id = "ag";
  upstream_id = "";
  enabled = true;
  created_at = 0;
}

abbrev healthy_report : String → LinkStatus
healthy_report node = record {
  link_id = "l";
  reporter_node_id = node;
  online = true;
  ready = true;
  generation = 1;
  last_error = "";
  last_seen = 150;
}

abbrev task : String → String → Stage → UpgradeTask
task id node stage = record {
  id = id;
  manual = false;
  batch_id = "b";
  node_id = node;
  role = gateway;
  actor = "admin";
  from_version = "1";
  target_version = "2";
  asset = "a";
  baseline_links = "l" ∷ [];
  sha256 = "";
  mode = "systemd";
  arch = "amd64";
  stage = stage;
  attempt = 0;
  error = "";
  created_at = 0;
  expires_at = 5000;
  updated_at = 100;
}

abbrev batch : Stage → UpgradeBatch
batch stage = record {
  id = "b";
  task_ids = "t1" ∷ "t2" ∷ [];
  stage = stage;
  error = "";
  created_at = 0;
  recovery_task_id = "t1";
  recovery_deadline = 1000;
}

abbrev updater : Updater
updater = record {
  node_id = "gw2";
  role = gateway;
  credential_hash = "";
  pending_credential_hash = "";
  pair_token_hash = "";
  pair_expires_at = 0;
  mode = "systemd";
  arch = "amd64";
  version = "";
  protocol = 1;
  last_seen = 150;
}

abbrev caller : Caller
caller = record { node_id = "gw2"; mode = "systemd"; arch = "amd64" }

-- The second task is at a stage, and the batch at another; no Link has reported.
abbrev silent : Stage → Stage → State
silent second_stage batch_stage = record new_state {
  links = ("l", link) ∷ [];
  attachments = ("x", attachment) ∷ [];
  updaters = ("gw2", updater) ∷ [];
  upgrade_tasks = ("t1", task "t1" "gw" succeeded) ∷ ("t2", task "t2" "gw2" second_stage) ∷ [];
  upgrade_batches = ("b", batch batch_stage) ∷ [];
}

abbrev healthy : Stage → Stage → State
healthy second_stage batch_stage = record (silent second_stage batch_stage) {
  link_status = ("gw/l", healthy_report "gw") ∷ ("ag/l", healthy_report "ag") ∷ [];
}

upgrade_recovery_problem-IsRecovered_example :
    (upgrade_recovery_problem settings (healthy pending recovering) (task "t1" "gw" succeeded) 200
      ≡ "")
    ↔ All
        (IsRecovered settings (healthy pending recovering) (task "t1" "gw" succeeded) 200)
        ("l" ∷ [])
upgrade_recovery_problem-IsRecovered_example =
    upgrade_recovery_problem-IsRecovered settings (healthy pending recovering)
      (task "t1" "gw" succeeded) 200

keyed : (a b : Stage) → AreKeyed (silent a b).upgrade_batches
unfolding Dict.get
keyed a b = (refl, refl, tt)

well :
    All
      (IsRecovered settings (healthy pending recovering) (task "t1" "gw" succeeded) 200)
      ("l" ∷ [])
unfolding link_attachment attachment_uses_node Dict.get
well = (
  (
    ((λ e. cc), omega arith, omega arith, refl, refl),
    ((λ e. cc), omega arith, omega arith, refl, refl),
  ),
  tt,
)

unwell :
    (now : ℕ)
    → ¬ All
        (IsRecovered settings (silent pending recovering) (task "t1" "gw" succeeded) now)
        ("l" ∷ [])
unfolding link_attachment attachment_uses_node Dict.get
unwell now h = h.0.0

reconcile_upgrade_recovery-finished_example :
    (c : UpgradeBatch) × (Dict.get
        (reconcile_upgrade_recovery settings (healthy pending recovering) 200).upgrade_batches
        "b"
      ≡ some c)
    × (c.stage ≡ running)
    × (c.recovery_task_id ≡ "")
unfolding Dict.get recovery_task all_succeeded
reconcile_upgrade_recovery-finished_example =
    reconcile_upgrade_recovery-finished settings 200 (healthy pending recovering) "b"
      (batch recovering) (task "t1" "gw" succeeded) (keyed pending recovering) refl refl refl well

reconcile_upgrade_recovery-waits_example :
    (c : UpgradeBatch) × (Dict.get
        (reconcile_upgrade_recovery settings (silent pending recovering) 200).upgrade_batches
        "b"
      ≡ some c)
    × (c.stage ≡ recovering)
    × (c.recovery_task_id ≡ "t1")
    × (c.recovery_deadline ≡ 1000)
unfolding Dict.get recovery_task
reconcile_upgrade_recovery-waits_example =
    reconcile_upgrade_recovery-waits settings 200 (silent pending recovering) "b" (batch recovering)
      (task "t1" "gw" succeeded) (keyed pending recovering) refl refl refl (unwell 200)
      (omega arith)

reconcile_upgrade_recovery-paused_example :
    (c : UpgradeBatch) × (Dict.get
        (reconcile_upgrade_recovery settings (silent pending recovering) 1000).upgrade_batches
        "b"
      ≡ some c)
    × (c.stage ≡ paused)
    × (c.error
        ≡ upgrade_recovery_problem settings
            (silent pending recovering)
            (task "t1" "gw" succeeded)
            1000)
    × (c.error ≢ "")
unfolding Dict.get recovery_task
reconcile_upgrade_recovery-paused_example =
    reconcile_upgrade_recovery-paused settings 1000 (silent pending recovering) "b"
      (batch recovering) (task "t1" "gw" succeeded) (keyed pending recovering) refl refl refl
      (unwell 1000) (omega arith)

abbrev claimed : UpgradeTask
claimed = record (task "t2" "gw2" pending) { stage = running; attempt = 1; updated_at = 200 }

abbrev times : Moments
times = record { heard = 198; looked = 200; tested = 200; claimed = 200 }

updater_task-Handed_example :
    Handed
      (reconcile_upgrade_recovery settings (healthy pending recovering) 200)
      caller
      times
      (set_task (reconcile_upgrade_recovery settings (healthy pending recovering) 200) claimed)
      claimed
unfolding Dict.get Dict.put updater_task has_task active_upgrade in_flight claim_loop
    reconcile_upgrade_recovery reconcile_batches reconcile_batch visit reconciled settle
    recovery_task upgrade_recovery_problem links_problem link_problem link_attachment
    attachment_uses_node endpoint_problem status_problem finished all_succeeded claim_pending
    priors_succeeded
updater_task-Handed_example =
    updater_task-Handed settings (healthy pending recovering) (healthy pending recovering)
      (set_task (reconcile_upgrade_recovery settings (healthy pending recovering) 200) claimed)
      caller times claimed refl

updater_task-stopped_example :
    (in_flight downloading ≡ true)
    × (silent downloading paused
        ≡ reconcile_upgrade_recovery settings (silent downloading paused) 200)
unfolding Dict.get updater_task has_task active_upgrade claim_loop reconcile_upgrade_recovery
    reconcile_batches reconcile_batch visit
updater_task-stopped_example =
    updater_task-stopped settings (silent downloading paused) (silent downloading paused)
      (silent downloading paused) caller times (task "t2" "gw2" downloading) (batch paused)
      (keyed downloading paused) refl refl refl refl

updater_report-finished_example : silent succeeded running ≡ silent succeeded running
unfolding Dict.get updater_report in_flight reportable stage_text
updater_report-finished_example =
    updater_report-finished settings (silent succeeded running) (silent succeeded running) "gw2"
      "t2" succeeded "" 0 200 (task "t2" "gw2" succeeded) refl refl refl

updater_report-failure_example :
    (t : State) × (updater_report settings
        (silent downloading running)
        "gw2"
        "t2"
        failed
        "disk full"
        0
        200
      ≡ ok t)
    × (Dict.get t.upgrade_batches "b"
        ≡ some (record (batch running) {
          stage = paused;
          error = stage_text failed <> (": " <> "disk full");
          recovery_task_id = "";
          recovery_deadline = 0;
        }))
    × (Dict.get t.upgrade_tasks "t2"
        ≡ some (record (task "t2" "gw2" failed) { error = "disk full"; updated_at = 200 }))
unfolding Dict.get in_flight
updater_report-failure_example =
    updater_report-failure settings (silent downloading running) "t2" failed "disk full" 200
      (task "t2" "gw2" downloading) (batch running) refl refl refl refl (λ e. cc) (inr (inl refl))
      (omega arith)
