-- ===== src/Controller/Upgrades/Outcomes.antt =====
-- How a batch that waits for Links goes on: to the next task, to waiting on, or to a pause.
use xmesh.Common.{ℕ, ◌≤◌, ◌<◌, ◌≡◌, ◌≢◌, ◌&&◌, some, All, String, if◌then◌else◌}
use xmesh.Common.Dict
use xmesh.Common.Dict.{Dict, get_or, get-put}
use xmesh.Model.{State, UpgradeTask, UpgradeBatch}
use xmesh.Model.Upgrades.{paused, recovering, running, succeeded}
use xmesh.Controller.Upgrades.Recovered.{IsRecovered}
use xmesh.Controller.Upgrades.Recovery.{
  Settings, upgrade_recovery_problem, all_succeeded, any_task, recovery_task,
  reconcile_upgrade_recovery,
}
use xmesh.Controller.Upgrades.Gate.{AreKeyed, Settled, reconcile_upgrade_recovery-Settled}

module _ (cfg : Settings) (now : ℕ) where
  -- With batches stored under their IDs: a batch that waits for the Links of a task goes on as soon as each of them has recovered: it
  -- runs, or has succeeded when all its tasks have, and waits for nothing any more.
  pub reconcile_upgrade_recovery-finished :
      (s : State) (k : String) (b : UpgradeBatch) (task : UpgradeTask)
      → AreKeyed s.upgrade_batches
      → Dict.get s.upgrade_batches k ≡ some b
      → b.stage ≡ recovering
      → recovery_task s b ≡ some task
      → All (IsRecovered cfg s task now) task.baseline_links
      → (c : UpgradeBatch) × (Dict.get (reconcile_upgrade_recovery cfg s now).upgrade_batches k
          ≡ some c)
        × (c.stage
            ≡ (if any_task b.task_ids && all_succeeded s b.task_ids then succeeded else running))
        × (c.recovery_task_id ≡ "")
  reconcile_upgrade_recovery-finished s k b task keyed e waits found all =
      let (c, got, set, keep) = reconcile_upgrade_recovery-Settled cfg now s k b keyed e in
      let settled : Settled cfg now s b (some task) c = rw found at (set waits) in
      (c, got, (settled.0 all).0, (settled.0 all).1)

  -- With batches stored under their IDs: before its deadline, a batch that waits for the Links of
  -- a task waits on where one of them has not recovered.
  pub reconcile_upgrade_recovery-waits :
      (s : State) (k : String) (b : UpgradeBatch) (task : UpgradeTask)
      → AreKeyed s.upgrade_batches
      → Dict.get s.upgrade_batches k ≡ some b
      → b.stage ≡ recovering
      → recovery_task s b ≡ some task
      → ¬ All (IsRecovered cfg s task now) task.baseline_links
      → now < b.recovery_deadline
      → (c : UpgradeBatch) × (Dict.get (reconcile_upgrade_recovery cfg s now).upgrade_batches k
          ≡ some c)
        × (c.stage ≡ recovering)
        × (c.recovery_task_id ≡ b.recovery_task_id)
        × (c.recovery_deadline ≡ b.recovery_deadline)
  reconcile_upgrade_recovery-waits s k b task keyed e waits found missing early =
      let (c, got, set, keep) = reconcile_upgrade_recovery-Settled cfg now s k b keyed e in
      let settled : Settled cfg now s b (some task) c = rw found at (set waits) in
      let rest = settled.1 missing early in (c, got, rest.0, rest.1, rest.2)

  -- With batches stored under their IDs: from its deadline on, a batch that waits for the Links of
  -- a task is paused where one of them has not recovered, with a Link's problem as its error.
  pub reconcile_upgrade_recovery-paused :
      (s : State) (k : String) (b : UpgradeBatch) (task : UpgradeTask)
      → AreKeyed s.upgrade_batches
      → Dict.get s.upgrade_batches k ≡ some b
      → b.stage ≡ recovering
      → recovery_task s b ≡ some task
      → ¬ All (IsRecovered cfg s task now) task.baseline_links
      → b.recovery_deadline ≤ now
      → (c : UpgradeBatch) × (Dict.get (reconcile_upgrade_recovery cfg s now).upgrade_batches k
          ≡ some c)
        × (c.stage ≡ paused)
        × (c.error ≡ upgrade_recovery_problem cfg s task now)
        × (c.error ≢ "")
  reconcile_upgrade_recovery-paused s k b task keyed e waits found missing late =
      let (c, got, set, keep) = reconcile_upgrade_recovery-Settled cfg now s k b keyed e in
      let settled : Settled cfg now s b (some task) c = rw found at (set waits) in
      let rest = settled.2 missing late in (c, got, rest.0, rest.1, rest.2)
