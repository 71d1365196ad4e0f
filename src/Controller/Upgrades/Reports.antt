-- ===== src/Controller/Upgrades/Reports.antt =====
-- What `updaterReport` does with a report of a failure, and with one for a finished task.
use Prim.Native.String.{len, ◌++◌ as ◌<>◌}
use xmesh.Common.{
  ℕ, ◌≤◌, ◌≡◌, ◌≢◌, refl, ◌∙◌, ◌⊎◌, inl, inr, true, false, some, String, str_eq, eq_iff, eq_refl,
  ◌==◌, ltb, ok, arith,
}
use xmesh.Common.Dict
use xmesh.Common.Dict.{Dict, get_or, get-put}
use xmesh.Model.{State, Stage, UpgradeTask, UpgradeBatch}
use xmesh.Model.Upgrades.{
  other, running, uncertain, downloading, prepared, switching, verifying, rolling_back, pending,
  preparing, succeeded, rolled_back, manual_intervention, failed, cancelled, expired, paused,
  recovering,
}
use xmesh.Controller.Upgrades.{updater_report, after_report, after_failure}
use xmesh.Controller.Upgrades.Stages.{reportable, stage_text, in_flight, set_task}
use xmesh.Controller.Upgrades.Recovery.{Settings}

abbrev pub IsFailure : Stage → Type 0
IsFailure stage = (stage ≡ rolled_back) ⊎ (stage ≡ failed) ⊎ (stage ≡ manual_intervention)

-- A report that is accepted for a task that is not with an updater any more, whether it has succeeded, failed, been
-- rolled back, been cancelled or expired, changes nothing.
pub updater_report-finished :
    (cfg : Settings) (s t : State) (node_id id : String) (stage : Stage) (error : String)
    (attempt now : ℕ) (task : UpgradeTask)
    → Dict.get s.upgrade_tasks id ≡ some task
    → in_flight task.stage ≡ false
    → updater_report cfg s node_id id stage error attempt now ≡ ok t
    → t ≡ s
unfolding updater_report
updater_report-finished cfg s t node_id id stage error attempt now task e done h =
    ground (arith, e, done, h)

in_flight-text :
    (old : Stage)
    → in_flight old ≡ true
    → (str_eq (stage_text old) "rolled_back" ≡ false)
      × (str_eq (stage_text old) "failed" ≡ false)
      × (str_eq (stage_text old) "manual_intervention" ≡ false)
unfolding in_flight stage_text
in_flight-text running flies = (refl, refl, refl)
in_flight-text uncertain flies = (refl, refl, refl)
in_flight-text downloading flies = (refl, refl, refl)
in_flight-text prepared flies = (refl, refl, refl)
in_flight-text switching flies = (refl, refl, refl)
in_flight-text verifying flies = (refl, refl, refl)
in_flight-text rolling_back flies = (refl, refl, refl)
in_flight-text pending flies = cc
in_flight-text preparing flies = cc
in_flight-text succeeded flies = cc
in_flight-text rolled_back flies = cc
in_flight-text manual_intervention flies = cc
in_flight-text failed flies = cc
in_flight-text cancelled flies = cc
in_flight-text expired flies = cc
in_flight-text paused flies = cc
in_flight-text recovering flies = cc
in_flight-text (other x) flies = cc

new_text :
    (old : Stage)
    → in_flight old ≡ true
    → (stage : Stage) → IsFailure stage
    → (str_eq (stage_text old) (stage_text stage) ≡ false) × (reportable stage ≡ true)
unfolding stage_text reportable
new_text old flies stage (inl e) = rw e ((in_flight-text old flies).0, refl)
new_text old flies stage (inr (inl e)) = rw e ((in_flight-text old flies).1, refl)
new_text old flies stage (inr (inr e)) = rw e ((in_flight-text old flies).2, refl)

after_report-failure :
    (cfg : Settings) (s : State) (task : UpgradeTask) (stage : Stage) (error : String) (now : ℕ)
    → IsFailure stage
    → after_report cfg s task stage error now ≡ after_failure s task stage error
unfolding after_report
after_report-failure cfg s task stage error now (inl e) = rw e refl
after_report-failure cfg s task stage error now (inr (inl e)) = rw e refl
after_report-failure cfg s task stage error now (inr (inr e)) = rw e refl

after_failure-batch :
    (s : State) (task : UpgradeTask) (b : UpgradeBatch) (stage : Stage) (error : String)
    → Dict.get s.upgrade_batches task.batch_id ≡ some b
    → b.id ≡ task.batch_id
    → Dict.get (after_failure s task stage error).upgrade_batches task.batch_id
      ≡ some (record b {
        stage = paused;
        error = stage_text stage <> (": " <> error);
        recovery_task_id = "";
        recovery_deadline = 0;
      })
unfolding after_failure
after_failure-batch s task b stage error eb ib =
    let stopped = record b {
      stage = paused;
      error = stage_text stage <> (": " <> error);
      recovery_task_id = "";
      recovery_deadline = 0;
    } in
    rw eb
      (get-put s.upgrade_batches b.id task.batch_id stopped ∙ rw (ib, eq_refl task.batch_id) refl)

-- A report that a task of a batch has failed, was rolled back or needs an operator is accepted from
-- the node and the attempt that hold the task, and pauses the batch with the report as the reason. The report's text has at most
-- 1024 bytes, and the batch is stored under its ID.
pub updater_report-failure :
    (cfg : Settings) (s : State) (id : String) (stage : Stage) (error : String) (now : ℕ)
    (task : UpgradeTask) (b : UpgradeBatch)
    → Dict.get s.upgrade_tasks id ≡ some task
    → in_flight task.stage ≡ true
    → Dict.get s.upgrade_batches task.batch_id ≡ some b
    → b.id ≡ task.batch_id
    → task.batch_id ≢ ""
    → IsFailure stage
    → len error ≤ 1024
    → (t : State) × (updater_report cfg s task.node_id id stage error task.attempt now ≡ ok t)
      × (Dict.get t.upgrade_batches task.batch_id
          ≡ some (record b {
            stage = paused;
            error = stage_text stage <> (": " <> error);
            recovery_task_id = "";
            recovery_deadline = 0;
          }))
      × (Dict.get t.upgrade_tasks task.id
          ≡ some (record task { stage = stage; error = error; updated_at = now }))
unfolding updater_report after_report after_failure
updater_report-failure cfg s id stage error now task b e flies eb ib some_batch fails short =
    let reported = record task { stage = stage; error = error; updated_at = now } in
    let text = new_text task.stage flies stage fails in
    let after = after_report-failure cfg (set_task s reported) reported stage error now fails in
    let brief : ltb 1024 (len error) ≡ false = ground (arith, short) in
    let node : str_eq task.node_id task.node_id ≡ true = eq_refl task.node_id in
    let batched : str_eq task.batch_id "" ≡ false =
      ground (arith, eq_iff task.batch_id "", some_batch) in
    let attempt : task.attempt == task.attempt ≡ true = ground arith in
    let accepted : updater_report cfg s task.node_id id stage error task.attempt now
        ≡ ok (after_failure (set_task s reported) reported stage error) =
      rw (updater_report, text.1, brief, e, node, attempt, text.0, flies, batched, after) refl in
    (
      after_failure (set_task s reported) reported stage error,
      accepted,
      after_failure-batch (set_task s reported) reported b stage error eb ib,
      ground (arith, get-put s.upgrade_tasks task.id task.id reported, eq_refl task.id),
    )
