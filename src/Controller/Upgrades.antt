-- ===== src/Controller/Upgrades.antt =====
-- internal/controller/node_upgrades.go: upgrade tasks, from the claim by a node's updater to its
-- reports. Each definition is what the handler's `store.Update` does to the state; an error throws
-- the changes away. The child Recovery is node_upgrade_recovery.go.
pub mod Stages
pub mod Recovery
pub mod Recovered
pub mod Gate
pub mod Outcomes
pub mod Order
pub mod Pairing
pub mod PairOnce
pub mod Create
pub mod Manual
pub mod OneActive
pub mod NewTasks
pub mod Kept
pub mod HandedOut
pub mod Paired
pub mod Started
pub mod Histories
mod PairTests
mod HistoryTests
mod Tests
pub mod Reports
use xmesh.Common.{
  ℕ, ◌+◌, ◌*◌, ◌≡◌, Bool, true, false, ◌&&◌, ◌||◌, not, Option, none, some, List, [], ◌∷◌, String,
  str_eq, ltb, leb, ◌==◌, if◌then◌else◌, Result, ok, err, ◌>>=◌, ◌>>◌, refuse_if, or_fail,
}
use Prim.Native.String.{len, ◌++◌ as ◌<>◌}
use xmesh.Common.Dict
use xmesh.Common.Dict.{Dict, get_or}
use xmesh.Model.{State, Stage, UpgradeTask, UpgradeBatch, Updater}
use xmesh.Model.Upgrades.{
  pending, preparing, running, cancelled, expired, paused, recovering, succeeded, rolled_back,
  failed, manual_intervention,
}
use Stages.{
  second, is_pending, is_preparing, is_running, is_succeeded, in_flight, active_upgrade, reportable,
  stage_text, zero_task, zero_batch, set_task, set_batch,
}
use Recovery.{Settings, reconcile_upgrade_recovery, recovery_timeout}

pub data Error : Type 0 where
  invalid_report foreign_task terminal_task not_cancellable : Error
  heartbeat_expired installation_changed : Error

-- The updater that has authenticated.
pub record Caller : Type 0 where
  pub node_id : String
  pub mode : String
  pub arch : String

-- The loop of `cancelUpgrade` over the batch's tasks.
unfoldable pub cancel_tasks : List String → ℕ → State → State
cancel_tasks [] now s = s
cancel_tasks (id ∷ ids) now s =
    let task = get_or (Dict.get s.upgrade_tasks id) zero_task in
    cancel_tasks ids now (
      if is_pending task.stage || is_preparing task.stage
      then record s {
        upgrade_tasks =
            Dict.put s.upgrade_tasks id (record task { stage = cancelled; updated_at = now });
      }
      else s)

abbrev pub stopped : UpgradeBatch → UpgradeBatch
stopped batch = record batch {
  stage = paused;
  error = "cancelled by administrator";
  recovery_task_id = "";
  recovery_deadline = 0;
}

-- `cancelUpgrade`
unfoldable pub cancel_upgrade : State → String → ℕ → Result Error State
unfolding cancel_tasks
cancel_upgrade s id now = do
  task ← or_fail (Dict.get s.upgrade_tasks id) not_cancellable
  refuse_if (not (is_pending task.stage) && not (is_preparing task.stage)) not_cancellable
  ok (
      if str_eq task.batch_id ""
      then set_task s (record task { stage = cancelled; updated_at = now })
      else (let batch = get_or (Dict.get s.upgrade_batches task.batch_id) zero_batch in
          cancel_tasks batch.task_ids now (set_batch s (stopped batch))))

-- The loop over the tasks before this one: whether each has succeeded.
unfoldable pub priors_succeeded : State → List String → String → Bool
priors_succeeded s [] id = true
priors_succeeded s (prior ∷ ids) id =
    let rest = priors_succeeded s ids id in
    if str_eq prior id
    then true
    else if is_succeeded (get_or (Dict.get s.upgrade_tasks prior) zero_task).stage
    then rest
    else false

-- The times of a transaction of `updaterTask`: of the test of the heartbeat, of the look at the
-- batches, of the test that the task has not expired, and of the claim.
pub record Moments : Type 0 where
  pub heard : ℕ
  pub looked : ℕ
  pub tested : ℕ
  pub claimed : ℕ

-- What the loop of `updaterTask` does at a task.
pub data Visit : Type 0 where
  skip : Visit
  answer : Result Error (State × Option UpgradeTask) → Visit

-- The `switch` on a pending task: not its batch's turn, not its own turn, too late, or claimed.
unfoldable pub claim_pending : State → Moments → UpgradeTask → Visit
claim_pending s times task =
    let batch = get_or (Dict.get s.upgrade_batches task.batch_id) zero_batch in
    let claimed = record task {
      stage = running;
      attempt = task.attempt + 1;
      updated_at = times.claimed;
    } in
    if not (is_running batch.stage)
    then skip
    else if not (priors_succeeded s batch.task_ids task.id)
    then answer (ok (s, none))
    else if not (ltb times.tested task.expires_at)
    then answer (
        ok (
          set_batch (set_task s (record task { stage = expired }))
              (record batch { stage = paused; error = "task expired before claim" }),
          none,
        ))
    else answer (ok (set_task s claimed, some claimed))

unfoldable pub visit : State → Caller → Moments → UpgradeTask → Visit
unfolding claim_pending
visit s up times task =
    if not (str_eq task.node_id up.node_id)
      || task.manual
      || not (is_pending task.stage || in_flight task.stage)
    then skip
    else if not (str_eq task.mode up.mode) || not (str_eq task.arch up.arch)
    then answer (err installation_changed)
    else if is_pending task.stage
    then claim_pending s times task
    else answer (ok (s, some task))

unfoldable pub claim_loop :
    Dict UpgradeTask → State → Caller → Moments → Result Error (State × Option UpgradeTask)
claim_loop [] s up times = ok (s, none)
claim_loop ((id, task) ∷ rest) s up times =
    let more = claim_loop rest s up times in
    elim (visit s up times task) [ skip ↦ more | answer r ↦ r ]

-- The test on the snapshot: no task for the updater, no change of the state.
unfoldable pub has_task : Dict UpgradeTask → Caller → Bool
has_task [] up = false
has_task ((id, task) ∷ rest) up =
    if str_eq task.node_id up.node_id
      && not task.manual
      && active_upgrade task.stage
      && not (is_preparing task.stage)
    then true
    else has_task rest up

-- `updaterTask`, with the snapshot of the first test and the state of the transaction.
unfoldable pub updater_task :
    Settings → State → State → Caller → Moments → Result Error (State × Option UpgradeTask)
updater_task cfg snapshot s up times =
    if not (has_task snapshot.upgrade_tasks up)
    then ok (s, none)
    else if elim (Dict.get s.updaters up.node_id) [
      | none ↦ true
      | some u ↦ ltb (u.last_seen + 45 * second) times.heard
    ]
    then err heartbeat_expired
    else (let s' = reconcile_upgrade_recovery cfg s times.looked in
        claim_loop s'.upgrade_tasks s' up times)

-- The batch after a task's report of a failure, and after a success.
unfoldable pub after_failure : State → UpgradeTask → Stage → String → State
after_failure s task stage error =
    let batch = get_or (Dict.get s.upgrade_batches task.batch_id) zero_batch in
    set_batch s (record batch {
      stage = paused;
      error = stage_text stage <> (": " <> error);
      recovery_task_id = "";
      recovery_deadline = 0;
    })

unfoldable pub after_success : Settings → State → UpgradeTask → ℕ → State
after_success cfg s task now =
    let batch = get_or (Dict.get s.upgrade_batches task.batch_id) zero_batch in
    let started = set_batch s (record batch {
      stage = recovering;
      recovery_task_id = task.id;
      recovery_deadline = task.updated_at + recovery_timeout;
    }) in
    if is_running batch.stage then reconcile_upgrade_recovery cfg started now else s

-- The rest of the update, by the stage that is reported.
unfoldable pub after_report : Settings → State → UpgradeTask → Stage → String → ℕ → State
after_report cfg s task succeeded error now = after_success cfg s task now
after_report cfg s task rolled_back error now = after_failure s task rolled_back error
after_report cfg s task failed error now = after_failure s task failed error
after_report cfg s task manual_intervention error now =
    after_failure s task manual_intervention error
after_report cfg s task stage error now = s

-- `updaterReport`
unfoldable pub updater_report :
    Settings → State → String → String → Stage → String → ℕ → ℕ → Result Error State
updater_report cfg s node_id id stage error attempt now = do
  refuse_if (not (reportable stage) || ltb 1024 (len error)) invalid_report
  task ← or_fail (Dict.get s.upgrade_tasks id) foreign_task
  refuse_if (not (str_eq task.node_id node_id) || not (task.attempt == attempt)) foreign_task
  let reported = record task { stage = stage; error = error; updated_at = now }
  if str_eq (stage_text task.stage) (stage_text stage)
      then ok s
      else (refuse_if (not (in_flight task.stage)) terminal_task
          >> ok (
              if str_eq task.batch_id ""
              then set_task s reported
              else after_report cfg (set_task s reported) reported stage error now))
