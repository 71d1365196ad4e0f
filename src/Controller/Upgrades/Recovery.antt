-- ===== src/Controller/Upgrades/Recovery.antt =====
-- internal/controller/node_upgrade_recovery.go: after a task succeeds its batch waits until the
-- Links that were healthy before have recovered.
use Prim.Native.String.{◌++◌ as ◌<>◌}
use text.Mathlib.Text.{starts_with}
use xmesh.Common.{
  ℕ, ◌+◌, ◌*◌, Bool, true, false, ◌&&◌, ◌||◌, not, Option, none, some, List, [], ◌∷◌, String,
  str_eq, ltb, ◌==◌, if◌then◌else◌, Result, ok, ◌>>=◌, ◌>>◌, refuse_if, or_fail,
}
use xmesh.Common.Dict
use xmesh.Common.Dict.{Dict, get_or}
use xmesh.Model.{State, Attachment, LinkStatus, UpgradeTask, UpgradeBatch}
use xmesh.Model.Upgrades.{running, paused, succeeded}
use xmesh.Controller.Upgrades.Stages.{
  second, is_pending, is_succeeded, is_recovering, is_paused, zero_task, zero_batch, set_batch,
}

-- `NodeOfflineAfterSeconds`, and strconv's decimal text of a number.
pub record Settings : Type 0 where
  pub offline_after_seconds : ℕ
  pub itoa : ℕ → String

abbrev pub recovery_timeout : ℕ
recovery_timeout = 2 * 60 * second

abbrev pub recovery_error : String
recovery_error = "previously healthy Link "

-- `attachmentUsesNode`
unfoldable pub attachment_uses_node : State → Attachment → String → Bool
attachment_uses_node s attachment node_id =
    str_eq attachment.gateway_id node_id
    || str_eq attachment.agent_id node_id
    || elim (Dict.get s.agents attachment.agent_id) [
      | none ↦ str_eq "" node_id
      | some a ↦ str_eq a.gateway_id node_id
    ]

-- The `switch` on one end's report of a Link; the empty text where there is no problem.
unfoldable pub status_problem : Settings → Option LinkStatus → UpgradeTask → ℕ → String
status_problem cfg none task now = "has not reported"
status_problem cfg (some status) task now =
    if status.last_seen == 0 || ltb (status.last_seen + cfg.offline_after_seconds * second) now
    then "report is older than " <> (cfg.itoa cfg.offline_after_seconds <> " seconds")
    else if ltb status.last_seen task.updated_at
    then "has not reported since upgrade completion"
    else if not status.online
    then "is offline"
    else if not status.ready
    then "is not ready"
    else ""

abbrev last_error_of : Option LinkStatus → String
last_error_of none = ""
last_error_of (some status) = status.last_error

abbrev with_last_error : String → String → String
with_last_error problem last =
    if str_eq last "" then problem else problem <> (" (" <> (last <> ")"))

-- One end of a Link: its problem, with the Link's and the node's names.
unfoldable pub endpoint_problem :
    Settings → State → UpgradeTask → ℕ → String → String → String → String
unfolding status_problem
endpoint_problem cfg s task now link_id role node_id =
    let status = Dict.get s.link_status (node_id <> ("/" <> link_id)) in
    let problem = status_problem cfg status task now in
    if str_eq problem ""
    then ""
    else recovery_error
      <> (link_id
          <> (" did not recover: "
              <> (role
                  <> (" "
                      <> (node_id <> (" " <> with_last_error problem (last_error_of status)))))))

-- A Link's attachment, where both are configured, enabled, and the task's node is on it.
unfoldable pub link_attachment : State → UpgradeTask → String → Option Attachment
link_attachment s task link_id = elim (Dict.get s.links link_id) [
  | none ↦ none
  | some link ↦ elim (Dict.get s.attachments link.attachment_id) [
    | none ↦ none
    | some attachment ↦
        if link.enabled && attachment.enabled && attachment_uses_node s attachment task.node_id
        then some attachment
        else none
  ]
]

-- One round of the loop of `upgradeRecoveryProblem`; a problem's text is never empty.
unfoldable pub link_problem : Settings → State → UpgradeTask → ℕ → String → String
link_problem cfg s task now link_id = elim (link_attachment s task link_id) [
  | none ↦ recovery_error <> (link_id <> " did not recover: Link configuration is unavailable")
  | some attachment ↦
      let at_gateway = endpoint_problem cfg s task now link_id "gateway" attachment.gateway_id in
      let at_agent = endpoint_problem cfg s task now link_id "agent" attachment.agent_id in
      if str_eq at_gateway "" then at_agent else at_gateway
]

-- The loop over the Links that were healthy before the upgrade; it returns at the first problem.
unfoldable pub links_problem : Settings → State → UpgradeTask → ℕ → List String → String
links_problem cfg s task now [] = ""
links_problem cfg s task now (link_id ∷ rest) =
    let others = links_problem cfg s task now rest in
    let problem = link_problem cfg s task now link_id in
    if str_eq problem "" then others else problem

-- `upgradeRecoveryProblem`
unfoldable pub upgrade_recovery_problem : Settings → State → UpgradeTask → ℕ → String
upgrade_recovery_problem cfg s task now = links_problem cfg s task now task.baseline_links

-- The loop of `finishUpgradeRecovery` over the batch's tasks.
unfoldable pub all_succeeded : State → List String → Bool
all_succeeded s [] = true
all_succeeded s (id ∷ ids) =
    is_succeeded (get_or (Dict.get s.upgrade_tasks id) zero_task).stage && all_succeeded s ids

abbrev pub any_task : List String → Bool
any_task [] = false
any_task (id ∷ ids) = true

-- The batch that `finishUpgradeRecovery` stores.
unfoldable pub finished : State → UpgradeBatch → UpgradeBatch
unfolding all_succeeded
finished s batch = record batch {
  stage = if any_task batch.task_ids && all_succeeded s batch.task_ids then succeeded else running;
  error = "";
  recovery_task_id = "";
  recovery_deadline = 0;
}

unfoldable pub finish_upgrade_recovery : State → UpgradeBatch → State
finish_upgrade_recovery s batch = set_batch s (finished s batch)

-- The task whose Links a recovering batch waits for.
unfoldable pub recovery_task : State → UpgradeBatch → Option UpgradeTask
recovery_task s batch = elim (Dict.get s.upgrade_tasks batch.recovery_task_id) [
  | none ↦ none
  | some task ↦ if str_eq task.batch_id batch.id && is_succeeded task.stage then some task else none
]

-- A recovering batch after a round of `reconcileUpgradeRecovery`, by the task that it waits for.
unfoldable pub settle : Settings → State → ℕ → UpgradeBatch → Option UpgradeTask → UpgradeBatch
settle cfg s now batch none = record batch {
  stage = paused;
  error = "upgrade recovery task is unavailable";
}
settle cfg s now batch (some task) =
    let problem = upgrade_recovery_problem cfg s task now in
    if str_eq problem ""
    then finished s batch
    else if not (ltb now batch.recovery_deadline)
    then record batch { stage = paused; error = problem }
    else record batch { error = "waiting for Link recovery: " <> problem }

unfoldable pub reconciled : Settings → State → ℕ → UpgradeBatch → UpgradeBatch
reconciled cfg s now batch =
    if not (is_recovering batch.stage)
    then batch
    else settle cfg s now batch (recovery_task s batch)

-- A round stores its batch, if the batch was recovering.
unfoldable pub reconcile_batch : Settings → ℕ → UpgradeBatch → State → State
reconcile_batch cfg now batch s =
    if is_recovering batch.stage then set_batch s (reconciled cfg s now batch) else s

unfoldable pub reconcile_batches : Settings → ℕ → Dict UpgradeBatch → State → State
reconcile_batches cfg now [] s = s
reconcile_batches cfg now ((id, batch) ∷ rest) s =
    reconcile_batches cfg now rest (reconcile_batch cfg now batch s)

unfoldable pub reconcile_upgrade_recovery : Settings → State → ℕ → State
reconcile_upgrade_recovery cfg s now = reconcile_batches cfg now s.upgrade_batches s

-- The loop of `upgradeResumeTaskID`: the last task that succeeded, "" where the batch's tasks are
-- not some that succeeded and then some that are pending.
unfoldable pub resume_loop : State → String → List String → String → Bool → String
resume_loop s batch_id [] last_completed seen_pending = last_completed
resume_loop s batch_id (id ∷ ids) last_completed seen_pending = elim (Dict.get s.upgrade_tasks id) [
  | none ↦ ""
  | some task ↦
      let after_success = resume_loop s batch_id ids id seen_pending in
      let after_pending = resume_loop s batch_id ids last_completed true in
      if not (str_eq task.batch_id batch_id)
      then ""
      else if is_succeeded task.stage
      then (if seen_pending then "" else after_success)
      else if is_pending task.stage
      then after_pending
      else ""
]

unfoldable pub upgrade_resume_task_id : State → UpgradeBatch → String
unfolding resume_loop
upgrade_resume_task_id s batch =
    if not (is_paused batch.stage) || not (starts_with batch.error recovery_error)
    then ""
    else resume_loop s batch.id batch.task_ids "" false

pub data ResumeError : Type 0 where
  not_resumable task_expired : ResumeError
  not_recovered : String → ResumeError

-- The loop of `resumeUpgrade`: no pending task has expired, and every other task's Links are back.
unfoldable pub resume_checks : Settings → State → ℕ → List String → Result ResumeError (Unit {0})
resume_checks cfg s now [] = ok tt
resume_checks cfg s now (id ∷ ids) =
    let task = get_or (Dict.get s.upgrade_tasks id) zero_task in
    let problem = upgrade_recovery_problem cfg s task now in
    (if is_pending task.stage
      then refuse_if (not (ltb now task.expires_at)) task_expired
      else refuse_if (not (str_eq problem "")) (not_recovered problem))
    >> resume_checks cfg s now ids

-- `resumeUpgrade`
unfoldable pub resume_upgrade : Settings → State → String → ℕ → Result ResumeError State
resume_upgrade cfg s id now = do
  task ← or_fail (Dict.get s.upgrade_tasks id) not_resumable
  let batch = get_or (Dict.get s.upgrade_batches task.batch_id) zero_batch
  refuse_if (str_eq (upgrade_resume_task_id s batch) "") not_resumable
  resume_checks cfg s now batch.task_ids
  ok (finish_upgrade_recovery s batch)
