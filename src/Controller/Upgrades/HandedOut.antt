-- ===== src/Controller/Upgrades/HandedOut.antt =====
-- `updaterTask` and `updaterReport` keep the invariant of the tasks.
use xmesh.Common.{
  ℕ, ◌+◌, ◌*◌, ◌≡◌, refl, ap, sym, subst, ◌∙◌, inl, inr, Bool, true, ◌||◌, not, Bool-cases, Option,
  none, some, [], ◌∷◌, String, str_eq, ltb, ◌==◌, arith, Holds, refuse_if-Holds, or_fail-Holds,
}
use Prim.Native.String.{len}
use xmesh.Common.Dict
use xmesh.Common.Dict.{Dict, get_or, get-put, AreListed, AreDistinct-listed}
use xmesh.Model.{State, Stage, UpgradeTask}
use xmesh.Model.Upgrades.{expired, running, recovering}
use xmesh.Controller.Upgrades.{
  Caller, Moments, Visit, skip, answer, claim_pending, priors_succeeded, visit, claim_loop,
  updater_task, has_task, updater_report, after_report, after_success, after_failure,
}
use xmesh.Controller.Upgrades.Stages.{
  active_upgrade, in_flight, zero_batch, second, is_running, set_task, set_batch, is_pending,
  stage_text, reportable,
}
use xmesh.Controller.Upgrades.Recovery.{Settings, recovery_timeout, reconcile_upgrade_recovery}
use xmesh.Controller.Upgrades.Pairing.{seen}
use xmesh.Controller.Upgrades.Manual.{changed}
use xmesh.Controller.Upgrades.OneActive.{HasOneActive, put-HasOneActive}
use xmesh.Controller.Upgrades.Kept.{Keeps, early_active, reconcile_batches-tasks, reconcile-Keeps}

-- The loop's answer, and the state of it.
abbrev pub AnswerKeeps : State × Option UpgradeTask → Type 0
AnswerKeeps (s, o) = Keeps s

abbrev VisitKeeps : Visit → Type 0
VisitKeeps skip = Unit
VisitKeeps (answer r) = Holds AnswerKeeps r

abbrev claim_of : UpgradeTask → ℕ → UpgradeTask
claim_of task now = record task { stage = running; attempt = task.attempt + 1; updated_at = now }

-- A stored task, under its ID.
stored_under :
    (d : Dict UpgradeTask) (k : String) (a : UpgradeTask)
    → HasOneActive d
    → Dict.get d k ≡ some a
    → Dict.get d a.id ≡ some a
stored_under d k a v e = ap (Dict.get d) (v.keyed k a e) ∙ e

claim_pending-Keeps :
    (s : State) (times : Moments) (task : UpgradeTask)
    → Dict.get s.upgrade_tasks task.id ≡ some task
    → active_upgrade task.stage ≡ true
    → HasOneActive s.upgrade_tasks
    → VisitKeeps (claim_pending s times task)
unfolding claim_pending
claim_pending-Keeps s times task e active v =
    let batch = get_or (Dict.get s.upgrade_batches task.batch_id) zero_batch in
    elim (Bool-cases (is_running batch.stage)) [
      | inr idle ↦ rw idle tt
      | inl runs ↦ rw runs (elim (Bool-cases (priors_succeeded s batch.task_ids task.id)) [
        | inr waits ↦ rw waits v
        | inl next ↦ rw next (elim (Bool-cases (ltb times.tested task.expires_at)) [
          | inr late ↦ rw late (
              put-HasOneActive s.upgrade_tasks task.id task (record task { stage = expired }) e
                active refl refl v)
          | inl early ↦ rw early (
              put-HasOneActive s.upgrade_tasks task.id task (claim_of task times.claimed) e active
                refl refl v)
        ])
      ])
    ]

visit-Keeps :
    (s : State) (up : Caller) (times : Moments) (task : UpgradeTask)
    → Dict.get s.upgrade_tasks task.id ≡ some task
    → HasOneActive s.upgrade_tasks
    → VisitKeeps (visit s up times task)
unfolding visit active_upgrade
visit-Keeps s up times task e v =
    elim (Bool-cases (
      not (str_eq task.node_id up.node_id)
      || task.manual
      || not (is_pending task.stage || in_flight task.stage))) [
        | inl other ↦ rw other tt
        | inr mine ↦
            rw mine
              (elim (Bool-cases
                (not (str_eq task.mode up.mode) || not (str_eq task.arch up.arch))) [
                  | inl changed ↦ rw changed tt
                  | inr fits ↦ rw fits (elim (Bool-cases (is_pending task.stage)) [
                    | inl waits ↦ rw waits (
                        claim_pending-Keeps s times task e
                          (early_active task.stage (ground (arith, waits))) v)
                    | inr goes ↦ rw goes v
                  ])
                ])
      ]

claim_loop-Keeps :
    (d : Dict UpgradeTask) (s : State) (up : Caller) (times : Moments)
    → AreListed s.upgrade_tasks d
    → HasOneActive s.upgrade_tasks
    → Holds AnswerKeeps (claim_loop d s up times)
unfolding claim_loop
claim_loop-Keeps [] s up times h v = v
claim_loop-Keeps ((k, task) ∷ d) s up times h v =
    go (visit s up times task)
      (visit-Keeps s up times task (stored_under s.upgrade_tasks k task v h.0) v)
      (claim_loop-Keeps d s up times h.1 v)
  where
    go :
        (w : Visit)
        → VisitKeeps w
        → Holds AnswerKeeps (claim_loop d s up times)
        → Holds AnswerKeeps (elim w [ skip ↦ claim_loop d s up times | answer r ↦ r ])
    go skip kept rest = rest
    go (answer r) kept rest = kept

pub updater_task-Keeps :
    (cfg : Settings) (snapshot s : State) (up : Caller) (times : Moments)
    → HasOneActive s.upgrade_tasks
    → Holds AnswerKeeps (updater_task cfg snapshot s up times)
unfolding updater_task
updater_task-Keeps cfg snapshot s up times v =
    let s' = reconcile_upgrade_recovery cfg s times.looked in
    let v' = reconcile-Keeps cfg s times.looked v in
    let heard : Bool = elim (Dict.get s.updaters up.node_id) [
      | none ↦ true
      | some u ↦ ltb (u.last_seen + 45 * second) times.heard
    ] in
    elim (Bool-cases (has_task snapshot.upgrade_tasks up)) [
      | inr none_left ↦ rw none_left v
      | inl some_left ↦ rw some_left (elim (Bool-cases heard) [
        | inl lost ↦ rw lost tt
        | inr seen ↦ rw seen (
            claim_loop-Keeps s'.upgrade_tasks s' up times
              (AreDistinct-listed s'.upgrade_tasks v'.distinct) v')
      ])
    ]

after_success-tasks :
    (cfg : Settings) (s : State) (task : UpgradeTask) (now : ℕ)
    → (after_success cfg s task now).upgrade_tasks ≡ s.upgrade_tasks
unfolding after_success reconcile_upgrade_recovery
after_success-tasks cfg s task now =
    let batch = get_or (Dict.get s.upgrade_batches task.batch_id) zero_batch in
    let started = record batch {
      stage = recovering;
      recovery_task_id = task.id;
      recovery_deadline = task.updated_at + recovery_timeout;
    } in
    elim (Bool-cases (is_running batch.stage)) [
      | inl runs ↦ rw runs (
          reconcile_batches-tasks cfg now (set_batch s started).upgrade_batches
            (set_batch s started))
      | inr idle ↦ rw idle refl
    ]

after_report-tasks :
    (cfg : Settings) (s : State) (task : UpgradeTask) (g : Stage) (error : String) (now : ℕ)
    → (after_report cfg s task g error now).upgrade_tasks ≡ s.upgrade_tasks
unfolding after_report after_failure
after_report-tasks cfg s task g error now = ground (arith, after_success-tasks cfg s task now)

pub updater_report-Keeps :
    (cfg : Settings) (s : State) (node_id id : String) (g : Stage) (error : String)
    (attempt now : ℕ)
    → HasOneActive s.upgrade_tasks
    → Holds Keeps (updater_report cfg s node_id id g error attempt now)
unfolding updater_report active_upgrade
updater_report-Keeps cfg s node_id id g error attempt now v =
    refuse_if-Holds Keeps (not (reportable g) || ltb 1024 (len error)) _ _ λ _.
      or_fail-Holds Keeps (Dict.get s.upgrade_tasks id) _ _ λ task e.
        refuse_if-Holds Keeps (not (str_eq task.node_id node_id) || not (task.attempt == attempt)) _
          _
          λ _.
            (let reported : UpgradeTask = record task {
              stage = g;
              error = error;
              updated_at = now;
            } in
              let w : in_flight task.stage ≡ true → Keeps (set_task s reported) = λ a.
                put-HasOneActive s.upgrade_tasks task.id task reported
                  (stored_under s.upgrade_tasks id task v e) (ground (arith, a)) refl refl v in
              elim (Bool-cases (str_eq (stage_text task.stage) (stage_text g))) [
                | inl same ↦ rw same v
                | inr new ↦ rw new (
                    refuse_if-Holds Keeps (not (in_flight task.stage)) _ _ λ flies.
                      elim (Bool-cases (str_eq task.batch_id "")) [
                        | inl alone ↦ rw alone (w (ground (arith, flies)))
                        | inr batched ↦ rw batched (
                            subst HasOneActive
                              (sym
                                (after_report-tasks cfg (set_task s reported) reported g error now))
                              (w (ground (arith, flies))))
                      ])
              ])
