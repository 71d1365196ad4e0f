-- ===== src/Controller/Upgrades/Kept.antt =====
-- The ends of preparations and cancellations keep the invariant of the tasks.
use xmesh.Common.{
  ℕ, ◌≡◌, refl, ap, sym, subst, ◌∙◌, Bool, true, false, ◌&&◌, ◌||◌, not, Option, none, some, List,
  [], ◌∷◌, String, str_eq, if◌then◌else◌, arith, Holds, refuse_if-Holds, or_fail-Holds, if_holds,
}
use xmesh.Common.Dict
use xmesh.Common.Dict.{Dict, get_or, get-put, AreListed, AreDistinct-listed}
use xmesh.Model.{State, Stage, UpgradeTask, UpgradeBatch}
use xmesh.Model.Upgrades.{cancelled}
use xmesh.Controller.Upgrades.{cancel_tasks, cancel_upgrade, stopped}
use xmesh.Controller.Upgrades.Stages.{
  active_upgrade, zero_task, zero_batch, set_batch, is_pending, is_preparing,
}
use xmesh.Controller.Upgrades.Recovery.{
  Settings, reconcile_batch, reconcile_batches, reconcile_upgrade_recovery,
}
use xmesh.Controller.Upgrades.Pairing.{prepare_tasks, prepared_task}
use xmesh.Controller.Upgrades.OneActive.{HasOneActive, put-HasOneActive}

pub reconcile_batches-tasks :
    (cfg : Settings) (now : ℕ) (d : Dict UpgradeBatch) (s : State)
    → (reconcile_batches cfg now d s).upgrade_tasks ≡ s.upgrade_tasks
unfolding reconcile_batches reconcile_batch
reconcile_batches-tasks cfg now [] s = refl
reconcile_batches-tasks cfg now ((k, b) ∷ d) s =
    reconcile_batches-tasks cfg now d (reconcile_batch cfg now b s) ∙ ground arith

-- A task that a lookup with the zero value gives in an early stage is stored.
early_stored :
    (o : Option UpgradeTask)
    → (is_pending (get_or o zero_task).stage || is_preparing (get_or o zero_task).stage) ≡ true
    → o ≡ some (get_or o zero_task)
early_stored none h = cc
early_stored (some t) h = refl

pub early_active : (g : Stage) → (is_pending g || is_preparing g) ≡ true → active_upgrade g ≡ true
unfolding active_upgrade
early_active g h = ground (arith, h)

-- A task in an early stage goes to another stage.
put_early-HasOneActive :
    (d : Dict UpgradeTask) (id : String) (new : UpgradeTask)
    → (is_pending (get_or (Dict.get d id) zero_task).stage
        || is_preparing (get_or (Dict.get d id) zero_task).stage)
      ≡ true
    → new.id ≡ (get_or (Dict.get d id) zero_task).id
    → new.node_id ≡ (get_or (Dict.get d id) zero_task).node_id
    → HasOneActive d
    → HasOneActive (Dict.put d id new)
put_early-HasOneActive d id new early i n v =
    put-HasOneActive d id (get_or (Dict.get d id) zero_task) new
      (early_stored (Dict.get d id) early)
      (early_active (get_or (Dict.get d id) zero_task).stage early) i n v

pub prepare_tasks-HasOneActive :
    (problem : Option String) (hashes : String → String) (now : ℕ) (ids : List String) (s : State)
    → HasOneActive s.upgrade_tasks
    → HasOneActive (prepare_tasks problem hashes now ids s).upgrade_tasks
unfolding prepare_tasks prepared_task
prepare_tasks-HasOneActive problem hashes now [] s v = v
prepare_tasks-HasOneActive problem hashes now (id ∷ ids) s v =
    prepare_tasks-HasOneActive problem hashes now ids _ (go (is_preparing task.stage) refl)
  where
    task : UpgradeTask
    task = get_or (Dict.get s.upgrade_tasks id) zero_task

    go :
        (b : Bool)
        → is_preparing task.stage ≡ b
        → HasOneActive
            (if not b then s else record s {
              upgrade_tasks = Dict.put s.upgrade_tasks id (prepared_task problem hashes now task);
            }).upgrade_tasks
    go false e = v
    go true e =
        put_early-HasOneActive s.upgrade_tasks id (prepared_task problem hashes now task)
          (ground (arith, e)) (ground arith) (ground arith) v

cancel_tasks-HasOneActive :
    (ids : List String) (now : ℕ) (s : State)
    → HasOneActive s.upgrade_tasks
    → HasOneActive (cancel_tasks ids now s).upgrade_tasks
unfolding cancel_tasks
cancel_tasks-HasOneActive [] now s v = v
cancel_tasks-HasOneActive (id ∷ ids) now s v =
    cancel_tasks-HasOneActive ids now _ (go (is_pending task.stage || is_preparing task.stage) refl)
  where
    task : UpgradeTask
    task = get_or (Dict.get s.upgrade_tasks id) zero_task

    go :
        (b : Bool)
        → (is_pending task.stage || is_preparing task.stage) ≡ b
        → HasOneActive
            (if b
              then record s {
                upgrade_tasks =
                    Dict.put s.upgrade_tasks id
                      (record task { stage = cancelled; updated_at = now });
              }
              else s).upgrade_tasks
    go false e = v
    go true e = put_early-HasOneActive s.upgrade_tasks id _ e refl refl v

abbrev pub Keeps : State → Type 0
Keeps s = HasOneActive s.upgrade_tasks

pub cancel_upgrade-HasOneActive :
    (s : State) (id : String) (now : ℕ)
    → HasOneActive s.upgrade_tasks
    → Holds Keeps (cancel_upgrade s id now)
unfolding cancel_upgrade
cancel_upgrade-HasOneActive s id now v =
    or_fail-Holds Keeps (Dict.get s.upgrade_tasks id) _ _ λ task e.
      refuse_if-Holds Keeps (not (is_pending task.stage) && not (is_preparing task.stage)) _ _
        λ early.
          if_holds Keeps (str_eq task.batch_id "") _ _
            (λ _.
              put-HasOneActive s.upgrade_tasks task.id task _
                (ap (Dict.get s.upgrade_tasks) (v.keyed id task e) ∙ e)
                (early_active task.stage (ground (arith, early))) refl refl v)
            (λ _.
              let batch = get_or (Dict.get s.upgrade_batches task.batch_id) zero_batch in
              cancel_tasks-HasOneActive batch.task_ids now (set_batch s (stopped batch)) v)

pub reconcile-Keeps :
    (cfg : Settings) (s : State) (now : ℕ)
    → HasOneActive s.upgrade_tasks
    → Keeps (reconcile_upgrade_recovery cfg s now)
unfolding reconcile_upgrade_recovery
reconcile-Keeps cfg s now v =
    subst HasOneActive (sym (reconcile_batches-tasks cfg now s.upgrade_batches s)) v
