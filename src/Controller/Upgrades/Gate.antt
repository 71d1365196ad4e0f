-- ===== src/Controller/Upgrades/Gate.antt =====
-- What `reconcileUpgradeRecovery` does to each batch.
use xmesh.Common.{
  ℕ, ◌≤◌, ◌<◌, ◌≡◌, ◌≢◌, refl, ap, ◌∙◌, inl, inr, false, ◌&&◌, Bool-cases, Option, none, some, List,
  [], ◌∷◌, All, String, str_eq, eq_iff, if◌then◌else◌, arith,
}
use xmesh.Common.Dict
use xmesh.Common.Dict.{Dict, get_or, get-put}
use xmesh.Model.{State, UpgradeTask, UpgradeBatch}
use xmesh.Model.Upgrades.{paused, recovering, running, succeeded}
use xmesh.Controller.Upgrades.Stages.{is_recovering, set_batch}
use xmesh.Controller.Upgrades.Recovered.{IsRecovered, upgrade_recovery_problem-IsRecovered}
use xmesh.Controller.Upgrades.Recovery.{
  Settings, endpoint_problem, link_attachment, links_problem, link_problem, settle,
  attachment_uses_node, upgrade_recovery_problem, all_succeeded, finished, any_task, recovery_task,
  reconciled, reconcile_batch, reconcile_batches, reconcile_upgrade_recovery,
}

-- Every batch is stored under its ID, and no ID twice.
abbrev pub AreKeyed : Dict UpgradeBatch → Type 0
AreKeyed [] = Unit {0}
AreKeyed ((k, b) ∷ d) = (Dict.get d k ≡ none) × (b.id ≡ k) × AreKeyed d

module _ (cfg : Settings) (now : ℕ) where
  -- Storing a batch changes nothing that the others are judged by.
  link_problem-set_batch :
      (s : State) (c : UpgradeBatch) (task : UpgradeTask) (id : String)
      → link_problem cfg (set_batch s c) task now id ≡ link_problem cfg s task now id
  unfolding link_problem link_attachment endpoint_problem attachment_uses_node
  link_problem-set_batch s c task id = refl

  links_problem-set_batch :
      (s : State) (c : UpgradeBatch) (task : UpgradeTask) (ids : List String)
      → links_problem cfg (set_batch s c) task now ids ≡ links_problem cfg s task now ids
  unfolding links_problem
  links_problem-set_batch s c task [] = refl
  links_problem-set_batch s c task (id ∷ ids) =
      simp (link_problem-set_batch s c task id, links_problem-set_batch s c task ids)

  all_succeeded-set_batch :
      (s : State) (c : UpgradeBatch) (ids : List String)
      → all_succeeded (set_batch s c) ids ≡ all_succeeded s ids
  unfolding all_succeeded
  all_succeeded-set_batch s c [] = refl
  all_succeeded-set_batch s c (id ∷ ids) = rw (all_succeeded-set_batch s c ids)

  settle-set_batch :
      (s : State) (c b : UpgradeBatch) (o : Option UpgradeTask)
      → settle cfg (set_batch s c) now b o ≡ settle cfg s now b o
  unfolding settle upgrade_recovery_problem finished
  settle-set_batch s c b none = refl
  settle-set_batch s c b (some task) =
      simp (
        links_problem-set_batch s c task task.baseline_links,
        all_succeeded-set_batch s c b.task_ids,
      )

  reconciled-set_batch :
      (s : State) (c b : UpgradeBatch)
      → reconciled cfg (set_batch s c) now b ≡ reconciled cfg s now b
  unfolding reconciled recovery_task
  reconciled-set_batch s c b = simp (settle-set_batch s c b (recovery_task s b))

  reconciled-reconcile_batch :
      (s : State) (c b : UpgradeBatch)
      → reconciled cfg (reconcile_batch cfg now c s) now b ≡ reconciled cfg s now b
  unfolding reconcile_batch
  reconciled-reconcile_batch s c b = elim (Bool-cases (is_recovering c.stage)) [
    | inl waits ↦ rw waits (reconciled-set_batch s (reconciled cfg s now c) b)
    | inr other ↦ rw other
  ]

  id-reconciled : (s : State) (b : UpgradeBatch) → (reconciled cfg s now b).id ≡ b.id
  unfolding reconciled settle finished
  id-reconciled s b = go (recovery_task s b) refl
    where
      go : (o : Option UpgradeTask) → recovery_task s b ≡ o → (reconciled cfg s now b).id ≡ b.id
      go none e = ground (arith, e)
      go (some t) e = ground (arith, e)

  reconcile_batch-get :
      (s : State) (b : UpgradeBatch) (k : String)
      → Dict.get (reconcile_batch cfg now b s).upgrade_batches k ≡ (
          if is_recovering b.stage
          then (if str_eq b.id k
              then some (reconciled cfg s now b)
              else Dict.get s.upgrade_batches k)
          else Dict.get s.upgrade_batches k)
  unfolding reconcile_batch
  reconcile_batch-get s b k = elim (Bool-cases (is_recovering b.stage)) [
    | inl waits ↦ rw waits (
        ap (λ x. Dict.get (Dict.put s.upgrade_batches x (reconciled cfg s now b)) k)
          (id-reconciled s b)
        ∙ get-put s.upgrade_batches b.id k (reconciled cfg s now b))
    | inr other ↦ rw other
  ]

  -- What a batch of the visited part of the map becomes; the others stay.
  abbrev visited : State → Option UpgradeBatch → Option UpgradeBatch → Option UpgradeBatch
  visited s none other = other
  visited s (some b) other = if is_recovering b.stage then some (reconciled cfg s now b) else other

  reconcile_batches-get :
      (d : Dict UpgradeBatch) (s : State) (k : String)
      → AreKeyed d
      → Dict.get (reconcile_batches cfg now d s).upgrade_batches k
        ≡ visited s (Dict.get d k) (Dict.get s.upgrade_batches k)
  unfolding reconcile_batches Dict.get
  reconcile_batches-get [] s k h = refl
  reconcile_batches-get ((j, b) ∷ d) s k h =
      let ih = reconcile_batches-get d (reconcile_batch cfg now b s) k h.2 in
      ih ∙ go (Dict.get d k) refl
    where
      go :
          (o : Option UpgradeBatch)
          → Dict.get d k ≡ o
          → visited
              (reconcile_batch cfg now b s)
              o
              (Dict.get (reconcile_batch cfg now b s).upgrade_batches k)
            ≡ visited s (Dict.get ((j, b) ∷ d) k) (Dict.get s.upgrade_batches k)
      go none e = ground (arith, e, reconcile_batch-get s b k, eq_iff b.id k, eq_iff j k, h.1)
      go (some c) e = ground (
        arith,
        e,
        h.0,
        reconciled-reconcile_batch s b c,
        reconcile_batch-get s b k,
        eq_iff b.id k,
        eq_iff j k,
        h.1,
      )

  -- What a recovering batch may become, by the task that it waits for.
  abbrev pub Settled : State → UpgradeBatch → Option UpgradeTask → UpgradeBatch → Type 0
  Settled s b none c = c.stage ≡ paused
  Settled s b (some task) c =
      (All (IsRecovered cfg s task now) task.baseline_links
        → (c.stage
            ≡ (if any_task b.task_ids && all_succeeded s b.task_ids then succeeded else running))
          × (c.recovery_task_id ≡ ""))
      × (¬ All (IsRecovered cfg s task now) task.baseline_links
          → now < b.recovery_deadline
          → (c.stage ≡ recovering)
            × (c.recovery_task_id ≡ b.recovery_task_id)
            × (c.recovery_deadline ≡ b.recovery_deadline))
      × (¬ All (IsRecovered cfg s task now) task.baseline_links
          → b.recovery_deadline ≤ now
          → (c.stage ≡ paused)
            × (c.error ≡ upgrade_recovery_problem cfg s task now)
            × (c.error ≢ ""))

  settle-Settled :
      (s : State) (b : UpgradeBatch) (o : Option UpgradeTask)
      → b.stage ≡ recovering
      → Settled s b o (settle cfg s now b o)
  unfolding settle finished
  settle-Settled s b none h = refl
  settle-Settled s b (some task) h =
      let clear = upgrade_recovery_problem-IsRecovered cfg s task now in
      let problem = upgrade_recovery_problem cfg s task now in
      (
        λ all. rw (clear.1 all) (refl, refl),
        λ missing early.
            (let some_problem : problem ≢ "" = λ e. missing (clear.0 e) in
              ground (arith, early, h, eq_iff problem "", some_problem)),
        λ missing late.
            (let some_problem : problem ≢ "" = λ e. missing (clear.0 e) in
              ground (arith, late, h, eq_iff problem "", some_problem)),
      )

  -- Each batch of the state after a round, by what it was before.
  pub reconcile_upgrade_recovery-Settled :
      (s : State) (k : String) (b : UpgradeBatch)
      → AreKeyed s.upgrade_batches
      → Dict.get s.upgrade_batches k ≡ some b
      → (c : UpgradeBatch) × (Dict.get (reconcile_upgrade_recovery cfg s now).upgrade_batches k
          ≡ some c)
        × (b.stage ≡ recovering → Settled s b (recovery_task s b) c)
        × (is_recovering b.stage ≡ false → c ≡ b)
  unfolding reconcile_upgrade_recovery reconciled
  reconcile_upgrade_recovery-Settled s k b keyed e =
      let at_key = reconcile_batches-get s.upgrade_batches s k keyed in
      let got : Dict.get (reconcile_upgrade_recovery cfg s now).upgrade_batches k
          ≡ some (reconciled cfg s now b) =
        ground (arith, at_key, e) in
      (
        reconciled cfg s now b,
        got,
        λ h. rw (ap is_recovering h) (settle-Settled s b (recovery_task s b) h),
        λ other. rw other refl,
      )
