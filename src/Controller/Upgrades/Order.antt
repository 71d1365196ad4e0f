-- ===== src/Controller/Upgrades/Order.antt =====
-- Which task `updaterTask` hands out, and when.
use xmesh.Common.{
  ◌+◌, ◌*◌, ◌<◌, ◌≡◌, ◌≢◌, refl, ap, sym, subst, ◌∙◌, ◌⊎◌, inl, inr, Bool, true, false, ◌||◌, not,
  Bool-cases, Option, none, some, List, [], ◌∷◌, In, String, str_eq, eq_iff, ltb, ltb→lt,
  if◌then◌else◌, Result, ok, err, arith,
}
use xmesh.Common.Dict
use xmesh.Common.Dict.{Dict, get_or, get-put}
use xmesh.Model.{State, UpgradeTask, UpgradeBatch}
use xmesh.Model.Upgrades.{running}
use xmesh.Controller.Upgrades.{
  Caller, Moments, Visit, skip, answer, claim_pending, claim_loop, visit, priors_succeeded,
  updater_task, has_task, Error,
}
use xmesh.Controller.Upgrades.Stages.{
  is_recovering, second, is_succeeded, is_running, is_pending, in_flight, zero_task, zero_batch,
  set_task,
}
use xmesh.Controller.Upgrades.Gate.{AreKeyed, reconcile_upgrade_recovery-Settled}
use xmesh.Controller.Upgrades.Recovery.{Settings, reconcile_upgrade_recovery}

-- Every task before `id` in the order of its batch has succeeded.
abbrev pub IsNext : State → String → List String → Type 0
IsNext s id [] = Unit {0}
IsNext s id (prior ∷ ids) =
    (prior ≡ id)
    ⊎ ((is_succeeded (get_or (Dict.get s.upgrade_tasks prior) zero_task).stage ≡ true)
        × IsNext s id ids)

priors_succeeded-IsNext :
    (s : State) (ids : List String) (id : String)
    → priors_succeeded s ids id ≡ true
    → IsNext s id ids
unfolding priors_succeeded
priors_succeeded-IsNext s [] id h = tt
priors_succeeded-IsNext s (prior ∷ ids) id h = elim (Bool-cases (str_eq prior id)) [
  | inl same ↦ inl ((eq_iff prior id).0 same)
  | inr before ↦
      inr (ground (arith, before, h), priors_succeeded-IsNext s ids id (ground (arith, before, h)))
]

-- A task for the updater itself to carry out on its node.
abbrev pub IsFor : Caller → UpgradeTask → Type 0
IsFor up task =
    (task.node_id ≡ up.node_id)
    × (task.mode ≡ up.mode)
    × (task.arch ≡ up.arch)
    × (task.manual ≡ false)

-- What an updater is handed out of the tasks `d`: one of its node that is stored there, claimed
-- before and not finished, or claimed now, in its batch's turn and before it expires.
abbrev pub HandedFrom : Dict UpgradeTask → State → Caller → Moments → State → UpgradeTask → Type 0
HandedFrom d s up times t task =
    IsFor up task
    × ((((id : String) × In (id, task) d) × (in_flight task.stage ≡ true) × (t ≡ s))
        ⊎ ((old : UpgradeTask) × ((id : String) × In (id, old) d)
            × (task ≡ record old {
              stage = running;
              attempt = old.attempt + 1;
              updated_at = times.claimed;
            })
            × (is_pending old.stage ≡ true)
            × (times.tested < old.expires_at)
            × (is_running (get_or (Dict.get s.upgrade_batches old.batch_id) zero_batch).stage
                ≡ true)
            × IsNext s old.id (get_or (Dict.get s.upgrade_batches old.batch_id) zero_batch).task_ids
            × (t ≡ set_task s task)))

abbrev pub Handed : State → Caller → Moments → State → UpgradeTask → Type 0
Handed s = HandedFrom s.upgrade_tasks s

-- A longer list of tasks.
HandedFrom-cons :
    (x : String × UpgradeTask) (d : Dict UpgradeTask) (s : State) (up : Caller) (times : Moments)
    (t : State) (task : UpgradeTask)
    → HandedFrom d s up times t task
    → HandedFrom (x ∷ d) s up times t task
HandedFrom-cons x d s up times t task (own, inl ((id, there), flies, same)) =
    (own, inl ((id, inr there), flies, same))
HandedFrom-cons x d s up times t task (own, inr (old, (id, there), a, b, c, e, f, g)) =
    (own, inr (old, (id, inr there), a, b, c, e, f, g))

abbrev claim_of : UpgradeTask → Moments → UpgradeTask
claim_of old times = record old {
  stage = running;
  attempt = old.attempt + 1;
  updated_at = times.claimed;
}

-- A test that must have failed, or held, for the loop to answer with a task.
passed {ℓ} :
    {A : Type ℓ} (b : Bool) (u v w : A) → (if b then u else v) ≡ w → u ≢ w → (b ≡ false) × (v ≡ w)
passed true u v w h wrong = absurd (wrong h)
passed false u v w h wrong = (refl, h)

not-false : (b : Bool) → not b ≡ false → b ≡ true
not-false true h = refl
not-false false h = sym h

skip-answer : (r : Result Error (State × Option UpgradeTask)) → skip ≢ answer r
skip-answer r h = cc

empty-answer :
    (s t : State) (task : UpgradeTask) → answer (ok (s, none)) ≢ answer (ok (t, some task))
empty-answer s t task h = cc

error-answer :
    (e : Error) (t : State) (task : UpgradeTask) → answer (err e) ≢ answer (ok (t, some task))
error-answer e t task h = cc

answer-injective :
    (s t : State) (a b : UpgradeTask)
    → answer (ok (s, some a)) ≡ answer (ok (t, some b))
    → (s ≡ t) × (a ≡ b)
answer-injective s t a b h = (cc, cc)

claim_pending-IsNext :
    (s t : State) (times : Moments) (old task : UpgradeTask)
    → claim_pending s times old ≡ answer (ok (t, some task))
    → (task ≡ claim_of old times)
      × (times.tested < old.expires_at)
      × (is_running (get_or (Dict.get s.upgrade_batches old.batch_id) zero_batch).stage ≡ true)
      × IsNext s old.id (get_or (Dict.get s.upgrade_batches old.batch_id) zero_batch).task_ids
      × (t ≡ set_task s task)
unfolding claim_pending
claim_pending-IsNext s t times old task h =
    let batch = get_or (Dict.get s.upgrade_batches old.batch_id) zero_batch in
    let runs = passed (not (is_running batch.stage)) _ _ _ h (skip-answer _) in
    let turn =
      passed (not (priors_succeeded s batch.task_ids old.id)) _ _ _ runs.1 (empty-answer _ _ _) in
    let early = passed (not (ltb times.tested old.expires_at)) _ _ _ turn.1 (empty-answer _ _ _) in
    let same = answer-injective _ _ _ _ early.1 in
    (
      sym same.1,
      ltb→lt times.tested old.expires_at (not-false _ early.0),
      not-false _ runs.0,
      priors_succeeded-IsNext s batch.task_ids old.id (not-false _ turn.0),
      sym same.0 ∙ ap (set_task s) same.1,
    )

-- The tests of the loop that an answer with a task has passed.
fitting :
    (old : UpgradeTask) (up : Caller)
    → (not (str_eq old.node_id up.node_id)
        || old.manual
        || not (is_pending old.stage || in_flight old.stage))
      ≡ false
    → (not (str_eq old.mode up.mode) || not (str_eq old.arch up.arch)) ≡ false
    → IsFor up old × ((is_pending old.stage || in_flight old.stage) ≡ true)
fitting old up mine fits = (
  (
    ground (arith, mine, eq_iff old.node_id up.node_id),
    ground (arith, fits, eq_iff old.mode up.mode),
    ground (arith, fits, eq_iff old.arch up.arch),
    ground (arith, mine),
  ),
  ground (arith, mine),
)

visit-Handed :
    (id : String) (d : Dict UpgradeTask) (s t : State) (up : Caller) (times : Moments)
    (old task : UpgradeTask)
    → visit s up times old ≡ answer (ok (t, some task))
    → HandedFrom ((id, old) ∷ d) s up times t task
unfolding visit
visit-Handed id d s t up times old task h =
    let mine =
      passed
        (not (str_eq old.node_id up.node_id)
          || old.manual
          || not (is_pending old.stage || in_flight old.stage))
        _ _ _ h (skip-answer _) in
    let fits =
      passed (not (str_eq old.mode up.mode) || not (str_eq old.arch up.arch)) _ _ _ mine.1
        (error-answer _ _ _) in
    let fit = fitting old up mine.0 fits.0 in
    elim (Bool-cases (is_pending old.stage)) [
      | inl waits ↦
          (let claim = claim_pending-IsNext s t times old task (rw (waits) at fits.1) in
            (
              subst (IsFor up) (sym claim.0) fit.0,
              inr (old, (id, inl refl), claim.0, waits, claim.1, claim.2, claim.3, claim.4),
            ))
      | inr goes ↦
          (let same = answer-injective _ _ _ _ (rw (goes) at fits.1) in
            (
              subst (IsFor up) same.1 fit.0,
              inl (
                (id, inl (ap (λ x. (id, x)) (sym same.1))),
                subst (λ x. in_flight x.stage ≡ true) same.1 (ground (arith, goes, fit.1)),
                sym same.0,
              ),
            ))
    ]

claim_loop-Handed :
    (d : Dict UpgradeTask) (s t : State) (up : Caller) (times : Moments) (task : UpgradeTask)
    → claim_loop d s up times ≡ ok (t, some task)
    → HandedFrom d s up times t task
unfolding claim_loop
claim_loop-Handed [] s t up times task h = cc
claim_loop-Handed ((id, old) ∷ rest) s t up times task h =
    go (claim_loop-Handed rest s t up times task) (visit s up times old) refl
  where
    go :
        (claim_loop rest s up times ≡ ok (t, some task) → HandedFrom rest s up times t task)
        → (v : Visit) → visit s up times old ≡ v
        → HandedFrom ((id, old) ∷ rest) s up times t task
    go later skip e =
        HandedFrom-cons (id, old) rest s up times t task (later (rw (e, claim_loop) at h))
    go later (answer r) e =
        visit-Handed id rest s t up times old task (e ∙ ap answer (rw (e, claim_loop) at h))

-- A task that `updaterTask` hands out is for the updater's node, mode and architecture and not
-- manual. Either it is stored, in flight, and nothing changes, or it is claimed now: the stored task
-- was pending and not expired, its batch was running, every task before it in the batch had
-- succeeded, and it is stored as running with one attempt more. All this holds after the batches
-- that wait for their Links have been looked at again.
pub updater_task-Handed :
    (cfg : Settings) (snapshot s t : State) (up : Caller) (times : Moments) (task : UpgradeTask)
    → updater_task cfg snapshot s up times ≡ ok (t, some task)
    → Handed (reconcile_upgrade_recovery cfg s times.looked) up times t task
unfolding updater_task
updater_task-Handed cfg snapshot s t up times task h =
    let heard : Bool = elim (Dict.get s.updaters up.node_id) [
      | none ↦ true
      | some u ↦ ltb (u.last_seen + 45 * second) times.heard
    ] in
    let has = passed (not (has_task snapshot.upgrade_tasks up)) _ _ _ h (λ e. cc) in
    let hears = passed heard _ _ _ has.1 (λ e. cc) in
    claim_loop-Handed (reconcile_upgrade_recovery cfg s times.looked).upgrade_tasks
      (reconcile_upgrade_recovery cfg s times.looked) t up times task hears.1

-- A batch that is neither running nor waiting for its Links, for example a paused one, starts no
-- task: what `updaterTask` hands out of it was claimed before, and only the batches that wait for
-- their Links may have changed. The batches are stored under their IDs.
pub updater_task-stopped :
    (cfg : Settings) (snapshot s t : State) (up : Caller) (times : Moments) (task : UpgradeTask)
    (b : UpgradeBatch)
    → AreKeyed s.upgrade_batches
    → Dict.get s.upgrade_batches task.batch_id ≡ some b
    → is_running b.stage ≡ false
    → is_recovering b.stage ≡ false
    → updater_task cfg snapshot s up times ≡ ok (t, some task)
    → (in_flight task.stage ≡ true) × (t ≡ reconcile_upgrade_recovery cfg s times.looked)
updater_task-stopped cfg snapshot s t up times task b keyed e idle settled h =
    elim (updater_task-Handed cfg snapshot s t up times task h).1 [
      | inl before ↦ (before.1, before.2)
      | inr claim ↦
          let kept =
            reconcile_upgrade_recovery-Settled cfg times.looked s task.batch_id b keyed e in
          let batch =
            get_or
              (Dict.get (reconcile_upgrade_recovery cfg s times.looked).upgrade_batches
                claim.0.batch_id)
              zero_batch in
          let same : batch ≡ b =
            ap
              (λ k.
                get_or (Dict.get (reconcile_upgrade_recovery cfg s times.looked).upgrade_batches k)
                  zero_batch)
              (sym (ap (λ x. x.batch_id) claim.2))
            ∙ (ap (λ o. get_or o zero_batch) kept.1 ∙ kept.3 settled) in
          absurd (ground (arith, idle, ap (λ x. is_running x.stage) same, claim.5))
    ]
