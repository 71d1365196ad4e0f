-- ===== src/Controller/Upgrades/Started.antt =====
-- The handlers that make tasks keep the invariant, and so does the end of a batch's preparation.
use xmesh.Common.{
  ℕ, ◌≡◌, refl, inl, inr, ◌||◌, not, Bool-cases, Option, none, some, List, String, str_eq, ltb,
  ◌==◌, if◌then◌else◌, Result, ok, err, ◌>>=◌, Holds, refuse_if-Holds, or_fail-Holds, length,
}
use xmesh.Common.Dict
use xmesh.Common.Dict.{Dict, get_or, get-put, AreListed, AreDistinct-listed}
use xmesh.Model.{State, UpgradeTask, Updater}
use xmesh.Controller.Releases.{Releases}
use xmesh.Controller.Upgrades.Stages.{zero_batch, node_exists, pairing_in_progress, is_preparing}
use xmesh.Controller.Upgrades.Pairing.{has_active, prepare_upgrade_batch}
use xmesh.Controller.Upgrades.Create.{
  CreateError, put_tasks, check_tasks, new_tasks, has_duplicate, new_batch, bad_version,
  create_upgrade,
}
use xmesh.Controller.Upgrades.Manual.{
  Encodings, ManualRequest, manual_task, changed, status_matches, decoded_length, bad_form,
  same_upgrade, id_already_used, start_new, start_manual_upgrade,
}
use xmesh.Controller.Upgrades.NewTasks.{
  AreTokens, AreFresh, new_tasks-AreFresh, check_tasks-AreChecked, AreChecked-AreNew,
}
use xmesh.Controller.Upgrades.Kept.{Keeps, prepare_tasks-HasOneActive}
use xmesh.Controller.Upgrades.OneActive.{
  HasOneActive, has_active-IsFree, put_tasks-HasOneActive, put_new-HasOneActive,
}

abbrev pub StartKeeps : State × UpgradeTask → Type 0
StartKeeps (s, task) = Keeps s

start_new-Keeps :
    (enc : Encodings) (s : State) (up : Updater) (req : ManualRequest) (now : ℕ)
    → Dict.get s.upgrade_tasks req.id ≡ none
    → HasOneActive s.upgrade_tasks
    → Holds StartKeeps (start_new enc s up req now)
unfolding start_new
start_new-Keeps enc s up req now e v =
    or_fail-Holds StartKeeps (Dict.get s.updaters up.node_id) _ _ λ current _.
      refuse_if-Holds StartKeeps
        (not (str_eq current.credential_hash up.credential_hash)
          || not (node_exists s up.role up.node_id)
          || pairing_in_progress current now)
        _ _
        λ _.
          refuse_if-Holds StartKeeps
            (changed current.mode req.mode || changed current.arch req.arch) _ _
            λ _. refuse_if-Holds StartKeeps (has_active s.upgrade_tasks up.node_id) _ _ λ free.
              refuse_if-Holds StartKeeps (not (status_matches s now up req.from_version)) _ _ λ _.
                put_new-HasOneActive s.upgrade_tasks (manual_task enc up req now) e
                  (has_active-IsFree s.upgrade_tasks up.node_id free) v

pub start_manual_upgrade-Keeps :
    (enc : Encodings) (s : State) (up : Updater) (req : ManualRequest) (now : ℕ)
    → HasOneActive s.upgrade_tasks
    → Holds StartKeeps (start_manual_upgrade enc s up req now)
unfolding start_manual_upgrade
start_manual_upgrade-Keeps enc s up req now v = refuse_if-Holds StartKeeps (bad_form req) _ _ λ _.
    refuse_if-Holds StartKeeps (not (decoded_length (enc.decode_hex req.sha256) == 32)) _ _
      λ _. go (Dict.get s.upgrade_tasks req.id) refl
  where
    go :
        (o : Option UpgradeTask)
        → Dict.get s.upgrade_tasks req.id ≡ o
        → Holds StartKeeps (elim o [
          | some existing ↦
              if same_upgrade enc up req existing then ok (s, existing) else err id_already_used
          | none ↦ start_new enc s up req now
        ])
    go (some existing) e = elim (Bool-cases (same_upgrade enc up req existing)) [
      | inl same ↦ rw same v
      | inr other ↦ rw other tt
    ]
    go none e = start_new-Keeps enc s up req now e v

pub prepare_upgrade_batch-Keeps :
    (s : State) (id : String) (problem : Option String) (hashes : String → String) (now : ℕ)
    → HasOneActive s.upgrade_tasks
    → Keeps (prepare_upgrade_batch s id problem hashes now)
unfolding prepare_upgrade_batch
prepare_upgrade_batch-Keeps s id problem hashes now v =
    let batch = get_or (Dict.get s.upgrade_batches id) zero_batch in
    elim (Bool-cases (is_preparing batch.stage)) [
      | inl prepares ↦
          rw prepares (prepare_tasks-HasOneActive problem hashes now batch.task_ids s v)
      | inr over ↦ rw over v
    ]

pub create_upgrade-Keeps :
    (cfg : Releases) (s : State) (actor version : String) (ids : List String) (batch_id : String)
    (tokens : List String) (now at : ℕ)
    → AreTokens s.upgrade_tasks tokens
    → HasOneActive s.upgrade_tasks
    → Holds Keeps (create_upgrade cfg s actor version ids batch_id tokens now at)
unfolding create_upgrade
create_upgrade-Keeps cfg s actor version ids batch_id tokens now at new v =
    refuse_if-Holds Keeps (bad_version cfg version) _ _ λ _.
      refuse_if-Holds Keeps (length ids == 0 || ltb 100 (length ids)) _ _ λ _.
        refuse_if-Holds Keeps (has_duplicate ids) _ _ λ single.
          go (check_tasks s at version ts) refl
            (new_tasks-AreFresh s.upgrade_tasks batch_id actor version now ids tokens single new)
  where
    ts : List UpgradeTask
    ts = new_tasks batch_id actor version now ids tokens

    go :
        (r : Result CreateError (List UpgradeTask))
        → check_tasks s at version ts ≡ r
        → AreFresh s.upgrade_tasks ts
        → Holds Keeps (
            r >>= λ tasks. ok (record s {
              upgrade_tasks = put_tasks tasks s.upgrade_tasks;
              upgrade_batches = Dict.put s.upgrade_batches batch_id (new_batch batch_id tasks now);
            }))
    go (err x) e fresh = tt
    go (ok us) e fresh =
        put_tasks-HasOneActive us s.upgrade_tasks
          (AreChecked-AreNew s.upgrade_tasks ts us fresh
            (check_tasks-AreChecked s at version ts us e))
          v
