-- ===== src/Controller/Upgrades/Histories.antt =====
-- node_upgrades.go and node_upgrade_recovery.go: the transactions that touch upgrades or updaters,
-- in any order and at any times, with the administrator's and the updaters' inputs left open.
use xmesh.Common.{ℕ, ◌≡◌, Option, List, String, ok, Holds-ok}
use xmesh.Auth.{Hashing}
use xmesh.Model.{State, Stage, Role, UpgradeTask, Updater}
use xmesh.Controller.Releases.{Releases}
use xmesh.Controller.Upgrades.{Caller, Moments, cancel_upgrade, updater_task, updater_report}
use xmesh.Controller.Upgrades.Recovery.{Settings, reconcile_upgrade_recovery, resume_upgrade}
use xmesh.Controller.Upgrades.Pairing.{
  prepare_upgrade_batch, pair_updater, updater_pair, promote, updater_heartbeat,
}
use xmesh.Controller.Upgrades.Create.{create_upgrade}
use xmesh.Controller.Upgrades.Manual.{Encodings, ManualRequest, start_manual_upgrade}
use xmesh.Controller.Upgrades.NewTasks.{AreTokens}
use xmesh.Controller.Upgrades.OneActive.{HasOneActive}
use xmesh.Controller.Upgrades.Kept.{Keeps, cancel_upgrade-HasOneActive, reconcile-Keeps}
use xmesh.Controller.Upgrades.HandedOut.{AnswerKeeps, updater_task-Keeps, updater_report-Keeps}
use xmesh.Controller.Upgrades.Paired.{
  PromoteKeeps, resume_upgrade-Keeps, updater_heartbeat-Keeps, pair_updater-Keeps,
  updater_pair-Keeps, promote-Keeps,
}
use xmesh.Controller.Upgrades.Started.{
  StartKeeps, start_manual_upgrade-Keeps, prepare_upgrade_batch-Keeps, create_upgrade-Keeps,
}

-- What stays the same from one transaction to the next.
pub record Setting : Type 0 where
  pub settings : Settings
  pub releases : Releases
  pub encodings : Encodings
  pub hashing : Hashing

module _ (c : Setting) where
  open c use {settings, releases, encodings, hashing}

  -- A transaction that succeeds. The tokens of new tasks are not in use.
  pub data Transaction (s : State) : State → Type 0 where
    creates :
        (actor version : String) (ids : List String) (batch_id : String) (tokens : List String)
        (now at : ℕ) (t : State)
        → AreTokens s.upgrade_tasks tokens
        → create_upgrade releases s actor version ids batch_id tokens now at ≡ ok t
        → Transaction s t
    prepares :
        (id : String) (problem : Option String) (hashes : String → String) (now : ℕ)
        → Transaction s (prepare_upgrade_batch s id problem hashes now)
    starts :
        (up : Updater) (req : ManualRequest) (now : ℕ) (t : State) (task : UpgradeTask)
        → start_manual_upgrade encodings s up req now ≡ ok (t, task)
        → Transaction s t
    cancels : (id : String) (now : ℕ) (t : State) → cancel_upgrade s id now ≡ ok t → Transaction s t
    hands_out :
        (snapshot : State) (up : Caller) (times : Moments) (t : State) (o : Option UpgradeTask)
        → updater_task settings snapshot s up times ≡ ok (t, o)
        → Transaction s t
    reports :
        (node_id id : String) (stage : Stage) (error : String) (attempt now : ℕ) (t : State)
        → updater_report settings s node_id id stage error attempt now ≡ ok t
        → Transaction s t
    resumes :
        (id : String) (now : ℕ) (t : State)
        → resume_upgrade settings s id now ≡ ok t
        → Transaction s t
    reconciles : (now : ℕ) → Transaction s (reconcile_upgrade_recovery settings s now)
    beats :
        (node_id mode arch version : String) (protocol now : ℕ) (t : State)
        → updater_heartbeat settings s node_id mode arch version protocol now ≡ ok t
        → Transaction s t
    offers_pairing :
        (role : Role) (id token : String) (now : ℕ) (t : State)
        → pair_updater hashing s role id token now ≡ ok t
        → Transaction s t
    pairs :
        (node_id : String) (role : Role) (token credential : String) (now : ℕ) (t : State)
        → updater_pair hashing s node_id role token credential now ≡ ok t
        → Transaction s t
    promotes :
        (node_id credential : String) (now : ℕ) (t : State) (up : Updater)
        → promote hashing s node_id credential now ≡ ok (t, up)
        → Transaction s t

  pub data History (s : State) : State → Type 0 where
    here : History s s
    more : {t u : State} → History s t → Transaction t u → History s u

  Transaction-HasOneActive :
      (s t : State) → HasOneActive s.upgrade_tasks → Transaction s t → HasOneActive t.upgrade_tasks
  Transaction-HasOneActive s _ v (creates actor version ids batch_id tokens now at t new e) =
      Holds-ok Keeps _ t
        (create_upgrade-Keeps releases s actor version ids batch_id tokens now at new v) e
  Transaction-HasOneActive s _ v (prepares id problem hashes now) =
      prepare_upgrade_batch-Keeps s id problem hashes now v
  Transaction-HasOneActive s _ v (starts up req now t task e) =
      Holds-ok StartKeeps _ (t, task) (start_manual_upgrade-Keeps encodings s up req now v) e
  Transaction-HasOneActive s _ v (cancels id now t e) =
      Holds-ok Keeps _ t (cancel_upgrade-HasOneActive s id now v) e
  Transaction-HasOneActive s _ v (hands_out snapshot up times t o e) =
      Holds-ok AnswerKeeps _ (t, o) (updater_task-Keeps settings snapshot s up times v) e
  Transaction-HasOneActive s _ v (reports node_id id stage error attempt now t e) =
      Holds-ok Keeps _ t (updater_report-Keeps settings s node_id id stage error attempt now v) e
  Transaction-HasOneActive s _ v (resumes id now t e) =
      Holds-ok Keeps _ t (resume_upgrade-Keeps settings s id now v) e
  Transaction-HasOneActive s _ v (reconciles now) = reconcile-Keeps settings s now v
  Transaction-HasOneActive s _ v (beats node_id mode arch version protocol now t e) =
      Holds-ok Keeps _ t
        (updater_heartbeat-Keeps settings s node_id mode arch version protocol now v) e
  Transaction-HasOneActive s _ v (offers_pairing role id token now t e) =
      Holds-ok Keeps _ t (pair_updater-Keeps hashing s role id token now v) e
  Transaction-HasOneActive s _ v (pairs node_id role token credential now t e) =
      Holds-ok Keeps _ t (updater_pair-Keeps hashing s node_id role token credential now v) e
  Transaction-HasOneActive s _ v (promotes node_id credential now t up e) =
      Holds-ok PromoteKeeps _ (t, up) (promote-Keeps hashing s node_id credential now v) e

  -- No node ever has two active upgrade tasks. If the tasks are stored under their IDs, no ID twice,
  -- and no node has two active ones, then the same holds after any history of successful
  -- transactions: upgrades created under fresh tokens, prepared, started by a local installer,
  -- cancelled, handed out, reported on, resumed or reconciled, and updaters paired or heard of, in
  -- any order.
  pub History-HasOneActive :
      (s t : State) → HasOneActive s.upgrade_tasks → History s t → HasOneActive t.upgrade_tasks
  History-HasOneActive s _ v here = v
  History-HasOneActive s _ v (more {t} {u} h step) =
      Transaction-HasOneActive t u (History-HasOneActive s t v h) step
