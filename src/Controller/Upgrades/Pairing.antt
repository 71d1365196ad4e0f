-- ===== src/Controller/Upgrades/Pairing.antt =====
-- internal/controller/node_upgrades.go: the pairing of a node's updater, its authentication and its
-- heartbeats, and the end of a batch's preparation.
use xmesh.Common.{
  ℕ, ◌+◌, ◌*◌, Bool, true, false, ◌&&◌, ◌||◌, not, Option, none, some, List, [], ◌∷◌, String,
  str_eq, ltb, ◌==◌, if◌then◌else◌, Result, ok, err, ◌>>=◌, ◌>>◌, refuse_if, or_fail,
}
use xmesh.Auth.{Hashing, secret_hash, equal_secret_hash}
use xmesh.Common.Dict
use xmesh.Common.Dict.{Dict, get_or}
use xmesh.Model.{State, Role, Updater, UpgradeTask, UpgradeBatch}
use xmesh.Model.Upgrades.{gateway, agent, unset, pending, running, failed}
use xmesh.Controller.Upgrades.Stages.{
  second, is_preparing, active_upgrade, node_exists, pairing_in_progress, zero_task, zero_batch,
}
use xmesh.Controller.Upgrades.Recovery.{Settings, reconcile_upgrade_recovery}

pub data PairError : Type 0 where
  node_not_found active_task invalid_token pairing_changed unsupported_updater : PairError

abbrev pub updater_protocol : ℕ
updater_protocol = 1

abbrev pub zero_updater : Updater
zero_updater = record {
  node_id = "";
  role = unset;
  credential_hash = "";
  pending_credential_hash = "";
  pair_token_hash = "";
  pair_expires_at = 0;
  mode = "";
  arch = "";
  version = "";
  protocol = 0;
  last_seen = 0;
}

abbrev pub same_role : Role → Role → Bool
same_role gateway gateway = true
same_role agent agent = true
same_role unset unset = true
same_role _ _ = false

-- The loop of `pairUpdater` over the tasks.
unfoldable pub has_active : Dict UpgradeTask → String → Bool
has_active [] id = false
has_active ((k, task) ∷ rest) id =
    let others = has_active rest id in
    if str_eq task.node_id id && active_upgrade task.stage then true else others

module _ (hashing : Hashing) where
  -- `pairUpdater`
  unfoldable pub pair_updater : State → Role → String → String → ℕ → Result PairError State
  pair_updater s role id token now = do
    refuse_if (not (node_exists s role id)) node_not_found
    refuse_if (has_active s.upgrade_tasks id) active_task
    let up = get_or (Dict.get s.updaters id) zero_updater
    ok (record s {
      updaters = Dict.put s.updaters id (record up {
        node_id = id;
        role = role;
        pair_token_hash = secret_hash hashing token;
        pair_expires_at = now + 30 * 60 * second;
        pending_credential_hash = "";
      });
    })

  -- `updaterPair`: the old credential and the token stay until the new one has been used.
  unfoldable pub updater_pair : State → String → Role → String → String → ℕ → Result PairError State
  updater_pair s node_id role token credential now = do
    up ← or_fail (Dict.get s.updaters node_id) invalid_token
    refuse_if
        (not (same_role up.role role)
          || not (node_exists s up.role up.node_id)
          || str_eq up.pair_token_hash ""
          || not (ltb now up.pair_expires_at)
          || not (equal_secret_hash hashing up.pair_token_hash token))
        invalid_token
    ok (record s {
      updaters =
          Dict.put s.updaters up.node_id
            (record up { pending_credential_hash = secret_hash hashing credential });
    })

  -- The transaction of `authenticateUpdater` that makes a pending credential the only one.
  unfoldable pub promote : State → String → String → ℕ → Result PairError (State × Updater)
  promote s node_id credential now =
      let candidate = get_or (Dict.get s.updaters node_id) zero_updater in
      let promoted = record candidate {
        credential_hash = candidate.pending_credential_hash;
        pending_credential_hash = "";
        pair_token_hash = "";
        pair_expires_at = 0;
      } in
      refuse_if
        (not (node_exists s candidate.role candidate.node_id)
          || not (pairing_in_progress candidate now)
          || str_eq candidate.pending_credential_hash ""
          || not (equal_secret_hash hashing candidate.pending_credential_hash credential))
        pairing_changed
      >> ok (record s { updaters = Dict.put s.updaters candidate.node_id promoted }, promoted)

  abbrev promoted_or : State → Result PairError (State × Updater) → State × Option Updater
  promoted_or s (ok (t, up)) = (t, some up)
  promoted_or s (err e) = (s, none)

  -- The loop of `authenticateUpdater` over the updaters.
  unfoldable pub authenticate_loop : Dict Updater → State → String → ℕ → State × Option Updater
  authenticate_loop [] s credential now = (s, none)
  authenticate_loop ((k, up) ∷ rest) s credential now =
      let others = authenticate_loop rest s credential now in
      if not (node_exists s up.role up.node_id)
      then others
      else if not (str_eq up.credential_hash "")
          && equal_secret_hash hashing up.credential_hash credential
      then (s, some up)
      else if pairing_in_progress up now
          && not (str_eq up.pending_credential_hash "")
          && equal_secret_hash hashing up.pending_credential_hash credential
      then promoted_or s (promote s up.node_id credential now)
      else others

  -- `authenticateUpdater`, with the credential of the request's header.
  unfoldable pub authenticate_updater : State → String → ℕ → State × Option Updater
  authenticate_updater s credential now =
      if str_eq credential "" then (s, none) else authenticate_loop s.updaters s credential now

-- The updater's record after a heartbeat.
abbrev pub seen : State → String → String → String → String → ℕ → ℕ → State
seen s node_id mode arch version protocol now =
    let current = get_or (Dict.get s.updaters node_id) zero_updater in
    record s {
      updaters = Dict.put s.updaters node_id (record current {
        mode = mode;
        arch = arch;
        version = version;
        protocol = protocol;
        last_seen = now;
      });
    }

-- `updaterHeartbeat`, for an updater that has authenticated.
unfoldable pub updater_heartbeat :
    Settings → State → String → String → String → String → ℕ → ℕ → Result PairError State
updater_heartbeat cfg s node_id mode arch version protocol now =
    refuse_if
      ((not (str_eq mode "systemd") && not (str_eq mode "docker"))
        || (not (str_eq arch "amd64") && not (str_eq arch "arm64"))
        || not (protocol == updater_protocol))
      unsupported_updater
    >> ok (reconcile_upgrade_recovery cfg (seen s node_id mode arch version protocol now) now)

-- A task of a batch that has been prepared: with the hash of its asset, or with the error.
unfoldable pub prepared_task : Option String → (String → String) → ℕ → UpgradeTask → UpgradeTask
prepared_task none hashes now task = record task {
  stage = pending;
  sha256 = hashes task.asset;
  updated_at = now;
}
prepared_task (some e) hashes now task = record task { stage = failed; error = e; updated_at = now }

unfoldable pub prepare_tasks : Option String → (String → String) → ℕ → List String → State → State
prepare_tasks problem hashes now [] s = s
prepare_tasks problem hashes now (id ∷ ids) s =
    let task = get_or (Dict.get s.upgrade_tasks id) zero_task in
    prepare_tasks problem hashes now ids (
      if not (is_preparing task.stage) then s else record s {
        upgrade_tasks = Dict.put s.upgrade_tasks id (prepared_task problem hashes now task);
      })

abbrev prepared_batch : Option String → UpgradeBatch → UpgradeBatch
prepared_batch none batch = record batch { stage = running }
prepared_batch (some e) batch = record batch { stage = failed; error = e }

-- The transaction at the end of `prepareUpgradeBatch`, with the error of the downloads or their hashes.
unfoldable pub prepare_upgrade_batch :
    State → String → Option String → (String → String) → ℕ → State
prepare_upgrade_batch s id problem hashes now =
    let batch = get_or (Dict.get s.upgrade_batches id) zero_batch in
    let t = prepare_tasks problem hashes now batch.task_ids s in
    if not (is_preparing batch.stage)
    then s
    else record t { upgrade_batches = Dict.put t.upgrade_batches id (prepared_batch problem batch) }
