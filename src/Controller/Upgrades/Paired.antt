-- ===== src/Controller/Upgrades/Paired.antt =====
-- Resuming, heartbeats and pairing keep the invariant of the tasks.
use xmesh.Common.{
  ℕ, ◌&&◌, ◌||◌, not, String, str_eq, ltb, ◌==◌, Holds, refuse_if-Holds, or_fail-Holds, after_Holds,
}
use xmesh.Common.Dict
use xmesh.Common.Dict.{Dict, get_or, get-put, AreListed, AreDistinct-listed}
use xmesh.Auth.{Hashing, equal_secret_hash}
use xmesh.Model.{State, Role, Updater}
use xmesh.Controller.Upgrades.Stages.{zero_batch, node_exists, pairing_in_progress}
use xmesh.Controller.Upgrades.Recovery.{
  Settings, upgrade_resume_task_id, resume_checks, resume_upgrade, finish_upgrade_recovery,
}
use xmesh.Controller.Upgrades.Pairing.{
  seen, zero_updater, updater_protocol, same_role, pair_updater, updater_pair, promote,
  updater_heartbeat, has_active,
}
use xmesh.Controller.Upgrades.OneActive.{HasOneActive}
use xmesh.Controller.Upgrades.Kept.{Keeps, reconcile-Keeps}

pub resume_upgrade-Keeps :
    (cfg : Settings) (s : State) (id : String) (now : ℕ)
    → HasOneActive s.upgrade_tasks
    → Holds Keeps (resume_upgrade cfg s id now)
unfolding resume_upgrade finish_upgrade_recovery
resume_upgrade-Keeps cfg s id now v =
    or_fail-Holds Keeps (Dict.get s.upgrade_tasks id) _ _ λ task _.
      (let batch = get_or (Dict.get s.upgrade_batches task.batch_id) zero_batch in
        refuse_if-Holds Keeps (str_eq (upgrade_resume_task_id s batch) "") _ _
          λ _. after_Holds Keeps (resume_checks cfg s now batch.task_ids) _ v)

pub updater_heartbeat-Keeps :
    (cfg : Settings) (s : State) (node_id mode arch version : String) (protocol now : ℕ)
    → HasOneActive s.upgrade_tasks
    → Holds Keeps (updater_heartbeat cfg s node_id mode arch version protocol now)
unfolding updater_heartbeat
updater_heartbeat-Keeps cfg s node_id mode arch version protocol now v =
    refuse_if-Holds Keeps
      ((not (str_eq mode "systemd") && not (str_eq mode "docker"))
        || (not (str_eq arch "amd64") && not (str_eq arch "arm64"))
        || not (protocol == updater_protocol))
      _ _ λ _. reconcile-Keeps cfg (seen s node_id mode arch version protocol now) now v

abbrev pub PromoteKeeps : State × Updater → Type 0
PromoteKeeps (t, up) = Keeps t

module _ (hashing : Hashing) (s : State) where
  pub pair_updater-Keeps :
      (role : Role) (id token : String) (now : ℕ)
      → HasOneActive s.upgrade_tasks
      → Holds Keeps (pair_updater hashing s role id token now)
  unfolding pair_updater
  pair_updater-Keeps role id token now v =
      refuse_if-Holds Keeps (not (node_exists s role id)) _ _
        λ _. refuse_if-Holds Keeps (has_active s.upgrade_tasks id) _ _ λ _. v

  pub updater_pair-Keeps :
      (node_id : String) (role : Role) (token credential : String) (now : ℕ)
      → HasOneActive s.upgrade_tasks
      → Holds Keeps (updater_pair hashing s node_id role token credential now)
  unfolding updater_pair
  updater_pair-Keeps node_id role token credential now v =
      or_fail-Holds Keeps (Dict.get s.updaters node_id) _ _ λ up _.
        refuse_if-Holds Keeps
          (not (same_role up.role role)
            || not (node_exists s up.role up.node_id)
            || str_eq up.pair_token_hash ""
            || not (ltb now up.pair_expires_at)
            || not (equal_secret_hash hashing up.pair_token_hash token))
          _ _ λ _. v

  pub promote-Keeps :
      (node_id credential : String) (now : ℕ)
      → HasOneActive s.upgrade_tasks
      → Holds PromoteKeeps (promote hashing s node_id credential now)
  unfolding promote
  promote-Keeps node_id credential now v =
      let candidate = get_or (Dict.get s.updaters node_id) zero_updater in
      refuse_if-Holds PromoteKeeps
        (not (node_exists s candidate.role candidate.node_id)
          || not (pairing_in_progress candidate now)
          || str_eq candidate.pending_credential_hash ""
          || not (equal_secret_hash hashing candidate.pending_credential_hash credential))
        _ _ λ _. v
