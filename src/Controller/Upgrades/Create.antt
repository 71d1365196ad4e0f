-- ===== src/Controller/Upgrades/Create.antt =====
-- internal/controller/node_upgrades.go: `createUpgrade`. Its tokens are the IDs of the batch and of
-- the tasks; what the request's form holds is trimmed already.
use Prim.Native.String.{◌++◌ as ◌<>◌}
use text.Mathlib.Text.{starts_with}
use xmesh.Common.{
  ℕ, ◌+◌, ◌*◌, Bool, true, false, ◌&&◌, ◌||◌, not, Option, none, some, List, [], ◌∷◌, ◌++◌, map,
  length, String, str_eq, ltb, ◌==◌, if◌then◌else◌, Result, ok, ◌>>=◌, ◌>>◌, refuse_if, or_fail,
}
use xmesh.Common.Dict
use xmesh.Common.Dict.{Dict, get_or}
use xmesh.Common.Texts.{str_lt}
use xmesh.Model.{State, Role, Attachment, Link, LinkStatus, NodeStatus, UpgradeTask, UpgradeBatch}
use xmesh.Model.Upgrades.{gateway, agent, unset, preparing}
use xmesh.Controller.Releases.{Releases, release_version, release_enabled, is_release_asset}
use xmesh.Controller.Upgrades.Stages.{second, node_exists, pairing_in_progress, zero_task}
use xmesh.Controller.Upgrades.Recovery.{attachment_uses_node}
use xmesh.Controller.Upgrades.Pairing.{updater_protocol, same_role, has_active}

pub data CreateError : Type 0 where
  invalid_version bad_selection duplicate_node : CreateError
  updater_unavailable unfinished_pairing node_not_found node_disabled already_upgrading
        no_fresh_status already_runs :
      String → CreateError

unfoldable pub one_of_ids : String → List String → Bool
one_of_ids id [] = false
one_of_ids id (j ∷ ids) = let rest = one_of_ids id ids in if str_eq id j then true else rest

-- The map `seen` of the loop over the node IDs.
unfoldable pub has_duplicate : List String → Bool
unfolding one_of_ids
has_duplicate [] = false
has_duplicate (id ∷ ids) = one_of_ids id ids || has_duplicate ids

-- The task that the first loop makes for a node.
abbrev pub new_task : String → String → String → ℕ → String → String → UpgradeTask
new_task batch_id actor version now id token = record zero_task {
  id = token;
  batch_id = batch_id;
  node_id = id;
  actor = actor;
  target_version = version;
  stage = preparing;
  created_at = now;
  updated_at = now;
  expires_at = now + 24 * 3600 * second;
}

-- The first loop, with a token for each node.
unfoldable pub new_tasks :
    String → String → String → ℕ → List String → List String → List UpgradeTask
new_tasks batch_id actor version now (id ∷ ids) (token ∷ tokens) =
    new_task batch_id actor version now id token ∷ new_tasks batch_id actor version now ids tokens
new_tasks batch_id actor version now _ _ = []

-- Not enabled; a missing node is the zero value.
abbrev disabled : State → Role → String → Bool
disabled s gateway id = elim (Dict.get s.gateways id) [ none ↦ true | some g ↦ not g.enabled ]
disabled s agent id = elim (Dict.get s.agents id) [ none ↦ true | some a ↦ not a.enabled ]
disabled s unset id = false

-- The report of a healthy Link's end, made less than 45 seconds ago.
abbrev pub healthy_now : ℕ → Option LinkStatus → Bool
healthy_now at none = false
healthy_now at (some status) =
    status.ready && status.online && ltb at (status.last_seen + 45 * second)

-- The inner loop over the Links, for one attachment.
unfoldable pub links_healthy : State → ℕ → Attachment → Dict Link → List String
links_healthy s at attachment [] = []
links_healthy s at attachment ((k, link) ∷ rest) =
    let others = links_healthy s at attachment rest in
    if not (str_eq link.attachment_id attachment.id) || not link.enabled
    then others
    else if healthy_now at (Dict.get s.link_status (attachment.gateway_id <> ("/" <> link.id)))
        && healthy_now at (Dict.get s.link_status (attachment.agent_id <> ("/" <> link.id)))
    then link.id ∷ others
    else others

-- The outer loop over the attachments.
unfoldable pub baseline_links : State → ℕ → String → Dict Attachment → List String
unfolding links_healthy
baseline_links s at node_id [] = []
baseline_links s at node_id ((k, attachment) ∷ rest) =
    (if attachment_uses_node s attachment node_id
      then links_healthy s at attachment s.links
      else [])
    ++ baseline_links s at node_id rest

-- sort.Strings
unfoldable pub insert_text : String → List String → List String
insert_text t [] = t ∷ []
insert_text t (u ∷ us) = if str_lt t u then t ∷ u ∷ us else u ∷ insert_text t us

unfoldable pub sort_texts : List String → List String
unfolding insert_text
sort_texts [] = []
sort_texts (t ∷ ts) = insert_text t (sort_texts ts)

-- The node's status in the last 45 seconds, for the role.
abbrev fresh_status : State → ℕ → Role → String → Option NodeStatus
fresh_status s at role id = elim (Dict.get s.node_status id) [
  | none ↦ none
  | some status ↦
      if not (str_eq status.node_id id)
        || not (same_role status.role role)
        || str_eq status.binary_version ""
        || status.last_seen == 0
        || ltb (status.last_seen + 45 * second) at
      then none
      else some status
]

-- One round of the loop over the tasks, at the time `at`.
unfoldable pub check_task : State → ℕ → String → UpgradeTask → Result CreateError UpgradeTask
unfolding baseline_links sort_texts
check_task s at version t = do
  up ← or_fail (Dict.get s.updaters t.node_id) (updater_unavailable t.node_id)
  refuse_if
      (str_eq up.credential_hash ""
        || not (up.protocol == updater_protocol)
        || ltb (up.last_seen + 45 * second) at)
      (updater_unavailable t.node_id)
  refuse_if (pairing_in_progress up at) (unfinished_pairing t.node_id)
  refuse_if (not (node_exists s up.role t.node_id)) (node_not_found t.node_id)
  refuse_if (disabled s up.role t.node_id) (node_disabled t.node_id)
  refuse_if (has_active s.upgrade_tasks t.node_id) (already_upgrading t.node_id)
  status ← or_fail (fresh_status s at up.role t.node_id) (no_fresh_status t.node_id)
  refuse_if (str_eq status.binary_version version) (already_runs t.node_id)
  ok (record t {
    role = up.role;
    mode = up.mode;
    arch = up.arch;
    from_version = status.binary_version;
    asset = "xmesh-" <> (version <> ("-linux-" <> (up.arch <> ".tar.gz")));
    baseline_links = sort_texts (baseline_links s at t.node_id s.attachments);
  })

unfoldable pub check_tasks :
    State → ℕ → String → List UpgradeTask → Result CreateError (List UpgradeTask)
check_tasks s at version [] = ok []
check_tasks s at version (t ∷ ts) =
    check_task s at version t >>= λ u. check_tasks s at version ts >>= λ us. ok (u ∷ us)

-- The loop that stores the tasks.
unfoldable pub put_tasks : List UpgradeTask → Dict UpgradeTask → Dict UpgradeTask
put_tasks [] d = d
put_tasks (t ∷ ts) d = put_tasks ts (Dict.put d t.id t)

abbrev pub bad_version : Releases → String → Bool
bad_version cfg version =
    not (release_version version)
    || not (starts_with version "v")
    || not (release_enabled cfg)
    || not (is_release_asset cfg version "install-updater.sh")

abbrev pub new_batch : String → List UpgradeTask → ℕ → UpgradeBatch
new_batch batch_id tasks now = record {
  id = batch_id;
  task_ids = map (λ t. t.id) tasks;
  stage = preparing;
  error = "";
  created_at = now;
  recovery_task_id = "";
  recovery_deadline = 0;
}

-- `createUpgrade`: the checks of the form at the time `now`, and the transaction at the time `at`.
unfoldable pub create_upgrade :
    Releases
    → State
    → String
    → String
    → List String
    → String
    → List String
    → ℕ
    → ℕ
    → Result CreateError State
unfolding has_duplicate
create_upgrade cfg s actor version ids batch_id tokens now at = do
  refuse_if (bad_version cfg version) invalid_version
  refuse_if (length ids == 0 || ltb 100 (length ids)) bad_selection
  refuse_if (has_duplicate ids) duplicate_node
  tasks ← check_tasks s at version (new_tasks batch_id actor version now ids tokens)
  ok (record s {
    upgrade_tasks = put_tasks tasks s.upgrade_tasks;
    upgrade_batches = Dict.put s.upgrade_batches batch_id (new_batch batch_id tasks now);
  })
