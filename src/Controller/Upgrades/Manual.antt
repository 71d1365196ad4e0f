-- ===== src/Controller/Upgrades/Manual.antt =====
-- internal/controller/node_upgrades.go: `startManualUpgrade`, an upgrade that the local installer has
-- begun on the node.
use Prim.Native.Char.{code}
use Prim.Native.String.{len, ◌++◌ as ◌<>◌}
use text.Mathlib.Text.{starts_with}
use xmesh.Common.{
  ℕ, ◌+◌, ◌*◌, Bool, true, false, ◌&&◌, ◌||◌, not, Option, none, some, List, length, String, str_eq,
  ltb, ◌==◌, if◌then◌else◌, Result, ok, err, ◌>>=◌, ◌>>◌, refuse_if, or_fail,
}
use xmesh.Common.Dict
use xmesh.Model.{State, Updater, UpgradeTask}
use xmesh.Model.Upgrades.{running}
use xmesh.Controller.Releases.{release_version, is_alphanumeric}
use xmesh.Controller.Upgrades.Stages.{second, node_exists, pairing_in_progress, zero_task, set_task}
use xmesh.Controller.Upgrades.Pairing.{same_role, has_active}

pub data ManualError : Type 0 where
  invalid_manual_upgrade invalid_archive_hash id_already_used : ManualError
  updater_unavailable installation_changed already_upgrading no_fresh_status : ManualError

-- encoding/hex's DecodeString and strings.ToLower.
pub record Encodings : Type 0 where
  pub decode_hex : String → Option (List ℕ)
  pub to_lower : String → String

-- The body of the request.
pub record ManualRequest : Type 0 where
  pub id : String
  pub from_version : String
  pub target_version : String
  pub sha256 : String
  pub mode : String
  pub arch : String

unfoldable pub all_id_chars : String → Bool
all_id_chars String.[] = true
all_id_chars (String.◌∷◌ c s) =
    (is_alphanumeric (code c) || code c == b'_' || code c == b'-') && all_id_chars s

-- `validManualTaskID`
unfoldable pub valid_manual_task_id : String → Bool
unfolding all_id_chars
valid_manual_task_id id = not (ltb (len id) 12) && not (ltb 64 (len id)) && all_id_chars id

abbrev known_arch : String → Bool
known_arch arch = str_eq arch "amd64" || str_eq arch "arm64"

abbrev known_mode : String → Bool
known_mode mode = str_eq mode "systemd" || str_eq mode "docker"

-- A number of a decoded text, 0 where it does not decode.
abbrev pub decoded_length : Option (List ℕ) → ℕ
decoded_length none = 0
decoded_length (some b) = length b

-- Whether a task that has the request's ID is the request's.
unfoldable pub same_upgrade : Encodings → Updater → ManualRequest → UpgradeTask → Bool
same_upgrade enc up req existing =
    existing.manual
    && str_eq existing.node_id up.node_id
    && same_role existing.role up.role
    && str_eq existing.from_version req.from_version
    && str_eq existing.target_version req.target_version
    && str_eq existing.sha256 (enc.to_lower req.sha256)
    && str_eq existing.mode req.mode
    && str_eq existing.arch req.arch

abbrev pub manual_task : Encodings → Updater → ManualRequest → ℕ → UpgradeTask
manual_task enc up req now = record zero_task {
  id = req.id;
  manual = true;
  node_id = up.node_id;
  role = up.role;
  actor = "local installer";
  from_version = req.from_version;
  target_version = req.target_version;
  asset = "xmesh-" <> (req.target_version <> ("-linux-" <> (req.arch <> ".tar.gz")));
  sha256 = enc.to_lower req.sha256;
  mode = req.mode;
  arch = req.arch;
  stage = running;
  attempt = 1;
  created_at = now;
  updated_at = now;
  expires_at = now + 24 * 3600 * second;
}

-- The node's status, fresh and of the version that the request names.
abbrev pub status_matches : State → ℕ → Updater → String → Bool
status_matches s now up from = elim (Dict.get s.node_status up.node_id) [
  | none ↦ false
  | some status ↦
      str_eq status.node_id up.node_id
      && same_role status.role up.role
      && str_eq status.binary_version from
      && not (status.last_seen == 0)
      && not (ltb (status.last_seen + 45 * second) now)
]

abbrev pub changed : String → String → Bool
changed current requested = not (str_eq current "") && not (str_eq current requested)

-- The rest of the transaction, where no task has the request's ID.
unfoldable pub start_new :
    Encodings → State → Updater → ManualRequest → ℕ → Result ManualError (State × UpgradeTask)
start_new enc s up req now = do
  current ← or_fail (Dict.get s.updaters up.node_id) updater_unavailable
  refuse_if
      (not (str_eq current.credential_hash up.credential_hash)
        || not (node_exists s up.role up.node_id)
        || pairing_in_progress current now)
      updater_unavailable
  refuse_if (changed current.mode req.mode || changed current.arch req.arch) installation_changed
  refuse_if (has_active s.upgrade_tasks up.node_id) already_upgrading
  refuse_if (not (status_matches s now up req.from_version)) no_fresh_status
  ok (set_task s (manual_task enc up req now), manual_task enc up req now)

-- The test on the form.
abbrev pub bad_form : ManualRequest → Bool
bad_form req =
    not (valid_manual_task_id req.id)
    || not (release_version req.target_version)
    || not (starts_with req.target_version "v")
    || str_eq req.from_version ""
    || str_eq req.from_version req.target_version
    || not (known_arch req.arch)
    || not (known_mode req.mode)

-- `startManualUpgrade`, for the updater that has authenticated.
unfoldable pub start_manual_upgrade :
    Encodings → State → Updater → ManualRequest → ℕ → Result ManualError (State × UpgradeTask)
start_manual_upgrade enc s up req now = do
  refuse_if (bad_form req) invalid_manual_upgrade
  refuse_if (not (decoded_length (enc.decode_hex req.sha256) == 32)) invalid_archive_hash
  elim (Dict.get s.upgrade_tasks req.id) [
    | some existing ↦
        if same_upgrade enc up req existing then ok (s, existing) else err id_already_used
    | none ↦ start_new enc s up req now
  ]
