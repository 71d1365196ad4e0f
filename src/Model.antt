-- ===== src/Model.antt =====
-- internal/model/model.go: the Controller's persistent state. Times are nanoseconds since Go's zero
-- time, which is 0; uint64 fields are numbers below 2 ^ 64. The JSON tags, and the maps that no
-- modelled component reads (sessions, operations), are left out.
pub mod Nodes
pub mod Upgrades
pub mod Usage
pub use Nodes.{
  User, Gateway, Agent, Attachment, Upstream, Link, Grant, Enrollment, NodeStatus, LinkStatus,
}
pub use Upgrades.{Role, Stage, Updater, UpgradeTask, UpgradeBatch}
pub use Usage.{
  RetiredGrant, RetiredLink, GrantLinkUsage, UsageBucket, UsageCounter, GrantStatus, LinkSample,
}
use xmesh.Common.{ℕ, String, List, []}
use xmesh.Common.Dict.{Dict}

pub record State : Type 0 where
  pub revision : ℕ
  pub users : Dict User
  pub gateways : Dict Gateway
  pub agents : Dict Agent
  pub upstreams : Dict Upstream
  pub attachments : Dict Attachment
  pub links : Dict Link
  pub grants : Dict Grant
  pub retired_grants : Dict RetiredGrant
  pub retired_links : Dict RetiredLink
  pub enrollments : Dict Enrollment
  pub node_status : Dict NodeStatus
  pub link_status : Dict LinkStatus
  pub grant_status : Dict GrantStatus
  pub link_history : Dict (List LinkSample)
  pub usage_history : Dict (List UsageBucket)
  pub usage_labels : Dict String
  pub usage_counters : Dict UsageCounter
  pub updaters : Dict Updater
  pub upgrade_tasks : Dict UpgradeTask
  pub upgrade_batches : Dict UpgradeBatch

abbrev pub new_state : State
new_state = record {
  revision = 0;
  users = [];
  gateways = [];
  agents = [];
  upstreams = [];
  attachments = [];
  links = [];
  grants = [];
  retired_grants = [];
  retired_links = [];
  enrollments = [];
  node_status = [];
  link_status = [];
  grant_status = [];
  link_history = [];
  usage_history = [];
  usage_labels = [];
  usage_counters = [];
  updaters = [];
  upgrade_tasks = [];
  upgrade_batches = [];
}
