-- ===== src/Model/Usage.antt =====
-- internal/model/model.go: traffic accounting, and what is kept of deleted grants and Links.
use xmesh.Common.{ℕ, Bool, String, List}
use xmesh.Common.Int.{ℤ}
use xmesh.Common.Dict.{Dict}

pub record RetiredGrant : Type 0 where
  pub user_id : String
  pub attachment_id : String
  pub gateway_id : String
  pub link_names : Dict String
  pub retire_version : ℕ
  pub expires_at : ℕ

pub record RetiredLink : Type 0 where
  pub attachment_id : String
  pub gateway_id : String
  pub agent_id : String
  pub name : String
  pub gateway_version : ℕ
  pub agent_version : ℕ
  pub expires_at : ℕ

pub record GrantLinkUsage : Type 0 where
  pub link_id : String
  pub upload_bytes : ℕ
  pub download_bytes : ℕ

pub record UsageBucket : Type 0 where
  pub at : ℕ
  pub upload_bytes : ℕ
  pub download_bytes : ℕ

pub record UsageCounter : Type 0 where
  pub instance_id : String
  pub upload_bytes : ℕ
  pub download_bytes : ℕ

pub record GrantStatus : Type 0 where
  pub grant_id : String
  pub reporter_node_id : String
  pub upload_bytes : ℕ
  pub download_bytes : ℕ
  pub links : List GrantLinkUsage
  pub tcp_connections : ℤ
  pub udp_associations : ℤ
  pub last_error : String
  pub last_seen : ℕ

-- `LinkSample`, without its round-trip time.
pub record LinkSample : Type 0 where
  pub at : ℕ
  pub instance_id : String
  pub generation : ℕ
  pub upload_bytes : ℕ
  pub download_bytes : ℕ
  pub ready : Bool
