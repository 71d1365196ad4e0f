-- ===== src/Model/Nodes.antt =====
-- internal/model/model.go: users, nodes, the routes between them, and what the nodes report.
use xmesh.Common.{ℕ, Bool, String, List}
use xmesh.Common.Int.{ℤ}
use xmesh.Model.Upgrades.{Role}

pub record User : Type 0 where
  pub audit_enabled : Bool
  pub audit_generation : ℕ
  pub audit_limit_mb : ℤ
  pub id : String
  pub name : String
  pub enabled : Bool
  pub subscription_token : String
  pub subscription_token_hash : String
  pub subscription_token_cipher : String
  pub created_at : ℕ

pub record Gateway : Type 0 where
  pub agent_enabled : Bool
  pub id : String
  pub name : String
  pub public_host : String
  pub public_host_auto : Bool
  pub manual_public_host : String
  pub vmess_port : ℤ
  pub vmess_disabled : Bool
  pub hy2_disabled : Bool
  pub hy2_port : ℤ
  pub enabled : Bool
  pub credential_hash : String
  pub previous_credential_hash : String
  pub previous_credential_expires_at : ℕ
  pub desired_version : ℕ
  pub created_at : ℕ

pub record Agent : Type 0 where
  pub gateway_id : String
  pub id : String
  pub name : String
  pub enabled : Bool
  pub allowed_cidrs : List String
  pub denied_cidrs : List String
  pub allowed_ports : List ℤ
  pub credential_hash : String
  pub previous_credential_hash : String
  pub previous_credential_expires_at : ℕ
  pub desired_version : ℕ
  pub created_at : ℕ

pub record Attachment : Type 0 where
  pub id : String
  pub gateway_id : String
  pub agent_id : String
  pub upstream_id : String
  pub enabled : Bool
  pub created_at : ℕ

-- `VMessUpstream`, without its endpoint and its subscription.
pub record Upstream : Type 0 where
  pub id : String
  pub name : String
  pub enabled : Bool
  pub created_at : ℕ

pub record Link : Type 0 where
  pub id : String
  pub attachment_id : String
  pub name : String
  pub url : String
  pub priority : ℤ
  pub weight : ℤ
  pub connections : ℤ
  pub max_streams : ℤ
  pub enabled : Bool
  pub created_at : ℕ

pub record Grant : Type 0 where
  pub id : String
  pub user_id : String
  pub attachment_id : String
  pub vmess_uuid : String
  pub enabled : Bool
  pub published : Bool
  pub created_at : ℕ

pub record Enrollment : Type 0 where
  pub id : String
  pub node_id : String
  pub role : Role
  pub token_hash : String
  pub expires_at : ℕ
  pub used_at : ℕ
  pub created_at : ℕ

pub record NodeStatus : Type 0 where
  pub node_id : String
  pub role : Role
  pub binary_version : String
  pub instance_id : String
  pub online : Bool
  pub ready : Bool
  pub desired_version : ℕ
  pub applied_version : ℕ
  pub xray_ready : Bool
  pub last_seen : ℕ

pub record LinkStatus : Type 0 where
  pub link_id : String
  pub reporter_node_id : String
  pub online : Bool
  pub ready : Bool
  pub generation : ℕ
  pub last_error : String
  pub last_seen : ℕ
