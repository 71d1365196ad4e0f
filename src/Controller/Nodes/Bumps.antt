-- ===== src/Controller/Nodes/Bumps.antt =====
-- admin_handlers.go and route_management.go: a new version of a node's configuration, and grants that
-- are no longer published.
use xmesh.Common.{
  ◌+◌, ◌%◌, ◌^◌, Bool, true, false, ◌&&◌, not, none, some, [], ◌∷◌, String, str_eq, if◌then◌else◌,
}
use xmesh.Common.Dict
use xmesh.Common.Dict.{Dict, get_or}
use xmesh.Common.Int.{pos}
use xmesh.Model.{State, Gateway, Agent, Attachment, Link, Grant}

-- What a missing key gives.
abbrev pub zero_gateway : Gateway
zero_gateway = record {
  agent_enabled = false;
  id = "";
  name = "";
  public_host = "";
  public_host_auto = false;
  manual_public_host = "";
  vmess_port = pos 0;
  vmess_disabled = false;
  hy2_disabled = false;
  hy2_port = pos 0;
  enabled = false;
  credential_hash = "";
  previous_credential_hash = "";
  previous_credential_expires_at = 0;
  desired_version = 0;
  created_at = 0;
}

abbrev pub zero_agent : Agent
zero_agent = record {
  gateway_id = "";
  id = "";
  name = "";
  enabled = false;
  allowed_cidrs = [];
  denied_cidrs = [];
  allowed_ports = [];
  credential_hash = "";
  previous_credential_hash = "";
  previous_credential_expires_at = 0;
  desired_version = 0;
  created_at = 0;
}

-- DesiredVersion++, on a uint64
abbrev pub next_gateway : Gateway → Gateway
next_gateway g = record g { desired_version = (g.desired_version + 1) % 2 ^ 64 }

abbrev pub next_agent : Agent → Agent
next_agent a = record a { desired_version = (a.desired_version + 1) % 2 ^ 64 }

-- state.Gateways[gateway.ID] = gateway, and the same for an Agent
abbrev pub set_gateway : State → Gateway → State
set_gateway s g = record s { gateways = Dict.put s.gateways g.id g }

abbrev pub set_agent : State → Agent → State
set_agent s a = record s { agents = Dict.put s.agents a.id a }

-- `bumpGateway`
abbrev pub bump_gateway : State → String → State
bump_gateway s id = record s {
  gateways = Dict.put s.gateways id (next_gateway (get_or (Dict.get s.gateways id) zero_gateway));
}

-- `bumpAgent`
abbrev pub bump_agent : State → String → State
bump_agent s id = record s {
  agents = Dict.put s.agents id (next_agent (get_or (Dict.get s.agents id) zero_agent));
}

-- `bumpGatewayForAttachment`
abbrev pub bump_gateway_for_attachment : State → String → State
bump_gateway_for_attachment s id = elim (Dict.get s.attachments id) [
  | none ↦ s
  | some attachment ↦ bump_gateway s attachment.gateway_id
]

-- The loops over the grants that unpublish those that pass a test: each entry is written once.
unfoldable pub unpublished : (Grant → Bool) → Dict Grant → Dict Grant
unpublished test [] = []
unpublished test ((id, grant) ∷ rest) =
    (id, if test grant then record grant { published = false } else grant) ∷ unpublished test rest

abbrev pub unpublish : (Grant → Bool) → State → State
unpublish test s = record s { grants = unpublished test s.grants }

abbrev pub is_under : String → Grant → Bool
is_under attachment_id grant = str_eq grant.attachment_id attachment_id

unfoldable pub has_enabled_link : Dict Link → String → Bool
has_enabled_link [] id = false
has_enabled_link ((k, link) ∷ rest) id =
    if str_eq link.attachment_id id && link.enabled then true else has_enabled_link rest id

-- `unpublishGrantsWithoutLink`
unfoldable pub unpublish_grants_without_link : State → String → State
unfolding has_enabled_link
unpublish_grants_without_link s id =
    if has_enabled_link s.links id then s else unpublish (is_under id) s

-- The loops over an Agent's attachments: a new version of the Gateway, and where the test holds the
-- grants under the attachment are unpublished.
unfoldable pub change_attachments : Bool → String → Dict Attachment → State → State
change_attachments hides agent_id [] s = s
change_attachments hides agent_id ((k, attachment) ∷ rest) s =
    change_attachments hides agent_id rest (
      if not (str_eq attachment.agent_id agent_id)
      then s
      else (let t = bump_gateway s attachment.gateway_id in
          if hides then unpublish (is_under attachment.id) t else t))

-- `embeddedAgentChanged`
unfoldable pub embedded_agent_changed : State → Agent → State
unfolding change_attachments
embedded_agent_changed s agent =
    let t = set_agent s agent in change_attachments true agent.id t.attachments t
