-- ===== src/Controller/Nodes/Handlers.antt =====
-- node_management.go, route_management.go, admin_handlers.go, embedded_agent.go, upstreams.go: the
-- handlers that make, switch and delete nodes and routes.
use Prim.Native.String.{◌++◌ as ◌<>◌}
use xmesh.Common.{
  ℕ, Bool, true, false, ◌&&◌, ◌||◌, not, Option, none, some, List, [], ◌∷◌, String, str_eq,
  if◌then◌else◌, Result, ok, ◌>>=◌, ◌>>◌, refuse_if, or_fail,
}
use xmesh.Common.Dict
use xmesh.Common.Dict.{Dict, get_or}
use xmesh.Model.{State, Attachment, Gateway, Agent}
use xmesh.Controller.Usage.{zero_attachment}
use xmesh.Common.Derived.{exists}
use xmesh.Controller.Upgrades.Pairing.{has_active}
use xmesh.Controller.Nodes.Bumps.{
  zero_gateway, next_gateway, set_gateway, bump_gateway, bump_agent, bump_gateway_for_attachment,
  unpublish_grants_without_link,
}
use xmesh.Controller.Nodes.Removal.{
  remove_grant, remove_link, remove_attachment, remove_attachments, remove_node_references,
}

pub data NodeError : Type 0 where
  not_found wrong_confirmation active_upgrade already_exists : NodeError

-- `GatewayAgentID`
abbrev pub gateway_agent_id : String → String
gateway_agent_id gateway_id = "embedded-" <> gateway_id

-- `nodeHasActiveUpgrade`
abbrev pub node_has_active_upgrade : State → String → Bool
node_has_active_upgrade s node_id = has_active s.upgrade_tasks node_id

-- The Agent that shares the Gateway's process.
abbrev pub embedded_agent : State → Gateway → Option Agent
embedded_agent s gateway = elim (Dict.get s.agents (gateway_agent_id gateway.id)) [
  | none ↦ none
  | some agent ↦ if str_eq agent.gateway_id gateway.id then some agent else none
]

-- What `deleteGateway` removes before the references.
abbrev pub without_gateway : State → Gateway → Option Agent → State
without_gateway s gateway none = record s { gateways = Dict.remove s.gateways gateway.id }
without_gateway s gateway (some agent) = record s {
  agents = Dict.remove s.agents agent.id;
  gateways = Dict.remove s.gateways gateway.id;
}

abbrev pub removed_ids : Gateway → Option Agent → List String
removed_ids gateway none = gateway.id ∷ []
removed_ids gateway (some agent) = gateway.id ∷ agent.id ∷ []

-- `deleteGateway`
unfoldable pub delete_gateway : State → String → String → ℕ → Result NodeError State
delete_gateway s id confirm_name now = do
  gateway ← or_fail (Dict.get s.gateways id) not_found
  refuse_if (not (str_eq confirm_name gateway.name)) wrong_confirmation
  refuse_if (node_has_active_upgrade s gateway.id) active_upgrade
  let agent = embedded_agent s gateway
  ok (remove_node_references (without_gateway s gateway agent) (removed_ids gateway agent) now)

-- What `deleteAgent` does before the references: an embedded Agent is switched off at its Gateway.
abbrev pub without_agent : State → Agent → State
without_agent s agent =
    let t = record s { agents = Dict.remove s.agents agent.id } in
    if str_eq agent.gateway_id ""
    then t
    else set_gateway t (
        next_gateway (record (get_or (Dict.get t.gateways agent.gateway_id) zero_gateway) {
          agent_enabled = false;
        }))

-- `deleteAgent`
unfoldable pub delete_agent : State → String → String → ℕ → Result NodeError State
delete_agent s id confirm_name now = do
  agent ← or_fail (Dict.get s.agents id) not_found
  refuse_if (not (str_eq confirm_name agent.name)) wrong_confirmation
  refuse_if
      (node_has_active_upgrade s agent.id
        || (not (str_eq agent.gateway_id "") && node_has_active_upgrade s agent.gateway_id))
      active_upgrade
  ok (remove_node_references (without_agent s agent) (agent.id ∷ []) now)

-- `deleteLink`
unfoldable pub delete_link : State → String → String → ℕ → Result NodeError State
delete_link s id confirm_name now = do
  link ← or_fail (Dict.get s.links id) not_found
  refuse_if (not (str_eq confirm_name link.name)) wrong_confirmation
  let attachment = get_or (Dict.get s.attachments link.attachment_id) zero_attachment
  let unpublished = unpublish_grants_without_link (remove_link s link.id now) attachment.id
  ok (bump_agent (bump_gateway unpublished attachment.gateway_id) attachment.agent_id)

-- `deleteAttachment`
unfoldable pub delete_attachment : State → String → String → ℕ → Result NodeError State
delete_attachment s id confirm_id now = do
  attachment ← or_fail (Dict.get s.attachments id) not_found
  refuse_if (not (str_eq confirm_id id)) wrong_confirmation
  ok (remove_attachment s id now)

-- `deleteGrant`
unfoldable pub delete_grant : State → String → String → ℕ → Result NodeError State
delete_grant s id confirm_id now = do
  grant ← or_fail (Dict.get s.grants id) not_found
  refuse_if (not (str_eq confirm_id id)) wrong_confirmation
  ok (bump_gateway_for_attachment (remove_grant s id now) grant.attachment_id)

-- `deleteUpstream`
unfoldable pub delete_upstream : State → String → String → ℕ → Result NodeError State
delete_upstream s id confirm_name now = do
  upstream ← or_fail (Dict.get s.upstreams id) not_found
  refuse_if (not (str_eq confirm_name upstream.name)) wrong_confirmation
  let t = remove_attachments (λ a. str_eq a.upstream_id upstream.id) s.attachments s now
  ok (record t { upstreams = Dict.remove t.upstreams upstream.id })

-- The loops that look for an attachment of the same two nodes, and of a Gateway and an upstream.
unfoldable pub any_attachment : (Attachment → Bool) → Dict Attachment → Bool
any_attachment test [] = false
any_attachment test ((k, a) ∷ rest) =
    let others = any_attachment test rest in if test a then true else others

-- `createAttachment`, with a new ID.
unfoldable pub create_attachment : State → String → String → String → ℕ → Result NodeError State
unfolding any_attachment
create_attachment s id gateway_id agent_id now = do
  refuse_if (not (exists (Dict.get s.gateways gateway_id))) not_found
  refuse_if (not (exists (Dict.get s.agents agent_id))) not_found
  refuse_if
      (any_attachment (λ a. str_eq a.gateway_id gateway_id && str_eq a.agent_id agent_id)
        s.attachments)
      already_exists
  let attachment = record zero_attachment {
    id = id;
    gateway_id = gateway_id;
    agent_id = agent_id;
    enabled = true;
    created_at = now;
  }
  let t = record s { attachments = Dict.put s.attachments id attachment }
  ok (bump_agent (bump_gateway t gateway_id) agent_id)

-- `attachUpstream`, with a new ID.
unfoldable pub attach_upstream : State → String → String → String → ℕ → Result NodeError State
unfolding any_attachment
attach_upstream s id gateway_id upstream_id now = do
  refuse_if (not (exists (Dict.get s.gateways gateway_id))) not_found
  refuse_if (not (exists (Dict.get s.upstreams upstream_id))) not_found
  refuse_if
      (any_attachment (λ a. str_eq a.gateway_id gateway_id && str_eq a.upstream_id upstream_id)
        s.attachments)
      already_exists
  let attachment = record zero_attachment {
    id = id;
    gateway_id = gateway_id;
    upstream_id = upstream_id;
    enabled = true;
    created_at = now;
  }
  ok (bump_gateway (record s { attachments = Dict.put s.attachments id attachment }) gateway_id)
