-- ===== src/Controller/Nodes/Switches.antt =====
-- admin_handlers.go and embedded_agent.go: the handlers that switch a node, a route or a user on or
-- off.
use Prim.Native.String.{◌++◌ as ◌<>◌}
use xmesh.Common.{
  ℕ, Bool, false, not, Option, none, some, [], ◌∷◌, String, str_eq, if◌then◌else◌, Result, ok,
  ◌>>=◌, ◌>>◌, refuse_if, or_fail,
}
use xmesh.Common.Dict
use xmesh.Common.Dict.{Dict, get_or}
use xmesh.Model.{State, Attachment, Grant, Gateway, Agent}
use xmesh.Controller.Usage.{zero_attachment}
use xmesh.Controller.Nodes.Bumps.{
  zero_gateway, zero_agent, next_gateway, next_agent, set_gateway, set_agent, bump_gateway,
  bump_agent, bump_gateway_for_attachment, unpublish, is_under, unpublish_grants_without_link,
  change_attachments, embedded_agent_changed,
}
use xmesh.Controller.Nodes.Handlers.{
  NodeError, not_found, already_exists, gateway_agent_id, embedded_agent,
}

abbrev pub is_of_user : String → Grant → Bool
is_of_user user_id grant = str_eq grant.user_id user_id

-- The Gateways of the user's grants, in the loop of `toggleUser`.
unfoldable pub bump_gateways_of_user : String → Dict Grant → State → State
bump_gateways_of_user user_id [] s = s
bump_gateways_of_user user_id ((id, grant) ∷ rest) s =
    bump_gateways_of_user user_id rest
      (if is_of_user user_id grant then bump_gateway_for_attachment s grant.attachment_id else s)

-- `toggleUser`: the loop unpublishes the user's grants as it goes.
unfoldable pub toggle_user : State → String → Result NodeError State
unfolding bump_gateways_of_user
toggle_user s id = do
  user ← or_fail (Dict.get s.users id) not_found
  let t = record s { users = Dict.put s.users id (record user { enabled = not user.enabled }) }
  ok (unpublish (is_of_user id) (bump_gateways_of_user id t.grants t))

-- The embedded Agent's part of `toggleGateway`.
abbrev pub with_embedded : State → Option Agent → State
with_embedded s none = s
with_embedded s (some agent) = embedded_agent_changed s (next_agent agent)

-- Whether a grant is under an attachment of the Gateway; a missing attachment is the zero value.
abbrev pub is_through : Dict Attachment → String → Grant → Bool
is_through attachments gateway_id grant =
    str_eq (get_or (Dict.get attachments grant.attachment_id) zero_attachment).gateway_id gateway_id

-- `toggleGateway`
unfoldable pub toggle_gateway : State → String → Result NodeError State
toggle_gateway s id = do
  old ← or_fail (Dict.get s.gateways id) not_found
  let gateway = next_gateway (record old { enabled = not old.enabled })
  let t = set_gateway s gateway
  let u = with_embedded t (embedded_agent t gateway)
  ok (if gateway.enabled then u else unpublish (is_through u.attachments gateway.id) u)

-- The Gateway's part of `toggleAgent`, for an embedded Agent.
abbrev pub switch_embedded : State → Agent → State
switch_embedded s agent =
    if str_eq agent.gateway_id ""
    then s
    else set_gateway s (
        next_gateway (record (get_or (Dict.get s.gateways agent.gateway_id) zero_gateway) {
          agent_enabled = agent.enabled;
        }))

-- `toggleAgent`
unfoldable pub toggle_agent : State → String → Result NodeError State
toggle_agent s id = do
  old ← or_fail (Dict.get s.agents id) not_found
  let agent = next_agent (record old { enabled = not old.enabled })
  let t = switch_embedded (set_agent s agent) agent
  ok (change_attachments (not agent.enabled) agent.id t.attachments t)

-- `toggleAttachment`
unfoldable pub toggle_attachment : State → String → Result NodeError State
toggle_attachment s id = do
  old ← or_fail (Dict.get s.attachments id) not_found
  let attachment = record old { enabled = not old.enabled }
  let t =
      bump_gateway (record s { attachments = Dict.put s.attachments attachment.id attachment })
        attachment.gateway_id
  let u = if str_eq attachment.agent_id "" then t else bump_agent t attachment.agent_id
  ok (if attachment.enabled then u else unpublish (is_under attachment.id) u)

-- `toggleLink`
unfoldable pub toggle_link : State → String → Result NodeError State
toggle_link s id = do
  old ← or_fail (Dict.get s.links id) not_found
  let link = record old { enabled = not old.enabled }
  let t = record s { links = Dict.put s.links link.id link }
  let attachment = get_or (Dict.get t.attachments link.attachment_id) zero_attachment
  let u = unpublish_grants_without_link t link.attachment_id
  ok (bump_agent (bump_gateway u attachment.gateway_id) attachment.agent_id)

-- `toggleGrant`
unfoldable pub toggle_grant : State → String → Result NodeError State
toggle_grant s id = do
  old ← or_fail (Dict.get s.grants id) not_found
  let grant = record old { enabled = not old.enabled; published = false }
  ok (
      bump_gateway_for_attachment (record s { grants = Dict.put s.grants grant.id grant })
        grant.attachment_id)

-- The Agent of `toggleEmbeddedAgent`: the one that exists, or a new one.
abbrev pub own_agent : Gateway → ℕ → Option Agent → Agent
own_agent gateway now none = record zero_agent {
  id = gateway_agent_id gateway.id;
  gateway_id = gateway.id;
  name = gateway.name <> " (Gateway)";
  allowed_cidrs = "0.0.0.0/0" ∷ "::/0" ∷ [];
  created_at = now;
}
own_agent gateway now (some agent) = agent

abbrev pub conflicts : Gateway → Option Agent → Bool
conflicts gateway none = false
conflicts gateway (some agent) = not (str_eq agent.gateway_id gateway.id)

-- `toggleEmbeddedAgent`
unfoldable pub toggle_embedded_agent : State → String → ℕ → Result NodeError State
toggle_embedded_agent s id now = do
  old ← or_fail (Dict.get s.gateways id) not_found
  let found = Dict.get s.agents (gateway_agent_id old.id)
  refuse_if (conflicts old found) already_exists
  let gateway = next_gateway (record old { agent_enabled = not old.agent_enabled })
  let agent = next_agent (record (own_agent old now found) { enabled = gateway.agent_enabled })
  ok (embedded_agent_changed (set_gateway s gateway) agent)
