-- ===== src/Controller/Nodes/Tests.antt =====
-- Witnesses of the theorems on nodes and routes: a Gateway, an Agent, and a route between them.
use xmesh.Common.{◌≡◌, refl, subst, inr, Bool, true, false, some, [], ◌∷◌, Result, ok, err}
use xmesh.Common.Dict
use xmesh.Common.Dict.{Dict, get-single}
use xmesh.Common.Derived.{exists}
use xmesh.Common.Int.{pos}
use xmesh.Model.{State, new_state, User, Gateway, Agent, Attachment, Link, Grant}
use xmesh.Controller.Usage.{zero_attachment}
use xmesh.Controller.Retired.{
  retire_grant, retire_link, names_of_links, names_of_retired, drop_counters, ends_with,
}
use xmesh.Controller.Upgrades.Pairing.{has_active}
use xmesh.Controller.Upgrades.Create.{one_of_ids}
use xmesh.Controller.Nodes.Bumps.{
  zero_gateway, zero_agent, unpublished, change_attachments, embedded_agent_changed,
}
use xmesh.Controller.Nodes.Removal.{
  remove_grant, remove_link, remove_grants, remove_links, remove_found, remove_attachment,
  remove_attachments, remove_node_references, drop_where, drop_keys,
}
use xmesh.Controller.Nodes.Handlers.{NodeError, delete_agent}
use xmesh.Controller.Nodes.Switches.{toggle_user, toggle_gateway, bump_gateways_of_user}
use xmesh.Controller.Nodes.Deletions.{IsWhole}
use xmesh.Controller.Nodes.Edits.{here, more, deletes_agent, Edits-IsWhole}
use xmesh.Controller.Nodes.Unpublished.{toggle_user-unpublished, toggle_gateway-unpublished}

abbrev gateway : Gateway
gateway = record zero_gateway { id = "gw"; name = "Gateway"; enabled = true }

abbrev agent : Agent
agent = record zero_agent { id = "ag"; name = "Agent"; enabled = true }

abbrev route : Attachment
route = record zero_attachment { id = "x"; gateway_id = "gw"; agent_id = "ag"; enabled = true }

abbrev link : Link
link = record {
  id = "l";
  attachment_id = "x";
  name = "Link";
  url = "";
  priority = pos 1;
  weight = pos 1;
  connections = pos 1;
  max_streams = pos 8;
  enabled = true;
  created_at = 0;
}

abbrev grant : Bool → Grant
grant published = record {
  id = "g";
  user_id = "u";
  attachment_id = "x";
  vmess_uuid = "";
  enabled = true;
  published = published;
  created_at = 0;
}

abbrev user : User
user = record {
  audit_enabled = false;
  audit_generation = 0;
  audit_limit_mb = pos 0;
  id = "u";
  name = "User";
  enabled = true;
  subscription_token = "";
  subscription_token_hash = "";
  subscription_token_cipher = "";
  created_at = 0;
}

abbrev routed : State
routed = record new_state {
  users = ("u", user) ∷ [];
  gateways = ("gw", gateway) ∷ [];
  agents = ("ag", agent) ∷ [];
  attachments = ("x", route) ∷ [];
  links = ("l", link) ∷ [];
  grants = ("g", grant true) ∷ [];
}

routed-IsWhole : IsWhole routed
unfolding Dict.get
routed-IsWhole = record {
  rooted = record {
    grants = λ k g e.
        subst (λ (g : Grant). exists (Dict.get routed.attachments g.attachment_id) ≡ true)
          (get-single "g" k (grant true) g e).1 refl;
    links = λ k l e.
        subst (λ (l : Link). exists (Dict.get routed.attachments l.attachment_id) ≡ true)
          (get-single "l" k link l e).1 refl;
  };
  placed = record {
    gateways = λ k a e.
        subst (λ (a : Attachment). exists (Dict.get routed.gateways a.gateway_id) ≡ true)
          (get-single "x" k route a e).1 refl;
    agents = λ k a e. inr (
        subst (λ (a : Attachment). exists (Dict.get routed.agents a.agent_id) ≡ true)
          (get-single "x" k route a e).1 refl);
  };
}

abbrev outcome : Result NodeError State → State
outcome (ok t) = t
outcome (err e) = new_state

-- The Agent is deleted, and the route with its grant and its Link goes along.
abbrev deleted : Result NodeError State
deleted = delete_agent routed "ag" "Agent" 10

deleted-ok : deleted ≡ ok (outcome deleted)
unfolding delete_agent has_active remove_node_references remove_attachments remove_attachment
    remove_found remove_grants remove_links remove_grant remove_link retire_grant retire_link
    names_of_links names_of_retired drop_counters drop_where drop_keys one_of_ids ends_with Dict.get
    Dict.put Dict.remove
deleted-ok = refl

Edits-IsWhole_example : IsWhole (outcome deleted)
Edits-IsWhole_example =
    Edits-IsWhole routed (outcome deleted) routed-IsWhole
      (more here (deletes_agent "ag" "Agent" 10 deleted-ok))

abbrev toggled : Result NodeError State
toggled = toggle_user routed "u"

toggled-ok : toggled ≡ ok (outcome toggled)
unfolding toggle_user bump_gateways_of_user unpublished Dict.get Dict.put
toggled-ok = refl

toggled-grant : Dict.get (outcome toggled).grants "g" ≡ some (grant false)
unfolding toggle_user bump_gateways_of_user unpublished Dict.get Dict.put
toggled-grant = refl

toggle_user-unpublished_example : (grant false).published ≡ false
toggle_user-unpublished_example =
    toggle_user-unpublished routed (outcome toggled) "u" "g" (grant false) toggled-ok toggled-grant
      refl

abbrev switched : Result NodeError State
switched = toggle_gateway routed "gw"

switched-ok : switched ≡ ok (outcome switched)
unfolding toggle_gateway embedded_agent_changed change_attachments unpublished Dict.get Dict.put
switched-ok = refl

switched-grant : Dict.get (outcome switched).grants "g" ≡ some (grant false)
unfolding toggle_gateway embedded_agent_changed change_attachments unpublished Dict.get Dict.put
switched-grant = refl

switched-route : Dict.get (outcome switched).attachments "x" ≡ some route
unfolding toggle_gateway embedded_agent_changed change_attachments unpublished Dict.get Dict.put
switched-route = refl

gateway-found : Dict.get routed.gateways "gw" ≡ some gateway
unfolding Dict.get
gateway-found = refl

toggle_gateway-unpublished_example : (grant false).published ≡ false
toggle_gateway-unpublished_example =
    toggle_gateway-unpublished routed (outcome switched) "gw" gateway "g" (grant false) route
      gateway-found refl switched-ok switched-grant switched-route refl
