-- ===== src/Controller/Nodes/Switched.antt =====
-- The handlers that switch on or off keep the routes whole.
use xmesh.Common.{
  ℕ, refl, false, not, Option, none, some, [], ◌∷◌, String, str_eq, if◌then◌else◌, if_holds, Holds,
  refuse_if-Holds, or_fail-Holds,
}
use xmesh.Common.Dict
use xmesh.Common.Dict.{Dict, get_or, get-put, get-remove}
use xmesh.Common.Derived.{Derived-put}
use xmesh.Model.{State, Grant, Agent}
use xmesh.Controller.Usage.{zero_attachment}
use xmesh.Controller.Nodes.Bumps.{
  zero_gateway, next_gateway, next_agent, set_gateway, set_agent, bump_gateway, bump_agent,
  bump_gateway_for_attachment, unpublish, is_under, unpublish_grants_without_link,
  change_attachments, embedded_agent_changed,
}
use xmesh.Controller.Nodes.Handlers.{embedded_agent, gateway_agent_id}
use xmesh.Controller.Nodes.Switches.{
  toggle_user, toggle_gateway, toggle_agent, toggle_attachment, toggle_link, toggle_grant,
  toggle_embedded_agent, is_of_user, bump_gateways_of_user, with_embedded, switch_embedded,
  is_through, own_agent, conflicts,
}
use xmesh.Controller.Nodes.Routes.{under}
use xmesh.Controller.Nodes.Deletions.{IsWhole}
use xmesh.Controller.Nodes.Changes.{
  Mild, Mild-IsWhole, Mild-refl, Mild-trans, put_gateway-Mild, put_agent-Mild, grants-Mild,
  put_link-Mild, put_attachment-Mild, bump_gateway_for_attachment-Mild, unpublish-Mild,
  unpublish_grants_without_link-Mild, change_attachments-Mild, embedded_agent_changed-Mild,
}

bump_gateways_of_user-Mild :
    (user : String) (d : Dict Grant) (s : State) → Mild s (bump_gateways_of_user user d s)
unfolding bump_gateways_of_user
bump_gateways_of_user-Mild user [] s = Mild-refl s
bump_gateways_of_user-Mild user ((k, g) ∷ d) s =
    let t = bump_gateway_for_attachment s g.attachment_id in
    let u = if is_of_user user g then t else s in
    Mild-trans s u (bump_gateways_of_user user d u)
      (if_holds (Mild s) (is_of_user user g) t s
        (λ _. bump_gateway_for_attachment-Mild s g.attachment_id) (λ _. Mild-refl s))
      (bump_gateways_of_user-Mild user d u)

pub toggle_user-IsWhole : (s : State) (id : String) → IsWhole s → Holds IsWhole (toggle_user s id)
unfolding toggle_user
toggle_user-IsWhole s id h = or_fail-Holds IsWhole (Dict.get s.users id) _ _ λ user _.
    (let t = record s {
      users = Dict.put s.users id (record user { enabled = not user.enabled });
    } in
      let u = bump_gateways_of_user id t.grants t in
      let whole : IsWhole t = record {
        rooted = record { grants = h.rooted.grants; links = h.rooted.links };
        placed = record { gateways = h.placed.gateways; agents = h.placed.agents };
      } in
      Mild-IsWhole t (unpublish (is_of_user id) u) whole (
        Mild-trans t u (unpublish (is_of_user id) u) (bump_gateways_of_user-Mild id t.grants t)
          (unpublish-Mild (is_of_user id) u)))

with_embedded-Mild : (s : State) (o : Option Agent) → Mild s (with_embedded s o)
with_embedded-Mild s none = Mild-refl s
with_embedded-Mild s (some agent) = embedded_agent_changed-Mild s (next_agent agent)

pub toggle_gateway-IsWhole :
    (s : State) (id : String) → IsWhole s → Holds IsWhole (toggle_gateway s id)
unfolding toggle_gateway
toggle_gateway-IsWhole s id h = or_fail-Holds IsWhole (Dict.get s.gateways id) _ _ λ old _.
    (let gateway = next_gateway (record old { enabled = not old.enabled }) in
      let t = set_gateway s gateway in
      let u = with_embedded t (embedded_agent t gateway) in
      let v = unpublish (is_through u.attachments gateway.id) u in
      let mild =
        Mild-trans s t u (put_gateway-Mild s gateway.id gateway)
          (with_embedded-Mild t (embedded_agent t gateway)) in
      if_holds IsWhole gateway.enabled u v (λ _. Mild-IsWhole s u h mild)
        (λ _.
          Mild-IsWhole s v h
            (Mild-trans s u v mild (unpublish-Mild (is_through u.attachments gateway.id) u))))

switch_embedded-Mild : (s : State) (agent : Agent) → Mild s (switch_embedded s agent)
switch_embedded-Mild s agent =
    let w = next_gateway (record (get_or (Dict.get s.gateways agent.gateway_id) zero_gateway) {
      agent_enabled = agent.enabled;
    }) in
    if_holds (Mild s) (str_eq agent.gateway_id "") s (set_gateway s w) (λ _. Mild-refl s)
      (λ _. put_gateway-Mild s w.id w)

pub toggle_agent-IsWhole : (s : State) (id : String) → IsWhole s → Holds IsWhole (toggle_agent s id)
unfolding toggle_agent
toggle_agent-IsWhole s id h = or_fail-Holds IsWhole (Dict.get s.agents id) _ _ λ old _.
    (let agent = next_agent (record old { enabled = not old.enabled }) in
      let t = set_agent s agent in
      let u = switch_embedded t agent in
      let v = change_attachments (not agent.enabled) agent.id u.attachments u in
      Mild-IsWhole s v h (
        Mild-trans s t v (put_agent-Mild s agent.id agent) (
          Mild-trans t u v (switch_embedded-Mild t agent)
            (change_attachments-Mild (not agent.enabled) agent.id u.attachments u))))

pub toggle_attachment-IsWhole :
    (s : State) (id : String) → IsWhole s → Holds IsWhole (toggle_attachment s id)
unfolding toggle_attachment
toggle_attachment-IsWhole s id h = or_fail-Holds IsWhole (Dict.get s.attachments id) _ _ λ old e.
    (let a = record old { enabled = not old.enabled } in
      let t = record s { attachments = Dict.put s.attachments a.id a } in
      let u = bump_gateway t a.gateway_id in
      let v = if str_eq a.agent_id "" then u else bump_agent u a.agent_id in
      let w = unpublish (is_under a.id) v in
      let mild : Mild s v = Mild-trans s t v (put_attachment-Mild s id a.id old a e refl) (
        Mild-trans t u v (put_gateway-Mild t a.gateway_id _) (
          if_holds (Mild u) (str_eq a.agent_id "") u (bump_agent u a.agent_id) (λ _. Mild-refl u)
            (λ _. put_agent-Mild u a.agent_id _))) in
      if_holds IsWhole a.enabled v w (λ _. Mild-IsWhole s v h mild)
        (λ _. Mild-IsWhole s w h (Mild-trans s v w mild (unpublish-Mild (is_under a.id) v))))

pub toggle_link-IsWhole : (s : State) (id : String) → IsWhole s → Holds IsWhole (toggle_link s id)
unfolding toggle_link
toggle_link-IsWhole s id h = or_fail-Holds IsWhole (Dict.get s.links id) _ _ λ old e.
    (let link = record old { enabled = not old.enabled } in
      let t = record s { links = Dict.put s.links link.id link } in
      let a = get_or (Dict.get t.attachments link.attachment_id) zero_attachment in
      let u = unpublish_grants_without_link t link.attachment_id in
      let v = bump_gateway u a.gateway_id in
      let w = bump_agent v a.agent_id in
      Mild-IsWhole s w h (
        Mild-trans s t w (put_link-Mild s id link.id old link e refl) (
          Mild-trans t u w (unpublish_grants_without_link-Mild t link.attachment_id) (
            Mild-trans u v w (put_gateway-Mild u a.gateway_id _) (put_agent-Mild v a.agent_id _)))))

pub toggle_grant-IsWhole : (s : State) (id : String) → IsWhole s → Holds IsWhole (toggle_grant s id)
unfolding toggle_grant
toggle_grant-IsWhole s id h = or_fail-Holds IsWhole (Dict.get s.grants id) _ _ λ old e.
    (let grant = record old { enabled = not old.enabled; published = false } in
      let t = record s { grants = Dict.put s.grants grant.id grant } in
      let u = bump_gateway_for_attachment t grant.attachment_id in
      Mild-IsWhole s u h (
        Mild-trans s t u
          (grants-Mild s (Dict.put s.grants grant.id grant)
            (Derived-put under s.grants id grant.id old grant e refl))
          (bump_gateway_for_attachment-Mild t grant.attachment_id)))

pub toggle_embedded_agent-IsWhole :
    (s : State) (id : String) (now : ℕ) → IsWhole s → Holds IsWhole (toggle_embedded_agent s id now)
unfolding toggle_embedded_agent
toggle_embedded_agent-IsWhole s id now h =
    or_fail-Holds IsWhole (Dict.get s.gateways id) _ _ λ old _.
      (let found = Dict.get s.agents (gateway_agent_id old.id) in
        refuse_if-Holds IsWhole (conflicts old found) _ _ λ _.
          (let gateway = next_gateway (record old { agent_enabled = not old.agent_enabled }) in
            let agent =
              next_agent (record (own_agent old now found) { enabled = gateway.agent_enabled }) in
            let t = set_gateway s gateway in
            Mild-IsWhole s (embedded_agent_changed t agent) h (
              Mild-trans s t (embedded_agent_changed t agent)
                (put_gateway-Mild s gateway.id gateway) (embedded_agent_changed-Mild t agent))))
