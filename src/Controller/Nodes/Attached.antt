-- ===== src/Controller/Nodes/Attached.antt =====
-- The handlers that make attachments keep the routes whole.
use xmesh.Common.{
  ℕ, ◌≡◌, refl, subst, ◌⊎◌, inl, inr, true, ◌&&◌, not, Bool-cases, String, str_eq, arith, Holds,
  refuse_if-Holds,
}
use xmesh.Common.Dict
use xmesh.Common.Dict.{Dict, get_or, get-put, get-remove}
use xmesh.Common.Derived.{exists, Grows-put}
use xmesh.Model.{State, Attachment}
use xmesh.Controller.Usage.{zero_attachment}
use xmesh.Controller.Nodes.Bumps.{bump_gateway, bump_agent}
use xmesh.Controller.Nodes.Handlers.{create_attachment, attach_upstream, any_attachment}
use xmesh.Controller.Nodes.Deletions.{IsWhole}
use xmesh.Controller.Nodes.Changes.{Mild-IsWhole, Mild-trans, put_gateway-Mild, put_agent-Mild}

-- A new attachment between nodes that exist.
put_attachment-IsWhole :
    (s : State) (id : String) (a : Attachment)
    → exists (Dict.get s.gateways a.gateway_id) ≡ true
    → (a.agent_id ≡ "") ⊎ (exists (Dict.get s.agents a.agent_id) ≡ true)
    → IsWhole s
    → IsWhole (record s { attachments = Dict.put s.attachments id a })
put_attachment-IsWhole s id a there near h = record {
  rooted = record {
    grants = λ k g e. Grows-put s.attachments id a g.attachment_id (h.rooted.grants k g e);
    links = λ k l e. Grows-put s.attachments id a l.attachment_id (h.rooted.links k l e);
  };
  placed = record {
    gateways =
        λ k b e. ground (arith, e, there, get-put s.attachments id k a, h.placed.gateways k b);
    agents = λ k b e. elim (Bool-cases (str_eq id k)) [
      | inl new ↦
          let same : a ≡ b = ground (arith, e, new, get-put s.attachments id k a) in
          subst
            (λ (x : Attachment). (x.agent_id ≡ "") ⊎ (exists (Dict.get s.agents x.agent_id) ≡ true))
            same near
      | inr old ↦ h.placed.agents k b (ground (arith, e, old, get-put s.attachments id k a))
    ];
  };
}

pub create_attachment-IsWhole :
    (s : State) (id gateway_id agent_id : String) (now : ℕ)
    → IsWhole s
    → Holds IsWhole (create_attachment s id gateway_id agent_id now)
unfolding create_attachment
create_attachment-IsWhole s id gateway_id agent_id now h =
    refuse_if-Holds IsWhole (not (exists (Dict.get s.gateways gateway_id))) _ _ λ there.
      refuse_if-Holds IsWhole (not (exists (Dict.get s.agents agent_id))) _ _ λ near.
        refuse_if-Holds IsWhole
          (any_attachment (λ a. str_eq a.gateway_id gateway_id && str_eq a.agent_id agent_id)
            s.attachments)
          _ _
          λ _.
            (let a = record zero_attachment {
              id = id;
              gateway_id = gateway_id;
              agent_id = agent_id;
              enabled = true;
              created_at = now;
            } in
              let t = record s { attachments = Dict.put s.attachments id a } in
              let u = bump_gateway t gateway_id in
              Mild-IsWhole t (bump_agent u agent_id)
                (put_attachment-IsWhole s id a (ground (arith, there)) (inr (ground (arith, near)))
                  h)
                (Mild-trans t u (bump_agent u agent_id) (put_gateway-Mild t gateway_id _)
                  (put_agent-Mild u agent_id _)))

pub attach_upstream-IsWhole :
    (s : State) (id gateway_id upstream_id : String) (now : ℕ)
    → IsWhole s
    → Holds IsWhole (attach_upstream s id gateway_id upstream_id now)
unfolding attach_upstream
attach_upstream-IsWhole s id gateway_id upstream_id now h =
    refuse_if-Holds IsWhole (not (exists (Dict.get s.gateways gateway_id))) _ _ λ there.
      refuse_if-Holds IsWhole (not (exists (Dict.get s.upstreams upstream_id))) _ _ λ _.
        refuse_if-Holds IsWhole
          (any_attachment (λ a. str_eq a.gateway_id gateway_id && str_eq a.upstream_id upstream_id)
            s.attachments)
          _ _
          λ _.
            (let a = record zero_attachment {
              id = id;
              gateway_id = gateway_id;
              upstream_id = upstream_id;
              enabled = true;
              created_at = now;
            } in
              let t = record s { attachments = Dict.put s.attachments id a } in
              Mild-IsWhole t (bump_gateway t gateway_id)
                (put_attachment-IsWhole s id a (ground (arith, there)) (inl refl) h)
                (put_gateway-Mild t gateway_id _))
