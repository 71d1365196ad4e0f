-- ===== src/Controller/Nodes/Whole.antt =====
-- The handlers that delete keep the routes whole.
use xmesh.Common.{
  ℕ, ◌≡◌, refl, ap, sym, subst, ◌∙◌, inl, inr, Bool, true, false, ◌||◌, ◌&&◌, not, Option, none,
  some, List, [], ◌∷◌, String, str_eq, eq_iff, arith, if_holds, Holds, refuse_if-Holds,
  or_fail-Holds,
}
use xmesh.Common.Dict
use xmesh.Common.Dict.{Dict, get_or, get-put, get-remove}
use xmesh.Common.Derived.{exists, Grows-put}
use xmesh.Model.{State, Attachment, Gateway, Agent}
use xmesh.Controller.Usage.{zero_attachment}
use xmesh.Controller.Upgrades.Create.{one_of_ids}
use xmesh.Controller.Nodes.Bumps.{
  zero_gateway, next_gateway, set_gateway, bump_gateway, bump_agent, bump_gateway_for_attachment,
  unpublish_grants_without_link,
}
use xmesh.Controller.Nodes.Removal.{
  remove_grant, remove_link, remove_attachment, remove_attachments, remove_node_references,
}
use xmesh.Controller.Nodes.Handlers.{
  delete_gateway, delete_agent, delete_link, delete_grant, embedded_agent, without_gateway,
  removed_ids, without_agent, node_has_active_upgrade, delete_attachment, delete_upstream,
}
use xmesh.Controller.Nodes.Integrity.{IsRooted, IsPlaced-Follows}
use xmesh.Controller.Nodes.Deletions.{
  IsWhole, remove_attachment-Follows, remove_attachment-IsRooted, remove_attachments-Follows,
  remove_attachments-IsRooted, remove_node_references-Follows, remove_node_references-IsRooted,
  remove_node_references-left,
}
use xmesh.Controller.Nodes.Changes.{
  Mild-IsWhole, Mild-trans, put_gateway-Mild, put_agent-Mild, bump_gateway_for_attachment-Mild,
  unpublish_grants_without_link-Mild, remove_grant-Mild, remove_link-Mild,
}

-- The nodes with these IDs are gone, and the others are still there.
without-IsWhole :
    (s t : State) (removed : List String) (now : ℕ)
    → IsWhole s
    → t.grants ≡ s.grants
    → t.links ≡ s.links
    → t.attachments ≡ s.attachments
    → ((k : String)
        → one_of_ids k removed ≡ false
        → exists (Dict.get s.gateways k) ≡ true
        → exists (Dict.get t.gateways k) ≡ true)
    → ((k : String)
        → one_of_ids k removed ≡ false
        → exists (Dict.get s.agents k) ≡ true
        → exists (Dict.get t.agents k) ≡ true)
    → IsWhole (remove_node_references t removed now)
without-IsWhole s t removed now h gs ls ats gateways agents =
    let rooted : IsRooted t = record {
      grants = λ k g e.
          subst (λ d. exists (Dict.get d g.attachment_id) ≡ true) (sym ats)
            (h.rooted.grants k g (ap (λ d. Dict.get d k) (sym gs) ∙ e));
      links = λ k l e.
          subst (λ d. exists (Dict.get d l.attachment_id) ≡ true) (sym ats)
            (h.rooted.links k l (ap (λ d. Dict.get d k) (sym ls) ∙ e));
    } in
    let follows = remove_node_references-Follows now t removed in
    record {
      rooted = remove_node_references-IsRooted now t removed rooted;
      placed = record {
        gateways = λ k a e.
            (let left = remove_node_references-left now t removed k a e in
              follows.gateways a.gateway_id (
                gateways a.gateway_id (ground (arith, left.1))
                  (h.placed.gateways k a (ap (λ d. Dict.get d k) (sym ats) ∙ left.0))));
        agents = λ k a e.
            (let left = remove_node_references-left now t removed k a e in
              elim (h.placed.agents k a (ap (λ d. Dict.get d k) (sym ats) ∙ left.0)) [
                | inl external ↦ inl external
                | inr there ↦
                    inr
                      (follows.agents a.agent_id (agents a.agent_id (ground (arith, left.1)) there))
              ]);
      };
    }

without_gateway-IsWhole :
    (s : State) (gateway : Gateway) (o : Option Agent) (now : ℕ)
    → IsWhole s
    → IsWhole (remove_node_references (without_gateway s gateway o) (removed_ids gateway o) now)
unfolding one_of_ids
without_gateway-IsWhole s gateway none now h =
    without-IsWhole s (without_gateway s gateway none) (removed_ids gateway none) now h refl refl
      refl
      (λ k other there. ground (
        arith,
        other,
        there,
        get-remove s.gateways gateway.id k,
        eq_iff k gateway.id,
        eq_iff gateway.id k,
      ))
      (λ k other there. there)
without_gateway-IsWhole s gateway (some agent) now h =
    without-IsWhole s (without_gateway s gateway (some agent)) (removed_ids gateway (some agent))
      now h refl refl refl
      (λ k other there. ground (
        arith,
        other,
        there,
        get-remove s.gateways gateway.id k,
        eq_iff k gateway.id,
        eq_iff gateway.id k,
      ))
      (λ k other there.
        ground (
          arith,
          other,
          there,
          get-remove s.agents agent.id k,
          eq_iff k agent.id,
          eq_iff agent.id k,
        ))

pub delete_gateway-IsWhole :
    (s : State) (id confirm : String) (now : ℕ)
    → IsWhole s
    → Holds IsWhole (delete_gateway s id confirm now)
unfolding delete_gateway
delete_gateway-IsWhole s id confirm now h =
    or_fail-Holds IsWhole (Dict.get s.gateways id) _ _ λ gateway _.
      refuse_if-Holds IsWhole (not (str_eq confirm gateway.name)) _ _ λ _.
        refuse_if-Holds IsWhole (node_has_active_upgrade s gateway.id) _ _
          λ _. without_gateway-IsWhole s gateway (embedded_agent s gateway) now h

-- The Agent is deleted, and a Gateway may be written.
without_agent-IsWhole :
    (s : State) (agent : Agent) (now : ℕ)
    → IsWhole s
    → IsWhole (remove_node_references (without_agent s agent) (agent.id ∷ []) now)
unfolding one_of_ids
without_agent-IsWhole s agent now h =
    let others : (k : String)
        → one_of_ids k (agent.id ∷ []) ≡ false
        → exists (Dict.get s.agents k) ≡ true
        → exists (Dict.get (Dict.remove s.agents agent.id) k) ≡ true =
      λ k other there. ground (
        arith,
        other,
        there,
        get-remove s.agents agent.id k,
        eq_iff k agent.id,
        eq_iff agent.id k,
      ) in
    let u = record s { agents = Dict.remove s.agents agent.id } in
    let off = next_gateway (record (get_or (Dict.get u.gateways agent.gateway_id) zero_gateway) {
      agent_enabled = false;
    }) in
    if_holds (λ t. IsWhole (remove_node_references t (agent.id ∷ []) now))
      (str_eq agent.gateway_id "") u (set_gateway u off)
      (λ _.
        without-IsWhole s u (agent.id ∷ []) now h refl refl refl (λ k other there. there) others)
      (λ _.
        without-IsWhole s (set_gateway u off) (agent.id ∷ []) now h refl refl refl
          (λ k other there. Grows-put s.gateways off.id off k there) others)

pub delete_agent-IsWhole :
    (s : State) (id confirm : String) (now : ℕ)
    → IsWhole s
    → Holds IsWhole (delete_agent s id confirm now)
unfolding delete_agent
delete_agent-IsWhole s id confirm now h =
    or_fail-Holds IsWhole (Dict.get s.agents id) _ _ λ agent _.
      refuse_if-Holds IsWhole (not (str_eq confirm agent.name)) _ _ λ _.
        refuse_if-Holds IsWhole
          (node_has_active_upgrade s agent.id
            || (not (str_eq agent.gateway_id "") && node_has_active_upgrade s agent.gateway_id))
          _ _ λ _. without_agent-IsWhole s agent now h

pub delete_attachment-IsWhole :
    (s : State) (id confirm : String) (now : ℕ)
    → IsWhole s
    → Holds IsWhole (delete_attachment s id confirm now)
unfolding delete_attachment
delete_attachment-IsWhole s id confirm now h =
    or_fail-Holds IsWhole (Dict.get s.attachments id) _ _ λ attachment _.
      refuse_if-Holds IsWhole (not (str_eq confirm id)) _ _ λ _. record {
        rooted = remove_attachment-IsRooted now s id h.rooted;
        placed =
            IsPlaced-Follows s (remove_attachment s id now) h.placed
              (remove_attachment-Follows now s id);
      }

pub delete_upstream-IsWhole :
    (s : State) (id confirm : String) (now : ℕ)
    → IsWhole s
    → Holds IsWhole (delete_upstream s id confirm now)
unfolding delete_upstream
delete_upstream-IsWhole s id confirm now h =
    or_fail-Holds IsWhole (Dict.get s.upstreams id) _ _ λ upstream _.
      refuse_if-Holds IsWhole (not (str_eq confirm upstream.name)) _ _ λ _.
        (let test : Attachment → Bool = λ a. str_eq a.upstream_id upstream.id in
          let t = remove_attachments test s.attachments s now in
          let r = remove_attachments-IsRooted now test s.attachments s h.rooted in
          let p =
            IsPlaced-Follows s t h.placed (remove_attachments-Follows now test s.attachments s) in
          record {
            rooted = record { grants = r.grants; links = r.links };
            placed = record { gateways = p.gateways; agents = p.agents };
          })

pub delete_link-IsWhole :
    (s : State) (id confirm : String) (now : ℕ)
    → IsWhole s
    → Holds IsWhole (delete_link s id confirm now)
unfolding delete_link
delete_link-IsWhole s id confirm now h = or_fail-Holds IsWhole (Dict.get s.links id) _ _ λ link _.
    refuse_if-Holds IsWhole (not (str_eq confirm link.name)) _ _ λ _.
      (let attachment = get_or (Dict.get s.attachments link.attachment_id) zero_attachment in
        let t = remove_link s link.id now in
        let u = unpublish_grants_without_link t attachment.id in
        let v = bump_gateway u attachment.gateway_id in
        let w = bump_agent v attachment.agent_id in
        Mild-IsWhole s w h (
          Mild-trans s t w (remove_link-Mild s link.id now) (
            Mild-trans t u w (unpublish_grants_without_link-Mild t attachment.id) (
              Mild-trans u v w (put_gateway-Mild u attachment.gateway_id _)
                (put_agent-Mild v attachment.agent_id _)))))

pub delete_grant-IsWhole :
    (s : State) (id confirm : String) (now : ℕ)
    → IsWhole s
    → Holds IsWhole (delete_grant s id confirm now)
unfolding delete_grant
delete_grant-IsWhole s id confirm now h =
    or_fail-Holds IsWhole (Dict.get s.grants id) _ _ λ grant _.
      refuse_if-Holds IsWhole (not (str_eq confirm id)) _ _ λ _.
        (let t = remove_grant s id now in
          let u = bump_gateway_for_attachment t grant.attachment_id in
          Mild-IsWhole s u h (
            Mild-trans s t u (remove_grant-Mild s id now)
              (bump_gateway_for_attachment-Mild t grant.attachment_id)))
