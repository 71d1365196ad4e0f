-- ===== src/Controller/Nodes/Integrity.antt =====
-- Grants and Links stand under attachments that exist, and attachments between nodes that exist.
use xmesh.Common.{
  ℕ, ◌≡◌, ◌≢◌, refl, ap, sym, subst, ◌∙◌, ◌⊎◌, inl, inr, true, Bool-cases, Option, none, some,
  String, str_eq, eq_iff, arith,
}
use xmesh.Common.Dict
use xmesh.Common.Dict.{Dict, get_or, get-put, get-remove}
use xmesh.Common.Derived.{exists, Derived-same, Derived-remove_same, Grows, Grows-put}
use xmesh.Model.{State, Attachment, Link, Grant, Gateway, Agent}
use xmesh.Controller.Usage.{zero_upstream}
use xmesh.Controller.Nodes.Bumps.{next_gateway, next_agent}
use xmesh.Controller.Nodes.Removal.{
  remove_grants, retired_route, without_routes, remove_found, bump_existing_gateway,
  bump_existing_agent, next_if_gateway, next_if_agent,
}
use xmesh.Controller.Nodes.Routes.{
  under, link_under, nodes, Follows, Follows-trans, Same, Same-refl, Same-Follows, retire_link-Same,
}
use xmesh.Controller.Nodes.Rooted.{
  remove_grants-Follows, remove_grants-attachments, remove_grants-left, remove_links-Follows,
  remove_links-attachments, remove_links-left, remove_links-grants,
}

pub record IsRooted (s : State) : Type 0 where
  pub grants :
      (k : String) (g : Grant)
      → Dict.get s.grants k ≡ some g
      → exists (Dict.get s.attachments g.attachment_id) ≡ true
  pub links :
      (k : String) (l : Link)
      → Dict.get s.links k ≡ some l
      → exists (Dict.get s.attachments l.attachment_id) ≡ true

pub record IsPlaced (s : State) : Type 0 where
  pub gateways :
      (k : String) (a : Attachment)
      → Dict.get s.attachments k ≡ some a
      → exists (Dict.get s.gateways a.gateway_id) ≡ true
  pub agents :
      (k : String) (a : Attachment)
      → Dict.get s.attachments k ≡ some a
      → (a.agent_id ≡ "") ⊎ (exists (Dict.get s.agents a.agent_id) ≡ true)

pub IsPlaced-Follows : (s t : State) → IsPlaced s → Follows s t → IsPlaced t
IsPlaced-Follows s t h f = record {
  gateways = λ k a e.
      (let from = f.attachments k a e in
        f.gateways a.gateway_id (
          subst (λ x. exists (Dict.get s.gateways x) ≡ true) (sym (ap (λ p. p.0) from.3))
            (h.gateways from.0 from.1 from.2)));
  agents = λ k a e.
      (let from = f.attachments k a e in
        let same : a.agent_id ≡ from.1.agent_id = ap (λ p. p.1) from.3 in
        elim (h.agents from.0 from.1 from.2) [
          | inl external ↦ inl (same ∙ external)
          | inr there ↦ inr (
              f.agents a.agent_id
                (subst (λ x. exists (Dict.get s.agents x) ≡ true) (sym same) there))
        ]);
}

-- Grants and Links of the old state, under attachments that are all still there.
pub IsRooted-Follows :
    (s t : State) → IsRooted s → Follows s t → Grows s.attachments t.attachments → IsRooted t
IsRooted-Follows s t h f stays = record {
  grants = λ k g e.
      (let from = f.grants k g e in
        stays g.attachment_id (
          subst (λ x. exists (Dict.get s.attachments x) ≡ true) (sym from.3)
            (h.grants from.0 from.1 from.2)));
  links = λ k l e.
      (let from = f.links k l e in
        stays l.attachment_id (
          subst (λ x. exists (Dict.get s.attachments x) ≡ true) (sym from.3)
            (h.links from.0 from.1 from.2)));
}

retired_route-Same :
    (s : State) (id : String) (a : Attachment) (now : ℕ) → Same s (retired_route s id a now)
retired_route-Same s id a now = elim (Bool-cases (str_eq a.upstream_id "")) [
  | inl own ↦ rw own (Same-refl s)
  | inr external ↦
      rw external (
        retire_link-Same s id a (get_or (Dict.get s.upstreams a.upstream_id) zero_upstream).name
          now)
]

module _ (s : State) (id : String) (a : Attachment) (now : ℕ) where
  abbrev first : State
  first = remove_grants s.grants s id now

  abbrev second : State
  second = retired_route first id a now

  first-second : Same first second
  first-second = retired_route-Same first id a now

  without_routes-Follows : Follows s (without_routes s id a now)
  without_routes-Follows =
      Follows-trans s first (without_routes s id a now) (remove_grants-Follows id now s.grants s) (
        Follows-trans first second (without_routes s id a now)
          (Same-Follows first second first-second)
          (remove_links-Follows id now second.links second))

  without_routes-attachments : (without_routes s id a now).attachments ≡ s.attachments
  without_routes-attachments =
      remove_links-attachments id now second.links second
      ∙ (first-second.attachments ∙ remove_grants-attachments id now s.grants s)

  without_routes-grants :
      (k : String) (g : Grant)
      → Dict.get (without_routes s id a now).grants k ≡ some g
      → g.attachment_id ≢ id
  without_routes-grants k g e =
      let kept = remove_grants-left id now s.grants s k g (
        sym (
          ap (λ d. Dict.get d k)
            (remove_links-grants id now second.links second ∙ first-second.grants))
        ∙ e) in
      kept.1 kept.0

  without_routes-links :
      (k : String) (l : Link)
      → Dict.get (without_routes s id a now).links k ≡ some l
      → l.attachment_id ≢ id
  without_routes-links k l e =
      let kept = remove_links-left id now second.links second k l e in kept.1 kept.0

-- The new versions change nothing else.
abbrev SameRoutes : State → State → Type 0
SameRoutes s t =
    (t.grants ≡ s.grants)
    × (t.links ≡ s.links)
    × (t.attachments ≡ s.attachments)
    × Grows s.gateways t.gateways
    × Grows s.agents t.agents

abbrev bumped : State → String → String → State
bumped s id j = bump_existing_agent (bump_existing_gateway s id) j

next_if_gateway-SameRoutes : (s : State) (o : Option Gateway) → SameRoutes s (next_if_gateway s o)
next_if_gateway-SameRoutes s none = (refl, refl, refl, (λ k h. h), (λ k h. h))
next_if_gateway-SameRoutes s (some g) =
    (refl, refl, refl, Grows-put s.gateways g.id (next_gateway g), (λ k h. h))

next_if_agent-SameRoutes : (s : State) (o : Option Agent) → SameRoutes s (next_if_agent s o)
next_if_agent-SameRoutes s none = (refl, refl, refl, (λ k h. h), (λ k h. h))
next_if_agent-SameRoutes s (some a) =
    (refl, refl, refl, (λ k h. h), Grows-put s.agents a.id (next_agent a))

bumped-SameRoutes : (s : State) (id j : String) → SameRoutes s (bumped s id j)
bumped-SameRoutes s id j =
    let t = bump_existing_gateway s id in
    let h = next_if_gateway-SameRoutes s (Dict.get s.gateways id) in
    let g = next_if_agent-SameRoutes t (Dict.get t.agents j) in
    (g.0 ∙ h.0, g.1 ∙ h.1, g.2 ∙ h.2, (λ k e. g.3 k (h.3 k e)), (λ k e. g.4 k (h.4 k e)))

module _ (s : State) (id : String) (a : Attachment) (now : ℕ) where
  abbrev rest : State
  rest = without_routes s id a now

  rest-bumped : SameRoutes rest (bumped rest a.gateway_id a.agent_id)
  rest-bumped = bumped-SameRoutes rest a.gateway_id a.agent_id

  pub remove_found-attachments :
      (remove_found s id a now).attachments ≡ Dict.remove s.attachments id
  unfolding remove_found
  remove_found-attachments =
      ap (λ d. Dict.remove d id) (rest-bumped.2 ∙ without_routes-attachments s id a now)

  pub remove_found-Follows : Follows s (remove_found s id a now)
  unfolding remove_found
  remove_found-Follows =
      Follows-trans s rest (remove_found s id a now) (without_routes-Follows s id a now) (record {
        grants =
            Derived-same under rest.grants (bumped rest a.gateway_id a.agent_id).grants
              rest-bumped.0;
        links =
            Derived-same link_under rest.links (bumped rest a.gateway_id a.agent_id).links
              rest-bumped.1;
        attachments =
            Derived-remove_same nodes rest.attachments
              (bumped rest a.gateway_id a.agent_id).attachments id rest-bumped.2;
        gateways = rest-bumped.3;
        agents = rest-bumped.4;
      })

  pub remove_found-IsRooted : IsRooted s → IsRooted (remove_found s id a now)
  unfolding remove_found
  remove_found-IsRooted h = record {
    grants = λ k g e.
        (let from = remove_found-Follows.grants k g e in
          let away =
            without_routes-grants s id a now k g (ap (λ d. Dict.get d k) (sym rest-bumped.0) ∙ e) in
          stays g.attachment_id away (
            subst (λ x. exists (Dict.get s.attachments x) ≡ true) (sym from.3)
              (h.grants from.0 from.1 from.2)));
    links = λ k l e.
        (let from = remove_found-Follows.links k l e in
          let away =
            without_routes-links s id a now k l (ap (λ d. Dict.get d k) (sym rest-bumped.1) ∙ e) in
          stays l.attachment_id away (
            subst (λ x. exists (Dict.get s.attachments x) ≡ true) (sym from.3)
              (h.links from.0 from.1 from.2)));
  }
    where
      stays :
          (j : String)
          → j ≢ id
          → exists (Dict.get s.attachments j) ≡ true
          → exists (Dict.get (remove_found s id a now).attachments j) ≡ true
      stays j away there =
          rw remove_found-attachments
            (ground (arith, away, there, get-remove s.attachments id j, eq_iff id j))
