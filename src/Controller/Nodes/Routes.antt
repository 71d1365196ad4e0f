-- ===== src/Controller/Nodes/Routes.antt =====
-- What a change leaves of the routes: no new grants, Links or attachments, and no node less.
use xmesh.Common.{
  ℕ, ◌≡◌, refl, ap, sym, subst, inl, inr, Bool-cases, Option, none, some, String, str_eq,
}
use xmesh.Common.Dict
use xmesh.Common.Dict.{Dict, get_or, get-put, get-remove}
use xmesh.Common.Derived.{
  Derived, Grows, Derived-refl, Derived-trans, Derived-remove, Derived-same, Derived-remove_same,
  Grows-same,
}
use xmesh.Model.{State, Attachment, Link, Grant, Gateway}
use xmesh.Controller.Usage.{zero_attachment}
use xmesh.Controller.Retired.{retire_grant, retire_link, retired_link}
use xmesh.Controller.Nodes.Removal.{remove_grant, remove_link}

abbrev pub under : Grant → String
under g = g.attachment_id

abbrev pub link_under : Link → String
link_under l = l.attachment_id

abbrev pub nodes : Attachment → String × String
nodes a = (a.gateway_id, a.agent_id)

pub record Follows (s t : State) : Type 0 where
  pub grants : Derived under s.grants t.grants
  pub links : Derived link_under s.links t.links
  pub attachments : Derived nodes s.attachments t.attachments
  pub gateways : Grows s.gateways t.gateways
  pub agents : Grows s.agents t.agents

pub Follows-refl : (s : State) → Follows s s
Follows-refl s = record {
  grants = Derived-refl under s.grants;
  links = Derived-refl link_under s.links;
  attachments = Derived-refl nodes s.attachments;
  gateways = λ k h. h;
  agents = λ k h. h;
}

pub Follows-trans : (s t u : State) → Follows s t → Follows t u → Follows s u
Follows-trans s t u h g = record {
  grants = Derived-trans under s.grants t.grants u.grants h.grants g.grants;
  links = Derived-trans link_under s.links t.links u.links h.links g.links;
  attachments =
      Derived-trans nodes s.attachments t.attachments u.attachments h.attachments g.attachments;
  gateways = λ k e. g.gateways k (h.gateways k e);
  agents = λ k e. g.agents k (h.agents k e);
}

-- Nothing of the routes and the nodes changes.
pub record Same (s t : State) : Type 0 where
  pub grants : t.grants ≡ s.grants
  pub links : t.links ≡ s.links
  pub attachments : t.attachments ≡ s.attachments
  pub gateways : t.gateways ≡ s.gateways
  pub agents : t.agents ≡ s.agents

pub Same-refl : (s : State) → Same s s
Same-refl s = record {
  grants = refl;
  links = refl;
  attachments = refl;
  gateways = refl;
  agents = refl;
}

pub Same-Follows : (s t : State) → Same s t → Follows s t
Same-Follows s t h = record {
  grants = subst (Derived under s.grants) (sym h.grants) (Derived-refl under s.grants);
  links = subst (Derived link_under s.links) (sym h.links) (Derived-refl link_under s.links);
  attachments =
      subst (Derived nodes s.attachments) (sym h.attachments) (Derived-refl nodes s.attachments);
  gateways = subst (Grows s.gateways) (sym h.gateways) (λ k e. e);
  agents = subst (Grows s.agents) (sym h.agents) (λ k e. e);
}

pub retire_grant-Same : (s : State) (g : Grant) (now : ℕ) → Same s (retire_grant s g now)
unfolding retire_grant
retire_grant-Same s g now = go (Dict.get s.attachments g.attachment_id) refl
  where
    go :
        (o : Option Attachment)
        → Dict.get s.attachments g.attachment_id ≡ o
        → Same s (retire_grant s g now)
    go none e = rw (retire_grant, e) (Same-refl s)
    go (some a) e = inner (Dict.get s.gateways a.gateway_id) refl
      where
        inner :
            (o : Option Gateway)
            → Dict.get s.gateways a.gateway_id ≡ o
            → Same s (retire_grant s g now)
        inner none f = rw (retire_grant, e, f) (Same-refl s)
        inner (some w) f =
            rw (retire_grant, e, f)
              (record {
                grants = refl;
                links = refl;
                attachments = refl;
                gateways = refl;
                agents = refl;
              })

pub retire_link-Same :
    (s : State) (id : String) (a : Attachment) (name : String) (now : ℕ)
    → Same s (retire_link s id a name now)
unfolding retire_link
retire_link-Same s id a name now = elim (Bool-cases (str_eq a.id "")) [
  | inl missing ↦ rw missing (Same-refl s)
  | inr found ↦ rw found (go (Dict.get s.gateways a.gateway_id) refl)
]
  where
    go :
        (o : Option Gateway)
        → Dict.get s.gateways a.gateway_id ≡ o
        → Same s (elim o [
          | none ↦ s
          | some gateway ↦ record s {
            retired_links = Dict.put s.retired_links id (retired_link s a name now gateway);
          }
        ])
    go none e = Same-refl s
    go (some w) e = record {
      grants = refl;
      links = refl;
      attachments = refl;
      gateways = refl;
      agents = refl;
    }

pub remove_grant-Follows : (s : State) (id : String) (now : ℕ) → Follows s (remove_grant s id now)
unfolding remove_grant
remove_grant-Follows s id now = go (Dict.get s.grants id) refl
  where
    go : (o : Option Grant) → Dict.get s.grants id ≡ o → Follows s (remove_grant s id now)
    go none e =
        rw (remove_grant, e)
          (record {
            grants = Derived-remove under s.grants id;
            links = Derived-refl link_under s.links;
            attachments = Derived-refl nodes s.attachments;
            gateways = λ k h. h;
            agents = λ k h. h;
          })
    go (some g) e =
        let h = retire_grant-Same s g now in
        rw (remove_grant, e)
          (record {
            grants = Derived-remove_same under s.grants (retire_grant s g now).grants id h.grants;
            links = Derived-same link_under s.links (retire_grant s g now).links h.links;
            attachments =
                Derived-same nodes s.attachments (retire_grant s g now).attachments h.attachments;
            gateways = Grows-same s.gateways (retire_grant s g now).gateways h.gateways;
            agents = Grows-same s.agents (retire_grant s g now).agents h.agents;
          })

pub remove_grant-attachments :
    (s : State) (id : String) (now : ℕ) → (remove_grant s id now).attachments ≡ s.attachments
unfolding remove_grant
remove_grant-attachments s id now = go (Dict.get s.grants id) refl
  where
    go :
        (o : Option Grant)
        → Dict.get s.grants id ≡ o
        → (remove_grant s id now).attachments ≡ s.attachments
    go none e = rw (remove_grant, e) refl
    go (some g) e = rw (remove_grant, e) (retire_grant-Same s g now).attachments

pub remove_grant-grants :
    (s : State) (id : String) (now : ℕ) → (remove_grant s id now).grants ≡ Dict.remove s.grants id
unfolding remove_grant
remove_grant-grants s id now = go (Dict.get s.grants id) refl
  where
    go :
        (o : Option Grant)
        → Dict.get s.grants id ≡ o
        → (remove_grant s id now).grants ≡ Dict.remove s.grants id
    go none e = rw (remove_grant, e) refl
    go (some g) e =
        rw (remove_grant, e) (ap (λ d. Dict.remove d id) (retire_grant-Same s g now).grants)

-- What `removeLink` retires before it deletes.
abbrev retired : State → String → ℕ → Option Link → State
retired s id now none = s
retired s id now (some link) =
    retire_link s id (get_or (Dict.get s.attachments link.attachment_id) zero_attachment) link.name
      now

retired-Same : (s : State) (id : String) (now : ℕ) (o : Option Link) → Same s (retired s id now o)
retired-Same s id now none = Same-refl s
retired-Same s id now (some link) =
    retire_link-Same s id (get_or (Dict.get s.attachments link.attachment_id) zero_attachment)
      link.name now

pub remove_link-Follows : (s : State) (id : String) (now : ℕ) → Follows s (remove_link s id now)
unfolding remove_link
remove_link-Follows s id now =
    let t = retired s id now (Dict.get s.links id) in
    let h = retired-Same s id now (Dict.get s.links id) in
    record {
      grants = Derived-same under s.grants t.grants h.grants;
      links = Derived-remove_same link_under s.links t.links id h.links;
      attachments = Derived-same nodes s.attachments t.attachments h.attachments;
      gateways = Grows-same s.gateways t.gateways h.gateways;
      agents = Grows-same s.agents t.agents h.agents;
    }

pub remove_link-attachments :
    (s : State) (id : String) (now : ℕ) → (remove_link s id now).attachments ≡ s.attachments
unfolding remove_link
remove_link-attachments s id now = (retired-Same s id now (Dict.get s.links id)).attachments

pub remove_link-links :
    (s : State) (id : String) (now : ℕ) → (remove_link s id now).links ≡ Dict.remove s.links id
unfolding remove_link
remove_link-links s id now =
    ap (λ d. Dict.remove d id) (retired-Same s id now (Dict.get s.links id)).links

pub remove_link-grants :
    (s : State) (id : String) (now : ℕ) → (remove_link s id now).grants ≡ s.grants
unfolding remove_link
remove_link-grants s id now = (retired-Same s id now (Dict.get s.links id)).grants
