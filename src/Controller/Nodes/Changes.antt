-- ===== src/Controller/Nodes/Changes.antt =====
-- Changes that delete no attachment keep the routes whole.
use xmesh.Common.{
  ℕ, ◌≡◌, refl, Bool, true, false, not, Option, none, some, [], ◌∷◌, String, str_eq, if◌then◌else◌,
  arith, if_holds,
}
use xmesh.Common.Dict
use xmesh.Common.Dict.{Dict, get_or, get-put, get-remove}
use xmesh.Common.Derived.{Grows, Grows-put, Grows-same, Derived, Derived-refl, Derived-put}
use xmesh.Model.{State, Attachment, Link, Grant, Gateway, Agent}
use xmesh.Controller.Nodes.Bumps.{
  zero_gateway, next_gateway, set_agent, bump_gateway, bump_gateway_for_attachment, unpublished,
  unpublish, is_under, has_enabled_link, unpublish_grants_without_link, change_attachments,
  embedded_agent_changed,
}
use xmesh.Controller.Nodes.Removal.{remove_grant, remove_link}
use xmesh.Controller.Nodes.Routes.{
  under, link_under, nodes, Follows, Follows-refl, Follows-trans, remove_grant-Follows,
  remove_grant-attachments, remove_link-Follows, remove_link-attachments,
}
use xmesh.Controller.Nodes.Integrity.{IsPlaced-Follows, IsRooted-Follows}
use xmesh.Controller.Nodes.Deletions.{IsWhole}

pub record Mild (s t : State) : Type 0 where
  pub follows : Follows s t
  pub stays : Grows s.attachments t.attachments

pub Mild-IsWhole : (s t : State) → IsWhole s → Mild s t → IsWhole t
Mild-IsWhole s t h m = record {
  rooted = IsRooted-Follows s t h.rooted m.follows m.stays;
  placed = IsPlaced-Follows s t h.placed m.follows;
}

pub Mild-refl : (s : State) → Mild s s
Mild-refl s = record { follows = Follows-refl s; stays = λ k h. h }

pub Mild-trans : (s t u : State) → Mild s t → Mild t u → Mild s u
Mild-trans s t u h g = record {
  follows = Follows-trans s t u h.follows g.follows;
  stays = λ k e. g.stays k (h.stays k e);
}

-- Changes of one part of the state.
module _ (s : State) where
  pub put_gateway-Mild :
      (k : String) (g : Gateway) → Mild s (record s { gateways = Dict.put s.gateways k g })
  put_gateway-Mild k g = record {
    follows = record {
      grants = Derived-refl under s.grants;
      links = Derived-refl link_under s.links;
      attachments = Derived-refl nodes s.attachments;
      gateways = Grows-put s.gateways k g;
      agents = λ k h. h;
    };
    stays = λ k h. h;
  }

  pub put_agent-Mild :
      (k : String) (a : Agent) → Mild s (record s { agents = Dict.put s.agents k a })
  put_agent-Mild k a = record {
    follows = record {
      grants = Derived-refl under s.grants;
      links = Derived-refl link_under s.links;
      attachments = Derived-refl nodes s.attachments;
      gateways = λ k h. h;
      agents = Grows-put s.agents k a;
    };
    stays = λ k h. h;
  }

  pub grants-Mild :
      (gs : Dict Grant) → Derived under s.grants gs → Mild s (record s { grants = gs })
  grants-Mild gs d = record {
    follows = record {
      grants = d;
      links = Derived-refl link_under s.links;
      attachments = Derived-refl nodes s.attachments;
      gateways = λ k h. h;
      agents = λ k h. h;
    };
    stays = λ k h. h;
  }

  pub put_link-Mild :
      (id k : String) (old new : Link)
      → Dict.get s.links id ≡ some old
      → link_under new ≡ link_under old
      → Mild s (record s { links = Dict.put s.links k new })
  put_link-Mild id k old new e m = record {
    follows = record {
      grants = Derived-refl under s.grants;
      links = Derived-put link_under s.links id k old new e m;
      attachments = Derived-refl nodes s.attachments;
      gateways = λ k h. h;
      agents = λ k h. h;
    };
    stays = λ k h. h;
  }

  pub put_attachment-Mild :
      (id k : String) (old new : Attachment)
      → Dict.get s.attachments id ≡ some old
      → nodes new ≡ nodes old
      → Mild s (record s { attachments = Dict.put s.attachments k new })
  put_attachment-Mild id k old new e m = record {
    follows = record {
      grants = Derived-refl under s.grants;
      links = Derived-refl link_under s.links;
      attachments = Derived-put nodes s.attachments id k old new e m;
      gateways = λ k h. h;
      agents = λ k h. h;
    };
    stays = Grows-put s.attachments k new;
  }

pub bump_gateway_for_attachment-Mild :
    (s : State) (id : String) → Mild s (bump_gateway_for_attachment s id)
bump_gateway_for_attachment-Mild s id = go (Dict.get s.attachments id)
  where
    go :
        (o : Option Attachment)
        → Mild s (elim o as (λ _. State) [ none ↦ s | some a ↦ bump_gateway s a.gateway_id ])
    go none = Mild-refl s
    go (some a) =
        put_gateway-Mild s a.gateway_id
          (next_gateway (get_or (Dict.get s.gateways a.gateway_id) zero_gateway))

-- What unpublishing makes of each grant.
pub get-unpublished :
    (test : Grant → Bool) (d : Dict Grant) (k : String)
    → Dict.get (unpublished test d) k ≡ elim (Dict.get d k) [
      | none ↦ none
      | some g ↦ some (if test g then record g { published = false } else g)
    ]
unfolding unpublished Dict.get
get-unpublished test [] k = refl
get-unpublished test ((j, g) ∷ d) k = ground (arith, get-unpublished test d k)

unpublished-Derived : (test : Grant → Bool) (d : Dict Grant) → Derived under d (unpublished test d)
unpublished-Derived test d k v e = go (Dict.get d k) refl
  where
    go :
        (o : Option Grant)
        → Dict.get d k ≡ o
        → (j : String) × (w : Grant) × (Dict.get d j ≡ some w) × (under v ≡ under w)
    go none f = absurd (ground (arith, e, f, get-unpublished test d k))
    go (some g) f = (k, g, f, ground (arith, e, f, get-unpublished test d k))

pub unpublish-Mild : (test : Grant → Bool) (s : State) → Mild s (unpublish test s)
unpublish-Mild test s =
    grants-Mild s (unpublished test s.grants) (unpublished-Derived test s.grants)

pub unpublish_grants_without_link-Mild :
    (s : State) (id : String) → Mild s (unpublish_grants_without_link s id)
unfolding unpublish_grants_without_link
unpublish_grants_without_link-Mild s id =
    if_holds (Mild s) (has_enabled_link s.links id) s (unpublish (is_under id) s) (λ _. Mild-refl s)
      (λ _. unpublish-Mild (is_under id) s)

pub remove_grant-Mild : (s : State) (id : String) (now : ℕ) → Mild s (remove_grant s id now)
remove_grant-Mild s id now = record {
  follows = remove_grant-Follows s id now;
  stays =
      Grows-same s.attachments (remove_grant s id now).attachments
        (remove_grant-attachments s id now);
}

pub remove_link-Mild : (s : State) (id : String) (now : ℕ) → Mild s (remove_link s id now)
remove_link-Mild s id now = record {
  follows = remove_link-Follows s id now;
  stays =
      Grows-same s.attachments (remove_link s id now).attachments
        (remove_link-attachments s id now);
}

pub change_attachments-Mild :
    (hides : Bool) (agent_id : String) (d : Dict Attachment) (s : State)
    → Mild s (change_attachments hides agent_id d s)
unfolding change_attachments
change_attachments-Mild hides agent_id [] s = Mild-refl s
change_attachments-Mild hides agent_id ((k, a) ∷ d) s =
    let t = bump_gateway s a.gateway_id in
    let bumped =
      put_gateway-Mild s a.gateway_id
        (next_gateway (get_or (Dict.get s.gateways a.gateway_id) zero_gateway)) in
    let v = if hides then unpublish (is_under a.id) t else t in
    let u = if not (str_eq a.agent_id agent_id) then s else v in
    Mild-trans s u (change_attachments hides agent_id d u)
      (if_holds (Mild s) (not (str_eq a.agent_id agent_id)) s v (λ _. Mild-refl s)
        (λ _. Mild-trans s t v bumped (
          if_holds (Mild t) hides (unpublish (is_under a.id) t) t
            (λ _. unpublish-Mild (is_under a.id) t) (λ _. Mild-refl t))))
      (change_attachments-Mild hides agent_id d u)

pub embedded_agent_changed-Mild : (s : State) (a : Agent) → Mild s (embedded_agent_changed s a)
unfolding embedded_agent_changed
embedded_agent_changed-Mild s a =
    let t = set_agent s a in
    Mild-trans s t (change_attachments true a.id t.attachments t) (put_agent-Mild s a.id a)
      (change_attachments-Mild true a.id t.attachments t)
