-- ===== src/Controller/Nodes/Edits.antt =====
-- The administrator's edits of nodes and routes, in any order.
use xmesh.Common.{ℕ, ◌≡◌, String, ok, Holds-ok}
use xmesh.Model.{State}
use xmesh.Controller.Nodes.Handlers.{
  delete_gateway, delete_agent, delete_link, delete_grant, delete_attachment, delete_upstream,
  create_attachment, attach_upstream,
}
use xmesh.Controller.Nodes.Switches.{
  toggle_user, toggle_gateway, toggle_agent, toggle_attachment, toggle_link, toggle_grant,
  toggle_embedded_agent,
}
use xmesh.Controller.Nodes.Deletions.{IsWhole}
use xmesh.Controller.Nodes.Whole.{
  delete_gateway-IsWhole, delete_agent-IsWhole, delete_link-IsWhole, delete_grant-IsWhole,
  delete_attachment-IsWhole, delete_upstream-IsWhole,
}
use xmesh.Controller.Nodes.Attached.{create_attachment-IsWhole, attach_upstream-IsWhole}
use xmesh.Controller.Nodes.Switched.{
  toggle_user-IsWhole, toggle_gateway-IsWhole, toggle_agent-IsWhole, toggle_attachment-IsWhole,
  toggle_link-IsWhole, toggle_grant-IsWhole, toggle_embedded_agent-IsWhole,
}

-- A handler that succeeds.
pub data Edit (s t : State) : Type 0 where
  deletes_gateway :
      (id confirm : String) (now : ℕ) → delete_gateway s id confirm now ≡ ok t → Edit s t
  deletes_agent : (id confirm : String) (now : ℕ) → delete_agent s id confirm now ≡ ok t → Edit s t
  deletes_link : (id confirm : String) (now : ℕ) → delete_link s id confirm now ≡ ok t → Edit s t
  deletes_grant : (id confirm : String) (now : ℕ) → delete_grant s id confirm now ≡ ok t → Edit s t
  deletes_attachment :
      (id confirm : String) (now : ℕ) → delete_attachment s id confirm now ≡ ok t → Edit s t
  deletes_upstream :
      (id confirm : String) (now : ℕ) → delete_upstream s id confirm now ≡ ok t → Edit s t
  creates_attachment :
      (id gateway_id agent_id : String) (now : ℕ)
      → create_attachment s id gateway_id agent_id now ≡ ok t
      → Edit s t
  attaches_upstream :
      (id gateway_id upstream_id : String) (now : ℕ)
      → attach_upstream s id gateway_id upstream_id now ≡ ok t
      → Edit s t
  toggles_user : (id : String) → toggle_user s id ≡ ok t → Edit s t
  toggles_gateway : (id : String) → toggle_gateway s id ≡ ok t → Edit s t
  toggles_agent : (id : String) → toggle_agent s id ≡ ok t → Edit s t
  toggles_attachment : (id : String) → toggle_attachment s id ≡ ok t → Edit s t
  toggles_link : (id : String) → toggle_link s id ≡ ok t → Edit s t
  toggles_grant : (id : String) → toggle_grant s id ≡ ok t → Edit s t
  toggles_embedded_agent :
      (id : String) (now : ℕ) → toggle_embedded_agent s id now ≡ ok t → Edit s t

pub data Edits (s : State) : State → Type 0 where
  here : Edits s s
  more : {t u : State} → Edits s t → Edit t u → Edits s u

Edit-IsWhole : (s t : State) → IsWhole s → Edit s t → IsWhole t
Edit-IsWhole s t h (deletes_gateway id confirm now e) =
    Holds-ok IsWhole _ t (delete_gateway-IsWhole s id confirm now h) e
Edit-IsWhole s t h (deletes_agent id confirm now e) =
    Holds-ok IsWhole _ t (delete_agent-IsWhole s id confirm now h) e
Edit-IsWhole s t h (deletes_link id confirm now e) =
    Holds-ok IsWhole _ t (delete_link-IsWhole s id confirm now h) e
Edit-IsWhole s t h (deletes_grant id confirm now e) =
    Holds-ok IsWhole _ t (delete_grant-IsWhole s id confirm now h) e
Edit-IsWhole s t h (deletes_attachment id confirm now e) =
    Holds-ok IsWhole _ t (delete_attachment-IsWhole s id confirm now h) e
Edit-IsWhole s t h (deletes_upstream id confirm now e) =
    Holds-ok IsWhole _ t (delete_upstream-IsWhole s id confirm now h) e
Edit-IsWhole s t h (creates_attachment id gateway_id agent_id now e) =
    Holds-ok IsWhole _ t (create_attachment-IsWhole s id gateway_id agent_id now h) e
Edit-IsWhole s t h (attaches_upstream id gateway_id upstream_id now e) =
    Holds-ok IsWhole _ t (attach_upstream-IsWhole s id gateway_id upstream_id now h) e
Edit-IsWhole s t h (toggles_user id e) = Holds-ok IsWhole _ t (toggle_user-IsWhole s id h) e
Edit-IsWhole s t h (toggles_gateway id e) = Holds-ok IsWhole _ t (toggle_gateway-IsWhole s id h) e
Edit-IsWhole s t h (toggles_agent id e) = Holds-ok IsWhole _ t (toggle_agent-IsWhole s id h) e
Edit-IsWhole s t h (toggles_attachment id e) =
    Holds-ok IsWhole _ t (toggle_attachment-IsWhole s id h) e
Edit-IsWhole s t h (toggles_link id e) = Holds-ok IsWhole _ t (toggle_link-IsWhole s id h) e
Edit-IsWhole s t h (toggles_grant id e) = Holds-ok IsWhole _ t (toggle_grant-IsWhole s id h) e
Edit-IsWhole s t h (toggles_embedded_agent id now e) =
    Holds-ok IsWhole _ t (toggle_embedded_agent-IsWhole s id now h) e

-- No route dangles. If every grant and every Link stands under an attachment that exists, and every
-- attachment's Gateway exists and its Agent, if it names one, too, then the same holds after any
-- history of deletions of Gateways, Agents, Links, grants, attachments and upstreams, of new
-- attachments, and of switches of users, nodes, attachments, Links and grants.
pub Edits-IsWhole : (s t : State) → IsWhole s → Edits s t → IsWhole t
Edits-IsWhole s _ h here = h
Edits-IsWhole s _ h (more {t} {u} edits e) = Edit-IsWhole t u (Edits-IsWhole s t h edits) e
