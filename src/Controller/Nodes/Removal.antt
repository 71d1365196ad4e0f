-- ===== src/Controller/Nodes/Removal.antt =====
-- node_management.go: what goes with a grant, a Link, an attachment and a node.
use Prim.Native.String.{◌++◌ as ◌<>◌}
use text.Mathlib.Text.{starts_with}
use xmesh.Common.{ℕ, Bool, ◌||◌, Option, none, some, List, [], ◌∷◌, String, str_eq, if◌then◌else◌}
use xmesh.Common.Dict
use xmesh.Common.Dict.{Dict, get_or}
use xmesh.Model.{State, Attachment, Link, Grant, LinkStatus, GrantStatus, Gateway, Agent}
use xmesh.Controller.Usage.{zero_attachment, zero_upstream}
use xmesh.Controller.Retired.{retire_grant, retire_link, drop_counters, ends_with}
use xmesh.Common.Derived.{exists}
use xmesh.Controller.Upgrades.Create.{one_of_ids}
use xmesh.Controller.Nodes.Bumps.{next_gateway, next_agent, set_gateway, set_agent}

-- The loops that delete the entries that pass a test.
unfoldable pub drop_where {ℓ} : {V : Type ℓ} → (V → Bool) → Dict V → Dict V → Dict V
drop_where test [] d = d
drop_where test ((k, v) ∷ rest) d = drop_where test rest (if test v then Dict.remove d k else d)

abbrev is_of_grant : String → GrantStatus → Bool
is_of_grant id status = str_eq status.grant_id id

abbrev is_of_link : String → LinkStatus → Bool
is_of_link id status = str_eq status.link_id id

-- The counters of a grant or a Link stay while it is retired.
abbrev forget_counters : Bool → (String → Bool) → State → State
forget_counters retired test s = record s {
  usage_counters =
      if retired then s.usage_counters else drop_counters test s.usage_counters s.usage_counters;
}

-- `removeGrant`
unfoldable pub remove_grant : State → String → ℕ → State
remove_grant s id now =
    let t : State = elim (Dict.get s.grants id) [
      | none ↦ s
      | some grant ↦ retire_grant s grant now
    ] in
    let u =
      forget_counters (exists (Dict.get t.retired_grants id)) (λ key. starts_with key (id <> "/"))
        t in
    record u {
      grants = Dict.remove u.grants id;
      grant_status = drop_where (is_of_grant id) u.grant_status u.grant_status;
    }

-- `removeLink`
unfoldable pub remove_link : State → String → ℕ → State
remove_link s id now =
    let t : State = elim (Dict.get s.links id) [
      | none ↦ s
      | some link ↦
          retire_link s id (get_or (Dict.get s.attachments link.attachment_id) zero_attachment)
            link.name now
    ] in
    let u =
      forget_counters (exists (Dict.get t.retired_links id)) (λ key. ends_with key ("/" <> id)) t in
    record u {
      links = Dict.remove u.links id;
      link_history = Dict.remove u.link_history id;
      link_status = drop_where (is_of_link id) u.link_status u.link_status;
    }

-- The loops of `removeAttachment` over the grants and the Links.
unfoldable pub remove_grants : Dict Grant → State → String → ℕ → State
remove_grants [] s id now = s
remove_grants ((k, grant) ∷ rest) s id now =
    remove_grants rest (if str_eq grant.attachment_id id then remove_grant s k now else s) id now

unfoldable pub remove_links : Dict Link → State → String → ℕ → State
remove_links [] s id now = s
remove_links ((k, link) ∷ rest) s id now =
    remove_links rest (if str_eq link.attachment_id id then remove_link s k now else s) id now

-- The new versions of the attachment's nodes.
abbrev pub next_if_gateway : State → Option Gateway → State
next_if_gateway s none = s
next_if_gateway s (some g) = set_gateway s (next_gateway g)

abbrev pub next_if_agent : State → Option Agent → State
next_if_agent s none = s
next_if_agent s (some a) = set_agent s (next_agent a)

abbrev pub bump_existing_gateway : State → String → State
bump_existing_gateway s id = next_if_gateway s (Dict.get s.gateways id)

abbrev pub bump_existing_agent : State → String → State
bump_existing_agent s id = next_if_agent s (Dict.get s.agents id)

-- The route to an upstream is retired as a Link of its own.
abbrev pub retired_route : State → String → Attachment → ℕ → State
retired_route s id attachment now =
    if str_eq attachment.upstream_id ""
    then s
    else retire_link s id attachment
        (get_or (Dict.get s.upstreams attachment.upstream_id) zero_upstream).name now

-- `removeAttachment` up to the new versions, where the attachment exists.
abbrev pub without_routes : State → String → Attachment → ℕ → State
without_routes s id attachment now =
    let t = retired_route (remove_grants s.grants s id now) id attachment now in
    remove_links t.links t id now

-- The rest of it.
unfoldable pub remove_found : State → String → Attachment → ℕ → State
remove_found s id attachment now =
    let bumped =
      bump_existing_agent
        (bump_existing_gateway (without_routes s id attachment now) attachment.gateway_id)
        attachment.agent_id in
    record bumped {
      attachments = Dict.remove bumped.attachments id;
      link_status =
          if str_eq attachment.upstream_id ""
          then bumped.link_status
          else drop_where (is_of_link id) bumped.link_status bumped.link_status;
    }

-- `removeAttachment`
unfoldable pub remove_attachment : State → String → ℕ → State
unfolding remove_found
remove_attachment s id now = elim (Dict.get s.attachments id) [
  | none ↦ s
  | some attachment ↦ remove_found s id attachment now
]

-- The loops over the attachments that remove those that pass a test.
unfoldable pub remove_attachments : (Attachment → Bool) → Dict Attachment → State → ℕ → State
remove_attachments test [] s now = s
remove_attachments test ((k, attachment) ∷ rest) s now =
    remove_attachments test rest (if test attachment then remove_attachment s k now else s) now

-- `for id := range removed { delete(state.Updaters, id) }`
unfoldable pub drop_keys {ℓ} : {V : Type ℓ} → List String → Dict V → Dict V
drop_keys [] d = d
drop_keys (id ∷ ids) d = drop_keys ids (Dict.remove d id)

abbrev pub uses_one_of : List String → Attachment → Bool
uses_one_of removed attachment =
    one_of_ids attachment.gateway_id removed || one_of_ids attachment.agent_id removed

-- `removeNodeReferences`
unfoldable pub remove_node_references : State → List String → ℕ → State
unfolding remove_attachments
remove_node_references s removed now =
    let t = remove_attachments (uses_one_of removed) s.attachments s now in
    record t {
      enrollments = drop_where (λ e. one_of_ids e.node_id removed) t.enrollments t.enrollments;
      node_status = drop_where (λ n. one_of_ids n.node_id removed) t.node_status t.node_status;
      updaters = drop_keys removed t.updaters;
    }
