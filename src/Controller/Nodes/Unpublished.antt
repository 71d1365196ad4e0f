-- ===== src/Controller/Nodes/Unpublished.antt =====
-- What the switches take out of the subscriptions.
use xmesh.Common.{
  ◌≡◌, refl, ap, Bool, true, false, not, Bool-cases, inl, inr, Option, none, some, String, eq_iff,
  arith, ok, Holds, Holds-ok, or_fail-Holds,
}
use xmesh.Common.Dict
use xmesh.Common.Dict.{Dict, get_or}
use xmesh.Model.{State, Attachment, Grant, Gateway}
use xmesh.Controller.Nodes.Bumps.{next_gateway, set_gateway, unpublished, unpublish}
use xmesh.Controller.Nodes.Handlers.{embedded_agent}
use xmesh.Controller.Nodes.Switches.{
  toggle_user, toggle_gateway, is_of_user, bump_gateways_of_user, with_embedded, is_through,
}
use xmesh.Controller.Nodes.Changes.{get-unpublished}

-- A grant that is left and passes the test is not published.
unpublished_hides :
    (test : Grant → Bool) (d : Dict Grant) (k : String) (g : Grant)
    → ((p : Bool) (x : Grant) → test (record x { published = p }) ≡ test x)
    → Dict.get (unpublished test d) k ≡ some g
    → test g ≡ true
    → g.published ≡ false
unpublished_hides test d k g blind e passes = go (Dict.get d k) refl
  where
    go : (o : Option Grant) → Dict.get d k ≡ o → g.published ≡ false
    go none f = absurd (ground (arith, e, f, get-unpublished test d k))
    go (some x) f = elim (Bool-cases (test x)) [
      | inl hidden ↦ ground (arith, e, f, hidden, get-unpublished test d k)
      | inr other ↦
          let same : x ≡ g = ground (arith, e, f, other, get-unpublished test d k) in
          absurd (ground (arith, passes, other, ap test same))
    ]

-- No grant of the user is published.
abbrev Hides : (Grant → Bool) → State → Type 0
Hides test t =
    (k : String) (g : Grant) → Dict.get t.grants k ≡ some g → test g ≡ true → g.published ≡ false

unpublish-Hides :
    (test : Grant → Bool) (s : State)
    → ((p : Bool) (x : Grant) → test (record x { published = p }) ≡ test x)
    → Hides test (unpublish test s)
unpublish-Hides test s blind k g = unpublished_hides test s.grants k g blind

toggle_user-Hides : (s : State) (id : String) → Holds (Hides (is_of_user id)) (toggle_user s id)
unfolding toggle_user
toggle_user-Hides s id = or_fail-Holds (Hides (is_of_user id)) (Dict.get s.users id) _ _ λ user _.
    (let t = record s {
      users = Dict.put s.users id (record user { enabled = not user.enabled });
    } in
      unpublish-Hides (is_of_user id) (bump_gateways_of_user id t.grants t) (λ p x. refl))

-- After a user has been switched on or off, no grant of that user is published.
pub toggle_user-unpublished :
    (s t : State) (id k : String) (g : Grant)
    → toggle_user s id ≡ ok t
    → Dict.get t.grants k ≡ some g
    → g.user_id ≡ id
    → g.published ≡ false
toggle_user-unpublished s t id k g h e mine =
    Holds-ok (Hides (is_of_user id)) (toggle_user s id) t (toggle_user-Hides s id) h k g e
      ((eq_iff g.user_id id).1 mine)

-- Whether the Gateway is off, and the grants through it not published.
abbrev GatewayOff : String → State → Type 0
GatewayOff gateway_id t = Hides (is_through t.attachments gateway_id) t

toggle_gateway-Hides :
    (s : State) (id : String) (old : Gateway)
    → Dict.get s.gateways id ≡ some old
    → old.enabled ≡ true
    → Holds (GatewayOff old.id) (toggle_gateway s id)
unfolding toggle_gateway
toggle_gateway-Hides s id old e on =
    let gateway = next_gateway (record old { enabled = false }) in
    let t = set_gateway s gateway in
    let u = with_embedded t (embedded_agent t gateway) in
    rw (e, on) (unpublish-Hides (is_through u.attachments old.id) u (λ p x. refl))

-- After a Gateway that was on has been switched off, no grant under one of its attachments is
-- published.
pub toggle_gateway-unpublished :
    (s t : State) (id : String) (old : Gateway) (k : String) (g : Grant) (a : Attachment)
    → Dict.get s.gateways id ≡ some old
    → old.enabled ≡ true
    → toggle_gateway s id ≡ ok t
    → Dict.get t.grants k ≡ some g
    → Dict.get t.attachments g.attachment_id ≡ some a
    → a.gateway_id ≡ old.id
    → g.published ≡ false
toggle_gateway-unpublished s t id old k g a e on h at route same =
    Holds-ok (GatewayOff old.id) (toggle_gateway s id) t (toggle_gateway-Hides s id old e on) h k g
      at (ground (arith, route, same, eq_iff a.gateway_id old.id))
