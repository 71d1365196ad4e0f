-- ===== src/Controller/Upgrades/Recovered.antt =====
-- What `upgradeRecoveryProblem` looks for: fresh, healthy reports of both ends of every Link.
use Prim.Native.String.{len, ◌++◌ as ◌<>◌}
use text.Mathlib.TextPositions.{len-append}
use xmesh.Common.{
  ℕ, ◌+◌, ◌*◌, ◌≤◌, ◌≡◌, ◌≢◌, refl, ap, sym, ◌∙◌, inl, inr, ◌↔◌, Bool, true, false, ◌||◌, not,
  Bool-cases, Option, none, some, List, [], ◌∷◌, All, String, str_eq, eq_iff, ltb, ◌==◌,
  if◌then◌else◌, arith,
}
use xmesh.Common.Dict
use xmesh.Model.{State, Attachment, LinkStatus, UpgradeTask}
use xmesh.Controller.Upgrades.Stages.{second}
use xmesh.Controller.Upgrades.Recovery.{
  Settings, recovery_error, status_problem, endpoint_problem, link_attachment, link_problem,
  links_problem, upgrade_recovery_problem,
}

text-nonempty : (t u : String) → 1 ≤ len t → t <> u ≢ ""
text-nonempty t u h e = ground (arith, h, ap len e, len-append t u)

otherwise-empty :
    (b : Bool) (t u : String) → t ≢ "" → (if b then t else u) ≡ "" → (b ≡ false) × (u ≡ "")
otherwise-empty true t u some_text h = absurd (some_text h)
otherwise-empty false t u some_text h = (refl, h)

literal : (t : String) → 1 ≤ len t → t ≢ ""
literal t h e = ground (arith, h, ap len e)

module _ (cfg : Settings) (s : State) (task : UpgradeTask) (now : ℕ) where
  -- A report that is not too old, that was made since the upgrade, and that says all is well.
  abbrev pub IsFresh : Option LinkStatus → Type 0
  IsFresh none = ⊥
  IsFresh (some r) =
      (r.last_seen ≢ 0)
      × (now ≤ r.last_seen + cfg.offline_after_seconds * second)
      × (task.updated_at ≤ r.last_seen)
      × (r.online ≡ true)
      × (r.ready ≡ true)

  abbrev IsCarried : String → Option Attachment → Type 0
  IsCarried id none = ⊥
  IsCarried id (some a) =
      IsFresh (Dict.get s.link_status (a.gateway_id <> ("/" <> id)))
      × IsFresh (Dict.get s.link_status (a.agent_id <> ("/" <> id)))

  -- The Link is still configured, and both its ends report it healthy.
  abbrev pub IsRecovered : String → Type 0
  IsRecovered id = IsCarried id (link_attachment s task id)

  status_problem-IsFresh :
      (o : Option LinkStatus) → (status_problem cfg o task now ≡ "") → IsFresh o
  unfolding status_problem
  status_problem-IsFresh none h = absurd (literal "has not reported" (omega arith) h)
  status_problem-IsFresh (some r) h =
      let recent =
        otherwise-empty
          (r.last_seen == 0 || ltb (r.last_seen + cfg.offline_after_seconds * second) now) _ _
          (text-nonempty "report is older than " (cfg.itoa cfg.offline_after_seconds <> " seconds")
            (omega arith))
          h in
      let since =
        otherwise-empty (ltb r.last_seen task.updated_at) _ _
          (literal "has not reported since upgrade completion" (omega arith)) recent.1 in
      let online =
        otherwise-empty (not r.online) _ _ (literal "is offline" (omega arith)) since.1 in
      let ready =
        otherwise-empty (not r.ready) _ "" (literal "is not ready" (omega arith)) online.1 in
      (
        ground (arith, recent.0),
        ground (arith, recent.0),
        ground (arith, since.0),
        ground (arith, online.0),
        ground (arith, ready.0),
      )

  IsFresh-status_problem : (o : Option LinkStatus) → IsFresh o → status_problem cfg o task now ≡ ""
  unfolding status_problem
  IsFresh-status_problem none h = absurd h
  IsFresh-status_problem (some r) h = ground (arith, h.0, h.1, h.2, h.3, h.4)

  endpoint_problem-IsFresh :
      (id role node : String)
      → endpoint_problem cfg s task now id role node ≡ ""
      → IsFresh (Dict.get s.link_status (node <> ("/" <> id)))
  unfolding endpoint_problem
  endpoint_problem-IsFresh id role node h =
      status_problem-IsFresh (Dict.get s.link_status (node <> ("/" <> id)))
        (elim (Bool-cases (
          str_eq (status_problem cfg (Dict.get s.link_status (node <> ("/" <> id))) task now) "")) [
            | inl none_found ↦ (eq_iff _ "").0 none_found
            | inr found ↦ absurd (text-nonempty recovery_error _ (omega arith) (rw (found) at h))
          ])

  IsFresh-endpoint_problem :
      (id role node : String)
      → IsFresh (Dict.get s.link_status (node <> ("/" <> id)))
      → endpoint_problem cfg s task now id role node ≡ ""
  unfolding endpoint_problem
  IsFresh-endpoint_problem id role node h =
      rw (IsFresh-status_problem (Dict.get s.link_status (node <> ("/" <> id))) h)

  link_problem-IsRecovered : (id : String) → link_problem cfg s task now id ≡ "" → IsRecovered id
  unfolding link_problem
  link_problem-IsRecovered id h = go (link_attachment s task id) refl
    where
      go : (o : Option Attachment) → link_attachment s task id ≡ o → IsCarried id o
      go none e = absurd (text-nonempty recovery_error _ (omega arith) (rw (e, link_problem) at h))
      go (some a) e = (
        endpoint_problem-IsFresh id "gateway" a.gateway_id (
            ground
              (arith, e, h, eq_iff (endpoint_problem cfg s task now id "gateway" a.gateway_id) "")),
        endpoint_problem-IsFresh id "agent" a.agent_id (
            ground
              (arith, e, h, eq_iff (endpoint_problem cfg s task now id "gateway" a.gateway_id) "")),
      )

  IsRecovered-link_problem : (id : String) → IsRecovered id → link_problem cfg s task now id ≡ ""
  unfolding link_problem
  IsRecovered-link_problem id h = go (link_attachment s task id) refl h
    where
      go :
          (o : Option Attachment)
          → link_attachment s task id ≡ o
          → IsCarried id o
          → link_problem cfg s task now id ≡ ""
      go none e h = absurd h
      go (some a) e h = rw (
        e,
        link_problem,
        IsFresh-endpoint_problem id "gateway" a.gateway_id h.0,
        IsFresh-endpoint_problem id "agent" a.agent_id h.1,
      )

  links_problem-IsRecovered :
      (ids : List String) → links_problem cfg s task now ids ≡ "" → All IsRecovered ids
  unfolding links_problem
  links_problem-IsRecovered [] h = tt
  links_problem-IsRecovered (id ∷ ids) h =
      let clear : link_problem cfg s task now id ≡ "" =
        ground (arith, h, eq_iff (link_problem cfg s task now id) "") in
      (link_problem-IsRecovered id clear, links_problem-IsRecovered ids (sym (rw clear refl) ∙ h))

  IsRecovered-links_problem :
      (ids : List String) → All IsRecovered ids → links_problem cfg s task now ids ≡ ""
  unfolding links_problem
  IsRecovered-links_problem [] h = refl
  IsRecovered-links_problem (id ∷ ids) h =
      rw (IsRecovered-link_problem id h.0, IsRecovered-links_problem ids h.1)

  -- `upgradeRecoveryProblem` finds no problem exactly where every Link that was healthy before the
  -- upgrade is still configured, enabled like its attachment, and both its ends have reported, since the
  -- upgrade and not too long ago, that they are online and ready.
  pub upgrade_recovery_problem-IsRecovered :
      (upgrade_recovery_problem cfg s task now ≡ "") ↔ All IsRecovered task.baseline_links
  unfolding upgrade_recovery_problem
  upgrade_recovery_problem-IsRecovered =
      (links_problem-IsRecovered task.baseline_links, IsRecovered-links_problem task.baseline_links)
