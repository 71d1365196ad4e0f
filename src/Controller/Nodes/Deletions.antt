-- ===== src/Controller/Nodes/Deletions.antt =====
-- The handlers that delete keep the routes whole.
use xmesh.Common.{
  ℕ, ◌≡◌, refl, ap, ◌∙◌, inl, inr, Bool, false, Bool-cases, Option, none, some, List, [], ◌∷◌,
  String, str_eq, eq_iff, if◌then◌else◌, arith, if_holds,
}
use xmesh.Common.Dict
use xmesh.Common.Dict.{Dict, get_or, get-put, get-remove}
use xmesh.Model.{State, Attachment}
use xmesh.Controller.Nodes.Removal.{
  remove_found, remove_attachment, remove_attachments, remove_node_references, uses_one_of,
}
use xmesh.Controller.Nodes.Routes.{Follows, Follows-refl, Follows-trans}
use xmesh.Controller.Nodes.Integrity.{
  IsRooted, IsPlaced, remove_found-attachments, remove_found-Follows, remove_found-IsRooted,
}

-- The routes are whole.
pub record IsWhole (s : State) : Type 0 where
  pub rooted : IsRooted s
  pub placed : IsPlaced s

module _ (now : ℕ) where
  pub remove_attachment-Follows : (s : State) (id : String) → Follows s (remove_attachment s id now)
  unfolding remove_attachment
  remove_attachment-Follows s id = go (Dict.get s.attachments id)
    where
      go :
          (o : Option Attachment)
          → Follows s (elim o as (λ _. State) [ none ↦ s | some a ↦ remove_found s id a now ])
      go none = Follows-refl s
      go (some a) = remove_found-Follows s id a now

  pub remove_attachment-IsRooted :
      (s : State) (id : String) → IsRooted s → IsRooted (remove_attachment s id now)
  unfolding remove_attachment
  remove_attachment-IsRooted s id h = go (Dict.get s.attachments id)
    where
      go :
          (o : Option Attachment)
          → IsRooted (elim o as (λ _. State) [ none ↦ s | some a ↦ remove_found s id a now ])
      go none = h
      go (some a) = remove_found-IsRooted s id a now h

  -- The attachment is gone, and the others stay.
  remove_attachment-get :
      (s : State) (id k : String)
      → Dict.get (remove_attachment s id now).attachments k
        ≡ (if str_eq id k then none else Dict.get s.attachments k)
  unfolding remove_attachment
  remove_attachment-get s id k = go (Dict.get s.attachments id) refl
    where
      go :
          (o : Option Attachment)
          → Dict.get s.attachments id ≡ o
          → Dict.get
              (elim o as (λ _. State) [ none ↦ s | some a ↦ remove_found s id a now ]).attachments
              k
            ≡ (if str_eq id k then none else Dict.get s.attachments k)
      go none e = ground (arith, e, eq_iff id k)
      go (some a) e =
          ap (λ d. Dict.get d k) (remove_found-attachments s id a now)
          ∙ get-remove s.attachments id k

  module _ (test : Attachment → Bool) where
    pub remove_attachments-Follows :
        (d : Dict Attachment) (s : State) → Follows s (remove_attachments test d s now)
    unfolding remove_attachments
    remove_attachments-Follows [] s = Follows-refl s
    remove_attachments-Follows ((k, a) ∷ d) s = elim (Bool-cases (test a)) [
      | inl goes ↦ rw goes (
          Follows-trans s (remove_attachment s k now)
            (remove_attachments test d (remove_attachment s k now) now)
            (remove_attachment-Follows s k)
            (remove_attachments-Follows d (remove_attachment s k now)))
      | inr stays ↦ rw stays (remove_attachments-Follows d s)
    ]

    pub remove_attachments-IsRooted :
        (d : Dict Attachment) (s : State) → IsRooted s → IsRooted (remove_attachments test d s now)
    unfolding remove_attachments
    remove_attachments-IsRooted [] s h = h
    remove_attachments-IsRooted ((k, a) ∷ d) s h =
        remove_attachments-IsRooted d (if test a then remove_attachment s k now else s) (
          if_holds IsRooted (test a) (remove_attachment s k now) s
            (λ _. remove_attachment-IsRooted s k h) (λ _. h))

    -- What is left is of the old state, and none that passes the test.
    remove_attachments-left :
        (d : Dict Attachment) (s : State) (k : String) (x : Attachment)
        → Dict.get (remove_attachments test d s now).attachments k ≡ some x
        → (Dict.get s.attachments k ≡ some x) × (Dict.get d k ≡ some x → test x ≡ false)
    unfolding remove_attachments Dict.get
    remove_attachments-left [] s k x h = (h, λ e. cc)
    remove_attachments-left ((j, a) ∷ d) s k x h =
        let later =
          remove_attachments-left d (if test a then remove_attachment s j now else s) k x h in
        (
          ground (arith, later.0, remove_attachment-get s j k),
          λ e. ground (arith, later.0, later.1, e, remove_attachment-get s j k),
        )

  module _ (s : State) (removed : List String) where
    pub remove_node_references-Follows : Follows s (remove_node_references s removed now)
    unfolding remove_node_references
    remove_node_references-Follows =
        let h = remove_attachments-Follows (uses_one_of removed) s.attachments s in
        record {
          grants = h.grants;
          links = h.links;
          attachments = h.attachments;
          gateways = h.gateways;
          agents = h.agents;
        }

    pub remove_node_references-IsRooted :
        IsRooted s → IsRooted (remove_node_references s removed now)
    unfolding remove_node_references
    remove_node_references-IsRooted r =
        let h = remove_attachments-IsRooted (uses_one_of removed) s.attachments s r in
        record { grants = h.grants; links = h.links }

    pub remove_node_references-left :
        (k : String) (x : Attachment)
        → Dict.get (remove_node_references s removed now).attachments k ≡ some x
        → (Dict.get s.attachments k ≡ some x) × (uses_one_of removed x ≡ false)
    unfolding remove_node_references
    remove_node_references-left k x e =
        let left = remove_attachments-left (uses_one_of removed) s.attachments s k x e in
        (left.0, left.1 left.0)
