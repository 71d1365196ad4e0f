-- ===== src/Controller/Nodes/Rooted.antt =====
-- The removal of an attachment takes the grants and the Links under it along.
use xmesh.Common.{
  ℕ, ◌≡◌, ◌≢◌, refl, ap, ◌∙◌, ◌⊎◌, inl, inr, true, false, Bool-cases, none, some, [], ◌∷◌, String,
  str_eq, eq_iff, if◌then◌else◌, arith,
}
use xmesh.Common.Dict
use xmesh.Common.Dict.{Dict, get_or, get-put, get-remove}
use xmesh.Model.{State, Link, Grant}
use xmesh.Controller.Nodes.Removal.{remove_grant, remove_link, remove_grants, remove_links}
use xmesh.Controller.Nodes.Routes.{
  Follows, Follows-refl, Follows-trans, remove_grant-Follows, remove_grant-attachments,
  remove_grant-grants, remove_link-Follows, remove_link-attachments, remove_link-links,
  remove_link-grants,
}

module _ (id : String) (now : ℕ) where
  pub remove_grants-Follows : (d : Dict Grant) (s : State) → Follows s (remove_grants d s id now)
  unfolding remove_grants
  remove_grants-Follows [] s = Follows-refl s
  remove_grants-Follows ((k, g) ∷ d) s = elim (Bool-cases (str_eq g.attachment_id id)) [
    | inl mine ↦ rw mine (
        Follows-trans s (remove_grant s k now) (remove_grants d (remove_grant s k now) id now)
          (remove_grant-Follows s k now) (remove_grants-Follows d (remove_grant s k now)))
    | inr other ↦ rw other (remove_grants-Follows d s)
  ]

  pub remove_grants-attachments :
      (d : Dict Grant) (s : State) → (remove_grants d s id now).attachments ≡ s.attachments
  unfolding remove_grants
  remove_grants-attachments [] s = refl
  remove_grants-attachments ((k, g) ∷ d) s = elim (Bool-cases (str_eq g.attachment_id id)) [
    | inl mine ↦
        rw (remove_grants, mine)
          (remove_grants-attachments d (remove_grant s k now) ∙ remove_grant-attachments s k now)
    | inr other ↦ rw (remove_grants, other) (remove_grants-attachments d s)
  ]

  pub remove_grants-left :
      (d : Dict Grant) (s : State) (k : String) (x : Grant)
      → Dict.get (remove_grants d s id now).grants k ≡ some x
      → (Dict.get s.grants k ≡ some x) × (Dict.get d k ≡ some x → x.attachment_id ≢ id)
  unfolding remove_grants Dict.get
  remove_grants-left [] s k x h = (h, λ e. cc)
  remove_grants-left ((j, g) ∷ d) s k x h =
      go (Bool-cases (str_eq g.attachment_id id)) (remove_grants-left d (remove_grant s j now) k x)
        (remove_grants-left d s k x)
    where
      go :
          (str_eq g.attachment_id id ≡ true) ⊎ (str_eq g.attachment_id id ≡ false)
          → (Dict.get (remove_grants d (remove_grant s j now) id now).grants k ≡ some x
              → (Dict.get (remove_grant s j now).grants k ≡ some x)
                × (Dict.get d k ≡ some x → x.attachment_id ≢ id))
          → (Dict.get (remove_grants d s id now).grants k ≡ some x
              → (Dict.get s.grants k ≡ some x) × (Dict.get d k ≡ some x → x.attachment_id ≢ id))
          → (Dict.get s.grants k ≡ some x)
            × (Dict.get ((j, g) ∷ d) k ≡ some x → x.attachment_id ≢ id)
      go (inl mine) removed kept =
          let r = removed (rw (mine, remove_grants) at h) in
          let at_key : Dict.get (remove_grant s j now).grants k
              ≡ (if str_eq j k then none else Dict.get s.grants k) =
            ap (λ e. Dict.get e k) (remove_grant-grants s j now) ∙ get-remove s.grants j k in
          (ground (arith, r.0, at_key), λ e same. ground (arith, r.0, at_key, e, same, r.1))
      go (inr other) removed kept =
          let r = kept (rw (other, remove_grants) at h) in
          (r.0, λ e same. ground (arith, e, same, r.1, other, eq_iff g.attachment_id id))

  pub remove_links-Follows : (d : Dict Link) (s : State) → Follows s (remove_links d s id now)
  unfolding remove_links
  remove_links-Follows [] s = Follows-refl s
  remove_links-Follows ((k, g) ∷ d) s = elim (Bool-cases (str_eq g.attachment_id id)) [
    | inl mine ↦ rw mine (
        Follows-trans s (remove_link s k now) (remove_links d (remove_link s k now) id now)
          (remove_link-Follows s k now) (remove_links-Follows d (remove_link s k now)))
    | inr other ↦ rw other (remove_links-Follows d s)
  ]

  pub remove_links-attachments :
      (d : Dict Link) (s : State) → (remove_links d s id now).attachments ≡ s.attachments
  unfolding remove_links
  remove_links-attachments [] s = refl
  remove_links-attachments ((k, g) ∷ d) s = elim (Bool-cases (str_eq g.attachment_id id)) [
    | inl mine ↦
        rw (remove_links, mine)
          (remove_links-attachments d (remove_link s k now) ∙ remove_link-attachments s k now)
    | inr other ↦ rw (remove_links, other) (remove_links-attachments d s)
  ]

  pub remove_links-left :
      (d : Dict Link) (s : State) (k : String) (x : Link)
      → Dict.get (remove_links d s id now).links k ≡ some x
      → (Dict.get s.links k ≡ some x) × (Dict.get d k ≡ some x → x.attachment_id ≢ id)
  unfolding remove_links Dict.get
  remove_links-left [] s k x h = (h, λ e. cc)
  remove_links-left ((j, g) ∷ d) s k x h =
      go (Bool-cases (str_eq g.attachment_id id)) (remove_links-left d (remove_link s j now) k x)
        (remove_links-left d s k x)
    where
      go :
          (str_eq g.attachment_id id ≡ true) ⊎ (str_eq g.attachment_id id ≡ false)
          → (Dict.get (remove_links d (remove_link s j now) id now).links k ≡ some x
              → (Dict.get (remove_link s j now).links k ≡ some x)
                × (Dict.get d k ≡ some x → x.attachment_id ≢ id))
          → (Dict.get (remove_links d s id now).links k ≡ some x
              → (Dict.get s.links k ≡ some x) × (Dict.get d k ≡ some x → x.attachment_id ≢ id))
          → (Dict.get s.links k ≡ some x)
            × (Dict.get ((j, g) ∷ d) k ≡ some x → x.attachment_id ≢ id)
      go (inl mine) removed kept =
          let r = removed (rw (mine, remove_links) at h) in
          let at_key : Dict.get (remove_link s j now).links k
              ≡ (if str_eq j k then none else Dict.get s.links k) =
            ap (λ e. Dict.get e k) (remove_link-links s j now) ∙ get-remove s.links j k in
          (ground (arith, r.0, at_key), λ e same. ground (arith, r.0, at_key, e, same, r.1))
      go (inr other) removed kept =
          let r = kept (rw (other, remove_links) at h) in
          (r.0, λ e same. ground (arith, e, same, r.1, other, eq_iff g.attachment_id id))

  pub remove_links-grants :
      (d : Dict Link) (s : State) → (remove_links d s id now).grants ≡ s.grants
  unfolding remove_links
  remove_links-grants [] s = refl
  remove_links-grants ((k, g) ∷ d) s = elim (Bool-cases (str_eq g.attachment_id id)) [
    | inl mine ↦
        rw (remove_links, mine)
          (remove_links-grants d (remove_link s k now) ∙ remove_link-grants s k now)
    | inr other ↦ rw (remove_links, other) (remove_links-grants d s)
  ]
