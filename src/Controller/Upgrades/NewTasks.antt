-- ===== src/Controller/Upgrades/NewTasks.antt =====
-- The tasks that `createUpgrade` stores are new: each of a node without an active one.
use xmesh.Common.{
  ℕ, ◌≡◌, ◌≢◌, refl, ap, sym, subst, ◌∙◌, false, none, List, [], ◌∷◌, All, String, eq_iff, arith,
  Result, ok, err, ok-injective, err-ok,
}
use xmesh.Common.Dict
use xmesh.Common.Dict.{Dict, get_or, get-put}
use xmesh.Model.{State, UpgradeTask}
use xmesh.Controller.Upgrades.Pairing.{has_active}
use xmesh.Controller.Upgrades.Create.{
  CreateError, check_task, check_tasks, new_task, new_tasks, has_duplicate, one_of_ids,
}
use xmesh.Controller.Upgrades.OneActive.{AreNew, IsFree, has_active-IsFree}

check_task-ok :
    (s : State) (at : ℕ) (version : String) (t u : UpgradeTask)
    → check_task s at version t ≡ ok u
    → (u.id ≡ t.id) × (u.node_id ≡ t.node_id) × (has_active s.upgrade_tasks t.node_id ≡ false)
unfolding check_task
check_task-ok s at version t u h = (ground (arith, h), ground (arith, h), ground (arith, h))

-- The tasks as `createUpgrade` makes them: with different IDs, not in use, for different nodes.
abbrev AreApart : UpgradeTask → List UpgradeTask → Type 0
AreApart t = All λ u. (t.id ≢ u.id) × (t.node_id ≢ u.node_id)

abbrev pub AreFresh : Dict UpgradeTask → List UpgradeTask → Type 0
AreFresh d [] = Unit {0}
AreFresh d (t ∷ ts) = (Dict.get d t.id ≡ none) × AreApart t ts × AreFresh d ts

-- The checks keep the IDs and the nodes, and none of the nodes has an active task.
abbrev AreChecked : Dict UpgradeTask → List UpgradeTask → List UpgradeTask → Type 0
AreChecked d [] [] = Unit {0}
AreChecked d (t ∷ ts) (u ∷ us) =
    (u.id ≡ t.id) × (u.node_id ≡ t.node_id) × IsFree d t.node_id × AreChecked d ts us
AreChecked d _ _ = ⊥

pub check_tasks-AreChecked :
    (s : State) (at : ℕ) (version : String) (ts us : List UpgradeTask)
    → check_tasks s at version ts ≡ ok us
    → AreChecked s.upgrade_tasks ts us
unfolding check_tasks
check_tasks-AreChecked s at version [] us h =
    subst (AreChecked s.upgrade_tasks []) (ok-injective [] us h) tt
check_tasks-AreChecked s at version (t ∷ ts) us h =
    go (check_task s at version t) refl (check_tasks s at version ts) refl
      (λ vs. check_tasks-AreChecked s at version ts vs)
  where
    go :
        (r : Result CreateError UpgradeTask)
        → check_task s at version t ≡ r
        → (rs : Result CreateError (List UpgradeTask)) → check_tasks s at version ts ≡ rs
        → ((vs : List UpgradeTask)
            → check_tasks s at version ts ≡ ok vs
            → AreChecked s.upgrade_tasks ts vs)
        → AreChecked s.upgrade_tasks (t ∷ ts) us
    go (err x) e rs f ih = absurd (err-ok x us (rw (e, check_tasks) at h))
    go (ok u) e (err x) f ih =
        absurd (err-ok x us (rw (f, check_tasks) at (rw (e, check_tasks) at h)))
    go (ok u) e (ok vs) f ih =
        let one = check_task-ok s at version t u e in
        subst (AreChecked s.upgrade_tasks (t ∷ ts))
          (ok-injective (u ∷ vs) us (rw (f, check_tasks) at (rw (e, check_tasks) at h)))
          (one.0, one.1, has_active-IsFree s.upgrade_tasks t.node_id one.2, ih vs f)

AreApart-AreChecked :
    (d : Dict UpgradeTask) (t u : UpgradeTask) (ts us : List UpgradeTask)
    → u.id ≡ t.id
    → u.node_id ≡ t.node_id
    → AreChecked d ts us
    → AreApart t ts
    → AreApart u us
AreApart-AreChecked d t u [] [] i n c h = tt
AreApart-AreChecked d t u [] (b ∷ us) i n c h = absurd c
AreApart-AreChecked d t u (a ∷ ts) [] i n c h = absurd c
AreApart-AreChecked d t u (a ∷ ts) (b ∷ us) i n c h = (
  ((λ e. h.0.0 (sym i ∙ e ∙ c.0)), (λ e. h.0.1 (sym n ∙ e ∙ c.1))),
  AreApart-AreChecked d t u ts us i n c.3 h.1,
)

pub AreChecked-AreNew :
    (d : Dict UpgradeTask) (ts us : List UpgradeTask)
    → AreFresh d ts
    → AreChecked d ts us
    → AreNew d us
AreChecked-AreNew d [] [] f c = tt
AreChecked-AreNew d [] (b ∷ us) f c = absurd c
AreChecked-AreNew d (a ∷ ts) [] f c = absurd c
AreChecked-AreNew d (t ∷ ts) (u ∷ us) f c = (
  ap (Dict.get d) c.0 ∙ f.0,
  subst (IsFree d) (sym c.1) c.2,
  AreApart-AreChecked d t u ts us c.0 c.1 c.3 f.1,
  AreChecked-AreNew d ts us f.2 c.3,
)

-- The tokens for the IDs: different from each other and from the IDs in use.
abbrev pub AreTokens : Dict UpgradeTask → List String → Type 0
AreTokens d [] = Unit {0}
AreTokens d (k ∷ ks) = (Dict.get d k ≡ none) × All (λ j. k ≢ j) ks × AreTokens d ks

new_tasks-apart :
    (batch actor version : String) (now : ℕ) (t : UpgradeTask) (ids tokens : List String)
    → All (λ j. t.id ≢ j) tokens
    → one_of_ids t.node_id ids ≡ false
    → AreApart t (new_tasks batch actor version now ids tokens)
unfolding new_tasks one_of_ids
new_tasks-apart batch actor version now t [] tokens h k = tt
new_tasks-apart batch actor version now t (id ∷ ids) [] h k = tt
new_tasks-apart batch actor version now t (id ∷ ids) (token ∷ tokens) h k = (
  (h.0, λ e. ground (arith, k, e, eq_iff t.node_id id)),
  new_tasks-apart batch actor version now t ids tokens h.1 (ground (arith, k)),
)

pub new_tasks-AreFresh :
    (d : Dict UpgradeTask) (batch actor version : String) (now : ℕ) (ids tokens : List String)
    → has_duplicate ids ≡ false
    → AreTokens d tokens
    → AreFresh d (new_tasks batch actor version now ids tokens)
unfolding new_tasks has_duplicate
new_tasks-AreFresh d batch actor version now [] tokens h k = tt
new_tasks-AreFresh d batch actor version now (id ∷ ids) [] h k = tt
new_tasks-AreFresh d batch actor version now (id ∷ ids) (token ∷ tokens) h k = (
  k.0,
  new_tasks-apart batch actor version now (new_task batch actor version now id token) ids tokens k.1
      (ground (arith, h)),
  new_tasks-AreFresh d batch actor version now ids tokens (ground (arith, h)) k.2,
)
