-- ===== src/Controller/Upgrades/OneActive.antt =====
-- No node has two upgrades at a time: what each handler does to the tasks keeps this.
use xmesh.Common.{◌≡◌, ◌≢◌, true, false, none, some, List, [], ◌∷◌, All, String, eq_iff, arith}
use xmesh.Common.Dict
use xmesh.Common.Dict.{Dict, get_or, get-put, AreDistinct, put-AreDistinct}
use xmesh.Model.{UpgradeTask}
use xmesh.Controller.Upgrades.Stages.{active_upgrade}
use xmesh.Controller.Upgrades.Pairing.{has_active}
use xmesh.Controller.Upgrades.Create.{put_tasks}

-- Every task is stored under its ID and no ID twice, and two active tasks of one node are the same.
pub record HasOneActive (d : Dict UpgradeTask) : Type 0 where
  pub distinct : AreDistinct d
  pub keyed : (k : String) (a : UpgradeTask) → Dict.get d k ≡ some a → a.id ≡ k
  pub one :
      (j k : String) (a b : UpgradeTask)
      → Dict.get d j ≡ some a
      → Dict.get d k ≡ some b
      → active_upgrade a.stage ≡ true
      → active_upgrade b.stage ≡ true
      → a.node_id ≡ b.node_id
      → j ≡ k

-- No active task is of this node.
abbrev pub IsFree : Dict UpgradeTask → String → Type 0
IsFree d node_id =
    (k : String) (a : UpgradeTask)
    → Dict.get d k ≡ some a
    → active_upgrade a.stage ≡ true
    → a.node_id ≢ node_id

no_active :
    (d : Dict UpgradeTask) (id k : String) (a : UpgradeTask)
    → has_active d id ≡ false
    → Dict.get d k ≡ some a
    → active_upgrade a.stage ≡ true
    → a.node_id ≢ id
unfolding has_active Dict.get
no_active [] id k a h e active same = cc
no_active ((j, b) ∷ d) id k a h e active same =
    ground (arith, h, e, active, eq_iff j k, eq_iff b.node_id id, no_active d id k a)

pub has_active-IsFree : (d : Dict UpgradeTask) (id : String) → has_active d id ≡ false → IsFree d id
has_active-IsFree d id h k a = no_active d id k a h

-- An active task gives way to a later stage of its own.
pub put-HasOneActive :
    (d : Dict UpgradeTask) (k : String) (old new : UpgradeTask)
    → Dict.get d k ≡ some old
    → active_upgrade old.stage ≡ true
    → new.id ≡ old.id
    → new.node_id ≡ old.node_id
    → HasOneActive d
    → HasOneActive (Dict.put d k new)
put-HasOneActive d k old new e active id node v = record {
  distinct = put-AreDistinct d k new v.distinct;
  keyed = λ j a ea. ground (arith, ea, get-put d k j new, eq_iff k j, v.keyed j a, v.keyed k old e);
  one = λ i j a b ea eb aa ab same. ground (
    arith,
    ea,
    eb,
    aa,
    ab,
    same,
    get-put d k i new,
    get-put d k j new,
    eq_iff k i,
    eq_iff k j,
    v.one i j a b,
    v.one k j old b,
    v.one i k a old,
    v.one i i a a,
  );
}

-- A new task for a node without one.
pub put_new-HasOneActive :
    (d : Dict UpgradeTask) (new : UpgradeTask)
    → Dict.get d new.id ≡ none
    → IsFree d new.node_id
    → HasOneActive d
    → HasOneActive (Dict.put d new.id new)
put_new-HasOneActive d new absent free v = record {
  distinct = put-AreDistinct d new.id new v.distinct;
  keyed = λ j a ea. ground (arith, ea, get-put d new.id j new, eq_iff new.id j, v.keyed j a);
  one = λ i j a b ea eb aa ab same. ground (
    arith,
    ea,
    eb,
    aa,
    ab,
    same,
    get-put d new.id i new,
    get-put d new.id j new,
    eq_iff new.id i,
    eq_iff new.id j,
    v.one i j a b,
    free i a,
    free j b,
  );
}

IsFree-put :
    (d : Dict UpgradeTask) (new : UpgradeTask) (id : String)
    → new.node_id ≢ id
    → IsFree d id
    → IsFree (Dict.put d new.id new) id
IsFree-put d new id other free k a e active same =
    ground (arith, e, active, same, other, get-put d new.id k new, free k a)

-- New tasks, for nodes without one, with IDs that are not in use.
abbrev pub AreNew : Dict UpgradeTask → List UpgradeTask → Type 0
AreNew d [] = Unit {0}
AreNew d (t ∷ ts) =
    (Dict.get d t.id ≡ none)
    × IsFree d t.node_id
    × All (λ u. (t.id ≢ u.id) × (t.node_id ≢ u.node_id)) ts
    × AreNew d ts

AreNew-put :
    (d : Dict UpgradeTask) (new : UpgradeTask) (ts : List UpgradeTask)
    → All (λ u. (new.id ≢ u.id) × (new.node_id ≢ u.node_id)) ts
    → AreNew d ts
    → AreNew (Dict.put d new.id new) ts
AreNew-put d new [] apart h = tt
AreNew-put d new (t ∷ ts) apart h = (
  ground (arith, h.0, apart.0, get-put d new.id t.id new, eq_iff new.id t.id),
  IsFree-put d new t.node_id apart.0.1 h.1,
  h.2,
  AreNew-put d new ts apart.1 h.3,
)

pub put_tasks-HasOneActive :
    (ts : List UpgradeTask) (d : Dict UpgradeTask)
    → AreNew d ts
    → HasOneActive d
    → HasOneActive (put_tasks ts d)
unfolding put_tasks
put_tasks-HasOneActive [] d h v = v
put_tasks-HasOneActive (t ∷ ts) d h v =
    put_tasks-HasOneActive ts (Dict.put d t.id t) (AreNew-put d t ts h.2 h.3)
      (put_new-HasOneActive d t h.0 h.1 v)
