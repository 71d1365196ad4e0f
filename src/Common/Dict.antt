-- ===== src/Common/Dict.antt =====
-- Go's map[string]V as an association list. A loop over a map visits the entries in an order
-- that Go leaves open; the list's order is one such order.
use Prim.Native.String.{String}
use mathlib.Core.Path.{◌≡◌, refl}
use mathlib.Core.Option.{Option, none, some}
use mathlib.Core.Bool.{Bool, true, false}
use mathlib.Core.List.{List, [], ◌∷◌}
use native.Mathlib.Omega.{arith}
use text.Mathlib.Text.{◌==◌}
use text.Mathlib.TextEquality.{eq_iff}
use xmesh.Common.Tests.{if◌then◌else◌}

abbrev pub Dict {ℓ} : Type ℓ → Type ℓ
Dict V = List (String × V)

module _ {ℓ} {V : Type ℓ} where
  -- v, ok := d[k]
  unfoldable pub get : Dict V → String → Option V
  get [] k = none
  get ((j, v) ∷ d) k = if j == k then some v else get d k

  -- d[k] = v
  unfoldable pub put : Dict V → String → V → Dict V
  put [] k v = (k, v) ∷ []
  put ((j, w) ∷ d) k v = if j == k then (k, v) ∷ d else (j, w) ∷ put d k v

  -- delete(d, k)
  unfoldable pub remove : Dict V → String → Dict V
  remove [] k = []
  remove ((j, v) ∷ d) k = let rest = remove d k in if j == k then rest else (j, v) ∷ rest

  -- d[k], the zero value where the key is missing
  abbrev pub get_or : Option V → V → V
  get_or none z = z
  get_or (some v) z = v

  pub get-put :
      (d : Dict V) (k j : String) (v : V) → get (put d k v) j ≡ (if k == j then some v else get d j)
  unfolding get put
  get-put [] k j v = refl
  get-put ((i, w) ∷ d) k j v = ground (arith, eq_iff k j, eq_iff i k, eq_iff i j, get-put d k j v)

  pub get-remove :
      (d : Dict V) (k j : String) → get (remove d k) j ≡ (if k == j then none else get d j)
  unfolding get remove
  get-remove [] k j = ground arith
  get-remove ((i, v) ∷ d) k j = ground (arith, eq_iff k j, eq_iff i k, eq_iff i j, get-remove d k j)

-- Membership as the lookup sees it, where no key stands twice.
module _ {ℓ} {V : Type ℓ} where
  abbrev pub AreDistinct : Dict V → Type ℓ
  AreDistinct [] = Unit
  AreDistinct ((k, v) ∷ d) = (get d k ≡ none) × AreDistinct d

  abbrev pub AreListed : Dict V → Dict V → Type ℓ
  AreListed all [] = Unit
  AreListed all ((k, v) ∷ d) = (get all k ≡ some v) × AreListed all d

  pub put-AreDistinct : (d : Dict V) (k : String) (v : V) → AreDistinct d → AreDistinct (put d k v)
  unfolding put get
  put-AreDistinct [] k v h = (refl, tt)
  put-AreDistinct ((j, w) ∷ d) k v h = go (j == k) refl (put-AreDistinct d k v h.1)
    where
      go :
          (b : Bool)
          → (j == k) ≡ b
          → AreDistinct (put d k v)
          → AreDistinct (if b then (k, v) ∷ d else (j, w) ∷ put d k v)
      go true e rest = (ground (arith, h.0, eq_iff j k, e), h.1)
      go false e rest = (ground (arith, h.0, get-put d k j v, eq_iff k j, eq_iff j k, e), rest)

  pub remove-AreDistinct : (d : Dict V) (k : String) → AreDistinct d → AreDistinct (remove d k)
  unfolding remove get
  remove-AreDistinct [] k h = tt
  remove-AreDistinct ((j, w) ∷ d) k h = go (j == k) refl (remove-AreDistinct d k h.1)
    where
      go :
          (b : Bool)
          → (j == k) ≡ b
          → AreDistinct (remove d k)
          → AreDistinct (if b then remove d k else (j, w) ∷ remove d k)
      go true e rest = rest
      go false e rest = (ground (arith, h.0, get-remove d k j, eq_iff k j, eq_iff j k, e), rest)

  listed_in :
      (all d : Dict V)
      → AreDistinct d
      → ((k : String) (v : V) → get d k ≡ some v → get all k ≡ some v)
      → AreListed all d
  unfolding get
  listed_in all [] h kept = tt
  listed_in all ((k, v) ∷ d) h kept = (
    kept k v (ground (arith, eq_iff k k)),
    listed_in all d h.1 (λ j w e. kept j w (ground (arith, e, h.0, eq_iff k j))),
  )

  pub AreDistinct-listed : (d : Dict V) → AreDistinct d → AreListed d d
  AreDistinct-listed d h = listed_in d d h (λ k v e. e)

pub get-single {ℓ} :
    {V : Type ℓ} (j k : String) (w v : V) → get ((j, w) ∷ []) k ≡ some v → (j ≡ k) × (w ≡ v)
unfolding get
get-single j k w v h = (ground (arith, h, eq_iff j k), ground (arith, h))

pub ruleset dict_laws = (get-put, get-remove)
