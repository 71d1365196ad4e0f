-- ===== src/Common/Derived.antt =====
-- Dictionaries whose values come from another's, and those that have at least its keys.
use Prim.Native.String.{String}
use mathlib.Core.Path.{◌≡◌, refl, sym, subst, ◌∙◌}
use mathlib.Core.Bool.{Bool, true, false}
use mathlib.Core.Option.{Option, none, some}
use native.Mathlib.Omega.{arith}
use text.Mathlib.Text.{◌==◌}
use xmesh.Common.Dict
use xmesh.Common.Dict.{Dict, get-put, get-remove}

abbrev pub exists : {A : Type 0} → Option A → Bool
exists none = false
exists (some a) = true

module _ {V : Type 0} where
  -- Every value of the second is, by its mark, one of the first.
  abbrev pub Derived : {K : Type 0} → (V → K) → Dict V → Dict V → Type 0
  Derived mark d e =
      (k : String) (v : V)
      → Dict.get e k ≡ some v
      → (j : String) × (w : V) × (Dict.get d j ≡ some w) × (mark v ≡ mark w)

  abbrev pub Grows : Dict V → Dict V → Type 0
  Grows d e = (k : String) → exists (Dict.get d k) ≡ true → exists (Dict.get e k) ≡ true

  pub exists-some : (o : Option V) → exists o ≡ true → (v : V) × (o ≡ some v)
  exists-some none h = cc
  exists-some (some v) h = (v, refl)

  pub Grows-put : (d : Dict V) (k : String) (v : V) → Grows d (Dict.put d k v)
  Grows-put d k v j h = ground (arith, h, get-put d k j v)

  pub Grows-same : (d e : Dict V) → e ≡ d → Grows d e
  Grows-same d e h = subst (Grows d) (sym h) (λ k x. x)

  pub Grows-put_same : (d e : Dict V) (k : String) (v : V) → e ≡ d → Grows d (Dict.put e k v)
  Grows-put_same d e k v h = subst (λ x. Grows d (Dict.put x k v)) (sym h) (Grows-put d k v)

module _ {V K : Type 0} (mark : V → K) where
  pub Derived-refl : (d : Dict V) → Derived mark d d
  Derived-refl d k v e = (k, v, e, refl)

  pub Derived-trans : (d e f : Dict V) → Derived mark d e → Derived mark e f → Derived mark d f
  Derived-trans d e f h g k v at =
      let one = g k v at in let two = h one.0 one.1 one.2 in (two.0, two.1, two.2, one.3 ∙ two.3)

  pub Derived-remove : (d : Dict V) (k : String) → Derived mark d (Dict.remove d k)
  Derived-remove d k j v e = (j, v, ground (arith, e, get-remove d k j), refl)

  pub Derived-put :
      (d : Dict V) (i j : String) (old new : V)
      → Dict.get d i ≡ some old
      → mark new ≡ mark old
      → Derived mark d (Dict.put d j new)
  Derived-put d i j old new e m k v at = go (j == k) refl
    where
      go :
          (b : Bool)
          → (j == k) ≡ b
          → (i : String) × (w : V) × (Dict.get d i ≡ some w) × (mark v ≡ mark w)
      go true same = (
        i,
        old,
        e,
        subst (λ x. mark x ≡ mark old) (ground (arith, at, get-put d j k new, same)) m,
      )
      go false other = (k, v, ground (arith, at, get-put d j k new, other), refl)

  pub Derived-same : (d e : Dict V) → e ≡ d → Derived mark d e
  Derived-same d e h = subst (Derived mark d) (sym h) (Derived-refl d)

  pub Derived-remove_same : (d e : Dict V) (k : String) → e ≡ d → Derived mark d (Dict.remove e k)
  Derived-remove_same d e k h =
      subst (λ x. Derived mark d (Dict.remove x k)) (sym h) (Derived-remove d k)
