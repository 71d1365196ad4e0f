-- ===== src/Scheduler/Accounting.antt =====
-- The counter `active` of a session against the leases that name it.
use xmesh.Common.{
  ℕ, zero, suc, ◌+◌, ◌<◌, ◌≡◌, refl, ◌∙◌, inl, inr, Bool, true, false, ◌&&◌, not, Bool-cases,
  Option, none, some, Option-cases, List, [], ◌∷◌, ◌++◌, All, length, get_elem?, set, get_elem?-set,
  length-set, String, ◌==◌, if◌then◌else◌, arith, Result, ok, err,
}
use xmesh.Common.Dict
use xmesh.Common.Dict.{Dict}
use xmesh.Common.Int.{ℤ, pos}
use xmesh.Scheduler.Session.{Floats, Session}
use xmesh.Scheduler.{
  Lease, Pool, modify, add, remove, update_policy, modify_all, set_policy, set_ready, probed,
  update_probe, observe_write, normalise, same_pointer,
}

-- How many leases on a session are not released.
abbrev pub open_leases : List Lease → ℕ → ℕ
open_leases [] p = 0
open_leases (l ∷ ls) p = (if not l.released && (l.session == p) then 1 else 0) + open_leases ls p

pub open_leases-append_last :
    (ls : List Lease) (p r : ℕ)
    → open_leases (ls ++ record { session = p; released = false } ∷ []) r
      ≡ open_leases ls r + (if p == r then 1 else 0)
open_leases-append_last [] p r = ground arith
open_leases-append_last (l ∷ ls) p r = ground (arith, open_leases-append_last ls p r)

-- Releasing an open lease takes one from its session's count, and nothing from the others'.
pub open_leases-release :
    (ls : List Lease) (i r : ℕ) (l : Lease)
    → get_elem? ls i ≡ some l
    → l.released ≡ false
    → open_leases (set ls i (record l { released = true })) r + (if l.session == r then 1 else 0)
      ≡ open_leases ls r
open_leases-release [] i r l e h = cc
open_leases-release (k ∷ ls) zero r l e h = ground arith
open_leases-release (k ∷ ls) (suc i) r l e h = ground (arith, open_leases-release ls i r l e h)

pub open_leases-none :
    (ls : List Lease) (p : ℕ) → All (λ l. l.session < p) ls → open_leases ls p ≡ 0
open_leases-none [] p h = refl
open_leases-none (l ∷ ls) p h = ground (arith, open_leases-none ls p h.1)

module _ (floats : Floats) where
  abbrev pub Accounted : List (Session floats) → List Lease → Type 0
  Accounted heap ls =
      (p : ℕ) (s : Session floats) → get_elem? heap p ≡ some s → s.active ≡ pos (open_leases ls p)

  pub record IsAccounted (p : Pool floats) : Type 0 where
    pub counts : Accounted p.heap p.leases
    pub known : All (λ l. l.session < length p.heap) p.leases

  -- A write of one session that leaves its counter alone.
  set-Accounted :
      (heap : List (Session floats)) (ls : List Lease) (p : ℕ) (s t : Session floats)
      → get_elem? heap p ≡ some s
      → t.active ≡ s.active
      → Accounted heap ls
      → Accounted (set heap p t) ls
  set-Accounted heap ls p s t e same h r u eu =
      ground (arith, get_elem?-set heap p r t, h r u, h p s)

  pub modify-none :
      (heap : List (Session floats)) (p : ℕ) (f : Session floats → Session floats)
      → get_elem? heap p ≡ none
      → modify floats heap p f ≡ heap
  modify-none heap p f e = ground arith

  pub modify-some :
      (heap : List (Session floats)) (p : ℕ) (f : Session floats → Session floats)
      (s : Session floats)
      → get_elem? heap p ≡ some s
      → modify floats heap p f ≡ set heap p (f s)
  modify-some heap p f s e = ground arith

  -- Updating a session in place keeps the accounts and the heap's size, if it keeps the counter.
  modify-keeps :
      (heap : List (Session floats)) (ls : List Lease) (p : ℕ) (f : Session floats → Session floats)
      → ((s : Session floats) → (f s).active ≡ s.active)
      → Accounted heap ls
      → Accounted (modify floats heap p f) ls × (length (modify floats heap p f) ≡ length heap)
  modify-keeps heap ls p f same h = elim (Option-cases (get_elem? heap p)) [
    | inl e ↦ rw (modify-none heap p f e) (h, refl)
    | inr (s, e) ↦
        rw (modify-some heap p f s e)
          (set-Accounted heap ls p s (f s) e (same s) h, length-set heap p (f s))
  ]

  modify_all-keeps :
      (d : Dict ℕ) (heap : List (Session floats)) (ls : List Lease)
      (f : Session floats → Session floats)
      → ((s : Session floats) → (f s).active ≡ s.active)
      → Accounted heap ls
      → Accounted (modify_all floats d f heap) ls
        × (length (modify_all floats d f heap) ≡ length heap)
  unfolding modify_all
  modify_all-keeps [] heap ls f same h = (h, refl)
  modify_all-keeps ((id, p) ∷ d) heap ls f same h =
      let one = modify-keeps heap ls p f same h in
      let all = modify_all-keeps d (modify floats heap p f) ls f same one.0 in
      (all.0, all.1 ∙ one.1)

  -- A pool of which only the heap has changed, and no counter.
  with_heap :
      (p : Pool floats) (heap : List (Session floats))
      → IsAccounted p
      → Accounted heap p.leases × (length heap ≡ length p.heap)
      → (d : Dict ℕ) → IsAccounted (record p { heap = heap; sessions = d })
  with_heap p heap v h d = record { counts = h.0; known = rw h.1 v.known }

  pub add-IsAccounted :
      (p : Pool floats) (pointer : ℕ) → IsAccounted p → IsAccounted (add floats p pointer).0
  unfolding add
  add-IsAccounted p pointer v = elim (Option-cases (get_elem? p.heap pointer)) [
    | inl e ↦ rw (e, add) v
    | inr (s, e) ↦
        rw (e, add)
          (with_heap p (set p.heap pointer (normalise floats s)) v
            (
              set-Accounted p.heap p.leases pointer s (normalise floats s) e refl v.counts,
              length-set p.heap pointer (normalise floats s),
            )
            _)
  ]

  pub remove-IsAccounted :
      (p : Pool floats) (id : String) (expected : Option ℕ)
      → IsAccounted p
      → IsAccounted (remove floats p id expected)
  unfolding remove
  remove-IsAccounted p id expected v =
      elim (Bool-cases (same_pointer floats (Dict.get p.sessions id) expected)) [
        | inl e ↦ rw e (record { counts = v.counts; known = v.known })
        | inr e ↦ rw e v
      ]

  pub update_policy-IsAccounted :
      (p : Pool floats) (link agent : String) (priority weight max_streams : ℤ)
      → IsAccounted p
      → IsAccounted (update_policy floats p link agent priority weight max_streams)
  unfolding update_policy
  update_policy-IsAccounted p link agent priority weight max_streams v =
      with_heap p _ v
        (modify_all-keeps p.sessions p.heap p.leases
          (set_policy floats link agent priority weight max_streams) (λ s. ground arith) v.counts)
        p.sessions

  pub set_ready-IsAccounted :
      (p : Pool floats) (id : String) (ready : Bool) (error : String) (now : ℕ)
      → IsAccounted p
      → IsAccounted (set_ready floats p id ready error now)
  unfolding set_ready
  set_ready-IsAccounted p id ready error now v = elim (Option-cases (Dict.get p.sessions id)) [
    | inl e ↦ rw (e, set_ready) v
    | inr (pointer, e) ↦
        rw (e, set_ready)
          (with_heap p _ v (modify-keeps p.heap p.leases pointer _ (λ s. refl) v.counts) p.sessions)
  ]

  probed-active :
      (outcome : Result String ℕ) (now : ℕ) (s : Session floats)
      → (probed floats outcome now s).active ≡ s.active
  unfolding probed
  probed-active (ok micros) now s = refl
  probed-active (err error) now s = refl

  pub update_probe-IsAccounted :
      (p : Pool floats) (expected : Option ℕ) (outcome : Result String ℕ) (now : ℕ)
      → IsAccounted p
      → IsAccounted (update_probe floats p expected outcome now)
  unfolding update_probe
  update_probe-IsAccounted p none outcome now v = v
  update_probe-IsAccounted p (some x) outcome now v = elim (Option-cases (get_elem? p.heap x)) [
    | inl e ↦ rw (e, update_probe) v
    | inr (s, e) ↦ elim (Bool-cases (same_pointer floats (Dict.get p.sessions s.id) (some x))) [
      | inr other ↦ rw (e, update_probe) (rw other v)
      | inl same ↦
          rw (e, update_probe)
            (rw same (
              with_heap p _ v
                (
                  set-Accounted p.heap p.leases x s (probed floats outcome now s) e
                      (probed-active outcome now s) v.counts,
                  length-set p.heap x (probed floats outcome now s),
                )
                p.sessions))
    ]
  ]

  pub observe_write-IsAccounted :
      (p : Pool floats) (pointer duration now : ℕ)
      → IsAccounted p
      → IsAccounted (observe_write floats p pointer duration now)
  unfolding observe_write
  observe_write-IsAccounted p pointer duration now v =
      with_heap p _ v (modify-keeps p.heap p.leases pointer _ (λ s. refl) v.counts) p.sessions
