-- ===== src/Scheduler/History.antt =====
-- What holds after any history of calls, and of one lease.
use xmesh.Common.{
  ℕ, ◌<◌, ◌≡◌, refl, ap, inl, inr, Bool, true, false, Option, none, some, Option-cases, List, [],
  ◌∷◌, ◌++◌, All, All-In, length, get_elem?, get_elem?-set, get_elem?-append_last, length-append,
  String, arith, Result, ok, err,
}
use xmesh.Common.Int.{ℤ, pos, ◌≤ℤ◌}
use xmesh.Scheduler.Session.{Floats, Session}
use xmesh.Scheduler.Select.{Request, choose, eligible}
use xmesh.Scheduler.Best.{choose-IsBest, choose-none, AreInts}
use xmesh.Scheduler.Accounting.{
  open_leases, open_leases-append_last, open_leases-none, IsAccounted, add-IsAccounted,
  remove-IsAccounted, update_policy-IsAccounted, set_ready-IsAccounted, update_probe-IsAccounted,
  observe_write-IsAccounted,
}
use xmesh.Scheduler.Leases.{
  entries-heap, acquire_links-none, acquire_links-some, acquire_links-IsAccounted,
  release-IsAccounted,
}
use xmesh.Scheduler.{
  Lease, Pool, no_path, new, add, remove, update_policy, set_ready, update_probe, observe_write,
  acquire_links, release, entries,
}

module _ (floats : Floats) where
  -- One call of the pool's methods. The caller makes the sessions; their counters start at 0.
  pub data Step (p : Pool floats) : Pool floats → Type 0 where
    allocates :
        (s : Session floats) → s.active ≡ pos 0 → Step p (record p { heap = p.heap ++ s ∷ [] })
    adds : (pointer : ℕ) → Step p (add floats p pointer).0
    removes : (id : String) (expected : Option ℕ) → Step p (remove floats p id expected)
    updates_policy :
        (link agent : String) (priority weight max_streams : ℤ)
        → Step p (update_policy floats p link agent priority weight max_streams)
    sets_ready :
        (id : String) (ready : Bool) (error : String) (now : ℕ)
        → Step p (set_ready floats p id ready error now)
    updates_probe :
        (expected : Option ℕ) (outcome : Result String ℕ) (now : ℕ)
        → Step p (update_probe floats p expected outcome now)
    observes_write :
        (pointer duration now : ℕ) → Step p (observe_write floats p pointer duration now)
    acquires : (q : Request) → Step p (acquire_links floats p q).0
    releases : (lease : Option ℕ) → Step p (release floats p lease)

  pub data Reach : Pool floats → Type 0 where
    start : Reach (new floats)
    next : {p r : Pool floats} → Reach p → Step p r → Reach r

  All-weaken :
      (n m : ℕ) (ls : List Lease)
      → n < m
      → All (λ l. l.session < n) ls
      → All (λ l. l.session < m) ls
  All-weaken n m [] h k = tt
  All-weaken n m (l ∷ ls) h k = (omega arith, All-weaken n m ls h k.1)

  allocates-IsAccounted :
      (p : Pool floats) (s : Session floats)
      → s.active ≡ pos 0
      → IsAccounted floats p
      → IsAccounted floats (record p { heap = p.heap ++ s ∷ [] })
  allocates-IsAccounted p s e v = record {
    counts = λ r u eu. ground (
      arith,
      get_elem?-append_last p.heap r s,
      v.counts r u,
      open_leases-none p.leases (length p.heap) v.known,
    );
    known =
        All-weaken (length p.heap) (length (p.heap ++ s ∷ [])) p.leases
          (omega (arith, length-append p.heap (s ∷ []))) v.known;
  }

  Step-IsAccounted : {p r : Pool floats} → Step p r → IsAccounted floats p → IsAccounted floats r
  Step-IsAccounted {p} (allocates s e) v = allocates-IsAccounted p s e v
  Step-IsAccounted {p} (adds pointer) v = add-IsAccounted floats p pointer v
  Step-IsAccounted {p} (removes id expected) v = remove-IsAccounted floats p id expected v
  Step-IsAccounted {p} (updates_policy link agent priority weight max_streams) v =
      update_policy-IsAccounted floats p link agent priority weight max_streams v
  Step-IsAccounted {p} (sets_ready id ready error now) v =
      set_ready-IsAccounted floats p id ready error now v
  Step-IsAccounted {p} (updates_probe expected outcome now) v =
      update_probe-IsAccounted floats p expected outcome now v
  Step-IsAccounted {p} (observes_write pointer duration now) v =
      observe_write-IsAccounted floats p pointer duration now v
  Step-IsAccounted {p} (acquires q) v = acquire_links-IsAccounted floats p q v
  Step-IsAccounted {p} (releases lease) v = release-IsAccounted floats p lease v

  -- After any history of calls, the counter of every session is the number of its leases that are
  -- not released; so it is never negative, also for a session that has left the map.
  pub Reach-IsAccounted : {p : Pool floats} → Reach p → IsAccounted floats p
  unfolding new
  Reach-IsAccounted start = record { counts = λ i s e. cc; known = tt }
  Reach-IsAccounted (next r s) = Step-IsAccounted s (Reach-IsAccounted r)

  -- Where `AcquireLinks` succeeds, the new lease names a session that passed the test, and with it
  -- the session has at most `MaxStreams` leases that are not released.
  pub acquire_links-capacity :
      (p : Pool floats) (q : Request) (i : ℕ)
      → IsAccounted floats p
      → (acquire_links floats p q).1 ≡ ok i
      → (pointer : ℕ) × (s : Session floats) × (get_elem? p.heap pointer ≡ some s)
        × (eligible floats q s ≡ true)
        × (get_elem? (acquire_links floats p q).0.leases i
            ≡ some (record { session = pointer; released = false }))
        × (pos (open_leases (acquire_links floats p q).0.leases pointer) ≤ℤ s.max_streams)
  unfolding eligible
  acquire_links-capacity p q i v h =
      elim (Option-cases (choose floats q (entries floats p.heap p.sessions))) [
        | inl e ↦ absurd (ground (arith, acquire_links-none floats p q e))
        | inr ((pointer, s), e) ↦
            let best = choose-IsBest floats q _ _ e in
            let there = entries-heap floats p.heap p.sessions (pointer, s) best.among in
            let last =
              get_elem?-append_last p.leases i (record { session = pointer; released = false }) in
            (
              pointer,
              s,
              there,
              best.passes,
              rw (acquire_links-some floats p q pointer s e)
                  (ground (arith, last, acquire_links-some floats p q pointer s e)),
              rw (acquire_links-some floats p q pointer s e) (
                  ground (
                    arith,
                    open_leases-append_last p.leases pointer pointer,
                    v.counts pointer s there,
                    best.passes,
                  )),
            )
      ]

  -- ErrNoPath leaves the pool as it was, also where the map is empty, and is returned only where no
  -- session of the map passes the test; the sessions' priorities are Go ints.
  pub acquire_links_refused :
      (p : Pool floats) (q : Request)
      → AreInts floats q (entries floats p.heap p.sessions)
      → (acquire_links floats p q).1 ≡ err no_path
      → ((acquire_links floats p q).0 ≡ p)
        × All (λ f. eligible floats q f.1 ≡ false) (entries floats p.heap p.sessions)
  acquire_links_refused p q ints h =
      elim (Option-cases (choose floats q (entries floats p.heap p.sessions))) [
        | inl e ↦ (
          ap (λ r. r.0) (acquire_links-none floats p q e),
          All-In _ (entries floats p.heap p.sessions) λ f hf. choose-none floats q _ f ints e hf,
        )
        | inr ((pointer, s), e) ↦ absurd (ground (arith, acquire_links-some floats p q pointer s e))
      ]

  -- A lease gives its stream back once, however often it is released.
  pub release_twice :
      (p : Pool floats) (lease : Option ℕ)
      → release floats (release floats p lease) lease ≡ release floats p lease
  unfolding release
  release_twice p none = refl
  release_twice p (some i) = elim (Option-cases (get_elem? p.leases i)) [
    | inl e ↦ ground (arith, e)
    | inr (l, e) ↦ ground (arith, e, get_elem?-set p.leases i i (record l { released = true }))
  ]
