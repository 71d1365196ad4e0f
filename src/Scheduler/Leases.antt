-- ===== src/Scheduler/Leases.antt =====
-- Taking and giving back leases, and the counters after any history of calls.
use xmesh.Common.{
  ℕ, zero, suc, ◌+◌, ◌<◌, ◌≡◌, ap, inl, inr, true, false, Bool-cases, Option, none, some,
  Option-cases, List, [], ◌∷◌, ◌++◌, In, All-append_last, length, get_elem?, set, get_elem?-set,
  length-set, get_elem?-lt, get_elem?-of_lt, All-get_elem?, All-set, arith, ok, err,
}
use xmesh.Common.Dict.{Dict}
use xmesh.Common.Int.{pos}
use xmesh.Scheduler.Session.{Floats, Session, inc, dec}
use xmesh.Scheduler.Select.{Request, choose}
use xmesh.Scheduler.Best.{choose-IsBest}
use xmesh.Scheduler.Accounting.{
  open_leases, open_leases-append_last, open_leases-release, IsAccounted, modify-some,
}
use xmesh.Scheduler.{Lease, Pool, no_path, modify, acquire_links, release, entries}

dec-pos : (n m : ℕ) → m + 1 ≡ n → dec (pos n) ≡ pos m
dec-pos zero m h = absurd (omega arith)
dec-pos (suc n) m h = ap pos (omega arith)

module _ (floats : Floats) where
  -- What the loop visits is in the heap.
  pub entries-heap :
      (heap : List (Session floats)) (d : Dict ℕ) (e : ℕ × Session floats)
      → In e (entries floats heap d)
      → get_elem? heap e.0 ≡ some e.1
  unfolding entries
  entries-heap heap [] e h = absurd h
  entries-heap heap ((id, p) ∷ d) e h = elim (Option-cases (get_elem? heap p)) [
    | inl x ↦ entries-heap heap d e (ground arith)
    | inr (s, x) ↦ ground (arith, entries-heap heap d e)
  ]

  -- The two outcomes of `AcquireLinks`.
  pub acquire_links-none :
      (p : Pool floats) (q : Request)
      → choose floats q (entries floats p.heap p.sessions) ≡ none
      → acquire_links floats p q ≡ (p, err no_path)
  unfolding acquire_links
  acquire_links-none p q e = rw (e, acquire_links)

  abbrev pub leased : Pool floats → ℕ → Session floats → Pool floats
  leased p pointer s = record p {
    heap = set p.heap pointer (record s { active = inc s.active });
    leases = p.leases ++ record { session = pointer; released = false } ∷ [];
  }

  pub acquire_links-some :
      (p : Pool floats) (q : Request) (pointer : ℕ) (s : Session floats)
      → choose floats q (entries floats p.heap p.sessions) ≡ some (pointer, s)
      → acquire_links floats p q ≡ (leased p pointer s, ok (length p.leases))
  unfolding acquire_links
  acquire_links-some p q pointer s e = rw (e, acquire_links)

  leased-IsAccounted :
      (p : Pool floats) (pointer : ℕ) (s : Session floats)
      → get_elem? p.heap pointer ≡ some s
      → IsAccounted floats p
      → IsAccounted floats (leased p pointer s)
  leased-IsAccounted p pointer s e v = record {
    counts = λ r u eu. ground (
      arith,
      get_elem?-set p.heap pointer r (record s { active = inc s.active }),
      open_leases-append_last p.leases pointer r,
      v.counts r u,
      v.counts pointer s e,
    );
    known = rw (length-set p.heap pointer (record s { active = inc s.active })) (
        All-append_last (λ (l : Lease). l.session < length p.heap) _ p.leases v.known
          (get_elem?-lt p.heap pointer e));
  }

  pub acquire_links-IsAccounted :
      (p : Pool floats) (q : Request)
      → IsAccounted floats p
      → IsAccounted floats (acquire_links floats p q).0
  acquire_links-IsAccounted p q v =
      elim (Option-cases (choose floats q (entries floats p.heap p.sessions))) [
        | inl e ↦ rw (acquire_links-none p q e) v
        | inr ((pointer, s), e) ↦ rw (acquire_links-some p q pointer s e) (
            leased-IsAccounted p pointer s
              (entries-heap p.heap p.sessions (pointer, s) (choose-IsBest floats q _ _ e).among) v)
      ]

  abbrev released : Pool floats → ℕ → Lease → Pool floats
  released p i l = record p {
    heap = modify floats p.heap l.session λ s. record s { active = dec s.active };
    leases = set p.leases i (record l { released = true });
  }

  released-IsAccounted :
      (p : Pool floats) (i : ℕ) (l : Lease)
      → get_elem? p.leases i ≡ some l
      → l.released ≡ false
      → IsAccounted floats p
      → IsAccounted floats (released p i l)
  released-IsAccounted p i l e live v =
      let in_heap =
        All-get_elem? (λ (k : Lease). k.session < length p.heap) p.leases i l v.known e in
      let (s, es) = get_elem?-of_lt p.heap l.session in_heap in
      let s' : Session floats = record s { active = dec s.active } in
      rw (modify-some floats p.heap l.session (λ u. record u { active = dec u.active }) s es)
        (record {
          counts = λ r u eu. ground (
            arith,
            get_elem?-set p.heap l.session r s',
            open_leases-release p.leases i r l e live,
            v.counts r u,
            v.counts l.session s es,
            dec-pos (open_leases p.leases r)
                (open_leases (set p.leases i (record l { released = true })) r),
          );
          known =
              rw (length-set p.heap l.session s')
                (All-set (λ (k : Lease). k.session < length p.heap) p.leases i _ v.known in_heap);
        })

  pub release-IsAccounted :
      (p : Pool floats) (i : Option ℕ)
      → IsAccounted floats p
      → IsAccounted floats (release floats p i)
  unfolding release
  release-IsAccounted p none v = v
  release-IsAccounted p (some i) v = elim (Option-cases (get_elem? p.leases i)) [
    | inl e ↦ rw (e, release) v
    | inr (l, e) ↦ elim (Bool-cases l.released) [
      | inl done ↦ rw (e, release) (rw done v)
      | inr live ↦ rw (e, release) (rw live (released-IsAccounted p i l e live v))
    ]
  ]
