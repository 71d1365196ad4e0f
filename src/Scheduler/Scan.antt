-- ===== src/Scheduler/Scan.antt =====
-- The scan of the sessions: it keeps the eligible ones of the lowest priority number.
use xmesh.Common.{
  ◌≡◌, refl, ◌⊎◌, inl, inr, true, List, [], ◌∷◌, ◌++◌, All, In, In-append_left, In-append_last,
  All-append_last, arith,
}
use xmesh.Common.Int.{◌<ℤ◌, eq_of_parts}
use xmesh.Scheduler.Session.{Floats}
use xmesh.Scheduler.Select.{Request, Entry, Scan, max_int, eligible, consider, scan}

module _ (floats : Floats) (q : Request) where
  -- What the scan knows of a session that it has seen: it is a candidate, or a candidate comes
  -- before it by priority.
  abbrev pub Covered : Scan floats q → Entry floats q → Type 0
  Covered st e =
      eligible floats q e.1 ≡ true → (st.0 <ℤ e.1.priority) ⊎ ((e.1.priority ≡ st.0) × In e st.1)

  consider-covers : (st : Scan floats q) (e : Entry floats q) → Covered (consider floats q st e) e
  unfolding consider
  consider-covers st e ok =
      ground (arith, eq_of_parts e.1.priority st.0, In-append_last e [], In-append_last e st.1)

  consider-keeps :
      (st : Scan floats q) (e f : Entry floats q)
      → Covered st f
      → Covered (consider floats q st e) f
  unfolding consider
  consider-keeps st e f h ok =
      ground (arith, h ok, eq_of_parts e.1.priority st.0, In-append_left f st.1 (e ∷ []))

  scan-keeps :
      (st : Scan floats q) (es : List (Entry floats q)) (f : Entry floats q)
      → Covered st f
      → Covered (scan floats q st es) f
  unfolding scan
  scan-keeps st [] f h = h
  scan-keeps st (e ∷ es) f h = scan-keeps (consider floats q st e) es f (consider-keeps st e f h)

  pub scan-covers :
      (st : Scan floats q) (es : List (Entry floats q)) (f : Entry floats q)
      → In f es
      → Covered (scan floats q st es) f
  unfolding scan
  scan-covers st [] f h = absurd h
  scan-covers st (e ∷ es) f (inl p) =
      scan-keeps (consider floats q st e) es f (rw p (consider-covers st e))
  scan-covers st (e ∷ es) f (inr h) = scan-covers (consider floats q st e) es f h

  -- Every candidate has passed the test, and has the scan's priority.
  abbrev pub Candidate : (Entry floats q → Type 0) → Scan floats q → Entry floats q → Type 0
  Candidate P st c = (eligible floats q c.1 ≡ true) × (c.1.priority ≡ st.0) × P c

  -- The three outcomes of a round.
  consider-cases :
      (st : Scan floats q) (e : Entry floats q)
      → (consider floats q st e ≡ st)
        ⊎ ((eligible floats q e.1 ≡ true) × (consider floats q st e ≡ (e.1.priority, e ∷ [])))
        ⊎ ((eligible floats q e.1 ≡ true)
            × (e.1.priority ≡ st.0)
            × (consider floats q st e ≡ (st.0, st.1 ++ e ∷ [])))
  unfolding consider
  consider-cases st e = ground (arith, eq_of_parts e.1.priority st.0)

  consider_sound :
      (P : Entry floats q → Type 0) (st : Scan floats q) (e : Entry floats q)
      → P e
      → All (Candidate P st) st.1
      → All (Candidate P (consider floats q st e)) (consider floats q st e).1
  consider_sound P st e pe h = elim (consider-cases st e) [
    | inl same ↦ rw same h
    | inr (inl (ok, lower)) ↦ rw lower ((ok, refl, pe), tt)
    | inr (inr (ok, equal, joins)) ↦
        rw joins (All-append_last (Candidate P st) e st.1 h (ok, equal, pe))
  ]

  pub scan_sound :
      (P : Entry floats q → Type 0) (st : Scan floats q) (es : List (Entry floats q))
      → All P es
      → All (Candidate P st) st.1
      → All (Candidate P (scan floats q st es)) (scan floats q st es).1
  unfolding scan
  scan_sound P st [] h k = k
  scan_sound P st (e ∷ es) h k =
      scan_sound P (consider floats q st e) es h.1 (consider_sound P st e h.0 k)

  -- While no candidate is kept, the priority is the initial one.
  abbrev pub Started : Scan floats q → Type 0
  Started st = (st.0 ≡ max_int) ⊎ ((c : Entry floats q) × In c st.1)

  pub scan-Started :
      (st : Scan floats q) (es : List (Entry floats q)) → Started st → Started (scan floats q st es)
  unfolding scan
  scan-Started st [] h = h
  scan-Started st (e ∷ es) h =
      scan-Started (consider floats q st e) es (elim (consider-cases st e) [
        | inl same ↦ rw same h
        | inr (inl (ok, lower)) ↦ rw lower (inr (e, inl refl))
        | inr (inr (ok, equal, joins)) ↦ rw joins (inr (e, In-append_last e st.1))
      ])
