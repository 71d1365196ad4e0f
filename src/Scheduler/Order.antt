-- ===== src/Scheduler/Order.antt =====
-- The sort of the candidates: `less` is a strict order, and the head of the sorted list is least.
use xmesh.Common.{
  ◌≡◌, refl, inl, inr, true, false, Bool-cases, some, List, [], ◌∷◌, In, if◌then◌else◌, arith,
}
use xmesh.Common.Texts.{str_lt_irrefl, str_lt_trans, str_lt_connex}
use xmesh.Scheduler.Session.{Floats, load_score}
use xmesh.Scheduler.Select.{Request, Entry, less, insert, sort, first}

module _ (floats : Floats) (q : Request) where
  open floats use {eqf, ltf, eqf_iff, ltf_irrefl, ltf_trans, ltf_connex}

  -- `less` is a strict order of the sessions.
  less_irrefl : (e : Entry floats q) → less floats q e e ≡ false
  unfolding less
  less_irrefl e = ground (
    arith,
    eqf_iff (load_score floats e.1 q.now) (load_score floats e.1 q.now),
    str_lt_irrefl e.1.id,
    ltf_irrefl (load_score floats e.1 q.now),
  )

  less_trans :
      (a b c : Entry floats q)
      → less floats q a b ≡ true
      → less floats q b c ≡ true
      → less floats q a c ≡ true
  unfolding less
  less_trans a b c h k =
      let x = load_score floats a.1 q.now in
      let y = load_score floats b.1 q.now in
      let z = load_score floats c.1 q.now in
      ground (
        arith,
        eqf_iff x y,
        eqf_iff y z,
        eqf_iff x z,
        str_lt_trans a.1.id b.1.id c.1.id,
        ltf_trans x y z,
        ltf_trans x y x,
        ltf_irrefl x,
      )

  -- Sessions of which neither is less have the same ID.
  pub less_connex :
      (a b : Entry floats q)
      → less floats q a b ≡ false
      → less floats q b a ≡ false
      → a.1.id ≡ b.1.id
  unfolding less
  less_connex a b h k =
      let x = load_score floats a.1 q.now in
      let y = load_score floats b.1 q.now in
      ground (arith, eqf_iff x y, eqf_iff y x, ltf_connex x y, str_lt_connex a.1.id b.1.id)

  -- The head of the sorted list is one of its elements, and none is less.
  pub record Least (es : List (Entry floats q)) (m : Entry floats q) : Type 0 where
    pub among : In m es
    pub least : (c : Entry floats q) → In c es → less floats q c m ≡ false

  insert-first :
      (e : Entry floats q) (fs : List (Entry floats q)) (m : Entry floats q)
      → first floats q fs ≡ some m
      → first floats q (insert floats q e fs) ≡ some (if less floats q e m then e else m)
  unfolding insert
  insert-first e [] m h = cc
  insert-first e (f ∷ fs) m h = ground arith

  Least-insert :
      (e : Entry floats q) (es : List (Entry floats q)) (m : Entry floats q)
      → Least es m
      → Least (e ∷ es) (if less floats q e m then e else m)
  Least-insert e es m h = elim (Bool-cases (less floats q e m)) [
    | inl wins ↦ rw wins (record {
      among = inl refl;
      least = λ c hc. elim hc [
        | inl same ↦ rw same (less_irrefl e)
        | inr old ↦ ground (arith, less_trans c e m, h.least c old)
      ];
    })
    | inr loses ↦ rw loses (record {
      among = inr h.among;
      least = λ c hc. elim hc [ inl same ↦ rw same loses | inr old ↦ h.least c old ];
    })
  ]

  pub sort-Least :
      (e : Entry floats q) (es : List (Entry floats q))
      → (m : Entry floats q) × (first floats q (sort floats q (e ∷ es)) ≡ some m) × Least (e ∷ es) m
  unfolding sort
  sort-Least e [] = (
    e,
    refl,
    record {
      among = inl refl;
      least = λ c hc. elim hc [ inl same ↦ rw same (less_irrefl e) | inr no_more ↦ absurd no_more ];
    },
  )
  sort-Least e (f ∷ fs) =
      let (m, head, least) = sort-Least f fs in
      (
        if less floats q e m then e else m,
        insert-first e (sort floats q (f ∷ fs)) m head,
        Least-insert e (f ∷ fs) m least,
      )
