-- ===== src/Scheduler/Best.antt =====
-- The session that `AcquireLinks` chooses: first by priority, then by load score, then by ID.
use xmesh.Common.{
  ◌≡◌, ◌↔◌, refl, ap, sym, ◌∙◌, ◌⊎◌, inl, inr, Bool, true, false, Bool-cases, none, some,
  Option-cases, List, [], ◌∷◌, All, In, arith,
}
use xmesh.Common.Int.{◌<ℤ◌, ◌≤ℤ◌}
use xmesh.Scheduler.Session.{Floats}
use xmesh.Scheduler.Select.{Request, Entry, max_int, eligible, scan, less, sort, first, choose}
use xmesh.Scheduler.Order.{Least, less_connex, sort-Least}
use xmesh.Scheduler.Scan.{Candidate, scan-covers, scan_sound, scan-Started}

All-In : {A : Type 0} (xs : List A) → (P : A → Type 0) → ((x : A) → In x xs → P x) → All P xs
All-In [] P h = tt
All-In (x ∷ xs) P h = (h x (inl refl), All-In xs P (λ y hy. h y (inr hy)))

In-All : {A : Type 0} (P : A → Type 0) (x : A) (xs : List A) → All P xs → In x xs → P x
In-All P x [] h k = absurd k
In-All P x (y ∷ xs) h (inl e) = rw e h.0
In-All P x (y ∷ xs) h (inr k) = In-All P x xs h.1 k

module _ (floats : Floats) (q : Request) where
  -- `f` does not come before `e`: it has a higher priority number, or the same one and no lower
  -- load score, or no lower ID where the scores are equal.
  abbrev pub NotBefore : Entry floats q → Entry floats q → Type 0
  NotBefore f e =
      (e.1.priority <ℤ f.1.priority) ⊎ ((f.1.priority ≡ e.1.priority) × (less floats q f e ≡ false))

  -- `e` is one of the sessions that pass the test, and none of these comes before it.
  pub record IsBest (entries : List (Entry floats q)) (e : Entry floats q) : Type 0 where
    pub among : In e entries
    pub passes : eligible floats q e.1 ≡ true
    pub best : (f : Entry floats q) → In f entries → eligible floats q f.1 ≡ true → NotBefore f e

  -- The head of the sorted candidates, where these are not empty.
  chosen-IsBest :
      (entries candidates : List (Entry floats q)) (e : Entry floats q)
      → (scan floats q (max_int, []) entries).1 ≡ candidates
      → first floats q (sort floats q candidates) ≡ some e
      → IsBest entries e
  unfolding sort
  chosen-IsBest entries [] e scanned head = cc
  chosen-IsBest entries (c ∷ cs) e scanned head =
      let st = scan floats q (max_int, []) entries in
      let (m, m_head, m_least) = sort-Least floats q c cs in
      let same : m ≡ e = ground (arith, head, m_head) in
      let least : Least floats q (c ∷ cs) e = rw same at m_least in
      let sound : All (Candidate floats q (λ x. In x entries) st) (c ∷ cs) = rw scanned at (
        scan_sound floats q (λ x. In x entries) (max_int, []) entries
          (All-In entries (λ x. In x entries) (λ x h. h)) tt) in
      let (passes, equal, among) =
        In-All (Candidate floats q (λ x. In x entries) st) e (c ∷ cs) sound least.among in
      record {
        among = among;
        passes = passes;
        best = λ f hf ok. elim (scan-covers floats q (max_int, []) entries f hf ok) [
          | inl later ↦ inl (rw equal later)
          | inr (level, kept) ↦ inr (level ∙ sym equal, least.least f (rw scanned at kept))
        ];
      }

  -- The session that is chosen is one of those given and passes the test, and no session that
  -- passes it comes before: none has a lower priority, or the same one and a lower load score or,
  -- at the same score, a lower ID.
  pub choose-IsBest :
      (entries : List (Entry floats q)) (e : Entry floats q)
      → choose floats q entries ≡ some e
      → IsBest entries e
  unfolding choose
  choose-IsBest entries e h = chosen-IsBest entries (scan floats q (max_int, []) entries).1 e refl h

  -- The priorities are Go ints.
  abbrev pub AreInts : List (Entry floats q) → Type 0
  AreInts = All (λ e. e.1.priority ≤ℤ max_int)

  none-empty :
      (candidates : List (Entry floats q))
      → first floats q (sort floats q candidates) ≡ none
      → candidates ≡ []
  none-empty [] h = refl
  none-empty (c ∷ cs) h = let least = sort-Least floats q c cs in ground (arith, least.1)

  -- ErrNoPath is returned only where no session passes the test.
  pub choose-none :
      (entries : List (Entry floats q)) (f : Entry floats q)
      → AreInts entries
      → choose floats q entries ≡ none
      → In f entries
      → eligible floats q f.1 ≡ false
  unfolding choose
  choose-none entries f ints h hf =
      let st = scan floats q (max_int, []) entries in
      let empty = none-empty st.1 h in
      elim (Bool-cases (eligible floats q f.1)) [
        | inr bad ↦ bad
        | inl ok ↦ elim (scan-covers floats q (max_int, []) entries f hf ok) [
          | inr (level, kept) ↦ absurd (rw empty at kept)
          | inl later ↦ elim (scan-Started floats q (max_int, []) entries (inl refl)) [
            | inr (c, kept) ↦ absurd (rw empty at kept)
            | inl start ↦ absurd (
                let fits =
                  In-All (λ (e : Entry floats q). e.1.priority ≤ℤ max_int) f entries ints hf in
                let later' : max_int <ℤ f.1.priority = rw start at later in omega arith)
          ]
        ]
      ]

  abbrev pub SameEntries : List (Entry floats q) → List (Entry floats q) → Type 0
  SameEntries xs ys = (e : Entry floats q) → In e xs ↔ In e ys

  -- The entries of a map have different IDs.
  abbrev pub HaveKeys : List (Entry floats q) → Type 0
  HaveKeys xs = (e f : Entry floats q) → In e xs → In f xs → e.1.id ≡ f.1.id → e ≡ f

  IsBest-unique :
      (xs ys : List (Entry floats q)) (e f : Entry floats q)
      → SameEntries xs ys
      → HaveKeys xs
      → IsBest xs e
      → IsBest ys f
      → e ≡ f
  IsBest-unique xs ys e f same keys he hf =
      let f_after_e = he.best f ((same f).1 hf.among) hf.passes in
      let e_after_f = hf.best e ((same e).0 he.among) he.passes in
      keys e f he.among ((same f).1 hf.among) (elim f_after_e [
        | inl x ↦ elim e_after_f [
          | inl y ↦ absurd (omega arith)
          | inr (y, ef) ↦ absurd (ground arith)
        ]
        | inr (x, fe) ↦ elim e_after_f [
          | inl y ↦ absurd (ground arith)
          | inr (y, ef) ↦ less_connex floats q e f ef fe
        ]
      ])

  clash : {b : Bool} → b ≡ true → b ≡ false → ⊥
  clash p r = cc

  -- Go leaves the order of a loop over a map open: the choice does not depend on it. Whatever two
  -- lists hold the same sessions, of different IDs and with priorities in Go's int, the same
  -- session is chosen from both, or none from both.
  pub choose_order :
      (xs ys : List (Entry floats q))
      → SameEntries xs ys
      → HaveKeys xs
      → AreInts xs
      → AreInts ys
      → choose floats q xs ≡ choose floats q ys
  choose_order xs ys same keys ix iy = elim (Option-cases (choose floats q xs)) [
    | inl nx ↦ elim (Option-cases (choose floats q ys)) [
      | inl ny ↦ nx ∙ sym ny
      | inr (f, fy) ↦
          let h = choose-IsBest ys f fy in
          absurd (clash h.passes (choose-none xs f ix nx ((same f).1 h.among)))
    ]
    | inr (e, ex) ↦
        let g = choose-IsBest xs e ex in
        elim (Option-cases (choose floats q ys)) [
          | inl ny ↦ absurd (clash g.passes (choose-none ys e iy ny ((same e).0 g.among)))
          | inr (f, fy) ↦
              let h = choose-IsBest ys f fy in
              ex ∙ ap some (IsBest-unique xs ys e f same keys g h) ∙ sym fy
        ]
  ]
