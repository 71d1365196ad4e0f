-- ===== src/Audit/Limits.antt =====
-- The quota of the stored events: what is left after every prune, and what is lost.
use xmesh.Common.{
  ℕ, ◌+◌, ◌-◌, ◌≡◌, ◌≤◌, ◌<◌, refl, ap, subst, ◌⊎◌, inl, inr, Bool, true, false, ◌&&◌, not,
  Bool-cases, List, [], ◌∷◌, All, ◌++◌, String, length, ltb, leb, ◌==◌, if◌then◌else◌, arith,
  Result, ok, err, refuse_if,
}
use xmesh.Audit.Quota.{
  StoreError, io_failed, quota_exceeded, invalid_user, Archive, Answers, Dir, Round, Rotation,
  current_size, total_size, max_archives, prune_loop, prune, rotate, append_events, append, enforce,
  valid_user,
}

module _ (limit : ℕ) (removes : Archive → Bool) where
  prune_loop-total :
      (older : List Archive) (c total : ℕ)
      → total ≡ total_size older + c
      → (prune_loop limit removes older total).1
        ≡ total_size (prune_loop limit removes older total).0 + c
  unfolding prune_loop
  prune_loop-total [] c total h = h
  prune_loop-total (a ∷ older) c total h =
      ground (arith, h, prune_loop-total older c (total - a.size) (omega (arith, h)))

  prune_loop-count :
      (older : List Archive) (total : ℕ)
      → (prune_loop limit removes older total).2 ≡ true
      → length (prune_loop limit removes older total).0 ≤ max_archives
  unfolding prune_loop
  prune_loop-count [] total h = omega arith
  prune_loop-count (a ∷ older) total h = ground (arith, h, prune_loop-count older (total - a.size))

-- Within the quota, and with at most 64 archives.
abbrev pub Within : ℕ → Dir → Type 0
Within limit dir =
    (total_size dir.archives + current_size dir.current ≤ limit)
    × (length dir.archives ≤ max_archives)

-- If the operation succeeds, what it leaves is within the quota.
abbrev Settles : ℕ → Dir × Result StoreError (Unit {0}) → Type 0
Settles limit (dir, err e) = Unit
Settles limit (dir, ok done) = Within limit dir

prune-Settles :
    (limit : ℕ) (answers : Answers) (dir : Dir) → Settles limit (prune limit answers dir)
unfolding prune
prune-Settles limit answers dir = elim (Bool-cases answers.listed) [
  | inl listed ↦ rw listed (go left.2 refl (ltb limit left.1) refl)
  | inr unlisted ↦ rw unlisted tt
]
  where
    total : ℕ
    total = total_size dir.archives + current_size dir.current

    left : List Archive × ℕ × Bool
    left = prune_loop limit answers.removes dir.archives total

    go :
        (b : Bool)
        → left.2 ≡ b
        → (over : Bool) → ltb limit left.1 ≡ over
        → Settles limit (
          record dir { archives = left.0 },
          if not b then err io_failed else refuse_if over quota_exceeded,
        )
    go false e over f = tt
    go true e true f = tt
    go true e false f = (
      ground (
        arith,
        f,
        prune_loop-total limit answers.removes dir.archives (current_size dir.current) total refl,
      ),
      prune_loop-count limit answers.removes dir.archives total e,
    )

Settles-ok :
    (limit : ℕ) (p : Dir × Result StoreError (Unit {0})) (t : Dir)
    → Settles limit p
    → p ≡ (t, ok tt)
    → Within limit t
Settles-ok limit p t h e = subst (Settles limit) e h

append-Settles :
    (limit : ℕ) (user : String) (made : Bool) (before after : Answers) (round : Round)
    (rounds : List Round) (dir : Dir)
    → Settles limit (append limit user made before (round ∷ rounds) after dir)
unfolding append
append-Settles limit user made before after round rounds dir =
    go (valid_user user) made (prune limit before dir)
  where
    some_rounds : (length (round ∷ rounds) == 0) ≡ false
    some_rounds = ground arith

    last :
        (p : Dir × Result StoreError (Unit {0}))
        → Settles limit (elim p.1 as (λ _. Dir × Result StoreError (Unit {0})) [
          | err e ↦ (p.0, err e)
          | ok _ ↦ prune limit after p.0
        ])
    last (t, err e) = tt
    last (t, ok done) = prune-Settles limit after t

    go :
        (valid made : Bool) (first : Dir × Result StoreError (Unit {0}))
        → Settles limit (
            if not valid
            then (dir, err invalid_user)
            else if length (round ∷ rounds) == 0
            then (dir, ok tt)
            else if not made
            then (dir, err io_failed)
            else elim first.1 as (λ _. Dir × Result StoreError (Unit {0})) [
              | err e ↦ (first.0, err e)
              | ok _ ↦
                  (let second = append_events limit (round ∷ rounds) first.0 in
                    elim second.1 [ err e ↦ (second.0, err e) | ok _ ↦ prune limit after second.0 ])
            ])
    go false made first = tt
    go true false first = rw some_rounds tt
    go true true (t, err e) = rw some_rounds tt
    go true true (t, ok done) = rw some_rounds (last (append_events limit (round ∷ rounds) t))

enforce-Settles :
    (limit : ℕ) (user : String) (stat_fails : Bool) (rotation : Rotation) (answers : Answers)
    (dir : Dir)
    → Settles limit (enforce limit user stat_fails rotation answers dir)
unfolding enforce
enforce-Settles limit user stat_fails rotation answers dir =
    go (valid_user user) stat_fails (ltb limit (current_size dir.current)) (rotate rotation dir)
  where
    go :
        (valid stat_fails over : Bool) (turned : Dir × Result StoreError (Unit {0}))
        → Settles limit (
            if not valid
            then (dir, err invalid_user)
            else if stat_fails
            then (dir, err io_failed)
            else if over
            then (elim turned.1 as (λ _. Dir × Result StoreError (Unit {0})) [
              | err e ↦ (turned.0, err e)
              | ok _ ↦ prune limit answers turned.0
            ])
            else prune limit answers dir)
    go false stat_fails over turned = tt
    go true true over turned = tt
    go true false false turned = prune-Settles limit answers dir
    go true false true (t, err e) = tt
    go true false true (t, ok done) = prune-Settles limit answers t

-- After `Append` has stored at least one event without an error, the user's files hold no more bytes
-- than the limit, and there are at most 64 archives, whatever was there before.
pub append-Within :
    (limit : ℕ) (user : String) (made : Bool) (before after : Answers) (round : Round)
    (rounds : List Round) (dir t : Dir)
    → append limit user made before (round ∷ rounds) after dir ≡ (t, ok tt)
    → Within limit t
append-Within limit user made before after round rounds dir t h =
    Settles-ok limit (append limit user made before (round ∷ rounds) after dir) t
      (append-Settles limit user made before after round rounds dir) h

-- After `Enforce` has succeeded, for example with a reduced limit, the user's files hold no more bytes
-- than the limit, and there are at most 64 archives.
pub enforce-Within :
    (limit : ℕ) (user : String) (stat_fails : Bool) (rotation : Rotation) (answers : Answers)
    (dir t : Dir)
    → enforce limit user stat_fails rotation answers dir ≡ (t, ok tt)
    → Within limit t
enforce-Within limit user stat_fails rotation answers dir t h =
    Settles-ok limit (enforce limit user stat_fails rotation answers dir) t
      (enforce-Settles limit user stat_fails rotation answers dir) h

-- Too much for the quota, or too many.
abbrev IsOver : ℕ → ℕ → List Archive → Type 0
IsOver limit c kept = (limit < total_size kept + c) ⊎ (max_archives < length kept)

-- What goes is the beginning of the list, and with every archive that goes there was too much.
abbrev pub Lost : ℕ → ℕ → List Archive → List Archive → Type 0
Lost limit c [] left = Unit {0}
Lost limit c (a ∷ gone) left = IsOver limit c (a ∷ (gone ++ left)) × Lost limit c gone left

prune_loop-Lost :
    (limit : ℕ) (removes : Archive → Bool) (older : List Archive) (c total : ℕ)
    → total ≡ total_size older + c
    → (gone : List Archive) × (older ≡ gone ++ (prune_loop limit removes older total).0)
      × Lost limit c gone (prune_loop limit removes older total).0
unfolding prune_loop
prune_loop-Lost limit removes [] c total h = ([], refl, tt)
prune_loop-Lost limit removes (a ∷ older) c total h =
    go (leb total limit && leb (length (a ∷ older)) max_archives) refl (removes a)
      (prune_loop-Lost limit removes older c (total - a.size) (omega (arith, h)))
  where
    next : List Archive × ℕ × Bool
    next = prune_loop limit removes older (total - a.size)

    go :
        (fits : Bool)
        → (leb total limit && leb (length (a ∷ older)) max_archives) ≡ fits
        → (works : Bool)
        → (gone : List Archive) × (older ≡ gone ++ next.0) × Lost limit c gone next.0
        → (gone : List Archive) × ((a ∷ older)
            ≡ gone
              ++ (if fits
                  then (a ∷ older, total, true)
                  else if not works
                  then (a ∷ older, total, false)
                  else next).0)
          × Lost limit c gone
              (if fits
                then (a ∷ older, total, true)
                else if not works
                then (a ∷ older, total, false)
                else next).0
    go true e works ih = ([], refl, tt)
    go false e false ih = ([], refl, tt)
    go false e true ih =
        (a ∷ ih.0, ap (λ l. a ∷ l) ih.1, (subst (λ l. IsOver limit c (a ∷ l)) ih.1 over, ih.2))
      where
        over : IsOver limit c (a ∷ older)
        over = elim (Bool-cases (leb total limit)) [
          | inl small ↦ inr (ground (arith, e, small, h))
          | inr big ↦ inl (ground (arith, big, h))
        ]

-- `prune` removes only archives, the oldest first, and each only while the files held more bytes than
-- the limit or there were more than 64 archives. This holds also where it fails.
pub prune-Lost :
    (limit : ℕ) (answers : Answers) (dir : Dir)
    → ((prune limit answers dir).0.current ≡ dir.current)
      × (gone : List Archive) × (dir.archives ≡ gone ++ (prune limit answers dir).0.archives)
      × Lost limit (current_size dir.current) gone (prune limit answers dir).0.archives
unfolding prune
prune-Lost limit answers dir =
    let lost =
      prune_loop-Lost limit answers.removes dir.archives (current_size dir.current)
        (total_size dir.archives + current_size dir.current) refl in
    elim (Bool-cases answers.listed) [
      | inl listed ↦ rw listed (refl, lost.0, lost.1, lost.2)
      | inr unlisted ↦ rw unlisted (refl, [], refl, tt)
    ]

prune_loop-done :
    (limit : ℕ) (removes : Archive → Bool) (older : List Archive) (c total : ℕ)
    → All (λ a. removes a ≡ true) older
    → total ≡ total_size older + c
    → c ≤ limit
    → ((prune_loop limit removes older total).1 ≤ limit)
      × ((prune_loop limit removes older total).2 ≡ true)
unfolding prune_loop
prune_loop-done limit removes [] c total works h small = (omega (arith, h, small), refl)
prune_loop-done limit removes (a ∷ older) c total works h small =
    let rest =
      prune_loop-done limit removes older c (total - a.size) works.1 (omega (arith, h)) small in
    (ground (arith, works.0, rest.0), ground (arith, works.0, rest.1))

-- Where the directory can be listed with the sizes of its files, every archive can be removed, and
-- current.jsonl alone is within the limit, `prune` succeeds, whatever archives there are.
pub prune-succeeds :
    (limit : ℕ) (answers : Answers) (dir : Dir)
    → answers.listed ≡ true
    → All (λ a. answers.removes a ≡ true) dir.archives
    → current_size dir.current ≤ limit
    → (prune limit answers dir).1 ≡ ok tt
unfolding prune
prune-succeeds limit answers dir listed works small =
    let done =
      prune_loop-done limit answers.removes dir.archives (current_size dir.current)
        (total_size dir.archives + current_size dir.current) works refl small in
    ground (arith, listed, done.0, done.1)
