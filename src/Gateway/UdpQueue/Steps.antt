-- ===== src/Gateway/UdpQueue/Steps.antt =====
-- The atomic actions of `offer` and `take`, interleaved between any number of goroutines.
use xmesh.Common.{
  ℕ, zero, suc, Bool, sym, ◌↔◌, ◌+◌, ◌-◌, ◌≤◌, ◌<◌, ◌≡◌, ◌≢◌, refl, ap, true, false, List, [], ◌∷◌,
  ◌++◌, length, length-append, ltb, ltb→lt, none, some, Bool-cases, inl, inr, if◌then◌else◌, arith,
}
use xmesh.Common.Int.{ℤ}
use mathlib.Core.List.{append-nil}
use xmesh.Protocol.{Datagram}
use xmesh.Gateway.UdpQueue.{Queue, size, capacity, new_udp_queue, offer, take, too_big}

-- Where a goroutine stands: before `bytes.Load`, before the compare-and-swap with the value that
-- it loaded, before the send, before giving its bytes back, or behind the receive of `take`.
pub data Running : Type 0 where
  starting : Datagram → Running
  loaded : ℕ → Datagram → Running
  reserved : Datagram → Running
  undoing : Datagram → Running
  taken : Datagram → Running

pub record Shared : Type 0 where
  pub queue : Queue
  pub open queue use *
  pub running : List Running

abbrev pub idle : Queue → Shared
idle q = record { queue = q; running = [] }

-- The shared state after an action of one goroutine.
abbrev pub after : Shared → List Datagram → ℕ → List Running → Shared
after s items bytes running = record {
  queue = record { items = items; bytes = bytes; limit = s.limit };
  running = running;
}

pub data Step (s : Shared) : Shared → Type 0 where
  offers : (d : Datagram) → Step s (after s s.items s.bytes (starting d ∷ s.running))
  loads :
      (before behind : List Running) (d : Datagram)
      → s.running ≡ before ++ starting d ∷ behind
      → Step s (after s s.items s.bytes (before ++ loaded s.bytes d ∷ behind))
  refuses :
      (before behind : List Running) (used : ℕ) (d : Datagram)
      → s.running ≡ before ++ loaded used d ∷ behind
      → too_big s.queue used d ≡ true
      → Step s (after s s.items s.bytes (before ++ behind))
  swaps :
      (before behind : List Running) (used : ℕ) (d : Datagram)
      → s.running ≡ before ++ loaded used d ∷ behind
      → too_big s.queue used d ≡ false
      → s.bytes ≡ used
      → Step s (after s s.items (used + size d) (before ++ reserved d ∷ behind))
  retries :
      (before behind : List Running) (used : ℕ) (d : Datagram)
      → s.running ≡ before ++ loaded used d ∷ behind
      → too_big s.queue used d ≡ false
      → s.bytes ≢ used
      → Step s (after s s.items s.bytes (before ++ starting d ∷ behind))
  sends :
      (before behind : List Running) (d : Datagram)
      → s.running ≡ before ++ reserved d ∷ behind
      → length s.items < capacity
      → Step s (after s (s.items ++ d ∷ []) s.bytes (before ++ behind))
  finds_full :
      (before behind : List Running) (d : Datagram)
      → s.running ≡ before ++ reserved d ∷ behind
      → capacity ≤ length s.items
      → Step s (after s s.items s.bytes (before ++ undoing d ∷ behind))
  undoes :
      (before behind : List Running) (d : Datagram)
      → s.running ≡ before ++ undoing d ∷ behind
      → Step s (after s s.items (s.bytes - size d) (before ++ behind))
  receives :
      (d : Datagram) (rest : List Datagram)
      → s.items ≡ d ∷ rest
      → Step s (after s rest s.bytes (taken d ∷ s.running))
  settles :
      (before behind : List Running) (d : Datagram)
      → s.running ≡ before ++ taken d ∷ behind
      → Step s (after s s.items (s.bytes - size d) (before ++ behind))

pub data Steps (s : Shared) : Shared → Type 0 where
  here : Steps s s
  more : {t u : Shared} → Steps s t → Step t u → Steps s u

-- The payload bytes in the channel, and those that goroutines hold against the counter.
abbrev pub queued : List Datagram → ℕ
queued [] = 0
queued (d ∷ ds) = size d + queued ds

abbrev pub holds : Running → ℕ
holds (starting d) = 0
holds (loaded used d) = 0
holds (reserved d) = size d
holds (undoing d) = size d
holds (taken d) = size d

abbrev pub held : List Running → ℕ
held [] = 0
held (r ∷ rs) = holds r + held rs

queued-append : (xs ys : List Datagram) → queued (xs ++ ys) ≡ queued xs + queued ys
queued-append [] ys = omega arith
queued-append (x ∷ xs) ys = omega (arith, queued-append xs ys)

held-append : (xs ys : List Running) → held (xs ++ ys) ≡ held xs + held ys
held-append [] ys = omega arith
held-append (x ∷ xs) ys = omega (arith, held-append xs ys)

pub record IsBounded (s : Shared) : Type 0 where
  pub counted : s.bytes ≡ queued s.items + held s.running
  pub bytes_le : s.bytes ≤ s.limit
  pub items_le : length s.items ≤ capacity

module _ (s : Shared) (before behind : List Running) where
  -- What a goroutine at `r` and the others hold.
  split_at :
      (r : Running)
      → s.running ≡ before ++ r ∷ behind
      → held s.running ≡ held before + holds r + held behind
  split_at r e = omega (arith, ap held e, held-append before (r ∷ behind))

Step-IsBounded : {s t : Shared} → Step s t → IsBounded s → IsBounded t
Step-IsBounded (offers d) v = record {
  counted = omega arith;
  bytes_le = v.bytes_le;
  items_le = v.items_le;
}
Step-IsBounded {s} (loads b a d e) v =
    let h = split_at s b a (starting d) e in omega (arith, held-append b (loaded s.bytes d ∷ a))
Step-IsBounded {s} (refuses b a u d e big) v =
    let h = split_at s b a (loaded u d) e in omega (arith, held-append b a)
Step-IsBounded {s} (swaps b a u d e fits same) v =
    let h = split_at s b a (loaded u d) e in ground (arith, held-append b (reserved d ∷ a))
Step-IsBounded {s} (retries b a u d e fits other) v =
    let h = split_at s b a (loaded u d) e in omega (arith, held-append b (starting d ∷ a))
Step-IsBounded {s} (sends b a d e room) v =
    let h = split_at s b a (reserved d) e in
    omega (arith, held-append b a, queued-append s.items (d ∷ []), length-append s.items (d ∷ []))
Step-IsBounded {s} (finds_full b a d e full) v =
    let h = split_at s b a (reserved d) e in omega (arith, held-append b (undoing d ∷ a))
Step-IsBounded {s} (undoes b a d e) v =
    let h = split_at s b a (undoing d) e in omega (arith, held-append b a)
Step-IsBounded {s} (receives d rest e) v = omega (arith, ap queued e, ap length e)
Step-IsBounded {s} (settles b a d e) v =
    let h = split_at s b a (taken d) e in omega (arith, held-append b a)

-- However the goroutines interleave on a new queue, the counter is the sum of the payload bytes in
-- the channel and of those that goroutines hold, it stays within the limit, and the channel within
-- its capacity.
pub Steps-IsBounded : (limit : ℤ) {s : Shared} → Steps (idle (new_udp_queue limit)) s → IsBounded s
unfolding new_udp_queue
Steps-IsBounded limit here = omega arith
Steps-IsBounded limit (more r step) = Step-IsBounded step (Steps-IsBounded limit r)

-- What `n` calls of `take` receive.
unfoldable pub taken_by : ℕ → Queue → List Datagram
taken_by zero q = []
taken_by (suc n) q = elim (take q).1 [ none ↦ [] | some d ↦ d ∷ taken_by n (take q).0 ]

-- What the queue delivers, in order, when it is taken from until it is empty.
unfoldable pub drained : Queue → List Datagram
drained q = taken_by (length q.items) q

taken_by-items : (ds : List Datagram) (q : Queue) → q.items ≡ ds → taken_by (length ds) q ≡ ds
unfolding taken_by take
taken_by-items [] q e = refl
taken_by-items (d ∷ ds) q e =
    let next = record q { items = ds; bytes = q.bytes - size d } in
    rw e (ap (λ l. d ∷ l) (taken_by-items ds next refl))

drained-items : (q : Queue) → drained q ≡ q.items
unfolding drained
drained-items q = taken_by-items q.items q refl

-- The test that `offer` makes: the payload fits under the limit, and the channel has room.
abbrev pub fits : Queue → Datagram → Bool
fits q d = if too_big q q.bytes d then false else ltb (length q.items) capacity

offer-items :
    (q : Queue) (d : Datagram) → (offer q d).0.items ≡ q.items ++ (if fits q d then d ∷ [] else [])
unfolding offer
offer-items q d = elim (Bool-cases (too_big q q.bytes d)) [
  | inl big ↦ rw big (sym (append-nil q.items))
  | inr small ↦ elim (Bool-cases (ltb (length q.items) capacity)) [
    | inl room ↦ rw (small, room) refl
    | inr full ↦ rw (small, full) (sym (append-nil q.items))
  ]
]

offer-actions : (q : Queue) (d : Datagram) → Steps (idle q) (idle (offer q d).0)
unfolding offer
offer-actions q d =
    let entered : Steps (idle q) (after (idle q) q.items q.bytes (loaded q.bytes d ∷ [])) =
      more (more here (offers d)) (loads [] [] d refl) in
    elim (Bool-cases (too_big q q.bytes d)) [
      | inl big ↦ rw big (more entered (refuses [] [] q.bytes d refl big))
      | inr small ↦
          let swapped : Steps (idle q)
              (after (idle q) q.items (q.bytes + size d) (reserved d ∷ [])) =
            more entered (swaps [] [] q.bytes d refl small refl) in
          elim (Bool-cases (ltb (length q.items) capacity)) [
            | inl room ↦ rw (small, room) (more swapped (sends [] [] d refl (ltb→lt _ _ room)))
            | inr full ↦
                rw (small, full)
                  (more (more swapped (finds_full [] [] d refl (ground arith)))
                    (undoes [] [] d refl))
          ]
    ]

offer-fits : (q : Queue) (d : Datagram) → (offer q d).1 ≡ fits q d
unfolding offer
offer-fits q d = ground arith

-- An `offer` that runs alone is a sequence of the atomic actions. It returns true just where the
-- payload fits under the limit and the channel has room, and what `take` then delivers until the
-- queue is empty is what it would have delivered before, with the datagram behind it where `offer`
-- has returned true.
pub offer-Steps :
    (q : Queue) (d : Datagram)
    → Steps (idle q) (idle (offer q d).0)
      × (((offer q d).1 ≡ true) ↔ ((q.bytes + size d ≤ q.limit) × (length q.items < capacity)))
      × (drained (offer q d).0 ≡ drained q ++ (if (offer q d).1 then d ∷ [] else []))
offer-Steps q d = (
  offer-actions q d,
  (
    λ h. (ground (arith, h, offer-fits q d), ground (arith, h, offer-fits q d)),
    λ (small, room). ground (arith, small, room, offer-fits q d),
  ),
  rw (drained-items (offer q d).0, drained-items q, offer-fits q d) (offer-items q d),
)
