-- ===== src/Audit/Summary.antt =====
-- `summary` counts the events of the last 60 seconds.
use xmesh.Common.{
  ℕ, suc, ◌+◌, ◌%◌, ◌^◌, ◌≤◌, ◌<◌, ◌≡◌, refl, ap, subst, ◌∙◌, inl, inr, true, Bool-cases, some,
  List, [], ◌∷◌, All, String, if◌then◌else◌, length, get_elem?, arith,
}
use xmesh.Audit.Events.{
  Bucket, Totals, accumulate, unix, is_attempt, is_failure, record_event, in_window, total, summary,
}
use xmesh.Audit.Window.Slots.{History, events_at, events_in, slots, slot, slots-events_in}
use xmesh.Audit.Window.{
  Counter, Holds, unused, used, NoneAt, LatestAt, newest, newest-le, run, run-Ring, IsOrdered,
}

module _ (to_lower : String → String) (c : Counter to_lower) where
  open c use {hit, count, count_fresh, sum, sum_accumulate}

  slot-none : (now i : ℕ) (h : History) → NoneAt to_lower c i h → slot hit now i h ≡ 0
  slot-none now i [] n = refl
  slot-none now i ((e, r) ∷ h) n = ground (arith, n.0, slot-none now i h n.1)

  -- A second of the window is the only one with its remainder that events can be of.
  slot-at :
      (now i s : ℕ) (h : History)
      → s % 60 ≡ i
      → in_window now s ≡ true
      → LatestAt to_lower c i s h
      → slot hit now i h ≡ events_at hit s h
  slot-at now i s [] m w l = refl
  slot-at now i s ((e, r) ∷ h) m w l = ground (arith, l.0, slot-at now i s h m w l.1)

  -- A remainder whose last second has left the window has no event in it.
  slot-old :
      (now i s : ℕ) (h : History) → s + 60 ≤ now → LatestAt to_lower c i s h → slot hit now i h ≡ 0
  slot-old now i s [] old l = refl
  slot-old now i s ((e, r) ∷ h) old l = ground (arith, l.0, slot-old now i s h old l.1)

  abbrev share : ℕ → Bucket → ℕ
  share now b = if in_window now b.second then count b else 0

  share-slot :
      (now latest i : ℕ) (h : History) (b : Bucket)
      → latest ≤ now
      → Holds to_lower c latest i h b
      → share now b ≡ slot hit now i h % 2 ^ 64
  share-slot now latest i h b le (unused z n) =
      ground (arith, z, count_fresh 0, slot-none now i h n)
  share-slot now latest i h b le (used m le' counted l) =
      elim (Bool-cases (in_window now b.second)) [
        | inl w ↦ rw w (rw (slot-at now i b.second h m w l) counted)
        | inr gone ↦ rw gone (rw (slot-old now i b.second h (ground arith) l) refl)
      ]

  sum_round :
      (now k : ℕ) (t : Totals) (b : Bucket) (h : History)
      → sum t < 2 ^ 64
      → share now b ≡ slot hit now k h % 2 ^ 64
      → sum (if in_window now b.second then accumulate t b else t)
        ≡ (sum t + slot hit now k h) % 2 ^ 64
  sum_round now k t b h lt e = ground (arith, sum_accumulate t b)

  total-slots :
      (now k : ℕ) (bs : List Bucket) (t : Totals) (h : History)
      → sum t < 2 ^ 64
      → ((j : ℕ) (b : Bucket)
          → get_elem? bs j ≡ some b
          → share now b ≡ slot hit now (k + j) h % 2 ^ 64)
      → sum (total now bs t) ≡ (sum t + slots hit now (length bs) k h) % 2 ^ 64
  unfolding total
  total-slots now k [] t h lt shares = omega arith
  total-slots now k (b ∷ bs) t h lt shares =
      let t' = if in_window now b.second then accumulate t b else t in
      let first : share now b ≡ slot hit now k h % 2 ^ 64 =
        (let e : k + 0 ≡ k = omega arith in
          subst (λ i. share now b ≡ slot hit now i h % 2 ^ 64) e (shares 0 b refl)) in
      let round = sum_round now k t b h lt first in
      let rest = total-slots now (k + 1) bs t' h (omega (arith, round)) (λ j a ea.
        let e : k + suc j ≡ k + 1 + j = omega arith in
        subst (λ i. share now a ≡ slot hit now i h % 2 ^ 64) e (shares (suc j) a ea)) in
      omega (arith, round, rest)

  -- The counter's total over a window's buckets is the number of the events of the last 60 seconds.
  total-events_in :
      (now : ℕ) (h : History) (t : Totals)
      → IsOrdered h
      → All (λ x. unix x.1 ≤ now) h
      → sum t ≡ 0
      → sum (total now (run to_lower h).buckets t) ≡ events_in hit now h % 2 ^ 64
  total-events_in now h t ordered until zero_sum =
      let ring = run-Ring to_lower c h ordered in
      let shares = λ (j : ℕ) (b : Bucket) (e : get_elem? (run to_lower h).buckets j ≡ some b).
        let e' : j ≡ 0 + j = omega arith in
        subst (λ i. share now b ≡ slot hit now i h % 2 ^ 64) e'
          (share-slot now (newest to_lower c h) j h b (newest-le to_lower c now h until)
            (ring.at j b e)) in
      let counted = total-slots now 0 (run to_lower h).buckets t h (omega arith) shares in
      let parts = slots-events_in hit now (length (run to_lower h).buckets) h ring.size in
      counted ∙ ap (λ n. n % 2 ^ 64) (omega (arith, parts))

attempts_counter : (to_lower : String → String) → Counter to_lower
unfolding record_event accumulate
attempts_counter to_lower = record {
  hit = λ e. is_attempt e;
  count = λ b. b.attempts;
  count_fresh = λ s. refl;
  count_record = λ b e. refl;
  sum = λ t. t.attempts;
  sum_accumulate = λ t b. refl;
}

failures_counter : (to_lower : String → String) → Counter to_lower
unfolding record_event accumulate
failures_counter to_lower = record {
  hit = λ e. is_failure e;
  count = λ b. b.failures;
  count_fresh = λ s. refl;
  count_record = λ b e. refl;
  sum = λ t. t.failures;
  sum_accumulate = λ t b. refl;
}

-- For events that were received in the order of their seconds (none in the first second of 1970),
-- and a summary not before the last of them, the attempts and failures of the summary are the
-- numbers of TCP events of these results in the 60 seconds up to it, as uint64 values.
pub summary-events_in :
    (to_lower : String → String) (h : History) (now : ℕ)
    → IsOrdered h
    → All (λ x. unix x.1 ≤ unix now) h
    → ((summary (run to_lower h) now).attempts
        ≡ events_in (λ e. is_attempt e) (unix now) h % 2 ^ 64)
      × ((summary (run to_lower h) now).failures
          ≡ events_in (λ e. is_failure e) (unix now) h % 2 ^ 64)
unfolding summary attempts_counter failures_counter
summary-events_in to_lower h now ordered until = (
  total-events_in to_lower (attempts_counter to_lower) (unix now) h _ ordered until refl,
  total-events_in to_lower (failures_counter to_lower) (unix now) h _ ordered until refl,
)
