-- ===== src/Audit/Window.antt =====
-- The window's counts against the events of the last 60 seconds.
pub mod Slots
use xmesh.Common.{
  ℕ, zero, suc, ◌+◌, ◌*◌, ◌/◌, ◌%◌, ◌^◌, ◌≤◌, ◌<◌, ◌≡◌, ◌≢◌, refl, ap, sym, subst, ◌∙◌, ◌⊎◌, inl,
  inr, Bool, true, false, ◌&&◌, ◌||◌, not, Bool-cases, Option, none, some, List, [], ◌∷◌, ◌++◌, All,
  String, ltb, leb, ◌==◌, if◌then◌else◌, length, get_elem?, arith,
}
use Slots.{History, events_at, events_in, slots, slot, slots-events_in, events_at-none}
use xmesh.Audit.Events.{
  Event, Bucket, Window, Totals, accumulate, fresh_bucket, new_window, copies, unix, is_tcp,
  add_u64, record_event, turn, update_bucket, add, in_window, total, summary,
}

module _ (to_lower : String → String) where
  -- The window after a history.
  unfoldable pub run : History → Window
  run [] = new_window
  run ((e, r) ∷ h) = add to_lower (run h) e r

-- The events were received in this order, none before 1 January 1970 at 00:00:01.
abbrev pub IsOrdered : History → Type 0
IsOrdered [] = Unit {0}
IsOrdered ((e, r) ∷ h) = (0 < unix r) × All (λ x. unix x.1 ≤ unix r) h × IsOrdered h

-- One of the two counters of a bucket, and the events that it counts.
pub record Counter (to_lower : String → String) : Type 0 where
  pub hit : Event → Bool
  pub count : Bucket → ℕ
  pub count_fresh : (second : ℕ) → count (fresh_bucket second) ≡ 0
  pub count_record :
      (b : Bucket) (e : Event)
      → count (record_event to_lower b e) ≡ (if hit e then add_u64 (count b) 1 else count b)
  pub sum : Totals → ℕ
  pub sum_accumulate : (t : Totals) (b : Bucket) → sum (accumulate t b) ≡ add_u64 (sum t) (count b)

length-update_bucket :
    (bs : List Bucket) (i : ℕ) (f : Bucket → Bucket) → length (update_bucket bs i f) ≡ length bs
unfolding update_bucket
length-update_bucket [] i f = refl
length-update_bucket (b ∷ bs) zero f = refl
length-update_bucket (b ∷ bs) (suc i) f = ap suc (length-update_bucket bs i f)

-- A read after the update of one bucket.
get_elem?-update_bucket :
    (bs : List Bucket) (i j : ℕ) (f : Bucket → Bucket) (b : Bucket)
    → get_elem? (update_bucket bs i f) j ≡ some b
    → ((i ≢ j) × (get_elem? bs j ≡ some b))
      ⊎ ((a : Bucket) × (i ≡ j) × (get_elem? bs j ≡ some a) × (b ≡ f a))
unfolding update_bucket
get_elem?-update_bucket [] i j f b e = cc
get_elem?-update_bucket (a ∷ bs) zero zero f b e = inr (a, refl, refl, ground arith)
get_elem?-update_bucket (a ∷ bs) zero (suc j) f b e = inl (omega arith, e)
get_elem?-update_bucket (a ∷ bs) (suc i) zero f b e = inl (omega arith, e)
get_elem?-update_bucket (a ∷ bs) (suc i) (suc j) f b e =
    elim (get_elem?-update_bucket bs i j f b e) [
      | inl (ne, same) ↦ inl (omega arith, same)
      | inr (c, eq, there, made) ↦ inr (c, ap suc eq, there, made)
    ]

get-copies : (n i : ℕ) (a b : Bucket) → get_elem? (copies n a) i ≡ some b → b ≡ a
get-copies zero i a b e = cc
get-copies (suc n) zero a b e = ground arith
get-copies (suc n) (suc i) a b e = get-copies n i a b e

module _ (to_lower : String → String) (c : Counter to_lower) where
  open c use {hit, count, count_fresh, count_record}

  abbrev pub NoneAt : ℕ → History → Type 0
  NoneAt i = All λ x. is_tcp x.0 ≡ true → unix x.1 % 60 ≢ i

  abbrev pub LatestAt : ℕ → ℕ → History → Type 0
  LatestAt i t = All λ x. is_tcp x.0 ≡ true → unix x.1 % 60 ≡ i → unix x.1 ≤ t

  -- The bucket of remainder i: never written, or of the latest second with that remainder that an
  -- event was received in.
  pub data Holds (latest i : ℕ) (h : History) (b : Bucket) : Type 0 where
    unused : b ≡ fresh_bucket 0 → NoneAt i h → Holds latest i h b
    used :
        b.second % 60 ≡ i
        → b.second ≤ latest
        → count b ≡ events_at hit b.second h % 2 ^ 64
        → LatestAt i b.second h
        → Holds latest i h b

  skip_one :
      (i s : ℕ) (h : History) (e : Event) (r : ℕ)
      → (is_tcp e ≡ true → unix r % 60 ≢ i)
      → s % 60 ≡ i
      → events_at hit s ((e, r) ∷ h) ≡ events_at hit s h
  skip_one i s h e r other m = elim (Bool-cases (is_tcp e)) [
    | inr no_tcp ↦ rw no_tcp (omega arith)
    | inl tcp ↦ let ne = other tcp in ground arith
  ]

  Holds-used :
      (latest i t : ℕ) (h : History) (b : Bucket)
      → t ≡ b.second
      → t % 60 ≡ i
      → t ≤ latest
      → count b ≡ events_at hit t h % 2 ^ 64
      → LatestAt i t h
      → Holds latest i h b
  Holds-used latest i t h b e m le counted last =
      used (subst (λ k. k % 60 ≡ i) e m) (subst (λ k. k ≤ latest) e le)
        (subst (λ k. count b ≡ events_at hit k h % 2 ^ 64) e counted)
        (subst (λ k. LatestAt i k h) e last)

  -- An event that leaves the bucket alone.
  Holds-skip :
      (latest latest' i : ℕ) (h : History) (b : Bucket) (e : Event) (r : ℕ)
      → latest ≤ latest'
      → (is_tcp e ≡ true → unix r % 60 ≢ i)
      → Holds latest i h b
      → Holds latest' i ((e, r) ∷ h) b
  Holds-skip latest latest' i h b e r le other (unused z none_at) = unused z (other, none_at)
  Holds-skip latest latest' i h b e r le other (used m le' counted last) =
      used m (omega arith) (rw (skip_one i b.second h e r other m) counted)
        ((λ tcp m'. absurd (other tcp m')), last)

  second-turn : (b : Bucket) (e : Event) (t : ℕ) → (record_event to_lower (turn b t) e).second ≡ t
  unfolding record_event turn
  second-turn b e t = ground arith

  none_later :
      (i t s : ℕ) (h : History)
      → LatestAt i s h
      → s < t
      → t % 60 ≡ i
      → All (λ x. is_tcp x.0 ≡ true → unix x.1 ≢ t) h
  none_later i t s [] last lt m = tt
  none_later i t s ((e, r) ∷ h) last lt m = (
    (λ tcp same. let le = last.0 tcp (omega arith) in omega arith),
    none_later i t s h last.1 lt m,
  )

  none_there :
      (i t : ℕ) (h : History)
      → NoneAt i h
      → t % 60 ≡ i
      → All (λ x. is_tcp x.0 ≡ true → unix x.1 ≢ t) h
  none_there i t [] none_at m = tt
  none_there i t ((e, r) ∷ h) none_at m =
      ((λ tcp same. none_at.0 tcp (omega arith)), none_there i t h none_at.1 m)

  -- The counter at the start of a second, or in the course of it.
  count-turn :
      (latest i t : ℕ) (h : History) (b : Bucket)
      → t % 60 ≡ i
      → latest ≤ t
      → 0 < t
      → Holds latest i h b
      → count (turn b t) ≡ events_at hit t h % 2 ^ 64
  unfolding turn
  count-turn latest i t h b m le pos (unused z none_at) =
      ground (arith, z, events_at-none hit t h (none_there i t h none_at m), count_fresh t)
  count-turn latest i t h b m le pos (used m' le' counted last) =
      elim (Bool-cases (b.second == t)) [
        | inl same ↦ rw same (let e : b.second ≡ t = ground arith in rw (← e) counted)
        | inr other ↦ rw other (
            rw (events_at-none hit t h (none_later i t b.second h last (ground arith) m))
              (count_fresh t))
      ]

  -- An event that the bucket counts.
  Holds-record :
      (latest i : ℕ) (h : History) (b : Bucket) (e : Event) (r : ℕ)
      → unix r % 60 ≡ i
      → latest ≤ unix r
      → 0 < unix r
      → is_tcp e ≡ true
      → All (λ x. unix x.1 ≤ unix r) h
      → Holds latest i h b
      → Holds (unix r) i ((e, r) ∷ h) (record_event to_lower (turn b (unix r)) e)
  Holds-record latest i h b e r m le pos tcp ordered v =
      Holds-used (unix r) i (unix r) ((e, r) ∷ h) (record_event to_lower (turn b (unix r)) e)
        (sym (second-turn b e (unix r))) m (omega arith)
        (count_record (turn b (unix r)) e
          ∙ counted_one (hit e) (is_tcp e) (unix r == unix r) (count (turn b (unix r)))
              (events_at hit (unix r) h) tcp (ground arith)
              (count-turn latest i (unix r) h b m le pos v))
        ((λ _ _. omega arith), ordered_latest i (unix r) h ordered)
    where
      counted_one :
          (x t same : Bool) (k n : ℕ)
          → t ≡ true
          → same ≡ true
          → k ≡ n % 2 ^ 64
          → (if x then add_u64 k 1 else k) ≡ ((if t && x && same then 1 else 0) + n) % 2 ^ 64
      counted_one true t same k n p q e = ground arith
      counted_one false t same k n p q e = ground arith

      ordered_latest : (i t : ℕ) (h : History) → All (λ x. unix x.1 ≤ t) h → LatestAt i t h
      ordered_latest i t [] o = tt
      ordered_latest i t (x ∷ h) o = ((λ _ _. o.0), ordered_latest i t h o.1)

  pub record Ring (latest : ℕ) (h : History) (bs : List Bucket) : Type 0 where
    pub size : length bs ≡ 60
    pub at : (i : ℕ) (b : Bucket) → get_elem? bs i ≡ some b → Holds latest i h b

  pub newest : History → ℕ
  newest [] = 0
  newest ((e, r) ∷ h) = unix r

  pub newest-le : (t : ℕ) (h : History) → All (λ x. unix x.1 ≤ t) h → newest h ≤ t
  unfolding newest
  newest-le t [] o = omega arith
  newest-le t ((e, r) ∷ h) o = o.0

  Ring-add :
      (latest : ℕ) (h : History) (w : Window) (e : Event) (r : ℕ)
      → latest ≤ unix r
      → 0 < unix r
      → All (λ x. unix x.1 ≤ unix r) h
      → Ring latest h w.buckets
      → Ring (unix r) ((e, r) ∷ h) (add to_lower w e r).buckets
  unfolding add
  Ring-add latest h w e r le pos ordered v = elim (Bool-cases (is_tcp e)) [
    | inr no_tcp ↦ rw no_tcp (record {
      size = v.size;
      at = λ i b eb. Holds-skip latest (unix r) i h b e r le (λ tcp. cc) (v.at i b eb);
    })
    | inl tcp ↦ rw tcp (record {
      size =
          length-update_bucket w.buckets (unix r % 60)
            (λ b. record_event to_lower (turn b (unix r)) e)
          ∙ v.size;
      at = λ i b eb. elim (get_elem?-update_bucket w.buckets (unix r % 60) i _ b eb) [
        | inl (ne, same) ↦ Holds-skip latest (unix r) i h b e r le (λ _. ne) (v.at i b same)
        | inr (a, eq, there, made) ↦
            rw made (Holds-record latest i h a e r eq le pos tcp ordered (v.at i a there))
      ];
    })
  ]

  pub run-Ring : (h : History) → IsOrdered h → Ring (newest h) h (run to_lower h).buckets
  unfolding run newest
  run-Ring [] o = record {
    size = refl;
    at = λ i b e. unused (get-copies 60 i (fresh_bucket 0) b e) tt;
  }
  run-Ring ((e, r) ∷ h) o =
      Ring-add (newest h) h (run to_lower h) e r (newest-le (unix r) h o.1) o.0 o.1 (run-Ring h o.2)
