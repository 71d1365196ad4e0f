-- ===== src/Scheduler/Tests.antt =====
-- Witnesses of the scheduler's theorems, on a pool of two sessions.
use xmesh.Common.{
  ℕ, ◌+◌, ◌*◌, ◌/◌, ◌≡◌, ◌≢◌, ap, eq_iff, str_eq, refl, sym, ◌∙◌, inl, inr, true, false, none, some,
  List, [], ◌∷◌, All, get_elem?, String, ltb, ◌==◌, ==_iff, arith,
}
use xmesh.Common.Dict
use xmesh.Common.Int.{ℤ, pos, pos_part, ◌≤ℤ◌}
use xmesh.Scheduler.{Pool, new, add, acquire_links, release, entries}
use xmesh.Scheduler.Session.{Floats, Session}
use xmesh.Scheduler.Select
use xmesh.Scheduler.Select.{Request, Entry, choose, eligible}
use xmesh.Scheduler.Best.{
  IsBest, choose-IsBest, choose-none, SameEntries, HaveKeys, AreInts, choose_order,
}
use xmesh.Scheduler.Accounting.{open_leases, IsAccounted}
use xmesh.Scheduler.History.{
  Reach, start, next, allocates, adds, acquires, releases, Reach-IsAccounted,
  acquire_links-capacity, acquire_links_refused, release_twice,
}

-- Scores and round trips in thousandths.
abbrev floats : Floats
floats = record {
  Float64 = ℕ;
  div = λ a b. pos_part a * 1000 / pos_part b;
  ltf = λ a b. ltb a b;
  eqf = λ a b. a == b;
  zero_float = 0;
  micros_over_1000 = λ us. us;
  blend = λ a b. (a * 8 + b * 2) / 10;
  eqf_iff = λ a b. ==_iff a b;
  ltf_irrefl = λ a. ground arith;
  ltf_trans = λ a b c h k. ground arith;
  ltf_connex = λ a b h k. ground arith;
}

abbrev session : String → ℤ → Session floats
session id priority = record {
  id = id;
  agent_id = "agent";
  link_id = "link";
  priority = priority;
  weight = pos 1;
  max_streams = pos 2;
  smux = some 7;
  generation = 1;
  ready = true;
  last_ok = 0;
  last_error = "";
  rtt_millis = 0;
  probe_timeouts = 0;
  active = pos 0;
  load = none;
}

abbrev request : Request
request = record { agent_id = "agent"; allowed = none; is_closed = λ handle. false; now = 0 }

abbrev stranger : Request
stranger = record { agent_id = "other"; allowed = none; is_closed = λ handle. false; now = 0 }

abbrev near : Entry floats request
near = (0, session "near" (pos 10))

abbrev far : Entry floats request
far = (1, session "far" (pos 20))

abbrev both : List (Entry floats request)
both = far ∷ near ∷ []

choose-IsBest_example : IsBest floats request both near
unfolding choose Select.sort Select.insert Select.scan Select.consider eligible Select.less
choose-IsBest_example = choose-IsBest floats request both near refl

ints : AreInts floats request both
ints = (omega arith, (omega arith, tt))

choose-none_example : eligible floats stranger (session "near" (pos 10)) ≡ false
unfolding choose Select.sort Select.insert Select.scan Select.consider eligible Select.less
choose-none_example =
    choose-none floats stranger ((0, session "near" (pos 10)) ∷ []) (0, session "near" (pos 10))
      (omega arith, tt) refl (inl refl)

swapped : SameEntries floats request both (near ∷ far ∷ [])
swapped e = (
  λ h. elim h [ inl e ↦ inr (inl e) | inr k ↦ elim k [ inl e ↦ inl e | inr z ↦ inr (inr z) ] ],
  λ h. elim h [ inl e ↦ inr (inl e) | inr k ↦ elim k [ inl e ↦ inl e | inr z ↦ inr (inr z) ] ],
)

abbrev name_of : ℕ × Session floats → String
name_of e = e.1.id

names_differ : name_of far ≢ name_of near
names_differ e = clash ((eq_iff "far" "near").1 e)
  where
    clash : (str_eq "far" "near" ≡ true) → ⊥
    clash h = cc

keys : HaveKeys floats request both
keys e f (inl a) (inl b) same = a ∙ sym b
keys e f (inl a) (inr (inl b)) same =
    absurd (names_differ (sym (ap name_of a) ∙ same ∙ ap name_of b))
keys e f (inr (inl a)) (inl b) same =
    absurd (names_differ (sym (ap name_of b) ∙ sym same ∙ ap name_of a))
keys e f (inr (inl a)) (inr (inl b)) same = a ∙ sym b
keys e f (inl a) (inr (inr x)) same = absurd x
keys e f (inr (inl a)) (inr (inr x)) same = absurd x
keys e f (inr (inr x)) k same = absurd x

choose_order_example : choose floats request both ≡ choose floats request (near ∷ far ∷ [])
choose_order_example =
    choose_order floats request both (near ∷ far ∷ []) swapped keys ints
      (omega arith, (omega arith, tt))

-- A session is made, added and leased.
abbrev pool : Pool floats
pool = (add floats (record (new floats) { heap = session "near" (pos 10) ∷ [] }) 0).0

pool-Reach : Reach floats pool
unfolding new
pool-Reach = next (next start (allocates (session "near" (pos 10)) refl)) (adds 0)

abbrev leased : Pool floats
leased = (acquire_links floats pool request).0

Reach-IsAccounted_example : IsAccounted floats (release floats leased (some 0))
Reach-IsAccounted_example =
    Reach-IsAccounted floats (next (next pool-Reach (acquires request)) (releases (some 0)))

acquire_links-capacity_example :
    (pointer : ℕ) × (s : Session floats) × (get_elem? pool.heap pointer ≡ some s)
    × (eligible floats request s ≡ true)
    × (get_elem? leased.leases 0 ≡ some (record { session = pointer; released = false }))
    × (pos (open_leases leased.leases pointer) ≤ℤ s.max_streams)
unfolding acquire_links add new entries choose Select.sort Select.insert Select.scan Select.consider
    eligible Select.less Dict.put
acquire_links-capacity_example =
    acquire_links-capacity floats pool request 0 (Reach-IsAccounted floats pool-Reach) refl

abbrev registered : ℕ × Session floats
registered = (
  0,
  record (session "near" (pos 10)) {
    load = some (record { write_nanos = 0; stalls = 0; last_stall = 0 });
  },
)

acquire_links_refused_example :
    ((acquire_links floats pool stranger).0 ≡ pool)
    × All (λ f. eligible floats stranger f.1 ≡ false) (entries floats pool.heap pool.sessions)
unfolding acquire_links add new entries choose Select.sort Select.insert Select.scan Select.consider
    eligible Select.less Dict.put
acquire_links_refused_example = acquire_links_refused floats pool stranger (omega arith, tt) refl

release_twice_example :
    release floats (release floats leased (some 0)) (some 0) ≡ release floats leased (some 0)
release_twice_example = release_twice floats leased (some 0)
