-- ===== src/Scheduler.antt =====
-- internal/scheduler/scheduler.go: the pool of tunnel sessions from which streams take leases.
-- A `*Session` is an index into `heap`, so that a lease still names a session that left the map;
-- a `*Lease` is an index into `leases`. The mutex makes each method one step. Scheduler/Best has
-- the proofs about the choice, Scheduler/Accounting those about the leases.
pub mod Session
pub mod Select
mod Order
mod Scan
pub mod Best
pub mod Accounting
pub mod Leases
pub mod History
mod Tests
use xmesh.Common.{
  ℕ, ◌+◌, ◌/◌, ◌%◌, ◌^◌, ◌<◌, Bool, true, false, ◌&&◌, Option, none, some, List, [], ◌∷◌, ◌++◌, map,
  String, str_eq, ltb, leb, ◌==◌, if◌then◌else◌, length, get_elem?, set, Result, ok, err,
}
use mathlib.Core.Option
use xmesh.Common.Dict
use xmesh.Common.Dict.{Dict}
use xmesh.Common.Int.{ℤ, pos, pos_part}
use Session.{Floats, Load, inc, dec, observe_load, millisecond}
use Select.{Request, choose}

pub data Error : Type 0 where
  no_path : Error

-- `once` has run in a released lease.
pub record Lease : Type 0 where
  pub session : ℕ
  pub released : Bool

-- `n <= 0` becomes 1
abbrev pub at_least_one : ℤ → ℤ
at_least_one n = if pos_part n == 0 then pos 1 else n

module _ (floats : Floats) where
  open floats use {Float64, eqf, zero_float, micros_over_1000, blend}

  pub record Pool : Type 0 where
    pub heap : List (Session.Session floats)
    pub sessions : Dict ℕ
    pub leases : List Lease

  pub new : Pool
  new = record { heap = []; sessions = []; leases = [] }

  -- `f` applied to the session that a pointer names.
  abbrev pub modify :
      List (Session.Session floats)
      → ℕ
      → (Session.Session floats → Session.Session floats)
      → List (Session.Session floats)
  modify heap p f = elim (get_elem? heap p) [ none ↦ heap | some s ↦ set heap p (f s) ]

  normalise : Session.Session floats → Session.Session floats
  normalise s = record s {
    weight = at_least_one s.weight;
    max_streams = at_least_one s.max_streams;
    load = elim s.load [
      | none ↦ some (record { write_nanos = 0; stalls = 0; last_stall = 0 })
      | some l ↦ some l
    ];
  }

  -- `Add`, with the session that was registered under the id before.
  pub add : Pool → ℕ → Pool × Option ℕ
  unfolding normalise
  add p pointer = elim (get_elem? p.heap pointer) [
    | none ↦ (p, none)
    | some s ↦ (
      record p {
        heap = set p.heap pointer (normalise s);
        sessions = Dict.put p.sessions s.id pointer;
      },
      Dict.get p.sessions s.id,
    )
  ]

  -- The equality of two pointers, nil included.
  abbrev pub same_pointer : Option ℕ → Option ℕ → Bool
  same_pointer none none = true
  same_pointer (some a) (some b) = a == b
  same_pointer _ _ = false

  pub remove : Pool → String → Option ℕ → Pool
  remove p id expected =
      if same_pointer (Dict.get p.sessions id) expected
      then record p { sessions = Dict.remove p.sessions id }
      else p

  -- The update of one session in the loop of `UpdatePolicy`.
  set_policy : String → String → ℤ → ℤ → ℤ → Session.Session floats → Session.Session floats
  set_policy link agent priority weight max_streams s =
      if str_eq s.link_id link && str_eq s.agent_id agent
      then record s {
        priority = priority;
        weight = at_least_one weight;
        max_streams = at_least_one max_streams;
      }
      else s

  -- A loop over the sessions of the map that updates each in place.
  modify_all :
      Dict ℕ
      → (Session.Session floats → Session.Session floats)
      → List (Session.Session floats)
      → List (Session.Session floats)
  modify_all [] f heap = heap
  modify_all ((id, pointer) ∷ rest) f heap = modify_all rest f (modify heap pointer f)

  pub update_policy : Pool → String → String → ℤ → ℤ → ℤ → Pool
  unfolding set_policy modify_all
  update_policy p link agent priority weight max_streams = record p {
    heap = modify_all p.sessions (set_policy link agent priority weight max_streams) p.heap;
  }

  pub set_ready : Pool → String → Bool → String → ℕ → Pool
  set_ready p id ready error now = elim (Dict.get p.sessions id) [
    | none ↦ p
    | some pointer ↦ record p {
      heap = modify p.heap pointer λ s. record s {
        ready = ready;
        last_error = error;
        last_ok = if ready then now else s.last_ok;
      };
    }
  ]

  -- One probe of a session: its error, or the round trip in microseconds. The counter is uint64.
  probed : Result String ℕ → ℕ → Session.Session floats → Session.Session floats
  probed (err error) now s =
      let timeouts = (s.probe_timeouts + 1) % 2 ^ 64 in
      record s {
        probe_timeouts = timeouts;
        last_error = error;
        ready = if leb 3 timeouts then false else s.ready;
      }
  probed (ok micros) now s =
      let measurement = micros_over_1000 micros in
      record s {
        rtt_millis =
            if eqf s.rtt_millis zero_float then measurement else blend s.rtt_millis measurement;
        probe_timeouts = 0;
        ready = true;
        last_error = "";
        last_ok = now;
      }

  pub update_probe : Pool → Option ℕ → Result String ℕ → ℕ → Pool
  unfolding probed
  update_probe p none outcome now = p
  update_probe p (some expected) outcome now = elim (get_elem? p.heap expected) [
    | none ↦ p
    | some s ↦
        if same_pointer (Dict.get p.sessions s.id) (some expected)
        then record p { heap = set p.heap expected (probed outcome now s) }
        else p
  ]

  pub observe_write : Pool → ℕ → ℕ → ℕ → Pool
  observe_write p pointer duration now = record p {
    heap =
        modify p.heap pointer
          λ s. record s { load = Option.map (λ l. observe_load l duration now) s.load };
  }

  -- The sessions of the map, in the order in which a loop visits them.
  unfoldable pub entries :
      List (Session.Session floats) → Dict ℕ → List (ℕ × Session.Session floats)
  entries heap [] = []
  entries heap ((id, pointer) ∷ rest) = elim (get_elem? heap pointer) [
    | none ↦ entries heap rest
    | some s ↦ (pointer, s) ∷ entries heap rest
  ]

  -- `AcquireLinks`: the pool, and the pointer of the new lease.
  pub acquire_links : Pool → Request → Pool × Result Error ℕ
  acquire_links p q = elim (choose floats q (entries p.heap p.sessions)) [
    | none ↦ (p, err no_path)
    | some (pointer, s) ↦ (
      record p {
        heap = set p.heap pointer (record s { active = inc s.active });
        leases = p.leases ++ record { session = pointer; released = false } ∷ [];
      },
      ok (length p.leases),
    )
  ]

  -- `Acquire`: no restriction of the Links.
  pub acquire : Pool → String → (ℕ → Bool) → ℕ → Pool × Result Error ℕ
  acquire p agent is_closed now =
      acquire_links p
        (record { agent_id = agent; allowed = none; is_closed = is_closed; now = now })

  -- `Release`, on nil too; `once` runs its function at the first call only.
  pub release : Pool → Option ℕ → Pool
  release p none = p
  release p (some i) = elim (get_elem? p.leases i) [
    | none ↦ p
    | some l ↦ if l.released then p else record p {
      heap = modify p.heap l.session λ s. record s { active = dec s.active };
      leases = set p.leases i (record l { released = true });
    }
  ]

  -- The copies that `Snapshot` returns, with the live counters of each session.
  pub record Snapshot : Type 0 where
    pub session : Session.Session floats
    pub active_streams : ℤ
    pub write_blocked_millis : ℕ
    pub write_stalls : ℕ

  abbrev load_nanos : Option Load → ℕ
  load_nanos none = 0
  load_nanos (some l) = l.write_nanos / millisecond

  abbrev load_stalls : Option Load → ℕ
  load_stalls none = 0
  load_stalls (some l) = l.stalls

  pub snapshot : Pool → List Snapshot
  snapshot p =
      map
        (λ e. record {
          session = e.1;
          active_streams = e.1.active;
          write_blocked_millis = load_nanos e.1.load;
          write_stalls = load_stalls e.1.load;
        })
        (entries p.heap p.sessions)
