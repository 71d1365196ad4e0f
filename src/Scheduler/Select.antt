-- ===== src/Scheduler/Select.antt =====
-- `AcquireLinks` up to its choice: the scan of the sessions, and the sort of the candidates.
use xmesh.Common.{
  ℕ, ◌-◌, ◌^◌, Bool, true, false, ◌||◌, not, Option, none, some, List, [], ◌∷◌, ◌++◌, String,
  str_eq, if◌then◌else◌,
}
use xmesh.Common.Int.{ℤ, pos, ltz, eqz}
use xmesh.Common.Texts.{str_lt}
use xmesh.Scheduler.Session.{Floats, Session, load_score}

-- int(^uint(0) >> 1)
abbrev pub max_int : ℤ
max_int = pos (2 ^ 63 - 1)

-- `allowed != nil && !allowed[linkID]`
abbrev pub link_refused : Option (String → Bool) → String → Bool
link_refused none link = false
link_refused (some allowed) link = not (allowed link)

-- `session.SMux == nil || session.SMux.IsClosed()`
abbrev pub smux_gone : (ℕ → Bool) → Option ℕ → Bool
smux_gone is_closed none = true
smux_gone is_closed (some handle) = is_closed handle

-- A request: the agent, the Links that it may use, smux's answers, and the time.
pub record Request : Type 0 where
  pub agent_id : String
  pub allowed : Option (String → Bool)
  pub is_closed : ℕ → Bool
  pub now : ℕ

module _ (floats : Floats) (q : Request) where
  open floats use {ltf, eqf}

  -- The negation of the test under which the loop goes on to the next session.
  unfoldable pub eligible : Session floats → Bool
  eligible s = not (
      not (str_eq s.agent_id q.agent_id)
      || link_refused q.allowed s.link_id
      || not s.ready
      || smux_gone q.is_closed s.smux
      || not (ltz s.active s.max_streams))

  -- A pointer to a session, with what it points to.
  abbrev pub Entry : Type 0
  Entry = ℕ × Session floats

  -- The loop's variables `priority` and `candidates`.
  abbrev pub Scan : Type 0
  Scan = ℤ × List Entry

  unfoldable pub consider : Scan → Entry → Scan
  consider (priority, candidates) e =
      if eligible e.1
      then (let lower = ltz e.1.priority priority in
          let priority' = if lower then e.1.priority else priority in
          let kept = if lower then [] else candidates in
          (priority', if eqz e.1.priority priority' then kept ++ e ∷ [] else kept))
      else (priority, candidates)

  unfoldable pub scan : Scan → List Entry → Scan
  scan st [] = st
  scan st (e ∷ es) = scan (consider st e) es

  -- The comparison that the sort is given.
  unfoldable pub less : Entry → Entry → Bool
  less i j =
      let left = load_score floats i.1 q.now in
      let right = load_score floats j.1 q.now in
      if eqf left right then str_lt i.1.id j.1.id else ltf left right

  -- sort.Slice, as an insertion sort.
  unfoldable pub insert : Entry → List Entry → List Entry
  insert e [] = e ∷ []
  insert e (f ∷ fs) = if less e f then e ∷ f ∷ fs else f ∷ insert e fs

  unfoldable pub sort : List Entry → List Entry
  unfolding insert
  sort [] = []
  sort (e ∷ es) = insert e (sort es)

  abbrev pub first : List Entry → Option Entry
  first [] = none
  first (e ∷ es) = some e

  -- `candidates[0]` after the sort, `none` for ErrNoPath.
  unfoldable pub choose : List Entry → Option Entry
  choose entries = first (sort (scan (max_int, []) entries).1)
