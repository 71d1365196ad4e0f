-- ===== src/Scheduler/Session.antt =====
-- internal/scheduler/scheduler.go: sessions, and the float64 arithmetic that ranks them.
use xmesh.Common.{
  ℕ, zero, suc, ◌+◌, ◌*◌, ◌%◌, ◌^◌, ◌≡◌, ◌↔◌, Bool, true, false, ◌&&◌, Option, none, some, String,
  ltb, if◌then◌else◌,
}
use xmesh.Common.Int.{ℤ, pos, negsuc}

-- The float64 values that scores and round trips take: finite, and no negative zero. Scores are
-- quotients of an int by a positive int.
pub record Floats : Type 1 where
  pub Float64 : Type 0
  pub div : ℤ → ℤ → Float64  -- float64(a) / float64(b)
  pub ltf : Float64 → Float64 → Bool
  pub eqf : Float64 → Float64 → Bool
  pub zero_float : Float64
  pub micros_over_1000 : ℕ → Float64  -- float64(us) / 1000
  pub blend : Float64 → Float64 → Float64  -- old*0.8 + new*0.2
  pub eqf_iff : (a b : Float64) → (eqf a b ≡ true) ↔ (a ≡ b)
  pub ltf_irrefl : (a : Float64) → ltf a a ≡ false
  pub ltf_trans : (a b c : Float64) → ltf a b ≡ true → ltf b c ≡ true → ltf a c ≡ true
  pub ltf_connex : (a b : Float64) → ltf a b ≡ false → ltf b a ≡ false → a ≡ b

-- `sessionLoad`: nanoseconds in writes, stalls, and the Unix time of the last stall (0 for none).
pub record Load : Type 0 where
  pub write_nanos : ℕ
  pub stalls : ℕ
  pub last_stall : ℕ

abbrev pub second : ℕ
second = 1_000_000_000

abbrev pub millisecond : ℕ
millisecond = 1_000_000

-- `active++` and `active--` on Go's int.
abbrev pub inc : ℤ → ℤ
inc (pos n) = pos (n + 1)
inc (negsuc zero) = pos 0
inc (negsuc (suc n)) = negsuc n

abbrev pub dec : ℤ → ℤ
dec (pos zero) = negsuc 0
dec (pos (suc n)) = pos n
dec (negsuc n) = negsuc (suc n)

module _ (floats : Floats) where
  open floats use {Float64, div}

  -- `smux` is the handle of the smux session; whether it is closed is that library's answer.
  pub record Session : Type 0 where
    pub id : String
    pub agent_id : String
    pub link_id : String
    pub priority : ℤ
    pub weight : ℤ
    pub max_streams : ℤ
    pub smux : Option ℕ
    pub generation : ℕ
    pub ready : Bool
    pub last_ok : ℕ
    pub last_error : String
    pub rtt_millis : Float64
    pub probe_timeouts : ℕ
    pub active : ℤ
    pub load : Option Load

  -- Whether the last stall was less than five seconds ago.
  stall_penalty : Option Load → ℕ → Bool
  stall_penalty none now = false
  stall_penalty (some l) now = ltb 0 l.last_stall && ltb now (l.last_stall + 5 * second)

  unfoldable pub load_score : Session → ℕ → Float64
  unfolding stall_penalty
  load_score s now =
      let base = inc s.active in div (if stall_penalty s.load now then inc base else base) s.weight

-- `ObserveWrite`: a write of 20 ms or more counts as a stall. The counters are uint64.
pub observe_load : Load → ℕ → ℕ → Load
observe_load l duration now = if ltb duration (20 * millisecond) then l else record l {
  write_nanos = (l.write_nanos + duration) % 2 ^ 64;
  stalls = (l.stalls + 1) % 2 ^ 64;
  last_stall = now;
}
