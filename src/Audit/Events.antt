-- ===== src/Audit/Events.antt =====
-- internal/audit/events.go: events, and the ring of 60 one-second buckets that counts them.
use Prim.Native.Char.{code}
use xmesh.Common.{
  ℕ, zero, suc, ◌+◌, ◌/◌, ◌%◌, ◌^◌, Bool, true, false, ◌||◌, not, List, [], ◌∷◌, ◌++◌, String,
  str_eq, ltb, leb, ◌==◌, if◌then◌else◌, length,
}

-- The fields of `Event`; times are Unix times in nanoseconds.
pub record Event : Type 0 where
  pub at : ℕ
  pub grant_id : String
  pub generation : ℕ
  pub connection_id : String
  pub kind : String
  pub result : String
  pub host : String
  pub ip : String
  pub ips : List String
  pub port : ℕ
  pub reason : String
  pub duration_ms : ℕ
  pub connect_ms : ℕ
  pub upload_bytes : ℕ
  pub download_bytes : ℕ
  pub link_id : String
  pub user_id : String
  pub user_name : String
  pub agent_id : String
  pub gateway_id : String
  pub exit_name : String

-- A map[K]bool used as a set: its keys.
pub record Bucket : Type 0 where
  pub second : ℕ
  pub attempts : ℕ  -- uint64
  pub failures : ℕ  -- uint64
  pub targets : List String
  pub ports : List ℕ

pub record Window : Type 0 where
  pub buckets : List Bucket
  pub dropped : ℕ  -- uint64
  pub last_received : ℕ

abbrev pub fresh_bucket : ℕ → Bucket
fresh_bucket second = record {
  second = second;
  attempts = 0;
  failures = 0;
  targets = [];
  ports = [];
}

abbrev pub copies : ℕ → Bucket → List Bucket
copies zero b = []
copies (suc n) b = b ∷ copies n b

-- The zero value of `window`.
abbrev pub new_window : Window
new_window = record { buckets = copies 60 (fresh_bucket 0); dropped = 0; last_received = 0 }

-- time.Time.Unix
abbrev pub unix : ℕ → ℕ
unix nanos = nanos / 1_000_000_000

-- strings.TrimSuffix(s, ".")
unfoldable pub trim_dot : String → String
trim_dot String.[] = ""
trim_dot (String.◌∷◌ c String.[]) = if code c == b'.' then "" else String.◌∷◌ c ""
trim_dot (String.◌∷◌ c (String.◌∷◌ d s)) = String.◌∷◌ c (trim_dot (String.◌∷◌ d s))

module _ {A : Type 0} (eq : A → A → Bool) where
  unfoldable pub member : A → List A → Bool
  member x [] = false
  member x (y ∷ ys) = if eq x y then true else member x ys

  -- `if len(m) < 128 { m[x] = true }`
  unfoldable pub insert_capped : A → List A → List A
  unfolding member
  insert_capped x xs =
      if ltb (length xs) 128 then (if member x xs then xs else xs ++ x ∷ []) else xs

  unfoldable pub insert_all_capped : List A → List A → List A
  insert_all_capped [] xs = xs
  insert_all_capped (y ∷ ys) xs = insert_all_capped ys (insert_capped y xs)

abbrev pub is_attempt : Event → Bool
is_attempt e = str_eq e.result "attempt"

abbrev pub is_failure : Event → Bool
is_failure e = str_eq e.result "failed" || str_eq e.result "denied"

abbrev pub is_tcp : Event → Bool
is_tcp e = str_eq e.kind "tcp"

abbrev pub add_u64 : ℕ → ℕ → ℕ
add_u64 a b = (a + b) % 2 ^ 64

-- The write through `b := &w.buckets[i]`.
unfoldable pub update_bucket : List Bucket → ℕ → (Bucket → Bucket) → List Bucket
update_bucket [] i f = []
update_bucket (b ∷ bs) zero f = f b ∷ bs
update_bucket (b ∷ bs) (suc i) f = b ∷ update_bucket bs i f

-- A bucket of an earlier minute is started anew.
unfoldable pub turn : Bucket → ℕ → Bucket
turn b second = if b.second == second then b else fresh_bucket second

-- `to_lower` is strings.ToLower.
module _ (to_lower : String → String) where
  -- The bucket of an event's second, after the event.
  unfoldable pub record_event : Bucket → Event → Bucket
  record_event b e = record b {
    attempts = if is_attempt e then add_u64 b.attempts 1 else b.attempts;
    failures = if is_failure e then add_u64 b.failures 1 else b.failures;
    targets =
        if is_attempt e
        then insert_capped str_eq (trim_dot (to_lower e.host)) b.targets
        else b.targets;
    ports = if is_attempt e then insert_capped (λ m n. m == n) e.port b.ports else b.ports;
  }

  unfoldable pub add : Window → Event → ℕ → Window
  add w e received =
      let second = unix received in
      if not (is_tcp e) then record w { last_received = received } else record w {
        buckets = update_bucket w.buckets (second % 60) (λ b. record_event (turn b second) e);
        last_received = received;
      }

pub record Summary : Type 0 where
  pub window_seconds : ℕ
  pub attempts : ℕ
  pub failures : ℕ
  pub targets : ℕ
  pub ports : ℕ
  pub dropped : ℕ
  pub last_received : ℕ
  pub alerts : List String

-- The variables of the loop of `summary`.
pub record Totals : Type 0 where
  pub attempts : ℕ
  pub failures : ℕ
  pub targets : List String
  pub ports : List ℕ

-- `!(b.second <= now-60 || b.second > now)`, where now-60 is not cut at 0.
abbrev pub in_window : ℕ → ℕ → Bool
in_window now second = not (leb (second + 60) now || ltb now second)

-- One bucket of the window is added to the totals.
unfoldable pub accumulate : Totals → Bucket → Totals
accumulate t b = record {
  attempts = add_u64 t.attempts b.attempts;
  failures = add_u64 t.failures b.failures;
  targets = insert_all_capped str_eq b.targets t.targets;
  ports = insert_all_capped (λ m n. m == n) b.ports t.ports;
}

unfoldable pub total : ℕ → List Bucket → Totals → Totals
total now [] t = t
total now (b ∷ bs) t = total now bs (if in_window now b.second then accumulate t b else t)

abbrev alert_if : Bool → String → List String
alert_if true name = name ∷ []
alert_if false name = []

unfoldable pub summary : Window → ℕ → Summary
unfolding total accumulate
summary w now =
    let t =
      total (unix now) w.buckets
        (record { attempts = 0; failures = 0; targets = []; ports = [] }) in
    record {
      window_seconds = 60;
      attempts = t.attempts;
      failures = t.failures;
      targets = length t.targets;
      ports = length t.ports;
      dropped = w.dropped;
      last_received = w.last_received;
      alerts =
          alert_if (leb 120 t.attempts) "connections"
          ++ (alert_if (leb 30 t.failures) "failures"
              ++ (alert_if (leb 30 (length t.targets)) "targets"
                  ++ alert_if (leb 20 (length t.ports)) "ports"));
    }
