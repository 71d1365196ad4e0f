-- ===== src/Audit/Tests.antt =====
-- Witness of the window's theorem: two attempts, one of them more than a minute before the summary.
use xmesh.Common.{◌%◌, ◌^◌, ◌≡◌, [], ◌∷◌, String, arith}
use xmesh.Audit.Events.{Event, unix, is_attempt, is_failure, summary}
use xmesh.Audit.Window.{run}
use xmesh.Audit.Window.Slots.{History, events_in}
use xmesh.Audit.Summary.{summary-events_in}

abbrev attempt : Event
attempt = record {
  at = 0;
  grant_id = "g";
  generation = 1;
  connection_id = "c";
  kind = "tcp";
  result = "attempt";
  host = "example.com.";
  ip = "";
  ips = [];
  port = 443;
  reason = "";
  duration_ms = 0;
  connect_ms = 0;
  upload_bytes = 0;
  download_bytes = 0;
  link_id = "";
  user_id = "";
  user_name = "";
  agent_id = "";
  gateway_id = "";
  exit_name = "";
}

abbrev history : History
history = (attempt, 100_000_000_000) ∷ (attempt, 10_000_000_000) ∷ []

abbrev same_text : String → String
same_text s = s

summary-events_in_example :
    ((summary (run same_text history) 120_000_000_000).attempts
      ≡ events_in (λ e. is_attempt e) (unix 120_000_000_000) history % 2 ^ 64)
    × ((summary (run same_text history) 120_000_000_000).failures
        ≡ events_in (λ e. is_failure e) (unix 120_000_000_000) history % 2 ^ 64)
summary-events_in_example =
    summary-events_in same_text history 120_000_000_000
      (omega arith, (omega arith, tt), (omega arith, tt, tt)) (omega arith, (omega arith, tt))
