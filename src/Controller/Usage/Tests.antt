-- ===== src/Controller/Usage/Tests.antt =====
-- Witnesses of the accounting's theorems.
use xmesh.Common.{ℕ, ◌+◌, ◌≡◌, refl, inl, none, some, [], ◌∷◌, arith}
use xmesh.Common.Dict
use xmesh.Common.Dict.{Dict}
use xmesh.Model.{State, new_state, GrantLinkUsage, UsageBucket}
use xmesh.Controller.Usage.{prune_usage_history, usage_retention}
use xmesh.Controller.Usage.Samples.{Grown, sample_reports, sample_reports-last}
use xmesh.Controller.Usage.Retention.{recent, if_any, prune_usage_history-recent}

abbrev report : ℕ → ℕ → GrantLinkUsage
report up down = record { link_id = "l"; upload_bytes = up; download_bytes = down }

sample_reports-last_example :
    Grown "process" "grant" "user" (("l", "Link") ∷ []) new_state "l" 15 28 (
      sample_reports "process" "grant" "user"
        (("l", "Link") ∷ [])
        new_state
        ((0, report 10 20) ∷ (5, report 15 28) ∷ []))
unfolding Dict.get
sample_reports-last_example =
    sample_reports-last "process" "grant" "user" (("l", "Link") ∷ []) new_state "Link" 0
      (report 10 20) ((5, report 15 28) ∷ []) refl (inl refl) (refl, omega arith, omega arith, tt)
      (omega arith) (omega arith)

abbrev bucket : ℕ → UsageBucket
bucket at = record { at = at; upload_bytes = 1; download_bytes = 2 }

abbrev kept : State
kept = record new_state { usage_history = ("user/l", bucket 5 ∷ bucket 900 ∷ []) ∷ [] }

abbrev later : ℕ
later = usage_retention + 600

prune_usage_history-recent_example :
    Dict.get (prune_usage_history kept later).usage_history "user/l"
    ≡ elim (Dict.get kept.usage_history "user/l") [
      | none ↦ none
      | some bs ↦ if_any (recent later bs)
    ]
unfolding Dict.get
prune_usage_history-recent_example =
    prune_usage_history-recent kept later "user/l" (refl, ((omega arith, tt), (tt, tt)), tt)
