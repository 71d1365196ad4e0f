-- ===== src/Controller/Usage.antt =====
-- internal/controller/usage.go: the traffic that Gateways report per grant and Link, accounted per
-- user and Link in five-minute buckets. `store.Update` throws the state away on an error, so an
-- error carries no state.
pub mod Samples
pub mod Retention
mod Tests
use Prim.Native.String.{◌++◌ as ◌<>◌}
use xmesh.Common.{
  ℕ, ◌+◌, ◌-◌, ◌*◌, ◌%◌, ◌^◌, Bool, true, false, ◌&&◌, ◌||◌, not, Option, none, some, List, [], ◌∷◌,
  String, str_eq, ltb, leb, ◌==◌, if◌then◌else◌, Result, ok, err, ◌>>=◌,
}
use xmesh.Common.Dict
use xmesh.Common.Dict.{Dict, get_or}
use xmesh.Model.{
  State, Grant, Attachment, Upstream, Link, RetiredLink, RetiredGrant, GrantLinkUsage, UsageBucket,
  UsageCounter,
}

pub data Error : Type 0 where
  grant_link_mismatch : Error

abbrev pub second : ℕ
second = 1_000_000_000

-- `historyInterval`
abbrev pub history_interval : ℕ
history_interval = 5 * 60 * second

-- `usageRetention`
abbrev pub usage_retention : ℕ
usage_retention = 30 * 24 * 3600 * second

-- grantID + "/" + linkID, userID + "/" + linkID
unfoldable pub join_key : String → String → String
join_key a b = a <> ("/" <> b)

-- time.Time.Truncate, from the zero time on
abbrev pub truncate : ℕ → ℕ → ℕ
truncate now d = now - now % d

-- The `switch`: what a report adds to the traffic, or `none` for `continue`.
unfoldable pub delta : Option UsageCounter → String → GrantLinkUsage → Option (ℕ × ℕ)
delta none instance_id link = some (link.upload_bytes, link.download_bytes)
delta (some previous) instance_id link =
    if not (str_eq previous.instance_id instance_id)
    then some (link.upload_bytes, link.download_bytes)
    else if ltb link.upload_bytes previous.upload_bytes
        || ltb link.download_bytes previous.download_bytes
    then none
    else some
        (link.upload_bytes - previous.upload_bytes, link.download_bytes - previous.download_bytes)

abbrev pub add_u64 : ℕ → ℕ → ℕ
add_u64 a b = (a + b) % 2 ^ 64

-- The last bucket, or a new one behind it where that one is of another time, takes the traffic.
unfoldable pub add_traffic : List UsageBucket → ℕ → ℕ → ℕ → List UsageBucket
add_traffic [] at up down =
    record { at = at; upload_bytes = add_u64 0 up; download_bytes = add_u64 0 down } ∷ []
add_traffic (b ∷ []) at up down =
    if b.at == at
    then record b {
      upload_bytes = add_u64 b.upload_bytes up;
      download_bytes = add_u64 b.download_bytes down;
    }
      ∷ []
    else b ∷ record { at = at; upload_bytes = add_u64 0 up; download_bytes = add_u64 0 down } ∷ []
add_traffic (b ∷ c ∷ bs) at up down = b ∷ add_traffic (c ∷ bs) at up down

-- The rest of the loop's body, for traffic that is not zero.
unfoldable pub account : State → String → String → ℕ → ℕ × ℕ → State
account state usage_key name now (up, down) = record state {
  usage_labels =
      if str_eq name "" then state.usage_labels else Dict.put state.usage_labels usage_key name;
  usage_history = Dict.put state.usage_history usage_key (
      add_traffic (get_or (Dict.get state.usage_history usage_key) [])
        (truncate now history_interval) up down);
}

-- One round of the loop of `sampleGrantUsageFor`.
unfoldable pub sample_link :
    State → String → String → String → Dict String → ℕ → GrantLinkUsage → Result Error State
sample_link state instance_id grant_id user_id names now link = elim (Dict.get names link.link_id) [
  | none ↦ err grant_link_mismatch
  | some name ↦
      let counter_key = join_key grant_id link.link_id in
      let previous = Dict.get state.usage_counters counter_key in
      let counted = record state {
        usage_counters = Dict.put state.usage_counters counter_key (record {
          instance_id = instance_id;
          upload_bytes = link.upload_bytes;
          download_bytes = link.download_bytes;
        });
      } in
      elim (delta previous instance_id link) [
        | none ↦ ok counted
        | some (up, down) ↦
            if up == 0 && (down == 0)
            then ok counted
            else ok (account counted (join_key user_id link.link_id) name now (up, down))
      ]
]

-- `sampleGrantUsageFor`
unfoldable pub sample_grant_usage_for :
    State → String → String → String → Dict String → ℕ → List GrantLinkUsage → Result Error State
sample_grant_usage_for state instance_id grant_id user_id names now [] = ok state
sample_grant_usage_for state instance_id grant_id user_id names now (link ∷ links) =
    sample_link state instance_id grant_id user_id names now link >>= λ s.
    sample_grant_usage_for s instance_id grant_id user_id names now links

-- `sampleRetiredGrantUsage`
unfoldable pub sample_retired_grant_usage :
    State → String → String → RetiredGrant → ℕ → List GrantLinkUsage → Result Error State
sample_retired_grant_usage state instance_id grant_id retired now links =
    sample_grant_usage_for state instance_id grant_id retired.user_id retired.link_names now links

-- The names of a grant's Links: those that are configured or retired under its attachment.
link_names : Dict Link → String → Dict String → Dict String
link_names [] attachment names = names
link_names ((id, link) ∷ rest) attachment names =
    link_names rest attachment
      (if str_eq link.attachment_id attachment then Dict.put names id link.name else names)

retired_link_names : Dict RetiredLink → String → ℕ → Dict String → Dict String
retired_link_names [] attachment now names = names
retired_link_names ((id, link) ∷ rest) attachment now names =
    retired_link_names rest attachment now (
      if str_eq link.attachment_id attachment && ltb now link.expires_at
      then Dict.put names id link.name
      else names)

-- The zero values that a missing key gives.
abbrev pub zero_grant : Grant
zero_grant = record {
  id = "";
  user_id = "";
  attachment_id = "";
  vmess_uuid = "";
  enabled = false;
  published = false;
  created_at = 0;
}

abbrev pub zero_attachment : Attachment
zero_attachment = record {
  id = "";
  gateway_id = "";
  agent_id = "";
  upstream_id = "";
  enabled = false;
  created_at = 0;
}

abbrev pub zero_upstream : Upstream
zero_upstream = record { id = ""; name = ""; enabled = false; created_at = 0 }

-- `sampleGrantUsage`
unfoldable pub sample_grant_usage :
    State → String → String → ℕ → List GrantLinkUsage → Result Error State
unfolding link_names retired_link_names
sample_grant_usage state instance_id grant_id now links =
    let grant = get_or (Dict.get state.grants grant_id) zero_grant in
    let attachment = get_or (Dict.get state.attachments grant.attachment_id) zero_attachment in
    let names1 = link_names state.links grant.attachment_id [] in
    let names2 = retired_link_names state.retired_links grant.attachment_id now names1 in
    let names3 =
      if str_eq attachment.upstream_id ""
      then names2
      else Dict.put names2 attachment.id
          (get_or (Dict.get state.upstreams attachment.upstream_id) zero_upstream).name in
    sample_grant_usage_for state instance_id grant_id grant.user_id names3 now links

-- The loop that finds the first bucket to keep; `Before(now - retention)` is written without the
-- subtraction.
abbrev pub is_old : ℕ → UsageBucket → Bool
is_old now b = ltb (b.at + usage_retention) now

unfoldable pub drop_old : ℕ → List UsageBucket → List UsageBucket
drop_old now [] = []
drop_old now (b ∷ bs) = if is_old now b then drop_old now bs else b ∷ bs

-- One round of the loop of `pruneUsageHistory`.
unfoldable pub prune_key : ℕ → String → List UsageBucket → State → State
prune_key now key buckets state = elim (drop_old now buckets) [
  | [] ↦ record state {
    usage_history = Dict.remove state.usage_history key;
    usage_labels = Dict.remove state.usage_labels key;
  }
  | b ∷ bs ↦ record state { usage_history = Dict.put state.usage_history key (b ∷ bs) }
]

-- The loop over the history's keys.
unfoldable pub prune_keys : ℕ → Dict (List UsageBucket) → State → State
prune_keys now [] state = state
prune_keys now ((key, buckets) ∷ rest) state = prune_keys now rest (prune_key now key buckets state)

unfoldable pub prune_usage_history : State → ℕ → State
unfolding prune_keys
prune_usage_history state now = prune_keys now state.usage_history state
