-- ===== src/Controller/Retired.antt =====
-- internal/controller/retired_usage.go: what is kept of a deleted grant or Link until its last
-- traffic has been reported.
use Prim.Native.String.{◌++◌ as ◌<>◌}
use text.Mathlib.Text.{starts_with}
use xmesh.Common.{
  ℕ, ◌+◌, ◌*◌, ◌%◌, ◌^◌, Bool, true, false, ◌&&◌, ◌||◌, not, Option, none, some, [], ◌∷◌, String,
  str_eq, ltb, leb, if◌then◌else◌,
}
use xmesh.Common.Dict
use xmesh.Common.Dict.{Dict, get_or}
use xmesh.Common.Derived.{exists}
use xmesh.Model.{
  State, Gateway, Grant, Attachment, Link, RetiredGrant, RetiredLink, NodeStatus, UsageCounter,
}
use xmesh.Controller.Usage.{second, zero_upstream}

-- `retiredUsageLifetime`
abbrev pub retired_usage_lifetime : ℕ
retired_usage_lifetime = 7 * 24 * 3600 * second

-- The loops of `retireGrant` that collect the names of the Links under an attachment.
unfoldable pub names_of_links : Dict Link → String → Dict String → Dict String
names_of_links [] attachment names = names
names_of_links ((id, link) ∷ rest) attachment names =
    names_of_links rest attachment
      (if str_eq link.attachment_id attachment then Dict.put names id link.name else names)

unfoldable pub names_of_retired : Dict RetiredLink → String → Dict String → Dict String
names_of_retired [] attachment names = names
names_of_retired ((id, link) ∷ rest) attachment names =
    names_of_retired rest attachment
      (if str_eq link.attachment_id attachment then Dict.put names id link.name else names)

-- The versions are uint64.
abbrev next_version : ℕ → ℕ
next_version v = (v + 1) % 2 ^ 64

unfoldable pub retire_grant : State → Grant → ℕ → State
unfolding names_of_links names_of_retired
retire_grant s grant now = elim (Dict.get s.attachments grant.attachment_id) [
  | none ↦ s
  | some attachment ↦ elim (Dict.get s.gateways attachment.gateway_id) [
    | none ↦ s
    | some gateway ↦
        let upstream = (get_or (Dict.get s.upstreams attachment.upstream_id) zero_upstream).name in
        let names1 =
          if str_eq attachment.upstream_id "" then [] else Dict.put [] attachment.id upstream in
        let names2 = names_of_links s.links attachment.id names1 in
        let names3 = names_of_retired s.retired_links attachment.id names2 in
        record s {
          retired_grants = Dict.put s.retired_grants grant.id (record {
            user_id = grant.user_id;
            attachment_id = attachment.id;
            gateway_id = attachment.gateway_id;
            link_names = names3;
            retire_version = next_version gateway.desired_version;
            expires_at = now + retired_usage_lifetime;
          });
        }
  ]
]

abbrev pub retired_link : State → Attachment → String → ℕ → Gateway → RetiredLink
retired_link s attachment name now gateway = record {
  attachment_id = attachment.id;
  gateway_id = attachment.gateway_id;
  agent_id = attachment.agent_id;
  name = name;
  gateway_version = next_version gateway.desired_version;
  agent_version = elim (Dict.get s.agents attachment.agent_id) [
    | none ↦ 0
    | some a ↦ next_version a.desired_version
  ];
  expires_at = now + retired_usage_lifetime;
}

unfoldable pub retire_link : State → String → Attachment → String → ℕ → State
retire_link s id attachment name now =
    if str_eq attachment.id "" then s else elim (Dict.get s.gateways attachment.gateway_id) [
      | none ↦ s
      | some gateway ↦ record s {
        retired_links = Dict.put s.retired_links id (retired_link s attachment name now gateway);
      }
    ]

-- strings.HasSuffix
unfoldable pub ends_with : String → String → Bool
ends_with String.[] t = str_eq "" t
ends_with (String.◌∷◌ c s) t =
    let rest = ends_with s t in if str_eq (String.◌∷◌ c s) t then true else rest

-- The loops that delete the counters whose keys pass a test.
unfoldable pub drop_counters :
    (String → Bool) → Dict UsageCounter → Dict UsageCounter → Dict UsageCounter
drop_counters test [] counters = counters
drop_counters test ((key, c) ∷ rest) counters =
    drop_counters test rest (if test key then Dict.remove counters key else counters)

-- A missing status is the zero value: not ready, and at version 0.
abbrev pub xray_applied : Option NodeStatus → ℕ → Bool
xray_applied none version = false
xray_applied (some status) version = status.xray_ready && leb version status.applied_version

abbrev pub applied : Option NodeStatus → ℕ → Bool
applied none version = leb version 0
applied (some status) version = leb version status.applied_version

-- Whether `pruneRetiredUsage` keeps a grant, and a Link.
unfoldable pub keeps_grant : State → ℕ → RetiredGrant → Bool
keeps_grant s now grant =
    exists (Dict.get s.gateways grant.gateway_id)
    && ltb now grant.expires_at
    && not (xray_applied (Dict.get s.node_status grant.gateway_id) grant.retire_version)

unfoldable pub keeps_link : State → ℕ → RetiredLink → Bool
keeps_link s now link =
    let gateway_done =
      not (exists (Dict.get s.gateways link.gateway_id))
      || xray_applied (Dict.get s.node_status link.gateway_id) link.gateway_version in
    let agent_done =
      not (exists (Dict.get s.agents link.agent_id))
      || applied (Dict.get s.node_status link.agent_id) link.agent_version in
    ltb now link.expires_at && not (gateway_done && agent_done)

unfoldable pub prune_grants : ℕ → Dict RetiredGrant → State → State
unfolding drop_counters keeps_grant
prune_grants now [] s = s
prune_grants now ((id, grant) ∷ rest) s = prune_grants now rest (
    if keeps_grant s now grant then s else record s {
      retired_grants = Dict.remove s.retired_grants id;
      usage_counters =
          drop_counters (λ key. starts_with key (id <> "/")) s.usage_counters s.usage_counters;
    })

unfoldable pub prune_links : ℕ → Dict RetiredLink → State → State
unfolding drop_counters keeps_link
prune_links now [] s = s
prune_links now ((id, link) ∷ rest) s = prune_links now rest (
    if keeps_link s now link then s else record s {
      retired_links = Dict.remove s.retired_links id;
      usage_counters =
          drop_counters (λ key. ends_with key ("/" <> id)) s.usage_counters s.usage_counters;
    })

-- `pruneRetiredUsage`
unfoldable pub prune_retired_usage : State → ℕ → State
unfolding prune_grants prune_links
prune_retired_usage s now =
    let pruned = prune_grants now s.retired_grants s in prune_links now pruned.retired_links pruned
