-- ===== src/Agent/Policy/Tests.antt =====
-- Witnesses of the policy's theorems, with numbers for addresses: a network is the hundreds.
use xmesh.Common.{ℕ, ◌/◌, ◌≡◌, ◌≢◌, refl, true, none, some, List, [], ◌∷◌, All, ◌==◌, ok}
use xmesh.Common.Int.{pos, ◌≤ℤ◌}
use xmesh.Egress.{blocked_tcp_port}
use xmesh.Agent.Policy.{
  Net, AccessPolicy, port_permitted, has_port, contains, candidates, filter_allowed, resolve,
  permits_tcp, dial_loop, dial_tcp,
}
use xmesh.Agent.Policy.Permits.{IsPermitted, resolve-IsPermitted, dial_tcp-permits_tcp}

abbrev net : Net
net = record {
  Prefix = ℕ;
  Addr = ℕ;
  Conn = ℕ;
  parse_prefix = λ s. none;
  parse_addr = λ s. none;
  unmap = λ a. a;
  prefix_contains = λ p a. (a / 100) == p;
  lookup = λ host. ok (250 ∷ 120 ∷ []);
  dial = λ a port. ok a;
  unmap_unmap = λ a. refl;
}

abbrev policy : AccessPolicy net
policy = record { allow = 1 ∷ []; deny = 2 ∷ []; ports = pos 443 ∷ [] }

abbrev addresses : List ℕ
addresses = 120 ∷ []

resolve-IsPermitted_example :
    All (IsPermitted net policy) addresses
    × (addresses ≢ [])
    × (port_permitted policy.ports (pos 443) ≡ true)
    × (pos 1 ≤ℤ pos 443)
    × (pos 443 ≤ℤ pos 65535)
unfolding resolve port_permitted has_port candidates filter_allowed contains
resolve-IsPermitted_example = resolve-IsPermitted net policy "example.com" (pos 443) addresses refl

dial_tcp-permits_tcp_example :
    (ip : ℕ) × (permits_tcp net policy (some ip) (pos 443) ≡ true)
    × (net.dial ip (pos 443) ≡ ok 120)
unfolding dial_tcp resolve port_permitted has_port candidates filter_allowed contains
    blocked_tcp_port dial_loop
dial_tcp-permits_tcp_example = dial_tcp-permits_tcp net policy "example.com" (pos 443) 120 refl
