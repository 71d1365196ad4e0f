-- ===== src/Agent/Policy.antt =====
-- internal/agent/policy.go: the Agent's access policy, and the connections that it permits. The
-- observer of resolutions only records them and is left out.
pub mod Permits
mod Tests
use xmesh.Common.{
  ℕ, zero, suc, ◌+◌, ◌≡◌, Bool, true, false, ◌&&◌, ◌||◌, not, Option, none, some, List, [], ◌∷◌,
  map, keep, String, ltb, ◌==◌, if◌then◌else◌, Result, ok, err, ◌>>=◌, ◌>>◌, refuse_if, or_fail,
}
use xmesh.Common.Int.{ℤ, pos, pos_part, ltz, eqz}
use xmesh.Model.{Agent}
use xmesh.Egress.{blocked_tcp_port}

-- net/netip, and the net package's resolver and dialer. Unmap takes the IPv4 address out of one that
-- is mapped into IPv6, so a second Unmap changes nothing.
pub record Net : Type 1 where
  pub Prefix : Type 0
  pub Addr : Type 0
  pub Conn : Type 0
  pub parse_prefix : String → Option Prefix
  pub parse_addr : String → Option Addr
  pub unmap : Addr → Addr
  pub prefix_contains : Prefix → Addr → Bool
  pub lookup : String → Result String (List Addr)
  pub dial : Addr → ℤ → Result String Conn
  pub unmap_unmap : (a : Addr) → unmap (unmap a) ≡ unmap a

pub data Error : Type 0 where
  invalid_allowed_cidr invalid_denied_cidr : String → Error
  invalid_allowed_port : ℤ → Error
  no_allowed_cidrs invalid_target_port port_not_allowed denied_by_policy : Error
  resolve_failed dial_failed : String → Error
  denied_by_default : ℤ → Error

-- `port < 1 || port > 65535`
abbrev pub bad_port : ℤ → Bool
bad_port port = ltb (pos_part port) 1 || ltz (pos 65535) port

-- A map[int]bool whose values are all true, by its keys.
unfoldable pub has_port : List ℤ → ℤ → Bool
has_port [] port = false
has_port (p ∷ ps) port = let rest = has_port ps port in if eqz p port then true else rest

-- len(p.ports) == 0 || p.ports[port]
unfoldable pub port_permitted : List ℤ → ℤ → Bool
port_permitted [] port = true
port_permitted (p ∷ ps) port = has_port (p ∷ ps) port

-- The loop over AllowedPorts.
unfoldable pub check_ports : List ℤ → Result Error (List ℤ)
check_ports [] = ok []
check_ports (port ∷ ports) =
    refuse_if (bad_port port) (invalid_allowed_port port)
    >> (check_ports ports >>= λ rest. ok (port ∷ rest))

module _ (net : Net) where
  open net use {Prefix, Addr, Conn, parse_prefix, parse_addr, unmap, prefix_contains, lookup, dial}

  pub record AccessPolicy : Type 0 where
    pub allow : List Prefix
    pub deny : List Prefix
    pub ports : List ℤ

  -- The loops over AllowedCIDRs and DeniedCIDRs.
  unfoldable pub parse_prefixes : (String → Error) → List String → Result Error (List Prefix)
  parse_prefixes invalid [] = ok []
  parse_prefixes invalid (value ∷ values) =
      or_fail (parse_prefix value) (invalid value) >>= λ prefix.
      parse_prefixes invalid values >>= λ rest. ok (prefix ∷ rest)

  abbrev pub is_empty : List Prefix → Bool
  is_empty [] = true
  is_empty (p ∷ ps) = false

  unfoldable pub compile_policy : Agent → Result Error AccessPolicy
  unfolding parse_prefixes check_ports
  compile_policy agent = do
    allow ← parse_prefixes invalid_allowed_cidr agent.allowed_cidrs
    deny ← parse_prefixes invalid_denied_cidr agent.denied_cidrs
    ports ← check_ports agent.allowed_ports
    refuse_if (is_empty allow) no_allowed_cidrs
    ok (record { allow = allow; deny = deny; ports = ports })

  unfoldable pub contains : List Prefix → Addr → Bool
  contains [] address = false
  contains (prefix ∷ prefixes) address =
      let rest = contains prefixes address in if prefix_contains prefix address then true else rest

  -- An address that is written in the host, or those that its name resolves to.
  unfoldable pub candidates : String → Result Error (List Addr)
  candidates host = elim (parse_addr host) [
    | some ip ↦ ok (unmap ip ∷ [])
    | none ↦ elim (lookup host) [ err e ↦ err (resolve_failed e) | ok ips ↦ ok (map unmap ips) ]
  ]

  abbrev pub address_permitted : AccessPolicy → Addr → Bool
  address_permitted p ip = contains p.allow ip && not (contains p.deny ip)

  -- The loop over the candidates.
  unfoldable pub filter_allowed : AccessPolicy → List Addr → List Addr
  filter_allowed p [] = []
  filter_allowed p (ip ∷ ips) =
      let rest = filter_allowed p ips in
      if not (contains p.allow ip) || contains p.deny ip then rest else ip ∷ rest

  abbrev pub some_allowed : List Addr → Result Error (List Addr)
  some_allowed [] = err denied_by_policy
  some_allowed (ip ∷ ips) = ok (ip ∷ ips)

  -- `resolveObserved`, and `resolve`
  unfoldable pub resolve : AccessPolicy → String → ℤ → Result Error (List Addr)
  resolve p host port = do
    refuse_if (bad_port port) invalid_target_port
    refuse_if (not (port_permitted p.ports port)) port_not_allowed
    ips ← candidates host
    some_allowed (filter_allowed p ips)

  -- `permitsTCP`; the argument is what netip.AddrFromSlice makes of the address.
  unfoldable pub permits_tcp : AccessPolicy → Option Addr → ℤ → Bool
  permits_tcp p none port = false
  permits_tcp p (some ip) port =
      not (blocked_tcp_port port)
      && port_permitted p.ports port
      && contains p.allow (unmap ip)
      && not (contains p.deny (unmap ip))

  -- The loop that dials the addresses in turn, with the last error.
  unfoldable pub dial_loop : List Addr → ℤ → Error → Result Error Conn
  dial_loop [] port last = err last
  dial_loop (address ∷ addresses) port last = elim (dial address port) [
    | ok conn ↦ ok conn
    | err e ↦ dial_loop addresses port (dial_failed e)
  ]

  -- `dialTCPObserved`, and `dialTCP`; `resolve` never returns an empty list.
  unfoldable pub dial_tcp : AccessPolicy → String → ℤ → Result Error Conn
  dial_tcp p host port = do
    refuse_if (blocked_tcp_port port) (denied_by_default port)
    addresses ← resolve p host port
    dial_loop addresses port denied_by_policy

  -- `udpAddress`
  unfoldable pub udp_address : AccessPolicy → String → ℤ → Result Error (Option Addr)
  udp_address p host port = do
    addresses ← resolve p host port
    ok (elim addresses [ [] ↦ none | ip ∷ ips ↦ some ip ])
