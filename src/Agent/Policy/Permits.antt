-- ===== src/Agent/Policy/Permits.antt =====
-- What `resolve` and `dialTCP` let through.
use xmesh.Common.{
  ◌≡◌, ◌≢◌, refl, ap, subst, ◌∙◌, inl, inr, true, false, ◌||◌, not, Bool-cases, Option, none, some,
  List, [], ◌∷◌, map, All, String, Result, ok, err, arith, ok-injective, err-ok,
}
use xmesh.Common.Int.{ℤ, pos, ◌≤ℤ◌}
use xmesh.Egress.{blocked_tcp_port}
use xmesh.Agent.Policy.{
  Net, Error, AccessPolicy, bad_port, port_permitted, contains, candidates, filter_allowed,
  some_allowed, resolve, permits_tcp, dial_loop, dial_failed, denied_by_policy, dial_tcp,
}

module _ (net : Net) where
  open net use {Addr, Conn, unmap, unmap_unmap, dial, parse_addr, lookup}

  -- An IPv4 address stands unmapped, is in an allowed network, and in no denied one.
  abbrev pub IsPermitted : AccessPolicy net → Addr → Type 0
  IsPermitted p ip =
      (unmap ip ≡ ip) × (contains net p.allow ip ≡ true) × (contains net p.deny ip ≡ false)

  filter_allowed-IsPermitted :
      (p : AccessPolicy net) (ips : List Addr)
      → All (λ ip. unmap ip ≡ ip) ips
      → All (IsPermitted p) (filter_allowed net p ips)
  unfolding filter_allowed
  filter_allowed-IsPermitted p [] h = tt
  filter_allowed-IsPermitted p (ip ∷ ips) h =
      elim (Bool-cases (not (contains net p.allow ip) || contains net p.deny ip)) [
        | inl refused ↦ rw refused (filter_allowed-IsPermitted p ips h.1)
        | inr fine ↦ rw fine (
          (h.0, ground (arith, fine), ground (arith, fine)),
          filter_allowed-IsPermitted p ips h.1,
        )
      ]

  map_unmap : (ips : List Addr) → All (λ ip. unmap ip ≡ ip) (map unmap ips)
  map_unmap [] = tt
  map_unmap (ip ∷ ips) = (unmap_unmap ip, map_unmap ips)

  candidates-unmapped :
      (host : String) (ips : List Addr)
      → candidates net host ≡ ok ips
      → All (λ ip. unmap ip ≡ ip) ips
  unfolding candidates
  candidates-unmapped host ips h = go (parse_addr host) refl (lookup host) refl
    where
      go :
          (o : Option Addr)
          → parse_addr host ≡ o
          → (r : Result String (List Addr)) → lookup host ≡ r
          → All (λ ip. unmap ip ≡ ip) ips
      go (some ip) e r f =
          subst (All (λ x. unmap x ≡ x)) (ok-injective _ _ (rw (e, candidates) at h))
            (unmap_unmap ip, tt)
      go none e (err x) f = absurd (err-ok _ _ (rw (f, candidates) at (rw (e, candidates) at h)))
      go none e (ok found) f =
          subst (All (λ x. unmap x ≡ x))
            (ok-injective _ _ (rw (f, candidates) at (rw (e, candidates) at h))) (map_unmap found)

  some_allowed-IsPermitted :
      (p : AccessPolicy net) (all ips : List Addr)
      → All (IsPermitted p) all
      → some_allowed net all ≡ ok ips
      → All (IsPermitted p) ips × (ips ≢ [])
  some_allowed-IsPermitted p [] ips h e = cc
  some_allowed-IsPermitted p (ip ∷ all) ips h e =
      let same = ok-injective _ _ e in (subst (All (IsPermitted p)) same h, λ nil. cc)

  -- The addresses that `resolve` returns are in an allowed network and in no denied one, and there
  -- is one at least; the port is from 1 to 65535, and one of the policy's if it names any.
  pub resolve-IsPermitted :
      (p : AccessPolicy net) (host : String) (port : ℤ) (ips : List Addr)
      → resolve net p host port ≡ ok ips
      → All (IsPermitted p) ips
        × (ips ≢ [])
        × (port_permitted p.ports port ≡ true)
        × (pos 1 ≤ℤ port)
        × (port ≤ℤ pos 65535)
  unfolding resolve
  resolve-IsPermitted p host port ips h = elim (Bool-cases (bad_port port)) [
    | inl bad ↦ absurd (err-ok _ _ (rw (bad, resolve) at h))
    | inr fine ↦ elim (Bool-cases (port_permitted p.ports port)) [
      | inr other ↦ absurd (err-ok _ _ (rw (other, resolve) at (rw (fine, resolve) at h)))
      | inl named ↦ go (candidates net host) refl fine named
    ]
  ]
    where
      go :
          (r : Result Error (List Addr))
          → candidates net host ≡ r
          → bad_port port ≡ false
          → port_permitted p.ports port ≡ true
          → All (IsPermitted p) ips
            × (ips ≢ [])
            × (port_permitted p.ports port ≡ true)
            × (pos 1 ≤ℤ port)
            × (port ≤ℤ pos 65535)
      go (err x) e fine named =
          absurd
            (err-ok _ _ (rw (e, resolve) at (rw (named, resolve) at (rw (fine, resolve) at h))))
      go (ok found) e fine named =
          let allowed =
            some_allowed-IsPermitted p (filter_allowed net p found) ips
              (filter_allowed-IsPermitted p found (candidates-unmapped host found e))
              (rw (e, resolve) at (rw (named, resolve) at (rw (fine, resolve) at h))) in
          (allowed.0, allowed.1, named, ground (arith, fine), ground (arith, fine))

  dial_loop-dialled :
      (p : AccessPolicy net) (ips : List Addr) (port : ℤ) (last : Error) (conn : Conn)
      → All (IsPermitted p) ips
      → dial_loop net ips port last ≡ ok conn
      → (ip : Addr) × IsPermitted p ip × (dial ip port ≡ ok conn)
  unfolding dial_loop
  dial_loop-dialled p [] port last conn h e = absurd (err-ok _ _ e)
  dial_loop-dialled p (ip ∷ ips) port last conn h e =
      go (dial ip port) refl (λ next. dial_loop-dialled p ips port (dial_failed next) conn h.1)
    where
      go :
          (r : Result String Conn)
          → dial ip port ≡ r
          → ((next : String)
              → dial_loop net ips port (dial_failed next) ≡ ok conn
              → (a : Addr) × IsPermitted p a × (dial a port ≡ ok conn))
          → (a : Addr) × IsPermitted p a × (dial a port ≡ ok conn)
      go (ok c) f later = (ip, h.0, f ∙ ap ok (ok-injective _ _ (rw (f, dial_loop) at e)))
      go (err x) f later = later x (rw (f, dial_loop) at e)

  -- A connection that `dialTCP` returns was dialled to an address that `permitsTCP` accepts at this
  -- port: never a port that is refused by default, and never outside the policy's networks.
  pub dial_tcp-permits_tcp :
      (p : AccessPolicy net) (host : String) (port : ℤ) (conn : Conn)
      → dial_tcp net p host port ≡ ok conn
      → (ip : Addr) × (permits_tcp net p (some ip) port ≡ true) × (dial ip port ≡ ok conn)
  unfolding dial_tcp permits_tcp
  dial_tcp-permits_tcp p host port conn h = elim (Bool-cases (blocked_tcp_port port)) [
    | inl blocked ↦ absurd (err-ok _ _ (rw (blocked, dial_tcp) at h))
    | inr open_port ↦ go (resolve net p host port) refl open_port
  ]
    where
      go :
          (r : Result Error (List Addr))
          → resolve net p host port ≡ r
          → blocked_tcp_port port ≡ false
          → (ip : Addr) × (permits_tcp net p (some ip) port ≡ true) × (dial ip port ≡ ok conn)
      go (err x) e fine = absurd (err-ok _ _ (rw (e, dial_tcp) at (rw (fine, dial_tcp) at h)))
      go (ok ips) e fine =
          let allowed = resolve-IsPermitted p host port ips e in
          let (ip, ok_ip, dialled) =
            dial_loop-dialled p ips port denied_by_policy conn allowed.0
              (rw (e, dial_tcp) at (rw (fine, dial_tcp) at h)) in
          (ip, rw (fine, allowed.2, ok_ip.0, ok_ip.1, ok_ip.2) refl, dialled)
