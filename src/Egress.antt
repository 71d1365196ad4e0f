-- ===== src/Egress.antt =====
-- internal/egress/policy.go: the TCP ports that client proxy traffic may not reach.
use xmesh.Common.{Bool, true, false, List, [], ◌∷◌, if◌then◌else◌}
use xmesh.Common.Int.{ℤ, pos, eqz}

abbrev pub blocked_tcp_ports : List ℤ
blocked_tcp_ports = pos 25 ∷ pos 465 ∷ pos 587 ∷ pos 2525 ∷ []

-- The loop of `BlockedTCPPort`.
port_in : ℤ → List ℤ → Bool
port_in port [] = false
port_in port (blocked ∷ rest) = if eqz port blocked then true else port_in port rest

unfoldable pub blocked_tcp_port : ℤ → Bool
unfolding port_in
blocked_tcp_port port = port_in port blocked_tcp_ports
