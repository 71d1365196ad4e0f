-- ===== src/Gateway.antt =====
-- internal/gateway: the parts of the Gateway's data plane.
pub mod Socks
pub mod UdpQueue
