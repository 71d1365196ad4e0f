-- ===== src/Gateway/UdpQueue.antt =====
-- internal/gateway/udp_queue.go: a datagram queue bounded in packets and in payload bytes, shared
-- by goroutines without a lock. `offer` and `take` are here as they run alone; the child Steps has
-- their atomic actions, interleaved.
pub mod Steps
mod Tests
use xmesh.Common.{
  ℕ, zero, suc, ◌+◌, ◌-◌, ◌*◌, ◌^◌, Bool, true, false, Option, none, some, List, [], ◌∷◌, ◌++◌,
  length, ltb, leb, if◌then◌else◌, ◌==◌,
}
use xmesh.Common.Int.{ℤ, pos_part}
use xmesh.Protocol.{Datagram}

-- The capacity of the channel.
abbrev pub capacity : ℕ
capacity = 64

-- `bytes` never goes below 0 (see the invariant), so a natural number stands for the int64.
pub record Queue : Type 0 where
  pub items : List Datagram
  pub bytes : ℕ
  pub limit : ℕ

abbrev pub size : Datagram → ℕ
size d = length d.payload

unfoldable pub new_udp_queue : ℤ → Queue
new_udp_queue limit = record {
  items = [];
  bytes = 0;
  limit = if pos_part limit == 0 then 256 * 2 ^ 10 else pos_part limit;
}

-- `size > q.limit - used`
abbrev pub too_big : Queue → ℕ → Datagram → Bool
too_big q used d = ltb q.limit (used + size d)

-- `offer`: reserve the bytes, then send without waiting; a full channel gives the bytes back.
unfoldable pub offer : Queue → Datagram → Queue × Bool
offer q d =
    let used = q.bytes in
    let reserved = used + size d in
    if too_big q used d
    then (q, false)
    else if ltb (length q.items) capacity
    then (record q { items = q.items ++ d ∷ []; bytes = reserved }, true)
    else (record q { bytes = reserved - size d }, false)

-- `take`, where a datagram is there; on an empty queue it waits for one or for the context.
unfoldable pub take : Queue → Queue × Option Datagram
take q = elim q.items [
  | [] ↦ (q, none)
  | d ∷ rest ↦ (record q { items = rest; bytes = q.bytes - size d }, some d)
]
