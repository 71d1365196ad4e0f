-- ===== src/Gateway/UdpQueue/Tests.antt =====
-- Witnesses of the queue's theorems.
use xmesh.Common.{◌≡◌, ◌+◌, ◌≤◌, ◌<◌, ◌↔◌, refl, true, length, [], ◌∷◌, ◌++◌, if◌then◌else◌}
use xmesh.Common.Int.{pos}
use xmesh.Protocol.{Datagram}
use xmesh.Gateway.UdpQueue.{Queue, new_udp_queue, offer, size, capacity}
use xmesh.Gateway.UdpQueue.Steps.{
  Steps, idle, after, loaded, reserved, here, more, offers, loads, swaps, IsBounded,
  Steps-IsBounded, offer-Steps, drained,
}

abbrev datagram : Datagram
datagram = record { host = 104 ∷ []; port = pos 53; payload = 1 ∷ 2 ∷ 3 ∷ [] }

abbrev queue : Queue
queue = new_udp_queue (pos 10)

-- A second offer has loaded the counter before the first one's swap.
Steps-IsBounded_example :
    IsBounded (after (idle queue) [] 3 (loaded 0 datagram ∷ reserved datagram ∷ []))
unfolding new_udp_queue
Steps-IsBounded_example = Steps-IsBounded (pos 10) (
    more
      (more
        (more (more (more here (offers datagram)) (loads [] [] datagram refl)) (offers datagram))
        (loads [] (loaded 0 datagram ∷ []) datagram refl))
      (swaps (loaded 0 datagram ∷ []) [] 0 datagram refl refl refl))

offer-Steps_example :
    Steps (idle queue) (idle (offer queue datagram).0)
    × (((offer queue datagram).1 ≡ true)
        ↔ ((queue.bytes + size datagram ≤ queue.limit) × (length queue.items < capacity)))
    × (drained (offer queue datagram).0
        ≡ drained queue ++ (if (offer queue datagram).1 then datagram ∷ [] else []))
offer-Steps_example = offer-Steps queue datagram
