-- ===== src/Gateway/Socks/Tests.antt =====
-- Witnesses of the theorems on SOCKS5, where "::" is the one address.
use xmesh.Common.{
  ◌≡◌, refl, true, Option, none, some, [], ◌∷◌, length, ◌==◌, if◌then◌else◌, arith, Result, ok, err,
}
use xmesh.Common.Int.{pos}
use xmesh.Protocol.{Datagram}
use xmesh.Protocol.Wire.{Bytes, put_uint16}
use xmesh.Gateway.Socks.{
  Net, SocksError, encode_host, encode_socks_udp, decode_socks_udp, socks_authenticate, offers,
}
use xmesh.Gateway.Socks.Laws.{
  canonical, greeting, encode_socks_udp-decode_socks_udp, socks_authenticate-greeting,
}

abbrev zeros : Bytes
zeros = 0 ∷ 0 ∷ 0 ∷ 0 ∷ 0 ∷ 0 ∷ 0 ∷ 0 ∷ 0 ∷ 0 ∷ 0 ∷ 0 ∷ 0 ∷ 0 ∷ 0 ∷ 0 ∷ []

abbrev parsed : Bytes → Option Bytes
parsed host = if length host == 2 then some zeros else none

none_is_ip4 : (ip b : Bytes) → ◌≡◌ {A = Option Bytes} none (some b) → length b ≡ 4
none_is_ip4 ip b h = cc

net : Net
net = record {
  parse_ip = λ host. parsed host;
  to4 = λ ip. none;
  to16 = λ ip. zeros;
  ip_string = λ ip. 58 ∷ 58 ∷ [];
  length-to4 = none_is_ip4;
  length-to16 = λ host ip h. refl;
}

abbrev datagram : Datagram
datagram = record { host = 58 ∷ 58 ∷ []; port = pos 53; payload = 7 ∷ 8 ∷ [] }

abbrev encoded : Result SocksError Bytes → Bytes
encoded (ok b) = b
encoded (err e) = []

encoded-ok : encode_socks_udp net datagram ≡ ok (encoded (encode_socks_udp net datagram))
unfolding encode_socks_udp encode_host put_uint16 net
encoded-ok = refl

encode_socks_udp-decode_socks_udp_example :
    decode_socks_udp net (encoded (encode_socks_udp net datagram))
    ≡ ok (record { host = canonical net (58 ∷ 58 ∷ []); port = pos 53; payload = 7 ∷ 8 ∷ [] })
encode_socks_udp-decode_socks_udp_example =
    encode_socks_udp-decode_socks_udp net datagram (encoded (encode_socks_udp net datagram)) 53 refl
      (omega arith) encoded-ok

offered : offers 2 (0 ∷ 2 ∷ []) ≡ true
unfolding offers
offered = refl

socks_authenticate-greeting_example :
    socks_authenticate (λ b. true) (greeting (0 ∷ 2 ∷ []) (97 ∷ []) (98 ∷ 99 ∷ []) (1 ∷ []))
    ≡ (5 ∷ 2 ∷ [], ok (97 ∷ [], 98 ∷ 99 ∷ [], 1 ∷ []))
socks_authenticate-greeting_example =
    socks_authenticate-greeting (λ b. true) (0 ∷ 2 ∷ []) (97 ∷ []) (98 ∷ 99 ∷ []) (1 ∷ []) refl
      offered (λ e. cc) (λ e. cc)
