-- ===== src/Gateway/Socks.antt =====
-- internal/gateway/socks.go: the greeting, the requests and the UDP packets of SOCKS5. A Go string
-- is its bytes; a reader is the stream that is left of it.
pub mod Laws
mod Tests
use xmesh.Common.{
  ℕ, ◌+◌, ◌-◌, ◌*◌, ◌%◌, ◌^◌, ◌≡◌, Bool, true, false, ◌&&◌, ◌||◌, not, Option, none, some, List, [],
  ◌∷◌, ◌++◌, length, drop, ltb, ◌==◌, if◌then◌else◌, Result, ok, err, ◌>>=◌, ◌>>◌, refuse_if,
  or_fail,
}
use xmesh.Common.Int.{ℤ, pos, negsuc}
use xmesh.Protocol.{Datagram}
use xmesh.Protocol.Wire.{Bytes, put_uint16, uint16, read_full}

-- net.ParseIP, and the methods To4, To16 and String of net.IP: an IPv4 address has 4 bytes, and any
-- that has been parsed has a form of 16.
pub record Net : Type 0 where
  pub parse_ip : Bytes → Option Bytes
  pub to4 : Bytes → Option Bytes
  pub to16 : Bytes → Bytes
  pub ip_string : Bytes → Bytes
  pub length-to4 : (ip b : Bytes) → to4 ip ≡ some b → length b ≡ 4
  pub length-to16 : (host ip : Bytes) → parse_ip host ≡ some ip → length (to16 ip) ≡ 16

pub data SocksError : Type 0 where
  unexpected_eof invalid_greeting authentication_required write_failed : SocksError
  invalid_auth empty_credentials invalid_request unsupported_address invalid_header
        domain_too_long :
      SocksError

pub record Target : Type 0 where
  pub host : Bytes
  pub port : ℤ

abbrev pub socks_version : ℕ
socks_version = 5

abbrev pub socks_auth_user_password : ℕ
socks_auth_user_password = 2

-- byte(n), and uint16(n) of an int
abbrev pub to_byte : ℕ → ℕ
to_byte n = n % 2 ^ 8

abbrev pub to_uint16 : ℤ → ℕ
to_uint16 (pos n) = n % 2 ^ 16
to_uint16 (negsuc n) = 2 ^ 16 - 1 - n % 2 ^ 16

-- The first byte of a reader.
abbrev pub read_byte : Bytes → Option (ℕ × Bytes)
read_byte [] = none
read_byte (b ∷ rest) = some (b, rest)

-- `readLengthString`
unfoldable pub read_length_string : Bytes → Result SocksError (Bytes × Bytes)
read_length_string stream = do
  first ← or_fail (read_byte stream) unexpected_eof
  or_fail (read_full first.0 first.1) unexpected_eof

unfoldable pub offers : ℕ → Bytes → Bool
offers method [] = false
offers method (m ∷ ms) = let rest = offers method ms in if m == method then true else rest

-- What has been written to the connection, and the result with the rest of the stream.
abbrev pub Talk : Type 0 → Type 0
Talk A = Bytes × Result SocksError A

-- The credentials, in the second half of `socksAuthenticate`.
unfoldable pub read_credentials : Bytes → Talk (Bytes × Bytes × Bytes)
read_credentials stream = elim (read_byte stream) [
  | none ↦ ([], err invalid_auth)
  | some (version, s1) ↦
      if not (version == 1) then ([], err invalid_auth) else elim (read_length_string s1) [
        | err e ↦ ([], err e)
        | ok (username, s2) ↦ elim (read_length_string s2) [
          | err e ↦ ([], err e)
          | ok (password, s3) ↦
              if length username == 0 || length password == 0
              then (1 ∷ 1 ∷ [], err empty_credentials)
              else ([], ok (username, password, s3))
        ]
      ]
]

-- `socksAuthenticate`, with whether a write to the connection succeeds.
unfoldable pub socks_authenticate : (Bytes → Bool) → Bytes → Talk (Bytes × Bytes × Bytes)
unfolding offers read_credentials
socks_authenticate writes stream = elim (read_full 2 stream) [
  | none ↦ ([], err unexpected_eof)
  | some (version ∷ count ∷ _, s1) ↦
      if not (version == socks_version) || count == 0
      then ([], err invalid_greeting)
      else elim (read_full count s1) [
        | none ↦ ([], err unexpected_eof)
        | some (methods, s2) ↦
            if not (offers socks_auth_user_password methods)
            then (socks_version ∷ 255 ∷ [], err authentication_required)
            else if not (writes (socks_version ∷ socks_auth_user_password ∷ []))
            then ([], err write_failed)
            else (let talk = read_credentials s2 in
                (socks_version ∷ socks_auth_user_password ∷ talk.0, talk.1))
      ]
  | some (_, s1) ↦ ([], err unexpected_eof)
]

module _ (net : Net) where
  open net use {parse_ip, to4, to16, ip_string}

  -- The `switch` of `readSOCKSAddress`: the host, the bytes consumed, and the rest.
  unfoldable pub read_host : ℕ → Bytes → Result SocksError (Bytes × ℕ × Bytes)
  read_host type stream =
      if type == 1
      then (or_fail (read_full 4 stream) unexpected_eof >>= λ r. ok (ip_string r.0, 4, r.1))
      else if type == 3
      then (or_fail (read_byte stream) unexpected_eof >>= λ f.
          or_fail (read_full f.0 f.1) unexpected_eof >>= λ r. ok (r.0, 1 + length r.0, r.1))
      else if type == 4
      then (or_fail (read_full 16 stream) unexpected_eof >>= λ r. ok (ip_string r.0, 16, r.1))
      else err unsupported_address

  -- `readSOCKSAddress`
  unfoldable pub read_socks_address : ℕ → Bytes → Result SocksError (Target × ℕ × Bytes)
  unfolding read_host
  read_socks_address type stream = do
    h ← read_host type stream
    p ← or_fail (read_full 2 h.2) unexpected_eof
    ok (record { host = h.0; port = pos (uint16 p.0) }, h.1 + 2, p.1)

  -- `readSOCKSRequest`
  unfoldable pub read_socks_request : Bytes → Result SocksError (ℕ × Target × Bytes)
  read_socks_request stream = elim (read_full 4 stream) [
    | none ↦ err unexpected_eof
    | some (version ∷ command ∷ reserved ∷ type ∷ _, s1) ↦
        if not (version == socks_version) || not (reserved == 0)
        then err invalid_request
        else (read_socks_address type s1 >>= λ r. ok (command, r.0, r.2))
    | some (_, s1) ↦ err unexpected_eof
  ]

  -- `writeSOCKSReply`: what is written for an address.
  unfoldable pub socks_reply : ℕ → Bytes → ℤ → Bytes
  socks_reply reply ip port = elim (to4 ip) [
    | some v4 ↦ socks_version ∷ reply ∷ 0 ∷ 1 ∷ (v4 ++ put_uint16 (to_uint16 port))
    | none ↦ socks_version ∷ reply ∷ 0 ∷ 4 ∷ (to16 ip ++ put_uint16 (to_uint16 port))
  ]

  -- `decodeSOCKSUDP`
  unfoldable pub decode_socks_udp : Bytes → Result SocksError Datagram
  decode_socks_udp (a ∷ b ∷ c ∷ type ∷ rest) = do
    refuse_if (not (a == 0) || not (b == 0) || not (c == 0)) invalid_header
    r ← read_socks_address type rest
    let offset = 4 + r.1
    refuse_if (ltb (4 + length rest) offset) unexpected_eof
    ok (record {
      host = r.0.host;
      port = r.0.port;
      payload = drop offset (a ∷ b ∷ c ∷ type ∷ rest);
    })
  decode_socks_udp _ = err invalid_header

  -- The address of `encodeSOCKSUDP`.
  unfoldable pub encode_host : Bytes → Result SocksError Bytes
  encode_host host = elim (parse_ip host) [
    | some ip ↦ elim (to4 ip) [ some v4 ↦ ok (1 ∷ v4) | none ↦ ok (4 ∷ to16 ip) ]
    | none ↦
        if ltb 255 (length host) then err domain_too_long else ok (3 ∷ to_byte (length host) ∷ host)
  ]

  -- `encodeSOCKSUDP`
  unfoldable pub encode_socks_udp : Datagram → Result SocksError Bytes
  unfolding encode_host
  encode_socks_udp d = do
    host ← encode_host d.host
    ok (0 ∷ 0 ∷ 0 ∷ (host ++ (put_uint16 (to_uint16 d.port) ++ d.payload)))
