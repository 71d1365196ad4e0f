-- ===== src/Gateway/Socks/Laws.antt =====
-- SOCKS5 messages that are written are read back.
use xmesh.Common.{
  ℕ, suc, ◌+◌, ◌^◌, ◌≡◌, ◌≢◌, ◌<◌, refl, ap, sym, subst, ◌∙◌, inl, inr, Bool, true, false,
  Bool-cases, Option, none, some, [], ◌∷◌, ◌++◌, length, length-append, drop, drop-append, ltb,
  ◌==◌, arith, Result, ok, err, ok-injective, err-ok, Holds,
}
use xmesh.Common.Int.{pos}
use xmesh.Protocol.{Datagram}
use xmesh.Protocol.Wire.{Bytes, put_uint16, uint16, read_full, read_full-append, length-put_uint16}
use xmesh.Gateway.Socks.{
  Net, SocksError, to_byte, to_uint16, read_length_string, offers, read_credentials,
  socks_authenticate, read_host, read_socks_address, decode_socks_udp, encode_host,
  encode_socks_udp,
}

++-assoc : (xs ys zs : Bytes) → (xs ++ ys) ++ zs ≡ xs ++ (ys ++ zs)
++-assoc [] ys zs = refl
++-assoc (x ∷ xs) ys zs = ap (λ l. x ∷ l) (++-assoc xs ys zs)

-- The payload starts behind the header, the address and the port.
drop-header :
    (a b c t : ℕ) (body port payload : Bytes)
    → length port ≡ 2
    → drop (4 + (length body + 2)) (a ∷ b ∷ c ∷ t ∷ (body ++ (port ++ payload))) ≡ payload
drop-header a b c t body port payload two =
    let size : 4 + (length body + 2) ≡ suc (suc (suc (suc (length (body ++ port))))) =
      omega (arith, length-append body port, two) in
    ap (λ n. drop n (a ∷ b ∷ c ∷ t ∷ (body ++ (port ++ payload)))) size
    ∙ ap (drop (length (body ++ port))) (sym (++-assoc body port payload))
    ∙ drop-append (body ++ port) payload

uint16-own : (n : ℕ) → n < 2 ^ 16 → uint16 (put_uint16 (to_uint16 (pos n))) ≡ n
unfolding uint16 put_uint16
uint16-own n small = omega arith

module _ (net : Net) where
  open net use {parse_ip, to4, to16, ip_string, length-to4, length-to16}

  -- How a reader spells the host: an address in its own form, a name as it is.
  abbrev pub canonical : Bytes → Bytes
  canonical host = elim (parse_ip host) [
    | none ↦ host
    | some ip ↦ elim (to4 ip) [ none ↦ ip_string (to16 ip) | some v4 ↦ ip_string v4 ]
  ]

  -- What is read of an encoded host.
  abbrev Read : Bytes → Bytes → Bytes → Type 0
  Read host rest [] = ⊥
  Read host rest (type ∷ body) =
      read_host net type (body ++ rest) ≡ ok (canonical host, length body, rest)

  encode_host-Read : (host rest : Bytes) → Holds (Read host rest) (encode_host net host)
  unfolding encode_host read_host
  encode_host-Read host rest = go (parse_ip host) refl
    where
      go : (o : Option Bytes) → parse_ip host ≡ o → Holds (Read host rest) (encode_host net host)
      go none e =
          rw (encode_host, e)
            (elim (Bool-cases (ltb 255 (length host))) [
              | inl long ↦ rw long tt
              | inr short ↦ rw short (
                  let size : to_byte (length host) ≡ length host = ground (arith, short) in
                  let one : 1 + length host ≡ suc (length host) = omega arith in
                  let same : canonical host ≡ host = rw (canonical, e) refl in
                  rw (size, read_full-append (length host) host rest refl, same)
                    (ap (λ n. ok (host, n, rest)) one))
            ])
      go (some ip) e = inner (to4 ip) refl
        where
          inner : (o : Option Bytes) → to4 ip ≡ o → Holds (Read host rest) (encode_host net host)
          inner (some v4) f =
              let same : canonical host ≡ ip_string v4 = rw (canonical, e, f) refl in
              rw
                (
                  encode_host,
                  e,
                  f,
                  read_full-append 4 v4 rest (length-to4 ip v4 f),
                  length-to4 ip v4 f,
                  same,
                )
                refl
          inner none f =
              let same : canonical host ≡ ip_string (to16 ip) = rw (canonical, e, f) refl in
              rw
                (
                  encode_host,
                  e,
                  f,
                  read_full-append 16 (to16 ip) rest (length-to16 host ip e),
                  length-to16 host ip e,
                  same,
                )
                refl

  -- A datagram that is encoded for a client is read back with its payload and its port, and with its
  -- host in the form in which a reader spells it. The port is one of a UDP packet.
  pub encode_socks_udp-decode_socks_udp :
      (d : Datagram) (b : Bytes) (n : ℕ)
      → d.port ≡ pos n
      → n < 2 ^ 16
      → encode_socks_udp net d ≡ ok b
      → decode_socks_udp net b
        ≡ ok (record { host = canonical d.host; port = d.port; payload = d.payload })
  unfolding encode_socks_udp decode_socks_udp read_socks_address
  encode_socks_udp-decode_socks_udp d b n same small h =
      go (encode_host net d.host) refl
        (encode_host-Read d.host (put_uint16 (to_uint16 d.port) ++ d.payload))
    where
      rest : Bytes
      rest = put_uint16 (to_uint16 d.port) ++ d.payload

      go :
          (r : Result SocksError Bytes)
          → encode_host net d.host ≡ r
          → Holds (Read d.host rest) r
          → decode_socks_udp net b
            ≡ ok (record { host = canonical d.host; port = d.port; payload = d.payload })
      go (err x) e read = absurd (err-ok x b (rw (encode_socks_udp, e) at h))
      go (ok []) e read = absurd read
      go (ok (type ∷ body)) e read =
          let port : Bytes = put_uint16 (to_uint16 d.port) in
          let whole : ltb (4 + length (body ++ rest)) (4 + (length body + 2)) ≡ false = ground (
            arith,
            length-append body rest,
            length-append port d.payload,
            length-put_uint16 (to_uint16 d.port),
          ) in
          let number : pos (uint16 port) ≡ d.port =
            ap (λ z. pos (uint16 (put_uint16 (to_uint16 z)))) same
            ∙ (ap pos (uint16-own n small) ∙ sym same) in
          let decoded_packet : decode_socks_udp net (0 ∷ 0 ∷ 0 ∷ type ∷ (body ++ rest))
              ≡ ok (record { host = canonical d.host; port = d.port; payload = d.payload }) =
            rw
              (
                read,
                read_full-append 2 port d.payload (length-put_uint16 (to_uint16 d.port)),
                whole,
                drop-header 0 0 0 type body port d.payload (length-put_uint16 (to_uint16 d.port)),
                number,
              )
              refl in
          let is_b : 0 ∷ 0 ∷ 0 ∷ type ∷ (body ++ rest) ≡ b =
            ok-injective _ b (rw (encode_socks_udp, e) at h) in
          subst
            (λ x.
              decode_socks_udp net x
              ≡ ok (record { host = canonical d.host; port = d.port; payload = d.payload }))
            is_b decoded_packet

-- The bytes of a client that offers some methods and then gives its credentials.
abbrev pub greeting : Bytes → Bytes → Bytes → Bytes → Bytes
greeting methods username password rest =
    5
    ∷ length methods
    ∷ (methods ++ (1 ∷ length username ∷ (username ++ (length password ∷ (password ++ rest)))))

read_length_string-append :
    (text rest : Bytes) → read_length_string (length text ∷ (text ++ rest)) ≡ ok (text, rest)
unfolding read_length_string
read_length_string-append text rest = rw (read_full-append (length text) text rest refl) refl

offers_some :
    (method : ℕ) (methods : Bytes) → offers method methods ≡ true → (length methods == 0) ≡ false
unfolding offers
offers_some method [] h = cc
offers_some method (m ∷ ms) h = ground arith

-- A client that offers the username and password method, among any others, and then gives a
-- username and a password that are not empty, is read in full: the method is chosen, both are
-- returned, and the rest of the stream is left, where the answer to the greeting can be written.
pub socks_authenticate-greeting :
    (writes : Bytes → Bool) (methods username password rest : Bytes)
    → writes (5 ∷ 2 ∷ []) ≡ true
    → offers 2 methods ≡ true
    → username ≢ []
    → password ≢ []
    → socks_authenticate writes (greeting methods username password rest)
      ≡ (5 ∷ 2 ∷ [], ok (username, password, rest))
unfolding socks_authenticate read_credentials
socks_authenticate-greeting writes methods username password rest writable offered some_name
      some_password =
    let tail = username ++ (length password ∷ (password ++ rest)) in
    let first : read_full 2 (greeting methods username password rest)
        ≡ some (5 ∷ length methods ∷ [], methods ++ (1 ∷ length username ∷ tail)) =
      read_full-append 2 (5 ∷ length methods ∷ []) (methods ++ (1 ∷ length username ∷ tail)) refl in
    let second = read_full-append (length methods) methods (1 ∷ length username ∷ tail) refl in
    let name = read_length_string-append username (length password ∷ (password ++ rest)) in
    let word = read_length_string-append password rest in
    rw
      (
        socks_authenticate,
        first,
        offers_some 2 methods offered,
        second,
        offered,
        writable,
        read_credentials,
        name,
        word,
        nonempty username some_name,
        nonempty password some_password,
      )
      refl
  where
    nonempty : (xs : Bytes) → xs ≢ [] → (length xs == 0) ≡ false
    nonempty [] h = absurd (h refl)
    nonempty (x ∷ xs) h = ground arith
