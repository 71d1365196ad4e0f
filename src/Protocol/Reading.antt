-- ===== src/Protocol/Reading.antt =====
-- What the readers accept: one whole frame of the stream, within the size limits.
use xmesh.Common.{
  ◌+◌, ◌<◌, ◌≤◌, ◌≡◌, ◌≢◌, ◌++◌, length, take, drop, some, ok, inl, inr, Option-cases, arith, [],
  ap,
}
use xmesh.Common.Int.{pos, ◌≤ℤ◌}
use xmesh.Protocol.Wire.{Bytes, uint32, uint16, read_full, read_full-split}
use xmesh.Protocol.{
  Message, Datagram, Metadata, Codec, read_message, read_datagram, max_control_frame,
  max_datagram_frame,
}

-- A frame at the front of a stream: a size field of four bytes, and as many bytes as it says.
pub record Framed (stream body rest : Bytes) : Type 0 where
  pub size : Bytes
  pub size_length : length size ≡ 4
  pub body_length : length body ≡ uint32 size
  pub stream_eq : stream ≡ size ++ (body ++ rest)

-- The control message that `read_message` returns decodes one whole frame of 1 to 65,536 bytes at
-- the front of the stream, and the stream that it leaves starts behind that frame.
pub read_message-Framed :
    {as_json : Message → Message} (json : Codec Message as_json) (stream rest : Bytes) (m : Message)
    → read_message json stream ≡ ok (m, rest)
    → (body : Bytes) × Framed stream body rest
      × (0 < length body)
      × (length body ≤ max_control_frame)
      × (json.unmarshal body ≡ some m)
unfolding read_message
read_message-Framed json stream rest m e = elim (Option-cases (read_full 4 stream)) [
  | inl no_size ↦ absurd (ground (arith, no_size))
  | inr ((size, behind), e1) ↦ elim (Option-cases (read_full (uint32 size) behind)) [
    | inl short ↦ absurd (ground (arith, e1, short))
    | inr ((body, left), e2) ↦
        let split1 = read_full-split 4 stream size behind e1 in
        let split2 = read_full-split (uint32 size) behind body left e2 in
        (
          body,
          record {
            size = size;
            size_length = split1.1;
            body_length = split2.1;
            stream_eq = ground (arith, e1, e2, split1.0, split2.0);
          },
          ground (arith, e1, e2, split2.1),
          ground (arith, e1, e2, split2.1),
          ground (arith, e1, e2),
        )
  ]
]

-- A datagram that `read_datagram` returns has a host and a port of 1 to 65535, and is one whole
-- frame of at most `max_datagram_frame` bytes at the front of the stream, its payload the end of it.
pub read_datagram-Framed :
    {as_json : Metadata → Metadata} (json : Codec Metadata as_json) (stream rest : Bytes)
    (d : Datagram)
    → read_datagram json stream ≡ ok (d, rest)
    → (body : Bytes) × Framed stream body rest
      × (length body ≤ max_datagram_frame)
      × (d.payload ≡ drop (2 + uint16 (take 2 body)) body)
      × (d.host ≢ [])
      × (pos 1 ≤ℤ d.port)
      × (d.port ≤ℤ pos 65535)
unfolding read_datagram
read_datagram-Framed json stream rest d e = elim (Option-cases (read_full 4 stream)) [
  | inl no_size ↦ absurd (ground (arith, no_size))
  | inr ((size, behind), e1) ↦ elim (Option-cases (read_full (uint32 size) behind)) [
    | inl short ↦ absurd (ground (arith, e1, short))
    | inr ((body, left), e2) ↦
        let split1 = read_full-split 4 stream size behind e1 in
        let split2 = read_full-split (uint32 size) behind body left e2 in
        elim (Option-cases (json.unmarshal (take (uint16 (take 2 body)) (drop 2 body)))) [
          | inl undecoded ↦ absurd (ground (arith, e1, e2, undecoded))
          | inr (meta, e3) ↦ (
            body,
            record {
              size = size;
              size_length = split1.1;
              body_length = split2.1;
              stream_eq = ground (arith, e1, e2, e3, split1.0, split2.0);
            },
            ground (arith, e1, e2, e3, split2.1),
            ground (arith, e1, e2, e3),
            (λ empty. ground (arith, e1, e2, e3, ap length empty)),
            ground (arith, e1, e2, e3),
            ground (arith, e1, e2, e3),
          )
        ]
  ]
]
