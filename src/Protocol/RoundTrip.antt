-- ===== src/Protocol/RoundTrip.antt =====
-- What one side writes the other reads back: control messages and datagrams.
use xmesh.Common.{
  ◌/◌, ◌%◌, ◌^◌, ◌∷◌, [], ◌||◌, suc, take-append, drop-append, ℕ, ◌+◌, ◌<◌, ◌≤◌, ◌≡◌, refl, ap, sym,
  ◌∙◌, false, Option, none, some, inl, inr, Option-cases, ◌++◌, length, take, drop, ltb, ok, arith,
  length-append, ◌==◌,
}
use mathlib.Core.List.{append_assoc}
use xmesh.Protocol.Wire.{
  Bytes, put_uint32, put_uint16, uint16, read_full-append, uint32-put_uint32, length-put_uint32,
  length-put_uint16, uint16-put_uint16,
}
use xmesh.Protocol.Writing.{Writer, WriteError, write_all, write_all_complete, after, after-eq-none}
use xmesh.Protocol.{
  from_writer, Message, Datagram, Metadata, Codec, write_message, read_message, write_datagram,
  read_datagram, header, bad_port, Utf8, message_as_json, datagram_as_json, metadata_as_json,
  max_datagram_payload, max_control_frame,
}

-- A frame's size field, its body and what follows, as `read_message` takes them apart.
read_message-frame :
    {as_json : Message → Message} (json : Codec Message as_json) (b rest : Bytes) (m : Message)
    → 0 < length b
    → length b ≤ max_control_frame
    → json.unmarshal b ≡ some m
    → read_message json (put_uint32 (length b) ++ (b ++ rest)) ≡ ok (m, rest)
unfolding read_message
read_message-frame json b rest m pos le e = ground (
  arith,
  read_full-append 4 (put_uint32 (length b)) (b ++ rest) (length-put_uint32 (length b)),
  uint32-put_uint32 (length b),
  read_full-append (length b) b rest refl,
)

module _ {W : Type 0} (writer : Writer W) where
  two_writes :
      (w : W) (a b : Bytes)
      → (after (write_all writer w a) (λ w'. write_all writer w' b)).1 ≡ none
      → writer.sent (after (write_all writer w a) (λ w'. write_all writer w' b)).0
        ≡ writer.sent w ++ (a ++ b)
  two_writes w a b e =
      let first = after-eq-none (write_all writer w a) (λ w'. write_all writer w' b) e in
      cc (
        first.1,
        write_all_complete writer w a first.0,
        write_all_complete writer (write_all writer w a).0 b (ap (λ r. r.1) (sym first.1) ∙ e),
        append_assoc (writer.sent w) a b,
      )

from_writer-eq-none :
    {W : Type 0} (r : W × Option WriteError)
    → (from_writer r).1 ≡ none
    → (r.1 ≡ none) × ((from_writer r).0 ≡ r.0)
from_writer-eq-none (w, none) e = (refl, refl)
from_writer-eq-none (w, some x) e = cc

module _ {W : Type 0} (writer : Writer W) {as_json : Message → Message}
    (json : Codec Message as_json) where
  -- The frame that `write_message` leaves in the stream when it returns nil.
  write_message-sent :
      (w : W) (m : Message)
      → (write_message writer json w m).1 ≡ none
      → (b : Bytes) × (json.marshal m ≡ some b)
        × (length b ≤ max_control_frame)
        × (writer.sent (write_message writer json w m).0
            ≡ writer.sent w ++ (put_uint32 (length b) ++ b))
  unfolding write_message
  write_message-sent w m e = elim (Option-cases (json.marshal m)) [
    | inl absent ↦ absurd (ground (arith, absent))
    | inr (b, e1) ↦
        let wrote : (ltb max_control_frame (length b) ≡ false)
            × ((from_writer (
                  after (write_all writer w (put_uint32 (length b)))
                    (λ w'. write_all writer w' b))).1
                ≡ none) =
          ground (arith, e1) in
        let done =
          from_writer-eq-none
            (after (write_all writer w (put_uint32 (length b))) (λ w'. write_all writer w' b))
            wrote.1 in
        (
          b,
          e1,
          ground arith,
          rw (e1, write_message)
              (rw wrote.0
                (ap writer.sent done.1 ∙ two_writes writer w (put_uint32 (length b)) b done.0)),
        )
  ]

-- A control message that was written without an error is read back, its strings where they are not
-- UTF-8 as encoding/json replaces them, and what follows it is left.
pub message_round_trip :
    {W : Type 0} (writer : Writer W) (utf8 : Utf8) (json : Codec Message (message_as_json utf8))
    (w : W) (m : Message) (rest : Bytes)
    → (write_message writer json w m).1 ≡ none
    → (frame : Bytes) × (writer.sent (write_message writer json w m).0 ≡ writer.sent w ++ frame)
      × (read_message json (frame ++ rest) ≡ ok (message_as_json utf8 m, rest))
message_round_trip writer utf8 json w m rest e =
    let (b, coded, le, frame) = write_message-sent writer json w m e in
    (
      put_uint32 (length b) ++ b,
      frame,
      rw append_assoc (
          read_message-frame json b rest (message_as_json utf8 m) (json.marshal_nonempty m b coded)
            le (json.unmarshal-marshal m b coded)),
    )

drop-two : (n x y : ℕ) (l : Bytes) → drop (2 + n) (x ∷ y ∷ l) ≡ drop n l
drop-two n x y l = let e : 2 + n ≡ suc (suc n) = omega arith in rw e

abbrev frame_body : Bytes → Bytes → Bytes
frame_body meta payload = put_uint16 (length meta) ++ (meta ++ payload)

length-frame_body :
    (meta payload : Bytes) → length (frame_body meta payload) ≡ 2 + length meta + length payload
length-frame_body meta payload = omega (
  arith,
  length-append (put_uint16 (length meta)) (meta ++ payload),
  length-put_uint16 (length meta),
  length-append meta payload,
)

-- The parts of a frame's body, as `read_datagram` cuts it.
record Parts (meta payload b : Bytes) : Type 0 where
  size : length b ≡ 2 + length meta + length payload
  meta_size : uint16 (take 2 b) ≡ length meta
  metadata : take (length meta) (drop 2 b) ≡ meta
  rest : drop (2 + length meta) b ≡ payload

frame_body-Parts :
    (meta payload : Bytes) → length meta < 2 ^ 16 → Parts meta payload (frame_body meta payload)
unfolding put_uint16
frame_body-Parts meta payload h = record {
  size = length-frame_body meta payload;
  meta_size = uint16-put_uint16 (length meta) [] h;
  metadata = take-append meta payload;
  rest =
      drop-two (length meta) (length meta / 2 ^ 8 % 256) (length meta % 256) (meta ++ payload)
      ∙ drop-append meta payload;
}

read_datagram-body :
    {as_json : Metadata → Metadata} (json : Codec Metadata as_json) (d : Datagram)
    (meta b rest : Bytes)
    → Parts meta d.payload b
    → 0 < length meta
    → length meta < 2 ^ 16
    → length d.payload ≤ max_datagram_payload
    → json.unmarshal meta ≡ some (record { host = d.host; port = d.port })
    → (length d.host == 0 || bad_port d.port) ≡ false
    → read_datagram json (put_uint32 (length b) ++ (b ++ rest)) ≡ ok (d, rest)
unfolding read_datagram
read_datagram-body json d meta b rest parts pos small le e fine = ground (
  arith,
  read_full-append 4 (put_uint32 (length b)) (b ++ rest) (length-put_uint32 (length b)),
  uint32-put_uint32 (length b),
  read_full-append (length b) b rest refl,
)

header-frame :
    (meta payload rest : Bytes)
    → (header (length meta) (length payload) ++ (meta ++ payload)) ++ rest
      ≡ put_uint32 (length (frame_body meta payload)) ++ (frame_body meta payload ++ rest)
unfolding header
header-frame meta payload rest = rw (length-frame_body meta payload) (simp append_assoc)

-- A host that is not empty stays so.
valid-as_json :
    (utf8 : Utf8) (d : Datagram)
    → (length d.host == 0 || bad_port d.port) ≡ false
    → (length (datagram_as_json utf8 d).host == 0 || bad_port d.port) ≡ false
valid-as_json utf8 d h = ground (arith, h, utf8.replaced_nonempty d.host)

module _ {W : Type 0} (writer : Writer W) {as_json : Metadata → Metadata}
    (json : Codec Metadata as_json) where
  -- The frame that `write_datagram` leaves in the stream when it returns nil, and the checks that
  -- the datagram passed.
  record Written (w : W) (d : Datagram) : Type 0 where
    meta : Bytes
    coded : json.marshal (record { host = d.host; port = d.port }) ≡ some meta
    valid : (length d.host == 0 || bad_port d.port) ≡ false
    payload_le : length d.payload ≤ max_datagram_payload
    meta_lt : length meta < 2 ^ 16
    frame :
        writer.sent (write_datagram writer json w d).0
        ≡ writer.sent w ++ (header (length meta) (length d.payload) ++ (meta ++ d.payload))

  three_writes :
      (w : W) (a b c : Bytes)
      → let r =
          after
            (write_all writer w a)
            (λ w1. after (write_all writer w1 b) λ w2. write_all writer w2 c) in
        r.1 ≡ none → writer.sent r.0 ≡ writer.sent w ++ (a ++ (b ++ c))
  three_writes w a b c e =
      let next = λ (w1 : W). after (write_all writer w1 b) λ w2. write_all writer w2 c in
      let first = after-eq-none (write_all writer w a) next e in
      cc (
        first.1,
        write_all_complete writer w a first.0,
        two_writes writer (write_all writer w a).0 b c (ap (λ r. r.1) (sym first.1) ∙ e),
        append_assoc (writer.sent w) a (b ++ c),
      )

  write_datagram-Written :
      (w : W) (d : Datagram) → (write_datagram writer json w d).1 ≡ none → Written w d
  unfolding write_datagram
  write_datagram-Written w d e =
      elim (Option-cases (json.marshal (record { host = d.host; port = d.port }))) [
        | inl absent ↦ absurd (ground (arith, absent))
        | inr (meta, coded) ↦
            let r : W × Option WriteError =
              after (write_all writer w (header (length meta) (length d.payload)))
                (λ w1. after (write_all writer w1 meta) λ w2. write_all writer w2 d.payload) in
            let wrote : ((bad_port d.port || length d.host == 0) ≡ false)
                × (ltb max_datagram_payload (length d.payload) ≡ false)
                × (ltb 65535 (length meta) ≡ false)
                × ((from_writer r).1 ≡ none) =
              ground (arith, coded) in
            let done = from_writer-eq-none r wrote.3 in
            record {
              meta = meta;
              coded = coded;
              valid = ground arith;
              payload_le = ground arith;
              meta_lt = ground arith;
              frame = ground (
                arith,
                coded,
                done.1,
                three_writes w (header (length meta) (length d.payload)) meta d.payload done.0,
              );
            }
      ]

-- A datagram that was written without an error is read back, its host where it is not UTF-8 as
-- encoding/json replaces it, and what follows it is left.
pub datagram_round_trip :
    {W : Type 0} (writer : Writer W) (utf8 : Utf8) (json : Codec Metadata (metadata_as_json utf8))
    (w : W) (d : Datagram) (rest : Bytes)
    → (write_datagram writer json w d).1 ≡ none
    → (frame : Bytes) × (writer.sent (write_datagram writer json w d).0 ≡ writer.sent w ++ frame)
      × (read_datagram json (frame ++ rest) ≡ ok (datagram_as_json utf8 d, rest))
datagram_round_trip writer utf8 json w d rest e =
    let h = write_datagram-Written writer json w d e in
    (
      header (length h.meta) (length d.payload) ++ (h.meta ++ d.payload),
      h.frame,
      rw (header-frame h.meta d.payload rest) (
          read_datagram-body json (datagram_as_json utf8 d) h.meta (frame_body h.meta d.payload)
            rest (frame_body-Parts h.meta d.payload h.meta_lt)
            (json.marshal_nonempty _ h.meta h.coded) h.meta_lt h.payload_le
            (json.unmarshal-marshal _ h.meta h.coded) (valid-as_json utf8 d h.valid)),
    )
