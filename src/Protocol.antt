-- ===== src/Protocol.antt =====
-- internal/protocol/protocol.go: control messages and datagrams as length-prefixed frames. A Go
-- string is its bytes, which need not be UTF-8; `Utf8` and `Codec` are what encoding/json does.
-- The children hold the byte order, the writer loop and the proofs.
pub mod Wire
pub mod Writing
pub mod RoundTrip
pub mod Reading
mod Tests
use xmesh.Common.Int.{ℤ, pos, pos_part, ltz}
use xmesh.Common.{
  ℕ, ◌+◌, ◌-◌, ◌*◌, ◌^◌, ◌<◌, ◌≡◌, Bool, ◌||◌, Option, none, some, List, ◌++◌, length, take, drop,
  ltb, ◌==◌, if◌then◌else◌, Result, ok, err, ◌>>=◌, ◌>>◌, refuse_if, or_fail,
}
use Wire.{Bytes, put_uint32, put_uint16, uint32, uint16, read_full}
use Writing.{Writer, WriteError, write_all, after}

-- Go's errors; `eof` is io.ReadFull's, io.EOF and io.ErrUnexpectedEOF alike.
pub data Error : Type 0 where
  encode_message control_exceeds_limit decode_message : Error
  invalid_control_size invalid_datagram_size : ℕ → Error
  invalid_datagram_target payload_exceeds_limit encode_metadata metadata_exceeds_limit : Error
  invalid_metadata_size decode_metadata invalid_datagram_endpoint : Error
  eof : Error
  write_error : WriteError → Error

abbrev pub max_control_frame : ℕ
max_control_frame = 64 * 2 ^ 10

abbrev pub max_datagram_payload : ℕ
max_datagram_payload = 65507

abbrev pub max_datagram_frame : ℕ
max_datagram_frame = max_datagram_payload + max_control_frame + 2

pub record Datagram : Type 0 where
  pub host : Bytes
  pub port : ℤ
  pub payload : Bytes

-- The fields of `Message` that the wire carries.
pub record Message : Type 0 where
  pub type : Bytes
  pub version : ℤ
  pub agent_id : Bytes
  pub link_id : Bytes
  pub token : Bytes
  pub session_id : Bytes
  pub generation : ℕ  -- uint64
  pub grant_id : Bytes
  pub request_id : Bytes
  pub host : Bytes
  pub port : ℤ
  pub success : Bool
  pub error_code : Bytes
  pub error : Bytes

-- The struct that `WriteDatagram` marshals.
pub record Metadata : Type 0 where
  pub host : Bytes
  pub port : ℤ

-- utf8.Valid, and a string with every invalid byte replaced by U+FFFD.
pub record Utf8 : Type 0 where
  pub valid : Bytes → Bool
  pub replaced : Bytes → Bytes
  pub replaced_nonempty : (s : Bytes) → 0 < length s → 0 < length (replaced s)

-- What a string is on the other side: encoding/json coerces it to valid UTF-8.
module _ (utf8 : Utf8) where
  abbrev pub text_as_json : Bytes → Bytes
  text_as_json s = if utf8.valid s then s else utf8.replaced s

  abbrev pub metadata_as_json : Metadata → Metadata
  metadata_as_json m = record m { host = text_as_json m.host }

  abbrev pub datagram_as_json : Datagram → Datagram
  datagram_as_json d = record d { host = text_as_json d.host }

  abbrev pub message_as_json : Message → Message
  message_as_json m = record {
    type = text_as_json m.type;
    version = m.version;
    agent_id = text_as_json m.agent_id;
    link_id = text_as_json m.link_id;
    token = text_as_json m.token;
    session_id = text_as_json m.session_id;
    generation = m.generation;
    grant_id = text_as_json m.grant_id;
    request_id = text_as_json m.request_id;
    host = text_as_json m.host;
    port = m.port;
    success = m.success;
    error_code = text_as_json m.error_code;
    error = text_as_json m.error;
  }

-- encoding/json at a type: what it encodes decodes to the same value, but for the strings, and no
-- encoding is empty.
pub record Codec (M : Type 0) (as_json : M → M) : Type 0 where
  pub marshal : M → Option Bytes
  pub unmarshal : Bytes → Option M
  pub unmarshal-marshal : (m : M) (b : Bytes) → marshal m ≡ some b → unmarshal b ≡ some (as_json m)
  pub marshal_nonempty : (m : M) (b : Bytes) → marshal m ≡ some b → 0 < length b

-- `Port < 1 || Port > 65535`
abbrev pub bad_port : ℤ → Bool
bad_port port = ltb (pos_part port) 1 || ltz (pos 65535) port

abbrev from_writer : {W : Type 0} → W × Option WriteError → W × Option Error
from_writer (w, none) = (w, none)
from_writer (w, some e) = (w, some (write_error e))

module _ {W : Type 0} (writer : Writer W) {as_json : Message → Message}
    (json : Codec Message as_json) where
  pub write_message : W → Message → W × Option Error
  write_message w message = elim (json.marshal message) [
    | none ↦ (w, some encode_message)
    | some b ↦
        if ltb max_control_frame (length b)
        then (w, some control_exceeds_limit)
        else from_writer
            (after (write_all writer w (put_uint32 (length b))) λ w'. write_all writer w' b)
  ]

module _ {as_json : Message → Message} (json : Codec Message as_json) where
  pub read_message : Bytes → Result Error (Message × Bytes)
  read_message stream = do
    (size, body) ← or_fail (read_full 4 stream) eof
    let n = uint32 size
    refuse_if (n == 0 || ltb max_control_frame n) (invalid_control_size n)
    (b, rest) ← or_fail (read_full n body) eof
    message ← or_fail (json.unmarshal b) decode_message
    ok (message, rest)

-- The six bytes before the metadata: the frame's size and the metadata's.
header : ℕ → ℕ → Bytes
header meta payload = put_uint32 (2 + meta + payload) ++ put_uint16 meta

module _ {W : Type 0} (writer : Writer W) {as_json : Metadata → Metadata}
    (json : Codec Metadata as_json) where
  pub write_datagram : W → Datagram → W × Option Error
  write_datagram w datagram =
      if bad_port datagram.port || length datagram.host == 0
      then (w, some invalid_datagram_target)
      else if ltb max_datagram_payload (length datagram.payload)
      then (w, some payload_exceeds_limit)
      else elim (json.marshal (record { host = datagram.host; port = datagram.port })) [
        | none ↦ (w, some encode_metadata)
        | some meta ↦
            if ltb 65535 (length meta)
            then (w, some metadata_exceeds_limit)
            else from_writer (
                after (write_all writer w (header (length meta) (length datagram.payload)))
                  λ w1. after (write_all writer w1 meta) λ w2. write_all writer w2 datagram.payload)
      ]

module _ {as_json : Metadata → Metadata} (json : Codec Metadata as_json) where
  pub read_datagram : Bytes → Result Error (Datagram × Bytes)
  read_datagram stream = do
    (size, body) ← or_fail (read_full 4 stream) eof
    let n = uint32 size
    refuse_if (ltb n 2 || ltb max_datagram_frame n) (invalid_datagram_size n)
    (b, rest) ← or_fail (read_full n body) eof
    let meta_size = uint16 (take 2 b)
    refuse_if (meta_size == 0 || ltb (length b - 2) meta_size) invalid_metadata_size
    meta ← or_fail (json.unmarshal (take meta_size (drop 2 b))) decode_metadata
    refuse_if (length meta.host == 0 || bad_port meta.port) invalid_datagram_endpoint
    ok (record { host = meta.host; port = meta.port; payload = drop (2 + meta_size) b }, rest)
