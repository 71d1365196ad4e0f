-- ===== src/Protocol/Tests.antt =====
-- Witnesses of the protocol's theorems, with a connection that keeps what it was given.
use xmesh.Common.{
  ℕ, zero, suc, ◌+◌, ◌<◌, ◌≤◌, ◌≡◌, ◌≢◌, refl, ap, sym, subst, ◌==◌, ◌&&◌, not, Bool, true, false,
  Option, none, some, [], ◌∷◌, ◌++◌, length, take, drop, ltb, if◌then◌else◌, inl, inr, Bool-cases,
  ==_iff, ok, arith,
}
use xmesh.Common.Int.{pos, eqz, eq_of_parts, ◌≤ℤ◌}
use xmesh.Protocol.{
  Message, Datagram, Metadata, Codec, write_message, read_message, write_datagram, read_datagram,
  max_control_frame, max_datagram_frame, header, Utf8, message_as_json, metadata_as_json,
}
use xmesh.Protocol.Wire.{Bytes, put_uint32, put_uint16, uint32, uint16, read_full}
use xmesh.Protocol.Writing.{Writer, HasSent, write_all, write_loop, write_all-HasSent}
use xmesh.Protocol.RoundTrip.{message_round_trip, datagram_round_trip}
use xmesh.Protocol.Reading.{Framed, read_message-Framed, read_datagram-Framed}

-- It takes at most two bytes at a time.
take-le : (n : ℕ) (b : Bytes) → length (take n b) ≤ length b
take-le zero b = omega arith
take-le (suc n) [] = omega arith
take-le (suc n) (x ∷ b) = omega (arith, take-le n b)

take-length-take : (n : ℕ) (b : Bytes) → take (length (take n b)) b ≡ take n b
take-length-take zero b = refl
take-length-take (suc n) [] = refl
take-length-take (suc n) (x ∷ b) = ap (λ l. x ∷ l) (take-length-take n b)

abbrev pipe : Writer Bytes
pipe = record {
  write = λ w b. (w ++ take 2 b, length (take 2 b), false);
  sent = λ w. w;
  takes_le = λ w b. take-le 2 b;
  takes_front = λ w b. ap (λ l. w ++ l) (sym (take-length-take 2 b));
}

-- A host of one byte that is not UTF-8.
abbrev hello : Message
hello = record {
  type = 112 ∷ 105 ∷ 110 ∷ 103 ∷ [];
  version = pos 1;
  agent_id = 97 ∷ [];
  link_id = 108 ∷ [];
  token = [];
  session_id = [];
  generation = 1;
  grant_id = [];
  request_id = [];
  host = 255 ∷ [];
  port = pos 0;
  success = false;
  error_code = [];
  error = [];
}

abbrev target : Metadata
target = record { host = 255 ∷ []; port = pos 53 }

abbrev query : Datagram
query = record { host = 255 ∷ []; port = pos 53; payload = 1 ∷ 2 ∷ 3 ∷ [] }

-- Strings of ASCII are UTF-8; any other byte becomes U+FFFD, which is enough for these.
abbrev is_ascii : Bytes → Bool
is_ascii [] = true
is_ascii (b ∷ s) = ltb b 128 && is_ascii s

abbrev replace_all : Bytes → Bytes
replace_all [] = []
replace_all (b ∷ s) = if ltb b 128 then b ∷ replace_all s else 239 ∷ 191 ∷ 189 ∷ replace_all s

replace_all_nonempty : (s : Bytes) → 0 < length s → 0 < length (replace_all s)
replace_all_nonempty [] h = absurd (omega (arith, h))
replace_all_nonempty (b ∷ s) h = elim (Bool-cases (ltb b 128)) [
  | inl small ↦ rw small (omega arith)
  | inr big ↦ rw big (omega arith)
]

abbrev ascii : Utf8
ascii = record {
  valid = is_ascii;
  replaced = replace_all;
  replaced_nonempty = replace_all_nonempty;
}

abbrev bytes_eq : Bytes → Bytes → Bool
bytes_eq [] [] = true
bytes_eq (x ∷ a) (y ∷ b) = (x == y) && bytes_eq a b
bytes_eq _ _ = false

and-true : (a b : Bool) → (a && b) ≡ true → (a ≡ true) × (b ≡ true)
and-true true b h = (refl, h)
and-true false b h = cc

bytes_eq-eq : (a b : Bytes) → bytes_eq a b ≡ true → a ≡ b
bytes_eq-eq [] [] h = refl
bytes_eq-eq [] (y ∷ b) h = cc
bytes_eq-eq (x ∷ a) [] h = cc
bytes_eq-eq (x ∷ a) (y ∷ b) h =
    let (same, more) = and-true (x == y) (bytes_eq a b) h in
    cc ((==_iff x y).0 same, bytes_eq-eq a b more)

-- Encodings of one value each.
abbrev is_hello : Message → Bool
is_hello m =
    bytes_eq m.type (112 ∷ 105 ∷ 110 ∷ 103 ∷ [])
    && (eqz m.version (pos 1)
        && (bytes_eq m.agent_id (97 ∷ [])
            && (bytes_eq m.link_id (108 ∷ [])
                && (bytes_eq m.token ([])
                    && (bytes_eq m.session_id ([])
                        && ((m.generation == 1)
                            && (bytes_eq m.grant_id ([])
                                && (bytes_eq m.request_id ([])
                                    && (bytes_eq m.host (255 ∷ [])
                                        && (eqz m.port (pos 0)
                                            && (not m.success
                                                && (bytes_eq m.error_code ([])
                                                    && (bytes_eq m.error ([]))))))))))))))

not-true : (a : Bool) → not a ≡ true → a ≡ false
not-true true h = cc
not-true false h = refl

is_hello-eq : (m : Message) → is_hello m ≡ true → m ≡ hello
is_hello-eq m h =
    let (t1, r1) = and-true _ _ h in
    let (t2, r2) = and-true _ _ r1 in
    let (t3, r3) = and-true _ _ r2 in
    let (t4, r4) = and-true _ _ r3 in
    let (t5, r5) = and-true _ _ r4 in
    let (t6, r6) = and-true _ _ r5 in
    let (t7, r7) = and-true _ _ r6 in
    let (t8, r8) = and-true _ _ r7 in
    let (t9, r9) = and-true _ _ r8 in
    let (t10, r10) = and-true _ _ r9 in
    let (t11, r11) = and-true _ _ r10 in
    let (t12, r12) = and-true _ _ r11 in
    let (t13, r13) = and-true _ _ r12 in
    cc (
      bytes_eq-eq m.type (112 ∷ 105 ∷ 110 ∷ 103 ∷ []) t1,
      eq_of_parts m.version (pos 1) ((==_iff _ _).0 t2),
      bytes_eq-eq m.agent_id (97 ∷ []) t3,
      bytes_eq-eq m.link_id (108 ∷ []) t4,
      bytes_eq-eq m.token ([]) t5,
      bytes_eq-eq m.session_id ([]) t6,
      (==_iff m.generation 1).0 t7,
      bytes_eq-eq m.grant_id ([]) t8,
      bytes_eq-eq m.request_id ([]) t9,
      bytes_eq-eq m.host (255 ∷ []) t10,
      eq_of_parts m.port (pos 0) ((==_iff _ _).0 t11),
      not-true m.success t12,
      bytes_eq-eq m.error_code ([]) t13,
      bytes_eq-eq m.error ([]) r13,
    )

abbrev is_target : Metadata → Bool
is_target m = bytes_eq m.host (255 ∷ []) && eqz m.port (pos 53)

is_target-eq : (m : Metadata) → is_target m ≡ true → m ≡ target
is_target-eq m h =
    let (same, port) = and-true _ _ h in
    cc (bytes_eq-eq m.host (255 ∷ []) same, eq_of_parts m.port (pos 53) ((==_iff _ _).0 port))

-- An encoding of the one value, and of nothing else.
abbrev encode_if : Bool → Bytes → Option Bytes
encode_if true b = some b
encode_if false b = none

encode_if-eq : (t : Bool) (a b : Bytes) → encode_if t a ≡ some b → (t ≡ true) × (a ≡ b)
encode_if-eq true a b h = (refl, cc)
encode_if-eq false a b h = cc

abbrev text : Bytes
text = 104 ∷ 105 ∷ []

abbrev messages : Codec Message (message_as_json ascii)
messages = record {
  marshal = λ m. encode_if (is_hello m) text;
  unmarshal = λ b. some (message_as_json ascii hello);
  unmarshal-marshal = λ m b h.
      ap (λ x. some (message_as_json ascii x)) (sym (is_hello-eq m (encode_if-eq _ _ _ h).0));
  marshal_nonempty = λ m b h. subst (λ x. 0 < length x) (encode_if-eq _ _ _ h).1 (omega arith);
}

abbrev targets : Codec Metadata (metadata_as_json ascii)
targets = record {
  marshal = λ m. encode_if (is_target m) text;
  unmarshal = λ b. some (metadata_as_json ascii target);
  unmarshal-marshal = λ m b h.
      ap (λ x. some (metadata_as_json ascii x)) (sym (is_target-eq m (encode_if-eq _ _ _ h).0));
  marshal_nonempty = λ m b h. subst (λ x. 0 < length x) (encode_if-eq _ _ _ h).1 (omega arith);
}

write_all-HasSent_example : HasSent pipe [] (1 ∷ 2 ∷ 3 ∷ []) (write_all pipe [] (1 ∷ 2 ∷ 3 ∷ []))
write_all-HasSent_example = write_all-HasSent pipe [] (1 ∷ 2 ∷ 3 ∷ [])

message_round_trip_example :
    (frame : Bytes) × ((write_message pipe messages (9 ∷ []) hello).0 ≡ 9 ∷ frame)
    × (read_message messages (frame ++ 7 ∷ []) ≡ ok (message_as_json ascii hello, 7 ∷ []))
unfolding write_message write_all write_loop put_uint32
message_round_trip_example = message_round_trip pipe ascii messages (9 ∷ []) hello (7 ∷ []) refl

abbrev read_query : Datagram
read_query = record { host = 239 ∷ 191 ∷ 189 ∷ []; port = pos 53; payload = 1 ∷ 2 ∷ 3 ∷ [] }

datagram_round_trip_example :
    (frame : Bytes) × ((write_datagram pipe targets (9 ∷ []) query).0 ≡ 9 ∷ frame)
    × (read_datagram targets (frame ++ 7 ∷ []) ≡ ok (read_query, 7 ∷ []))
unfolding write_datagram write_all write_loop put_uint32 header put_uint16
datagram_round_trip_example = datagram_round_trip pipe ascii targets (9 ∷ []) query (7 ∷ []) refl

abbrev stream : Bytes
stream = 0 ∷ 0 ∷ 0 ∷ 2 ∷ 104 ∷ 105 ∷ 7 ∷ []

read_message-Framed_example :
    (body : Bytes) × Framed stream body (7 ∷ [])
    × (0 < length body)
    × (length body ≤ max_control_frame)
    × (messages.unmarshal body ≡ some (message_as_json ascii hello))
unfolding read_message read_full uint32
read_message-Framed_example =
    read_message-Framed messages stream (7 ∷ []) (message_as_json ascii hello) refl

abbrev packet : Bytes
packet = 0 ∷ 0 ∷ 0 ∷ 7 ∷ 0 ∷ 2 ∷ 104 ∷ 105 ∷ 1 ∷ 2 ∷ 3 ∷ []

read_datagram-Framed_example :
    (body : Bytes) × Framed packet body []
    × (length body ≤ max_datagram_frame)
    × (read_query.payload ≡ drop (2 + uint16 (take 2 body)) body)
    × (read_query.host ≢ [])
    × (pos 1 ≤ℤ read_query.port)
    × (read_query.port ≤ℤ pos 65535)
unfolding read_datagram read_full uint32 uint16
read_datagram-Framed_example = read_datagram-Framed targets packet [] read_query refl
