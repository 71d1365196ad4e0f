-- ===== src/Protocol/Wire.antt =====
-- encoding/binary's big-endian integers and io.ReadFull, over bytes as numbers below 256.
use xmesh.Common.{
  take-append-drop, length-take_of_le, ℕ, ◌+◌, ◌*◌, ◌/◌, ◌%◌, ◌^◌, ◌<◌, ◌≡◌, refl, ap, Option, none,
  some, List, [], ◌∷◌, ◌++◌, length, take, drop, take-append, drop-append, length-append, ltb,
  if◌then◌else◌, arith,
}

abbrev pub Bytes : Type 0
Bytes = List ℕ

-- binary.BigEndian.PutUint32(b, uint32(n)), the conversion's wrap-around included
unfoldable pub put_uint32 : ℕ → Bytes
put_uint32 n = (n / 2 ^ 24 % 256) ∷ (n / 2 ^ 16 % 256) ∷ (n / 2 ^ 8 % 256) ∷ (n % 256) ∷ []

-- binary.BigEndian.PutUint16(b, uint16(n))
unfoldable pub put_uint16 : ℕ → Bytes
put_uint16 n = (n / 2 ^ 8 % 256) ∷ (n % 256) ∷ []

unfoldable pub uint32 : Bytes → ℕ
uint32 (a ∷ b ∷ c ∷ d ∷ _) = a * 2 ^ 24 + b * 2 ^ 16 + c * 2 ^ 8 + d
uint32 _ = 0

unfoldable pub uint16 : Bytes → ℕ
uint16 (a ∷ b ∷ _) = a * 2 ^ 8 + b
uint16 _ = 0

pub uint32-put_uint32 : (n : ℕ) → n < 2 ^ 32 → uint32 (put_uint32 n) ≡ n
unfolding uint32 put_uint32
uint32-put_uint32 n h = omega arith

pub uint16-put_uint16 : (n : ℕ) (rest : Bytes) → n < 2 ^ 16 → uint16 (put_uint16 n ++ rest) ≡ n
unfolding uint16 put_uint16
uint16-put_uint16 n rest h = omega arith

pub length-put_uint32 : (n : ℕ) → length (put_uint32 n) ≡ 4
unfolding put_uint32
length-put_uint32 n = refl

pub length-put_uint16 : (n : ℕ) → length (put_uint16 n) ≡ 2
unfolding put_uint16
length-put_uint16 n = refl

-- io.ReadFull of n bytes: they and what is left of the stream, or `none` where the stream ends first.
unfoldable pub read_full : ℕ → Bytes → Option (Bytes × Bytes)
read_full n stream = if ltb (length stream) n then none else some (take n stream, drop n stream)

-- Reading as many bytes as were written gives them back, and leaves what follows.
pub read_full-append :
    (n : ℕ) (xs rest : Bytes) → length xs ≡ n → read_full n (xs ++ rest) ≡ some (xs, rest)
unfolding read_full
read_full-append n xs rest e = ground (
  arith,
  length-append xs rest,
  take-append xs rest,
  drop-append xs rest,
  ap (λ k. take k (xs ++ rest)) e,
  ap (λ k. drop k (xs ++ rest)) e,
)

-- What a read returns is the stream, split after n bytes.
pub read_full-split :
    (n : ℕ) (stream xs rest : Bytes)
    → read_full n stream ≡ some (xs, rest)
    → (stream ≡ xs ++ rest) × (length xs ≡ n)
unfolding read_full
read_full-split n stream xs rest e =
    ground (arith, take-append-drop n stream, length-take_of_le n stream)
