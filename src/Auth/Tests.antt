-- ===== src/Auth/Tests.antt =====
-- Witnesses of the theorems on sessions, with a code that moves every byte from 46 on up by one.
use xmesh.Common.{
  ℕ, ◌+◌, ◌-◌, ◌≡◌, ◌≢◌, refl, ap, true, Option, none, some, [], ◌∷◌, All, ltb, if◌then◌else◌,
  arith,
}
use xmesh.Common.Int.{ℤ, pos, negsuc, ltz}
use xmesh.Auth.Sessions.{Bytes, Signing, join, sign_session, verify_session}
use xmesh.Auth.Verified.{sign_session-verify_session, verify_session-signed}

abbrev up : Bytes → Bytes
up [] = []
up (c ∷ b) = (if ltb c 46 then c else c + 1) ∷ up b

abbrev down : Bytes → Bytes
down [] = []
down (c ∷ b) = (if ltb c 46 then c else c - 1) ∷ down b

down-up : (b : Bytes) → down (up b) ≡ b
down-up [] = refl
down-up (c ∷ b) = ground (arith, down-up b)

up_dotless : (b : Bytes) → All (λ c. c ≢ 46) (up b)
up_dotless [] = tt
up_dotless (c ∷ b) = ((λ e. ground (arith, e)), up_dotless b)

abbrev digits : ℤ → Bytes
digits (pos n) = n ∷ []
digits (negsuc n) = 0 ∷ n ∷ []

abbrev number : Bytes → Option ℤ
number (n ∷ []) = some (pos n)
number (z ∷ n ∷ []) = some (negsuc n)
number _ = none

signing : Signing
signing = record {
  hmac = λ secret message. secret;
  encode = λ b. up b;
  decode = λ b. some (down b);
  format_int = λ n. up (digits n);
  parse_int = λ b. number (down b);
  decode-encode = λ b. ap (λ x. some x) (down-up b);
  encode_dotless = up_dotless;
  format_int_dotless = λ n. up_dotless (digits n);
}

nonce_dotless : All (λ (c : ℕ). c ≢ 46) (1 ∷ 2 ∷ [])
nonce_dotless = ((λ e. ground (arith, e)), ((λ e. ground (arith, e)), tt))

parses : signing.parse_int (signing.format_int (pos 100)) ≡ some (pos 100)
unfolding signing
parses = refl

sign_session-verify_session_example :
    verify_session signing
      (7 ∷ [])
      (sign_session signing (7 ∷ []) (97 ∷ 100 ∷ []) (pos 100) (1 ∷ 2 ∷ []))
      (pos 50)
    ≡ (if ltz (pos 50) (pos 100) then some (97 ∷ 100 ∷ []) else none)
sign_session-verify_session_example =
    sign_session-verify_session signing (7 ∷ []) (97 ∷ 100 ∷ []) (1 ∷ 2 ∷ []) (pos 100) (pos 50)
      nonce_dotless parses

accepted :
    verify_session signing
      (7 ∷ [])
      (sign_session signing (7 ∷ []) (97 ∷ 100 ∷ []) (pos 100) (1 ∷ 2 ∷ []))
      (pos 50)
    ≡ some (97 ∷ 100 ∷ [])
accepted =
    sign_session-verify_session signing (7 ∷ []) (97 ∷ 100 ∷ []) (1 ∷ 2 ∷ []) (pos 100) (pos 50)
      nonce_dotless parses

verify_session-signed_example :
    (name : Bytes) × (expires : Bytes) × (nonce : Bytes) × (mac : Bytes) × (until : ℤ)
    × (sign_session signing (7 ∷ []) (97 ∷ 100 ∷ []) (pos 100) (1 ∷ 2 ∷ [])
        ≡ join 46 (name ∷ expires ∷ nonce ∷ mac ∷ []))
    × (signing.decode mac ≡ some (signing.hmac (7 ∷ []) (join 46 (name ∷ expires ∷ nonce ∷ []))))
    × (signing.parse_int expires ≡ some until)
    × (ltz (pos 50) until ≡ true)
    × (signing.decode name ≡ some (97 ∷ 100 ∷ []))
verify_session-signed_example =
    verify_session-signed signing (7 ∷ [])
      (sign_session signing (7 ∷ []) (97 ∷ 100 ∷ []) (pos 100) (1 ∷ 2 ∷ [])) (97 ∷ 100 ∷ [])
      (pos 50) accepted
