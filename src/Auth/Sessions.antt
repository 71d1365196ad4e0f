-- ===== src/Auth/Sessions.antt =====
-- internal/auth/auth.go: the session cookie of an administrator. A Go string is its bytes, and a time
-- is its Unix seconds.
use xmesh.Common.{
  ℕ, ◌≡◌, ◌≢◌, Bool, false, not, Option, none, some, List, [], ◌∷◌, ◌++◌, All, ◌==◌, if◌then◌else◌,
}
use xmesh.Common.Int.{ℤ, ltz}
use xmesh.Auth.{same_bytes}

abbrev pub Bytes : Type 0
Bytes = List ℕ

-- crypto/hmac over SHA-256, encoding/base64's RawURLEncoding, whose texts hold no dot, and strconv's
-- FormatInt and ParseInt at base 10.
pub record Signing : Type 0 where
  pub hmac : Bytes → Bytes → Bytes
  pub encode : Bytes → Bytes
  pub decode : Bytes → Option Bytes
  pub format_int : ℤ → Bytes
  pub parse_int : Bytes → Option ℤ
  pub decode-encode : (b : Bytes) → decode (encode b) ≡ some b
  pub encode_dotless : (b : Bytes) → All (λ c. c ≢ 46) (encode b)
  pub format_int_dotless : (n : ℤ) → All (λ c. c ≢ 46) (format_int n)

-- strings.Split at a byte, and strings.Join
abbrev pub cons_first : ℕ → List Bytes → List Bytes
cons_first c [] = (c ∷ []) ∷ []
cons_first c (p ∷ ps) = (c ∷ p) ∷ ps

unfoldable pub split : ℕ → Bytes → List Bytes
split sep [] = [] ∷ []
split sep (c ∷ s) = let rest = split sep s in if c == sep then [] ∷ rest else cons_first c rest

abbrev pub join : ℕ → List Bytes → Bytes
join sep [] = []
join sep (p ∷ []) = p
join sep (p ∷ q ∷ ps) = p ++ sep ∷ join sep (q ∷ ps)

module _ (signing : Signing) where
  open signing use {hmac, encode, decode, format_int, parse_int}

  -- `SignSession`, with the nonce, a base64 text that has been made
  unfoldable pub sign_session : Bytes → Bytes → ℤ → Bytes → Bytes
  sign_session secret username expires nonce =
      let payload = encode username ++ 46 ∷ (format_int expires ++ 46 ∷ nonce) in
      payload ++ 46 ∷ encode (hmac secret payload)

  -- The checks of `VerifySession` on the four parts, one after the other.
  unfoldable pub expiry_check : Option ℤ → ℤ → Bool
  expiry_check none now = false
  expiry_check (some expires) now = ltz now expires

  unfoldable pub mac_check : Bytes → Bytes → Option Bytes → Bool
  mac_check secret payload none = false
  mac_check secret payload (some want) = same_bytes want (hmac secret payload)

  unfoldable pub verify_parts : Bytes → List Bytes → ℤ → Option Bytes
  unfolding mac_check expiry_check
  verify_parts secret (user ∷ expires ∷ nonce ∷ mac ∷ []) now =
      if not (mac_check secret (join 46 (user ∷ expires ∷ nonce ∷ [])) (decode mac))
      then none
      else if not (expiry_check (parse_int expires) now)
      then none
      else decode user
  verify_parts secret _ now = none

  -- `VerifySession`
  unfoldable pub verify_session : Bytes → Bytes → ℤ → Option Bytes
  unfolding split verify_parts
  verify_session secret value now = verify_parts secret (split 46 value) now
