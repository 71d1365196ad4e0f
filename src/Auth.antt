-- ===== src/Auth.antt =====
-- internal/auth/auth.go: the hashes under which secrets are stored.
pub mod Sessions
pub mod Verified
mod Tests
use xmesh.Common.{
  ℕ, ◌≡◌, ◌≢◌, Bool, true, false, ◌&&◌, Option, none, some, List, [], ◌∷◌, length, String, ◌==◌,
}

-- crypto/sha256, and encoding/base64's RawURLEncoding.
pub record Hashing : Type 0 where
  pub sha256 : String → List ℕ
  pub encode : List ℕ → String
  pub decode : String → Option (List ℕ)
  pub decode-encode : (s : String) → decode (encode (sha256 s)) ≡ some (sha256 s)
  pub length-sha256 : (s : String) → length (sha256 s) ≡ 32
  pub encode_nonempty : (b : List ℕ) → b ≢ [] → encode b ≢ ""

-- len(want) == len(got) && subtle.ConstantTimeCompare(want, got) == 1
unfoldable pub same_bytes : List ℕ → List ℕ → Bool
same_bytes [] [] = true
same_bytes (x ∷ xs) (y ∷ ys) = let rest = same_bytes xs ys in (x == y) && rest
same_bytes _ _ = false

module _ (hashing : Hashing) where
  open hashing use {sha256, encode, decode}

  unfoldable pub secret_hash : String → String
  secret_hash secret = encode (sha256 secret)

  unfoldable pub equal_secret_hash : String → String → Bool
  equal_secret_hash hash secret = elim (decode hash) [
    | none ↦ false
    | some want ↦ same_bytes want (sha256 secret)
  ]
