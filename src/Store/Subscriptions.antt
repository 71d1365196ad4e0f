-- ===== src/Store/Subscriptions.antt =====
-- internal/store/subscriptions.go: the tokens of subscriptions are written to the file encrypted.
use xmesh.Common.{
  ℕ, Bool, true, ◌&&◌, ◌||◌, not, Option, List, [], ◌∷◌, ◌++◌, length, take, drop, String, str_eq,
  ltb, if◌then◌else◌, Result, ok, ◌>>=◌, ◌>>◌, refuse_if, or_fail,
}
use xmesh.Common.Dict.{Dict}
use xmesh.Auth.{Hashing, secret_hash, equal_secret_hash}
use xmesh.Model.{State, User}

pub data StoreError : Type 0 where
  refused write_failed unconfigured bad_key bad_ciphertext not_decrypted hash_mismatch no_nonce :
      StoreError

-- The key, crypto/aes with crypto/cipher's GCM under it, RawURLEncoding, and the random nonce for a
-- user. `seal` gives the sealed bytes behind the nonce.
pub record Sealing : Type 0 where
  pub has_key : Bool
  pub key_works : Bool
  pub nonce_size : ℕ
  pub nonce : String → Option (List ℕ)
  pub seal : List ℕ → String → String → List ℕ
  pub unseal : List ℕ → List ℕ → String → Option String
  pub encode : List ℕ → String
  pub decode : String → Option (List ℕ)

-- No user's token is encrypted.
unfoldable pub all_plain : Dict User → Bool
all_plain [] = true
all_plain ((id, user) ∷ rest) = str_eq user.subscription_token_cipher "" && all_plain rest

-- The users of the file.
unfoldable pub without_tokens : Dict User → Dict User
without_tokens [] = []
without_tokens ((id, user) ∷ rest) =
    (id, record user { subscription_token = "" }) ∷ without_tokens rest

module _ (hashing : Hashing) (sealing : Sealing) where
  open sealing use {has_key, key_works, nonce_size, nonce, seal, unseal, encode, decode}

  -- The first part of a round of the loop: a token that is only there encrypted.
  unfoldable pub reveal : String → User → Result StoreError User
  reveal id user =
      if not (str_eq user.subscription_token "") || str_eq user.subscription_token_cipher ""
      then ok user
      else do
        bytes ← or_fail (decode user.subscription_token_cipher) bad_ciphertext
        refuse_if (ltb (length bytes) nonce_size) bad_ciphertext
        plain ← or_fail (unseal (take nonce_size bytes) (drop nonce_size bytes) id) not_decrypted
        refuse_if (not (equal_secret_hash hashing user.subscription_token_hash plain)) hash_mismatch
        ok (record user { subscription_token = plain })

  -- The second part: a token that is new.
  unfoldable pub conceal : String → User → Result StoreError User
  conceal id user =
      if str_eq user.subscription_token ""
        || (not (str_eq user.subscription_token_cipher "")
            && equal_secret_hash hashing user.subscription_token_hash user.subscription_token)
      then ok user
      else (or_fail (nonce id) no_nonce >>= λ n. ok (record user {
        subscription_token_cipher = encode (n ++ seal n user.subscription_token id);
        subscription_token_hash = secret_hash hashing user.subscription_token;
      }))

  -- The loop over the users, as the state has them afterwards.
  unfoldable pub protect_users : Dict User → Result StoreError (Dict User)
  unfolding reveal conceal
  protect_users [] = ok []
  protect_users ((id, user) ∷ rest) = reveal id user >>= λ known.
      conceal id known >>= λ safe. protect_users rest >>= λ others. ok ((id, safe) ∷ others)

  -- `protectSubscriptionTokens`: the state and what is written of it.
  unfoldable pub protect_subscription_tokens : State → Result StoreError (State × State)
  unfolding protect_users without_tokens all_plain
  protect_subscription_tokens s =
      if not has_key then (refuse_if (not (all_plain s.users)) unconfigured >> ok (s, s)) else do
        refuse_if (not key_works) bad_key
        users ← protect_users s.users
        ok (record s { users = users }, record s { users = without_tokens users })
