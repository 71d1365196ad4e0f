-- ===== src/Store/Protected.antt =====
-- What a transaction leaves in the file: no token of a subscription, if there is a key.
use xmesh.Common.{
  ◌+◌, ◌%◌, ◌^◌, ◌≡◌, refl, ap, ◌∙◌, ◌>>◌, refuse_if, ◌⊎◌, inl, inr, Bool, true, false, ◌&&◌, ◌||◌,
  not, Bool-cases, some, [], ◌∷◌, ◌++◌, String, str_eq, eq_iff, subst, if◌then◌else◌, arith, ◌>>=◌,
  Result, ok, err, Holds, Holds-ok, or_fail-Holds, bind-Holds, refuse_if-Holds, or_fail, if_holds,
}
use xmesh.Common.Dict
use xmesh.Common.Dict.{Dict}
use xmesh.Auth.{Hashing, secret_hash, equal_secret_hash}
use xmesh.Auth.Verified.{equal_secret_hash-secret_hash}
use xmesh.Model.{State, User}
use xmesh.Store.{Store, update}
use xmesh.Store.Subscriptions.{
  StoreError, Sealing, no_nonce, bad_key, unconfigured, write_failed, reveal, conceal,
  protect_users, without_tokens, all_plain, protect_subscription_tokens,
}

module _ (hashing : Hashing) (sealing : Sealing) where
  open sealing use {has_key, key_works, nonce, seal, encode}

  -- There is no token, or it fits the stored hash.
  abbrev pub IsFitting : User → Type 0
  IsFitting user =
      (user.subscription_token ≡ "")
      ⊎ (equal_secret_hash hashing user.subscription_token_hash user.subscription_token ≡ true)

  abbrev AreFitting : Dict User → Type 0
  AreFitting [] = Unit {0}
  AreFitting ((k, user) ∷ d) = IsFitting user × AreFitting d

  AreFitting-get :
      (d : Dict User) (k : String) (w : User) → AreFitting d → Dict.get d k ≡ some w → IsFitting w
  unfolding Dict.get
  AreFitting-get [] k w h e = cc
  AreFitting-get ((j, v) ∷ d) k w h e = elim (Bool-cases (str_eq j k)) [
    | inl here ↦ (let same : v ≡ w = ground (arith, e, here) in subst IsFitting same h.0)
    | inr later ↦ AreFitting-get d k w h.1 (ground (arith, e, later))
  ]

  conceal-IsFitting :
      (id : String) (user : User) → Holds IsFitting (conceal hashing sealing id user)
  unfolding conceal
  conceal-IsFitting id user =
      go (str_eq user.subscription_token "") refl
        (equal_secret_hash hashing user.subscription_token_hash user.subscription_token) refl
        (str_eq user.subscription_token_cipher "")
    where
      fresh : Holds IsFitting (
          or_fail (nonce id) no_nonce >>= λ n. ok (record user {
            subscription_token_cipher = encode (n ++ seal n user.subscription_token id);
            subscription_token_hash = secret_hash hashing user.subscription_token;
          }))
      fresh =
          or_fail-Holds IsFitting (nonce id) no_nonce _
            (λ n _. inr (equal_secret_hash-secret_hash hashing user.subscription_token))

      go :
          (empty : Bool)
          → str_eq user.subscription_token "" ≡ empty
          → (fits : Bool)
          → equal_secret_hash hashing user.subscription_token_hash user.subscription_token ≡ fits
          → (bare : Bool)
          → Holds IsFitting (
              if empty || (not bare && fits)
              then ok user
              else (or_fail (nonce id) no_nonce >>= λ n. ok (record user {
                subscription_token_cipher = encode (n ++ seal n user.subscription_token id);
                subscription_token_hash = secret_hash hashing user.subscription_token;
              })))
      go true e fits f bare = inl ((eq_iff user.subscription_token "").0 e)
      go false e true f true = fresh
      go false e true f false = inr f
      go false e false f true = fresh
      go false e false f false = fresh

  protect_users-AreFitting : (d : Dict User) → Holds AreFitting (protect_users hashing sealing d)
  unfolding protect_users
  protect_users-AreFitting [] = tt
  protect_users-AreFitting ((id, user) ∷ rest) =
      bind-Holds (λ _. Unit {0}) AreFitting (reveal hashing sealing id user) _
        (anything (reveal hashing sealing id user))
        λ known _.
          bind-Holds IsFitting AreFitting (conceal hashing sealing id known) _
            (conceal-IsFitting id known)
            λ safe fits.
              bind-Holds AreFitting AreFitting (protect_users hashing sealing rest) _
                (protect_users-AreFitting rest) λ others all. (fits, all)
    where
      anything : (r : Result StoreError User) → Holds (λ _. Unit {0}) r
      anything (ok a) = tt
      anything (err e) = tt

  -- The state, and what is written of it, in a transaction with a key.
  abbrev IsSafe : State → State → Type 0
  IsSafe s file = (file ≡ record s { users = without_tokens s.users }) × AreFitting s.users

  abbrev StoreSafe : Store → Type 0
  StoreSafe t = IsSafe t.state t.file

  abbrev BothSafe : State × State → Type 0
  BothSafe (s, file) = IsSafe s file

  protect-safe :
      (s : State) → has_key ≡ true → Holds BothSafe (protect_subscription_tokens hashing sealing s)
  unfolding protect_subscription_tokens
  protect-safe s keyed =
      if_holds (Holds BothSafe) (not has_key)
        (refuse_if (not (all_plain s.users)) unconfigured >> ok (s, s))
        (refuse_if (not key_works) bad_key
          >> (protect_users hashing sealing s.users >>= λ users.
              ok (record s { users = users }, record s { users = without_tokens users })))
        (λ keyless. absurd (ground (arith, keyless, keyed)))
        (λ _. refuse_if-Holds BothSafe (not key_works) _ _ λ _.
          bind-Holds AreFitting BothSafe (protect_users hashing sealing s.users) _
            (protect_users-AreFitting s.users) λ users fits. (refl, fits))

  update-safe :
      (store : Store) (fn : State → Result StoreError State) (writes : Bool)
      → has_key ≡ true
      → Holds StoreSafe (update hashing sealing store fn writes)
  unfolding update
  update-safe store fn writes keyed = go (fn store.state)
    where
      go :
          (r : Result StoreError State)
          → Holds StoreSafe (
              r >>= λ changed.
              protect_subscription_tokens hashing sealing
                (record changed { revision = (changed.revision + 1) % 2 ^ 64 })
              >>= λ both.
                  refuse_if (not writes) write_failed
                  >> ok (record { state = both.0; file = both.1 }))
      go (err e) = tt
      go (ok changed) =
          bind-Holds BothSafe StoreSafe
            (protect_subscription_tokens hashing sealing
              (record changed { revision = (changed.revision + 1) % 2 ^ 64 }))
            _ (protect-safe (record changed { revision = (changed.revision + 1) % 2 ^ 64 }) keyed)
            λ both safe.
              refuse_if-Holds StoreSafe (not writes) write_failed
                (ok (record { state = both.0; file = both.1 })) λ _. safe

  without_tokens-get :
      (d : Dict User) (k : String) (w : User)
      → Dict.get d k ≡ some w
      → Dict.get (without_tokens d) k ≡ some (record w { subscription_token = "" })
  unfolding without_tokens Dict.get
  without_tokens-get [] k w h = cc
  without_tokens-get ((j, v) ∷ d) k w h = ground (arith, h, without_tokens-get d k w)

  -- After a transaction that succeeds under an encryption key, whatever it did to the state, the file
  -- holds the state with every user's subscription token left out, and a token that the state holds
  -- fits the hash that is stored beside it.
  pub update-protected :
      (store t : Store) (fn : State → Result StoreError State) (writes : Bool) (k : String)
      (w : User)
      → has_key ≡ true
      → update hashing sealing store fn writes ≡ ok t
      → Dict.get t.state.users k ≡ some w
      → (t.file ≡ record t.state { users = without_tokens t.state.users })
        × (Dict.get t.file.users k ≡ some (record w { subscription_token = "" }))
        × IsFitting w
  update-protected store t fn writes k w keyed h at =
      let safe =
        Holds-ok StoreSafe (update hashing sealing store fn writes) t
          (update-safe store fn writes keyed) h in
      (
        safe.0,
        ap (λ (s : State). Dict.get s.users k) safe.0 ∙ without_tokens-get t.state.users k w at,
        AreFitting-get t.state.users k w safe.1 at,
      )
