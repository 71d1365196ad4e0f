-- ===== src/Store/Tests.antt =====
-- Witness of the theorem on the file: a user's new token, sealed as the nonce alone.
use xmesh.Common.{
  ℕ, ◌≡◌, ◌≢◌, refl, ap, true, false, none, some, List, [], ◌∷◌, String, Result, ok, err, arith,
}
use Prim.Native.String.{len}
use xmesh.Common.Dict
use xmesh.Common.Int.{pos}
use xmesh.Auth.{Hashing, secret_hash}
use xmesh.Model.{State, new_state, User}
use xmesh.Store.{Store, update}
use xmesh.Store.Subscriptions.{
  StoreError, Sealing, reveal, conceal, protect_users, without_tokens, protect_subscription_tokens,
}
use xmesh.Store.Protected.{IsFitting, update-protected}

abbrev digest : List ℕ
digest =
    0 ∷ 0 ∷ 0 ∷ 0 ∷ 0 ∷ 0 ∷ 0 ∷ 0 ∷ 0 ∷ 0 ∷ 0 ∷ 0 ∷ 0 ∷ 0 ∷ 0 ∷ 0 ∷ 0 ∷ 0 ∷ 0 ∷ 0 ∷ 0 ∷ 0 ∷ 0 ∷ 0
    ∷ 0 ∷ 0 ∷ 0 ∷ 0 ∷ 0 ∷ 0 ∷ 0 ∷ 0 ∷ []

abbrev a : String
a = "a"

a_nonempty : a ≢ ""
a_nonempty e = omega (arith, ap len e)

hashing : Hashing
hashing = record {
  sha256 = λ s. digest;
  encode = λ b. a;
  decode = λ t. some digest;
  decode-encode = λ s. refl;
  length-sha256 = λ s. refl;
  encode_nonempty = λ b some_bytes. a_nonempty;
}

sealing : Sealing
sealing = record {
  has_key = true;
  key_works = true;
  nonce_size = 1;
  nonce = λ id. some (7 ∷ []);
  seal = λ nonce token id. [];
  unseal = λ nonce bytes id. none;
  encode = λ b. "sealed";
  decode = λ t. none;
}

abbrev user : User
user = record {
  audit_enabled = false;
  audit_generation = 0;
  audit_limit_mb = pos 0;
  id = "u";
  name = "User";
  enabled = true;
  subscription_token = "";
  subscription_token_hash = "";
  subscription_token_cipher = "";
  created_at = 0;
}

abbrev empty : Store
empty = record { state = new_state; file = new_state }

-- A user is made, with a token.
abbrev make_user : State → Result StoreError State
make_user s = ok (record s { users = ("u", record user { subscription_token = "token" }) ∷ [] })

abbrev stored : Result StoreError Store → Store
stored (ok t) = t
stored (err e) = empty

abbrev updated : Result StoreError Store
updated = update hashing sealing empty make_user true

abbrev kept : User
kept = record user {
  subscription_token = "token";
  subscription_token_hash = "a";
  subscription_token_cipher = "sealed";
}

updated-ok : updated ≡ ok (stored updated)
unfolding update protect_subscription_tokens protect_users without_tokens reveal conceal secret_hash
    hashing sealing
updated-ok = refl

kept-found : Dict.get (stored updated).state.users "u" ≡ some kept
unfolding update protect_subscription_tokens protect_users without_tokens reveal conceal secret_hash
    hashing sealing Dict.get
kept-found = refl

keyed : sealing.has_key ≡ true
unfolding sealing
keyed = refl

update-protected_example :
    ((stored updated).file
      ≡ record (stored updated).state { users = without_tokens (stored updated).state.users })
    × (Dict.get (stored updated).file.users "u" ≡ some (record kept { subscription_token = "" }))
    × IsFitting hashing sealing kept
update-protected_example =
    update-protected hashing sealing empty (stored updated) make_user true "u" kept keyed updated-ok
      kept-found
