-- ===== src/Controller/Upgrades/PairTests.antt =====
-- Witness of the pairing's theorem, with a hash that tells one text from all others.
use xmesh.Common.{
  ℕ, zero, suc, ◌≡◌, ◌≢◌, refl, ap, Bool, true, false, Option, some, List, [], ◌∷◌, String, str_eq,
  length, ok, err, arith,
}
use Prim.Native.String.{len}
use xmesh.Auth.{Hashing, secret_hash}
use xmesh.Common.Dict
use xmesh.Common.Dict.{Dict}
use xmesh.Common.Int.{pos}
use xmesh.Model.{State, new_state, Gateway, Updater}
use xmesh.Model.Upgrades.{gateway}
use xmesh.Controller.Upgrades.Stages.{node_exists}
use xmesh.Controller.Upgrades.Pairing.{
  has_active, pair_updater, updater_pair, promote, invalid_token,
}
use xmesh.Controller.Upgrades.PairOnce.{pair_updater-promote}

abbrev bytes : ℕ → List ℕ
bytes n =
    n ∷ 0 ∷ 0 ∷ 0 ∷ 0 ∷ 0 ∷ 0 ∷ 0 ∷ 0 ∷ 0 ∷ 0 ∷ 0 ∷ 0 ∷ 0 ∷ 0 ∷ 0 ∷ 0 ∷ 0 ∷ 0 ∷ 0 ∷ 0 ∷ 0 ∷ 0 ∷ 0
    ∷ 0 ∷ 0 ∷ 0 ∷ 0 ∷ 0 ∷ 0 ∷ 0 ∷ 0 ∷ []

abbrev digest : Bool → List ℕ
digest true = bytes 1
digest false = bytes 0

abbrev encoded : List ℕ → String
encoded [] = "a"
encoded (zero ∷ b) = "a"
encoded (suc n ∷ b) = "b"

abbrev decoded : String → Option (List ℕ)
decoded t = some (digest (str_eq t "b"))

pub decoded-encoded : (b : Bool) → decoded (encoded (digest b)) ≡ some (digest b)
decoded-encoded true = refl
decoded-encoded false = refl

pub length-digest : (b : Bool) → length (digest b) ≡ 32
length-digest true = refl
length-digest false = refl

pub encoded_nonempty : (b : List ℕ) → b ≢ [] → encoded b ≢ ""
encoded_nonempty [] some_bytes e = omega (arith, ap len e)
encoded_nonempty (zero ∷ b) some_bytes e = omega (arith, ap len e)
encoded_nonempty (suc n ∷ b) some_bytes e = omega (arith, ap len e)

abbrev pub hashing : Hashing
hashing = record {
  sha256 = λ s. digest (str_eq s "token");
  encode = λ b. encoded b;
  decode = λ t. decoded t;
  decode-encode = λ s. decoded-encoded (str_eq s "token");
  length-sha256 = λ s. length-digest (str_eq s "token");
  encode_nonempty = encoded_nonempty;
}

abbrev node : Gateway
node = record {
  agent_enabled = false;
  id = "gw";
  name = "Gateway";
  public_host = "";
  public_host_auto = false;
  manual_public_host = "";
  vmess_port = pos 0;
  vmess_disabled = false;
  hy2_disabled = false;
  hy2_port = pos 0;
  enabled = true;
  credential_hash = "";
  previous_credential_hash = "";
  previous_credential_expires_at = 0;
  desired_version = 1;
  created_at = 0;
}

abbrev start : State
start = record new_state { gateways = ("gw", node) ∷ [] }

pair_updater-promote_example :
    (s1 : State) × (s2 : State) × (s3 : State) × (up : Updater) × (pair_updater hashing start
        gateway "gw" "token" 100
      ≡ ok s1)
    × (updater_pair hashing s1 "gw" gateway "token" "credential" 200 ≡ ok s2)
    × (promote hashing s2 "gw" "credential" 300 ≡ ok (s3, up))
    × (Dict.get s3.updaters "gw" ≡ some up)
    × (up.credential_hash ≡ secret_hash hashing "credential")
    × (up.pending_credential_hash ≡ "")
    × (updater_pair hashing s3 "gw" gateway "token" "again" 400 ≡ err invalid_token)
unfolding node_exists has_active Dict.get
pair_updater-promote_example =
    pair_updater-promote hashing start gateway "gw" "token" "credential" "again" 100 200 300 400
      refl refl (omega arith) (omega arith)
