-- ===== src/Controller/Upgrades/PairOnce.antt =====
-- A pairing token gives one credential.
use xmesh.Common.{
  ℕ, ◌+◌, ◌*◌, ◌<◌, ◌≡◌, refl, ap, ◌∙◌, inl, inr, true, false, Bool-cases, some, String, str_eq,
  eq_iff, eq_refl, ltb, length, ok, err, arith,
}
use xmesh.Auth.{Hashing, secret_hash}
use xmesh.Auth.Verified.{equal_secret_hash-secret_hash}
use xmesh.Common.Dict
use xmesh.Common.Dict.{Dict, get_or, get-put}
use xmesh.Model.{State, Role, Updater}
use xmesh.Model.Upgrades.{gateway, agent, unset}
use xmesh.Controller.Upgrades.Stages.{second, node_exists, pairing_in_progress}
use xmesh.Controller.Upgrades.Pairing.{
  invalid_token, zero_updater, same_role, has_active, pair_updater, updater_pair, promote,
}

same_role_refl : (r : Role) → same_role r r ≡ true
same_role_refl gateway = refl
same_role_refl agent = refl
same_role_refl unset = refl

-- Storing an updater leaves the nodes alone.
node_exists-updaters :
    (s : State) (d : Dict Updater) (r : Role) (id : String)
    → node_exists (record s { updaters = d }) r id ≡ node_exists s r id
unfolding node_exists
node_exists-updaters s d gateway id = refl
node_exists-updaters s d agent id = refl
node_exists-updaters s d unset id = refl

module _ (hashing : Hashing) where
  secret_hash_nonempty : (t : String) → str_eq (secret_hash hashing t) "" ≡ false
  unfolding secret_hash
  secret_hash_nonempty t = elim (Bool-cases (str_eq (hashing.encode (hashing.sha256 t)) "")) [
    | inr fine ↦ fine
    | inl empty ↦ absurd (
        hashing.encode_nonempty (hashing.sha256 t)
          (λ e. omega (arith, ap length e, hashing.length-sha256 t)) ((eq_iff _ "").0 empty))
  ]

  -- On a node that exists and has no active task, a token that `pairUpdater` has given out pairs the
  -- updater until it expires: `updaterPair` takes it, `authenticateUpdater`'s transaction then takes
  -- the credential that was answered and stores its hash in place of the old one, none pending, and
  -- `updaterPair` refuses the token from then on.
  pub pair_updater-promote :
      (s : State) (role : Role) (id token credential other : String) (t0 t1 t2 t3 : ℕ)
      → node_exists s role id ≡ true
      → has_active s.upgrade_tasks id ≡ false
      → t1 < t0 + 30 * 60 * second
      → t2 < t0 + 30 * 60 * second
      → (s1 : State) × (s2 : State) × (s3 : State) × (up : Updater) × (pair_updater hashing s role
            id token t0
          ≡ ok s1)
        × (updater_pair hashing s1 id role token credential t1 ≡ ok s2)
        × (promote hashing s2 id credential t2 ≡ ok (s3, up))
        × (Dict.get s3.updaters id ≡ some up)
        × (up.credential_hash ≡ secret_hash hashing credential)
        × (up.pending_credential_hash ≡ "")
        × (updater_pair hashing s3 id role token other t3 ≡ err invalid_token)
  unfolding pair_updater updater_pair promote pairing_in_progress
  pair_updater-promote s role id token credential other t0 t1 t2 t3 there idle in1 in2 =
      let up0 = get_or (Dict.get s.updaters id) zero_updater in
      let up1 : Updater = record up0 {
        node_id = id;
        role = role;
        pair_token_hash = secret_hash hashing token;
        pair_expires_at = t0 + 30 * 60 * second;
        pending_credential_hash = "";
      } in
      let up2 : Updater = record up1 { pending_credential_hash = secret_hash hashing credential } in
      let up3 : Updater = record up2 {
        credential_hash = secret_hash hashing credential;
        pending_credential_hash = "";
        pair_token_hash = "";
        pair_expires_at = 0;
      } in
      let d1 = Dict.put s.updaters id up1 in
      let d2 = Dict.put d1 id up2 in
      let d3 = Dict.put d2 id up3 in
      let g1 : Dict.get d1 id ≡ some up1 = get-put s.updaters id id up1 ∙ rw eq_refl in
      let g2 : Dict.get d2 id ≡ some up2 = get-put d1 id id up2 ∙ rw eq_refl in
      let g3 : Dict.get d3 id ≡ some up3 = get-put d2 id id up3 ∙ rw eq_refl in
      let n1 = node_exists-updaters s d1 role id in
      let n2 = node_exists-updaters s d2 role id in
      let n3 = node_exists-updaters s d3 role id in
      let l1 : ltb t1 (t0 + 30 * 60 * second) ≡ true = ground (arith, in1) in
      let l2 : ltb t2 (t0 + 30 * 60 * second) ≡ true = ground (arith, in2) in
      let st = secret_hash_nonempty token in
      let sc = secret_hash_nonempty credential in
      let et = equal_secret_hash-secret_hash hashing token in
      let ec = equal_secret_hash-secret_hash hashing credential in
      (
        record s { updaters = d1 },
        record s { updaters = d2 },
        record s { updaters = d3 },
        up3,
        rw (pair_updater, there, idle) refl,
        rw (updater_pair, g1, same_role_refl role, n1, there, st, l1, et) refl,
        rw (promote, pairing_in_progress, g2, n2, there, st, l2, sc, ec) refl,
        g3,
        refl,
        refl,
        rw (updater_pair, g3, same_role_refl role, n3, there) refl,
      )
