-- ===== src/Auth/Verified.antt =====
-- Which session cookies are accepted.
use xmesh.Common.{
  String, ℕ, ◌≡◌, ◌≢◌, refl, ap, sym, ◌∙◌, Bool, true, false, Option, none, some, List, [], ◌∷◌,
  ◌++◌, All, ◌==◌, if◌then◌else◌, arith,
}
use xmesh.Common.Int.{ℤ, ltz}
use xmesh.Auth.{Hashing, same_bytes, secret_hash, equal_secret_hash}
use xmesh.Auth.Sessions.{
  Bytes, Signing, split, join, cons_first, sign_session, expiry_check, mac_check, verify_parts,
  verify_session,
}

same_bytes_refl : (xs : List ℕ) → same_bytes xs xs ≡ true
unfolding same_bytes
same_bytes_refl [] = refl
same_bytes_refl (x ∷ xs) = ground (arith, same_bytes_refl xs)

-- A secret fits its own hash.
pub equal_secret_hash-secret_hash :
    (hashing : Hashing) (t : String) → equal_secret_hash hashing (secret_hash hashing t) t ≡ true
unfolding equal_secret_hash secret_hash
equal_secret_hash-secret_hash hashing t =
    rw (equal_secret_hash, hashing.decode-encode t) (same_bytes_refl (hashing.sha256 t))

same_bytes_eq : (xs ys : List ℕ) → same_bytes xs ys ≡ true → xs ≡ ys
unfolding same_bytes
same_bytes_eq [] [] h = refl
same_bytes_eq [] (y ∷ ys) h = cc
same_bytes_eq (x ∷ xs) [] h = cc
same_bytes_eq (x ∷ xs) (y ∷ ys) h =
    let first : x ≡ y = ground (arith, h) in
    let rest : xs ≡ ys = same_bytes_eq xs ys (ground (arith, h)) in cc

-- A part without the separator is split off.
split-append :
    (sep : ℕ) (xs rest : Bytes)
    → All (λ c. c ≢ sep) xs
    → split sep (xs ++ sep ∷ rest) ≡ xs ∷ split sep rest
unfolding split
split-append sep [] rest h = ground arith
split-append sep (x ∷ xs) rest h =
    let other : (x == sep) ≡ false = ground (arith, h.0) in
    rw (other, split-append sep xs rest h.1) refl

split_whole : (sep : ℕ) (xs : Bytes) → All (λ c. c ≢ sep) xs → split sep xs ≡ xs ∷ []
unfolding split
split_whole sep [] h = refl
split_whole sep (x ∷ xs) h =
    let other : (x == sep) ≡ false = ground (arith, h.0) in rw (other, split_whole sep xs h.1) refl

join-cons_first :
    (sep c : ℕ) (p : Bytes) (ps : List Bytes) → join sep ((c ∷ p) ∷ ps) ≡ c ∷ join sep (p ∷ ps)
join-cons_first sep c p [] = refl
join-cons_first sep c p (q ∷ ps) = refl

-- Splitting gives parts, and joining them gives the text back.
join-split :
    (sep : ℕ) (s : Bytes)
    → (p : Bytes) × (ps : List Bytes) × (split sep s ≡ p ∷ ps) × (join sep (p ∷ ps) ≡ s)
unfolding split
join-split sep [] = ([], [], refl, refl)
join-split sep (c ∷ s) = go (c == sep) refl (join-split sep s)
  where
    go :
        (b : Bool)
        → (c == sep) ≡ b
        → (p : Bytes) × (ps : List Bytes) × (split sep s ≡ p ∷ ps) × (join sep (p ∷ ps) ≡ s)
        → (p : Bytes) × (ps : List Bytes) × ((if b
              then [] ∷ split sep s
              else cons_first c (split sep s))
            ≡ p ∷ ps)
          × (join sep (p ∷ ps) ≡ c ∷ s)
    go true e (p, ps, parts, whole) =
        let same : c ≡ sep = ground (arith, e) in
        ([], p ∷ ps, ap (λ l. [] ∷ l) parts, ap (λ l. sep ∷ l) whole ∙ ap (λ x. x ∷ s) (sym same))
    go false e (p, ps, parts, whole) =
        (c ∷ p, ps, ap (cons_first c) parts, join-cons_first sep c p ps ∙ ap (λ l. c ∷ l) whole)

++-assoc : (xs ys zs : Bytes) → (xs ++ ys) ++ zs ≡ xs ++ (ys ++ zs)
++-assoc [] ys zs = refl
++-assoc (x ∷ xs) ys zs = ap (λ l. x ∷ l) (++-assoc xs ys zs)

module _ (signing : Signing) where
  open signing use {
    hmac, encode, decode, format_int, parse_int, decode-encode, encode_dotless, format_int_dotless,
  }

  -- A session that is signed is accepted under the same secret, as its user's, until it expires and
  -- not from then on. The nonce holds no dot, and the expiry can be parsed.
  pub sign_session-verify_session :
      (secret username nonce : Bytes) (expires now : ℤ)
      → All (λ c. c ≢ 46) nonce
      → parse_int (format_int expires) ≡ some expires
      → verify_session signing secret (sign_session signing secret username expires nonce) now
        ≡ (if ltz now expires then some username else none)
  unfolding sign_session verify_session verify_parts mac_check expiry_check
  sign_session-verify_session secret username nonce expires now dotless parses =
      let payload = encode username ++ 46 ∷ (format_int expires ++ 46 ∷ nonce) in
      let mac = encode (hmac secret payload) in
      let text : payload ++ 46 ∷ mac
          ≡ encode username ++ 46 ∷ (format_int expires ++ 46 ∷ (nonce ++ 46 ∷ mac)) =
        ++-assoc (encode username) (46 ∷ (format_int expires ++ 46 ∷ nonce)) (46 ∷ mac)
        ∙ ap (λ l. encode username ++ 46 ∷ l)
            (++-assoc (format_int expires) (46 ∷ nonce) (46 ∷ mac)) in
      let parts : split 46 (payload ++ 46 ∷ mac)
          ≡ encode username ∷ format_int expires ∷ nonce ∷ mac ∷ [] =
        ap (split 46) text
        ∙ split-append 46 (encode username) (format_int expires ++ 46 ∷ (nonce ++ 46 ∷ mac))
            (encode_dotless username)
        ∙ ap (λ l. encode username ∷ l)
            (split-append 46 (format_int expires) (nonce ++ 46 ∷ mac) (format_int_dotless expires))
        ∙ ap (λ l. encode username ∷ format_int expires ∷ l) (split-append 46 nonce mac dotless)
        ∙ ap (λ l. encode username ∷ format_int expires ∷ nonce ∷ l)
            (split_whole 46 mac (encode_dotless (hmac secret payload))) in
      rw
        (
          parts,
          decode-encode (hmac secret payload),
          same_bytes_refl (hmac secret payload),
          parses,
          decode-encode username,
        )
        (ground arith)

  -- What the checks on four parts let through.
  abbrev Checked : Bytes → Bytes → ℤ → Bytes → Bytes → Bytes → Bytes → Type 0
  Checked secret user now name expires nonce mac =
      (until : ℤ) × (decode mac ≡ some (hmac secret (join 46 (name ∷ expires ∷ nonce ∷ []))))
      × (parse_int expires ≡ some until)
      × (ltz now until ≡ true)
      × (decode name ≡ some user)

  mac_check-same :
      (secret payload : Bytes) (o : Option Bytes)
      → mac_check signing secret payload o ≡ true
      → o ≡ some (hmac secret payload)
  unfolding mac_check
  mac_check-same secret payload none h = cc
  mac_check-same secret payload (some want) h =
      ap (λ b. some b) (same_bytes_eq want (hmac secret payload) h)

  expiry_check-later :
      (o : Option ℤ) (now : ℤ)
      → expiry_check signing o now ≡ true
      → (until : ℤ) × (o ≡ some until) × (ltz now until ≡ true)
  unfolding expiry_check
  expiry_check-later none now h = cc
  expiry_check-later (some until) now h = (until, refl, h)

  verify_parts-Checked :
      (secret user name expires nonce mac : Bytes) (now : ℤ)
      → verify_parts signing secret (name ∷ expires ∷ nonce ∷ mac ∷ []) now ≡ some user
      → Checked secret user now name expires nonce mac
  unfolding verify_parts
  verify_parts-Checked secret user name expires nonce mac now h =
      let payload = join 46 (name ∷ expires ∷ nonce ∷ []) in
      let signed : mac_check signing secret payload (decode mac) ≡ true = ground (arith, h) in
      let timely : expiry_check signing (parse_int expires) now ≡ true = ground (arith, h) in
      let later = expiry_check-later (parse_int expires) now timely in
      (
        later.0,
        mac_check-same secret payload (decode mac) signed,
        later.1,
        later.2,
        ground (arith, h),
      )

  -- Only signed sessions are accepted: an accepted cookie is a payload of three parts with the secret's
  -- MAC of it as a fourth, its expiry is later than now, and its user is the one that is returned.
  pub verify_session-signed :
      (secret value user : Bytes) (now : ℤ)
      → verify_session signing secret value now ≡ some user
      → (name : Bytes) × (expires : Bytes) × (nonce : Bytes) × (mac : Bytes) × (until : ℤ) × (value
          ≡ join 46 (name ∷ expires ∷ nonce ∷ mac ∷ []))
        × (decode mac ≡ some (hmac secret (join 46 (name ∷ expires ∷ nonce ∷ []))))
        × (parse_int expires ≡ some until)
        × (ltz now until ≡ true)
        × (decode name ≡ some user)
  unfolding verify_session verify_parts
  verify_session-signed secret value user now h = go (join-split 46 value)
    where
      no_user : ◌≡◌ {A = Option Bytes} none (some user) → ⊥
      no_user e = cc

      go :
          (p : Bytes) × (ps : List Bytes) × (split 46 value ≡ p ∷ ps) × (join 46 (p ∷ ps) ≡ value)
          → (name : Bytes) × (expires : Bytes) × (nonce : Bytes) × (mac : Bytes) × (until : ℤ)
            × (value ≡ join 46 (name ∷ expires ∷ nonce ∷ mac ∷ []))
            × (decode mac ≡ some (hmac secret (join 46 (name ∷ expires ∷ nonce ∷ []))))
            × (parse_int expires ≡ some until)
            × (ltz now until ≡ true)
            × (decode name ≡ some user)
      go (p, [], parts, whole) = absurd (no_user (rw (verify_session, parts) at h))
      go (p, q ∷ [], parts, whole) = absurd (no_user (rw (verify_session, parts) at h))
      go (p, q ∷ r ∷ [], parts, whole) = absurd (no_user (rw (verify_session, parts) at h))
      go (p, q ∷ r ∷ m ∷ [], parts, whole) =
          let checked =
            verify_parts-Checked secret user p q r m now
              (ap (λ l. verify_parts signing secret l now) (sym parts) ∙ h) in
          (p, q, r, m, checked.0, sym whole, checked.1, checked.2, checked.3, checked.4)
      go (p, q ∷ r ∷ m ∷ n ∷ ps, parts, whole) = absurd (no_user (rw (verify_session, parts) at h))
