-- ===== src/Crypto/Sealed.antt =====
-- pkg/crypto/envelope.go: what is encrypted for a recipient comes out there, over the wire and with a signature.
use nitella.Base.{
  length-append, ℕ, zero, suc, ◌*◌, ◌%◌, ◌<◌, String, ◌≡◌, refl, sym, ap, ◌∙◌, true, Option, some,
  [], ◌∷◌, ◌++◌, arith, length, ◌>>=◌,
}
use nitella.Crypto.Curve.{
  IsConverted, coordinate, clamped, curve_private-clamped, curve_public-IsConverted,
}
use nitella.Crypto.{
  to_bytes, curve_public, curve_private, Bytes, EncryptedPayload, Primitives, marshal, first_bytes,
  rest_bytes, unmarshal, sig_input, derive_key, encrypt, open_with, decrypt, sign, verify,
  encrypt_with_signature, verify_signature,
}

-- What the code relies on: a key that `generate` makes of a seed ends in its public half, whose point is converted to the
-- one of the scalar in the digest of the seed; X25519 clamps its scalar and agrees on a secret, an inverse is one, a
-- sealed text opens under its key, and a signature by a generated key is accepted under its public half.
pub record IsSound (prim : Primitives) (generate : Bytes → Bytes) : Type 0 where
  pub first-generate : (seed : Bytes) → length seed ≡ 32 → first_bytes 32 (generate seed) ≡ seed
  pub length-generate : (seed : Bytes) → length seed ≡ 32 → length (generate seed) ≡ 64
  pub length-public_key :
      (seed : Bytes) → length seed ≡ 32 → length (prim.public_key (generate seed)) ≡ 32
  pub converts :
      (seed : Bytes) (u : ℕ)
      → length seed ≡ 32
      → IsConverted u (coordinate (prim.public_key (generate seed)))
      → prim.x25519 (first_bytes 32 (prim.sha512 seed)) prim.basepoint ≡ some (to_bytes 32 u)
  pub clamps :
      (scalar point : Bytes) → prim.x25519 (clamped scalar) point ≡ prim.x25519 scalar point
  pub agrees :
      (a b a_public b_public : Bytes)
      → prim.x25519 a prim.basepoint ≡ some a_public
      → prim.x25519 b prim.basepoint ≡ some b_public
      → prim.x25519 b a_public ≡ prim.x25519 a b_public
  pub inverts : (a m i : ℕ) → 1 < m → prim.mod_inverse a m ≡ some i → (a * i) % m ≡ 1
  pub opens :
      (key nonce plaintext ad : Bytes)
      → prim.unseal key nonce (prim.seal key nonce plaintext ad) ad ≡ some plaintext
  pub accepts :
      (seed bs : Bytes)
      → length seed ≡ 32
      → prim.verify_bytes (prim.public_key (generate seed)) bs (prim.sign_bytes (generate seed) bs)
        ≡ true
  pub signature_length : (priv bs : Bytes) → length (prim.sign_bytes priv bs) ≡ 64

pub first_bytes-append : (xs ys : Bytes) (n : ℕ) → length xs ≡ n → first_bytes n (xs ++ ys) ≡ xs
unfolding first_bytes
first_bytes-append [] ys zero e = refl
first_bytes-append [] ys (suc n) e = absurd (omega (arith, e))
first_bytes-append (x ∷ xs) ys zero e = absurd (omega (arith, e))
first_bytes-append (x ∷ xs) ys (suc n) e =
    ap (◌∷◌ x) (first_bytes-append xs ys n (omega (arith, e)))

pub rest_bytes-append : (xs ys : Bytes) (n : ℕ) → length xs ≡ n → rest_bytes n (xs ++ ys) ≡ ys
unfolding rest_bytes
rest_bytes-append [] ys zero e = refl
rest_bytes-append [] ys (suc n) e = absurd (omega (arith, e))
rest_bytes-append (x ∷ xs) ys zero e = absurd (omega (arith, e))
rest_bytes-append (x ∷ xs) ys (suc n) e = rest_bytes-append xs ys n (omega (arith, e))

-- What comes over the wire: the payload without its fingerprint and its signature.
abbrev pub bare : EncryptedPayload → EncryptedPayload
bare p = record p { sender_fingerprint = ""; signature = [] }

unmarshal-marshal :
    (p : EncryptedPayload)
    → length p.ephemeral_pub_key ≡ 32
    → length p.nonce ≡ 12
    → unmarshal (marshal p) ≡ some (bare p)
unfolding unmarshal marshal
unmarshal-marshal p e n =
    rw
      (
        length-append p.ephemeral_pub_key (p.nonce ++ p.ciphertext),
        length-append p.nonce p.ciphertext,
        first_bytes-append p.ephemeral_pub_key (p.nonce ++ p.ciphertext) 32 e,
        rest_bytes-append p.ephemeral_pub_key (p.nonce ++ p.ciphertext) 32 e,
        first_bytes-append p.nonce p.ciphertext 12 n,
        rest_bytes-append p.nonce p.ciphertext 12 n,
      )
      (ground arith)

module _ (prim : Primitives) where
  -- The payload of an encryption.
  abbrev pub sealed : Bytes → Bytes → Bytes → Bytes → Bytes → EncryptedPayload
  sealed ephemeral nonce plaintext peer shared = record {
    ephemeral_pub_key = ephemeral;
    nonce = nonce;
    ciphertext = prim.seal (derive_key prim shared ephemeral peer) nonce plaintext ephemeral;
    sender_fingerprint = "";
    signature = [];
  }

  encrypt-sealed :
      (ephemeral_priv nonce plaintext recipient peer ephemeral shared : Bytes)
      → length recipient ≡ 32
      → curve_public prim recipient ≡ some peer
      → prim.x25519 ephemeral_priv prim.basepoint ≡ some ephemeral
      → prim.x25519 ephemeral_priv peer ≡ some shared
      → encrypt prim ephemeral_priv nonce plaintext recipient
        ≡ some (sealed ephemeral nonce plaintext peer shared)
  unfolding encrypt
  encrypt-sealed ephemeral_priv nonce plaintext recipient peer ephemeral shared l p e s =
      rw (l, p, e, s) refl

  -- What the recipient reads: the bytes are parsed and decrypted.
  abbrev pub decrypt_bytes : Bytes → Bytes → Option Bytes
  decrypt_bytes wire priv = do p ← unmarshal wire; decrypt prim p priv

  -- The payload with a signature of its bytes.
  abbrev pub signed : EncryptedPayload → Bytes → String → EncryptedPayload
  signed p sender fingerprint = record p {
    sender_fingerprint = fingerprint;
    signature = prim.sign_bytes sender (sig_input p);
  }

module _ (prim : Primitives) (generate : Bytes → Bytes) (sound : IsSound prim generate)
    (seed : Bytes) (seeded : length seed ≡ 32) where
  -- The secret that the recipient comes to is the one of the sender.
  x25519-shared :
      (ephemeral_priv peer ephemeral : Bytes)
      → curve_public prim (prim.public_key (generate seed)) ≡ some peer
      → prim.x25519 ephemeral_priv prim.basepoint ≡ some ephemeral
      → prim.x25519 (curve_private prim (generate seed)) ephemeral ≡ prim.x25519 ephemeral_priv peer
  x25519-shared ephemeral_priv peer ephemeral p e =
      let scalar = first_bytes 32 (prim.sha512 seed) in
      let (u, same, converted) =
        curve_public-IsConverted prim sound.inverts (prim.public_key (generate seed)) peer
          (sound.length-public_key seed seeded) p in
      let mine : prim.x25519 scalar prim.basepoint ≡ some peer =
        sound.converts seed u seeded converted ∙ ap some (sym same) in
      rw (curve_private-clamped prim (generate seed), sound.first-generate seed seeded)
        (sound.clamps scalar ephemeral ∙ sound.agrees ephemeral_priv scalar ephemeral peer e mine)

  decrypt-sealed :
      (ephemeral_priv nonce plaintext peer ephemeral shared : Bytes)
      → length nonce ≡ 12
      → curve_public prim (prim.public_key (generate seed)) ≡ some peer
      → prim.x25519 ephemeral_priv prim.basepoint ≡ some ephemeral
      → prim.x25519 ephemeral_priv peer ≡ some shared
      → decrypt prim (sealed prim ephemeral nonce plaintext peer shared) (generate seed)
        ≡ some plaintext
  unfolding decrypt open_with
  decrypt-sealed ephemeral_priv nonce plaintext peer ephemeral shared n p e s =
      rw
        (
          sound.length-generate seed seeded,
          x25519-shared ephemeral_priv peer ephemeral p e,
          s,
          p,
          n,
          sound.opens (derive_key prim shared ephemeral peer) nonce plaintext ephemeral,
        )
        refl

  open-sealed :
      (ephemeral_priv nonce plaintext peer ephemeral shared : Bytes)
      → length nonce ≡ 12
      → length ephemeral ≡ 32
      → curve_public prim (prim.public_key (generate seed)) ≡ some peer
      → prim.x25519 ephemeral_priv prim.basepoint ≡ some ephemeral
      → prim.x25519 ephemeral_priv peer ≡ some shared
      → decrypt_bytes prim
          (marshal (sealed prim ephemeral nonce plaintext peer shared))
          (generate seed)
        ≡ some plaintext
  open-sealed ephemeral_priv nonce plaintext peer ephemeral shared n k p e s =
      rw (unmarshal-marshal (sealed prim ephemeral nonce plaintext peer shared) k n)
        (decrypt-sealed ephemeral_priv nonce plaintext peer ephemeral shared n p e s)

  signed-verify :
      (p : EncryptedPayload) (fingerprint : String)
      → verify_signature prim
          (signed prim p (generate seed) fingerprint)
          (prim.public_key (generate seed))
        ≡ true
  unfolding verify_signature verify sig_input
  signed-verify p fingerprint =
      let bs = p.ephemeral_pub_key ++ (p.nonce ++ p.ciphertext) in
      rw
        (
          sound.signature_length (generate seed) bs,
          sound.length-public_key seed seeded,
          sound.accepts seed bs seeded,
        )
        refl

module _ (prim : Primitives) (generate : Bytes → Bytes) where
  -- For keys that are generated from seeds of 32 bytes, a nonce of 12 and an ephemeral key of 32, when the conversion of
  -- the recipient's key and the agreements of the sender succeed, a plaintext is encrypted and signed: the
  -- signature is accepted under the public half of the sender's key, and the recipient, who parses the bytes of the
  -- payload, converts the private key and decrypts, gets the plaintext.
  pub encrypt_with_signature-opens :
      (sound : IsSound prim generate)
      (ephemeral_priv nonce plaintext seed sender_seed peer ephemeral shared : Bytes)
      (fingerprint : String)
      → length seed ≡ 32
      → length sender_seed ≡ 32
      → length nonce ≡ 12
      → length ephemeral ≡ 32
      → curve_public prim (prim.public_key (generate seed)) ≡ some peer
      → prim.x25519 ephemeral_priv prim.basepoint ≡ some ephemeral
      → prim.x25519 ephemeral_priv peer ≡ some shared
      → (p : EncryptedPayload) × (encrypt_with_signature prim ephemeral_priv nonce plaintext
            (prim.public_key (generate seed))
            (generate sender_seed)
            fingerprint
          ≡ some p)
        × (verify_signature prim p (prim.public_key (generate sender_seed)) ≡ true)
        × (decrypt_bytes prim (marshal p) (generate seed) ≡ some plaintext)
  unfolding encrypt_with_signature sign marshal
  encrypt_with_signature-opens sound ephemeral_priv nonce plaintext seed sender_seed peer ephemeral
        shared fingerprint l m n k p e s =
      let payload = sealed prim ephemeral nonce plaintext peer shared in
      (
        signed prim payload (generate sender_seed) fingerprint,
        rw
            (
              encrypt-sealed prim ephemeral_priv nonce plaintext (prim.public_key (generate seed))
                  peer ephemeral shared (sound.length-public_key seed l) p e s,
              sound.length-generate sender_seed m,
            )
            refl,
        signed-verify prim generate sound sender_seed m payload fingerprint,
        open-sealed prim generate sound seed l ephemeral_priv nonce plaintext peer ephemeral shared
            n k p e s,
      )
