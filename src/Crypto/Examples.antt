-- ===== src/Crypto/Examples.antt =====
-- pkg/crypto/envelope.go: one message, with simple functions for the primitives.
use nitella.Base.{
  length-append, ==_iff, ℕ, zero, suc, ◌+◌, ◌-◌, ◌*◌, ◌%◌, ◌≡◌, refl, sym, ap, ◌∙◌, true, Option,
  none, some, [], ◌∷◌, ◌++◌, arith, ◌==◌, if◌then◌else◌, length,
}
use mathlib.Core.Path.{subst}
use nitella.Crypto.{
  Bytes, EncryptedPayload, Primitives, prime, marshal, repeated, curve_public, copied, update,
  from_bytes, to_bytes, rest_bytes, same_bytes, is_small_order_point, encrypt_with_signature,
  verify_signature,
}
use nitella.Crypto.Curve.{IsConverted, coordinate}
use nitella.Crypto.Sealed.{
  IsSound, first_bytes-append, rest_bytes-append, decrypt_bytes, encrypt_with_signature-opens,
}

-- The public half of every key: its coordinate is 2, so that its point is -3.
abbrev public_half : Bytes
public_half = 2 ∷ repeated 31 0 []

abbrev generate : Bytes → Bytes
generate seed = seed ++ public_half

abbrev digest : Bytes → Bytes → ℕ
digest key bs = (from_bytes key + 3 * from_bytes bs) % 251

abbrev tag : Bytes → Bytes → Bytes → ℕ
tag key nonce ad = digest key (nonce ++ ad)

abbrev untag : ℕ → Bytes → Option Bytes
untag n [] = none
untag n (b ∷ bs) = if b == n then some bs else none

-- A point is left where it is, a text is sealed by a tag of the key, the nonce and the data, and a signature is a
-- digest of the public half and the bytes.
abbrev primitives : Primitives
primitives = record {
  public_key = rest_bytes 32;
  mod_inverse = λ a m. if (a * a) % m == 1 then some a else none;
  sha512 = λ bs. bs ++ bs;
  x25519 = λ scalar point. some point;
  basepoint = to_bytes 32 (prime - 3);
  hkdf = λ secret info. secret ++ info;
  seal = λ key nonce plaintext ad. tag key nonce ad ∷ plaintext;
  unseal = λ key nonce ciphertext ad. untag (tag key nonce ad) ciphertext;
  sign_bytes = λ priv bs. repeated 64 (digest (rest_bytes 32 priv) bs) [];
  verify_bytes = λ public bs signature. same_bytes signature (repeated 64 (digest public bs) []);
}

public_key-generate :
    (seed : Bytes) → length seed ≡ 32 → rest_bytes 32 (generate seed) ≡ public_half
public_key-generate seed l = rest_bytes-append seed public_half 32 l

same_bytes_self : (bs : Bytes) → same_bytes bs bs ≡ true
unfolding same_bytes
same_bytes_self [] = refl
same_bytes_self (b ∷ bs) = rw ((==_iff b b).1 refl, same_bytes_self bs) refl

length-repeated : (n b : ℕ) → length (repeated n b []) ≡ n
unfolding repeated
length-repeated zero b = refl
length-repeated (suc n) b = rw (length-repeated n b) (omega arith)

coordinate-public_half : coordinate public_half ≡ 2
unfolding repeated update from_bytes
coordinate-public_half = refl

minus_three : (u : ℕ) → IsConverted u 2 → u ≡ prime - 3
minus_three u (below, same) = omega arith

inverse_self : (a m i : ℕ) → (if (a * a) % m == 1 then some a else none) ≡ some i → (a * i) % m ≡ 1
inverse_self a m i e = ground (arith, e, ==_iff ((a * a) % m) 1)

length-public_half : length public_half ≡ 32
unfolding repeated
length-public_half = refl

primitives-IsSound : IsSound primitives generate
primitives-IsSound = record {
  first-generate = λ seed l. first_bytes-append seed public_half 32 l;
  length-generate = λ seed l. length-append seed public_half ∙ omega (arith, l, length-public_half);
  length-public_key = λ seed l. rw (public_key-generate seed l) length-public_half;
  converts = λ seed u l c.
      ap (λ (v : ℕ). some (to_bytes 32 v))
        (sym (
          minus_three u (
            subst (IsConverted u)
              (ap coordinate (public_key-generate seed l) ∙ coordinate-public_half) c)));
  clamps = λ scalar point. refl;
  agrees = λ a b a_public b_public e f. sym e ∙ f;
  inverts = λ a m i big e. inverse_self a m i e;
  opens = λ key nonce plaintext ad. rw ((==_iff (tag key nonce ad) (tag key nonce ad)).1 refl) refl;
  accepts =
      λ seed bs l. same_bytes_self (repeated 64 (digest (rest_bytes 32 (generate seed)) bs) []);
  signature_length = λ priv bs. length-repeated 64 (digest (rest_bytes 32 priv) bs);
}

abbrev seed : Bytes
seed = repeated 32 4 []

abbrev sender_seed : Bytes
sender_seed = repeated 32 6 []

abbrev nonce : Bytes
nonce = repeated 12 0 []

abbrev peer : Bytes
peer = to_bytes 32 (prime - 3)

peer_found : curve_public primitives (primitives.public_key (generate seed)) ≡ some peer
unfolding curve_public copied update from_bytes to_bytes rest_bytes same_bytes is_small_order_point
    repeated
peer_found = refl

length-peer : length peer ≡ 32
unfolding to_bytes
length-peer = refl

encrypt_with_signature-opens_example :
    (p : EncryptedPayload) × (encrypt_with_signature primitives
        (repeated 32 8 [])
        nonce
        (1 ∷ 2 ∷ [])
        (primitives.public_key (generate seed))
        (generate sender_seed)
        "sender"
      ≡ some p)
    × (verify_signature primitives p (primitives.public_key (generate sender_seed)) ≡ true)
    × (decrypt_bytes primitives (marshal p) (generate seed) ≡ some (1 ∷ 2 ∷ []))
encrypt_with_signature-opens_example =
    encrypt_with_signature-opens primitives generate primitives-IsSound (repeated 32 8 []) nonce
      (1 ∷ 2 ∷ []) seed sender_seed peer peer peer "sender" (length-repeated 32 4)
      (length-repeated 32 6) (length-repeated 12 0) length-peer peer_found refl refl
