-- ===== src/Crypto.antt =====
-- pkg/crypto/envelope.go and signing.go: the encrypted payloads. Bytes are numbers below 256. The primitives of the
-- libraries are parameters, and so are the random bytes that a call reads: an ephemeral key and a nonce.
pub mod Curve
pub mod Sealed
mod Examples
use nitella.Base.{
  ◌^◌, ℕ, zero, suc, ◌+◌, ◌-◌, ◌*◌, ◌/◌, ◌%◌, ◌≤◌, ◌<◌, min, max, String, ◌≡◌, refl, sym, ap, ◌∙◌,
  ◌≢◌, ◌↔◌, ◌⊎◌, inl, inr, Bool, true, false, not, ◌&&◌, ◌||◌, Option, none, some, List, [], ◌∷◌,
  ◌++◌, map, arith, ltb, leb, ◌==◌, if◌then◌else◌, length, get_or, any-perm, any, all, All, str_eq,
  str_eq_iff, codes, concat, concat_cancel_left, concat_assoc, concat_apart, codes-concat,
  codes-injective, IsFree, separator_cancel, separator-IsFree, cut, split_on, is_digit, includes,
  Bool-cases, Option-cases, ◌>>=◌,
}
use nitella.Base.Map
use nitella.Base.Map.{
  Map, lookup-insert, lookup-erase, lookup-retain, lookup-insert_self, lookup-insert_ne,
  lookup-erase_self, lookup-erase_ne,
}

abbrev pub Bytes : Type 0
Bytes = List ℕ

pub record EncryptedPayload : Type 0 where
  pub ephemeral_pub_key : Bytes
  pub nonce : Bytes
  pub ciphertext : Bytes
  pub sender_fingerprint : String
  pub signature : Bytes

-- Calls of the libraries: of ed25519, of math/big, of the digests, of curve25519 and of AES-GCM.
pub record Primitives : Type 0 where
  pub public_key : Bytes → Bytes
  pub mod_inverse : ℕ → ℕ → Option ℕ
  pub sha512 : Bytes → Bytes
  pub x25519 : Bytes → Bytes → Option Bytes
  pub basepoint : Bytes
  pub hkdf : Bytes → Bytes → Bytes
  pub seal : Bytes → Bytes → Bytes → Bytes → Bytes
  pub unseal : Bytes → Bytes → Bytes → Bytes → Option Bytes
  pub sign_bytes : Bytes → Bytes → Bytes
  pub verify_bytes : Bytes → Bytes → Bytes → Bool

-- `Marshal`
unfoldable pub marshal : EncryptedPayload → Bytes
marshal p = p.ephemeral_pub_key ++ (p.nonce ++ p.ciphertext)

-- `data[:n]` and `data[n:]`
unfoldable pub first_bytes : ℕ → Bytes → Bytes
first_bytes zero data_bytes = []
first_bytes (suc n) [] = []
first_bytes (suc n) (b ∷ bs) = b ∷ first_bytes n bs

unfoldable pub rest_bytes : ℕ → Bytes → Bytes
rest_bytes zero bs = bs
rest_bytes (suc n) [] = []
rest_bytes (suc n) (b ∷ bs) = rest_bytes n bs

-- `UnmarshalEncryptedPayload`
unfoldable pub unmarshal : Bytes → Option EncryptedPayload
unmarshal bs =
    if ltb (length bs) 44
    then none
    else some (record {
      ephemeral_pub_key = first_bytes 32 bs;
      nonce = first_bytes 12 (rest_bytes 32 bs);
      ciphertext = rest_bytes 12 (rest_bytes 32 bs);
      sender_fingerprint = "";
      signature = [];
    })

-- The bytes that are signed.
unfoldable pub sig_input : EncryptedPayload → Bytes
sig_input p = p.ephemeral_pub_key ++ (p.nonce ++ p.ciphertext)

-- `copy` into `size` zero bytes.
unfoldable pub copied : ℕ → Bytes → Bytes
copied zero bs = []
copied (suc n) [] = 0 ∷ copied n []
copied (suc n) (b ∷ bs) = b ∷ copied n bs

-- The assignment to the byte at an index.
unfoldable pub update : ℕ → (ℕ → ℕ) → Bytes → Bytes
update n f [] = []
update zero f (b ∷ bs) = f b ∷ bs
update (suc n) f (b ∷ bs) = b ∷ update n f bs

-- `SetBytes(reverse(bs))`, and the number back in little-endian bytes.
unfoldable pub from_bytes : Bytes → ℕ
from_bytes [] = 0
from_bytes (b ∷ bs) = b + 256 * from_bytes bs

unfoldable pub to_bytes : ℕ → ℕ → Bytes
to_bytes zero u = []
to_bytes (suc n) u = u % 256 ∷ to_bytes n (u / 256)

-- The field of the curve.
abbrev pub prime : ℕ
prime = 2 ^ 255 - 19

unfoldable pub repeated : ℕ → ℕ → Bytes → Bytes
repeated zero b bs = bs
repeated (suc n) b bs = b ∷ repeated n b bs

abbrev pub small_order_points : List Bytes
small_order_points =
    repeated 32 0 []
    ∷ (1 ∷ repeated 31 0 [])
    ∷ (236 ∷ repeated 30 255 (127 ∷ []))
    ∷ (224 ∷ 235 ∷ 122 ∷ 124 ∷ 59 ∷ 65 ∷ 184 ∷ 174 ∷ 22 ∷ 86 ∷ 227 ∷ 250 ∷ 241 ∷ 159 ∷ 196 ∷ 106
        ∷ 218 ∷ 9 ∷ 141 ∷ 235 ∷ 156 ∷ 50 ∷ 177 ∷ 253 ∷ 134 ∷ 98 ∷ 5 ∷ 22 ∷ 95 ∷ 73 ∷ 184 ∷ 0 ∷ [])
    ∷ (95 ∷ 156 ∷ 149 ∷ 188 ∷ 163 ∷ 80 ∷ 140 ∷ 36 ∷ 177 ∷ 208 ∷ 177 ∷ 85 ∷ 156 ∷ 131 ∷ 239 ∷ 91 ∷ 4
        ∷ 68 ∷ 92 ∷ 196 ∷ 88 ∷ 28 ∷ 142 ∷ 134 ∷ 216 ∷ 34 ∷ 78 ∷ 221 ∷ 208 ∷ 159 ∷ 17 ∷ 87 ∷ [])
    ∷ (237 ∷ repeated 30 255 (127 ∷ []))
    ∷ (238 ∷ repeated 30 255 (127 ∷ []))
    ∷ []

unfoldable pub same_bytes : Bytes → Bytes → Bool
same_bytes [] [] = true
same_bytes [] (c ∷ cs) = false
same_bytes (b ∷ bs) [] = false
same_bytes (b ∷ bs) (c ∷ cs) = b == c && same_bytes bs cs

-- `isSmallOrderPoint`
unfoldable pub is_small_order_point : Bytes → Bool
is_small_order_point point = any (same_bytes point) small_order_points

module _ (prim : Primitives) where
  -- `Ed25519PublicKeyToCurve25519`: the number (1 + y) / (1 - y) of the field. It is below 2 ^ 255, so that the
  -- check for more than 32 bytes never fails; `2 * prime` keeps the difference from going below 0.
  unfoldable pub curve_public : Bytes → Option Bytes
  curve_public pk =
      let y = from_bytes (update 31 (λ b. b % 128) (copied 32 pk)) in
      elim (prim.mod_inverse ((2 * prime + 1 - y) % prime) prime) [
        | none ↦ none
        | some inverse ↦
            let ret = to_bytes 32 (((1 + y) % prime * inverse) % prime) in
            if is_small_order_point ret then none else some ret
      ]

  -- `Ed25519PrivateKeyToCurve25519`: the digest of the seed, with its bits set as the curve wants them.
  unfoldable pub curve_private : Bytes → Bytes
  curve_private priv =
      let h = update 0 (λ b. b - b % 8) (prim.sha512 (first_bytes 32 priv)) in
      first_bytes 32 (update 31 (λ b. b % 64 + 64) h)

  -- `deriveKey`
  unfoldable pub derive_key : Bytes → Bytes → Bytes → Bytes
  derive_key shared ephemeral recipient =
      prim.hkdf shared (codes "nitella-x25519-aes256-gcm" ++ (ephemeral ++ recipient))

  -- `Encrypt`
  unfoldable pub encrypt : Bytes → Bytes → Bytes → Bytes → Option EncryptedPayload
  encrypt ephemeral_priv nonce plaintext recipient =
      if not (length recipient == 32) then none else do
        peer ← curve_public recipient
        ephemeral ← prim.x25519 ephemeral_priv prim.basepoint
        shared ← prim.x25519 ephemeral_priv peer
        some (record {
          ephemeral_pub_key = ephemeral;
          nonce = nonce;
          ciphertext = prim.seal (derive_key shared ephemeral peer) nonce plaintext ephemeral;
          sender_fingerprint = "";
          signature = [];
        })

  -- The error of the conversion is dropped, with an empty key in its place.
  abbrev pub or_empty : Option Bytes → Bytes
  or_empty none = []
  or_empty (some bs) = bs

  -- The rest of `Decrypt`, with the shared secret and the recipient's own curve key.
  unfoldable pub open_with : EncryptedPayload → Bytes → Bytes → Option Bytes
  open_with p mine shared =
      if not (length p.nonce == 12)
      then none
      else prim.unseal (derive_key shared p.ephemeral_pub_key mine) p.nonce p.ciphertext
          p.ephemeral_pub_key

  -- `Decrypt`
  unfoldable pub decrypt : EncryptedPayload → Bytes → Option Bytes
  decrypt p priv = if not (length priv == 64) then none else do
    shared ← prim.x25519 (curve_private priv) p.ephemeral_pub_key
    open_with p (or_empty (curve_public (prim.public_key priv))) shared

  -- `Sign` and `Verify`
  unfoldable pub sign : Bytes → Bytes → Option Bytes
  sign bs priv = if not (length priv == 64) then none else some (prim.sign_bytes priv bs)

  unfoldable pub verify : Bytes → Bytes → Bytes → Bool
  verify bs signature public =
      if not (length public == 32) then false else prim.verify_bytes public bs signature

  -- `EncryptWithSignature`
  unfoldable pub encrypt_with_signature :
      Bytes → Bytes → Bytes → Bytes → Bytes → String → Option EncryptedPayload
  encrypt_with_signature ephemeral_priv nonce plaintext recipient sender fingerprint = do
    p ← encrypt ephemeral_priv nonce plaintext recipient
    signature ← sign (sig_input p) sender
    some (record p { sender_fingerprint = fingerprint; signature = signature })

  -- `VerifySignature`
  unfoldable pub verify_signature : EncryptedPayload → Bytes → Bool
  verify_signature p public =
      if length p.signature == 0 then false else verify (sig_input p) p.signature public
