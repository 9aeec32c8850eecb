-- ===== src/Crypto/Curve.antt =====
-- pkg/crypto/envelope.go: the conversions of keys, and the libraries of curves that they are made for.
use nitella.Base.{
  ℕ, zero, suc, ◌+◌, ◌-◌, ◌*◌, ◌/◌, ◌%◌, ◌<◌, ◌≡◌, refl, sym, ap, ◌∙◌, ◌≢◌, inl, inr, Bool, true,
  false, Option, none, some, [], ◌∷◌, arith, if◌then◌else◌, length, Option-cases,
}
use mathlib.Core.Path.{subst}
use native.Mathlib.Nat.{add-mul-mod_self_left, mod-add-div, mod-mod}
use nitella.Crypto.{
  Bytes, Primitives, prime, first_bytes, copied, update, from_bytes, to_bytes, is_small_order_point,
  curve_public, curve_private,
}

-- What X25519 makes of the bytes of a scalar.
abbrev pub clamped : Bytes → Bytes
clamped k = update 31 (λ b. b % 64 + 64) (update 0 (λ b. b - b % 8) k)

-- The y coordinate of an Ed25519 key, whose last bit is the sign of the other one.
abbrev pub coordinate : Bytes → ℕ
coordinate pk = from_bytes (update 31 (λ b. b % 128) pk)

-- The field element `u` with `u (1 - y) = 1 + y`: the point of Curve25519 for the one of Ed25519.
abbrev pub IsConverted : ℕ → ℕ → Type 0
IsConverted u y = (u < prime) × ((u * ((2 * prime + 1 - y) % prime)) % prime ≡ (1 + y) % prime)

spread : (r q d b : ℕ) → r * b + q * (d * b) ≡ (r + q * d) * b
spread r q d b = omega arith

mod-times_mod : (a b q : ℕ) → (a % q * b) % q ≡ (a * b) % q
mod-times_mod a b q =
    sym (add-mul-mod_self_left (a % q * b) q (a / q * b))
    ∙ ap (λ (n : ℕ). n % q) (spread (a % q) q (a / q) b ∙ ap (λ (n : ℕ). n * b) (mod-add-div a q))

turn : (a i d : ℕ) → a * i * d ≡ d * i * a
turn a i d = omega arith

once : (a : ℕ) → 1 * a ≡ a
once a = omega arith

quotient_times : (q d x i : ℕ) → 1 < q → (d * i) % q ≡ 1 → ((x % q * i) % q * d) % q ≡ x % q
quotient_times q d x i big inverse =
    let a = x % q in
    mod-times_mod (a * i) d q
    ∙ ap (λ (n : ℕ). n % q) (turn a i d)
    ∙ sym (mod-times_mod (d * i) a q)
    ∙ ap (λ (n : ℕ). (n * a) % q) inverse
    ∙ ap (λ (n : ℕ). n % q) (once a)
    ∙ mod-mod x q

first_bytes-update :
    (n i : ℕ) (f : ℕ → ℕ) (bs : Bytes)
    → first_bytes n (update i f bs) ≡ update i f (first_bytes n bs)
unfolding first_bytes update
first_bytes-update zero zero f bs = refl
first_bytes-update zero (suc i) f bs = refl
first_bytes-update (suc n) zero f [] = refl
first_bytes-update (suc n) (suc i) f [] = refl
first_bytes-update (suc n) zero f (b ∷ bs) = refl
first_bytes-update (suc n) (suc i) f (b ∷ bs) = ap (◌∷◌ b) (first_bytes-update n i f bs)

copied_self : (n : ℕ) (bs : Bytes) → length bs ≡ n → copied n bs ≡ bs
unfolding copied
copied_self zero [] e = refl
copied_self zero (b ∷ bs) e = absurd (omega (arith, e))
copied_self (suc n) [] e = absurd (omega (arith, e))
copied_self (suc n) (b ∷ bs) e = ap (◌∷◌ b) (copied_self n bs (omega (arith, e)))

none_apart : (bs : Bytes) → ◌≢◌ {A = Option Bytes} none (some bs)
none_apart bs e = ground (arith, e)

kept_point :
    (small : Bool) (bs peer : Bytes) → (if small then none else some bs) ≡ some peer → peer ≡ bs
kept_point true bs peer e = absurd (none_apart peer e)
kept_point false bs peer e = ap (λ (o : Option Bytes). elim o [ none ↦ peer | some x ↦ x ]) (sym e)

module _ (prim : Primitives) where
  -- The converted private key is the scalar of the digest, as X25519 reads it.
  pub curve_private-clamped :
      (priv : Bytes)
      → curve_private prim priv ≡ clamped (first_bytes 32 (prim.sha512 (first_bytes 32 priv)))
  unfolding curve_private
  curve_private-clamped priv =
      rw
        (
          first_bytes-update 32 31 (λ b. b % 64 + 64)
              (update 0 (λ b. b - b % 8) (prim.sha512 (first_bytes 32 priv))),
          first_bytes-update 32 0 (λ b. b - b % 8) (prim.sha512 (first_bytes 32 priv)),
        )
        refl

  curve_public-copied :
      ((a m i : ℕ) → 1 < m → prim.mod_inverse a m ≡ some i → (a * i) % m ≡ 1)
      → (pk peer : Bytes) → curve_public prim pk ≡ some peer
      → (u : ℕ) × (peer ≡ to_bytes 32 u) × IsConverted u (coordinate (copied 32 pk))
  unfolding curve_public
  curve_public-copied inverts pk peer e =
      let y = coordinate (copied 32 pk) in
      let d = (2 * prime + 1 - y) % prime in
      elim (Option-cases (prim.mod_inverse d prime)) [
        | inl stuck ↦
            let same : curve_public prim pk ≡ none = rw (stuck, curve_public) refl in
            absurd (none_apart peer (sym same ∙ e))
        | inr (i, found) ↦
            let u = ((1 + y) % prime * i) % prime in
            let point = to_bytes 32 u in
            let small = is_small_order_point point in
            let same : curve_public prim pk ≡ (if small then none else some point) =
              rw (found, curve_public) refl in
            (
              u,
              kept_point small point peer (sym same ∙ e),
              (
                omega arith,
                quotient_times prime d (1 + y) i (omega arith)
                    (inverts d prime i (omega arith) found),
              ),
            )
      ]

  -- The converted public key is the point for the one of the key.
  pub curve_public-IsConverted :
      ((a m i : ℕ) → 1 < m → prim.mod_inverse a m ≡ some i → (a * i) % m ≡ 1)
      → (pk peer : Bytes) → length pk ≡ 32
      → curve_public prim pk ≡ some peer
      → (u : ℕ) × (peer ≡ to_bytes 32 u) × IsConverted u (coordinate pk)
  curve_public-IsConverted inverts pk peer l e =
      let (u, same, converted) = curve_public-copied inverts pk peer e in
      (
        u,
        same,
        subst (λ (bs : Bytes). IsConverted u (coordinate bs)) (copied_self 32 pk l) converted,
      )
