-- ===== src/Bits/And.antt =====
-- `&` with a mask of low ones is a remainder, and `a & (a - 1)` is 0 only at a power of two.
use Prim.Native.Nat.{digits, bitwise, bit_and-bitwise}
use native.Mathlib.Nat.{
  le_refl, pow-suc, one-le-pow, mod-lt, mod-eq_of_lt, div-add-mod, add-mul-mod_self_right,
}
use native.Mathlib.Decide.{ℕ_discrete}
use virtio_forwarder.Prelude.{
  ◌∙◌, sym, ℕ, zero, suc, ◌+◌, ◌-◌, ◌*◌, ◌/◌, ◌%◌, ◌^◌, ◌≤◌, ◌<◌, ◌≡◌, ◌≢◌, refl, ap, min, bit_and,
  arith,
}

module _ (z : ℕ → ℕ) (f : ℕ → ℕ → ℕ) where
  digits_enough : (n m a b : ℕ) → a ≤ n → a ≤ m → digits z f n a b ≡ digits z f m a b
  digits_enough zero zero a b p q = refl
  digits_enough zero (suc m) zero b p q = refl
  digits_enough zero (suc m) (suc a) b p q = absurd (omega arith)
  digits_enough (suc n) zero zero b p q = refl
  digits_enough (suc n) zero (suc a) b p q = absurd (omega arith)
  digits_enough (suc n) (suc m) zero b p q = refl
  digits_enough (suc n) (suc m) (suc a) b p q =
      rw (digits_enough n m (suc a / 2) (b / 2) (omega arith) (omega arith))

  bitwise-lowest :
      (a b : ℕ)
      → bitwise z f (suc a) b ≡ bitwise z f (suc a / 2) (b / 2) * 2 + f (suc a % 2) (b % 2)
  bitwise-lowest a b =
      omega (arith, digits_enough a (suc a / 2) (suc a / 2) (b / 2) (omega arith) (le_refl _))

-- The lowest digit, and the rest.
bit_and_split : (a b : ℕ) → bit_and a b ≡ bit_and (a / 2) (b / 2) * 2 + min (a % 2) (b % 2)
bit_and_split zero b = simp bit_and-bitwise (omega arith)
bit_and_split (suc a) b = simp bit_and-bitwise (bitwise-lowest (λ y. 0) min a b)

bit_and-zero_below : (n a : ℕ) → a ≤ n → bit_and a 0 ≡ 0
bit_and-zero_below n zero h = refl
bit_and-zero_below zero (suc a) h = absurd (omega arith)
bit_and-zero_below (suc n) (suc a) h =
    omega (arith, bit_and_split (suc a) 0, bit_and-zero_below n (suc a / 2) (omega arith))

bit_and_self_below : (n a : ℕ) → a ≤ n → bit_and a a ≡ a
bit_and_self_below n zero h = refl
bit_and_self_below zero (suc a) h = absurd (omega arith)
bit_and_self_below (suc n) (suc a) h =
    omega (arith, bit_and_split (suc a) (suc a), bit_and_self_below n (suc a / 2) (omega arith))

-- Doubling the modulus puts the lowest digit in front.
mod-double : (h p : ℕ) → 0 < p → h / 2 % p * 2 + h % 2 ≡ h % (p * 2)
mod-double h p pos =
    let r = h / 2 % p * 2 + h % 2 in
    let low : r < p * 2 = omega (arith, mod-lt (h / 2) pos) in
    let whole : h ≡ r + h / 2 / p * (p * 2) = omega (arith, div-add-mod (h / 2) p) in
    sym (mod-eq_of_lt low)
    ∙ sym (add-mul-mod_self_right r (h / 2 / p) (p * 2))
    ∙ ap (λ t. t % (p * 2)) (sym whole)

-- `h & (2 ^ k - 1)` is `h % 2 ^ k`.
pub bit_and_low : (k h : ℕ) → bit_and h (2 ^ k - 1) ≡ h % 2 ^ k
bit_and_low zero h = omega (arith, bit_and-zero_below h h (le_refl h))
bit_and_low (suc k) h =
    let some : 1 ≤ 2 ^ k = one-le-pow k 2 (omega arith) in
    let mask : (2 ^ suc k - 1) / 2 ≡ 2 ^ k - 1 = omega (arith, pow-suc 2 k) in
    let last : (2 ^ suc k - 1) % 2 ≡ 1 = omega (arith, pow-suc 2 k) in
    bit_and_split h (2 ^ suc k - 1)
    ∙ rw (mask, last, bit_and_low k (h / 2), pow-suc 2 k) (omega (arith, mod-double h (2 ^ k) some))

-- A number whose `a & (a - 1)` is 0 is 0 or a power of two.
pub power_of_two : (n a : ℕ) → a ≤ n → a ≢ 0 → bit_and a (a - 1) ≡ 0 → (k : ℕ) × (a ≡ 2 ^ k)
power_of_two zero a h ne e = absurd (ne (omega arith))
power_of_two (suc n) a h ne e = elim (ℕ_discrete (a % 2) 0) [
  | yes even ↦
      let half : (a - 1) / 2 ≡ a / 2 - 1 = omega arith in
      let rest : bit_and (a / 2) (a / 2 - 1) ≡ 0 =
        omega (arith, bit_and_split a (a - 1), ap (λ (t : ℕ). bit_and (a / 2) t) half) in
      let (k, p) = power_of_two n (a / 2) (omega arith) (omega arith) rest in
      (suc k, omega (arith, pow-suc 2 k))
  | no odd ↦
      let half : (a - 1) / 2 ≡ a / 2 = omega arith in
      (
        0,
        omega (
          arith,
          bit_and_split a (a - 1),
          ap (λ (t : ℕ). bit_and (a / 2) t) half,
          bit_and_self_below (a / 2) (a / 2) (le_refl (a / 2)),
        ),
      )
]
