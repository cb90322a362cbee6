-- ===== src/Bits/Mask.antt =====
-- One position of a mask after a write, and the bounds of a written mask.
use virtio_forwarder.Prelude.{
  ℕ, zero, suc, ◌+◌, ◌-◌, ◌*◌, ◌/◌, ◌%◌, ◌^◌, ◌≤◌, ◌<◌, ◌≡◌, ◌≢◌, refl, ap, sym, ◌∙◌, leb, true,
  false, List, [], ◌∷◌, ◌==◌, arith, All, get_elem?, some, inl, inr, Bool-cases,
}
use mathlib.Core.Bool.{false≢true}
use virtio_forwarder.Bits.{test_bit, set_bit, clear_bit, ones}
use native.Mathlib.Nat.{pow-suc}

pub test_bit-zero : (k : ℕ) → test_bit 0 k ≡ false
unfolding test_bit
test_bit-zero zero = refl
test_bit-zero (suc k) = test_bit-zero k

pub test_bit-set_self : (k b : ℕ) → test_bit (set_bit b k) k ≡ true
unfolding test_bit set_bit
test_bit-set_self zero b = ground arith
test_bit-set_self (suc k) b =
    let e : (set_bit (b / 2) k * 2 + b % 2) / 2 ≡ set_bit (b / 2) k = omega arith in
    rw e (test_bit-set_self k (b / 2))

pub test_bit-clear_self : (k b : ℕ) → test_bit (clear_bit b k) k ≡ false
unfolding test_bit clear_bit
test_bit-clear_self zero b = ground arith
test_bit-clear_self (suc k) b =
    let e : (clear_bit (b / 2) k * 2 + b % 2) / 2 ≡ clear_bit (b / 2) k = omega arith in
    rw e (test_bit-clear_self k (b / 2))

pub test_bit-set_ne : (k j b : ℕ) → k ≢ j → test_bit (set_bit b k) j ≡ test_bit b j
unfolding test_bit set_bit
test_bit-set_ne zero zero b ne = absurd (ne refl)
test_bit-set_ne zero (suc j) b ne = rw (let e : (b / 2 * 2 + 1) / 2 ≡ b / 2 = omega arith in e) refl
test_bit-set_ne (suc k) zero b ne =
    rw (let e : (set_bit (b / 2) k * 2 + b % 2) % 2 ≡ b % 2 = omega arith in e) refl
test_bit-set_ne (suc k) (suc j) b ne =
    let e : (set_bit (b / 2) k * 2 + b % 2) / 2 ≡ set_bit (b / 2) k = omega arith in
    rw e (test_bit-set_ne k j (b / 2) (λ h. ne (ap suc h)))

pub test_bit-clear_ne : (k j b : ℕ) → k ≢ j → test_bit (clear_bit b k) j ≡ test_bit b j
unfolding test_bit clear_bit
test_bit-clear_ne zero zero b ne = absurd (ne refl)
test_bit-clear_ne zero (suc j) b ne = rw (let e : b / 2 * 2 / 2 ≡ b / 2 = omega arith in e) refl
test_bit-clear_ne (suc k) zero b ne =
    rw (let e : (clear_bit (b / 2) k * 2 + b % 2) % 2 ≡ b % 2 = omega arith in e) refl
test_bit-clear_ne (suc k) (suc j) b ne =
    let e : (clear_bit (b / 2) k * 2 + b % 2) / 2 ≡ clear_bit (b / 2) k = omega arith in
    rw e (test_bit-clear_ne k j (b / 2) (λ h. ne (ap suc h)))

-- A write below the width keeps the mask within it.
pub set_bit-lt : (w k b : ℕ) → k < w → b < 2 ^ w → set_bit b k < 2 ^ w
unfolding set_bit
set_bit-lt zero k b h lt = absurd (omega arith)
set_bit-lt (suc w) zero b h lt = omega (arith, pow-suc 2 w)
set_bit-lt (suc w) (suc k) b h lt =
    omega (arith, pow-suc 2 w, set_bit-lt w k (b / 2) (omega arith) (omega (arith, pow-suc 2 w)))

pub clear_bit-le : (k b : ℕ) → clear_bit b k ≤ b
unfolding clear_bit
clear_bit-le zero b = omega arith
clear_bit-le (suc k) b = omega (arith, clear_bit-le k (b / 2))

-- What `ones` lists: positions of the range that are ones.
abbrev pub IsOne : ℕ → ℕ → ℕ → ℕ → Type 0
IsOne w i b k = (i ≤ k) × (k < i + w) × (test_bit b (k - i) ≡ true)

IsOne-half : (w i b k : ℕ) → IsOne w (suc i) (b / 2) k → IsOne (suc w) i b k
unfolding test_bit
IsOne-half w i b k (lo, hi, one) =
    let e : k - i ≡ suc (k - suc i) = omega arith in (omega arith, omega arith, rw e one)

All-map {ℓ} :
    {A : Type ℓ} {P Q : A → Type 0} → ((a : A) → P a → Q a) → (l : List A) → All P l → All Q l
All-map f [] h = tt
All-map f (a ∷ l) h = (f a h.0, All-map f l h.1)

-- The listed positions are ones of the mask.
pub ones-IsOne : (w i b : ℕ) → All (IsOne w i b) (ones w i b)
unfolding ones
ones-IsOne zero i b = tt
ones-IsOne (suc w) i b =
    let rest = All-map (IsOne-half w i b) (ones w (suc i) (b / 2)) (ones-IsOne w (suc i) (b / 2)) in
    elim (Bool-cases (b % 2 == 1)) [
      | inl odd ↦
          let e : i - i ≡ 0 = omega arith in
          rw odd ((omega arith, omega arith, rw e (unfold test_bit in odd)), rest)
      | inr even ↦ rw even rest
    ]

-- Each one of the mask is listed.
pub ones_complete :
    (w i b k : ℕ)
    → k < w
    → test_bit b k ≡ true
    → (j : ℕ) × (get_elem? (ones w i b) j ≡ some (i + k))
unfolding ones test_bit
ones_complete zero i b k h one = absurd (omega arith)
ones_complete (suc w) i b zero h one = (0, rw one (ap some (omega arith)))
ones_complete (suc w) i b (suc k) h one =
    let (j, at) = ones_complete w (suc i) (b / 2) k (omega arith) one in
    let shift : suc i + k ≡ i + suc k = omega arith in
    elim (Bool-cases (b % 2 == 1)) [
      | inl odd ↦ (suc j, rw odd (at ∙ ap some shift))
      | inr even ↦ (j, rw even (at ∙ ap some shift))
    ]

-- A one above position 0 makes the mask at least 2.
pub test_bit-above : (b k : ℕ) → 0 < k → test_bit b k ≡ true → 1 < b
unfolding test_bit
test_bit-above b zero h one = elim h [ ]
test_bit-above b (suc k) h one = elim (Bool-cases (leb b 1)) [
  | inr large ↦ ground arith
  | inl small ↦
      let half : b / 2 ≡ 0 = ground arith in
      absurd (false≢true (sym (test_bit-zero k) ∙ sym (ap (λ n. test_bit n k) half) ∙ one))
]
