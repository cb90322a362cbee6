-- ===== src/Bits/Drain.antt =====
-- The positions that a loop over a mask visits, against the digits of the mask.
use virtio_forwarder.Prelude.{
  ℕ, zero, suc, ◌+◌, ◌-◌, ◌*◌, ◌/◌, ◌%◌, ◌^◌, ◌≤◌, ◌<◌, ◌≡◌, ◌≢◌, refl, sym, ap, ◌∙◌, false, [],
  ◌∷◌, ◌==◌, arith, length, inl, inr, Bool-cases,
}
use virtio_forwarder.Bits.{clear_bit, popcount, ffs, drain, ones}
use native.Mathlib.Nat.{pow-suc}

-- What the lowest one of a mask is, and what clearing it leaves.
abbrev Lowest : ℕ → ℕ → ℕ → Type 0
Lowest w i b =
    (v : ℕ) × (ffs w b ≡ suc v)
    × (ones w i b ≡ (i + v) ∷ ones w i (clear_bit b v))
    × (clear_bit b v < b)
    × (popcount w b ≡ suc (popcount w (clear_bit b v)))

Lowest-odd : (w i b : ℕ) → b % 2 ≡ 1 → Lowest (suc w) i b
unfolding ones ffs clear_bit popcount
Lowest-odd w i b e =
    let half : b / 2 * 2 / 2 ≡ b / 2 = omega arith in
    let even : b / 2 * 2 % 2 ≡ 0 = omega arith in
    (
      0,
      rw e refl,
      rw (e, half, even) (ap (λ n. n ∷ ones w (suc i) (b / 2)) (omega arith)),
      omega arith,
      rw (e, half, even) (omega arith),
    )

Lowest-even : (w i b : ℕ) → b % 2 ≡ 0 → b ≢ 0 → Lowest w (suc i) (b / 2) → Lowest (suc w) i b
unfolding ones ffs clear_bit popcount
Lowest-even w i b e ne (v, at, list, less, count) =
    let c = clear_bit (b / 2) v in
    let half : (c * 2 + b % 2) / 2 ≡ c = omega arith in
    let even : (c * 2 + b % 2) % 2 ≡ 0 = omega arith in
    (
      suc v,
      rw (e, at) (ground arith),
      rw (half, even, e, list) (ap (λ n. n ∷ ones w (suc i) c) (omega arith)),
      omega arith,
      rw (half, even, e) (omega arith),
    )

-- A set mask has a lowest one.
pub ones-Lowest : (w i b : ℕ) → b < 2 ^ w → b ≢ 0 → Lowest w i b
ones-Lowest zero i b h ne = absurd (ne (omega arith))
ones-Lowest (suc w) i b h ne = elim (Bool-cases (b % 2 == 1)) [
  | inl odd ↦ Lowest-odd w i b (ground arith)
  | inr even ↦
      Lowest-even w i b (ground arith) ne
        (ones-Lowest w (suc i) (b / 2) (omega (arith, pow-suc 2 w)) (ground arith))
]

ones-zero : (w i : ℕ) → ones w i 0 ≡ []
unfolding ones
ones-zero zero i = refl
ones-zero (suc w) i = ones-zero w (suc i)

pub popcount-zero : (w : ℕ) → popcount w 0 ≡ 0
unfolding popcount
popcount-zero zero = refl
popcount-zero (suc w) = omega (arith, popcount-zero w)

pub popcount-le : (w b : ℕ) → popcount w b ≤ w
unfolding popcount
popcount-le zero b = omega arith
popcount-le (suc w) b = omega (arith, popcount-le w (b / 2))

pub length-ones : (w i b : ℕ) → length (ones w i b) ≡ popcount w b
unfolding ones popcount
length-ones zero i b = refl
length-ones (suc w) i b = ground (arith, length-ones w (suc i) (b / 2))

drain_step :
    (f b v : ℕ)
    → (b == 0) ≡ false
    → ffs 64 b ≡ suc v
    → drain (suc f) b ≡ v ∷ drain f (clear_bit b v)
unfolding drain
drain_step f b v nz at = let e : suc v - 1 ≡ v = omega arith in rw (nz, at, e)

-- With a round for each one, the loop visits exactly the ones of the mask, upwards.
pub drain-eq-ones : (f b : ℕ) → b < 2 ^ 64 → popcount 64 b ≤ f → drain f b ≡ ones 64 0 b
drain-eq-ones zero b h fuel = elim (Bool-cases (b == 0)) [
  | inl z ↦ let e : b ≡ 0 = ground arith in rw e (unfold drain in sym (ones-zero 64 0))
  | inr nz ↦ let low = ones-Lowest 64 0 b h (ground arith) in absurd (omega arith)
]
drain-eq-ones (suc f) b h fuel = elim (Bool-cases (b == 0)) [
  | inl z ↦ let e : b ≡ 0 = ground arith in rw e (unfold drain in sym (ones-zero 64 0))
  | inr nz ↦ next (ones-Lowest 64 0 b h (ground arith)) nz (drain-eq-ones f)
]
  where
    next :
        Lowest 64 0 b
        → (b == 0) ≡ false
        → ((c : ℕ) → c < 2 ^ 64 → popcount 64 c ≤ f → drain f c ≡ ones 64 0 c)
        → drain (suc f) b ≡ ones 64 0 b
    next (v, at, list, less, count) nz ih =
        drain_step f b v nz at
        ∙ ap (λ l. v ∷ l) (ih (clear_bit b v) (omega arith) (omega arith))
        ∙ ap (λ n. n ∷ ones 64 0 (clear_bit b v)) (omega arith)
        ∙ sym list

-- A mask below 2 ^ w has at most w ones, however many digits are counted.
pub popcount_narrow : (n w b : ℕ) → b < 2 ^ w → popcount n b ≤ w
unfolding popcount
popcount_narrow zero w b h = omega arith
popcount_narrow (suc n) zero b h =
    let e : b ≡ 0 = omega arith in rw e (omega (arith, popcount-zero (suc n)))
popcount_narrow (suc n) (suc w) b h =
    omega (arith, popcount_narrow n w (b / 2) (omega (arith, pow-suc 2 w)))
