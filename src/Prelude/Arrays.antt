-- ===== src/Prelude/Arrays.antt =====
-- A loop that writes consecutive cells of a C array.
use Prim.Native.Nat.{ℕ, zero, suc, ◌+◌, ◌≤◌, ◌<◌}
use mathlib.Core.Path.{◌≡◌, refl, sym, ◌∙◌, ap}
use mathlib.Core.List.{List, [], ◌∷◌, ◌++◌, append_assoc}
use native.Mathlib.Omega.{arith}
use virtio_forwarder.Prelude.Lists.{
  length, set, take, drop, length-set, length-take, take-append-drop, take-length-append,
}

-- `for (each x) a[i++] = x;` from index `i` on.
unfoldable pub write_at {ℓ} : {A : Type ℓ} → List A → ℕ → List A → List A
write_at arr i [] = arr
write_at arr i (x ∷ xs) = write_at (set arr i x) (i + 1) xs

module _ {ℓ} {A : Type ℓ} where
  take-set :
      (arr : List A) (i : ℕ) (v : A)
      → i < length arr
      → take (suc i) (set arr i v) ≡ take i arr ++ v ∷ []
  take-set [] i v h = elim h [ ]
  take-set (x ∷ arr) zero v h = refl
  take-set (x ∷ arr) (suc i) v h = ap (λ l. x ∷ l) (take-set arr i v (omega arith))

  drop-set : (arr : List A) (i j : ℕ) (v : A) → i < j → drop j (set arr i v) ≡ drop j arr
  drop-set [] i j v h = refl
  drop-set (x ∷ arr) i zero v h = elim h [ ]
  drop-set (x ∷ arr) zero (suc j) v h = refl
  drop-set (x ∷ arr) (suc i) (suc j) v h = drop-set arr i j v (omega arith)

  -- The cells before the run and behind it stay.
  pub write_at_lem :
      (arr : List A) (i : ℕ) (xs : List A)
      → i + length xs ≤ length arr
      → write_at arr i xs ≡ take i arr ++ (xs ++ drop (i + length xs) arr)
  unfolding write_at
  write_at_lem arr i [] h =
      sym (take-append-drop i arr) ∙ ap (λ n. take i arr ++ drop n arr) (omega arith)
  write_at_lem arr i (x ∷ xs) h =
      write_at_lem (set arr i x) (i + 1) xs (omega (arith, length-set arr i x))
      ∙ ap (λ n. take n (set arr i x) ++ (xs ++ drop (i + 1 + length xs) (set arr i x))) {y = suc i}
          (omega arith)
      ∙ ap (λ l. l ++ (xs ++ drop (i + 1 + length xs) (set arr i x)))
          (take-set arr i x (omega arith))
      ∙ ap (λ l. (take i arr ++ x ∷ []) ++ (xs ++ l))
          (drop-set arr i (i + 1 + length xs) x (omega arith))
      ∙ ap (λ n. (take i arr ++ x ∷ []) ++ (xs ++ drop n arr)) (omega arith)
      ∙ append_assoc (take i arr) (x ∷ []) (xs ++ drop (i + suc (length xs)) arr)

  drop-length-append : (xs ys : List A) → drop (length xs) (xs ++ ys) ≡ ys
  drop-length-append [] ys = refl
  drop-length-append (x ∷ xs) ys = drop-length-append xs ys

  -- What was written is read back.
  pub read-write_at :
      (arr : List A) (i : ℕ) (xs : List A)
      → i + length xs ≤ length arr
      → take (length xs) (drop i (write_at arr i xs)) ≡ xs
  read-write_at arr i xs h =
      ap (λ l. take (length xs) (drop i l)) (write_at_lem arr i xs h)
      ∙ ap (λ n. take (length xs) (drop n (take i arr ++ (xs ++ drop (i + length xs) arr))))
          {y = length (take i arr)} (omega (arith, length-take i arr))
      ∙ ap (take (length xs)) (drop-length-append (take i arr) (xs ++ drop (i + length xs) arr))
      ∙ take-length-append xs (drop (i + length xs) arr)

  pub length-write_at :
      (arr : List A) (i : ℕ) (xs : List A) → length (write_at arr i xs) ≡ length arr
  unfolding write_at
  length-write_at arr i [] = refl
  length-write_at arr i (x ∷ xs) = length-write_at (set arr i x) (i + 1) xs ∙ length-set arr i x

  -- One run after another is one run.
  pub write_at-append :
      (arr : List A) (i : ℕ) (xs ys : List A)
      → write_at (write_at arr i xs) (i + length xs) ys ≡ write_at arr i (xs ++ ys)
  unfolding write_at
  write_at-append arr i [] ys = ap (λ n. write_at arr n ys) (omega arith)
  write_at-append arr i (x ∷ xs) ys =
      ap (λ n. write_at (write_at (set arr i x) (i + 1) xs) n ys) (omega arith)
      ∙ write_at-append (set arr i x) (i + 1) xs ys
