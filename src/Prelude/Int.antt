-- ===== src/Prelude/Int.antt =====
-- The C `int` of return codes: `negsuc n` is -(n + 1).
use Prim.Native.Nat.{ℕ}
use mathlib.Core.Path.{◌≡◌, refl}
use mathlib.Core.Bool.{Bool, true, false}

pub data ℤ : Type 0 where
  pos : ℕ → ℤ
  negsuc : ℕ → ℤ

-- `err != 0`, the test of every caller.
abbrev pub is_error : ℤ → Bool
is_error (pos ℕ.zero) = false
is_error (pos (ℕ.suc n)) = true
is_error (negsuc n) = true

pub is_error-eq-zero : (e : ℤ) → is_error e ≡ false → e ≡ pos 0
is_error-eq-zero (pos ℕ.zero) h = refl
is_error-eq-zero (pos (ℕ.suc n)) h = cc
is_error-eq-zero (negsuc n) h = cc
