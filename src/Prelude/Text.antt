-- ===== src/Prelude/Text.antt =====
-- C strings, as lists of character codes without the final 0.
use Prim.Native.Nat.{ℕ}
use Prim.Native.Char.{code}
use Prim.Native.String.{String}
use mathlib.Core.Path.{◌≡◌, refl, subst}
use mathlib.Core.Logic.{◌↔◌}
use mathlib.Core.Bool.{Bool, true, false, ◌&&◌}
use mathlib.Core.List.{List, [], ◌∷◌, ◌++◌}
use native.Mathlib.Omega.{arith}
use virtio_forwarder.Prelude.Tests.{◌==◌}

abbrev pub Bytes : Type 0
Bytes = List ℕ

-- `strcmp(s, t) == 0`
unfoldable pub str_equal : Bytes → Bytes → Bool
str_equal [] [] = true
str_equal (c ∷ s) (d ∷ t) = c == d && str_equal s t
str_equal _ _ = false

pub str_equal_refl : (s : Bytes) → str_equal s s ≡ true
unfolding str_equal
str_equal_refl [] = refl
str_equal_refl (c ∷ s) = grind (arith, str_equal_refl s)

pub str_equal-eq : (s t : Bytes) → str_equal s t ≡ true → s ≡ t
unfolding str_equal
str_equal-eq [] [] h = refl
str_equal-eq [] (d ∷ t) h = cc
str_equal-eq (c ∷ s) [] h = cc
str_equal-eq (c ∷ s) (d ∷ t) h = grind (arith, str_equal-eq s t)

pub str_equal_iff : (s t : Bytes) → (str_equal s t ≡ true) ↔ (s ≡ t)
str_equal_iff s t = (str_equal-eq s t, λ e. subst (λ u. str_equal s u ≡ true) e (str_equal_refl s))

-- `strncmp(s, p, strlen(p)) == 0`
unfoldable pub starts_with : Bytes → Bytes → Bool
starts_with s [] = true
starts_with [] (d ∷ p) = false
starts_with (c ∷ s) (d ∷ p) = c == d && starts_with s p

pub starts_with-append : (p s : Bytes) → starts_with (p ++ s) p ≡ true
unfolding starts_with
starts_with-append [] s = refl
starts_with-append (c ∷ p) s = grind (arith, starts_with-append p s)

-- The character codes of a literal.
abbrev pub codes : String → Bytes
codes String.[] = []
codes (String.◌∷◌ c s) = code c ∷ codes s
