-- ===== src/Scan.antt =====
-- What the sources use of the C library to take strings apart: conversions of sscanf and strtoul,
-- strtok, strspn, strstr.
use virtio_forwarder.Prelude.{
  ℕ, zero, suc, ◌-◌, ◌^◌, ◌%◌, Bool, true, false, not, ◌&&◌, Option, none, some, List, [], ◌∷◌,
  ◌++◌, ◌==◌, leb, if◌then◌else◌, Bytes, drop, starts_with, length,
}
use virtio_forwarder.Sockets.Names.{skip_space, is_space, is_digit, digits_value}

-- A converted value, and what is left of the input.
pub record Scanned (A : Type 0) : Type 0 where
  pub value : A
  pub rest : Bytes

unfoldable pub skip_digits : Bytes → Bytes
skip_digits [] = []
skip_digits (c ∷ s) = let rest = skip_digits s in if is_digit c then rest else c ∷ s

abbrev pub head_digit : Bytes → Bool
head_digit [] = false
head_digit (c ∷ s) = is_digit c

-- The digits behind the sign, as an `unsigned long`; there is no value without a digit.
unfoldable pub scan_digits : (minus : Bool) → Bytes → Option (Scanned ℕ)
unfolding skip_digits
scan_digits minus s =
    let n = digits_value s 0 in
    if not (head_digit s)
    then none
    else if leb (2 ^ 64) n
    then some (record { value = 2 ^ 64 - 1; rest = skip_digits s })
    else if minus
    then some (record { value = (2 ^ 64 - n) % 2 ^ 64; rest = skip_digits s })
    else some (record { value = n; rest = skip_digits s })

unfoldable pub scan_signed : Bytes → Option (Scanned ℕ)
unfolding scan_digits
scan_signed [] = none
scan_signed (c ∷ s) =
    if c == b'-'
    then scan_digits true s
    else if c == b'+'
    then scan_digits false s
    else scan_digits false (c ∷ s)

-- "%u" of sscanf and strtoul(s, &end, 10), before the value is stored in the type asked for.
unfoldable pub scan_unsigned : Bytes → Option (Scanned ℕ)
unfolding scan_signed
scan_unsigned s = scan_signed (skip_space s)

-- A literal character of the format.
unfoldable pub scan_char : ℕ → Bytes → Option Bytes
scan_char c [] = none
scan_char c (d ∷ s) = if d == c then some s else none

-- "%<max>s" of sscanf, behind the white space.
unfoldable pub take_word : (max : ℕ) → Bytes → Scanned Bytes
take_word zero s = record { value = []; rest = s }
take_word (suc max) [] = record { value = []; rest = [] }
take_word (suc max) (c ∷ s) =
    let r = take_word max s in
    if is_space c
    then record { value = []; rest = c ∷ s }
    else record { value = c ∷ r.value; rest = r.rest }

unfoldable pub scan_word : (max : ℕ) → Bytes → Option (Scanned Bytes)
unfolding take_word
scan_word max s =
    let r = take_word max (skip_space s) in if length r.value == 0 then none else some r

-- strstr(s, t), with the position behind `t`.
unfoldable pub behind_text : (t s : Bytes) → Option Bytes
behind_text t [] = if starts_with [] t then some (drop (length t) []) else none
behind_text t (c ∷ s) =
    let rest = behind_text t s in
    if starts_with (c ∷ s) t then some (drop (length t) (c ∷ s)) else rest

-- strlen(s) == strspn(s, accepted)
unfoldable pub spans : (accepted : ℕ → Bool) → Bytes → Bool
spans accepted [] = true
spans accepted (c ∷ s) = accepted c && spans accepted s

-- The characters up to a separator.
unfoldable pub before : ℕ → Bytes → Bytes
before sep [] = []
before sep (c ∷ s) = let rest = c ∷ before sep s in if c == sep then [] else rest

-- The tokens that strtok gives one after the other: separators in a row count as one. `token` is
-- what has been read of the current one.
unfoldable pub tokens_from : ℕ → (token : Bytes) → Bytes → List Bytes
tokens_from sep token [] = if length token == 0 then [] else token ∷ []
tokens_from sep token (c ∷ s) =
    let rest = tokens_from sep [] s in
    let longer = tokens_from sep (token ++ c ∷ []) s in
    if not (c == sep) then longer else if length token == 0 then rest else token ∷ rest

unfoldable pub tokens : ℕ → Bytes → List Bytes
unfolding tokens_from
tokens sep s = tokens_from sep [] s
