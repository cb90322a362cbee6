-- ===== src/Ovsdb/Map/Strtol.antt =====
-- strtol of the C library with base 0 and a 64-bit `long`, as parse_map of ovsdb_mon.c uses it.
use virtio_forwarder.Prelude.{
  Option, some, none, ℕ, zero, suc, ◌+◌, ◌-◌, ◌*◌, ◌^◌, Bool, true, false, not, ◌&&◌, ◌||◌, [], ◌∷◌,
  ◌==◌, ltb, leb, if◌then◌else◌, Bytes,
}
use virtio_forwarder.Prelude.Int.{ℤ, pos, negsuc}
use virtio_forwarder.Sockets.Names.{skip_space}
use virtio_forwarder.Ovsdb.Buffer.{c_string}

-- The value of a digit, 36 for any other character.
unfoldable pub digit : ℕ → ℕ
digit c =
    if leb b'0' c && leb c b'9'
    then c - b'0'
    else if leb b'a' c && leb c b'z'
    then c - b'a' + 10
    else if leb b'A' c && leb c b'Z'
    then c - b'A' + 10
    else 36

-- The number that the digits at the front make, `n` being the number before them.
unfoldable pub number : (base : ℕ) → Bytes → ℕ → ℕ
unfolding digit
number base [] n = n
number base (c ∷ s) n =
    let rest = number base s (n * base + digit c) in if ltb (digit c) base then rest else n

unfoldable pub begins_with_digit : ℕ → Bytes → Bool
unfolding digit
begins_with_digit base [] = false
begins_with_digit base (c ∷ s) = ltb (digit c) base

-- The base and the digits, behind the sign: "0x" in front of a hexadecimal digit gives 16.
pub record Digits : Type 0 where
  pub base : ℕ
  pub digits : Bytes

unfoldable pub detect_base : Bytes → Digits
unfolding begins_with_digit
detect_base [] = record { base = 10; digits = [] }
detect_base (c ∷ []) = record { base = 10; digits = c ∷ [] }
detect_base (c ∷ d ∷ s) =
    if not (c == b'0')
    then record { base = 10; digits = c ∷ d ∷ s }
    else if (d == b'x' || d == b'X') && begins_with_digit 16 s
    then record { base = 16; digits = s }
    else record { base = 8; digits = c ∷ d ∷ s }

-- The value, `errno == ERANGE` and `endptr == val`.
pub record Converted : Type 0 where
  pub value : ℤ
  pub out_of_range : Bool
  pub no_digits : Bool

-- The integer -n.
abbrev pub negative : ℕ → ℤ
negative zero = pos zero
negative (suc n) = negsuc n

unfoldable pub convert : (minus : Bool) → Digits → Converted
unfolding number begins_with_digit
convert minus d =
    let n = number d.base d.digits 0 in
    if not (begins_with_digit d.base d.digits)
    then record { value = pos 0; out_of_range = false; no_digits = true }
    else if minus
    then (if ltb (2 ^ 63) n
        then record { value = negsuc (2 ^ 63 - 1); out_of_range = true; no_digits = false }
        else record { value = negative n; out_of_range = false; no_digits = false })
    else if ltb (2 ^ 63 - 1) n
    then record { value = pos (2 ^ 63 - 1); out_of_range = true; no_digits = false }
    else record { value = pos n; out_of_range = false; no_digits = false }

unfoldable pub signed : Bytes → Converted
unfolding convert detect_base
signed [] = convert false (detect_base [])
signed (c ∷ s) =
    if c == b'-'
    then convert true (detect_base s)
    else if c == b'+'
    then convert false (detect_base s)
    else convert false (detect_base (c ∷ s))

unfoldable pub strtol : Bytes → Converted
unfolding signed
strtol s = signed (skip_space s)

abbrev is_zero : ℤ → Bool
is_zero (pos n) = n == 0
is_zero (negsuc n) = false

abbrev is_limit : ℤ → Bool
is_limit (pos n) = n == 2 ^ 63 - 1
is_limit (negsuc n) = n == 2 ^ 63 - 1

-- `(errno == ERANGE && (id == LONG_MAX || id == LONG_MIN)) || (errno != 0 && id == 0)`: strtol sets
-- errno to no other value.
unfoldable pub is_range_error : Converted → Bool
is_range_error r = r.out_of_range && is_limit r.value || r.out_of_range && is_zero r.value

-- Whether the characters at hand stop the conversion, whatever lies behind them: one of them is no
-- digit, and they are not just "0x", which a hexadecimal digit would go on.
unfoldable pub has_other : ℕ → Bytes → Bool
unfolding digit
has_other base [] = false
has_other base (c ∷ s) = let rest = has_other base s in if ltb (digit c) base then rest else true

abbrev pub is_prefix_only : Bytes → Bool
is_prefix_only (c ∷ d ∷ []) = c == b'0' && (d == b'x' || d == b'X')
is_prefix_only _ = false

abbrev pub is_settled : Bytes → Bool
is_settled s = not (is_prefix_only s) && has_other (detect_base s).base (detect_base s).digits

unfoldable pub stops : Bytes → Bool
unfolding has_other detect_base
stops [] = false
stops (c ∷ s) = if c == b'-' || c == b'+' then is_settled s else is_settled (c ∷ s)

-- What strtol reads of an array: the string in it, or the characters that stop it; `none` if it
-- reads behind those that have been set.
abbrev pub text_or : Bytes → Option Bytes → Option Bytes
text_or val (some s) = some s
text_or val none = if stops (skip_space val) then some val else none

unfoldable pub strtol_text : Bytes → Option Bytes
unfolding stops
strtol_text val = text_or val (c_string val)
