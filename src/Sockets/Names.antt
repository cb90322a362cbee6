-- ===== src/Sockets/Names.antt =====
-- The names of the default sockets (virtio_vhostuser.c): a prefix, the id of the relay in decimal,
-- and a suffix. The C library's strspn and atoi are written out, atoi as glibc has it.
pub mod RoundTrip
use virtio_forwarder.Prelude.{
  ℕ, zero, suc, ◌+◌, ◌-◌, ◌*◌, ◌/◌, ◌%◌, ◌^◌, min, Bool, true, false, not, ◌&&◌, ◌||◌, Option, none,
  some, List, [], ◌∷◌, ◌++◌, ◌==◌, ltb, leb, if◌then◌else◌, length, take, drop, Bytes, str_equal,
  starts_with,
}

abbrev pub is_digit : ℕ → Bool
is_digit c = leb 48 c && leb c 57

-- "%u" of an `unsigned`, which has ten digits at most: the last digit is put in front of `out`.
unfoldable pub print_digits : (rounds n : ℕ) → Bytes → Bytes
print_digits zero n out = out
print_digits (suc k) n out =
    let rest = print_digits k (n / 10) ((48 + n % 10) ∷ out) in
    if ltb n 10 then (48 + n % 10) ∷ out else rest

unfoldable pub print_unsigned : ℕ → Bytes
print_unsigned n = print_digits 10 (n % 2 ^ 32) []

-- The number that the digits at the front make, `n` being the number before them.
unfoldable pub digits_value : Bytes → ℕ → ℕ
digits_value [] n = n
digits_value (c ∷ s) n =
    let rest = digits_value s (n * 10 + (c - 48)) in if is_digit c then rest else n

abbrev pub is_space : ℕ → Bool
is_space c = c == 32 || leb 9 c && leb c 13

unfoldable pub skip_space : Bytes → Bytes
skip_space [] = []
skip_space (c ∷ s) = let rest = skip_space s in if is_space c then rest else c ∷ s

-- What is behind the spaces: a sign, and a `long`, which strtol keeps in its range.
unfoldable pub signed_value : Bytes → ℕ
signed_value [] = 0
signed_value (c ∷ s) =
    if c == 45
    then 2 ^ 64 - min (digits_value s 0) (2 ^ 63)
    else if c == 43
    then min (digits_value s 0) (2 ^ 63 - 1)
    else min (digits_value (c ∷ s) 0) (2 ^ 63 - 1)

-- `unsigned id = atoi(s);`
unfoldable pub atoi : Bytes → ℕ
atoi s = signed_value (skip_space s) % 2 ^ 32

-- strspn(s, "0123456789")
unfoldable pub digits_span : Bytes → ℕ
digits_span [] = 0
digits_span (c ∷ s) = let rest = digits_span s in if is_digit c then suc rest else 0

-- virtio_vhostuser_id_to_name: snprintf into `namesz` bytes.
unfoldable pub virtio_vhostuser_id_to_name : (prefix suffix : Bytes) → (id namesz : ℕ) → Bytes
virtio_vhostuser_id_to_name prefix suffix id namesz =
    take (namesz - 1) (prefix ++ (print_unsigned id ++ suffix))

-- virtio_vhostuser_name_to_id: `none` is -1.
unfoldable pub virtio_vhostuser_name_to_id :
    (prefix suffix : Bytes) → (max_relays : ℕ) → Bytes → Option ℕ
virtio_vhostuser_name_to_id prefix suffix max_relays name =
    if ltb (length name) (length prefix + length suffix + 1)
    then none
    else if not (starts_with name prefix)
    then none
    else if not (length suffix == 0)
        && not (str_equal (drop (length name - length suffix) name) suffix)
    then none
    else if ltb (length name) (length prefix + digits_span (drop (length prefix) name))
    then none
    else let id = atoi (drop (length prefix) name) in if ltb id max_relays then some id else none
