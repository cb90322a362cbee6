-- ===== src/Sockets/Names/RoundTrip.antt =====
-- The id that a default socket name was made of is read back from it.
use virtio_forwarder.Prelude.{
  ℕ, zero, suc, ◌+◌, ◌-◌, ◌*◌, ◌/◌, ◌%◌, ◌^◌, ◌<◌, ◌≤◌, min, Bool, true, false, some, [], ◌∷◌, ◌++◌,
  length, drop, Bytes, ◌≡◌, refl, take-all, drop-length-append, append_assoc, ap, ◌∙◌, sym, arith,
  length-append, starts_with-append, str_equal_refl,
}
use virtio_forwarder.Sockets.Names.{
  print_digits, print_unsigned, digits_value, skip_space, signed_value, atoi, digits_span, is_digit,
  virtio_vhostuser_id_to_name, virtio_vhostuser_name_to_id,
}

pow_suc : (k : ℕ) → 10 ^ suc k ≡ 10 * 10 ^ k
pow_suc k = omega arith

digits_value-last :
    (n : ℕ) (out : Bytes) → digits_value ((48 + n % 10) ∷ out) (n / 10) ≡ digits_value out n
unfolding digits_value
digits_value-last n out = ground arith

digits_value-one :
    (n : ℕ) (out : Bytes) → n < 10 → digits_value ((48 + n % 10) ∷ out) 0 ≡ digits_value out n
unfolding digits_value
digits_value-one n out h = ground arith

digits_value-print :
    (k n : ℕ) (out : Bytes)
    → n < 10 ^ suc k
    → digits_value (print_digits (suc k) n out) 0 ≡ digits_value out n
unfolding print_digits
digits_value-print zero n out h = ground (arith, digits_value-one n out)
digits_value-print (suc k) n out h = grind (
  arith,
  digits_value-one n out,
  digits_value-last n out,
  digits_value-print k (n / 10) ((48 + n % 10) ∷ out),
  pow_suc (suc k),
)

-- Whether a digit stands in front.
abbrev pub head_digit : Bytes → Bool
head_digit [] = false
head_digit (c ∷ s) = is_digit c

print_digits-digit :
    (k n : ℕ) (out : Bytes) → head_digit out ≡ true → head_digit (print_digits k n out) ≡ true
unfolding print_digits
print_digits-digit zero n out h = h
print_digits-digit (suc k) n out h =
    ground (arith, print_digits-digit k (n / 10) ((48 + n % 10) ∷ out))

print-digit : (k n : ℕ) (out : Bytes) → head_digit (print_digits (suc k) n out) ≡ true
unfolding print_digits
print-digit k n out = ground (arith, print_digits-digit k (n / 10) ((48 + n % 10) ∷ out))

head_digit-append : (s t : Bytes) → head_digit s ≡ true → head_digit (s ++ t) ≡ true
head_digit-append [] t h = cc
head_digit-append (c ∷ s) t h = h

atoi-digits :
    (s : Bytes) → head_digit s ≡ true → atoi s ≡ min (digits_value s 0) (2 ^ 63 - 1) % 2 ^ 32
unfolding atoi skip_space signed_value
atoi-digits [] h = cc
atoi-digits (c ∷ s) h = ground arith

-- The digits in front of a suffix that begins with none.
digits_value-stop : (s : Bytes) (n : ℕ) → head_digit s ≡ false → digits_value s n ≡ n
unfolding digits_value
digits_value-stop [] n h = refl
digits_value-stop (c ∷ s) n h = ground arith

print_digits-append :
    (k n : ℕ) (out s : Bytes) → print_digits k n out ++ s ≡ print_digits k n (out ++ s)
unfolding print_digits
print_digits-append zero n out s = refl
print_digits-append (suc k) n out s =
    ground (arith, print_digits-append k (n / 10) ((48 + n % 10) ∷ out) s)

print_unsigned-append :
    (id : ℕ) (s : Bytes) → id < 2 ^ 32 → print_unsigned id ++ s ≡ print_digits 10 id s
unfolding print_unsigned
print_unsigned-append id s h =
    rw (ap (λ n. print_digits 10 n [] ++ s) (small id h)) (print_digits-append 10 id [] s)
  where
    small : (n : ℕ) → n < 2 ^ 32 → n % 2 ^ 32 ≡ n
    small n h = omega arith

fits_long : (id : ℕ) → id < 2 ^ 32 → min id (2 ^ 63 - 1) % 2 ^ 32 ≡ id
fits_long id h = omega arith

-- atoi reads the id that "%u" prints.
pub atoi-print :
    (id : ℕ) (suffix : Bytes)
    → id < 2 ^ 32
    → head_digit suffix ≡ false
    → atoi (print_unsigned id ++ suffix) ≡ id
atoi-print id suffix h stop =
    ap atoi (print_unsigned-append id suffix h)
    ∙ atoi-digits (print_digits 10 id suffix) (print-digit 9 id suffix)
    ∙ ap (λ n. min n (2 ^ 63 - 1) % 2 ^ 32)
        (digits_value-print 9 id suffix (omega arith) ∙ digits_value-stop suffix id stop)
    ∙ fits_long id h

length-print_digits : (k n : ℕ) (out : Bytes) → length (print_digits k n out) ≤ k + length out
unfolding print_digits
length-print_digits zero n out = omega arith
length-print_digits (suc k) n out =
    ground (arith, length-print_digits k (n / 10) ((48 + n % 10) ∷ out))

head_digit-nonempty : (s : Bytes) → head_digit s ≡ true → 0 < length s
head_digit-nonempty [] h = cc
head_digit-nonempty (c ∷ s) h = omega arith

length-print_unsigned :
    (id : ℕ) → (0 < length (print_unsigned id)) × (length (print_unsigned id) ≤ 10)
unfolding print_unsigned
length-print_unsigned id = (
  head_digit-nonempty _ (print-digit 9 (id % 2 ^ 32) []),
  length-print_digits 10 (id % 2 ^ 32) [],
)

digits_span-length : (s : Bytes) → digits_span s ≤ length s
unfolding digits_span
digits_span-length [] = omega arith
digits_span-length (c ∷ s) = ground (arith, digits_span-length s)

-- A prefix and a suffix that fit their buffers of 128 bytes give a name that the buffer of 266
-- bytes holds whole.
pub id_to_name-whole :
    (prefix suffix : Bytes) (id : ℕ)
    → length prefix < 128
    → length suffix < 128
    → virtio_vhostuser_id_to_name prefix suffix id 266 ≡ prefix ++ (print_unsigned id ++ suffix)
unfolding virtio_vhostuser_id_to_name
id_to_name-whole prefix suffix id hp hs = take-all 265 _ (
    omega (
      arith,
      length-append prefix (print_unsigned id ++ suffix),
      length-append (print_unsigned id) suffix,
      (length-print_unsigned id).1,
    ))

-- name_to_id on a name in its three parts.
name_to_id-parts :
    (prefix body suffix : Bytes) (max_relays id : ℕ)
    → 0 < length body
    → atoi (body ++ suffix) ≡ id
    → id < max_relays
    → virtio_vhostuser_name_to_id prefix suffix max_relays (prefix ++ (body ++ suffix)) ≡ some id
unfolding virtio_vhostuser_name_to_id
name_to_id-parts prefix body suffix max_relays id h e lt = grind (
  arith,
  starts_with-append prefix (body ++ suffix),
  length-append prefix (body ++ suffix),
  length-append body suffix,
  drop-length-append prefix (body ++ suffix),
  drop_suffix,
  digits_span-length (body ++ suffix),
  str_equal_refl suffix,
)
  where
    drop_suffix :
        drop (length (prefix ++ (body ++ suffix)) - length suffix) (prefix ++ (body ++ suffix))
        ≡ suffix
    drop_suffix =
        ap (λ k. drop k (prefix ++ (body ++ suffix)))
          (omega (
            arith,
            length-append prefix (body ++ suffix),
            length-append body suffix,
            length-append prefix body,
          ))
        ∙ ap (drop (length (prefix ++ body))) (sym (append_assoc prefix body suffix))
        ∙ drop-length-append (prefix ++ body) suffix

-- The id of a relay below MAX_RELAYS is read back from the name of its default socket, if the
-- prefix and the suffix fit their buffers and the suffix does not begin with a digit.
pub name_to_id-id_to_name :
    (prefix suffix : Bytes) (max_relays id : ℕ)
    → length prefix < 128
    → length suffix < 128
    → head_digit suffix ≡ false
    → max_relays ≤ 2 ^ 32
    → id < max_relays
    → virtio_vhostuser_name_to_id prefix suffix max_relays
        (virtio_vhostuser_id_to_name prefix suffix id 266)
      ≡ some id
name_to_id-id_to_name prefix suffix max_relays id hp hs stop hm lt =
    ap (virtio_vhostuser_name_to_id prefix suffix max_relays)
      (id_to_name-whole prefix suffix id hp hs)
    ∙ name_to_id-parts prefix (print_unsigned id) suffix max_relays id (length-print_unsigned id).0
        (atoi-print id suffix (omega arith) stop) lt
