-- ===== src/Ovsdb/Buffer.antt =====
-- The `char` arrays of ovsdb_mon.c. All of them are filled from the front, so an array is the list
-- of the characters that have been set; what lies behind them is not initialised.
use virtio_forwarder.Prelude.{
  Option, none, some, [], ◌∷◌, ◌++◌, ◌≡◌, ◌≢◌, refl, ap, ◌∙◌, arith, ◌==◌, if◌then◌else◌, length,
  drop, and_then, All, Bytes, append_assoc,
}

-- The array after its first characters have been written.
unfoldable pub overwrite : Bytes → Bytes → Bytes
overwrite s old = s ++ drop (length s) old

-- The C string at the front of an array, without its terminator; there is none where no terminator
-- has been set.
unfoldable pub c_string : Bytes → Option Bytes
c_string [] = none
c_string (c ∷ s) =
    let rest = and_then (c_string s) (λ t. some (c ∷ t)) in if c == 0 then some [] else rest

-- A string holds no terminator.
abbrev pub IsText : Bytes → Type 0
IsText = All (λ c. c ≢ 0)

pub c_string-append : (s rest : Bytes) → IsText s → c_string (s ++ (0 ∷ rest)) ≡ some s
unfolding c_string
c_string-append [] rest h = refl
c_string-append (c ∷ s) rest h = ground (arith, c_string-append s rest, h.0)

pub c_string-overwrite :
    (s old : Bytes) → IsText s → c_string (overwrite (s ++ 0 ∷ []) old) ≡ some s
unfolding overwrite
c_string-overwrite s old h =
    ap c_string (append_assoc s (0 ∷ []) (drop (length (s ++ 0 ∷ [])) old))
    ∙ c_string-append s (drop (length (s ++ 0 ∷ [])) old) h
