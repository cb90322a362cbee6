-- ===== src/Ovsdb/Map/Words.antt =====
-- The keys and values that OVSDB prints are scanned by parse_map as they were.
use virtio_forwarder.Prelude.{
  ℕ, Bool, true, false, not, ◌&&◌, ◌||◌, some, [], ◌∷◌, ◌++◌, ◌==◌, if◌then◌else◌, All, Bytes, ◌≡◌,
  ◌≢◌, refl, ap, ◌∙◌, arith, Bool-cases, inl, inr,
}
use virtio_forwarder.Sockets.Names.{skip_space, is_space}
use virtio_forwarder.Ovsdb.Buffer.{IsText}
use virtio_forwarder.Ovsdb.Quote.{escaped}
use virtio_forwarder.Ovsdb.Map.{put, quoted_word, bare_word, scan_word}

-- A key or a value, with quotes or without.
pub record Atom : Type 0 where
  pub quoted : Bool
  pub text : Bytes

abbrev pub print_atom : Atom → Bytes → Bytes
print_atom a rest = if a.quoted then b'"' ∷ escaped a.text rest else a.text ++ rest

-- The characters that need no quotes.
abbrev pub is_plain : ℕ → Bool
is_plain c =
    not (is_space c)
    && not (c == 0)
    && not (c == b'=')
    && not (c == b',')
    && not (c == b'}')
    && not (c == b'"')

-- An atom without quotes consists of such characters.
pub record IsAtom (a : Atom) : Type 0 where
  pub text : IsText a.text
  pub bare : a.quoted ≡ false → All (λ c. is_plain c ≡ true) a.text

quoted_word-end :
    (rest : Bytes)
    → quoted_word (b'"' ∷ rest) ≡ some (record { text = []; closed = true; rest = rest })
unfolding quoted_word
quoted_word-end [] = refl
quoted_word-end (d ∷ s) = refl

quoted_word-escape : (c : ℕ) (t : Bytes) → quoted_word (b'\\' ∷ c ∷ t) ≡ put c (quoted_word t)
unfolding quoted_word
quoted_word-escape c t = refl

quoted_word-cons :
    (c : ℕ) (t : Bytes)
    → c ≢ 0
    → (c == b'"' || c == b'\\') ≡ false
    → quoted_word (c ∷ t) ≡ put c (quoted_word t)
unfolding quoted_word
quoted_word-cons c [] h k = ground arith
quoted_word-cons c (d ∷ t) h k = ground arith

quoted_word-escaped :
    (s rest : Bytes)
    → IsText s
    → quoted_word (escaped s rest) ≡ some (record { text = s; closed = true; rest = rest })
quoted_word-escaped [] rest h = quoted_word-end rest
quoted_word-escaped (c ∷ s) rest h = elim (Bool-cases (c == b'"' || c == b'\\')) [
  | inl e ↦
      rw e (quoted_word-escape c (escaped s rest) ∙ ap (put c) (quoted_word-escaped s rest h.1))
  | inr e ↦
      rw e (quoted_word-cons c (escaped s rest) h.0 e ∙ ap (put c) (quoted_word-escaped s rest h.1))
]

bare_word-plain :
    (ends : ℕ → Bool) (s : Bytes) (c : ℕ) (rest : Bytes)
    → All (λ d. is_plain d ≡ true) s
    → ((d : ℕ) → is_plain d ≡ true → ends d ≡ false)
    → ends c ≡ true
    → bare_word ends (s ++ (c ∷ rest)) ≡ some (record { text = s; closed = true; rest = c ∷ rest })
unfolding bare_word
bare_word-plain ends [] c rest h k e = ground arith
bare_word-plain ends (d ∷ s) c rest h k e =
    ground (arith, k d h.0, bare_word-plain ends s c rest h.1 k e)

scan_word-bare :
    (ends : ℕ → Bool) (s : Bytes) (c : ℕ) (rest : Bytes)
    → All (λ d. is_plain d ≡ true) s
    → c ≢ b'"'
    → scan_word ends (s ++ (c ∷ rest)) ≡ bare_word ends (s ++ (c ∷ rest))
unfolding scan_word
scan_word-bare ends [] c rest h k = ground arith
scan_word-bare ends (d ∷ s) c rest h k = ground arith

-- An atom is scanned up to the character behind it.
pub scan_word-atom :
    (ends : ℕ → Bool) (a : Atom) (c : ℕ) (rest : Bytes)
    → IsAtom a
    → ((d : ℕ) → is_plain d ≡ true → ends d ≡ false)
    → ends c ≡ true
    → c ≢ b'"'
    → scan_word ends (print_atom a (c ∷ rest))
      ≡ some (record { text = a.text; closed = true; rest = c ∷ rest })
unfolding scan_word
scan_word-atom ends a c rest h k e n = elim (Bool-cases a.quoted) [
  | inl q ↦ rw q (quoted_word-escaped a.text (c ∷ rest) h.text)
  | inr q ↦ rw q (
      scan_word-bare ends a.text c rest (h.bare q) n
      ∙ bare_word-plain ends a.text c rest (h.bare q) k e)
]

skip-plain :
    (s : Bytes) (c : ℕ) (rest : Bytes)
    → All (λ d. is_plain d ≡ true) s
    → is_space c ≡ false
    → skip_space (s ++ (c ∷ rest)) ≡ s ++ (c ∷ rest)
unfolding skip_space
skip-plain [] c rest h e = ground arith
skip-plain (d ∷ s) c rest h e = ground arith

-- No space stands in front of it.
pub skip_space-atom :
    (a : Atom) (c : ℕ) (rest : Bytes)
    → IsAtom a
    → is_space c ≡ false
    → skip_space (print_atom a (c ∷ rest)) ≡ print_atom a (c ∷ rest)
unfolding skip_space
skip_space-atom a c rest h e = elim (Bool-cases a.quoted) [
  | inl q ↦ rw q refl
  | inr q ↦ rw q (skip-plain a.text c rest (h.bare q) e)
]
