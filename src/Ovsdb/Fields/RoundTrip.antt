-- ===== src/Ovsdb/Fields/RoundTrip.antt =====
-- What the CSV format and OVSDB's quoting print is read back.
use virtio_forwarder.Prelude.{
  ℕ, true, ◌||◌, some, [], ◌∷◌, ◌++◌, ◌==◌, if◌then◌else◌, All, and_then, Bytes, ◌≡◌, ◌≢◌, refl, ap,
  sym, ◌∙◌, arith, Bool-cases, ==_iff, inl, inr,
}
use virtio_forwarder.Ovsdb.Buffer.{overwrite, c_string, c_string-append, IsText}
use virtio_forwarder.Ovsdb.Quote.{escaped, escaped-All}
use virtio_forwarder.Ovsdb.Fields.{
  put, quoted_field, unquoted_field, scan_field, extract_field, unquote_loop, unquote,
}

-- A field in quotes, as CSV has it: a quote inside is doubled. `rest` stands behind the field.
abbrev pub csv_chars : Bytes → Bytes → Bytes
csv_chars [] rest = b'"' ∷ rest
csv_chars (c ∷ s) rest = if c == b'"' then b'"' ∷ b'"' ∷ csv_chars s rest else c ∷ csv_chars s rest

abbrev pub csv_quoted : Bytes → Bytes → Bytes
csv_quoted s rest = b'"' ∷ csv_chars s rest

-- A field of characters that need no quotes.
abbrev pub FieldChar : ℕ → Type 0
FieldChar c = (c ≢ 0) × (c ≢ b'\n') × (c ≢ b',') × (c ≢ b'"')

abbrev pub IsBare : Bytes → Type 0
IsBare = All FieldChar

quoted_field-cons :
    (c : ℕ) (t : Bytes) → c ≢ 0 → c ≢ b'"' → quoted_field (c ∷ t) ≡ put c (quoted_field t)
unfolding quoted_field
quoted_field-cons c [] h k = ground arith
quoted_field-cons c (d ∷ t) h k = ground arith

quoted_field-pair : (t : Bytes) → quoted_field (b'"' ∷ b'"' ∷ t) ≡ put b'"' (quoted_field t)
unfolding quoted_field
quoted_field-pair t = refl

quoted_field-end :
    (sep : ℕ) (rest : Bytes)
    → (sep == 0 || sep == b',') ≡ true
    → quoted_field (b'"' ∷ sep ∷ rest) ≡ some (record { text = []; terminated = true; rest = rest })
unfolding quoted_field
quoted_field-end sep rest k = ground arith

quoted_field-csv :
    (s : Bytes) (sep : ℕ) (rest : Bytes)
    → IsText s
    → (sep == 0 || sep == b',') ≡ true
    → quoted_field (csv_chars s (sep ∷ rest))
      ≡ some (record { text = s; terminated = true; rest = rest })
quoted_field-csv [] sep rest h k = quoted_field-end sep rest k
quoted_field-csv (c ∷ s) sep rest h k = elim (Bool-cases (c == b'"')) [
  | inl e ↦ rw e (
      quoted_field-pair (csv_chars s (sep ∷ rest))
      ∙ ap (put b'"') (quoted_field-csv s sep rest h.1 k)
      ∙ ap (λ d. some (record { text = d ∷ s; terminated = true; rest = rest }))
          (sym ((==_iff c b'"').0 e)))
  | inr e ↦ rw e (
      quoted_field-cons c (csv_chars s (sep ∷ rest)) h.0 (λ p. ground arith)
      ∙ ap (put c) (quoted_field-csv s sep rest h.1 k))
]

-- The buffer has a terminator somewhere behind the field.
c_string-csv :
    (s rest : Bytes)
    → IsText s
    → (u : Bytes) → c_string rest ≡ some u
    → (v : Bytes) × (c_string (csv_chars s rest) ≡ some v)
unfolding c_string
c_string-csv [] rest h u e = (b'"' ∷ u, ground arith)
c_string-csv (c ∷ s) rest h u e =
    let (v, f) = c_string-csv s rest h.1 u e in
    (if c == b'"' then b'"' ∷ b'"' ∷ v else c ∷ v, ground (arith, h.0))

-- A quoted field is read back, and the rest of the row is left.
pub extract_field-csv_quoted :
    (s : Bytes) (sep : ℕ) (rest field : Bytes) (u : Bytes)
    → IsText s
    → (sep == 0 || sep == b',') ≡ true
    → c_string (sep ∷ rest) ≡ some u
    → extract_field (csv_quoted s (sep ∷ rest)) field ≡ some (overwrite (s ++ 0 ∷ []) field, rest)
unfolding extract_field
extract_field-csv_quoted s sep rest field u h k e =
    let (v, f) = c_string-csv s (sep ∷ rest) h u e in
    rw (f, and_then) (rw (quoted_field-csv s sep rest h k) refl)

unquoted_field-bare :
    (s : Bytes) (sep : ℕ) (rest : Bytes)
    → IsBare s
    → (sep == b',' || sep == 0) ≡ true
    → unquoted_field (s ++ (sep ∷ rest))
      ≡ some (record { text = s; terminated = true; rest = rest })
unfolding unquoted_field
unquoted_field-bare [] sep rest h k = ground arith
unquoted_field-bare (c ∷ s) sep rest h k =
    ground (arith, h.0.0, h.0.2, unquoted_field-bare s sep rest h.1 k)

scan_field-head : (c : ℕ) (s : Bytes) → c ≢ b'"' → scan_field (c ∷ s) ≡ unquoted_field (c ∷ s)
unfolding scan_field
scan_field-head c s h = ground arith

scan_field-bare :
    (s : Bytes) (rest : Bytes)
    → IsBare s
    → scan_field (s ++ (b',' ∷ rest)) ≡ unquoted_field (s ++ (b',' ∷ rest))
unfolding scan_field
scan_field-bare [] rest h = refl
scan_field-bare (c ∷ s) rest h = ground (arith, h.0.3)

-- A field without quotes is read back.
pub extract_field-bare :
    (s rest field : Bytes)
    → IsBare s
    → extract_field (s ++ (b',' ∷ rest)) field ≡ some (overwrite (s ++ 0 ∷ []) field, rest)
unfolding extract_field
extract_field-bare s rest field h =
    rw (scan_field-bare s rest h) (rw (unquoted_field-bare s b',' rest h refl) refl)

-- A name in OVSDB's own quotes.
abbrev pub ovsdb_quoted : Bytes → Bytes
ovsdb_quoted s = b'"' ∷ escaped s []

unquote_loop-cons :
    (c : ℕ) (t : Bytes) → c ≢ b'"' → c ≢ b'\\' → unquote_loop (c ∷ t) ≡ c ∷ unquote_loop t
unfolding unquote_loop
unquote_loop-cons c [] h k = ground arith
unquote_loop-cons c (d ∷ t) h k = ground arith

unquote_loop-escaped : (s : Bytes) → unquote_loop (escaped s []) ≡ s
unfolding unquote_loop
unquote_loop-escaped [] = refl
unquote_loop-escaped (c ∷ s) = elim (Bool-cases (c == b'"' || c == b'\\')) [
  | inl e ↦ rw e (ap (λ t. c ∷ t) (unquote_loop-escaped s))
  | inr e ↦ rw e (
      unquote_loop-cons c (escaped s []) (λ p. ground arith) (λ p. ground arith)
      ∙ ap (λ t. c ∷ t) (unquote_loop-escaped s))
]

pub ovsdb_quoted-IsText : (s : Bytes) → IsText s → IsText (ovsdb_quoted s)
ovsdb_quoted-IsText s h = (
  (λ p. ground arith),
  escaped-All (λ c. c ≢ 0) s [] (λ p. ground arith) (λ p. ground arith) h tt,
)

unquote-quote :
    (t rest : Bytes)
    → IsText t
    → unquote (b'"' ∷ t ++ (0 ∷ rest))
      ≡ some (overwrite (unquote_loop t ++ 0 ∷ []) (b'"' ∷ t ++ (0 ∷ rest)))
unfolding unquote
unquote-quote t rest h = rw (c_string-append t rest h, and_then) refl

-- A name that OVSDB has quoted is read back from the array.
pub unquote-ovsdb_quoted :
    (s rest : Bytes)
    → IsText s
    → unquote (ovsdb_quoted s ++ (0 ∷ rest))
      ≡ some (overwrite (s ++ 0 ∷ []) (ovsdb_quoted s ++ (0 ∷ rest)))
unquote-ovsdb_quoted s rest h =
    unquote-quote (escaped s []) rest
      (escaped-All (λ c. c ≢ 0) s [] (λ p. ground arith) (λ p. ground arith) h tt)
    ∙ ap (λ t. some (overwrite (t ++ 0 ∷ []) (ovsdb_quoted s ++ (0 ∷ rest))))
        (unquote_loop-escaped s)

-- The last field of a row: the scan goes on behind the terminator.
pub extract_field-last :
    (c : ℕ) (s rest field : Bytes)
    → IsBare (c ∷ s)
    → extract_field (c ∷ s ++ (0 ∷ rest)) field ≡ some (overwrite ((c ∷ s) ++ 0 ∷ []) field, rest)
unfolding extract_field
extract_field-last c s rest field h =
    rw (scan_field-head c (s ++ (0 ∷ rest)) (h.0.3))
      (rw (unquoted_field-bare (c ∷ s) 0 rest h refl) refl)

-- A name without quotes stays as it is.
pub unquote-bare : (c : ℕ) (s : Bytes) → c ≢ b'"' → unquote (c ∷ s) ≡ some (c ∷ s)
unfolding unquote
unquote-bare c s h = ground arith
