-- ===== src/Ovsdb/Client/Print.antt =====
-- The rows that ovsdb-client prints.
use virtio_forwarder.Prelude.{
  ℕ, ◌||◌, false, List, [], ◌∷◌, ◌++◌, ◌==◌, All, Bytes, ◌≡◌, ◌≢◌, refl, ap, ◌∙◌, arith, Bool-cases,
  inl, inr, append_assoc, subst, length, length-append,
}
use virtio_forwarder.Ovsdb.Buffer.{IsText}
use virtio_forwarder.Ovsdb.Quote.{escaped, escaped-All}
use virtio_forwarder.Ovsdb.Fields.RoundTrip.{csv_chars, csv_quoted, IsBare, ovsdb_quoted}
use virtio_forwarder.Ovsdb.Map.Words.{Atom, print_atom}
use virtio_forwarder.Ovsdb.Map.Entries.{Pair, print_pair, print_more, print_map, IsPair}

-- The characters of a line.
abbrev pub InLine : ℕ → Type 0
InLine c = (c ≢ 0) × (c ≢ b'\n')

abbrev pub IsLine : Bytes → Type 0
IsLine = All InLine

pub IsLine-IsText : (s : Bytes) → IsLine s → IsText s
IsLine-IsText [] h = tt
IsLine-IsText (c ∷ s) h = (h.0.0, IsLine-IsText s h.1)

-- `hash,action,"""name""","{key=value}"`
pub record Row : Type 0 where
  pub hash : Bytes
  pub action : Bytes
  pub name : Bytes
  pub external_ids : List Pair

abbrev pub print_row : Row → Bytes → Bytes
print_row r rest =
    r.hash
    ++ (b','
        ∷ (r.action
            ++ (b','
                ∷ csv_quoted (ovsdb_quoted r.name)
                    (b',' ∷ csv_quoted (print_map r.external_ids []) rest))))

-- A text goes through the printers character by character.
escaped-append : (s t rest : Bytes) → escaped s t ++ rest ≡ escaped s (t ++ rest)
escaped-append [] t rest = refl
escaped-append (c ∷ s) t rest = elim (Bool-cases (c == b'"' || c == b'\\')) [
  | inl e ↦ rw e (rw (escaped-append s t rest) refl)
  | inr e ↦ rw e (rw (escaped-append s t rest) refl)
]

print_atom-append : (a : Atom) (t rest : Bytes) → print_atom a t ++ rest ≡ print_atom a (t ++ rest)
print_atom-append a t rest = elim (Bool-cases a.quoted) [
  | inl q ↦ rw q (rw (escaped-append a.text t rest) refl)
  | inr q ↦ rw q (append_assoc a.text t rest)
]

print_pair-append : (x : Pair) (t rest : Bytes) → print_pair x t ++ rest ≡ print_pair x (t ++ rest)
print_pair-append x t rest =
    print_atom-append x.key (b'=' ∷ print_atom x.val t) rest
    ∙ ap (λ u. print_atom x.key (b'=' ∷ u)) (print_atom-append x.val t rest)

print_more-append :
    (xs : List Pair) (t rest : Bytes) → print_more xs t ++ rest ≡ print_more xs (t ++ rest)
print_more-append [] t rest = refl
print_more-append (x ∷ xs) t rest =
    ap (λ u. b',' ∷ b' ' ∷ u)
      (print_pair-append x (print_more xs t) rest ∙ ap (print_pair x) (print_more-append xs t rest))

pub print_map-append :
    (xs : List Pair) (t rest : Bytes) → print_map xs t ++ rest ≡ print_map xs (t ++ rest)
print_map-append [] t rest = refl
print_map-append (x ∷ xs) t rest =
    ap (λ u. b'{' ∷ u)
      (print_pair-append x (print_more xs t) rest ∙ ap (print_pair x) (print_more-append xs t rest))

-- The printers keep what holds of the characters they print, if it holds of the punctuation.
module _ (P : ℕ → Type 0)
    (punctuation : All P (b'"' ∷ b'\\' ∷ b'=' ∷ b',' ∷ b' ' ∷ b'{' ∷ b'}' ∷ [])) where
  append-All : (s rest : Bytes) → All P s → All P rest → All P (s ++ rest)
  append-All [] rest h k = k
  append-All (c ∷ s) rest h k = (h.0, append-All s rest h.1 k)

  atom-All : (a : Atom) (rest : Bytes) → All P a.text → All P rest → All P (print_atom a rest)
  atom-All a rest h k = elim (Bool-cases a.quoted) [
    | inl q ↦ rw q (punctuation.0, escaped-All P a.text rest punctuation.0 (punctuation.1.0) h k)
    | inr q ↦ rw q (append-All a.text rest h k)
  ]

  abbrev Printable : Pair → Type 0
  Printable x = All P x.key.text × All P x.val.text

  pair-All : (x : Pair) (rest : Bytes) → Printable x → All P rest → All P (print_pair x rest)
  pair-All x rest h k = atom-All x.key _ h.0 (punctuation.1.1.0, atom-All x.val rest h.1 k)

  more-All :
      (xs : List Pair) (rest : Bytes) → All Printable xs → All P rest → All P (print_more xs rest)
  more-All [] rest h k = (punctuation.1.1.1.1.1.1.0, k)
  more-All (x ∷ xs) rest h k =
      (punctuation.1.1.1.0, (punctuation.1.1.1.1.0, pair-All x _ h.0 (more-All xs rest h.1 k)))

  pub map-All :
      (xs : List Pair) (rest : Bytes) → All Printable xs → All P rest → All P (print_map xs rest)
  map-All [] rest h k = (punctuation.1.1.1.1.1.0, (punctuation.1.1.1.1.1.1.0, k))
  map-All (x ∷ xs) rest h k = (punctuation.1.1.1.1.1.0, pair-All x _ h.0 (more-All xs rest h.1 k))

  csv_quoted-All : (s rest : Bytes) → All P s → All P rest → All P (csv_quoted s rest)
  csv_quoted-All s rest h k = (punctuation.0, go s h)
    where
      go : (t : Bytes) → All P t → All P (csv_chars t rest)
      go [] h = (punctuation.0, k)
      go (c ∷ t) h = elim (Bool-cases (c == b'"')) [
        | inl e ↦ rw e (punctuation.0, (punctuation.0, go t h.1))
        | inr e ↦ rw e (h.0, go t h.1)
      ]

csv_quoted-append : (s t rest : Bytes) → csv_quoted s t ++ rest ≡ csv_quoted s (t ++ rest)
csv_quoted-append s t rest = ap (λ u. b'"' ∷ u) (go s)
  where
    go : (s : Bytes) → csv_chars s t ++ rest ≡ csv_chars s (t ++ rest)
    go [] = refl
    go (c ∷ s) = elim (Bool-cases (c == b'"')) [
      | inl e ↦ rw e (rw (go s) refl)
      | inr e ↦ rw e (rw (go s) refl)
    ]

-- The external_ids behind the name.
abbrev pub print_ids : Row → Bytes → Bytes
print_ids r rest = b',' ∷ csv_quoted (print_map r.external_ids []) rest

pub print_ids-append : (r : Row) (t rest : Bytes) → print_ids r t ++ rest ≡ print_ids r (t ++ rest)
print_ids-append r t rest =
    ap (λ u. b',' ∷ u) (csv_quoted-append (print_map r.external_ids []) t rest)

pub print_row-append : (r : Row) (t rest : Bytes) → print_row r t ++ rest ≡ print_row r (t ++ rest)
print_row-append r t rest =
    append_assoc r.hash _ rest
    ∙ ap (λ u. r.hash ++ (b',' ∷ u))
        (append_assoc r.action _ rest
          ∙ ap (λ u. r.action ++ (b',' ∷ u))
              (csv_quoted-append (ovsdb_quoted r.name) _ rest
                ∙ ap (csv_quoted (ovsdb_quoted r.name)) (print_ids-append r t rest)))

-- The rows that ovsdb-client prints: no field holds a newline, and the hash and the action need no
-- quotes.
pub record IsRow (r : Row) : Type 0 where
  pub hash : IsBare r.hash
  pub action : IsBare r.action
  pub name : IsLine r.name
  pub pairs : All IsPair r.external_ids
  pub keys_and_values : All (λ x. IsLine x.key.text × IsLine x.val.text) r.external_ids

marks : All InLine (b'"' ∷ b'\\' ∷ b'=' ∷ b',' ∷ b' ' ∷ b'{' ∷ b'}' ∷ [])
marks = ground arith

bare-IsLine : (s : Bytes) → IsBare s → IsLine s
bare-IsLine [] h = tt
bare-IsLine (c ∷ s) h = ((h.0.0, h.0.1), bare-IsLine s h.1)

map-IsLine : (r : Row) → IsRow r → IsLine (print_map r.external_ids [])
map-IsLine r h = map-All InLine marks r.external_ids [] h.keys_and_values tt

pub map-IsText : (r : Row) → IsRow r → IsText (print_map r.external_ids [])
map-IsText r h = IsLine-IsText (print_map r.external_ids []) (map-IsLine r h)

ids-IsLine : (r : Row) → IsRow r → IsLine (print_ids r [])
ids-IsLine r h = (
  marks.1.1.1.0,
  csv_quoted-All InLine marks (print_map r.external_ids []) [] (map-IsLine r h) tt,
)

pub ids-IsText : (r : Row) → IsRow r → IsText (print_ids r [])
ids-IsText r h = IsLine-IsText (print_ids r []) (ids-IsLine r h)

-- A row is one line.
pub row-IsLine : (r : Row) → IsRow r → IsLine (print_row r [])
row-IsLine r h = append-All InLine marks r.hash _ (bare-IsLine r.hash h.hash) (
  marks.1.1.1.0,
  append-All InLine marks r.action _ (bare-IsLine r.action h.action) (
    marks.1.1.1.0,
    csv_quoted-All InLine marks (ovsdb_quoted r.name) _
        (marks.0, escaped-All InLine r.name [] marks.0 (marks.1.0) h.name tt) (ids-IsLine r h),
  ),
)

abbrev pub print_rows : List Row → Bytes → Bytes
print_rows [] rest = rest
print_rows (r ∷ rs) rest = print_row r (b'\n' ∷ print_rows rs rest)

pub print_rows-append :
    (rs : List Row) (t rest : Bytes) → print_rows rs t ++ rest ≡ print_rows rs (t ++ rest)
print_rows-append [] t rest = refl
print_rows-append (r ∷ rs) t rest =
    print_row-append r (b'\n' ∷ print_rows rs t) rest
    ∙ ap (λ u. print_row r (b'\n' ∷ u)) (print_rows-append rs t rest)

append-IsText : (s t : Bytes) → IsText s → IsText t → IsText (s ++ t)
append-IsText [] t h k = k
append-IsText (c ∷ s) t h k = (h.0, append-IsText s t h.1 k)

pub rows-IsText :
    (rs : List Row) (part : Bytes) → All IsRow rs → IsText part → IsText (print_rows rs part)
rows-IsText [] part h k = k
rows-IsText (r ∷ rs) part h k = subst IsText (print_row-append r [] (b'\n' ∷ print_rows rs part)) (
    append-IsText (print_row r []) _ (IsLine-IsText (print_row r []) (row-IsLine r h.0))
      ((λ e. ground arith), rows-IsText rs part h.1 k))

pub row-nonempty : (r : Row) (rest : Bytes) → (length (print_row r rest) == 0) ≡ false
row-nonempty r rest = ground (
  arith,
  length-append r.hash (
      b','
      ∷ (r.action
          ++ (b','
              ∷ csv_quoted (ovsdb_quoted r.name)
                  (b',' ∷ csv_quoted (print_map r.external_ids []) rest)))),
)
