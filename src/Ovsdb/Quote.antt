-- ===== src/Ovsdb/Quote.antt =====
-- The quotes of OVSDB, as ovsdb-client prints them.
use virtio_forwarder.Prelude.{
  ℕ, ◌||◌, [], ◌∷◌, ◌==◌, if◌then◌else◌, Bytes, All, Bool-cases, inl, inr,
}

-- A backslash stands in front of each quote and backslash; `rest` is behind the closing quote.
abbrev pub escaped : Bytes → Bytes → Bytes
escaped [] rest = b'"' ∷ rest
escaped (c ∷ s) rest =
    if c == b'"' || c == b'\\' then b'\\' ∷ c ∷ escaped s rest else c ∷ escaped s rest

-- What holds of the characters, of quotes and of backslashes holds of what is printed.
pub escaped-All {ℓ} :
    (P : ℕ → Type ℓ) (s rest : Bytes)
    → P b'"'
    → P b'\\'
    → All P s
    → All P rest
    → All P (escaped s rest)
escaped-All P [] rest q b h k = (q, k)
escaped-All P (c ∷ s) rest q b h k = elim (Bool-cases (c == b'"' || c == b'\\')) [
  | inl e ↦ rw e (b, (h.0, escaped-All P s rest q b h.1 k))
  | inr e ↦ rw e (h.0, escaped-All P s rest q b h.1 k)
]
