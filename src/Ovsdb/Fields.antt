-- ===== src/Ovsdb/Fields.antt =====
-- extract_field and unquote of ovsdb_mon.c. A position in a buffer is the part of the buffer from
-- there on.
pub mod RoundTrip
use virtio_forwarder.Prelude.{
  ℕ, ◌+◌, Bool, true, false, ◌||◌, Option, none, some, List, [], ◌∷◌, ◌++◌, ◌==◌, if◌then◌else◌,
  drop, and_then, Bytes,
}
use virtio_forwarder.Ovsdb.Buffer.{overwrite, c_string}

-- What a scan over a field copies, whether it ends the copy with a terminator, and where it goes
-- on.
pub record Field : Type 0 where
  pub text : Bytes
  pub terminated : Bool
  pub rest : Bytes

-- `field[dstptr++] = c;` in front of what the rest of the scan copies.
abbrev pub put : ℕ → Option Field → Option Field
put c f = and_then f λ r. some (record r { text = c ∷ r.text })

-- `while (srcptr < strlen(buf) && buf[srcptr] != '\0' && buf[srcptr] != ',') srcptr++;`
unfoldable pub skip_field : Bytes → Bytes
skip_field [] = []
skip_field (c ∷ s) = let rest = skip_field s in if c == 0 || c == b',' then c ∷ s else rest

-- The scan of a quoted string, behind its first quote.
unfoldable pub quoted_field : Bytes → Option Field
unfolding skip_field
quoted_field [] = none
quoted_field (c ∷ []) =
    if c == 0 then some (record { text = []; terminated = true; rest = [] }) else none
quoted_field (c ∷ d ∷ s) =
    let pair = put c (quoted_field s) in
    let next = put c (quoted_field (d ∷ s)) in
    if c == 0
    then some (record { text = []; terminated = true; rest = d ∷ s })
    else if c == b'"'
    then (if d == b'"'
        then pair
        else if d == 0 || d == b','
        then some (record { text = []; terminated = true; rest = s })
        else some
            (record { text = []; terminated = false; rest = drop 1 (skip_field (c ∷ d ∷ s)) }))
    else next

-- strchr(buf, ','), or the end of the string.
unfoldable pub unquoted_field : Bytes → Option Field
unquoted_field [] = none
unquoted_field (c ∷ s) =
    let next = put c (unquoted_field s) in
    if c == b',' || c == 0 then some (record { text = []; terminated = true; rest = s }) else next

unfoldable pub scan_field : Bytes → Option Field
unfolding quoted_field unquoted_field
scan_field [] = none
scan_field (c ∷ s) =
    if c == b'"' then and_then (c_string s) (λ _. quoted_field s) else unquoted_field (c ∷ s)

abbrev pub field_chars : Field → Bytes
field_chars f = if f.terminated then f.text ++ 0 ∷ [] else f.text

-- The array `field` after the call, and the position that is returned.
unfoldable pub extract_field : Bytes → Bytes → Option (Bytes × Bytes)
unfolding scan_field
extract_field buf field =
    and_then (scan_field buf) λ f. some (overwrite (field_chars f) field, f.rest)

-- The loop of unquote, behind the first quote.
unfoldable pub unquote_loop : Bytes → Bytes
unquote_loop [] = []
unquote_loop (c ∷ []) = if c == b'"' || c == b'\\' then [] else c ∷ []
unquote_loop (c ∷ d ∷ s) =
    let escaped = d ∷ unquote_loop s in
    let next = c ∷ unquote_loop (d ∷ s) in
    if c == b'"' then [] else if c == b'\\' then escaped else next

unfoldable pub unquote : Bytes → Option Bytes
unfolding unquote_loop
unquote [] = none
unquote (c ∷ s) =
    if c == b'"'
    then and_then (c_string s) (λ t. some (overwrite (unquote_loop t ++ 0 ∷ []) (c ∷ s)))
    else some (c ∷ s)
