-- ===== src/Ovsdb/Client/Truncated.antt =====
-- A row with too few fields.
use virtio_forwarder.Prelude.{
  ℕ, arith, some, [], ◌∷◌, ◌++◌, Bytes, ◌≡◌, refl, ap, sym, ◌∙◌, and_then,
}
use virtio_forwarder.Ovsdb.Buffer.{overwrite, IsText, c_string, c_string-overwrite}
use virtio_forwarder.Ovsdb.Fields.{extract_field, unquote}
use virtio_forwarder.Ovsdb.Fields.RoundTrip.{
  IsBare, ovsdb_quoted, ovsdb_quoted-IsText, extract_field-csv_quoted, extract_field-bare,
  extract_field-last, unquote-bare,
}
use virtio_forwarder.Ovsdb.Client.Print.{
  Row, print_row, print_ids, print_ids-append, IsRow, IsLine-IsText, ids-IsText,
}
use virtio_forwarder.Ovsdb.Client.Rows.{bare-IsText}
use virtio_forwarder.Ovsdb.Client.{Client, row_fields}

unquote-action :
    (r : Row) (a : ℕ) (action old : Bytes)
    → IsBare r.action
    → r.action ≡ a ∷ action
    → unquote (overwrite (r.action ++ 0 ∷ []) old) ≡ some (overwrite (r.action ++ 0 ∷ []) old)
unfolding overwrite
unquote-action r a action old h e = rw e (unquote-bare a _ (rw e at h).0.3)

-- A string in front of a terminated text.
c_string-behind :
    (s t u : Bytes) → IsText s → c_string t ≡ some u → c_string (s ++ t) ≡ some (s ++ u)
unfolding c_string
c_string-behind [] t u h e = e
c_string-behind (c ∷ s) t u h e = ground (arith, c_string-behind s t u h.1 e, h.0)

-- When a line has one field only, not in quotes and not empty, behind which the next row stands in
-- the buffer as ovsdb-client prints it, with an action that is not empty and a terminated text
-- behind it, its newline and further rows for instance, the fields of that row are taken: its hash
-- is the action, its action is the name, and its name, in the quotes of OVSDB, is the external_ids.
pub truncated_row :
    (c : Client) (d : ℕ) (field : Bytes) (r : Row) (a : ℕ) (action behind text : Bytes)
    → IsBare (d ∷ field)
    → IsRow r
    → r.action ≡ a ∷ action
    → c_string behind ≡ some text
    → c.buf ≡ d ∷ field ++ (0 ∷ print_row r behind)
    → (f : Client) × (row_fields c ≡ some f)
      × (c_string f.action ≡ some r.hash)
      × (c_string f.name ≡ some r.action)
      × (c_string f.tmp ≡ some (ovsdb_quoted r.name))
unfolding row_fields
truncated_row c d field r a action behind text hf h ea et e = (
  record c {
    tmp = overwrite (ovsdb_quoted r.name ++ 0 ∷ []) (overwrite ((d ∷ field) ++ 0 ∷ []) c.tmp);
    action = overwrite (r.hash ++ 0 ∷ []) c.action;
    name = overwrite (r.action ++ 0 ∷ []) c.name;
  },
  rw (ap (λ b. extract_field b c.tmp) e ∙ extract_field-last d field _ c.tmp hf, and_then)
      (rw (extract_field-bare r.hash _ c.action h.hash, and_then)
        (rw (extract_field-bare r.action _ c.name h.action, and_then)
          (rw (unquote-action r a action c.name h.action ea, and_then)
            (rw
              (
                extract_field-csv_quoted (ovsdb_quoted r.name) b',' _ _ (print_ids r [] ++ text)
                    (ovsdb_quoted-IsText r.name (IsLine-IsText r.name h.name)) refl
                    (ap c_string (sym (print_ids-append r [] behind))
                      ∙ c_string-behind (print_ids r []) behind text (ids-IsText r h) et),
                and_then,
              )
              refl)))),
  c_string-overwrite r.hash c.action (bare-IsText r.hash h.hash),
  c_string-overwrite r.action c.name (bare-IsText r.action h.action),
  c_string-overwrite (ovsdb_quoted r.name) _
      (ovsdb_quoted-IsText r.name (IsLine-IsText r.name h.name)),
)
