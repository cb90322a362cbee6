-- ===== src/Ovsdb/Client/Rows.antt =====
-- What ovsdb-client prints for a row is read back from the buffer.
use virtio_forwarder.Prelude.{
  false, some, [], ◌∷◌, ◌++◌, Bytes, ◌≡◌, refl, ap, sym, ◌∙◌, and_then, length, subst, drop,
  append_assoc,
}
use virtio_forwarder.Prelude.Int.{pos}
use virtio_forwarder.Ovsdb.Buffer.{IsText, overwrite, c_string, c_string-append, c_string-overwrite}
use virtio_forwarder.Ovsdb.Fields.{unquote}
use virtio_forwarder.Ovsdb.Fields.RoundTrip.{
  IsBare, ovsdb_quoted, ovsdb_quoted-IsText, unquote-ovsdb_quoted, extract_field-csv_quoted,
  extract_field-bare,
}
use virtio_forwarder.Ovsdb.Map.{PortConfig, Outcome, finished, parse_map}
use virtio_forwarder.Ovsdb.Client.Print.{
  Row, print_row, print_ids, print_ids-append, IsRow, IsLine-IsText, map-IsText, ids-IsText,
  print_map-append,
}
use virtio_forwarder.Ovsdb.Map.Entries.{print_map, config_of}
use virtio_forwarder.Ovsdb.Map.RoundTrip.{Reads, parse_map-print_map}
use virtio_forwarder.Ovsdb.Client.{Client, row_fields, config_read}

abbrev pub disabled : PortConfig
disabled = record { virtio_enabled = false; virtio_id = pos 0 }

pub overwrite-string :
    (s old : Bytes) → overwrite (s ++ 0 ∷ []) old ≡ s ++ (0 ∷ drop (length (s ++ 0 ∷ [])) old)
unfolding overwrite
overwrite-string s old = append_assoc s (0 ∷ []) (drop (length (s ++ 0 ∷ [])) old)

-- The arrays hold the fields of the row.
pub record Holds (c : Client) (r : Row) (f : Client) : Type 0 where
  pub buf : f.buf ≡ c.buf
  pub virtio_id_change : f.virtio_id_change ≡ c.virtio_id_change
  pub action : c_string f.action ≡ some r.action
  pub name : c_string f.name ≡ some r.name
  pub config : config_read (parse_map f.tmp) ≡ some (config_of r.external_ids disabled)

Reads-config : (config : PortConfig) (o : Outcome) → Reads config o → config_read o ≡ some config
Reads-config config (finished p) h = ap some h
Reads-config config Outcome.faulted h = absurd h
Reads-config config Outcome.unfinished h = absurd h

pub bare-IsText : (s : Bytes) → IsBare s → IsText s
bare-IsText [] h = tt
bare-IsText (c ∷ s) h = (h.0.0, bare-IsText s h.1)

config-read :
    (r : Row) (old : Bytes)
    → IsRow r
    → config_read (parse_map (overwrite (print_map r.external_ids [] ++ 0 ∷ []) old))
      ≡ some (config_of r.external_ids disabled)
config-read r old h =
    ap (λ s. config_read (parse_map s))
      (overwrite-string (print_map r.external_ids []) old
        ∙ print_map-append r.external_ids []
            (0 ∷ drop (length (print_map r.external_ids [] ++ 0 ∷ [])) old))
    ∙ Reads-config _ _ (parse_map-print_map r.external_ids _ h.pairs)

-- What row_fields leaves in the arrays.
abbrev pub scanned : Row → Client → Client
scanned r c = record c {
  tmp = overwrite (print_map r.external_ids [] ++ 0 ∷ []) (overwrite (r.hash ++ 0 ∷ []) c.tmp);
  action = overwrite (r.action ++ 0 ∷ []) c.action;
  name = overwrite (r.name ++ 0 ∷ []) (overwrite (ovsdb_quoted r.name ++ 0 ∷ []) c.name);
}

unquote-name :
    (r : Row) (old : Bytes)
    → IsRow r
    → unquote (overwrite (ovsdb_quoted r.name ++ 0 ∷ []) old)
      ≡ some (overwrite (r.name ++ 0 ∷ []) (overwrite (ovsdb_quoted r.name ++ 0 ∷ []) old))
unquote-name r old h =
    subst (λ a. unquote a ≡ some (overwrite (r.name ++ 0 ∷ []) a))
      (sym (overwrite-string (ovsdb_quoted r.name) old))
      (unquote-ovsdb_quoted r.name _ (IsLine-IsText r.name h.name))

pub row_fields-scanned :
    (r : Row) (c : Client) (behind : Bytes)
    → IsRow r
    → c.buf ≡ print_row r (0 ∷ behind)
    → row_fields c ≡ some (scanned r c)
unfolding row_fields
row_fields-scanned r c behind h e =
    rw (e, and_then)
      (rw (extract_field-bare r.hash _ c.tmp h.hash, and_then)
        (rw (extract_field-bare r.action _ c.action h.action, and_then)
          (rw
            (
              extract_field-csv_quoted (ovsdb_quoted r.name) b',' _ c.name (print_ids r [])
                  (ovsdb_quoted-IsText r.name (IsLine-IsText r.name h.name)) refl
                  (ap c_string (sym (print_ids-append r [] (0 ∷ behind)))
                    ∙ c_string-append (print_ids r []) behind (ids-IsText r h)),
              and_then,
            )
            (rw (unquote-name r c.name h, and_then)
              (rw
                (
                  extract_field-csv_quoted (print_map r.external_ids []) 0 behind _ []
                      (map-IsText r h) refl (c_string-append [] behind tt),
                  and_then,
                )
                refl)))))

pub row_fields-Holds : (r : Row) (c : Client) → IsRow r → Holds c r (scanned r c)
row_fields-Holds r c h = record {
  buf = refl;
  virtio_id_change = refl;
  action = c_string-overwrite r.action c.action (bare-IsText r.action h.action);
  name = c_string-overwrite r.name _ (IsLine-IsText r.name h.name);
  config = config-read r _ h;
}
