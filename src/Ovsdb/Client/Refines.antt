-- ===== src/Ovsdb/Client/Refines.antt =====
-- The monitor acts on the rows that ovsdb-client prints, one after the other.
use mathlib.Core.Path.{fun_ext}
use virtio_forwarder.Prelude.{
  ℕ, zero, suc, ◌<◌, Option, none, some, List, [], ◌∷◌, ◌++◌, All, Bytes, ◌≡◌, refl, ap, sym, ◌∙◌,
  arith, and_then, length,
}
use virtio_forwarder.Prelude.Int.{ℤ}
use virtio_forwarder.World.{World, M, ◌>>=◌, pure}
use virtio_forwarder.Sriov.{SriovInfo, get_vf_pcie_from_netdev}
use virtio_forwarder.Ovsdb.Buffer.{overwrite, c_string, c_string-append}
use virtio_forwarder.Ovsdb.Map.Entries.{config_of}
use virtio_forwarder.Ovsdb.Client.Print.{
  Row, print_row, print_row-append, IsRow, IsLine, IsLine-IsText, row-IsLine, print_rows,
  print_rows-append, rows-IsText, row-nonempty,
}
use virtio_forwarder.Ovsdb.Client.Rows.{
  disabled, scanned, overwrite-string, row_fields-scanned, row_fields-Holds,
}
use virtio_forwarder.Ovsdb.Client.{
  Host, Client, act, look_up, process_external_ids, parse_row, find_newline, lines_from, Split,
  parse_line, parse_lines,
}

-- The VF of a netdev.
abbrev pub vf_of : Host → Bytes → M (Option SriovInfo)
vf_of h name w = some (get_vf_pcie_from_netdev (h.shell w.calls) name, w)

-- What a row asks for, with no buffer in sight.
abbrev pub row_effect : Host → Row → ℤ → M ℤ
row_effect h r change = act h r.action (vf_of h r.name) (config_of r.external_ids disabled) change

abbrev pub run_rows : Host → List Row → ℤ → M ℤ
run_rows h [] change = pure change
run_rows h (r ∷ rs) change = row_effect h r change >>= run_rows h rs

look_up-vf_of : (h : Host) (a name : Bytes) → c_string a ≡ some name → look_up h a ≡ vf_of h name
unfolding look_up
look_up-vf_of h a name e = fun_ext λ w. rw (e, and_then) refl

process-effect :
    (h : Host) (r : Row) (c f : Client) (change : ℤ) (w : World)
    → c_string f.action ≡ some r.action
    → c_string f.name ≡ some r.name
    → process_external_ids h f.action f.name (config_of r.external_ids disabled) change w
      ≡ row_effect h r change w
unfolding process_external_ids
process-effect h r c f change w ea en =
    rw (ea, and_then) (rw (look_up-vf_of h f.name r.name en) refl)

-- A row at the front of the buffer.
parse_row-effect :
    (h : Host) (r : Row) (c : Client) (behind : Bytes) (w : World)
    → IsRow r
    → c.buf ≡ print_row r (0 ∷ behind)
    → parse_row h c w
      ≡ (row_effect h r c.virtio_id_change >>= λ change.
            pure (record (scanned r c) { virtio_id_change = change }))
          w
unfolding parse_row
parse_row-effect h r c behind w k e =
    let holds = row_fields-Holds r c k in
    rw (row_fields-scanned r c behind k e, and_then)
      (rw (holds.config, and_then)
        (rw (process-effect h r c (scanned r c) c.virtio_id_change w holds.action holds.name) refl))

find_newline-line :
    (l rest : Bytes)
    → IsLine l
    → find_newline (l ++ (b'\n' ∷ rest)) ≡ some (record { line = l; behind = rest })
unfolding find_newline
find_newline-line [] rest h = refl
find_newline-line (c ∷ l) rest h = ground (arith, h.0.0, h.0.1, find_newline-line l rest h.1)

find_newline-none : (l rest : Bytes) → IsLine l → find_newline (l ++ (0 ∷ rest)) ≡ none
unfolding find_newline
find_newline-none [] rest h = refl
find_newline-none (c ∷ l) rest h = ground (arith, h.0.0, h.0.1, find_newline-none l rest h.1)

-- The client after a row, with the rest of the text moved to the front.
abbrev moved : Row → Client → Bytes → Bytes → ℤ → Client
moved r c behind rest change =
    let row = record c { buf = print_row r [] ++ (0 ∷ behind) } in
    record (scanned r row) {
      virtio_id_change = change;
      buf = overwrite (rest ++ 0 ∷ []) (print_row r [] ++ (0 ∷ behind));
      remain = length rest;
    }

-- A step that only works on the result of the one before.
then_pure :
    {A B C : Type 0} (o : Option (A × World)) (f : A → B) (g : B → C)
    (k : B × World → Option (C × World))
    → ((b : B) (v : World) → k (b, v) ≡ some (g b, v))
    → and_then (and_then o (λ p. some (f p.0, p.1))) k ≡ and_then o (λ p. some (g (f p.0), p.1))
then_pure none f g k h = refl
then_pure (some (a, v)) f g k h = h (f a) v

parse_line-effect :
    (h : Host) (r : Row) (c : Client) (behind rest : Bytes) (w : World)
    → IsRow r
    → c_string behind ≡ some rest
    → parse_line h c (record { line = print_row r []; behind = behind }) w
      ≡ (row_effect h r c.virtio_id_change >>= λ change. pure (moved r c behind rest change)) w
parse_line-effect h r c behind rest w k e =
    let row : Client = record c { buf = print_row r [] ++ (0 ∷ behind) } in
    rw (row-nonempty r []) (
      rw (parse_row-effect h r row behind w k (print_row-append r [] (0 ∷ behind))) (
        then_pure (row_effect h r c.virtio_id_change w)
          (λ change. record (scanned r row) { virtio_id_change = change })
          (λ d. record d { buf = overwrite (rest ++ 0 ∷ []) d.buf; remain = length rest }) _
          (λ d v. rw (e, and_then) refl)))

-- What the monitor keeps of a client: the id left by `old`, and the text that is not used yet.
abbrev pub kept : Client × World → Option ((ℤ × Bytes) × World)
kept p = and_then (c_string p.0.buf) λ s. some ((p.0.virtio_id_change, s), p.1)

parse_lines-step :
    (k : ℕ) (h : Host) (c : Client) (w : World) (s : Option Split)
    → find_newline c.buf ≡ s
    → parse_lines (suc k) h c w ≡ lines_from (λ r. parse_lines k h r) h c s w
unfolding parse_lines
parse_lines-step k h c w s e = rw e refl

no-rounds : (n : ℕ) → n < 0 → ⊥
no-rounds n h = elim h [ ]

-- Two runs that agree behind their common first step agree.
same-chain :
    {A B C D : Type 0} (o : Option (A × World)) (f : A → B) (l : B × World → Option C)
    (g : C → Option D) (r : A × World → Option (A × World)) (k : A × World → Option D)
    → ((a : A) (v : World) → and_then (l (f a, v)) g ≡ and_then (r (a, v)) k)
    → and_then (and_then (and_then o (λ p. some (f p.0, p.1))) l) g ≡ and_then (and_then o r) k
same-chain none f l g r k h = refl
same-chain (some (a, v)) f l g r k h = h a v

-- With complete rows and the beginning of another one in the buffer, the monitor does what the
-- rows ask for, in their order, and keeps the beginning: for each row, whatever the arrays held
-- before, the branch of process_external_ids for its action, netdev and external_ids.
pub parse_lines-run_rows :
    (k : ℕ) (h : Host) (rs : List Row) (part stale : Bytes) (c : Client) (w : World)
    → length rs < k
    → All IsRow rs
    → IsLine part
    → c.buf ≡ print_rows rs (part ++ (0 ∷ stale))
    → and_then (parse_lines k h c w) kept
      ≡ (run_rows h rs c.virtio_id_change >>= λ change. pure (change, part)) w
parse_lines-run_rows zero h rs part stale c w l k p e = absurd (no-rounds (length rs) l)
parse_lines-run_rows (suc n) h [] part stale c w l k p e =
    rw (parse_lines-step n h c w none (ap find_newline e ∙ find_newline-none part stale p))
      (rw (ap c_string e ∙ c_string-append part stale (IsLine-IsText part p), and_then) refl)
parse_lines-run_rows (suc n) h (r ∷ rs) part stale c w l k p e =
    let text = print_rows rs part in
    let behind = print_rows rs (part ++ (0 ∷ stale)) in
    let split : c_string behind ≡ some text =
      ap c_string (sym (print_rows-append rs part (0 ∷ stale)))
      ∙ c_string-append text stale (rows-IsText rs part k.1 (IsLine-IsText part p)) in
    rw
      (parse_lines-step n h c w _ (
        ap find_newline (e ∙ sym (print_row-append r [] (b'\n' ∷ behind)))
        ∙ find_newline-line (print_row r []) behind (row-IsLine r k.0)))
      (rw (parse_line-effect h r c behind text w k.0 split) (
        same-chain (row_effect h r c.virtio_id_change w) (moved r c behind text) _ kept _ _
          (λ change v.
            parse_lines-run_rows n h rs part _ (moved r c behind text change) v (omega arith) k.1 p
              (overwrite-string text (print_row r [] ++ (0 ∷ behind))
                ∙ print_rows-append rs part _))))
