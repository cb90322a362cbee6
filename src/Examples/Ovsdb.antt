-- ===== src/Examples/Ovsdb.antt =====
-- The theorems on the monitor of OVSDB, applied.
use virtio_forwarder.Prelude.{
  starts_with, ◌≡◌, ◌≢◌, ◌∷◌, [], ◌++◌, refl, true, false, some, codes, arith, and_then, Bytes,
}
use virtio_forwarder.Prelude.Int.{pos, negsuc}
use virtio_forwarder.World.{◌>>=◌, pure}
use virtio_forwarder.Ovsdb.Map.{parse_map, unfinished}
use virtio_forwarder.Ovsdb.Map.Entries.{Pair, IsPair, print_map, config_of}
use virtio_forwarder.Ovsdb.Map.RoundTrip.{Reads, parse_map-print_map}
use virtio_forwarder.Ovsdb.Map.Terminates.{parse_map-ends}
use virtio_forwarder.Ovsdb.Buffer.{c_string}
use virtio_forwarder.Ovsdb.Client.{Host, Client, parse_lines, row_fields}
use virtio_forwarder.Ovsdb.Client.Print.{Row, IsRow, print_row, print_rows}
use virtio_forwarder.Ovsdb.Client.Refines.{parse_lines-run_rows, kept, run_rows}
use virtio_forwarder.Ovsdb.Client.Truncated.{truncated_row}
use virtio_forwarder.Sriov.{SriovInfo, get_vf_pcie_from_netdev}
use virtio_forwarder.Scan.{behind_text, scan_word, scan_char, scan_unsigned}
use virtio_forwarder.Sockets.Names.{skip_space, digits_value}
use virtio_forwarder.Ovsdb.Client.{tok_old, tok_new}
use virtio_forwarder.Ovsdb.Client.Changes.{update_rows, changed}
use virtio_forwarder.Examples.Adding.{a_dpdk_lib, without_vf}

-- {virtio_relay="7\""}, with a quote in the value.
abbrev a_pair : Pair
a_pair = record {
  key = record { quoted = false; text = codes "virtio_relay" };
  val = record { quoted = true; text = b'7' ∷ b'"' ∷ [] };
}

a_pair-IsPair : IsPair a_pair
a_pair-IsPair = (
  record { text = ground arith; bare = λ e. ground arith },
  record { text = ground arith; bare = λ e. absurd (let h : true ≡ false = e in cc) },
)

parse_map-print_map_example :
    Reads
      (config_of (a_pair ∷ []) (record { virtio_enabled = false; virtio_id = pos 0 }))
      (parse_map (print_map (a_pair ∷ []) (0 ∷ [])))
parse_map-print_map_example = parse_map-print_map (a_pair ∷ []) (0 ∷ []) (a_pair-IsPair, tt)

-- A string that does not end.
parse_map-ends_example : parse_map (codes "{a=\"b") ≢ unfinished
parse_map-ends_example = parse_map-ends (codes "{a=\"b")

-- A row that inserts the relay 7 for the netdev v.
abbrev a_row : Row
a_row = record {
  hash = codes "e1";
  action = codes "insert";
  name = codes "v";
  external_ids = a_pair ∷ [];
}

a_row-IsRow : IsRow a_row
a_row-IsRow = record {
  hash = ground arith;
  action = ground arith;
  name = ground arith;
  pairs = (a_pair-IsPair, tt);
  keys_and_values = ((ground arith, ground arith), tt);
}

-- A host on which ethtool prints the second VF of the card 5 for each netdev.
abbrev a_host : Host
a_host = record {
  eth = a_dpdk_lib (pos 0);
  sleep = λ n w. w;
  shell = λ calls command. some (codes "bus-info: NFP 0 VF5.2 0000:05:08.2");
}

abbrev a_client : Bytes → Client
a_client buf = record {
  buf = buf;
  tmp = [];
  action = [];
  name = [];
  virtio_id_change = negsuc 0;
  remain = 0;
}

parse_lines-run_rows_example :
    and_then
      (parse_lines 2 a_host
        (a_client (print_rows (a_row ∷ []) (codes "e2" ++ (0 ∷ []))))
        without_vf)
      kept
    ≡ (run_rows a_host (a_row ∷ []) (negsuc 0) >>= λ change. pure (change, codes "e2")) without_vf
parse_lines-run_rows_example =
    parse_lines-run_rows 2 a_host (a_row ∷ []) (codes "e2") []
      (a_client (print_rows (a_row ∷ []) (codes "e2" ++ (0 ∷ [])))) without_vf (omega arith)
      (a_row-IsRow, tt) (ground arith) refl

-- The line "e0", and two rows behind it.
abbrev cut_off : Client
cut_off = a_client (codes "e0" ++ (0 ∷ print_row a_row (b'\n' ∷ print_rows (a_row ∷ []) (0 ∷ []))))

rest_terminated : (text : Bytes) × (c_string (b'\n' ∷ print_rows (a_row ∷ []) (0 ∷ [])) ≡ some text)
unfolding c_string
rest_terminated = (_, refl)

truncated_row_example :
    (f : Client) × (row_fields cut_off ≡ some f)
    × (c_string f.action ≡ some (codes "e1"))
    × (c_string f.name ≡ some (codes "insert"))
    × (c_string f.tmp ≡ some (b'"' ∷ b'v' ∷ b'"' ∷ []))
truncated_row_example =
    truncated_row cut_off b'e' (b'0' ∷ []) a_row b'i' (codes "nsert")
      (b'\n' ∷ print_rows (a_row ∷ []) (0 ∷ [])) rest_terminated.0 (ground arith) a_row-IsRow refl
      rest_terminated.1 refl

-- The relay 7 has become the relay 8 on the same netdev.
abbrev old_row : Row
old_row = record a_row { action = tok_old }

abbrev new_row : Row
new_row = record a_row {
  action = tok_new;
  external_ids =
      (record { key = a_pair.key; val = record { quoted = false; text = codes "8" } }) ∷ [];
}

abbrev the_vf :
    (v : SriovInfo) × (get_vf_pcie_from_netdev (a_host.shell without_vf.calls) new_row.name
      ≡ some v)
unfolding get_vf_pcie_from_netdev behind_text starts_with scan_word skip_space scan_char
    scan_unsigned digits_value
the_vf = (_, refl)

update_rows_example :
    run_rows a_host (old_row ∷ new_row ∷ []) (pos 3) without_vf
    ≡ changed a_host the_vf.0 old_row new_row without_vf
update_rows_example =
    update_rows a_host old_row new_row (pos 3) the_vf.0 without_vf refl refl the_vf.1
