-- ===== src/Options/Static.antt =====
-- The options for a static VF and for the token of VFIO (virtio_forwarder_main.c).
use virtio_forwarder.Prelude.{
  ℕ, ◌+◌, ◌^◌, ◌%◌, Bool, true, false, not, ◌&&◌, Option, none, some, [], ◌∷◌, ◌++◌, ◌==◌, ltb, leb,
  if◌then◌else◌, and_then, Bytes, codes, str_equal, length, take, set, get_elem?,
}
use virtio_forwarder.Prelude.Int.{ℤ, pos}
use virtio_forwarder.Scan.{Scanned, scan_unsigned, scan_word, spans, before}
use virtio_forwarder.Options.{
  StaticRelay, Settings, Files, Callback, with_arg, done, in_vhost, in_dpdk,
}

-- strchr(arg, c): what is behind the first `c`.
unfoldable pub after : ℕ → Bytes → Option Bytes
after c [] = none
after c (d ∷ s) = let rest = after c s in if d == c then some s else rest

abbrev pub entry_at : Settings → Option StaticRelay
entry_at s = get_elem? s.vhost_conf.static_relays s.vhost_conf.num_static_entries

-- The entry behind the last one that counts is filled.
abbrev pub fill_entry : StaticRelay → Settings → Settings
fill_entry e = in_vhost λ v. record v { static_relays = set v.static_relays v.num_static_entries e }

abbrev pub add_entry : Settings → Settings
add_entry = in_vhost λ v. record v { num_static_entries = v.num_static_entries + 1 }

-- `*virtio_id >= MAX_RELAYS`, where the id is an `int`: half of the values are negative.
abbrev pub is_too_large : ℕ → ℕ → Bool
is_too_large max id = ltb id (2 ^ 31) && leb max id

-- The tests on an entry that has been read, once the device has been looked for.
abbrev pub check_found : Option Bool → (id : ℕ) → Settings → Option (Settings × ℤ)
check_found none id s = some (s, pos 1)
check_found (some is_dir) id s =
    if is_too_large (length s.vhost_conf.static_relays) id
    then some (s, pos 1)
    else done (add_entry s)

unfoldable pub check_entry : Files → (dbdf : Bytes) → (id : ℕ) → Settings → Option (Settings × ℤ)
check_entry stat dbdf id s =
    check_found (stat (take 49 (codes "/sys/bus/pci/devices/" ++ dbdf))) id s

-- The number behind the equals sign, once the name has been stored in the entry.
abbrev pub read_id :
    Files → Bytes → StaticRelay → Settings → Option (Scanned ℕ) → Option (Settings × ℤ)
read_id stat dbdf e s none = some (fill_entry (record e { pci_dbdf = dbdf }) s, pos 1)
read_id stat dbdf e s (some n) =
    check_entry stat dbdf (n.value % 2 ^ 32)
      (fill_entry (record { pci_dbdf = dbdf; virtio_id = n.value % 2 ^ 32 }) s)

-- sscanf(arg, "%20s", dbdf) stores 20 characters and a terminator in the 20 characters of the
-- entry.
abbrev pub read_dbdf :
    Files → Bytes → StaticRelay → Settings → Option (Scanned Bytes) → Option (Settings × ℤ)
read_dbdf stat behind e s none = some (s, pos 1)
read_dbdf stat behind e s (some w) =
    if leb 20 (length w.value) then none else read_id stat w.value e s (scan_unsigned behind)

abbrev pub split_entry :
    Files → Bytes → StaticRelay → Settings → Option Bytes → Option (Settings × ℤ)
split_entry stat arg e s none = some (s, pos 1)
split_entry stat arg e s (some behind) = read_dbdf stat behind e s (scan_word 20 (before b'=' arg))

unfoldable pub cmdline_add_static_vf : Files → Callback
unfolding after check_entry
cmdline_add_static_vf stat = with_arg λ arg s.
    if leb (length s.vhost_conf.static_relays) s.vhost_conf.num_static_entries
    then some (s, pos 1)
    else and_then (entry_at s) λ e. split_entry stat arg e s (after b'=' arg)

-- The argument is the format of snprintf: one with a '%' has no defined behaviour.
unfoldable pub cmdline_set_vfio_vf_token : Callback
cmdline_set_vfio_vf_token = with_arg λ arg s.
    if str_equal arg []
    then done (in_dpdk (λ d. record d { enable_vfio_vf_token = false }) s)
    else if str_equal arg (codes "0")
    then done (in_dpdk (λ d. record d { enable_vfio_vf_token = true }) s)
    else if spans (λ c. not (c == b'%')) arg
    then done
        (in_dpdk (λ d. record d { enable_vfio_vf_token = true; vfio_vf_token = take 36 arg }) s)
    else none
