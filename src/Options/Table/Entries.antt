-- ===== src/Options/Table/Entries.antt =====
-- The option for a static VF keeps the configuration valid.
use virtio_forwarder.Prelude.{
  ℕ, ◌≤◌, ◌<◌, Bool, Option, none, some, ◌++◌, leb, and_then, Bytes, codes, length, take,
  length-set, ◌∙◌, arith, if_intro, Bool-cases, inl, inr,
}
use virtio_forwarder.Prelude.Int.{ℤ}
use virtio_forwarder.Scan.{Scanned, scan_unsigned, scan_word, before}
use virtio_forwarder.Options.{StaticRelay, Settings, Files}
use virtio_forwarder.Options.Static.{
  check_found, check_entry, entry_at, fill_entry, add_entry, is_too_large, read_id, read_dbdf,
  split_entry, after, cmdline_add_static_vf,
}
use virtio_forwarder.Options.Table.Valid.{IsValid, Keeps, Keeps-with_arg, ShortDbdf, All-set}

fill_entry-Valid :
    (max : ℕ) (e : StaticRelay) (s : Settings)
    → IsValid max s.vhost_conf
    → ShortDbdf e
    → IsValid max (fill_entry e s).vhost_conf
fill_entry-Valid max e s h k = record {
  mask = h.mask;
  cpus = h.cpus;
  cpus_length = h.cpus_length;
  entries =
      All-set ShortDbdf s.vhost_conf.static_relays s.vhost_conf.num_static_entries e h.entries k;
  entries_length =
      length-set s.vhost_conf.static_relays s.vhost_conf.num_static_entries e ∙ h.entries_length;
  num_entries = h.num_entries;
  path = h.path;
  name = h.name;
  user = h.user;
  group = h.group;
}

add_entry-Valid :
    (max : ℕ) (s : Settings)
    → IsValid max s.vhost_conf
    → s.vhost_conf.num_static_entries < max
    → IsValid max (add_entry s).vhost_conf
add_entry-Valid max s h k = record {
  mask = h.mask;
  cpus = h.cpus;
  cpus_length = h.cpus_length;
  entries = h.entries;
  entries_length = h.entries_length;
  num_entries = omega arith;
  path = h.path;
  name = h.name;
  user = h.user;
  group = h.group;
}

check_found-Valid :
    (max : ℕ) (o : Option Bool) (id : ℕ) (s : Settings)
    → IsValid max s.vhost_conf
    → s.vhost_conf.num_static_entries < max
    → Keeps max (check_found o id s)
check_found-Valid max none id s h k = h
check_found-Valid max (some d) id s h k =
    if_intro (Keeps max) (is_too_large (length s.vhost_conf.static_relays) id) _ _ h
      (add_entry-Valid max s h k)

check_entry-Valid :
    (max : ℕ) (stat : Files) (dbdf : Bytes) (id : ℕ) (s : Settings)
    → IsValid max s.vhost_conf
    → s.vhost_conf.num_static_entries < max
    → Keeps max (check_entry stat dbdf id s)
unfolding check_entry
check_entry-Valid max stat dbdf id s h k =
    check_found-Valid max (stat (take 49 (codes "/sys/bus/pci/devices/" ++ dbdf))) id s h k

read_id-Valid :
    (max : ℕ) (stat : Files) (dbdf : Bytes) (e : StaticRelay) (s : Settings)
    (n : Option (Scanned ℕ))
    → IsValid max s.vhost_conf
    → s.vhost_conf.num_static_entries < max
    → length dbdf ≤ 19
    → Keeps max (read_id stat dbdf e s n)
read_id-Valid max stat dbdf e s none h k l =
    fill_entry-Valid max (record e { pci_dbdf = dbdf }) s h l
read_id-Valid max stat dbdf e s (some n) h k l =
    check_entry-Valid max stat dbdf _ _ (fill_entry-Valid max _ s h l) k

read_dbdf-Valid :
    (max : ℕ) (stat : Files) (behind : Bytes) (e : StaticRelay) (s : Settings)
    (w : Option (Scanned Bytes))
    → IsValid max s.vhost_conf
    → s.vhost_conf.num_static_entries < max
    → Keeps max (read_dbdf stat behind e s w)
read_dbdf-Valid max stat behind e s none h k = h
read_dbdf-Valid max stat behind e s (some w) h k = elim (Bool-cases (leb 20 (length w.value))) [
  | inl b ↦ rw b tt
  | inr b ↦ rw b (read_id-Valid max stat w.value e s (scan_unsigned behind) h k (ground arith))
]

split_entry-Valid :
    (max : ℕ) (stat : Files) (arg : Bytes) (e : StaticRelay) (s : Settings) (o : Option Bytes)
    → IsValid max s.vhost_conf
    → s.vhost_conf.num_static_entries < max
    → Keeps max (split_entry stat arg e s o)
split_entry-Valid max stat arg e s none h k = h
split_entry-Valid max stat arg e s (some behind) h k =
    read_dbdf-Valid max stat behind e s (scan_word 20 (before b'=' arg)) h k

entry-Keeps :
    (max : ℕ) (o : Option StaticRelay) (f : StaticRelay → Option (Settings × ℤ))
    → ((e : StaticRelay) → Keeps max (f e))
    → Keeps max (and_then o f)
entry-Keeps max none f h = tt
entry-Keeps max (some e) f h = h e

pub add_static_vf-Valid :
    (max : ℕ) (stat : Files) (arg : Option Bytes) (i : ℕ) (s : Settings)
    → IsValid max s.vhost_conf
    → Keeps max (cmdline_add_static_vf stat arg i s)
unfolding cmdline_add_static_vf
add_static_vf-Valid max stat arg i s h =
    Keeps-with_arg max _ i s
      (λ arg.
        elim (Bool-cases
          (leb (length s.vhost_conf.static_relays) s.vhost_conf.num_static_entries)) [
            | inl e ↦ rw e h
            | inr e ↦ rw e (
                entry-Keeps max (entry_at s) _ (λ x.
                  split_entry-Valid max stat arg x s (after b'=' arg) h
                    (ground (arith, h.entries_length))))
          ])
      arg
