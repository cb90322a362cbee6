-- ===== src/Examples/Options.antt =====
-- The theorems on the command line, applied.
use virtio_forwarder.Prelude.{
  ℕ, ◌≡◌, ◌<◌, ◌∷◌, [], refl, true, false, Option, none, some, Bool, starts_with, length, List,
  codes, All, Bytes, ◌⊎◌, ◌↔◌,
}
use virtio_forwarder.Prelude.Int.{pos}
use virtio_forwarder.Bits.{set_bit, test_bit}
use virtio_forwarder.Cmdline.{
  Opt, Getopt, Flags, Result, find_option, is_passed_over, parse_found, mandatory_from, has_extra,
  finish, optstring, opt_chars, getopt_options, cmdline_parser,
}
use virtio_forwarder.Cmdline.Outcome.{IsGiven, IsTerminated, answers, cmdline_parser-mandatory}
use virtio_forwarder.Scan.{scan_unsigned, scan_char, spans, tokens}
use virtio_forwarder.Sockets.Names.{skip_space, digits_value}
use virtio_forwarder.Ovsdb.Map.Strtol.{number, digit}
use virtio_forwarder.Options.{Settings}
use virtio_forwarder.Options.Cpus.{
  cmdline_set_cpus, cmdline_set_vf_cpu, cmdline_set_vf_cpus, set_vf_cpus_loop, set_relay_cpus,
  cpu_list, scan_vf_cpu,
}
use virtio_forwarder.Options.Overflow.{set_vf_cpu-overflow}
use virtio_forwarder.Options.Table.{
  opts, default_settings, default_vhost, default_dpdk, check_relays, start_with, configure, go_on,
}
use virtio_forwarder.Options.Table.Valid.{IsValid}
use virtio_forwarder.Options.Table.Checked.{InMask, configure-Checked}
use virtio_forwarder.Messages.Config.{handle_ConfigRequest, ok}
use virtio_forwarder.Messages.Config.Outcome.{EntryIn, handle_ConfigRequest-in}

-- getopt_long on a command line that has the option -C 0xc.
abbrev with_cpus : Getopt
with_cpus optstring options argv = record {
  found = (record { c = b'C'; optarg = some (codes "0xc"); optopt = 0 }) ∷ [];
  argv = argv;
  optind = 3;
}

abbrev a_line : List Bytes
a_line = codes "virtio-forwarder" ∷ codes "-C" ∷ codes "0xc" ∷ []

-- A mandatory option -C that stores nothing, on globals that are a number.
abbrev an_option : Opt ℕ
an_option = record {
  opt_long = codes "cpus";
  opt_short = b'C';
  mandatory = true;
  terminate = false;
  func = λ arg i n. some (n, pos 0);
  has_arg = 1;
}

abbrev strict : Flags
strict = record { ignore_unknown = false; ignore_extra = false }

abbrev parsed_line :
    (r : Result ℕ) × (cmdline_parser with_cpus (an_option ∷ []) a_line strict 4 ≡ some r)
unfolding cmdline_parser optstring opt_chars getopt_options parse_found find_option is_passed_over
    finish mandatory_from has_extra set_bit
parsed_line = (_, refl)

parsed_line-ret : parsed_line.0.ret ≡ pos 0
unfolding set_bit mandatory_from has_extra parsed_line
parsed_line-ret = refl

cmdline_parser-mandatory_example :
    IsTerminated (an_option ∷ []) (answers with_cpus (an_option ∷ []) a_line).found
    ⊎ IsGiven (an_option ∷ []) 0 (answers with_cpus (an_option ∷ []) a_line).found
cmdline_parser-mandatory_example =
    cmdline_parser-mandatory with_cpus (an_option ∷ []) a_line strict 4 0 parsed_line.1
      parsed_line-ret refl refl

abbrev no_files : Bytes → Option Bool
no_files path = none

-- The CPUs 2 and 3 for the first of four relays.
abbrev with_relay : Getopt
with_relay optstring options argv = record {
  found =
      (record { c = b'C'; optarg = some (codes "0xc"); optopt = 0 })
      ∷ (record { c = b'c'; optarg = some (codes "0:2,3"); optopt = 0 })
      ∷ [];
  argv = argv;
  optind = 3;
}

abbrev configured : (s : Settings) × (configure with_relay no_files 4 a_line ≡ some (go_on s))
unfolding configure opts default_settings default_vhost default_dpdk start_with check_relays
    cmdline_parser optstring opt_chars getopt_options parse_found find_option is_passed_over finish
    mandatory_from has_extra set_bit test_bit cmdline_set_cpus cpu_list cmdline_set_vf_cpus
    set_vf_cpus_loop cmdline_set_vf_cpu scan_vf_cpu set_relay_cpus scan_unsigned skip_space
    digits_value scan_char spans tokens number digit starts_with
configured = (_, refl)

configure-Checked_example :
    IsValid 4 configured.0.vhost_conf
    × All (InMask configured.0.vhost_conf.worker_core_bitmap) configured.0.vhost_conf.relay_cpus
    × (configured.0.dpdk_cfg.core_bitmap ≡ configured.0.vhost_conf.worker_core_bitmap)
configure-Checked_example = configure-Checked with_relay no_files 4 a_line configured.0 configured.1

handle_ConfigRequest-in_example :
    ((handle_ConfigRequest configured.0.vhost_conf true).status ≡ ok)
    × All
        (EntryIn configured.0.vhost_conf.worker_core_bitmap 4)
        (handle_ConfigRequest configured.0.vhost_conf true).relay_cpu_map
handle_ConfigRequest-in_example =
    handle_ConfigRequest-in with_relay no_files 4 a_line configured.0 configured.1

-- An option for the relay behind the last one.
scanned : scan_vf_cpu (codes "4:2,3") ≡ some (record { virtio = 4; cpu1 = 2; cpu2 = 3 })
unfolding scan_vf_cpu scan_unsigned skip_space digits_value scan_char spans
scanned = refl

set_vf_cpu-overflow_example :
    (cmdline_set_vf_cpu (codes "4:2,3") (default_settings 4) ≡ none)
    ↔ ((4 ≡ length (default_settings 4).vhost_conf.relay_cpus) × (2 < 64) × (3 < 64))
set_vf_cpu-overflow_example =
    set_vf_cpu-overflow (codes "4:2,3") (record { virtio = 4; cpu1 = 2; cpu2 = 3 })
      (default_settings 4) scanned
