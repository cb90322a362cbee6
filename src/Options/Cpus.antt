-- ===== src/Options/Cpus.antt =====
-- The options for the CPUs (virtio_forwarder_main.c): the mask of the worker threads, and the CPUs
-- of a relay.
use virtio_forwarder.Prelude.{
  ℕ, ◌-◌, ◌^◌, ◌%◌, min, Bool, not, ◌||◌, Option, none, some, List, [], ◌∷◌, ◌==◌, ltb, leb,
  if◌then◌else◌, and_then, Bytes, codes, starts_with, length, drop, set,
}
use virtio_forwarder.Prelude.Int.{ℤ, pos, negsuc, is_error}
use virtio_forwarder.Bits.{set_bit}
use virtio_forwarder.World.{RelayCpus}
use virtio_forwarder.Sockets.Names.{is_digit}
use virtio_forwarder.Scan.{scan_unsigned, scan_char, spans, tokens}
use virtio_forwarder.Ovsdb.Map.Strtol.{digit, number}
use virtio_forwarder.Options.{Settings, VhostConf, Callback, with_arg, done, in_vhost}

abbrev pub is_hex : ℕ → Bool
is_hex c = ltb (digit c) 16

-- strtoull(arg, &eptr, 16) of hexadecimal digits.
abbrev pub hex_mask : Bytes → ℕ
hex_mask arg = min (number 16 arg 0) (2 ^ 64 - 1)

abbrev pub with_mask : ℕ → Settings → Settings
with_mask b = in_vhost λ v. record v { worker_core_bitmap = b }

-- strtoul(s, &eptr, 10) of decimal digits.
abbrev pub cpu_of : Bytes → ℕ
cpu_of s = number 10 s 0

-- The loop over the CPUs of the list; an invalid CPU ends it with an empty mask.
unfoldable pub cpu_list : List Bytes → (mask : ℕ) → ℕ
cpu_list [] mask = mask
cpu_list (s ∷ ss) mask =
    let rest = cpu_list ss (set_bit mask (cpu_of s)) in if leb 64 (cpu_of s) then 0 else rest

unfoldable pub cmdline_set_cpus : Callback
unfolding cpu_list
cmdline_set_cpus = with_arg λ arg s.
    if starts_with arg (codes "0x")
    then (if spans is_hex (drop 2 arg)
        then done (with_mask (hex_mask (drop 2 arg)) s)
        else some (s, negsuc 0))
    else if spans (λ c. is_digit c || c == b',') arg
    then (let mask = cpu_list (tokens b',' arg) 0 in
        some (with_mask mask s, if mask == 0 then negsuc 0 else pos 0))
    else some (s, negsuc 0)

-- The numbers of "%u:%u" or "%u:%u,%u"; an `unsigned` keeps 32 bits.
pub record VfCpu : Type 0 where
  pub virtio : ℕ
  pub cpu1 : ℕ
  pub cpu2 : ℕ

abbrev unsigned : ℕ → ℕ
unsigned n = n % 2 ^ 32

abbrev has_comma : Bytes → Bool
has_comma arg = not (spans (λ c. not (c == b',')) arg)

unfoldable pub scan_vf_cpu : Bytes → Option VfCpu
scan_vf_cpu arg = and_then (scan_unsigned arg) λ virtio. and_then (scan_char b':' virtio.rest) λ s.
    and_then (scan_unsigned s) λ cpu1.
      let first : VfCpu = record {
        virtio = unsigned virtio.value;
        cpu1 = unsigned cpu1.value;
        cpu2 = unsigned cpu1.value;
      } in
      if not (has_comma arg)
      then some first
      else and_then (scan_char b',' cpu1.rest)
          λ s. and_then (scan_unsigned s) λ cpu2. some (record first { cpu2 = unsigned cpu2.value })

-- `vhost_conf.relay_cpus[virtio] = ...`
unfoldable pub set_relay_cpus : VfCpu → Settings → Option (Settings × ℤ)
set_relay_cpus c s =
    let cpus : RelayCpus = record { vf2vio_cpu = some c.cpu1; vio2vf_cpu = some c.cpu2 } in
    let change : VhostConf → VhostConf =
      λ v. record v { relay_cpus = set v.relay_cpus c.virtio cpus } in
    if ltb c.virtio (length s.vhost_conf.relay_cpus) then done (in_vhost change s) else none

abbrev pub check_vf_cpu : Option VfCpu → Settings → Option (Settings × ℤ)
check_vf_cpu none s = some (s, pos 1)
check_vf_cpu (some c) s =
    if ltb (length s.vhost_conf.relay_cpus) c.virtio
    then some (s, pos 1)
    else if leb 64 c.cpu1 || leb 64 c.cpu2
    then some (s, pos 1)
    else set_relay_cpus c s

unfoldable pub cmdline_set_vf_cpu : Bytes → Settings → Option (Settings × ℤ)
unfolding scan_vf_cpu set_relay_cpus
cmdline_set_vf_cpu arg s = check_vf_cpu (scan_vf_cpu arg) s

-- The loop over the tokens, which the first error ends.
unfoldable pub set_vf_cpus_loop : List Bytes → Settings → Option (Settings × ℤ)
unfolding cmdline_set_vf_cpu
set_vf_cpus_loop [] s = done s
set_vf_cpus_loop (tok ∷ toks) s =
    and_then (cmdline_set_vf_cpu tok s)
      λ r. if is_error r.1 then some r else set_vf_cpus_loop toks r.0

unfoldable pub cmdline_set_vf_cpus : Callback
unfolding set_vf_cpus_loop
cmdline_set_vf_cpus = with_arg λ arg s. set_vf_cpus_loop (tokens b';' arg) s
