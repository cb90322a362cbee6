-- ===== src/Options/Table/Valid.antt =====
-- Whatever the command line is, the options leave a configuration that the rest of the daemon can
-- use.
use virtio_forwarder.Prelude.{
  ℕ, zero, suc, ◌^◌, ◌≤◌, ◌<◌, Bool, ◌||◌, Option, none, some, List, [], ◌∷◌, ◌==◌, ltb, leb,
  and_then, Bytes, codes, starts_with, length, drop, set, length-set, All, ◌≡◌, ◌∙◌, arith,
  if_intro, Bool-cases, inl, inr,
}
use virtio_forwarder.Prelude.Int.{ℤ, pos, is_error}
use virtio_forwarder.Bits.{set_bit}
use virtio_forwarder.Bits.Mask.{set_bit-lt}
use virtio_forwarder.World.{RelayCpus}
use virtio_forwarder.Scan.{tokens, spans}
use virtio_forwarder.Sockets.Names.{is_digit}
use virtio_forwarder.Options.{StaticRelay, VhostConf, Settings, with_arg, if_directory, done}
use virtio_forwarder.Options.Cpus.{
  cmdline_set_cpus, cpu_list, cpu_of, hex_mask, with_mask, is_hex, VfCpu, scan_vf_cpu,
  set_relay_cpus, check_vf_cpu, cmdline_set_vf_cpu, set_vf_cpus_loop, cmdline_set_vf_cpus,
}

-- Both directions of a relay have a CPU, or none has.
abbrev pub Both : (ℕ → Type 0) → Option ℕ → Option ℕ → Type 0
Both P none none = Unit {0}
Both P none (some b) = ⊥
Both P (some a) none = ⊥
Both P (some a) (some b) = P a × P b

abbrev pub BothCpus : (ℕ → Type 0) → RelayCpus → Type 0
BothCpus P c = Both P c.vf2vio_cpu c.vio2vf_cpu

abbrev pub BothBelow64 : RelayCpus → Type 0
BothBelow64 = BothCpus (λ cpu. cpu < 64)

abbrev pub ShortDbdf : StaticRelay → Type 0
ShortDbdf e = length e.pci_dbdf ≤ 19

pub record IsValid (max_relays : ℕ) (v : VhostConf) : Type 0 where
  pub mask : v.worker_core_bitmap < 2 ^ 64
  pub cpus : All BothBelow64 v.relay_cpus
  pub cpus_length : length v.relay_cpus ≡ max_relays
  pub entries : All ShortDbdf v.static_relays
  pub entries_length : length v.static_relays ≡ max_relays
  pub num_entries : v.num_static_entries ≤ max_relays
  pub path : length v.socket_path ≤ 127
  pub name : length v.socket_name ≤ 31
  pub user : length v.vhost_username ≤ 31
  pub group : length v.vhost_groupname ≤ 31

-- The result of a callback, if there is one, is valid.
abbrev pub Keeps : ℕ → Option (Settings × ℤ) → Type 0
Keeps max none = Unit {0}
Keeps max (some r) = IsValid max r.0.vhost_conf

pub Keeps-with_arg :
    (max : ℕ) (f : Bytes → Settings → Option (Settings × ℤ)) (i : ℕ) (s : Settings)
    → ((arg : Bytes) → Keeps max (f arg s))
    → (arg : Option Bytes) → Keeps max (with_arg f arg i s)
Keeps-with_arg max f i s h none = tt
Keeps-with_arg max f i s h (some arg) = h arg

pub Keeps-if_directory :
    (max : ℕ) (d : Option Bool) (s s' : Settings)
    → IsValid max s.vhost_conf
    → IsValid max s'.vhost_conf
    → Keeps max (if_directory d s s')
Keeps-if_directory max none s s' h k = h
Keeps-if_directory max (some d) s s' h k = if_intro (Keeps max) d (done s') (some (s, pos 1)) k h

pub Keeps-and_then :
    (max : ℕ) (o : Option (Settings × ℤ)) (f : Settings × ℤ → Option (Settings × ℤ))
    → Keeps max o
    → ((r : Settings × ℤ) → IsValid max r.0.vhost_conf → Keeps max (f r))
    → Keeps max (and_then o f)
Keeps-and_then max none f h k = tt
Keeps-and_then max (some r) f h k = k r h

pub All-set {ℓ κ} :
    {A : Type ℓ} (P : A → Type κ) (xs : List A) (i : ℕ) (a : A)
    → All P xs
    → P a
    → All P (set xs i a)
All-set P [] i a h k = h
All-set P (x ∷ xs) zero a h k = (k, h.1)
All-set P (x ∷ xs) (suc i) a h k = (h.0, All-set P xs i a h.1 k)

cpu_list-lt : (ss : List Bytes) (mask : ℕ) → mask < 2 ^ 64 → cpu_list ss mask < 2 ^ 64
unfolding cpu_list
cpu_list-lt [] mask h = h
cpu_list-lt (s ∷ ss) mask h = elim (Bool-cases (leb 64 (cpu_of s))) [
  | inl e ↦ rw e (omega arith)
  | inr e ↦
      rw e
        (cpu_list-lt ss (set_bit mask (cpu_of s)) (set_bit-lt 64 (cpu_of s) mask (ground arith) h))
]

with_mask-Valid :
    (max b : ℕ) (s : Settings)
    → IsValid max s.vhost_conf
    → b < 2 ^ 64
    → IsValid max (with_mask b s).vhost_conf
with_mask-Valid max b s h k = record {
  mask = k;
  cpus = h.cpus;
  cpus_length = h.cpus_length;
  entries = h.entries;
  entries_length = h.entries_length;
  num_entries = h.num_entries;
  path = h.path;
  name = h.name;
  user = h.user;
  group = h.group;
}

pub set_cpus-Valid :
    (max : ℕ) (arg : Option Bytes) (i : ℕ) (s : Settings)
    → IsValid max s.vhost_conf
    → Keeps max (cmdline_set_cpus arg i s)
unfolding cmdline_set_cpus
set_cpus-Valid max arg i s h =
    Keeps-with_arg max _ i s
      (λ arg.
        if_intro (Keeps max) (starts_with arg (codes "0x")) _ _
          (if_intro (Keeps max) (spans is_hex (drop 2 arg)) _ _
            (with_mask-Valid max (hex_mask (drop 2 arg)) s h (omega arith)) h)
          (if_intro (Keeps max) (spans (λ c. is_digit c || c == b',') arg) _ _
            (with_mask-Valid max (cpu_list (tokens b',' arg) 0) s h
              (cpu_list-lt (tokens b',' arg) 0 (omega arith)))
            h))
      arg

with_cpus-Valid :
    (max : ℕ) (v : VhostConf) (i : ℕ) (c : RelayCpus)
    → IsValid max v
    → BothBelow64 c
    → IsValid max (record v { relay_cpus = set v.relay_cpus i c })
with_cpus-Valid max v i c h k = record {
  mask = h.mask;
  cpus = All-set BothBelow64 v.relay_cpus i c h.cpus k;
  cpus_length = length-set v.relay_cpus i c ∙ h.cpus_length;
  entries = h.entries;
  entries_length = h.entries_length;
  num_entries = h.num_entries;
  path = h.path;
  name = h.name;
  user = h.user;
  group = h.group;
}

check_vf_cpu-Valid :
    (max : ℕ) (o : Option VfCpu) (s : Settings)
    → IsValid max s.vhost_conf
    → Keeps max (check_vf_cpu o s)
unfolding set_relay_cpus
check_vf_cpu-Valid max none s h = h
check_vf_cpu-Valid max (some c) s h =
    if_intro (Keeps max) (ltb (length s.vhost_conf.relay_cpus) c.virtio) _ _ h
      (elim (Bool-cases (leb 64 c.cpu1 || leb 64 c.cpu2)) [
        | inl e ↦ rw e h
        | inr e ↦ rw e (
            if_intro (Keeps max) (ltb c.virtio (length s.vhost_conf.relay_cpus)) _ _
              (with_cpus-Valid max s.vhost_conf c.virtio _ h (ground arith, ground arith)) tt)
      ])

set_vf_cpus_loop-Valid :
    (max : ℕ) (toks : List Bytes) (s : Settings)
    → IsValid max s.vhost_conf
    → Keeps max (set_vf_cpus_loop toks s)
unfolding set_vf_cpus_loop cmdline_set_vf_cpu
set_vf_cpus_loop-Valid max [] s h = h
set_vf_cpus_loop-Valid max (tok ∷ toks) s h =
    Keeps-and_then max (check_vf_cpu (scan_vf_cpu tok) s) _
      (check_vf_cpu-Valid max (scan_vf_cpu tok) s h)
      (λ r k.
        if_intro (Keeps max) (is_error r.1) (some r) (set_vf_cpus_loop toks r.0) k
          (set_vf_cpus_loop-Valid max toks r.0 k))

pub set_vf_cpus-Valid :
    (max : ℕ) (arg : Option Bytes) (i : ℕ) (s : Settings)
    → IsValid max s.vhost_conf
    → Keeps max (cmdline_set_vf_cpus arg i s)
unfolding cmdline_set_vf_cpus
set_vf_cpus-Valid max arg i s h =
    Keeps-with_arg max _ i s (λ arg. set_vf_cpus_loop-Valid max (tokens b';' arg) s h) arg
