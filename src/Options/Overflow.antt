-- ===== src/Options/Overflow.antt =====
-- Accesses outside the tables that a command line can cause (virtio_forwarder_main.c).
use virtio_forwarder.Prelude.{◌<◌, none, some, Bytes, length, ◌≡◌, arith, ◌↔◌}
use virtio_forwarder.Options.{Settings}
use virtio_forwarder.Options.Cpus.{
  VfCpu, scan_vf_cpu, set_relay_cpus, check_vf_cpu, cmdline_set_vf_cpu,
}

check_vf_cpu-overflow :
    (c : VfCpu) (s : Settings)
    → (check_vf_cpu (some c) s ≡ none)
      ↔ ((c.virtio ≡ length s.vhost_conf.relay_cpus) × (c.cpu1 < 64) × (c.cpu2 < 64))
unfolding set_relay_cpus
check_vf_cpu-overflow c s = (λ h. (ground arith, ground arith, ground arith), λ h. ground arith)

-- An option for the CPUs of a relay is stored outside the table exactly when it names the relay
-- MAX_RELAYS with CPUs that there are: that number passes the test, and no other number or CPU that
-- passes it is outside.
pub set_vf_cpu-overflow :
    (arg : Bytes) (c : VfCpu) (s : Settings)
    → scan_vf_cpu arg ≡ some c
    → (cmdline_set_vf_cpu arg s ≡ none)
      ↔ ((c.virtio ≡ length s.vhost_conf.relay_cpus) × (c.cpu1 < 64) × (c.cpu2 < 64))
unfolding cmdline_set_vf_cpu set_relay_cpus
set_vf_cpu-overflow arg c s e = rw e (check_vf_cpu-overflow c s)
