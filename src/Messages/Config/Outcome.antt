-- ===== src/Messages/Config/Outcome.antt =====
-- What the configuration service tells.
use virtio_forwarder.Prelude.{
  ℕ, ◌+◌, ◌<◌, ◌≤◌, true, Option, none, some, List, [], ◌∷◌, Bytes, length, All, ◌≡◌, refl, arith,
}
use virtio_forwarder.Bits.{test_bit}
use virtio_forwarder.World.{RelayCpus}
use virtio_forwarder.Cmdline.{Getopt}
use virtio_forwarder.Options.{Settings, Files}
use virtio_forwarder.Options.Table.{configure, go_on}
use virtio_forwarder.Options.Table.Valid.{Both}
use virtio_forwarder.Options.Table.Checked.{configure-Checked, InMask}
use virtio_forwarder.Messages.Config.{
  RelayCpu, ok, add_relay_cpu, relay_cpus_from, handle_ConfigRequest,
}

-- An entry of the response is about a relay of the table, with worker CPUs.
abbrev pub EntryIn : (mask max_relays : ℕ) → RelayCpu → Type 0
EntryIn mask max_relays e =
    (e.relay_number < max_relays)
    × (test_bit mask e.vf2virtio_cpu ≡ true)
    × (test_bit mask e.virtio2vf_cpu ≡ true)

add_relay_cpu-in :
    (mask max i : ℕ) (a b : Option ℕ) (rest : List RelayCpu)
    → i < max
    → Both (λ cpu. test_bit mask cpu ≡ true) a b
    → All (EntryIn mask max) rest
    → All (EntryIn mask max) (add_relay_cpu i a b rest)
add_relay_cpu-in mask max i (some a) (some b) rest l h k = ((l, h.0, h.1), k)
add_relay_cpu-in mask max i (some a) none rest l h k = k
add_relay_cpu-in mask max i none b rest l h k = k

relay_cpus_from-in :
    (mask max i : ℕ) (cs : List RelayCpus)
    → i + length cs ≤ max
    → All (InMask mask) cs
    → All (EntryIn mask max) (relay_cpus_from i cs)
unfolding relay_cpus_from
relay_cpus_from-in mask max i [] l h = tt
relay_cpus_from-in mask max i (c ∷ cs) l h =
    add_relay_cpu-in mask max i c.vf2vio_cpu c.vio2vf_cpu _ (omega arith) h.0
      (relay_cpus_from-in mask max (i + 1) cs (omega arith) h.1)

-- A daemon that has started with the settings of its command line answers a configuration request
-- that can be decoded with OK, and with entries for relays of its table only, whose CPUs are worker
-- CPUs.
pub handle_ConfigRequest-in :
    (getopt : Getopt) (stat : Files) (max_relays : ℕ) (argv : List Bytes) (s : Settings)
    → configure getopt stat max_relays argv ≡ some (go_on s)
    → ((handle_ConfigRequest s.vhost_conf true).status ≡ ok)
      × All
          (EntryIn s.vhost_conf.worker_core_bitmap max_relays)
          (handle_ConfigRequest s.vhost_conf true).relay_cpu_map
unfolding handle_ConfigRequest
handle_ConfigRequest-in getopt stat max_relays argv s e =
    let (valid, inside, mask) = configure-Checked getopt stat max_relays argv s e in
    (
      refl,
      relay_cpus_from-in _ max_relays 0 s.vhost_conf.relay_cpus (omega (arith, valid.cpus_length))
          inside,
    )
