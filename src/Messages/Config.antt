-- ===== src/Messages/Config.antt =====
-- handle_ConfigRequest of zmq_config.c, from the decoded request to the response before it is
-- encoded.
pub mod Outcome
use virtio_forwarder.Prelude.{
  ℕ, ◌+◌, Bool, true, false, ◌&&◌, Option, none, some, List, [], ◌∷◌, if◌then◌else◌,
}
use virtio_forwarder.World.{RelayCpus}
use virtio_forwarder.Options.{VhostConf}

-- `Virtioforwarder__ConfigResponse__RelayCPU`, for a relay with a CPU in each direction.
pub record RelayCpu : Type 0 where
  pub relay_number : ℕ
  pub vf2virtio_cpu : ℕ
  pub virtio2vf_cpu : ℕ

pub data Status : Type 0 where
  ok ebadr : Status

pub record ConfigResponse : Type 0 where
  pub status : Status
  pub relay_cpu_map : List RelayCpu

-- The entry of relay `i`, in front of those behind it, if neither CPU is -1.
abbrev pub add_relay_cpu : (i : ℕ) → Option ℕ → Option ℕ → List RelayCpu → List RelayCpu
add_relay_cpu i (some a) (some b) rest =
    (record { relay_number = i; vf2virtio_cpu = a; virtio2vf_cpu = b }) ∷ rest
add_relay_cpu i (some a) none rest = rest
add_relay_cpu i none b rest = rest

-- The loop of relay_cpus_query from relay `i` on.
unfoldable pub relay_cpus_from : (i : ℕ) → List RelayCpus → List RelayCpu
relay_cpus_from i [] = []
relay_cpus_from i (c ∷ cs) = add_relay_cpu i c.vf2vio_cpu c.vio2vf_cpu (relay_cpus_from (i + 1) cs)

unfoldable pub relay_cpus_query : VhostConf → List RelayCpu
unfolding relay_cpus_from
relay_cpus_query conf = relay_cpus_from 0 conf.relay_cpus

-- Whether the request could be decoded is all that counts of it.
unfoldable pub handle_ConfigRequest : VhostConf → (decoded : Bool) → ConfigResponse
unfolding relay_cpus_query
handle_ConfigRequest conf decoded =
    if decoded
    then record { status = ok; relay_cpu_map = relay_cpus_query conf }
    else record { status = ebadr; relay_cpu_map = [] }
