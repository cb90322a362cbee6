-- ===== src/Datapath/Removal.antt =====
-- The removal of a VF, which the main thread starts with DPDK_REMOVING1, passes through the two
-- worker threads of the relay.
use virtio_forwarder.Prelude.{ℕ, ◌≡◌, ap₂, ◌∙◌, Bool, some, List}
use virtio_forwarder.Relay.{Relay, dpdk_removing1, dpdk_removing2}
use virtio_forwarder.Datapath.Io.{Io}
use virtio_forwarder.Datapath.Up.{relay_vf2vm_traffic, dpdk_handover}
use virtio_forwarder.Datapath.Up.Keeps.{vf2vm-handover}
use virtio_forwarder.Datapath.Down.{relay_vm2vf_traffic}
use virtio_forwarder.Datapath.Down.Release.{Released, vm2vf-Released}

-- After the main thread has asked for the removal of a VF (DPDK_REMOVING1), on a relay whose other
-- direction has a CPU: a run of VF to VM hands it over (DPDK_REMOVING2), and the next run of VM to
-- VF releases it (DPDK_UNINIT) and leaves no packet buffered in either direction, whatever the
-- packet sources and sinks answer in the two runs.
pub vf-Released :
    (jhash : List ℕ → ℕ → ℕ) (io io' : Io) (r : Relay) (cpu : ℕ) {up down : Relay}
    {busy busy' : Bool}
    → r.dpdk.state ≡ dpdk_removing1
    → r.vio.vio2vf_cpu ≡ some cpu
    → relay_vf2vm_traffic jhash io r ≡ some (up, busy)
    → relay_vm2vf_traffic io' up ≡ some (down, busy')
    → (up.dpdk.state ≡ dpdk_removing2) × Released down
vf-Released jhash io io' r cpu {up} asked other run_up run_down =
    let told : up.dpdk.state ≡ dpdk_removing2 =
      vf2vm-handover jhash io r run_up ∙ ap₂ dpdk_handover other asked in
    (told, vm2vf-Released io' up told run_down)
