-- ===== src/Examples/Leaving.antt =====
-- The theorem on the removal of a VF, applied.
use virtio_forwarder.Prelude.{◌≡◌, refl, true, Bool, some, [], ◌∷◌, replicate}
use virtio_forwarder.Bits.{test_bit}
use virtio_forwarder.Relay.{Relay, virtio_ready, dpdk_removing1, dpdk_removing2}
use virtio_forwarder.Datapath.Down.{
  relay_vm2vf_traffic, fetch_tx, virtio_rx, next_tx_queue, send_tx, dpdk_tx, signal_virtio_removal,
  finish_vf_removal,
}
use virtio_forwarder.Datapath.Down.Release.{Released}
use virtio_forwarder.Datapath.Up.{
  relay_vf2vm_traffic, fetch_rx, send_rx, virtio_tx, virtio_tx_single, enqueue_done,
  finish_virtio_removal, signal_vf_removal,
}
use virtio_forwarder.Datapath.Removal.{vf-Released}
use virtio_forwarder.Examples.{some_io, mbuf, first_word, a_vio, a_dpdk, a_relay}

-- A VF that is to be removed while three received packets are buffered, of which the guest takes
-- one.
abbrev leaving : Relay
leaving =
    a_relay (a_vio virtio_ready 1 1 1 true (replicate 32 0))
      (a_dpdk dpdk_removing1 (mbuf 1 ∷ mbuf 2 ∷ mbuf 3 ∷ []) (replicate 29 (mbuf 0)))

abbrev ran_up : (out : Relay × Bool) × (relay_vf2vm_traffic first_word some_io leaving ≡ some out)
unfolding relay_vf2vm_traffic fetch_rx send_rx virtio_tx virtio_tx_single enqueue_done
    finish_virtio_removal signal_vf_removal
ran_up = (_, refl)

abbrev ran_down : (out : Relay × Bool) × (relay_vm2vf_traffic some_io ran_up.0.0 ≡ some out)
unfolding relay_vm2vf_traffic fetch_tx virtio_rx next_tx_queue test_bit send_tx dpdk_tx
    signal_virtio_removal finish_vf_removal ran_up
ran_down = (_, refl)

vf-Released_example : (ran_up.0.0.dpdk.state ≡ dpdk_removing2) × Released ran_down.0.0
vf-Released_example = vf-Released first_word some_io some_io leaving 2 refl refl ran_up.1 ran_down.1
