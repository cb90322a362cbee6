-- ===== src/Examples/Down.antt =====
-- The theorems on the VM-to-VF direction, applied.
use virtio_forwarder.Prelude.{ℕ, ◌≡◌, refl, true, Bool, some, none, [], ◌∷◌, ◌++◌, replicate, arith}
use virtio_forwarder.Bits.{test_bit}
use virtio_forwarder.Bits.Mask.{test_bit-zero}
use virtio_forwarder.Relay.{Relay, virtio_ready, dpdk_ready, dpdk_added, tx_window}
use virtio_forwarder.Datapath.Balance.{Balanced}
use virtio_forwarder.Datapath.Down.{next_tx_queue, relay_vm2vf_traffic}
use virtio_forwarder.Datapath.Down.Inv.{vm2vf-Balanced}
use virtio_forwarder.Datapath.Down.Order.{vm2vf_order}
use virtio_forwarder.Datapath.Down.Progress.{vm2vf_total, vm2vf_hangs, HasTxQueue}
use virtio_forwarder.Examples.{some_io, some_io-IsIo, mbuf, a_vio, a_dpdk, a_relay}

-- A ready guest with transmit queues 0 and 2, and a ready VF.
abbrev forwarding : Relay
forwarding =
    a_relay (a_vio virtio_ready 1 5 1 true (replicate 32 0))
      (a_dpdk dpdk_ready [] (replicate 32 (mbuf 0)))

forwarding-Balanced : Balanced forwarding
forwarding-Balanced = record {
  tx_room = refl;
  tx_fits = omega arith;
  rx_room = refl;
  rx_fits = omega arith;
  down = refl;
  up = refl;
}

forwarding-HasTxQueue : HasTxQueue some_io forwarding
unfolding test_bit
forwarding-HasTxQueue = (0, omega arith, λ i. refl)

vm2vf_total_example : (out : Relay × Bool) × (relay_vm2vf_traffic some_io forwarding ≡ some out)
vm2vf_total_example =
    vm2vf_total some_io forwarding some_io-IsIo forwarding-Balanced (λ e. forwarding-HasTxQueue)

-- The relay after that run.
abbrev forwarded : (out : Relay × Bool) × (relay_vm2vf_traffic some_io forwarding ≡ some out)
forwarded =
    vm2vf_total some_io forwarding some_io-IsIo forwarding-Balanced (λ e. forwarding-HasTxQueue)

vm2vf_order_example :
    (forwarded.0.0.trace.to_vf ++ tx_window forwarded.0.0 ≡ mbuf 1 ∷ mbuf 2 ∷ mbuf 3 ∷ [])
    × (forwarded.0.0.trace.freed ≡ [])
    × (forwarded.0.1 ≡ true)
unfolding test_bit
vm2vf_order_example =
    vm2vf_order some_io forwarding some_io-IsIo forwarding-Balanced refl refl forwarded.1

vm2vf-Balanced_example : Balanced forwarded.0.0
vm2vf-Balanced_example =
    vm2vf-Balanced some_io forwarding some_io-IsIo forwarding-Balanced forwarded.1

-- The guest has enabled no transmit queue yet.
abbrev queueless : Relay
queueless =
    a_relay (a_vio virtio_ready 1 0 1 true (replicate 32 0))
      (a_dpdk dpdk_added [] (replicate 32 (mbuf 0)))

vm2vf_hangs_example :
    (relay_vm2vf_traffic some_io queueless ≡ none)
    × ((fuel : ℕ) → next_tx_queue fuel 4 (λ i. 0) 0 0 ≡ none)
vm2vf_hangs_example = vm2vf_hangs some_io queueless refl refl (λ i k h. test_bit-zero k)
