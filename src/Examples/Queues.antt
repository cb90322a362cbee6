-- ===== src/Examples/Queues.antt =====
-- The theorems on the masks and the tables of queues, applied.
use virtio_forwarder.Prelude.{ℕ, ◌≡◌, refl, true, false, replicate, arith, if◌then◌else◌, ◌==◌}
use virtio_forwarder.Bits.{test_bit, popcount, ones, drain}
use virtio_forwarder.Bits.Drain.{drain-eq-ones}
use virtio_forwarder.Relay.{RelayVirtio, virtio_ready}
use virtio_forwarder.Queues.{vring_state_change}
use virtio_forwarder.Queues.Inv.{Agrees, Fits, vring_state_change_lem}
use virtio_forwarder.Examples.{a_vio}

-- Receive queues 0, 1 and 3 enabled; the table not yet refreshed.
abbrev stale : RelayVirtio
stale = a_vio virtio_ready 11 1 0 false (replicate 32 0)

stale-Fits : Fits stale
stale-Fits = record { narrow = omega arith; room = refl }

drain-eq-ones_example : drain 3 11 ≡ ones 64 0 11
unfolding popcount
drain-eq-ones_example = drain-eq-ones 3 11 (omega arith) (omega arith)

vring_state_change_lem_example :
    let v = vring_state_change 4 true stale in
    Agrees v
    × ((j : ℕ) → test_bit v.rx_q_bitmap j ≡ (if 2 == j then true else test_bit stale.rx_q_bitmap j))
    × ((j : ℕ) → test_bit v.tx_q_bitmap j ≡ test_bit stale.tx_q_bitmap j)
vring_state_change_lem_example = vring_state_change_lem 4 true stale (omega arith) stale-Fits
