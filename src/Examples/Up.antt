-- ===== src/Examples/Up.antt =====
-- The theorems on the VF-to-VM direction, applied.
use virtio_forwarder.Prelude.{
  ◌≡◌, refl, true, false, Bool, some, none, [], ◌∷◌, ◌++◌, replicate, arith,
}
use virtio_forwarder.Bits.{popcount, ones}
use virtio_forwarder.Relay.{Relay, RelayVirtio, virtio_ready, dpdk_ready, rx_window}
use virtio_forwarder.Relay.Hash.{hash_words, calc_eth_header_hash}
use virtio_forwarder.Datapath.Balance.{Balanced}
use virtio_forwarder.Datapath.Up.{
  relay_vf2vm_traffic, virtio_tx, virtio_tx_single, virtio_tx_multi, batch, put_queue, send_queues,
  send_row, enqueue_done, fetch_rx, send_rx, finish_virtio_removal, signal_vf_removal,
}
use virtio_forwarder.Datapath.Up.Inv.{vf2vm-Balanced}
use virtio_forwarder.Datapath.Up.Order.{refused_burst_reversed, virtio_tx_single_order}
use virtio_forwarder.Datapath.Up.Bounds.{virtio_tx_total, gap_overflow}
use virtio_forwarder.Queues.Inv.{Agrees, refresh_queues-Agrees}
use virtio_forwarder.Queues.{refresh_queues}
use virtio_forwarder.Examples.{
  some_io, some_io-IsIo, mbuf, marked, first_word, a_vio, a_dpdk, a_relay,
}

-- Three packets for queue 1 are buffered, for a guest with receive queues 0 and 1.
abbrev two_queues : Relay
two_queues =
    a_relay (a_vio virtio_ready 3 1 2 true (0 ∷ 1 ∷ replicate 30 0))
      (a_dpdk dpdk_ready (marked 1 1 ∷ marked 1 2 ∷ marked 1 3 ∷ []) (replicate 29 (mbuf 0)))

two_queues-Balanced : Balanced two_queues
two_queues-Balanced = record {
  tx_room = refl;
  tx_fits = omega arith;
  rx_room = refl;
  rx_fits = omega arith;
  down = refl;
  up = refl;
}

virtio_tx_total_example : (out : Bool × Relay) × (virtio_tx some_io two_queues ≡ some out)
virtio_tx_total_example =
    virtio_tx_total some_io two_queues some_io-IsIo two_queues-Balanced
      (λ h. (omega arith, (omega arith, (omega arith, tt))))

-- The relay after that run.
abbrev sent_multi : (r : Relay) × (virtio_tx_multi some_io two_queues ≡ some r)
unfolding virtio_tx_multi batch put_queue send_queues send_row enqueue_done
sent_multi = (_, refl)

refused_burst_reversed_example :
    (sent_multi.0.trace.to_vm ≡ marked 1 1 ∷ [])
    × (rx_window sent_multi.0 ≡ marked 1 3 ∷ marked 1 2 ∷ [])
refused_burst_reversed_example =
    refused_burst_reversed some_io two_queues 1 some_io-IsIo two_queues-Balanced
      (refl, (refl, (refl, tt))) (omega arith) sent_multi.1

-- The same packets for a guest with one receive queue.
abbrev one_queue : Relay
one_queue =
    a_relay (a_vio virtio_ready 1 1 1 true (replicate 32 0))
      (a_dpdk dpdk_ready (mbuf 1 ∷ mbuf 2 ∷ mbuf 3 ∷ []) (replicate 29 (mbuf 0)))

one_queue-Balanced : Balanced one_queue
one_queue-Balanced = record {
  tx_room = refl;
  tx_fits = omega arith;
  rx_room = refl;
  rx_fits = omega arith;
  down = refl;
  up = refl;
}

abbrev sent_single : (r : Relay) × (virtio_tx_single some_io one_queue ≡ some r)
unfolding virtio_tx_single enqueue_done
sent_single = (_, refl)

virtio_tx_single_order_example :
    sent_single.0.trace.to_vm ++ rx_window sent_single.0 ≡ mbuf 1 ∷ mbuf 2 ∷ mbuf 3 ∷ []
virtio_tx_single_order_example =
    virtio_tx_single_order some_io one_queue some_io-IsIo one_queue-Balanced sent_single.1

abbrev ran_up : (out : Relay × Bool) × (relay_vf2vm_traffic first_word some_io one_queue ≡ some out)
unfolding relay_vf2vm_traffic fetch_rx send_rx virtio_tx virtio_tx_single enqueue_done
    finish_virtio_removal signal_vf_removal
ran_up = (_, refl)

vf2vm-Balanced_example : Balanced ran_up.0.0
vf2vm-Balanced_example =
    vf2vm-Balanced first_word some_io one_queue some_io-IsIo one_queue-Balanced ran_up.1

-- A guest with receive queues 0 and 2, for which a packet from address 5 picks queue 2.
abbrev gap_vio : RelayVirtio
gap_vio = refresh_queues (a_vio virtio_ready 5 1 0 false (replicate 32 0))

gap_vio-Agrees : Agrees gap_vio
gap_vio-Agrees =
    refresh_queues-Agrees (a_vio virtio_ready 5 1 0 false (replicate 32 0))
      (record { narrow = omega arith; room = refl })

abbrev with_gap : Relay
with_gap = a_relay gap_vio (a_dpdk dpdk_ready [] (replicate 32 (mbuf 0)))

gap_overflow_example : relay_vf2vm_traffic first_word some_io with_gap ≡ none
unfolding refresh_queues popcount ones calc_eth_header_hash hash_words
gap_overflow_example =
    gap_overflow first_word some_io with_gap 1 2 some_io-IsIo gap_vio-Agrees refl refl refl refl
      refl (omega arith)
