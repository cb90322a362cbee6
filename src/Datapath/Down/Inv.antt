-- ===== src/Datapath/Down/Inv.antt =====
-- relay_vm2vf_traffic keeps the buffers and counters in balance.
use virtio_forwarder.Prelude.{
  ◌+◌, ◌*◌, ◌≤◌, ◌≡◌, Bool, some, length, drop, length-append, length-drop, arith, >>=-eq-some, ap,
  subst,
}
use mathlib.Core.Option.{some-injective}
use virtio_forwarder.Relay.{Relay, tx_window}
use virtio_forwarder.Datapath.Io.{Io, IsIo, flush_rx}
use virtio_forwarder.Datapath.Balance.{
  Balanced, length-tx_window, free_tx-Balanced, flush_tx-Balanced, flush_rx-Balanced,
}
use virtio_forwarder.Datapath.Down.{
  rx_from_guest, virtio_rx, dpdk_tx, worker_remove_vf, fetch_tx, send_tx, signal_virtio_removal,
  finish_vf_removal, relay_vm2vf_traffic,
}

module _ (io : Io) (ok : IsIo io) where
  rcvd-le : (r : Relay) → length (rx_from_guest io r) ≤ 32
  rcvd-le r = ground (arith, ok.dequeued (r.vio.tx_q_rr * 2 + 1) 32)

  virtio_rx-Balanced :
      (r : Relay) {r' : Relay}
      → Balanced r
      → r.vio.tx_pkts_avail ≡ 0
      → virtio_rx io r ≡ some r'
      → Balanced r'
  unfolding virtio_rx
  virtio_rx-Balanced r b z e = ground (
    arith,
    rcvd-le r,
    length-append (rx_from_guest io r) (drop (length (rx_from_guest io r)) r.vio.tx_pkts),
    length-drop (length (rx_from_guest io r)) r.vio.tx_pkts,
  )

  pub send_tx-Balanced :
      (r : Relay) {r' : Relay} → Balanced r → send_tx io r ≡ some r' → Balanced r'
  unfolding send_tx dpdk_tx
  send_tx-Balanced r b e =
      ground (arith, ok.accepted (tx_window r), length-tx_window r b, free_tx-Balanced r b)

  pub fetch_tx-Balanced :
      (r : Relay) {r' : Relay} → Balanced r → fetch_tx io r ≡ some r' → Balanced r'
  unfolding fetch_tx
  fetch_tx-Balanced r {r'} b e = ground (arith, virtio_rx-Balanced r {r' = r'} b)

signal-Balanced : (r : Relay) → Balanced r → Balanced (signal_virtio_removal r)
unfolding signal_virtio_removal
signal-Balanced r b = ground arith

finish-Balanced : (r : Relay) → Balanced r → Balanced (finish_vf_removal r)
unfolding finish_vf_removal worker_remove_vf
finish-Balanced r b = ground (arith, flush_rx-Balanced r b, flush_tx-Balanced (flush_rx r))

-- A run of relay_vm2vf_traffic that ends keeps the relay balanced: in both directions the 64-bit
-- counter of the packets that came in is, modulo 2 ^ 64, the sum of those for packets sent and dropped
-- and of the number still held, and what is held stays within its array.
pub vm2vf-Balanced :
    (io : Io) (r : Relay) {r' : Relay} {busy : Bool}
    → IsIo io
    → Balanced r
    → relay_vm2vf_traffic io r ≡ some (r', busy)
    → Balanced r'
unfolding relay_vm2vf_traffic
vm2vf-Balanced io r ok b e =
    let (fetched, e1, rest) = >>=-eq-some (fetch_tx io r) _ e in
    let (sent, e2, last) = >>=-eq-some (send_tx io fetched) _ rest in
    let b2 = send_tx-Balanced io ok fetched (fetch_tx-Balanced io ok r b e1) e2 in
    subst Balanced (ap (λ p. p.0) (some-injective _ _ last))
      (finish-Balanced _ (signal-Balanced sent b2))
