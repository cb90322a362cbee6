-- ===== src/Datapath/Up/Inv.antt =====
-- relay_vf2vm_traffic keeps the buffers and counters in balance.
use virtio_forwarder.Prelude.{
  ℕ, ◌+◌, ◌≡◌, ap, subst, Bool, some, List, [], ◌==◌, length, drop, replicate, length-append,
  length-drop, length-write_at, arith, inl, inr, Bool-cases, >>=-eq-some,
}
use mathlib.Core.Option.{some-injective}
use virtio_forwarder.Relay.{Relay, Mbuf, rx_window, is_dpdk_ready}
use virtio_forwarder.Queues.Select.{length-calc_mbuf_queue}
use virtio_forwarder.Datapath.Io.{Io, IsIo, flush_rx}
use virtio_forwarder.Datapath.Balance.{
  Balanced, length-rx_window, free_rx-Balanced, flush_tx-Balanced, flush_rx-Balanced,
}
use virtio_forwarder.Datapath.Up.{
  try_rcv, mark_queues, dpdk_rx, batch, enqueue_done, virtio_tx_multi, virtio_tx_single, virtio_tx,
  worker_remove_virtio, fetch_rx, send_rx, finish_virtio_removal, signal_vf_removal,
  relay_vf2vm_traffic,
}
use virtio_forwarder.Datapath.Up.Rows.{
  refused, total-replicate, batch-total, length-refused, send_queues-Sends,
}

pub length-mark_queues :
    (jhash : List ℕ → ℕ → ℕ) (r : Relay) (ms : List Mbuf) {out : List Mbuf}
    → mark_queues jhash r ms ≡ some out
    → length out ≡ length ms
unfolding mark_queues
length-mark_queues jhash r ms {out} e =
    ground (arith, length-calc_mbuf_queue jhash r.vio ms {out = out})

module _ (io : Io) (ok : IsIo io) where
  dpdk_rx-Balanced :
      (jhash : List ℕ → ℕ → ℕ) (r : Relay) {r' : Relay}
      → Balanced r
      → r.dpdk.rx_pkts_avail ≡ 0
      → dpdk_rx jhash io r ≡ some r'
      → Balanced r'
  unfolding dpdk_rx
  dpdk_rx-Balanced jhash r b z e = elim (Bool-cases (is_dpdk_ready r.dpdk.state)) [
    | inl up ↦
        let got = io.rx_burst (try_rcv io r) in
        let (rcvd, e1, e2) = >>=-eq-some (mark_queues jhash r got) _ (rw up at e) in
        ground (
          arith,
          ok.received (try_rcv io r),
          length-mark_queues jhash r got e1,
          length-append rcvd (drop (length rcvd) r.dpdk.rx_pkts),
          length-drop (length rcvd) r.dpdk.rx_pkts,
        )
    | inr down ↦ ground arith
  ]

  virtio_tx_single-Balanced :
      (r : Relay) {r' : Relay} → Balanced r → virtio_tx_single io r ≡ some r' → Balanced r'
  unfolding virtio_tx_single enqueue_done
  virtio_tx_single-Balanced r b e =
      ground (arith, ok.enqueued 0 (rx_window r), length-rx_window r b)

  virtio_tx_multi-Balanced :
      (r : Relay) {r' : Relay} → Balanced r → virtio_tx_multi io r ≡ some r' → Balanced r'
  unfolding virtio_tx_multi
  virtio_tx_multi-Balanced r b e =
      let (rows, e1, e2) = >>=-eq-some (batch (rx_window r) (replicate r.vio.rx_q_active [])) _ e in
      let s = send_queues-Sends io rows 0 0 r ok in
      ground (
        arith,
        s,
        batch-total (rx_window r) (replicate r.vio.rx_q_active []) e1,
        total-replicate r.vio.rx_q_active,
        length-refused io 0 rows ok,
        length-rx_window r b,
        length-write_at r.dpdk.rx_pkts (r.dpdk.rx_pkts_used + 0) (refused io 0 rows),
      )

  pub fetch_rx-Balanced :
      (jhash : List ℕ → ℕ → ℕ) (r : Relay) {r' : Relay}
      → Balanced r
      → fetch_rx jhash io r ≡ some r'
      → Balanced r'
  unfolding fetch_rx
  fetch_rx-Balanced jhash r {r'} b e = ground (arith, dpdk_rx-Balanced jhash r {r' = r'} b)

  virtio_tx-Balanced :
      (r : Relay) {out : Bool × Relay} → Balanced r → virtio_tx io r ≡ some out → Balanced out.1
  unfolding virtio_tx
  virtio_tx-Balanced r {out} b e =
      ground (
        arith,
        virtio_tx_single-Balanced r {r' = out.1} b,
        virtio_tx_multi-Balanced r {r' = out.1} b,
      )

  pub send_rx-Balanced :
      (r : Relay) {r' : Relay} → Balanced r → send_rx io r ≡ some r' → Balanced r'
  unfolding send_rx
  send_rx-Balanced r b e = elim (Bool-cases (r.dpdk.rx_pkts_avail == 0)) [
    | inl empty ↦ ground arith
    | inr held ↦
        let (out, e1, e2) = >>=-eq-some (virtio_tx io r) _ (rw held at e) in
        let b' = virtio_tx-Balanced r b e1 in ground (arith, free_rx-Balanced out.1 b')
  ]

finish-Balanced : (r : Relay) → Balanced r → Balanced (finish_virtio_removal r)
unfolding finish_virtio_removal worker_remove_virtio
finish-Balanced r b = ground (arith, flush_rx-Balanced r b, flush_tx-Balanced (flush_rx r))

signal-Balanced : (r : Relay) → Balanced r → Balanced (signal_vf_removal r)
unfolding signal_vf_removal
signal-Balanced r b = ground arith

-- A run of relay_vf2vm_traffic that ends keeps the relay balanced, with one receive queue or
-- several.
pub vf2vm-Balanced :
    (jhash : List ℕ → ℕ → ℕ) (io : Io) (r : Relay) {r' : Relay} {busy : Bool}
    → IsIo io
    → Balanced r
    → relay_vf2vm_traffic jhash io r ≡ some (r', busy)
    → Balanced r'
unfolding relay_vf2vm_traffic
vf2vm-Balanced jhash io r ok b e =
    let (fetched, e1, rest) = >>=-eq-some (fetch_rx jhash io r) _ e in
    let (sent, e2, last) = >>=-eq-some (send_rx io fetched) _ rest in
    let b2 = send_rx-Balanced io ok fetched (fetch_rx-Balanced io ok jhash r b e1) e2 in
    subst Balanced (ap (λ p. p.0) (some-injective _ _ last))
      (signal-Balanced _ (finish-Balanced sent b2))
