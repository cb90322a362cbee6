-- ===== src/Datapath/Up/Bounds.antt =====
-- The arrays of the multiqueue branch of virtio_tx: which packets they have room for.
use virtio_forwarder.Prelude.{
  ℕ, zero, suc, ◌+◌, ◌%◌, ◌≤◌, ◌<◌, ◌≡◌, ◌≢◌, ◌∙◌, refl, ap, sym, Bool, Option-cases, ◌>>=◌, some,
  none, List, [], ◌∷◌, leb, length, drop, replicate, get_elem?, lt-of_get_elem?, arith, inl, inr,
  Bool-cases, some_of_ne, some-ne-none, All, take-length-append,
}
use mathlib.Core.Option.{some-injective}
use virtio_forwarder.Bits.{ones}
use virtio_forwarder.Relay.{Relay, Mbuf, rx_window, virtio_ready, dpdk_ready}
use virtio_forwarder.Relay.Hash.{calc_eth_header_hash}
use virtio_forwarder.Queues.Inv.{Agrees}
use virtio_forwarder.Queues.Select.{
  calc_mbuf_queue_total, get_elem?-calc_mbuf_queue, queue_of-enabled, many_queues, active-ne-zero,
}
use virtio_forwarder.Datapath.Io.{Io, IsIo}
use virtio_forwarder.Datapath.Balance.{Balanced, length-rx_window}
use virtio_forwarder.Datapath.Up.{
  try_rcv, mark_queues, store_rx, dpdk_rx, put_queue, batch, virtio_tx_multi, virtio_tx_single,
  virtio_tx, fetch_rx, send_rx, relay_vf2vm_traffic,
}
use virtio_forwarder.Datapath.Up.Rows.{total, total-replicate, put_queue-total}

put_queue-ne-none :
    (q : ℕ) (m : Mbuf) (rows : List (List Mbuf))
    → q < length rows
    → total rows < 32
    → put_queue q m rows ≢ none
unfolding put_queue
put_queue-ne-none q m [] h t = elim h [ ]
put_queue-ne-none zero m (row ∷ rows) h t = λ e. ground arith
put_queue-ne-none (suc q) m (row ∷ rows) h t =
    λ e. ground (arith, put_queue-ne-none q m rows (omega arith) (omega arith))

batch-ne-none :
    (ms : List Mbuf) (rows : List (List Mbuf)) (n : ℕ)
    → length rows ≡ n
    → All (λ m. m.fdir_id < n) ms
    → total rows + length ms ≤ 32
    → batch ms rows ≢ none
unfolding batch
batch-ne-none [] rows n size h t = λ e. cc
batch-ne-none (m ∷ ms) rows n size h t =
    let first =
      some_of_ne (put_queue m.fdir_id m rows)
        (put_queue-ne-none m.fdir_id m rows (omega (arith, h.0)) (omega arith)) in
    let grown = put_queue-total m.fdir_id m rows first.1 in
    λ e. batch-ne-none ms first.0 n (grown.1 ∙ size) h.1 (omega arith) (rw first.1 at e)

length-replicate : (n : ℕ) → length (replicate {A = List Mbuf} n []) ≡ n
length-replicate zero = refl
length-replicate (suc n) = ap suc (length-replicate n)

module _ (io : Io) (r : Relay) (ok : IsIo io) (b : Balanced r) where
  single-ne-none : virtio_tx_single io r ≢ none
  unfolding virtio_tx_single
  single-ne-none = λ e. ground (arith, ok.enqueued 0 (rx_window r), length-rx_window r b)

  multi-ne-none :
      All (λ m. m.fdir_id < r.vio.rx_q_active) (rx_window r) → virtio_tx_multi io r ≢ none
  unfolding virtio_tx_multi
  multi-ne-none marked =
      let n = r.vio.rx_q_active in
      let room : total (replicate n []) + length (rx_window r) ≤ 32 =
        omega (arith, total-replicate n, length-rx_window r b, b.rx_fits) in
      let first =
        some_of_ne (batch (rx_window r) (replicate n []))
          (batch-ne-none (rx_window r) (replicate n []) n (length-replicate n) marked room) in
      λ e. some-ne-none (rw first.1 at e)

  -- What is buffered can be sent without a fault if every packet is marked with a queue below the
  -- number of active queues, or if one receive queue at most is in use.
  pub virtio_tx_total :
      (1 < r.vio.rx_q_bitmap → All (λ m. m.fdir_id < r.vio.rx_q_active) (rx_window r))
      → (out : Bool × Relay) × (virtio_tx io r ≡ some out)
  unfolding virtio_tx
  virtio_tx_total marked =
      some_of_ne (virtio_tx io r) (elim (Bool-cases (leb r.vio.rx_q_bitmap 1)) [
        | inl one ↦ λ e. ground (arith, single-ne-none)
        | inr many ↦ λ e. ground (arith, multi-ne-none (marked (ground arith)))
      ])

put_queue_overflow :
    (q : ℕ) (m : Mbuf) (rows : List (List Mbuf)) → length rows ≤ q → put_queue q m rows ≡ none
unfolding put_queue
put_queue_overflow q m [] h = refl
put_queue_overflow zero m (row ∷ rows) h = absurd (omega arith)
put_queue_overflow (suc q) m (row ∷ rows) h =
    ap (λ o. o >>= λ rows'. some (row ∷ rows')) (put_queue_overflow q m rows (omega arith))

-- One packet marked with a queue that has no row makes the first loop write outside the arrays.
batch_overflow :
    (ms : List Mbuf) (rows : List (List Mbuf)) (i : ℕ) {m : Mbuf}
    → get_elem? ms i ≡ some m
    → length rows ≤ m.fdir_id
    → batch ms rows ≡ none
unfolding batch
batch_overflow [] rows i at h = cc
batch_overflow (n ∷ ms) rows zero at h =
    let same = some-injective _ _ at in
    rw (put_queue_overflow n.fdir_id n rows (omega (arith, ap (λ (x : Mbuf). x.fdir_id) same)))
batch_overflow (n ∷ ms) rows (suc i) at h = elim (Option-cases (put_queue n.fdir_id n rows)) [
  | inl out ↦ rw out
  | inr (rows', e) ↦
      rw e (batch_overflow ms rows' i at (omega (arith, put_queue-total n.fdir_id n rows e)))
]

-- A packet that is marked with a queue not below the number of active queues makes virtio_tx write
-- outside its arrays.
virtio_tx_overflow :
    (io : Io) (r : Relay) (i : ℕ) {m : Mbuf}
    → r.vio.state ≡ virtio_ready
    → 1 < r.vio.rx_q_bitmap
    → get_elem? (rx_window r) i ≡ some m
    → r.vio.rx_q_active ≤ m.fdir_id
    → virtio_tx io r ≡ none
unfolding virtio_tx virtio_tx_multi
virtio_tx_overflow io r i up many at h =
    let n = r.vio.rx_q_active in
    let out =
      batch_overflow (rx_window r) (replicate n []) i at (omega (arith, length-replicate n)) in
    ground arith

-- If a receive queue is enabled whose number `k` is not below the number of enabled receive queues,
-- and the header hash of a packet picks it, then the packet is fatal: received for a ready guest,
-- with nothing buffered, it makes relay_vf2vm_traffic write outside the arrays of virtio_tx.
pub gap_overflow :
    (jhash : List ℕ → ℕ → ℕ) (io : Io) (r : Relay) (i k : ℕ) {m : Mbuf}
    → IsIo io
    → Agrees r.vio
    → r.vio.state ≡ virtio_ready
    → r.dpdk.state ≡ dpdk_ready
    → r.dpdk.rx_pkts_avail ≡ 0
    → get_elem? (io.rx_burst (try_rcv io r)) i ≡ some m
    → get_elem?
        (ones 64 0 r.vio.rx_q_bitmap)
        (calc_eth_header_hash jhash m.header % r.vio.rx_q_active)
      ≡ some k
    → r.vio.rx_q_active ≤ k
    → relay_vf2vm_traffic jhash io r ≡ none
unfolding relay_vf2vm_traffic fetch_rx dpdk_rx mark_queues send_rx
gap_overflow jhash io r i k {m} ok a up ready empty at pick gap =
    let got = io.rx_burst (try_rcv io r) in
    let many = many_queues r.vio _ k a pick gap in
    let active = active-ne-zero r.vio _ a pick in
    let marked = calc_mbuf_queue_total jhash r.vio a active got in
    let out = marked.0 in
    let chosen = queue_of-enabled jhash r.vio a active m in
    let same : chosen.0 ≡ k = some-injective _ _ (sym chosen.2 ∙ pick) in
    let entry = get_elem?-calc_mbuf_queue jhash r.vio got i chosen.0 marked.1 at chosen.1 in
    let fetched = store_rx r out in
    let window : rx_window fetched ≡ out =
      take-length-append out (drop (length out) r.dpdk.rx_pkts) in
    let held : 0 < length out = omega (arith, lt-of_get_elem? out i entry) in
    let bad =
      virtio_tx_overflow io fetched i up many (ap (λ l. get_elem? l i) window ∙ entry)
        (omega arith) in
    ground (arith, bad)
