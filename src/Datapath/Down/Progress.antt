-- ===== src/Datapath/Down/Progress.antt =====
-- relay_vm2vf_traffic ends: the loop over the transmit queues, and the assertion of dpdk_tx.
use virtio_forwarder.Prelude.{
  ℕ, zero, suc, ◌+◌, ◌-◌, ◌≤◌, ◌<◌, ◌≡◌, refl, ap, Bool, true, false, some, none, ◌==◌, ltb, leb,
  if◌then◌else◌, arith, ◌≢◌, some_of_ne, inl, inr, Bool-cases,
}
use virtio_forwarder.Bits.{test_bit}
use virtio_forwarder.Relay.{Relay, tx_window, virtio_ready, is_virtio_ready}
use virtio_forwarder.Datapath.Io.{Io, IsIo}
use virtio_forwarder.Datapath.Balance.{Balanced, length-tx_window}
use virtio_forwarder.Datapath.Down.{
  next_tx_queue, virtio_rx, dpdk_tx, fetch_tx, send_tx, relay_vm2vf_traffic, finish_vf_removal,
  signal_virtio_removal,
}
use virtio_forwarder.Datapath.Down.Inv.{fetch_tx-Balanced}

-- The rounds that it takes to come from `rr` to `k`, round the `max` queues.
abbrev rounds : ℕ → ℕ → ℕ → ℕ
rounds max rr k = if ltb rr k then k - rr else if ltb rr max then (max - rr) + k else k + 1

next_tx_queue_reaches :
    (fuel max : ℕ) (bitmap : ℕ → ℕ) (i rr k : ℕ)
    → k < max
    → ((j : ℕ) → test_bit (bitmap j) k ≡ true)
    → rounds max rr k ≤ fuel
    → (q : ℕ) × (next_tx_queue fuel max bitmap i rr ≡ some q)
      × (q < max)
      × (j : ℕ) × (test_bit (bitmap j) q ≡ true)
unfolding next_tx_queue
next_tx_queue_reaches zero max bitmap i rr k lt one h = absurd (ground arith)
next_tx_queue_reaches (suc fuel) max bitmap i rr k lt one h =
    let up = if leb max (rr + 1) then 0 else rr + 1 in
    elim (Bool-cases (test_bit (bitmap i) up)) [
      | inl found ↦ (up, rw found refl, ground arith, i, found)
      | inr other ↦
          let differ : (up == k) ≡ false =
            ground (arith, ap (test_bit (bitmap i)) {x = up} {y = k}, one i) in
          let near : rounds max up k ≤ fuel = ground arith in
          let (q, at, below, j, on) =
            next_tx_queue_reaches fuel max bitmap (i + 1) up k lt one near in
          (q, rw other at, below, j, on)
    ]

-- If one of the first `max` transmit queues is enabled in every round, the loop ends at one of
-- these, which a round has read as enabled, after at most one round for each queue.
pub next_tx_queue_total :
    (max : ℕ) (bitmap : ℕ → ℕ) (i rr k : ℕ)
    → k < max
    → ((j : ℕ) → test_bit (bitmap j) k ≡ true)
    → (q : ℕ) × (next_tx_queue (suc max) max bitmap i rr ≡ some q)
      × (q < max)
      × (j : ℕ) × (test_bit (bitmap j) q ≡ true)
next_tx_queue_total max bitmap i rr k lt one =
    next_tx_queue_reaches (suc max) max bitmap i rr k lt one (ground arith)

-- If none is in any round, no number of rounds ends it.
pub next_tx_queue_stuck :
    (fuel max : ℕ) (bitmap : ℕ → ℕ) (i rr : ℕ)
    → ((j k : ℕ) → k ≤ max - 1 → test_bit (bitmap j) k ≡ false)
    → next_tx_queue fuel max bitmap i rr ≡ none
unfolding next_tx_queue
next_tx_queue_stuck zero max bitmap i rr off = refl
next_tx_queue_stuck (suc fuel) max bitmap i rr off =
    let up = if leb max (rr + 1) then 0 else rr + 1 in
    rw (off i up (ground arith)) (next_tx_queue_stuck fuel max bitmap (i + 1) up off)

-- The mask that a round of the loop reads.
abbrev pub mask_read : Io → Relay → ℕ → ℕ
mask_read io r = io.tx_q_bitmap r.vio.tx_q_bitmap

-- The guest has a transmit queue to take from, enabled in each round.
abbrev pub HasTxQueue : Io → Relay → Type 0
HasTxQueue io r =
    (k : ℕ) × (k < r.vio.max_queue_pairs) × ((i : ℕ) → test_bit (mask_read io r i) k ≡ true)

next_of_ready :
    (io : Io) (r : Relay)
    → (r.vio.state ≡ virtio_ready → HasTxQueue io r)
    → r.vio.state ≡ virtio_ready
    → next_tx_queue
        (suc r.vio.max_queue_pairs)
        r.vio.max_queue_pairs
        (mask_read io r)
        0
        r.vio.tx_q_rr
      ≢ none
next_of_ready io r queues ready =
    let (k, lt, one) = queues ready in
    let (q, at, below, j, on) =
      next_tx_queue_total r.vio.max_queue_pairs (mask_read io r) 0 r.vio.tx_q_rr k lt one in
    λ e. cc

fetch_tx-ne-none :
    (io : Io) (r : Relay) → (r.vio.state ≡ virtio_ready → HasTxQueue io r) → fetch_tx io r ≢ none
unfolding fetch_tx virtio_rx
fetch_tx-ne-none io r queues = λ e. ground (arith, next_of_ready io r queues)

send_tx-ne-none : (io : Io) (r : Relay) → IsIo io → Balanced r → send_tx io r ≢ none
unfolding send_tx dpdk_tx
send_tx-ne-none io r ok b = λ e. ground (arith, ok.accepted (tx_window r), length-tx_window r b)

-- On a balanced relay relay_vm2vf_traffic ends and its assertion holds, provided that for a guest
-- that is ready one of the transmit queues among its queue pairs is enabled in each round of the
-- loop of virtio_rx, as it is if it is enabled and no other thread disables it.
pub vm2vf_total :
    (io : Io) (r : Relay)
    → IsIo io
    → Balanced r
    → (r.vio.state ≡ virtio_ready → HasTxQueue io r)
    → (out : Relay × Bool) × (relay_vm2vf_traffic io r ≡ some out)
unfolding relay_vm2vf_traffic
vm2vf_total io r ok b queues =
    let (fetched, e1) = some_of_ne (fetch_tx io r) (fetch_tx-ne-none io r queues) in
    let b1 = fetch_tx-Balanced io ok r b e1 in
    let (sent, e2) = some_of_ne (send_tx io fetched) (send_tx-ne-none io fetched ok b1) in
    let done = finish_vf_removal (signal_virtio_removal sent) in
    ((done, is_virtio_ready done.vio.state), rw (e1, e2) refl)

-- A guest that is ready, with no packet buffered, keeps the worker in the loop of virtio_rx for as
-- long as no round reads a mask in which one of its transmit queues is enabled, whatever the guest
-- has to send: if no round does, no number of rounds ends the loop.
pub vm2vf_hangs :
    (io : Io) (r : Relay)
    → r.vio.state ≡ virtio_ready
    → r.vio.tx_pkts_avail ≡ 0
    → ((i k : ℕ) → k ≤ r.vio.max_queue_pairs - 1 → test_bit (mask_read io r i) k ≡ false)
    → (relay_vm2vf_traffic io r ≡ none)
      × ((fuel : ℕ)
          → next_tx_queue fuel r.vio.max_queue_pairs (mask_read io r) 0 r.vio.tx_q_rr ≡ none)
unfolding relay_vm2vf_traffic fetch_tx virtio_rx
vm2vf_hangs io r ready empty off =
    let stuck = λ (fuel : ℕ).
      next_tx_queue_stuck fuel r.vio.max_queue_pairs (mask_read io r) 0 r.vio.tx_q_rr off in
    (ground (arith, stuck (suc r.vio.max_queue_pairs)), stuck)
