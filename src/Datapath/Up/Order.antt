-- ===== src/Datapath/Up/Order.antt =====
-- The order in which packets of the VF reach the guest.
use virtio_forwarder.Prelude.{
  ℕ, zero, suc, ◌+◌, ◌*◌, ◌≤◌, ◌<◌, ◌≡◌, ◌∙◌, refl, ap, sym, some, List, [], ◌∷◌, ◌++◌, ◌>>=◌,
  length, drop, take, set, replicate, reverse, append-nil, append_assoc, get_elem?, arith,
  >>=-eq-some, All, read-write_at, drop-nil, take-nil, length-append, lt-of_get_elem?,
  get_elem?-set_self,
}
use mathlib.Core.Option.{some-injective}
use virtio_forwarder.Relay.{Relay, Mbuf, rx_window}
use virtio_forwarder.Datapath.Io.{Io, IsIo, sub32}
use virtio_forwarder.Datapath.Balance.{window_split, Balanced, length-rx_window}
use virtio_forwarder.Datapath.Up.{put_queue, batch, virtio_tx_multi, virtio_tx_single, enqueue_done}
use virtio_forwarder.Datapath.Up.Rows.{
  accepted, refused, total-replicate, batch-total, length-refused, send_queues-Sends,
}

-- With several receive queues: the rows of the queues, in the order of the queues, decide what the
-- guest gets and what stays buffered. Of each row the guest gets the front that it accepts, and the
-- rest stays, last packet first.
pub virtio_tx_multi_lem :
    (io : Io) (r : Relay) {r' : Relay}
    → IsIo io
    → Balanced r
    → virtio_tx_multi io r ≡ some r'
    → (rows : List (List Mbuf)) × (batch (rx_window r) (replicate r.vio.rx_q_active []) ≡ some rows)
      × (r'.trace.to_vm ≡ r.trace.to_vm ++ accepted io 0 rows)
      × (rx_window r' ≡ refused io 0 rows)
unfolding virtio_tx_multi
virtio_tx_multi_lem io r {r'} ok b e =
    let (rows, e1, e2) = >>=-eq-some (batch (rx_window r) (replicate r.vio.rx_q_active [])) _ e in
    let s = send_queues-Sends io rows 0 0 r ok in
    let fits : r.dpdk.rx_pkts_used + 0 + length (refused io 0 rows) ≤ length r.dpdk.rx_pkts =
      omega (
        arith,
        b,
        batch-total (rx_window r) (replicate r.vio.rx_q_active []) e1,
        total-replicate r.vio.rx_q_active,
        length-refused io 0 rows ok,
        length-rx_window r b,
      ) in
    let back = read-write_at r.dpdk.rx_pkts (r.dpdk.rx_pkts_used + 0) (refused io 0 rows) fits in
    (rows, e1, ground (arith, s), ground (arith, s, back))

put_queue-get :
    (q : ℕ) (m : Mbuf) (rows : List (List Mbuf)) (row : List Mbuf)
    → get_elem? rows q ≡ some row
    → length row < 32
    → put_queue q m rows ≡ some (set rows q (row ++ m ∷ []))
unfolding put_queue
put_queue-get q m [] row at h = cc
put_queue-get zero m (x ∷ rows) row at h = ground (arith, some-injective x row)
put_queue-get (suc q) m (x ∷ rows) row at h =
    ap (λ o. o >>= λ rows'. some (x ∷ rows')) (put_queue-get q m rows row at h)

set-set :
    (q : ℕ) (x y : List Mbuf) (rows : List (List Mbuf)) → set (set rows q x) q y ≡ set rows q y
set-set q x y [] = refl
set-set zero x y (row ∷ rows) = refl
set-set (suc q) x y (row ∷ rows) = ap (λ l. row ∷ l) (set-set q x y rows)

set_self :
    (q : ℕ) (rows : List (List Mbuf)) {row : List Mbuf}
    → get_elem? rows q ≡ some row
    → set rows q row ≡ rows
set_self q [] at = cc
set_self zero (x ∷ rows) {row} at = ap (λ l. l ∷ rows) (sym (some-injective x row at))
set_self (suc q) (x ∷ rows) at = ap (λ l. x ∷ l) (set_self q rows at)

-- Packets of one queue end in its row, in their order.
batch_one_queue :
    (q : ℕ) (ms : List Mbuf) (rows : List (List Mbuf)) (row : List Mbuf)
    → All (λ m. m.fdir_id ≡ q) ms
    → get_elem? rows q ≡ some row
    → length row + length ms ≤ 32
    → batch ms rows ≡ some (set rows q (row ++ ms))
unfolding batch
batch_one_queue q [] rows row h at le =
    ap some (sym (set_self q rows (at ∙ ap some (sym (append-nil row)))))
batch_one_queue q (m ∷ ms) rows row h at le =
    let first = put_queue-get q m rows row at (omega arith) in
    let here = get_elem?-set_self rows q (row ++ m ∷ []) (lt-of_get_elem? rows q at) in
    let later =
      batch_one_queue q ms (set rows q (row ++ m ∷ [])) (row ++ m ∷ []) h.1 here
        (omega (arith, length-append row (m ∷ []))) in
    ap (λ n. put_queue n m rows >>= λ rows'. batch ms rows') h.0
    ∙ ap (λ o. o >>= λ rows'. batch ms rows') first
    ∙ later
    ∙ ap some (set-set q (row ++ m ∷ []) ((row ++ m ∷ []) ++ ms) rows)
    ∙ ap (λ l. some (set rows q l)) (append_assoc row (m ∷ []) ms)

accepted-nil : (io : Io) (i n : ℕ) → accepted io i (replicate n []) ≡ []
unfolding accepted
accepted-nil io i zero = refl
accepted-nil io i (suc n) = rw take-nil (accepted-nil io (i + 1) n)

refused-nil : (io : Io) (i n : ℕ) → refused io i (replicate n []) ≡ []
unfolding refused
refused-nil io i zero = refl
refused-nil io i (suc n) = rw drop-nil (refused-nil io (i + 1) n)

accepted_one :
    (io : Io) (i n q : ℕ) (ms : List Mbuf)
    → q < n
    → accepted io i (set (replicate n []) q ms) ≡ take (io.enqueue_burst ((i + q) * 2) ms) ms
unfolding accepted
accepted_one io i zero q ms h = elim h [ ]
accepted_one io i (suc n) zero ms h =
    rw (accepted-nil io (i + 1) n, append-nil)
      (ap (λ j. take (io.enqueue_burst (j * 2) ms) ms) (omega arith))
accepted_one io i (suc n) (suc q) ms h = rw take-nil (
    accepted_one io (i + 1) n q ms (omega arith)
    ∙ ap (λ j. take (io.enqueue_burst (j * 2) ms) ms) (omega arith))

refused_one :
    (io : Io) (i n q : ℕ) (ms : List Mbuf)
    → q < n
    → refused io i (set (replicate n []) q ms)
      ≡ reverse (drop (io.enqueue_burst ((i + q) * 2) ms) ms)
unfolding refused
refused_one io i zero q ms h = elim h [ ]
refused_one io i (suc n) zero ms h =
    rw (refused-nil io (i + 1) n, append-nil)
      (ap (λ j. reverse (drop (io.enqueue_burst (j * 2) ms) ms)) (omega arith))
refused_one io i (suc n) (suc q) ms h = rw drop-nil (
    refused_one io (i + 1) n q ms (omega arith)
    ∙ ap (λ j. reverse (drop (io.enqueue_burst (j * 2) ms) ms)) (omega arith))

get_elem?-replicate : (n q : ℕ) → q < n → get_elem? (replicate {A = List Mbuf} n []) q ≡ some []
get_elem?-replicate zero q h = elim h [ ]
get_elem?-replicate (suc n) zero h = refl
get_elem?-replicate (suc n) (suc q) h = get_elem?-replicate n q (omega arith)

-- With several receive queues, a burst whose packets all go to one queue does not keep its order
-- when the queue does not take all of it: the guest gets the front that it accepts, in order, and
-- the rest stays buffered in reverse order, to be sent so the next time.
pub refused_burst_reversed :
    (io : Io) (r : Relay) (q : ℕ) {r' : Relay}
    → IsIo io
    → Balanced r
    → All (λ m. m.fdir_id ≡ q) (rx_window r)
    → q < r.vio.rx_q_active
    → virtio_tx_multi io r ≡ some r'
    → let sent = io.enqueue_burst (q * 2) (rx_window r) in
      (r'.trace.to_vm ≡ r.trace.to_vm ++ take sent (rx_window r))
      × (rx_window r' ≡ reverse (drop sent (rx_window r)))
refused_burst_reversed io r q ok b one small e =
    let n = r.vio.rx_q_active in
    let window = rx_window r in
    let done = virtio_tx_multi_lem io r ok b e in
    let rows = set (replicate n []) q window in
    let room : 0 + length window ≤ 32 = omega (arith, length-rx_window r b, b.rx_fits) in
    let made =
      batch_one_queue q window (replicate n []) [] one (get_elem?-replicate n q small) room in
    let same : done.0 ≡ rows = some-injective _ _ (sym done.1 ∙ made) in
    let zero_add : (0 + q) * 2 ≡ q * 2 = omega arith in
    (
      done.2
          ∙ ap (λ l. r.trace.to_vm ++ accepted io 0 l) same
          ∙ ap (λ l. r.trace.to_vm ++ l) (accepted_one io 0 n q window small)
          ∙ ap (λ j. r.trace.to_vm ++ take (io.enqueue_burst j window) window) zero_add,
      done.3
          ∙ ap (refused io 0) same
          ∙ refused_one io 0 n q window small
          ∙ ap (λ j. reverse (drop (io.enqueue_burst j window) window)) zero_add,
    )

-- With one receive queue nothing is overtaken: what the guest has got, followed by what is still
-- buffered, is what it had got followed by what was buffered.
pub virtio_tx_single_order :
    (io : Io) (r : Relay) {r' : Relay}
    → IsIo io
    → Balanced r
    → virtio_tx_single io r ≡ some r'
    → r'.trace.to_vm ++ rx_window r' ≡ r.trace.to_vm ++ rx_window r
unfolding virtio_tx_single enqueue_done
virtio_tx_single_order io r ok b e =
    let window = rx_window r in
    let sent = io.enqueue_burst 0 window in
    let left =
      take (sub32 r.dpdk.rx_pkts_avail sent) (drop (r.dpdk.rx_pkts_used + sent) r.dpdk.rx_pkts) in
    ground (
      arith,
      ok.enqueued 0 window,
      length-rx_window r b,
      window_split r.dpdk.rx_pkts_avail r.dpdk.rx_pkts_used sent r.dpdk.rx_pkts,
      append_assoc r.trace.to_vm (take sent window) left,
    )
