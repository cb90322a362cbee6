-- ===== src/Datapath/Up.antt =====
-- VF to VM: dpdk_rx, virtio_tx, worker_remove_virtio and relay_vf2vm_traffic of virtio_worker.c.
pub mod Rows
pub mod Inv
pub mod Bounds
pub mod Order
pub mod Keeps
use virtio_forwarder.Prelude.{
  ℕ, zero, suc, ◌+◌, ◌*◌, Bool, true, false, not, Option, none, some, List, [], ◌∷◌, ◌++◌, ◌==◌,
  ◌>>=◌, leb, ltb, if◌then◌else◌, length, take, drop, write_at, reverse, replicate, min,
}
use virtio_forwarder.Relay.{
  Relay, RelayVirtio, Mbuf, VioState, DpdkState, virtio_uninit, virtio_ready, virtio_removing1,
  virtio_removing2, dpdk_uninit, dpdk_added, dpdk_ready, dpdk_removing1, dpdk_removing2,
  is_virtio_ready, is_dpdk_ready, burst_len, add64, bytes_of, rx_window,
}
use virtio_forwarder.Queues.{calc_mbuf_queue}
use virtio_forwarder.Datapath.Io.{Io, sub32, free_rx, flush_rx, flush_tx}

-- How many packets dpdk_rx asks for.
abbrev pub try_rcv : Io → Relay → ℕ
try_rcv io r = if r.vio.lm_pending then burst_len else min io.avail_entries burst_len

-- The packets as stored: with several receive queues each is marked with its queue.
pub mark_queues : (List ℕ → ℕ → ℕ) → Relay → List Mbuf → Option (List Mbuf)
mark_queues jhash r ms = if leb r.vio.rx_q_bitmap 1 then some ms else calc_mbuf_queue jhash r.vio ms

-- The received packets replace what was buffered.
pub store_rx : Relay → List Mbuf → Relay
store_rx r rcvd = record r {
  dpdk = record (r.dpdk) {
    rx_pkts = rcvd ++ drop (length rcvd) r.dpdk.rx_pkts;
    rx_pkts_avail = length rcvd;
    rx_pkts_used = 0;
  };
  stats = record (r.stats) {
    dpdk_rx = add64 r.stats.dpdk_rx (length rcvd);
    dpdk_rx_bytes = add64 r.stats.dpdk_rx_bytes (bytes_of rcvd);
  };
}

-- dpdk_rx; its result is not used by the caller. `none`: a fault in calc_mbuf_queue.
pub dpdk_rx : (List ℕ → ℕ → ℕ) → Io → Relay → Option Relay
unfolding mark_queues store_rx
dpdk_rx jhash io r =
    if is_dpdk_ready r.dpdk.state
    then (mark_queues jhash r (io.rx_burst (try_rcv io r)) >>= λ rcvd. some (store_rx r rcvd))
    else some r

-- `q_pkts[q][q_len[q]++] = m`: `none` is a write outside the two arrays, which have a row for each
-- of the `rx_q_active` queues and `burst_len` columns.
unfoldable pub put_queue : ℕ → Mbuf → List (List Mbuf) → Option (List (List Mbuf))
put_queue q m [] = none
put_queue zero m (row ∷ rows) =
    if ltb (length row) burst_len then some ((row ++ m ∷ []) ∷ rows) else none
put_queue (suc q) m (row ∷ rows) = put_queue q m rows >>= λ rows'. some (row ∷ rows')

-- The first loop of the multiqueue branch of virtio_tx.
unfoldable pub batch : List Mbuf → List (List Mbuf) → Option (List (List Mbuf))
batch [] rows = some rows
batch (m ∷ ms) rows = do rows' ← put_queue m.fdir_id m rows; batch ms rows'

-- A successful enqueue of the first `sent` packets of a row: counted, and freed, the last first.
unfoldable pub enqueue_done : ℕ → List Mbuf → Relay → Relay
enqueue_done sent row r = record r {
  stats = record (r.stats) {
    vio_tx = add64 r.stats.vio_tx sent;
    vio_tx_bytes = add64 r.stats.vio_tx_bytes (bytes_of (take sent row));
  };
  trace = record (r.trace) {
    to_vm = r.trace.to_vm ++ take sent row;
    freed = r.trace.freed ++ reverse (take sent row);
  };
}

-- One round of the second loop, for queue `i` with `k` packets put back: those that the queue
-- refuses are put back from the last to the first refused one. An empty row is skipped.
unfoldable pub send_row : Io → List Mbuf → ℕ → ℕ → Relay → Relay × ℕ
unfolding enqueue_done
send_row io row i k r =
    let sent = io.enqueue_burst (i * 2) row in
    let put_back = reverse (drop sent row) in
    let r' = enqueue_done sent row r in
    let pkts = write_at r.dpdk.rx_pkts (r.dpdk.rx_pkts_used + k) put_back in
    if length row == 0
    then (r, k)
    else (record r' { dpdk = record (r'.dpdk) { rx_pkts = pkts } }, k + length put_back)

unfoldable pub send_queues : Io → List (List Mbuf) → ℕ → ℕ → Relay → Relay × ℕ
send_queues io [] i k r = (r, k)
send_queues io (row ∷ rows) i k r =
    let (r', k') = send_row io row i k r in send_queues io rows (i + 1) k' r'

unfoldable pub virtio_tx_multi : Io → Relay → Option Relay
unfolding batch put_queue send_queues send_row
virtio_tx_multi io r = do
  rows ← batch (rx_window r) (replicate r.vio.rx_q_active [])
  let (r', k) = send_queues io rows 0 0 r
  some (record r' { dpdk = record (r'.dpdk) { rx_pkts_avail = k } })

unfoldable pub virtio_tx_single : Io → Relay → Option Relay
unfolding enqueue_done
virtio_tx_single io r =
    let window = rx_window r in
    let sent = io.enqueue_burst 0 window in
    let used = r.dpdk.rx_pkts_used + sent in
    let r' = enqueue_done sent window r in
    if leb used burst_len
    then some (record r' {
      dpdk = record (r'.dpdk) {
        rx_pkts_avail = sub32 r.dpdk.rx_pkts_avail sent;
        rx_pkts_used = used;
      };
    })
    else none

-- virtio_tx: `false` is the result -1 (virtio is not ready), `true` any other. The outer `none` is
-- a write outside the arrays or the failed assertion.
unfoldable pub virtio_tx : Io → Relay → Option (Bool × Relay)
unfolding virtio_tx_multi virtio_tx_single
virtio_tx io r =
    if not (is_virtio_ready r.vio.state)
    then some (false, r)
    else ((if leb r.vio.rx_q_bitmap 1 then virtio_tx_single io r else virtio_tx_multi io r)
        >>= λ r'. some (true, r'))

-- worker_remove_virtio
pub worker_remove_virtio : Relay → Relay
unfolding flush_rx flush_tx
worker_remove_virtio r =
    let r' = flush_tx (flush_rx r) in record r' { vio = record (r'.vio) { state = virtio_uninit } }

unfoldable pub fetch_rx : (List ℕ → ℕ → ℕ) → Io → Relay → Option Relay
unfolding dpdk_rx
fetch_rx jhash io r = if r.dpdk.rx_pkts_avail == 0 then dpdk_rx jhash io r else some r

-- What a guest that is not ready leaves is freed.
abbrev pub drop_unqueued : Bool × Relay → Relay
drop_unqueued (false, r) = if r.dpdk.rx_pkts_avail == 0 then r else free_rx r
drop_unqueued (true, r) = r

unfoldable pub send_rx : Io → Relay → Option Relay
unfolding virtio_tx free_rx
send_rx io r =
    if r.dpdk.rx_pkts_avail == 0
    then some r
    else (virtio_tx io r >>= λ out. some (drop_unqueued out))

abbrev is_removing2 : VioState → Bool
is_removing2 virtio_removing2 = true
is_removing2 _ = false

unfoldable pub finish_virtio_removal : Relay → Relay
unfolding worker_remove_virtio
finish_virtio_removal r = if is_removing2 r.vio.state then worker_remove_virtio r else r

-- The removal of the VF: the other thread is told, if there is one.
abbrev pub dpdk_handover : Option ℕ → DpdkState → DpdkState
dpdk_handover none dpdk_removing1 = dpdk_uninit
dpdk_handover (some cpu) dpdk_removing1 = dpdk_removing2
dpdk_handover _ s = s

unfoldable pub signal_vf_removal : Relay → Relay
signal_vf_removal r = record r {
  dpdk = record (r.dpdk) { state = dpdk_handover r.vio.vio2vf_cpu r.dpdk.state };
}

-- relay_vf2vm_traffic: the relay, and whether its VF is still forwarding.
unfoldable pub relay_vf2vm_traffic : (List ℕ → ℕ → ℕ) → Io → Relay → Option (Relay × Bool)
relay_vf2vm_traffic jhash io r = do
  fetched ← fetch_rx jhash io r
  sent ← send_rx io fetched
  let done = signal_vf_removal (finish_virtio_removal sent)
  some (done, is_dpdk_ready done.dpdk.state)
