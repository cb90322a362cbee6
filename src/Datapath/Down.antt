-- ===== src/Datapath/Down.antt =====
-- VM to VF: virtio_rx, dpdk_tx, worker_remove_vf and relay_vm2vf_traffic of virtio_worker.c.
pub mod Inv
pub mod Order
pub mod Release
pub mod Progress
use virtio_forwarder.Prelude.{
  ℕ, zero, suc, ◌+◌, ◌*◌, ◌^◌, Bool, true, false, not, Option, none, some, List, [], ◌++◌, ◌==◌,
  ◌>>=◌, leb, if◌then◌else◌, length, take, drop,
}
use virtio_forwarder.Bits.{test_bit}
use virtio_forwarder.Relay.{
  Relay, RelayVirtio, Mbuf, VioState, DpdkState, virtio_uninit, virtio_ready, virtio_removing1,
  virtio_removing2, dpdk_uninit, dpdk_added, dpdk_ready, dpdk_removing1, dpdk_removing2,
  is_virtio_ready, is_dpdk_ready, burst_len, add64, bytes_of, tx_window,
}
use virtio_forwarder.Datapath.Io.{Io, sub32, free_tx, flush_rx, flush_tx}

-- The do-while loop that moves `tx_q_rr` to the next enabled queue: `none` if it has not ended
-- after `fuel` rounds. `tx_q_bitmap` is volatile: `bitmap i` is what round `i` reads.
unfoldable pub next_tx_queue :
    (fuel max_queue_pairs : ℕ) → (bitmap : ℕ → ℕ) → (i tx_q_rr : ℕ) → Option ℕ
next_tx_queue zero max bitmap i rr = none
next_tx_queue (suc fuel) max bitmap i rr =
    let up = if leb max (rr + 1) then 0 else rr + 1 in
    let more = next_tx_queue fuel max bitmap (i + 1) up in
    if test_bit (bitmap i) up then some up else more

-- The packets that virtio_rx takes from the guest; the bit test guards the dequeue.
abbrev pub rx_from_guest : Io → Relay → List Mbuf
rx_from_guest io r =
    if test_bit r.vio.tx_q_bitmap r.vio.tx_q_rr
    then io.dequeue_burst (r.vio.tx_q_rr * 2 + 1) burst_len
    else []

-- virtio_rx; its result is not used by the caller. `none`: the loop does not end within its rounds.
unfoldable pub virtio_rx : Io → Relay → Option Relay
virtio_rx io r =
    let rcvd = rx_from_guest io r in
    let next =
      next_tx_queue (suc r.vio.max_queue_pairs) r.vio.max_queue_pairs
        (io.tx_q_bitmap r.vio.tx_q_bitmap) 0 r.vio.tx_q_rr in
    let stats = record (r.stats) {
      vio_rx = add64 r.stats.vio_rx (length rcvd);
      vio_rx_bytes = add64 r.stats.vio_rx_bytes (bytes_of rcvd);
    } in
    if not (is_virtio_ready r.vio.state) then some r else elim next [
      | none ↦ none
      | some rr ↦ some (record r {
        vio = record (r.vio) {
          tx_pkts = rcvd ++ drop (length rcvd) r.vio.tx_pkts;
          tx_pkts_avail = length rcvd;
          tx_pkts_used = 0;
          tx_q_rr = rr;
        };
        stats = stats;
      })
    ]

-- dpdk_tx: the number of packets sent, `none` for -1. The outer `none` is the failed assertion.
unfoldable pub dpdk_tx : Io → Relay → Option (Option ℕ × Relay)
dpdk_tx io r =
    let window = tx_window r in
    let sent = io.tx_burst window in
    let used = r.vio.tx_pkts_used + sent in
    let r' = record r {
      vio = record (r.vio) { tx_pkts_avail = sub32 r.vio.tx_pkts_avail sent; tx_pkts_used = used };
      stats = record (r.stats) {
        dpdk_tx = add64 r.stats.dpdk_tx sent;
        dpdk_tx_bytes = add64 r.stats.dpdk_tx_bytes (bytes_of (take sent window));
      };
      trace = record (r.trace) { to_vf = r.trace.to_vf ++ take sent window };
    } in
    if not (is_dpdk_ready r.dpdk.state)
    then some (none, r)
    else if leb used burst_len
    then some (some sent, r')
    else none

-- worker_remove_vf: both directions are flushed, and the main thread is told.
unfoldable pub worker_remove_vf : Relay → Relay
unfolding flush_rx flush_tx
worker_remove_vf r =
    let r' = flush_tx (flush_rx r) in record r' { dpdk = record (r'.dpdk) { state = dpdk_uninit } }

-- The first step: take packets from the guest if none is buffered.
unfoldable pub fetch_tx : Io → Relay → Option Relay
unfolding virtio_rx
fetch_tx io r = if r.vio.tx_pkts_avail == 0 then virtio_rx io r else some r

-- The second: send what is buffered; what a VF that is not ready leaves is freed.
abbrev pub drop_unsent : Option ℕ × Relay → Relay
drop_unsent (none, r) = if r.vio.tx_pkts_avail == 0 then r else free_tx r
drop_unsent (some sent, r) = r

unfoldable pub send_tx : Io → Relay → Option Relay
unfolding dpdk_tx free_tx
send_tx io r =
    if r.vio.tx_pkts_avail == 0 then some r else (dpdk_tx io r >>= λ out. some (drop_unsent out))

-- The removal of the virtio side: the other thread is told, if there is one.
abbrev vio_handover : Option ℕ → VioState → VioState
vio_handover none virtio_removing1 = virtio_uninit
vio_handover (some cpu) virtio_removing1 = virtio_removing2
vio_handover _ s = s

unfoldable pub signal_virtio_removal : Relay → Relay
signal_virtio_removal r = record r {
  vio = record (r.vio) { state = vio_handover r.dpdk.vf2vio_cpu r.vio.state };
}

abbrev is_removing2 : DpdkState → Bool
is_removing2 dpdk_removing2 = true
is_removing2 _ = false

unfoldable pub finish_vf_removal : Relay → Relay
unfolding worker_remove_vf
finish_vf_removal r = if is_removing2 r.dpdk.state then worker_remove_vf r else r

-- relay_vm2vf_traffic: the relay, and whether its virtio side is still forwarding.
unfoldable pub relay_vm2vf_traffic : Io → Relay → Option (Relay × Bool)
relay_vm2vf_traffic io r = do
  fetched ← fetch_tx io r
  sent ← send_tx io fetched
  let done = finish_vf_removal (signal_virtio_removal sent)
  some (done, is_virtio_ready done.vio.state)
