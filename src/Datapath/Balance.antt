-- ===== src/Datapath/Balance.antt =====
-- The invariant of a relay's buffers and counters.
use virtio_forwarder.Prelude.{
  ℕ, ◌+◌, ◌%◌, ◌^◌, ◌≤◌, ◌≡◌, length, arith, List, take, drop, length-take, length-drop, ◌++◌, ◌-◌,
  drop-drop, drop-take, take-append-drop,
}
use virtio_forwarder.Relay.{Relay, Mbuf, burst_len, tx_window, rx_window}
use virtio_forwarder.Datapath.Io.{free_tx, free_rx, flush_tx, flush_rx, sub32}

-- Each direction holds `avail` packets from index `used` on, inside an array of `burst_len`; and
-- the packets that came in are those that went out, were dropped or are still held, as the 64-bit
-- counters count them.
pub record Balanced (r : Relay) : Type 0 where
  pub tx_room : length r.vio.tx_pkts ≡ burst_len
  pub tx_fits : r.vio.tx_pkts_used + r.vio.tx_pkts_avail ≤ burst_len
  pub rx_room : length r.dpdk.rx_pkts ≡ burst_len
  pub rx_fits : r.dpdk.rx_pkts_used + r.dpdk.rx_pkts_avail ≤ burst_len
  pub down :
      r.stats.vio_rx ≡ (r.stats.dpdk_tx + r.stats.dpdk_drop_unavail + r.vio.tx_pkts_avail) % 2 ^ 64
  pub up :
      r.stats.dpdk_rx ≡ (r.stats.vio_tx + r.stats.vio_drop_unavail + r.dpdk.rx_pkts_avail) % 2 ^ 64

pub free_tx-Balanced : (r : Relay) → Balanced r → Balanced (free_tx r)
unfolding free_tx
free_tx-Balanced r b = ground arith

pub free_rx-Balanced : (r : Relay) → Balanced r → Balanced (free_rx r)
unfolding free_rx
free_rx-Balanced r b = ground arith

pub flush_tx-Balanced : (r : Relay) → Balanced r → Balanced (flush_tx r)
unfolding flush_tx
flush_tx-Balanced r b = ground arith

pub flush_rx-Balanced : (r : Relay) → Balanced r → Balanced (flush_rx r)
unfolding flush_rx
flush_rx-Balanced r b = ground arith

-- The windows hold what `avail` says.
pub length-tx_window : (r : Relay) → Balanced r → length (tx_window r) ≡ r.vio.tx_pkts_avail
length-tx_window r b = omega (
  arith,
  b,
  length-take r.vio.tx_pkts_avail (drop r.vio.tx_pkts_used r.vio.tx_pkts),
  length-drop r.vio.tx_pkts_used r.vio.tx_pkts,
)

pub length-rx_window : (r : Relay) → Balanced r → length (rx_window r) ≡ r.dpdk.rx_pkts_avail
length-rx_window r b = omega (
  arith,
  b,
  length-take r.dpdk.rx_pkts_avail (drop r.dpdk.rx_pkts_used r.dpdk.rx_pkts),
  length-drop r.dpdk.rx_pkts_used r.dpdk.rx_pkts,
)

-- Sending the front of a window leaves the rest of it.
pub window_split :
    (avail used sent : ℕ) (pkts : List Mbuf)
    → sent ≤ avail
    → avail ≤ 32
    → take sent (take avail (drop used pkts)) ++ take (sub32 avail sent) (drop (used + sent) pkts)
      ≡ take avail (drop used pkts)
window_split avail used sent pkts le small =
    let exact : sub32 avail sent ≡ avail - sent = omega arith in
    rw (exact, ← drop-drop used sent pkts, ← drop-take sent avail (drop used pkts))
      (take-append-drop sent (take avail (drop used pkts)))
