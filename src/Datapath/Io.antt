-- ===== src/Datapath/Io.antt =====
-- The DPDK calls of the forwarding functions, as parameters: what they answer in one run of a
-- function, and what DPDK documents of the answers.
use virtio_forwarder.Prelude.{
  ℕ, ◌+◌, ◌-◌, ◌%◌, ◌^◌, ◌≤◌, ◌==◌, if◌then◌else◌, List, ◌++◌, length, reverse,
}
use virtio_forwarder.Relay.{Mbuf, Relay, add64, tx_window, rx_window}

pub record Io : Type 0 where
  -- The loads of the mask of transmit queues in a loop of virtio_rx, from the mask that the run
  -- started with: other threads may change it meanwhile.
  pub tx_q_bitmap : (mask i : ℕ) → ℕ
  -- rte_vhost_dequeue_burst: the packets taken from a queue of the guest, at most `count`.
  pub dequeue_burst : (queue count : ℕ) → List Mbuf
  -- rte_vhost_avail_entries: the free entries of the guest's receive queue.
  pub avail_entries : ℕ
  -- rte_eth_rx_burst: the packets received by the port, at most `count`.
  pub rx_burst : (count : ℕ) → List Mbuf
  -- rte_eth_tx_burst: how many of the packets the port accepted, from the first on.
  pub tx_burst : List Mbuf → ℕ
  -- rte_vhost_enqueue_burst: how many of the packets a queue of the guest accepted.
  pub enqueue_burst : (queue : ℕ) → List Mbuf → ℕ

-- The documented bounds of the answers.
pub record IsIo (io : Io) : Type 0 where
  pub dequeued : (queue count : ℕ) → length (io.dequeue_burst queue count) ≤ count
  pub received : (count : ℕ) → length (io.rx_burst count) ≤ count
  pub accepted : (ms : List Mbuf) → io.tx_burst ms ≤ length ms
  pub enqueued : (queue : ℕ) (ms : List Mbuf) → io.enqueue_burst queue ms ≤ length ms

-- `unsigned` subtraction wraps.
abbrev pub sub32 : ℕ → ℕ → ℕ
sub32 a b = (a + 2 ^ 32 - b) % 2 ^ 32

-- The buffered VM-to-VF packets are freed, the last one first, and counted as dropped.
unfoldable pub free_tx : Relay → Relay
free_tx r = record r {
  stats = record (r.stats) {
    dpdk_drop_unavail = add64 r.stats.dpdk_drop_unavail r.vio.tx_pkts_avail;
  };
  trace = record (r.trace) { freed = r.trace.freed ++ reverse (tx_window r) };
  vio = record (r.vio) { tx_pkts_avail = 0 };
}

-- The same for the buffered VF-to-VM packets.
unfoldable pub free_rx : Relay → Relay
free_rx r = record r {
  stats = record (r.stats) {
    vio_drop_unavail = add64 r.stats.vio_drop_unavail r.dpdk.rx_pkts_avail;
  };
  trace = record (r.trace) { freed = r.trace.freed ++ reverse (rx_window r) };
  dpdk = record (r.dpdk) { rx_pkts_avail = 0 };
}

-- `if (rx_pkts_avail) { ...; rx_pkts_avail = 0; rx_pkts_used = 0; }`
unfoldable pub flush_rx : Relay → Relay
unfolding free_rx
flush_rx r =
    if r.dpdk.rx_pkts_avail == 0
    then r
    else let r' = free_rx r in record r' { dpdk = record (r'.dpdk) { rx_pkts_used = 0 } }

unfoldable pub flush_tx : Relay → Relay
unfolding free_tx
flush_tx r =
    if r.vio.tx_pkts_avail == 0
    then r
    else let r' = free_tx r in record r' { vio = record (r'.vio) { tx_pkts_used = 0 } }
