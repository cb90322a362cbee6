-- ===== src/Relay.antt =====
-- The data of virtio_worker.h: the two state enums, packet buffers, and the record of a relay with
-- its virtio side, its DPDK side and its counters. CPU numbers and NUMA sockets that the code
-- holds in an `int` with -1 for "none" are options here.
pub mod Hash
use virtio_forwarder.Prelude.{
  ℕ, ◌+◌, ◌%◌, ◌^◌, Bool, true, false, Option, List, [], ◌∷◌, ◌++◌, take, drop, length, reverse,
}
use Hash.{EthHdr}

abbrev pub burst_len : ℕ
burst_len = 32

abbrev pub max_multiqueue_pairs : ℕ
max_multiqueue_pairs = 32

abbrev pub max_cpus : ℕ
max_cpus = 64

-- `uint64_t` and `unsigned` sums wrap.
abbrev pub add64 : ℕ → ℕ → ℕ
add64 a b = (a + b) % 2 ^ 64

pub data VioState : Type 0 where
  virtio_uninit virtio_ready virtio_removing1 virtio_removing2 : VioState

pub data DpdkState : Type 0 where
  dpdk_uninit dpdk_added dpdk_ready dpdk_removing1 dpdk_removing2 : DpdkState

abbrev pub is_virtio_ready : VioState → Bool
is_virtio_ready virtio_ready = true
is_virtio_ready _ = false

abbrev pub is_dpdk_ready : DpdkState → Bool
is_dpdk_ready dpdk_ready = true
is_dpdk_ready _ = false

-- `struct rte_mbuf`, as far as the worker reads it: which buffer it is, `pkt_len`, the headers of
-- the packet, and `hash.fdir.id`, in which the worker keeps the queue of the packet.
pub record Mbuf : Type 0 where
  pub buf : ℕ
  pub pkt_len : ℕ
  pub header : EthHdr
  pub fdir_id : ℕ

pub record RelayVirtio : Type 0 where
  pub vio2vf_cpu : Option ℕ
  pub max_queue_pairs : ℕ
  pub rx_q_bitmap : ℕ
  pub tx_q_bitmap : ℕ
  pub rx_q_active : ℕ
  pub rx_q_lut : List ℕ
  pub tx_q_rr : ℕ
  pub pow2queues : Bool
  pub state : VioState
  pub vio_dev : ℕ
  pub mempool : Option ℕ
  pub mempool_socket_id : Option ℕ
  pub tx_pkts : List Mbuf
  pub tx_pkts_avail : ℕ
  pub tx_pkts_used : ℕ
  pub lm_pending : Bool

pub record RelayDpdk : Type 0 where
  pub vf2vio_cpu : Option ℕ
  pub state : DpdkState
  pub is_bond : Bool
  pub num_slaves : ℕ
  pub dpdk_port : Option ℕ
  pub pci_dbdf : List ℕ
  pub rx_pkts : List Mbuf
  pub rx_pkts_avail : ℕ
  pub rx_pkts_used : ℕ

pub record RelayStats : Type 0 where
  pub vio_rx : ℕ
  pub vio_rx_bytes : ℕ
  pub dpdk_tx : ℕ
  pub dpdk_tx_bytes : ℕ
  pub dpdk_drop_full : ℕ
  pub dpdk_drop_unavail : ℕ
  pub dpdk_rx : ℕ
  pub dpdk_rx_bytes : ℕ
  pub vio_tx : ℕ
  pub vio_tx_bytes : ℕ
  pub vio_drop_full : ℕ
  pub vio_drop_unavail : ℕ

-- What the worker did to buffers, in order: those that `rte_eth_tx_burst` and
-- `rte_vhost_enqueue_burst` accepted, and those given to `rte_pktmbuf_free`.
pub record Trace : Type 0 where
  pub to_vf : List Mbuf
  pub to_vm : List Mbuf
  pub freed : List Mbuf

pub record Relay : Type 0 where
  pub id : ℕ
  pub vio : RelayVirtio
  pub dpdk : RelayDpdk
  pub stats : RelayStats
  pub use_jumbo : Bool
  pub trace : Trace

-- The loops `for (i = 0; i < n; ++i) bytes += pkts[i]->pkt_len` over an `unsigned`.
pub sum_pkt_len : List Mbuf → ℕ
sum_pkt_len [] = 0
sum_pkt_len (m ∷ ms) = m.pkt_len + sum_pkt_len ms

abbrev pub bytes_of : List Mbuf → ℕ
bytes_of ms = sum_pkt_len ms % 2 ^ 32

-- The buffered packets of each direction: `avail` pointers from `pkts + used` on.
abbrev pub tx_window : Relay → List Mbuf
tx_window r = take r.vio.tx_pkts_avail (drop r.vio.tx_pkts_used r.vio.tx_pkts)

abbrev pub rx_window : Relay → List Mbuf
rx_window r = take r.dpdk.rx_pkts_avail (drop r.dpdk.rx_pkts_used r.dpdk.rx_pkts)
