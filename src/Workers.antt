-- ===== src/Workers.antt =====
-- The life of the workers (virtio_worker.c): virtio_forwarders_initialize, which fills the table of
-- relays, and worker_func, the loop of a worker thread over the relays that it serves.
pub mod Rounds
pub mod System
use virtio_forwarder.Prelude.{
  ℕ, zero, suc, ◌+◌, Bool, true, false, not, ◌&&◌, ◌||◌, Option, none, some, List, [], ◌∷◌,
  if◌then◌else◌, get_elem?, set, replicate, length, ◌>>=◌,
}
use virtio_forwarder.Bits.{drain, test_bit}
use virtio_forwarder.Relay.{
  Relay, RelayVirtio, RelayDpdk, RelayStats, Trace, Mbuf, virtio_uninit, dpdk_uninit, burst_len,
  max_multiqueue_pairs,
}
use virtio_forwarder.Relay.Hash.{EthHdr}
use virtio_forwarder.World.{WorkerThread, RelayCpus}
use virtio_forwarder.Cpu.{is_cpu, update_thread}
use virtio_forwarder.Datapath.Io.{Io}
use virtio_forwarder.Datapath.Down.{relay_vm2vf_traffic}
use virtio_forwarder.Datapath.Up.{relay_vf2vm_traffic}

-- The relay `w` after `memset` and the loop of virtio_forwarders_initialize; `null_pkt` stands for
-- the NULL pointers in its arrays of packets, and the state enums have 0 for the first state.
abbrev pub zero_stats : RelayStats
zero_stats = record {
  vio_rx = 0;
  vio_rx_bytes = 0;
  dpdk_tx = 0;
  dpdk_tx_bytes = 0;
  dpdk_drop_full = 0;
  dpdk_drop_unavail = 0;
  dpdk_rx = 0;
  dpdk_rx_bytes = 0;
  vio_tx = 0;
  vio_tx_bytes = 0;
  vio_drop_full = 0;
  vio_drop_unavail = 0;
}

abbrev pub zero_vio : Mbuf → Option ℕ → RelayVirtio
zero_vio null_pkt socket_id = record {
  vio2vf_cpu = none;
  max_queue_pairs = 0;
  rx_q_bitmap = 0;
  tx_q_bitmap = 0;
  rx_q_active = 0;
  rx_q_lut = replicate max_multiqueue_pairs 0;
  tx_q_rr = 0;
  pow2queues = false;
  state = virtio_uninit;
  vio_dev = 0;
  mempool = none;
  mempool_socket_id = socket_id;
  tx_pkts = replicate burst_len null_pkt;
  tx_pkts_avail = 0;
  tx_pkts_used = 0;
  lm_pending = false;
}

-- `dpdk_port` is 0 until a device is attached.
abbrev pub zero_dpdk : Mbuf → RelayDpdk
zero_dpdk null_pkt = record {
  vf2vio_cpu = none;
  state = dpdk_uninit;
  is_bond = false;
  num_slaves = 0;
  dpdk_port = some 0;
  pci_dbdf = [];
  rx_pkts = replicate burst_len null_pkt;
  rx_pkts_avail = 0;
  rx_pkts_used = 0;
}

abbrev pub initial_relay : Mbuf → Bool → ℕ → Option ℕ → Relay
initial_relay null_pkt use_jumbo w socket_id = record {
  id = w;
  vio = zero_vio null_pkt socket_id;
  dpdk = zero_dpdk null_pkt;
  stats = zero_stats;
  use_jumbo = use_jumbo;
  trace = record { to_vf = []; to_vm = []; freed = [] };
}

-- The NUMA node of the CPU that the configuration names, or any.
abbrev pub configured_node : List ℕ → Option ℕ → Option (Option ℕ)
configured_node numanode none = some none
configured_node numanode (some cpu) = get_elem? numanode cpu >>= λ node. some (some node)

-- The loop over the relays, from `w` on; a configured CPU outside the table of CPUs is not read.
unfoldable pub initial_relays :
    Mbuf → Bool → (numanode : List ℕ) → List RelayCpus → ℕ → Option (List Relay)
initial_relays null_pkt use_jumbo numanode [] w = some []
initial_relays null_pkt use_jumbo numanode (c ∷ cs) w =
    configured_node numanode c.vio2vf_cpu >>= λ socket_id.
    initial_relays null_pkt use_jumbo numanode cs (w + 1) >>= λ rest.
    some (initial_relay null_pkt use_jumbo w socket_id ∷ rest)

-- One turn of a thread at a relay: whether it gets the two spinlocks, and what DPDK answers in it.
pub record Turn : Type 0 where
  pub vio_lock : Bool
  pub dpdk_lock : Bool
  pub down : Io
  pub up : Io

-- The two directions of a relay, each if this CPU serves it and gets its lock.
unfoldable pub forward_down : Turn → ℕ → Relay → Option (Relay × Bool)
forward_down turn cpu r =
    if is_cpu r.vio.vio2vf_cpu cpu && turn.vio_lock
    then relay_vm2vf_traffic turn.down r
    else some (r, false)

module _ (jhash : List ℕ → ℕ → ℕ) where
  unfoldable pub forward_up : Turn → ℕ → Relay → Option (Relay × Bool)
  forward_up turn cpu r =
      if is_cpu r.dpdk.vf2vio_cpu cpu && turn.dpdk_lock
      then relay_vf2vm_traffic jhash turn.up r
      else some (r, false)

  -- The body of the inner loop of worker_func.
  unfoldable pub serve_relay : Turn → ℕ → Relay → Option (Relay × Bool)
  serve_relay turn cpu r =
      forward_down turn cpu r >>= λ d. forward_up turn cpu d.0 >>= λ u. some (u.0, d.1 || u.1)

  -- The inner loop, over the ones of the mask that the round began with.
  unfoldable pub serve_relays :
      (ℕ → Turn) → ℕ → List ℕ → List Relay → Bool → Option (List Relay × Bool)
  serve_relays turns cpu [] relays processed = some (relays, processed)
  serve_relays turns cpu (w ∷ ws) relays processed = get_elem? relays w >>= λ r.
      serve_relay (turns w) cpu r >>= λ out.
      serve_relays turns cpu ws (set relays w out.0) (processed || out.1)

  -- One round of worker_func: the mask is read before it is brought up to date.
  unfoldable pub worker_round :
      (ℕ → Turn) → WorkerThread → List Relay → Option (WorkerThread × List Relay)
  worker_round turns this_thread relays =
      let updated =
        if this_thread.need_update then update_thread relays this_thread else this_thread in
      serve_relays turns this_thread.cpu (drain 64 this_thread.active_relays) relays false
      >>= λ out. some (updated, out.0)
