-- ===== src/Examples.antt =====
-- Concrete relays and DPDK answers, on which the theorems are applied.
pub mod Queues
pub mod Down
pub mod Up
pub mod Cpus
pub mod Adding
pub mod Leaving
pub mod Sockets
pub mod Messages
pub mod Workers
pub mod Ovsdb
pub mod Options
pub mod Servers
use virtio_forwarder.Prelude.{
  ℕ, ◌+◌, ◌≤◌, min, Bool, true, false, Option, none, some, List, [], ◌∷◌, ◌++◌, replicate, length,
  length-take, take, arith,
}
use virtio_forwarder.Relay.{Relay, RelayVirtio, RelayDpdk, Mbuf, VioState, DpdkState}
use virtio_forwarder.Relay.Hash.{ipv4}
use virtio_forwarder.Datapath.Io.{Io, IsIo}

-- An IPv4 UDP packet from address `n`.
abbrev pub mbuf : ℕ → Mbuf
mbuf n = record { buf = n; pkt_len = 60; header = ipv4 n 1 17 53 99; fdir_id = 0 }

abbrev pub marked : ℕ → ℕ → Mbuf
marked q n = record (mbuf n) { fdir_id = q }

-- A hash: the source address, the first word.
abbrev pub first_word : List ℕ → ℕ → ℕ
first_word [] h = h
first_word (w ∷ ws) h = w

-- A guest with three packets to send, that accepts one packet of each burst; a port with two
-- received packets, that accepts two of each burst.
abbrev pub some_io : Io
some_io = record {
  tx_q_bitmap = λ mask i. mask;
  dequeue_burst = λ queue count. take count (mbuf 1 ∷ mbuf 2 ∷ mbuf 3 ∷ []);
  avail_entries = 256;
  rx_burst = λ count. take count (mbuf 4 ∷ mbuf 5 ∷ []);
  tx_burst = λ ms. min 2 (length ms);
  enqueue_burst = λ queue ms. min 1 (length ms);
}

pub some_io-IsIo : IsIo some_io
some_io-IsIo = record {
  dequeued = λ queue count. omega (arith, length-take count (mbuf 1 ∷ mbuf 2 ∷ mbuf 3 ∷ []));
  received = λ count. omega (arith, length-take count (mbuf 4 ∷ mbuf 5 ∷ []));
  accepted = λ ms. omega arith;
  enqueued = λ queue ms. omega arith;
}

-- A relay on CPUs 2 and 3 with `held` received packets, its masks of receive and transmit queues,
-- the number of active receive queues and the front of the lookup table.
abbrev pub a_vio :
    VioState → (rx_q_bitmap tx_q_bitmap rx_q_active : ℕ) → Bool → List ℕ → RelayVirtio
a_vio state rx tx active pow2 lut = record {
  vio2vf_cpu = some 2;
  max_queue_pairs = 4;
  rx_q_bitmap = rx;
  tx_q_bitmap = tx;
  rx_q_active = active;
  rx_q_lut = lut;
  tx_q_rr = 0;
  pow2queues = pow2;
  state = state;
  vio_dev = 7;
  mempool = some 1;
  mempool_socket_id = some 0;
  tx_pkts = replicate 32 (mbuf 0);
  tx_pkts_avail = 0;
  tx_pkts_used = 0;
  lm_pending = false;
}

abbrev pub a_dpdk : DpdkState → List Mbuf → List Mbuf → RelayDpdk
a_dpdk state held rest = record {
  vf2vio_cpu = some 3;
  state = state;
  is_bond = false;
  num_slaves = 0;
  dpdk_port = some 0;
  pci_dbdf = 1 ∷ [];
  rx_pkts = held ++ rest;
  rx_pkts_avail = length held;
  rx_pkts_used = 0;
}

abbrev pub a_relay : RelayVirtio → RelayDpdk → Relay
a_relay v d = record {
  id = 0;
  vio = v;
  dpdk = d;
  stats = record {
    vio_rx = 0;
    vio_rx_bytes = 0;
    dpdk_tx = 0;
    dpdk_tx_bytes = 0;
    dpdk_drop_full = 0;
    dpdk_drop_unavail = 0;
    dpdk_rx = d.rx_pkts_avail;
    dpdk_rx_bytes = 0;
    vio_tx = 0;
    vio_tx_bytes = 0;
    vio_drop_full = 0;
    vio_drop_unavail = 0;
  };
  use_jumbo = false;
  trace = record { to_vf = []; to_vm = []; freed = [] };
}
