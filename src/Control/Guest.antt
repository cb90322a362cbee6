-- ===== src/Control/Guest.antt =====
-- virtio_forwarder_add_virtio and virtio_forwarder_remove_virtio of virtio_worker.c, which give a
-- guest to a relay and take it away, and migrate_mempool.
use virtio_forwarder.Prelude.{
  ℕ, ◌-◌, ◌/◌, ◌%◌, ◌^◌, Bool, true, false, not, ◌||◌, Option, none, some, ◌==◌, ltb, if◌then◌else◌,
  get_elem?,
}
use virtio_forwarder.Prelude.Int.{ℤ, pos, negsuc, is_error}
use virtio_forwarder.Bits.{test_bit}
use virtio_forwarder.Relay.{
  Relay, DpdkState, dpdk_added, dpdk_ready, virtio_ready, virtio_removing1, is_dpdk_ready,
  is_virtio_ready, max_multiqueue_pairs,
}
use virtio_forwarder.World.{
  World, M, ◌>>=◌, ◌>>◌, pure, fault, get_relay, update_relay, Eth, ask, check, record_call,
  dev_info_get, dev_stop, dev_close, tx_queue_setup, rx_queue_setup, mempool_free,
}
use virtio_forwarder.Cpu.{is_virtio_uninit, find_vf2virtio_cpu, find_virtio2vf_cpu}
use virtio_forwarder.Control.{alloc_mempool, start_eth_dev, num_pktmbuf_pool, pool_of_slaves}
use virtio_forwarder.Control.Add.{mark_cpu}
use virtio_forwarder.Control.Remove.{wait_until, port_of}

abbrev pub is_dpdk_added : DpdkState → Bool
is_dpdk_added dpdk_added = true
is_dpdk_added _ = false

-- NUMA nodes, -1 for any.
abbrev pub same_node : Option ℕ → Option ℕ → Bool
same_node none none = true
same_node (some a) (some b) = a == b
same_node _ _ = false

-- `uint8_t port_id`
abbrev pub short_port : Relay → ℕ
short_port r = port_of r % 2 ^ 8

-- A failed queue setup of migrate_mempool closes the port.
unfoldable pub close_and_fail : Eth → ℕ → M ℤ
close_and_fail eth port_id = do closed ← ask eth (dev_close port_id); pure (negsuc 0)

-- The reconfiguration at the end of migrate_mempool.
unfoldable pub reconfigure_vf : Eth → Relay → M ℤ
unfolding close_and_fail
reconfigure_vf eth r = do
  info ← ask eth (dev_info_get (short_port r))
  check info info (do
    tx ← ask eth (tx_queue_setup (short_port r) r.vio.mempool_socket_id)
    if is_error tx then close_and_fail eth (short_port r) else (do
      rx ← ask eth (rx_queue_setup (short_port r) r.vio.mempool_socket_id r.vio.mempool)
      if is_error rx then close_and_fail eth (short_port r) else pure (pos 0)))

-- `if (relay->vio.mempool) rte_mempool_free(...)`
abbrev pub free_pool : Option ℕ → M (Unit {0})
free_pool none = pure tt
free_pool (some pool) = record_call (mempool_free (some pool))

-- migrate_mempool with a new pool: the two assertions, the exchange of the pools, the VF.
unfoldable pub exchange_mempool : Eth → ℕ → Option ℕ → ℕ → M ℤ
unfolding reconfigure_vf
exchange_mempool eth id newnode new_pool = do
  r ← get_relay id
  if is_dpdk_ready r.dpdk.state || not (r.dpdk.rx_pkts_avail == 0) then fault else (do
    stopped ← if is_dpdk_added r.dpdk.state then ask eth (dev_stop (short_port r)) else pure (pos 0)
    free_pool r.vio.mempool
    update_relay id λ r. record r {
      vio = record (r.vio) { mempool = some new_pool; mempool_socket_id = newnode };
    }
    r' ← get_relay id
    if is_dpdk_added r'.dpdk.state then reconfigure_vf eth r' else pure (pos 0))

abbrev pub exchange_with : Eth → ℕ → Option ℕ → Option ℕ → M ℤ
exchange_with eth id newnode none = pure (negsuc 0)
exchange_with eth id newnode (some pool) = exchange_mempool eth id newnode pool

unfoldable pub migrate_mempool : Eth → ℕ → Option ℕ → ℕ → M ℤ
unfolding exchange_mempool
migrate_mempool eth id newnode num_pktmbufs = do
  r ← get_relay id
  new_pool ← alloc_mempool eth r.id newnode num_pktmbufs
  exchange_with eth id newnode new_pool

-- The pool of a guest on NUMA node `newnode`: allocated there, or else anywhere.
unfoldable pub first_mempool : Eth → ℕ → Relay → Option ℕ → M Bool
first_mempool eth id r newnode = do
  mpool ← alloc_mempool eth r.id newnode (num_pktmbuf_pool - 1)
  elim mpool [
    | some pool ↦ do
      update_relay id λ r. record r {
        vio = record (r.vio) { mempool = some pool; mempool_socket_id = newnode };
      }
      pure true
    | none ↦ do
      again ← alloc_mempool eth r.id none (num_pktmbuf_pool - 1)
      elim again [
        | none ↦ pure false
        | some pool ↦ do
          update_relay id λ r. record r {
            vio = record (r.vio) { mempool = some pool; mempool_socket_id = none };
          }
          pure true
      ]
  ]

-- The NUMA part of virtio_forwarder_add_virtio: whether it goes on. A failed migration is ignored.
unfoldable pub guest_mempool : Eth → ℕ → Relay → Option ℕ → M Bool
unfolding first_mempool migrate_mempool
guest_mempool eth id r newnode = elim r.vio.mempool [
  | none ↦ first_mempool eth id r newnode
  | some pool ↦
      let n = if r.dpdk.is_bond then pool_of_slaves r.dpdk.num_slaves else num_pktmbuf_pool - 1 in
      if same_node r.vio.mempool_socket_id newnode || same_node newnode none
      then pure true
      else (migrate_mempool eth id newnode n >>= λ code. pure true)
]

-- The start of a VF that waits for its guest.
unfoldable pub start_waiting_vf : Eth → ℕ → M (Unit {0})
start_waiting_vf eth id = do
  find_vf2virtio_cpu id
  r ← get_relay id
  err ← start_eth_dev eth (port_of r)
  if is_error err then pure tt else (do
    update_relay id λ r. record r {
      vio = record (r.vio) { lm_pending = false };
      dpdk = record (r.dpdk) { state = dpdk_ready };
    }
    mark_cpu r.dpdk.vf2vio_cpu)

abbrev pub cpu_in_mask : ℕ → Option ℕ → Bool
cpu_in_mask bitmap none = false
cpu_in_mask bitmap (some cpu) = test_bit bitmap cpu

-- The end of virtio_forwarder_add_virtio, with a pool.
unfoldable pub connect_guest : Eth → ℕ → M ℤ
unfolding start_waiting_vf
connect_guest eth id = do
  find_virtio2vf_cpu id
  r ← get_relay id
  inside ← λ w. some (cpu_in_mask w.worker_core_bitmap r.vio.vio2vf_cpu, w)
  if not inside then pure (negsuc 0) else (do
    update_relay id λ r. record r { vio = record (r.vio) { state = virtio_ready } }
    mark_cpu r.vio.vio2vf_cpu
    if is_dpdk_added r.dpdk.state then start_waiting_vf eth id else pure tt
    pure (pos 0))

abbrev pub add_virtio_at : Eth → ℕ → ℕ → Option Relay → M ℤ
add_virtio_at eth virtionet id none = pure (negsuc 0)
add_virtio_at eth virtionet id (some r) =
    if not (is_virtio_uninit r.vio.state) then pure (negsuc 0) else (do
      update_relay id λ r. record r {
        vio = record (r.vio) {
          tx_q_rr = 0;
          vio_dev = virtionet;
          max_queue_pairs = eth.vring_num virtionet / 2;
        };
      }
      if ltb max_multiqueue_pairs (eth.vring_num virtionet / 2) then pure (negsuc 0) else (do
        ready ← guest_mempool eth id r (eth.numa_node virtionet)
        if ready then connect_guest eth id else pure (negsuc 0)))

unfoldable pub add_virtio : Eth → ℕ → ℕ → M ℤ
unfolding guest_mempool connect_guest
add_virtio eth virtionet id w = add_virtio_at eth virtionet id (get_elem? w.relays id) w

-- What virtio_forwarder_remove_virtio does with the VF and the pool.
unfoldable pub stop_vf : Eth → ℕ → M (Unit {0})
stop_vf eth id = do
  r ← get_relay id
  if is_dpdk_ready r.dpdk.state
      then (do
        stopped ← ask eth (dev_stop (port_of r))
        update_relay id λ r. record r { dpdk = record (r.dpdk) { state = dpdk_added } }
        mark_cpu r.dpdk.vf2vio_cpu)
      else (do
        record_call (mempool_free r.vio.mempool)
        update_relay id λ r. record r { vio = record (r.vio) { mempool = none } })

abbrev pub guest_released : ℕ → World → Bool
guest_released id w = elim (get_elem? w.relays id) [
  | none ↦ false
  | some r ↦ is_virtio_uninit r.vio.state
]

abbrev pub wait_guest : (ℕ → World → World) → ℕ → M (Unit {0})
wait_guest sleep id w = some (tt, wait_until (guest_released id) sleep 20 0 w)

abbrev pub remove_virtio_at : Eth → (ℕ → World → World) → ℕ → Option Relay → M (Unit {0})
remove_virtio_at eth sleep id none = pure tt
remove_virtio_at eth sleep id (some r) = if not (is_virtio_ready r.vio.state) then pure tt else (do
  update_relay id λ r. record r { vio = record (r.vio) { state = virtio_removing1 } }
  wait_guest sleep id
  r' ← get_relay id
  update_relay id
      λ r. record r { vio = record (r.vio) { vio2vf_cpu = none; tx_q_bitmap = 0; rx_q_bitmap = 0 } }
  mark_cpu r'.vio.vio2vf_cpu
  stop_vf eth id)

-- After 20 sleeps it goes on, whether the workers have released the guest or not.
unfoldable pub remove_virtio : Eth → (ℕ → World → World) → ℕ → M (Unit {0})
unfolding stop_vf
remove_virtio eth sleep id w = remove_virtio_at eth sleep id (get_elem? w.relays id) w
