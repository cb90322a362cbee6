-- ===== src/Control.antt =====
-- The control functions of virtio_worker.c that set up and tear down a DPDK port: cleanup_eth_dev,
-- start_eth_dev, alloc_mempool, dev_queue_configure and init_vf. The contents of the structures
-- given to rte_eth_dev_configure and to the queue setup (offload flags, descriptor counts) are not
-- modelled, nor are log messages.
pub mod Add
pub mod Remove
pub mod Guest
pub mod Bond
pub mod Steps
pub mod Keeps
pub mod Setup
use virtio_forwarder.Prelude.{
  ◌*◌, ◌+◌, ◌-◌, ◌^◌, ◌%◌, ℕ, zero, suc, ◌-◌, ◌*◌, Bool, true, false, not, ◌&&◌, ◌||◌, Option, none,
  some, List, [], ◌∷◌, ◌==◌, if◌then◌else◌,
}
use virtio_forwarder.Prelude.Int.{ℤ, pos, negsuc, is_error}
use virtio_forwarder.Relay.{Relay, RelayVirtio}
use virtio_forwarder.World.{
  World, M, ◌>>=◌, ◌>>◌, pure, get_relay, update_relay, Eth, ask, check, record_call, PoolName,
  mempool_, mempoolx_, DevCall, dev_probe, dev_info_get, dev_start, dev_stop, dev_close, dev_remove,
  promiscuous_enable, dev_configure, set_mtu, pool_create, tx_queue_setup, rx_queue_setup,
}

-- `NUM_PKTMBUF_POOL`
abbrev pub num_pktmbuf_pool : ℕ
num_pktmbuf_pool = 4096

-- `num_slaves * NUM_PKTMBUF_POOL - 1` on `unsigned`.
unfoldable pub pool_of_slaves : ℕ → ℕ
pool_of_slaves num_slaves = (num_slaves * num_pktmbuf_pool + 2 ^ 32 - 1) % 2 ^ 32

-- strcmp(...) == 0
unfoldable pub pci_dbdf_equal : List ℕ → List ℕ → Bool
pci_dbdf_equal [] [] = true
pci_dbdf_equal (c ∷ s) (d ∷ t) = c == d && pci_dbdf_equal s t
pci_dbdf_equal _ _ = false

unfoldable pub stop_close_remove_dev : Eth → ℕ → M ℤ
stop_close_remove_dev eth port_id = do
  stopped ← ask eth (dev_stop port_id)
  check stopped stopped
      (do closed ← ask eth (dev_close port_id); check closed closed (ask eth (dev_remove port_id)))

unfoldable pub cleanup_eth_dev : Eth → ℕ → M ℤ
unfolding stop_close_remove_dev
cleanup_eth_dev eth port_id = do
  err ← ask eth (dev_info_get port_id)
  check err err (stop_close_remove_dev eth port_id)

unfoldable pub start_eth_dev : Eth → ℕ → M ℤ
start_eth_dev eth port_id = ask eth (dev_start port_id)

-- The second name is taken while the first is in use.
unfoldable pub alloc_mempool : Eth → ℕ → Option ℕ → ℕ → M (Option ℕ)
alloc_mempool eth virtio_id socket_id n w =
    let buf : PoolName =
      if eth.lookup w.calls (mempool_ virtio_id) then mempoolx_ virtio_id else mempool_ virtio_id in
    let c = pool_create buf socket_id n in (record_call c >>= λ done. pure (eth.pool w.calls c)) w

-- The part of dev_queue_configure that allocates a pool if the relay has none: whether it has one.
unfoldable pub ensure_mempool : Eth → ℕ → Relay → M Bool
unfolding alloc_mempool
ensure_mempool eth id r = elim r.vio.mempool [
  | some pool ↦ pure true
  | none ↦ do
    mpool ← alloc_mempool eth r.id r.vio.mempool_socket_id (num_pktmbuf_pool - 1)
    elim mpool [
      | none ↦ pure false
      | some pool ↦ do
        update_relay id λ r. record r { vio = record (r.vio) { mempool = some pool } }
        pure true
    ]
]

unfoldable pub setup_queues : Eth → ℕ → ℕ → M ℤ
setup_queues eth port_id id = do
  r ← get_relay id
  info ← ask eth (dev_info_get port_id)
  check info info (do
    tx ← ask eth (tx_queue_setup port_id r.vio.mempool_socket_id)
    check tx (pos 6) (do
      rx ← ask eth (rx_queue_setup port_id r.vio.mempool_socket_id r.vio.mempool)
      check rx (pos 5) (pure (pos 0))))

unfoldable pub dev_queue_configure : Eth → ℕ → ℕ → Bool → M ℤ
unfolding ensure_mempool setup_queues
dev_queue_configure eth port_id id is_bond = do
  r ← get_relay id
  info ← ask eth (dev_info_get port_id)
  check info info (do
    conf ← ask eth (dev_configure port_id r.use_jumbo)
    check conf (pos 4) (do
      mtu ← if is_bond then pure (pos 0) else ask eth (set_mtu port_id r.use_jumbo)
      check mtu (pos 4) (do
        have ← ensure_mempool eth id r
        if have then setup_queues eth port_id id else pure (negsuc 0))))

-- The body of the loop of init_vf, which is left after one round: the port that matches.
unfoldable pub init_port : Eth → ℕ → ℕ → M ℤ
unfolding dev_queue_configure cleanup_eth_dev
init_port eth id port_id = do
  err ← dev_queue_configure eth port_id id false
  if is_error err
      then (cleanup_eth_dev eth port_id >>= λ code. pure err)
      else (ask eth (promiscuous_enable port_id) >>= λ code. pure (pos 0))

-- init_vf: the error code, and what `*port_id` holds at the end; `old` is what it held before.
unfoldable pub init_vf : Eth → List ℕ → ℕ → ℕ → M (ℤ × ℕ)
unfolding init_port
init_vf eth pci_dbdf id old = do
  err ← ask eth (dev_probe pci_dbdf)
  if is_error err then pure (pos 2, old) else λ w.
      let port_id = eth.matching w.calls pci_dbdf in
      (if port_id == eth.max_ethports
          then pure (pos 0, port_id)
          else (init_port eth id port_id >>= λ code. pure (code, port_id)))
        w
