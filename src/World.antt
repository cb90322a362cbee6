-- ===== src/World.antt =====
-- The globals of virtio_worker.c: the relays, the worker threads, the mask of worker CPUs, the part
-- of the configuration that the control functions read, and the NUMA node of each CPU.
use virtio_forwarder.Prelude.{
  ℕ, Bool, true, Option, none, some, List, [], ◌∷◌, ◌++◌, get_elem?, set, and_then,
}
use virtio_forwarder.Prelude.{if◌then◌else◌}
use virtio_forwarder.Prelude.Int.{ℤ, is_error}
use virtio_forwarder.Relay.{Relay}

-- `worker_thread_t`
pub record WorkerThread : Type 0 where
  pub cpu : ℕ
  pub initialized : Bool
  pub running : Bool
  pub must_stop : Bool
  pub need_update : Bool
  pub active_relays : ℕ

-- `struct relay_cpus`
pub record RelayCpus : Type 0 where
  pub vf2vio_cpu : Option ℕ
  pub vio2vf_cpu : Option ℕ

-- The names under which alloc_mempool creates the pool of a relay.
pub data PoolName : Type 0 where
  mempool_ mempoolx_ : (virtio_id : ℕ) → PoolName

-- The calls into DPDK of the control functions, with the arguments that the code computes.
pub data DevCall : Type 0 where
  dev_probe : (pci_dbdf : List ℕ) → DevCall
  dev_info_get dev_start dev_stop dev_close dev_remove promiscuous_enable : (port_id : ℕ) → DevCall
  dev_configure set_mtu : (port_id : ℕ) → (use_jumbo : Bool) → DevCall
  pool_create : PoolName → (socket_id : Option ℕ) → (n : ℕ) → DevCall
  tx_queue_setup : (port_id : ℕ) → (socket_id : Option ℕ) → DevCall
  rx_queue_setup : (port_id : ℕ) → (socket_id pool : Option ℕ) → DevCall
  mempool_free : (pool : Option ℕ) → DevCall
  bond_create : (name : List ℕ) → (mode socket_id : ℕ) → DevCall
  port_by_name : (name : List ℕ) → DevCall
  bond_slave_add : (port_id slave : ℕ) → DevCall
  bond_slaves_get : (port_id : ℕ) → DevCall
  bond_slave_remove : (port_id slave : ℕ) → DevCall
  bond_free : (name : List ℕ) → DevCall

pub record World : Type 0 where
  pub relays : List Relay
  pub worker_threads : List WorkerThread
  pub worker_core_bitmap : ℕ
  pub relay_cpus : List RelayCpus
  pub numanode : List ℕ
  pub calls : List DevCall

-- A function on the globals; `none` is an access outside an array or a failed assertion.
abbrev pub M : Type 0 → Type 0
M A = World → Option (A × World)

infixl 5 ◌>>=◌ ◌>>◌
abbrev pub ◌>>=◌ : {A B : Type 0} → M A → (A → M B) → M B
◌>>=◌ m f w = and_then (m w) λ p. f p.0 p.1

abbrev pub ◌>>◌ : {B : Type 0} → M (Unit {0}) → M B → M B
m >> k = m >>= λ _. k

abbrev pub pure : {A : Type 0} → A → M A
pure a w = some (a, w)

abbrev pub fault : {A : Type 0} → M A
fault w = none

-- `virtio_vf_relays[id]`, read and written.
unfoldable pub get_relay : ℕ → M Relay
get_relay id w = and_then (get_elem? w.relays id) λ r. some (r, w)

unfoldable pub update_relay : ℕ → (Relay → Relay) → M (Unit {0})
update_relay id f w =
    and_then (get_elem? w.relays id) λ r. some (tt, record w { relays = set w.relays id (f r) })

-- `g_vio_worker_conf.relay_cpus[id]`
unfoldable pub get_relay_cpus : ℕ → M RelayCpus
get_relay_cpus id w = and_then (get_elem? w.relay_cpus id) λ c. some (c, w)

-- `worker_threads[cpu]`, read, and `worker_threads[cpu].need_update = true`.
unfoldable pub get_thread : ℕ → M WorkerThread
get_thread cpu w = and_then (get_elem? w.worker_threads cpu) λ t. some (t, w)

-- The threads after `worker_threads[cpu].need_update = true`.
abbrev pub marked : World → ℕ → WorkerThread → World
marked w cpu t = record w {
  worker_threads = set w.worker_threads cpu (record t { need_update = true });
}

unfoldable pub mark_update : ℕ → M (Unit {0})
mark_update cpu w = and_then (get_elem? w.worker_threads cpu) λ t. some (tt, marked w cpu t)

-- DPDK, as the control functions see it: the answer to a call and the results that are not error
-- codes, each of which depends on the calls made before.
pub record Eth : Type 0 where
  pub answer : List DevCall → DevCall → ℤ
  -- rte_mempool_lookup
  pub lookup : List DevCall → PoolName → Bool
  -- rte_pktmbuf_pool_create
  pub pool : List DevCall → DevCall → Option ℕ
  -- The first port of RTE_ETH_FOREACH_MATCHING_DEV, `max_ethports` if there is none.
  pub matching : List DevCall → List ℕ → ℕ
  pub max_ethports : ℕ
  -- rte_eth_bond_slaves_get: the slaves, if it succeeds.
  pub slaves : List DevCall → ℕ → Option (List ℕ)
  -- rte_vhost_get_vring_num and rte_vhost_get_numa_node.
  pub vring_num : ℕ → ℕ
  pub numa_node : ℕ → Option ℕ

-- A call is recorded, and answered.
unfoldable pub record_call : DevCall → M (Unit {0})
record_call c w = some (tt, record w { calls = w.calls ++ c ∷ [] })

unfoldable pub ask : Eth → DevCall → M ℤ
ask eth c w = some (eth.answer w.calls c, record w { calls = w.calls ++ c ∷ [] })

-- `if (err) return code;`
abbrev pub check : ℤ → ℤ → M ℤ → M ℤ
check err code next = if is_error err then pure code else next
