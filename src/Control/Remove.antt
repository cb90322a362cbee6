-- ===== src/Control/Remove.antt =====
-- virtio_forwarder_remove_vf2 of virtio_worker.c, which takes the VF or the bond of a relay away.
-- While the code sleeps, the worker threads run: the argument `sleep` says what they do to the
-- globals in each sleep.
pub mod Wait
use virtio_forwarder.Prelude.{
  ℕ, zero, suc, ◌+◌, Bool, true, false, Option, none, some, List, [], ◌∷◌, if◌then◌else◌, get_elem?,
}
use virtio_forwarder.Prelude.Int.{ℤ, pos, is_error}
use virtio_forwarder.Relay.{Relay, dpdk_removing1}
use virtio_forwarder.World.{
  World, M, ◌>>=◌, ◌>>◌, pure, get_relay, update_relay, Eth, ask, check, record_call, DevCall,
  dev_stop, dev_close, mempool_free, bond_slaves_get, bond_slave_remove, bond_free,
}
use virtio_forwarder.Cpu.{is_added_or_ready, is_dpdk_uninit, is_virtio_uninit, set_vf2vio_cpu}
use virtio_forwarder.Control.{pci_dbdf_equal, cleanup_eth_dev}
use virtio_forwarder.Control.Add.{mark_cpu}

-- `while (!done && retries++ < n) usleep(50000);`
unfoldable pub wait_until : (World → Bool) → (ℕ → World → World) → (n retries : ℕ) → World → World
wait_until done sleep zero retries w = w
wait_until done sleep (suc n) retries w =
    let rest = wait_until done sleep n (retries + 1) (sleep retries w) in if done w then w else rest

abbrev pub vf_released : ℕ → World → Bool
vf_released id w = elim (get_elem? w.relays id) [
  | none ↦ false
  | some r ↦ is_dpdk_uninit r.dpdk.state
]

abbrev pub wait_vf : (ℕ → World → World) → ℕ → M (Unit {0})
wait_vf sleep id w = some (tt, wait_until (vf_released id) sleep 20 0 w)

-- stop_vm2vf_thread once a CPU is known to serve the VF.
unfoldable pub ask_release : (ℕ → World → World) → ℕ → M ℤ
unfolding wait_until
ask_release sleep id = do
  update_relay id λ r. record r { dpdk = record (r.dpdk) { state = dpdk_removing1 } }
  wait_vf sleep id
  r ← get_relay id
  if is_dpdk_uninit r.dpdk.state then pure (pos 0) else pure (pos 5)

abbrev pub release_from : Option ℕ → (ℕ → World → World) → ℕ → M ℤ
release_from none sleep id = pure (pos 0)
release_from (some cpu) sleep id = ask_release sleep id

unfoldable pub stop_vm2vf_thread : (ℕ → World → World) → ℕ → M ℤ
unfolding ask_release
stop_vm2vf_thread sleep id = do r ← get_relay id; release_from r.dpdk.vf2vio_cpu sleep id

unfoldable pub remove_slaves : Eth → ℕ → List ℕ → M (Unit {0})
remove_slaves eth port_id [] = pure tt
remove_slaves eth port_id (slave ∷ slaves) = do
  err ← ask eth (bond_slave_remove port_id slave)
  remove_slaves eth port_id slaves

unfoldable pub cleanup_slaves : Eth → List ℕ → M (Unit {0})
cleanup_slaves eth [] = pure tt
cleanup_slaves eth (slave ∷ slaves) = do err ← cleanup_eth_dev eth slave; cleanup_slaves eth slaves

-- The end of detach_slaves, for the slaves that DPDK names.
abbrev pub detach_all : Eth → ℕ → Option (List ℕ) → M ℤ
detach_all eth port_id none = pure (pos 1)
detach_all eth port_id (some slaves) = do
  remove_slaves eth port_id slaves
  cleanup_slaves eth slaves
  pure (pos 0)

-- `dpdk_port_t` is a `uint16_t`: no port is 65535.
abbrev pub port_of : Relay → ℕ
port_of r = elim r.dpdk.dpdk_port [ none ↦ 65535 | some port_id ↦ port_id ]

unfoldable pub detach_slaves : Eth → Relay → M ℤ
unfolding remove_slaves cleanup_slaves
detach_slaves eth r w =
    if r.dpdk.is_bond
    then (record_call (bond_slaves_get (port_of r)) >>= λ done.
          detach_all eth (port_of r) (eth.slaves w.calls (port_of r)))
        w
    else pure (pos 0) w

-- The DPDK calls of detach_device.
unfoldable pub detach_port : Eth → Relay → M ℤ
unfolding detach_slaves
detach_port eth r =
    if r.dpdk.is_bond
    then (do
      slaves ← detach_slaves eth r
      stopped ← ask eth (dev_stop (port_of r))
      closed ← ask eth (dev_close (port_of r))
      ask eth (bond_free r.dpdk.pci_dbdf))
    else cleanup_eth_dev eth (port_of r)

-- Its end: the relay forgets the device, and the pool goes if there is no guest.
unfoldable pub forget_device : ℕ → M ℤ
forget_device id = do
  update_relay id λ r. record r {
    dpdk = record (r.dpdk) { dpdk_port = none; pci_dbdf = []; is_bond = false; num_slaves = 0 };
  }
  r ← get_relay id
  if is_virtio_uninit r.vio.state
      then (do
        record_call (mempool_free r.vio.mempool)
        update_relay id λ r. record r { vio = record (r.vio) { mempool = none } }
        pure (pos 0))
      else pure (pos 0)

unfoldable pub detach_device : Eth → (ℕ → World → World) → ℕ → M ℤ
unfolding stop_vm2vf_thread detach_port forget_device
detach_device eth sleep id = do
  stopped ← stop_vm2vf_thread sleep id
  check stopped stopped (do
    r ← get_relay id
    set_vf2vio_cpu id none
    mark_cpu r.dpdk.vf2vio_cpu
    err ← detach_port eth r
    if is_error err then pure (pos 2) else forget_device id)

abbrev pub remove_vf2_at : Eth → (ℕ → World → World) → List ℕ → ℕ → Bool → Option Relay → M ℤ
remove_vf2_at eth sleep pci_dbdf virtio_id conditional none = pure (pos 1)
remove_vf2_at eth sleep pci_dbdf virtio_id conditional (some r) =
    if is_added_or_ready r.dpdk.state
    then (if pci_dbdf_equal pci_dbdf r.dpdk.pci_dbdf
        then detach_device eth sleep virtio_id
        else pure (pos 3))
    else if conditional
    then pure (pos 0)
    else pure (pos 4)

unfoldable pub remove_vf2 : Eth → (ℕ → World → World) → List ℕ → ℕ → Bool → M ℤ
unfolding detach_device
remove_vf2 eth sleep pci_dbdf virtio_id conditional w =
    remove_vf2_at eth sleep pci_dbdf virtio_id conditional (get_elem? w.relays virtio_id) w
