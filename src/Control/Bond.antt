-- ===== src/Control/Bond.antt =====
-- virtio_forwarder_bond_add of virtio_worker.c, which gives a bond of several VFs to a relay.
pub mod Outcome
use virtio_forwarder.Prelude.{
  ℕ, ◌-◌, ◌*◌, Bool, true, false, not, Option, none, some, List, [], ◌∷◌, map, length,
  if◌then◌else◌, get_elem?,
}
use virtio_forwarder.Prelude.Int.{ℤ, pos, negsuc, is_error}
use virtio_forwarder.Relay.{Relay}
use virtio_forwarder.World.{
  World, M, ◌>>=◌, ◌>>◌, pure, get_relay, Eth, ask, DevCall, bond_create, port_by_name,
  bond_slave_add, bond_free,
}
use virtio_forwarder.Cpu.{is_dpdk_uninit}
use virtio_forwarder.Control.{dev_queue_configure, init_vf, pool_of_slaves}
use virtio_forwarder.Control.Add.{configure_dev_with_virtio}
use virtio_forwarder.Control.Remove.{cleanup_slaves}
use virtio_forwarder.Control.Guest.{migrate_mempool}

-- A slave: its name, and what its entry of `slave_port_ids`, which is not initialized, holds
-- before.
abbrev pub Slave : Type 0
Slave = List ℕ × ℕ

-- The first loop: whether a slave is in use.
unfoldable pub slave_in_use : Eth → List Slave → M Bool
slave_in_use eth [] = pure false
slave_in_use eth ((name, old) ∷ slaves) = do
  err ← ask eth (port_by_name name)
  if is_error err then slave_in_use eth slaves else pure true

-- The second loop: 5 if a slave cannot be set up, and the entries of `slave_port_ids`.
pub add_slaves : Eth → ℕ → ℕ → List Slave → M (ℤ × List ℕ)
add_slaves eth port_id id [] = pure (pos 0, [])
add_slaves eth port_id id ((name, old) ∷ slaves) = do
  (err, slave_port) ← init_vf eth name id old
  if is_error err then pure (pos 5, slave_port ∷ map (λ s. s.1) slaves) else (do
    added ← ask eth (bond_slave_add port_id slave_port)
    (code, ports) ← add_slaves eth port_id id slaves
    pure (code, slave_port ∷ ports))

-- error_bond_deconfigure, and error_slaves_deconfigure before it.
unfoldable pub free_bond : Eth → List ℕ → ℤ → M ℤ
free_bond eth name rc = do err ← ask eth (bond_free name); pure rc

pub free_slaves : Eth → List ℕ → List ℕ → ℤ → M ℤ
unfolding free_bond
free_slaves eth ports name rc = do cleanup_slaves eth ports; free_bond eth name rc

-- The slaves and the start of the bond.
pub fill_bond : Eth → List Slave → List ℕ → ℕ → ℕ → M ℤ
unfolding add_slaves free_slaves
fill_bond eth slaves name port_id id = do
  (rc, ports) ← add_slaves eth port_id id slaves
  if is_error rc then free_slaves eth ports name rc else (do
    err ← configure_dev_with_virtio eth name port_id id true (length slaves)
    if is_error err then free_slaves eth ports name (pos 6) else pure (pos 0))

-- With the bond created as `port_id`. A failed migration of the pool is ignored.
unfoldable pub build_bond : Eth → List Slave → List ℕ → ℕ → ℕ → ℕ → M ℤ
unfolding slave_in_use fill_bond free_bond
build_bond eth slaves name socket_id port_id id = do
  used ← slave_in_use eth slaves
  if used then free_bond eth name (pos 3) else (do
    migrated ← migrate_mempool eth id (some socket_id) (pool_of_slaves (length slaves))
    err ← dev_queue_configure eth port_id id true
    if is_error err then free_bond eth name (pos 4) else fill_bond eth slaves name port_id id)

-- The result of rte_eth_bond_create is the port, or negative.
abbrev pub with_port : Eth → List Slave → List ℕ → ℕ → ℕ → ℤ → M ℤ
with_port eth slaves name socket_id id (negsuc e) = pure (pos 2)
with_port eth slaves name socket_id id (pos port_id) =
    build_bond eth slaves name socket_id port_id id

abbrev pub bond_socket : Option ℕ → ℕ
bond_socket none = 0
bond_socket (some socket) = socket

abbrev pub bond_add_at : Eth → List Slave → List ℕ → ℕ → ℕ → Option Relay → M ℤ
bond_add_at eth slaves name mode id none = pure (pos 1)
bond_add_at eth slaves name mode id (some r) =
    let socket_id = bond_socket r.vio.mempool_socket_id in
    if not (is_dpdk_uninit r.dpdk.state) then pure (pos 8) else (do
      created ← ask eth (bond_create name mode socket_id)
      with_port eth slaves name socket_id id created)

unfoldable pub bond_add : Eth → List Slave → List ℕ → ℕ → ℕ → M ℤ
unfolding build_bond
bond_add eth slaves name mode id w = bond_add_at eth slaves name mode id (get_elem? w.relays id) w
