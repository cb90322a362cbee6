-- ===== src/Control/Add.antt =====
-- virtio_forwarder_add_vf2 of virtio_worker.c, which gives a VF to a relay.
pub mod Frame
pub mod Outcome
use virtio_forwarder.Prelude.{
  ℕ, Bool, true, false, not, ◌&&◌, Option, none, some, List, ◌==◌, if◌then◌else◌, get_elem?, take,
}
use virtio_forwarder.Prelude.Int.{ℤ, pos, is_error}
use virtio_forwarder.Relay.{Relay, DpdkState, dpdk_added, dpdk_ready, is_virtio_ready}
use virtio_forwarder.World.{
  World, M, ◌>>=◌, ◌>>◌, pure, fault, get_relay, update_relay, mark_update, Eth, ask, DevCall,
  dev_stop,
}
use virtio_forwarder.Cpu.{is_added_or_ready, is_dpdk_uninit, find_vf2virtio_cpu}
use virtio_forwarder.Control.{pci_dbdf_equal, cleanup_eth_dev, start_eth_dev, init_vf}

pub conditional_add_ok : Relay → List ℕ → ℕ → Bool
conditional_add_ok r pci_dbdf virtio_id =
    is_added_or_ready r.dpdk.state && r.id == virtio_id && pci_dbdf_equal r.dpdk.pci_dbdf pci_dbdf

-- `worker_threads[cpu].need_update = true` for the CPU of a direction, which is one.
abbrev pub mark_cpu : Option ℕ → M (Unit {0})
mark_cpu none = fault
mark_cpu (some cpu) = mark_update cpu

-- The success path of configure_dev_with_virtio: 19 characters of the name are kept.
unfoldable pub attach_steps : List ℕ → ℕ → ℕ → Bool → ℕ → DpdkState → M (Unit {0})
attach_steps pci_dbdf port_id id is_bond num_slaves dpdk_state = do
  update_relay id λ r. record r {
    vio = record (r.vio) { lm_pending = false };
    dpdk = record (r.dpdk) { dpdk_port = some port_id; pci_dbdf = take 19 pci_dbdf };
  }
  find_vf2virtio_cpu id
  update_relay id λ r. record r {
    dpdk = record (r.dpdk) { state = dpdk_state; is_bond = is_bond; num_slaves = num_slaves };
  }
  r ← get_relay id
  mark_cpu r.dpdk.vf2vio_cpu

unfoldable pub attach : List ℕ → ℕ → ℕ → Bool → ℕ → DpdkState → M ℤ
unfolding attach_steps
attach pci_dbdf port_id id is_bond num_slaves dpdk_state = do
  attach_steps pci_dbdf port_id id is_bond num_slaves dpdk_state
  pure (pos 0)

unfoldable pub configure_dev_with_virtio : Eth → List ℕ → ℕ → ℕ → Bool → ℕ → M ℤ
unfolding attach
configure_dev_with_virtio eth pci_dbdf port_id id is_bond num_slaves = do
  r ← get_relay id
  if is_virtio_ready r.vio.state
      then (do
        err ← start_eth_dev eth port_id
        if is_error err
            then pure (pos 1)
            else attach pci_dbdf port_id id is_bond num_slaves dpdk_ready)
      else (do
        stopped ← ask eth (dev_stop port_id)
        attach pci_dbdf port_id id is_bond num_slaves dpdk_added)

-- A new VF: what happens once the relay is known to have none.
unfoldable pub add_new_vf : Eth → List ℕ → ℕ → M ℤ
unfolding configure_dev_with_virtio
add_new_vf eth pci_dbdf id = do
  (err, port_id) ← init_vf eth pci_dbdf id 0
  if is_error err then pure err else (do
    code ← configure_dev_with_virtio eth pci_dbdf port_id id false 0
    if is_error code then (cleanup_eth_dev eth port_id >>= λ cleaned. pure code) else pure code)

-- The tests on the relay that the id names, if it names one.
abbrev pub add_vf2_at : Eth → List ℕ → ℕ → Bool → Option Relay → M ℤ
add_vf2_at eth pci_dbdf virtio_id conditional none = pure (pos 1)
add_vf2_at eth pci_dbdf virtio_id conditional (some r) =
    if is_dpdk_uninit r.dpdk.state
    then add_new_vf eth pci_dbdf virtio_id
    else if conditional && conditional_add_ok r pci_dbdf virtio_id
    then pure (pos 0)
    else pure (pos 8)

unfoldable pub add_vf2 : Eth → List ℕ → ℕ → Bool → M ℤ
unfolding add_new_vf
add_vf2 eth pci_dbdf virtio_id conditional w =
    add_vf2_at eth pci_dbdf virtio_id conditional (get_elem? w.relays virtio_id) w
