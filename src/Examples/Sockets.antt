-- ===== src/Examples/Sockets.antt =====
-- The theorems on the sockets, applied.
use virtio_forwarder.Prelude.{
  ℕ, arith, List, ◌≡◌, ◌<◌, ◌∷◌, [], refl, true, false, none, some, map, replicate, Bytes,
  get_elem?, zero, suc, str_equal,
}
use virtio_forwarder.Prelude.Int.{ℤ, pos, negsuc, is_error}
use virtio_forwarder.Bits.{test_bit}
use virtio_forwarder.Relay.{Relay, virtio_uninit, dpdk_uninit}
use virtio_forwarder.World.{
  World, Eth, port_by_name, DevCall, get_relay, update_relay, get_relay_cpus, mark_update, ask,
  record_call,
}
use virtio_forwarder.Cpu.{
  find_vf2virtio_cpu, search_vf2virtio_cpu, pick_worker, naive_get_idlest_worker, idlest_from,
  eligible, on_node, have_worker_on_node, worker_from, cpu_workers, relay_load, add_load,
}
use virtio_forwarder.Control.{
  init_vf, init_port, dev_queue_configure, ensure_mempool, setup_queues, start_eth_dev,
  cleanup_eth_dev, stop_close_remove_dev, pci_dbdf_equal,
}
use virtio_forwarder.Control.Add.{
  add_vf2, add_new_vf, configure_dev_with_virtio, attach, attach_steps,
}
use virtio_forwarder.Control.Bond.{Slave}
use virtio_forwarder.Control.Remove.{
  remove_vf2, detach_device, stop_vm2vf_thread, ask_release, wait_until, detach_port, forget_device,
}
use virtio_forwarder.Control.Guest.{remove_virtio}
use virtio_forwarder.Sockets.{
  Server, Vhost, no_file, on_world, ask_vhost, call_vhost, get_entry, set_entry, get_relay_for_sock,
  virtio_get_free_relay_id, clear_stale, set_features, take_entry, start_driver,
  register_relay_socket, deregister_socket,
}
use virtio_forwarder.Sockets.Names.{virtio_vhostuser_id_to_name, virtio_vhostuser_name_to_id}
use virtio_forwarder.Sockets.Names.RoundTrip.{name_to_id-id_to_name}
use virtio_forwarder.Sockets.Table.{Distinct}
use virtio_forwarder.Sockets.Runs.{Runs}
use virtio_forwarder.Sockets.Start.{register_default_sockets}
use virtio_forwarder.Sockets.Defaults.{register_default_sockets_lem}
use virtio_forwarder.Sockets.Pairs.{
  virtio_add_sock_dev_pair, attach_device, add_pair_to, add_pair_here, add_pair,
  virtio_remove_sock_dev_pair, find_pair, deregister_path, remove_pair, choose_device,
}
use virtio_forwarder.Sockets.Pairs.Outcome.{Added, add_sock_dev_pair-Added}
use virtio_forwarder.Sockets.Pairs.Leave.{Removed, remove_sock_dev_pair-Removed}
use virtio_forwarder.Sockets.Pairs.Inv.{
  here, request, add_pair_request, Reached-Distinct, remove-add_pair,
}
use virtio_forwarder.Examples.{mbuf, a_vio, a_dpdk, a_relay}
use virtio_forwarder.Examples.Cpus.{a_world}

-- A DPDK on which every call succeeds and no port has a name yet.
abbrev answer : DevCall → ℤ
answer (port_by_name name) = negsuc 18
answer c = pos 0

abbrev pub a_port : Eth
a_port = record {
  answer = λ before c. answer c;
  lookup = λ before name. false;
  pool = λ before c. some 9;
  matching = λ before name. 5;
  max_ethports = 32;
  slaves = λ before port. some [];
  vring_num = λ dev. 2;
  numa_node = λ dev. some 0;
}

-- A vhost library on which every call succeeds, for a server.
abbrev pub a_vhost : Vhost
a_vhost = record {
  answer = λ before c. pos 0;
  stat = λ before path. no_file;
  vhost_client = false;
  use_rx_mrgbuf = false;
  enable_tso = false;
  other_owner = true;
}

abbrev pub an_idle_relay : Relay
an_idle_relay =
    a_relay (a_vio virtio_uninit 1 1 1 true (replicate 32 0))
      (a_dpdk dpdk_uninit [] (replicate 32 (mbuf 0)))

-- One idle relay, without a socket.
abbrev pub idle : Server
idle = record {
  world = record a_world { relays = an_idle_relay ∷ [] };
  relay_ifname_map = none ∷ [];
  vhost_calls = [];
}

-- The workers release a VF in the first sleep.
abbrev without_device : Relay → Relay
without_device r = record r { dpdk = record (r.dpdk) { state = dpdk_uninit } }

abbrev pub release : ℕ → World → World
release k w = record w { relays = map without_device w.relays }

-- "a" and the VF "1".
abbrev pub a_path : Bytes
a_path = 97 ∷ []

abbrev pub a_vf : List Slave
a_vf = (49 ∷ [], 0) ∷ []

abbrev pub paired :
    (s : Server) × (virtio_add_sock_dev_pair a_port release a_vhost
        (some a_path)
        a_vf
        none
        0
        true
        idle
      ≡ some (pos 0, s))
unfolding virtio_add_sock_dev_pair add_pair add_pair_here add_pair_to attach_device on_world
    ask_vhost call_vhost get_entry set_entry get_relay_for_sock virtio_get_free_relay_id clear_stale
    set_features take_entry start_driver register_relay_socket add_vf2 add_new_vf init_vf init_port
    dev_queue_configure ensure_mempool setup_queues start_eth_dev configure_dev_with_virtio attach
    attach_steps ask get_relay update_relay get_relay_cpus mark_update find_vf2virtio_cpu
    search_vf2virtio_cpu pick_worker naive_get_idlest_worker idlest_from eligible on_node
    have_worker_on_node worker_from test_bit cpu_workers relay_load add_load
paired = (_, refl)

add_sock_dev_pair-Added_example : Added idle a_path (pos 0) paired.0
add_sock_dev_pair-Added_example =
    add_sock_dev_pair-Added a_port release a_vhost a_path a_vf none 0 true idle paired.0 (pos 0)
      paired.1

abbrev unpaired :
    (s : Server) × (virtio_remove_sock_dev_pair a_port release a_vhost
        (some a_path)
        []
        true
        paired.0
      ≡ some (pos 0, s))
unfolding virtio_remove_sock_dev_pair find_pair choose_device remove_pair deregister_path
    deregister_socket set_entry ask_vhost str_equal on_world get_relay_for_sock remove_virtio
    remove_vf2 detach_device stop_vm2vf_thread ask_release wait_until detach_port forget_device
    cleanup_eth_dev stop_close_remove_dev pci_dbdf_equal ask get_relay update_relay mark_update
    record_call paired
unpaired = (_, refl)

remove_sock_dev_pair-Removed_example : Removed paired.0 (some a_path) (pos 0) unpaired.0
unfolding paired find_pair get_relay_for_sock str_equal virtio_add_sock_dev_pair
remove_sock_dev_pair-Removed_example =
    remove_sock_dev_pair-Removed a_port release a_vhost (some a_path) [] true paired.0 unpaired.0
      (pos 0) unpaired.1

remove-add_pair_example : unpaired.0.relay_ifname_map ≡ idle.relay_ifname_map
remove-add_pair_example =
    remove-add_pair a_port release a_vhost a_path a_vf none 0 true [] idle paired.0 unpaired.0
      paired.1 unpaired.1

pub idle-Distinct : Distinct idle.relay_ifname_map
idle-Distinct = record { apart = λ i j p e e'. no_entry i e }
  where
    no_entry :
        {p : Bytes} {j : ℕ} (i : ℕ) → get_elem? idle.relay_ifname_map i ≡ some (some p) → i ≡ j
    no_entry zero e = cc
    no_entry (suc i) e = cc

Reached-Distinct_example : Distinct paired.0.relay_ifname_map
Reached-Distinct_example =
    Reached-Distinct a_port release a_vhost idle paired.0 idle-Distinct
      (request (add_pair_request a_path a_vf none 0 true) here paired.1)

-- "/v" and ".s".
name_to_id-id_to_name_example :
    virtio_vhostuser_name_to_id
      (47 ∷ 118 ∷ [])
      (46 ∷ 115 ∷ [])
      60
      (virtio_vhostuser_id_to_name (47 ∷ 118 ∷ []) (46 ∷ 115 ∷ []) 42 266)
    ≡ some 42
name_to_id-id_to_name_example =
    name_to_id-id_to_name (47 ∷ 118 ∷ []) (46 ∷ 115 ∷ []) 60 42 (omega arith) (omega arith) refl
      (omega arith) (omega arith)

no_sockets : (j : ℕ) → j < 1 → get_elem? idle.relay_ifname_map j ≡ some none
no_sockets zero h = refl
no_sockets (suc j) h = absurd (omega arith)

register_default_sockets_lem_example :
    Runs (register_default_sockets a_vhost (47 ∷ 118 ∷ []) (46 ∷ 115 ∷ []) 1 0) idle λ c s'.
      is_error c ≡ false
      → (id : ℕ) → id < 1
      → get_relay_for_sock s'.relay_ifname_map
          (virtio_vhostuser_id_to_name (47 ∷ 118 ∷ []) (46 ∷ 115 ∷ []) id 266)
        ≡ some id
register_default_sockets_lem_example =
    register_default_sockets_lem a_vhost (47 ∷ 118 ∷ []) (46 ∷ 115 ∷ []) 1 idle (omega arith)
      (omega arith) (omega arith) refl refl no_sockets

-- Queue 2 is enabled on the socket of the first relay.
abbrev pub listening : Server
listening = record idle { relay_ifname_map = some a_path ∷ [] }
