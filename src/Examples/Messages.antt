-- ===== src/Examples/Messages.antt =====
-- The theorems on the requests, applied.
use virtio_forwarder.Prelude.{
  leb, if◌then◌else◌, ◌*◌, inl, ℕ, arith, ◌≡◌, ◌≤◌, ◌∷◌, [], refl, true, false, none, some, length,
  replicate,
}
use virtio_forwarder.Prelude.Int.{pos}
use virtio_forwarder.Bits.{test_bit}
use virtio_forwarder.World.{get_relay, update_relay, get_relay_cpus, mark_update, ask}
use virtio_forwarder.Cpu.{
  find_vf2virtio_cpu, search_vf2virtio_cpu, pick_worker, naive_get_idlest_worker, idlest_from,
  eligible, on_node, have_worker_on_node, worker_from, cpu_workers, relay_load, add_load,
}
use virtio_forwarder.Control.{
  init_vf, init_port, dev_queue_configure, ensure_mempool, setup_queues, start_eth_dev,
}
use virtio_forwarder.Control.Add.{
  add_vf2, add_new_vf, configure_dev_with_virtio, attach, attach_steps,
}
use virtio_forwarder.Sockets.{
  Server, on_world, ask_vhost, call_vhost, get_entry, set_entry, get_relay_for_sock,
  virtio_get_free_relay_id, clear_stale, set_features, take_entry, start_driver,
  register_relay_socket,
}
use virtio_forwarder.Sockets.Table.{Distinct}
use virtio_forwarder.Sockets.Pairs.{
  virtio_add_sock_dev_pair, attach_device, add_pair_to, add_pair_here, add_pair,
}
use virtio_forwarder.Messages.PortRequest.{
  op_add, op_add_sock, PciAddress, PortControlRequest, PortControlResponse,
  validate_PortControlRequest, addresses_fit, pci_address_to_str, print_hex,
}
use virtio_forwarder.Messages.PortControl.{
  handle_PortControlRequest, req_buffer, slaves_of, set_error_code,
}
use virtio_forwarder.Messages.PortControl.Outcome.{
  eight_addresses_overflow, handle_PortControlRequest-Distinct, add_sock_request-AddReply, AddReply,
}
use virtio_forwarder.Messages.CoreSched.{op_update, handle_CoreSchedRequest}
use virtio_forwarder.Messages.CoreSched.Outcome.{relay_number_overflow}
use virtio_forwarder.Messages.Stats.{
  StatsRequest, StatsResponse, handle_StatsRequest, max_response_cb,
}
use virtio_forwarder.Messages.Stats.Outcome.{handle_StatsRequest_lem, stats_reply}
use virtio_forwarder.Examples.Cpus.{a_world, a_thread}
use virtio_forwarder.Examples.Sockets.{
  idle, a_port, a_vhost, release, a_path, listening, idle-Distinct,
}

abbrev an_address : PciAddress
an_address = record { domain = 0; bus = 5; slot = 15; function = 5 }

abbrev junk : ℕ → ℕ
junk i = 0

-- A bond of eight VFs.
abbrev bond_of_eight : PortControlRequest
bond_of_eight = record {
  op = op_add;
  pci_addrs = replicate 8 an_address;
  virtio_id = some 0;
  conditional = none;
  name = some (98 ∷ []);
  mode = none;
  vhost_path = none;
}

bond_of_eight_valid : validate_PortControlRequest bond_of_eight ≡ true
unfolding validate_PortControlRequest
bond_of_eight_valid = refl

eight_addresses_overflow_example :
    handle_PortControlRequest a_port release a_vhost junk (some bond_of_eight) idle ≡ none
eight_addresses_overflow_example =
    eight_addresses_overflow a_port release a_vhost junk bond_of_eight idle bond_of_eight_valid
      (omega arith)

-- The socket "a" and a VF.
abbrev a_pair : PortControlRequest
a_pair = record {
  op = op_add_sock;
  pci_addrs = an_address ∷ [];
  virtio_id = none;
  conditional = none;
  name = none;
  mode = none;
  vhost_path = some a_path;
}

abbrev answered :
    (out : PortControlResponse × Server) × (handle_PortControlRequest a_port release a_vhost junk
        (some a_pair)
        idle
      ≡ some out)
unfolding handle_PortControlRequest validate_PortControlRequest addresses_fit req_buffer slaves_of
    set_error_code pci_address_to_str print_hex virtio_add_sock_dev_pair add_pair add_pair_here
    add_pair_to attach_device on_world ask_vhost call_vhost get_entry set_entry get_relay_for_sock
    virtio_get_free_relay_id clear_stale set_features take_entry start_driver register_relay_socket
    add_vf2 add_new_vf init_vf init_port dev_queue_configure ensure_mempool setup_queues
    start_eth_dev configure_dev_with_virtio attach attach_steps ask get_relay update_relay
    get_relay_cpus mark_update find_vf2virtio_cpu search_vf2virtio_cpu pick_worker
    naive_get_idlest_worker idlest_from eligible on_node have_worker_on_node worker_from test_bit
    cpu_workers relay_load add_load
answered = (_, refl)

handle_PortControlRequest-Distinct_example : Distinct answered.0.1.relay_ifname_map
handle_PortControlRequest-Distinct_example =
    handle_PortControlRequest-Distinct a_port release a_vhost junk (some a_pair) idle answered.0.1
      answered.0.0 idle-Distinct answered.1

add_sock_request-AddReply_example : AddReply (some a_path) idle answered.0.0 answered.0.1
add_sock_request-AddReply_example =
    add_sock_request-AddReply a_port release a_vhost junk a_pair idle answered.0.1 answered.0.0 refl
      answered.1

relay_number_overflow_example :
    handle_CoreSchedRequest
      (some (record {
        op = op_update;
        relay_cpu_map =
            record { relay_number = pos 1; virtio2vf_cpu = pos 2; vf2virtio_cpu = pos 3 } ∷ [];
      }))
      a_world
    ≡ none
relay_number_overflow_example =
    relay_number_overflow a_world 2 3 (omega arith) (inl (a_thread 2 true, refl, refl))

abbrev ask_active : StatsRequest
ask_active = record { relay = 0 ∷ []; include_inactive = some false }

-- An encoding of ten bytes for each relay, and a buffer of 2 ^ 16 + 100 bytes, of which 100 count.
abbrev ten_each : StatsResponse → ℕ
ten_each r = length r.relay * 10

handle_StatsRequest_lem_example :
    (handle_StatsRequest ten_each (max_response_cb 65636) listening (some ask_active) ≡ (
      if leb (ten_each (stats_reply listening ask_active)) 100
      then some (stats_reply listening ask_active)
      else none))
    × (length (stats_reply listening ask_active).relay ≤ 1)
handle_StatsRequest_lem_example =
    handle_StatsRequest_lem ten_each 65636 listening ask_active refl (omega arith)
