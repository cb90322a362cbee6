-- ===== src/Messages/PortControl.antt =====
-- Port control requests (zmq_port_control.c): their validation, the strings of PCI addresses, and
-- handle_PortControlRequest, which calls the control functions and fills in the response.
pub mod Outcome
use virtio_forwarder.Prelude.{
  ℕ, zero, suc, ◌+◌, ◌-◌, ◌*◌, ◌/◌, ◌%◌, ◌^◌, Bool, true, false, not, ◌&&◌, ◌||◌, Option, none,
  some, List, [], ◌∷◌, ◌++◌, ◌==◌, ltb, leb, if◌then◌else◌, length, take, get_elem?, replicate, map,
  Bytes, codes,
}
use virtio_forwarder.Prelude.Int.{ℤ, pos, is_error}
use virtio_forwarder.World.{World, Eth}
use virtio_forwarder.Control.Add.{add_vf2}
use virtio_forwarder.Control.Bond.{Slave, bond_add}
use virtio_forwarder.Control.Remove.{remove_vf2}
use virtio_forwarder.Sockets.{Server, S, ◌>>=◌, ◌>>◌, pure, fault, Vhost, on_world}
use virtio_forwarder.Sockets.Pairs.{
  virtio_add_sock_dev_pair, virtio_remove_sock_dev_pair, virtio_query_pci,
}
use virtio_forwarder.Messages.PortRequest.{
  Op, PciAddress, PortControlRequest, PortControlResponse, error_response, hex_digit, print_hex,
  pci_address_to_str, max_num_bond_slaves, rte_eth_name_max_len, addresses_fit, is_add, is_remove,
  is_add_sock, is_remove_sock, is_query_pci, given, validate_PortControlRequest, op_add, op_remove,
  op_add_sock, op_remove_sock, op_query_pci, other_op,
}

-- handle_PortControlRequest_set_error_code, with its assertion.
unfoldable pub set_error_code : PortControlResponse → Bytes → ℤ → S PortControlResponse
set_error_code response source code =
    if is_error code
    then (if response.ok
        then fault
        else pure (record response { error_code_source = some source; error_code = some code }))
    else pure (record response { ok = true })

-- `struct port_control_req_buffer`: the strings of the addresses, each in its place.
pub record ReqBuffer : Type 0 where
  pub dbdf_addrs : List Bytes
  pub virtio_id : ℕ
  pub name : Option Bytes
  pub mode : ℕ
  pub vhost_path : Option Bytes

-- `dbdf_addrs[0]`, which is empty without addresses.
abbrev pub first_dbdf : List Bytes → Bytes
first_dbdf [] = []
first_dbdf (d ∷ ds) = d

abbrev pub or_zero : Option ℕ → ℕ
or_zero none = 0
or_zero (some n) = n

abbrev pub buffer_virtio_id : Op → Option ℕ → ℕ
buffer_virtio_id op virtio_id = if is_add_sock op || is_remove_sock op then 0 else or_zero virtio_id

-- `BONDING_MODE_ACTIVE_BACKUP` is 1; `mode` is a `uint8_t`.
abbrev pub buffer_mode : Option Bytes → Option ℕ → ℕ
buffer_mode none mode = 0
buffer_mode (some name) none = 1
buffer_mode (some name) (some mode) = mode % 2 ^ 8

unfoldable pub req_buffer : PortControlRequest → ReqBuffer
req_buffer pc = record {
  dbdf_addrs = map (λ a. pci_address_to_str a rte_eth_name_max_len) pc.pci_addrs;
  virtio_id = buffer_virtio_id pc.op pc.virtio_id;
  name = pc.name;
  mode = buffer_mode pc.name pc.mode;
  vhost_path = pc.vhost_path;
}

-- The slaves of a bond; `junk` is in `slave_port_ids`, which is not initialized.
unfoldable pub slaves_of : (junk : ℕ → ℕ) → ℕ → List Bytes → List Slave
slaves_of junk i [] = []
slaves_of junk i (d ∷ ds) = (d, junk i) ∷ slaves_of junk (i + 1) ds

-- `name == NULL ? dbdf_addrs[0] : name`, with no name for a single address.
abbrev pub removed_name : ReqBuffer → Bytes
removed_name b = elim b.dbdf_addrs [
  | (d ∷ []) ↦ d
  | ds ↦ elim b.name [ none ↦ first_dbdf ds | some name ↦ name ]
]

abbrev pub is_conditional : Option Bool → Bool
is_conditional none = true
is_conditional (some b) = b

module _ (eth : Eth) (sleep : ℕ → World → World) (vh : Vhost) (junk : ℕ → ℕ) where
  -- port_control_handle_add, by the number of addresses.
  abbrev pub add_devices : List Bytes → Option Bytes → ReqBuffer → Bool → S PortControlResponse
  add_devices [] name b conditional = pure error_response
  add_devices (d ∷ []) name b conditional = do
    code ← on_world (add_vf2 eth d b.virtio_id conditional)
    set_error_code error_response (codes "virtio_forwarder_add_vf2()") code
  add_devices ds none b conditional = fault
  add_devices ds (some name) b conditional = do
    code ← on_world (bond_add eth (slaves_of junk 0 ds) name b.mode b.virtio_id)
    set_error_code error_response (codes "virtio_forwarder_bond_add()") code

  abbrev pub handle_add : ReqBuffer → Bool → S PortControlResponse
  handle_add b conditional = add_devices b.dbdf_addrs b.name b conditional

  -- port_control_handle_remove
  abbrev pub handle_remove : ReqBuffer → Bool → S PortControlResponse
  handle_remove b conditional = do
    code ← on_world (remove_vf2 eth sleep (removed_name b) b.virtio_id conditional)
    set_error_code error_response (codes "virtio_forwarder_remove_vf2()") code

  -- port_control_handle_add_socket
  abbrev pub handle_add_socket : ReqBuffer → Bool → S PortControlResponse
  handle_add_socket b conditional = do
    code ←
        virtio_add_sock_dev_pair eth sleep vh b.vhost_path (slaves_of junk 0 b.dbdf_addrs) b.name
          b.mode conditional
    set_error_code error_response (codes "virtio_add_sock_dev_pair()") code

  -- port_control_handle_remove_socket
  abbrev pub handle_remove_socket : ReqBuffer → Bool → S PortControlResponse
  handle_remove_socket b conditional = do
    code ← virtio_remove_sock_dev_pair eth sleep vh b.vhost_path (removed_name b) conditional
    set_error_code error_response (codes "virtio_remove_sock_dev_pair()") code

  -- port_control_handle_query_pci
  abbrev pub handle_query_pci : ReqBuffer → S PortControlResponse
  handle_query_pci b s =
      let answer = virtio_query_pci s b.vhost_path in
      set_error_code (record error_response { query_string = answer.1 })
        (codes "virtio_query_pci()") answer.0 s

  -- The switch over the operations.
  abbrev pub dispatch : Op → ReqBuffer → Bool → S PortControlResponse
  dispatch op_add b conditional = handle_add b conditional
  dispatch op_remove b conditional = handle_remove b conditional
  dispatch op_add_sock b conditional = handle_add_socket b conditional
  dispatch op_remove_sock b conditional = handle_remove_socket b conditional
  dispatch op_query_pci b conditional = handle_query_pci b
  dispatch (other_op n) b conditional = pure error_response

  -- handle_PortControlRequest; the addresses have to fit the string that is logged and
  -- `dbdf_addrs`.
  unfoldable pub handle_PortControlRequest : Option PortControlRequest → S PortControlResponse
  handle_PortControlRequest none = pure error_response
  handle_PortControlRequest (some pc) =
      if not (validate_PortControlRequest pc)
      then pure error_response
      else if addresses_fit pc.pci_addrs 0 && leb (length pc.pci_addrs) max_num_bond_slaves
      then dispatch pc.op (req_buffer pc) (is_conditional pc.conditional)
      else fault
