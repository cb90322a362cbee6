-- ===== src/Messages/PortRequest.antt =====
-- The messages of zmq_port_control.c and what is done with a request alone: its validation and the
-- strings of PCI addresses.
use virtio_forwarder.Prelude.{
  ℕ, zero, suc, ◌+◌, ◌-◌, ◌*◌, ◌/◌, ◌%◌, Bool, true, false, not, ◌&&◌, ◌||◌, Option, none, some,
  List, [], ◌∷◌, ltb, leb, if◌then◌else◌, length, take, Bytes,
}
use virtio_forwarder.Prelude.Int.{ℤ}

-- PortControlRequest.Op
pub data Op : Type 0 where
  op_add op_remove op_add_sock op_remove_sock op_query_pci : Op
  other_op : ℕ → Op

pub record PciAddress : Type 0 where
  pub domain : ℕ
  pub bus : ℕ
  pub slot : ℕ
  pub function : ℕ

pub record PortControlRequest : Type 0 where
  pub op : Op
  pub pci_addrs : List PciAddress
  pub virtio_id : Option ℕ
  pub conditional : Option Bool
  pub name : Option Bytes
  pub mode : Option ℕ
  pub vhost_path : Option Bytes

-- PortControlResponse; `ok` is the status.
pub record PortControlResponse : Type 0 where
  pub ok : Bool
  pub error_code_source : Option Bytes
  pub error_code : Option ℤ
  pub query_string : Option Bytes

abbrev pub error_response : PortControlResponse
error_response = record {
  ok = false;
  error_code_source = none;
  error_code = none;
  query_string = none;
}

-- "%X" with at least `width` digits.
abbrev pub hex_digit : ℕ → ℕ
hex_digit n = if ltb n 10 then 48 + n else 55 + n

unfoldable pub print_hex : (rounds width n : ℕ) → Bytes → Bytes
print_hex zero width n out = out
print_hex (suc k) width n out =
    let rest = print_hex k (width - 1) (n / 16) (hex_digit (n % 16) ∷ out) in
    if leb width 1 && ltb n 16 then hex_digit (n % 16) ∷ out else rest

-- Virtioforwarder__PortControlRequest__PciAddress__to_str into `len` bytes.
unfoldable pub pci_address_to_str : PciAddress → ℕ → Bytes
pci_address_to_str addr len = take (len - 1) (
    print_hex 8 4 addr.domain (
      58
      ∷ print_hex 8 2 addr.bus
          (58 ∷ print_hex 8 2 addr.slot (46 ∷ print_hex 8 1 addr.function []))))

abbrev pub max_num_bond_slaves : ℕ
max_num_bond_slaves = 8

abbrev pub rte_eth_name_max_len : ℕ
rte_eth_name_max_len = 64

-- The loop of Virtioforwarder__PortControlRequest__to_str: whether address `i` and those behind it
-- are written inside `pci_addr_str`, of 13 * 8 bytes; " " and its 0 are written from (i + 1) * 12 +
-- i on.
unfoldable pub addresses_fit : List PciAddress → ℕ → Bool
addresses_fit [] i = true
addresses_fit (a ∷ rest) i =
    let later = addresses_fit rest (i + 1) in
    ltb ((i + 1) * 12 + i + 1) (13 * max_num_bond_slaves) && later

abbrev pub is_add : Op → Bool
is_add op_add = true
is_add _ = false

abbrev pub is_remove : Op → Bool
is_remove op_remove = true
is_remove _ = false

abbrev pub is_add_sock : Op → Bool
is_add_sock op_add_sock = true
is_add_sock _ = false

abbrev pub is_remove_sock : Op → Bool
is_remove_sock op_remove_sock = true
is_remove_sock _ = false

abbrev pub is_query_pci : Op → Bool
is_query_pci op_query_pci = true
is_query_pci _ = false

abbrev pub given {ℓ} : {A : Type ℓ} → Option A → Bool
given none = false
given (some a) = true

unfoldable pub validate_PortControlRequest : PortControlRequest → Bool
validate_PortControlRequest pc =
    if given pc.name && (is_add pc.op || is_add_sock pc.op) && ltb (length pc.pci_addrs) 2
    then false
    else if not (given pc.name) && ltb 1 (length pc.pci_addrs)
    then false
    else if (is_remove pc.op || is_remove_sock pc.op)
        && not (given pc.name)
        && ltb 1 (length pc.pci_addrs)
    then false
    else if (is_add pc.op || is_remove pc.op) && not (given pc.virtio_id)
    then false
    else not (is_query_pci pc.op && not (given pc.vhost_path))
