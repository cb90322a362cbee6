-- ===== src/Sockets/Pairs.antt =====
-- The dynamic sockets (virtio_vhostuser.c): virtio_add_sock_dev_pair, virtio_remove_sock_dev_pair
-- and virtio_query_pci.
pub mod Outcome
pub mod Leave
pub mod Inv
use virtio_forwarder.Prelude.{
  ℕ, zero, suc, Bool, true, false, not, Option, none, some, List, [], ◌∷◌, ◌==◌, if◌then◌else◌,
  get_elem?, length, and_then, Bytes, str_equal,
}
use virtio_forwarder.Prelude.Int.{ℤ, pos, negsuc, is_error}
use virtio_forwarder.Relay.{Relay}
use virtio_forwarder.World.{World, Eth, ask, port_by_name}
use virtio_forwarder.Control.Add.{add_vf2}
use virtio_forwarder.Control.Bond.{Slave, bond_add}
use virtio_forwarder.Control.Remove.{remove_vf2}
use virtio_forwarder.Control.Guest.{remove_virtio}
use virtio_forwarder.Sockets.{
  Server, S, ◌>>=◌, ◌>>◌, pure, fault, Vhost, driver_unregister, ask_vhost, on_world, get_entry,
  get_relay_for_sock, next_id, virtio_get_free_relay_id, virtio_relay_has_device,
  register_relay_socket, deregister_socket, is_free_entry,
}

-- `EEXIST`, `EINVAL` and `ENOENT` of Linux.
abbrev pub eexist : ℤ
eexist = negsuc 16

-- `num_slaves == 1 ? slave_dbdfs[0] : name`; the name may be NULL.
abbrev pub device_name : List Slave → Option Bytes → Option Bytes
device_name ((dbdf, old) ∷ []) name = some dbdf
device_name _ name = name

-- rte_eth_dev_get_port_by_name, which refuses NULL with -EINVAL.
abbrev pub find_port : Eth → Option Bytes → S ℤ
find_port eth none = pure (negsuc 21)
find_port eth (some dev) = on_world (ask eth (port_by_name dev))

-- The device of a pair: a VF, or a bond of slaves; 0, or the code that the pair is refused with. A
-- NULL name makes virtio_forwarder_bond_add fail at the latest in rte_eth_bond_create, which
-- refuses it with -EINVAL; this call is not recorded.
unfoldable pub attach_device : Eth → List Slave → Option Bytes → ℕ → ℕ → Bool → S ℤ
attach_device eth ((dbdf, old) ∷ []) name mode relay_id conditional = do
  err ← on_world (add_vf2 eth dbdf relay_id conditional)
  if is_error err then pure (pos 3) else pure (pos 0)
attach_device eth slaves none mode relay_id conditional = pure (pos 4)
attach_device eth slaves (some name) mode relay_id conditional = do
  err ← on_world (bond_add eth slaves name mode relay_id)
  if is_error err then pure (pos 4) else pure (pos 0)

abbrev pub detach_pair : Eth → (ℕ → World → World) → Option Bytes → ℕ → Bool → S ℤ
detach_pair eth sleep none relay_id conditional = fault
detach_pair eth sleep (some dev) relay_id conditional =
    on_world (remove_vf2 eth sleep dev relay_id conditional)

-- exit_deconfigure_pair
unfoldable pub deconfigure_pair :
    Eth → (ℕ → World → World) → Vhost → Bytes → Option Bytes → ℕ → Bool → S ℤ
deconfigure_pair eth sleep vh vhost_path dev relay_id conditional = do
  removed ← detach_pair eth sleep dev relay_id conditional
  deregistered ← deregister_socket vh vhost_path
  pure (pos 5)

module _ (eth : Eth) (sleep : ℕ → World → World) (vh : Vhost) (vhost_path : Bytes)
    (slaves : List Slave) (name : Option Bytes) (mode : ℕ) (conditional : Bool) where
  -- With a relay found for the pair.
  unfoldable pub add_pair_to : ℕ → S ℤ
  add_pair_to relay_id = do
    err ← attach_device eth slaves name mode relay_id conditional
    if is_error err then pure err else (do
      code ← register_relay_socket vh vhost_path relay_id
      if is_error code
          then deconfigure_pair eth sleep vh vhost_path (device_name slaves name) relay_id
              conditional
          else pure code)

  -- The relay that has the path, and the first idle one.
  abbrev pub add_pair_at : (known free : Option ℕ) → S ℤ
  add_pair_at (some i) free = pure (pos 1)
  add_pair_at none none = pure (pos 2)
  add_pair_at none (some relay_id) = add_pair_to relay_id

  unfoldable pub add_pair_here : S ℤ
  add_pair_here s =
      add_pair_at (get_relay_for_sock s.relay_ifname_map vhost_path)
        (virtio_get_free_relay_id s.world.relays s.relay_ifname_map) s

  unfoldable pub add_pair : S ℤ
  add_pair = do
    err ← find_port eth (device_name slaves name)
    if is_error err then add_pair_here else pure eexist

-- virtio_add_sock_dev_pair: the path may be NULL.
unfoldable pub virtio_add_sock_dev_pair :
    Eth → (ℕ → World → World) → Vhost → Option Bytes → List Slave → Option Bytes → ℕ → Bool → S ℤ
virtio_add_sock_dev_pair eth sleep vh none slaves name mode conditional = pure (negsuc 0)
virtio_add_sock_dev_pair eth sleep vh (some vhost_path) slaves name mode conditional =
    add_pair eth sleep vh vhost_path slaves name mode conditional

-- The loop of virtio_remove_sock_dev_pair over the relays: the first that has the device.
unfoldable pub find_device : List Relay → Bytes → Option ℕ
find_device [] dev = none
find_device (r ∷ rs) dev =
    let rest = find_device rs dev in if str_equal r.dpdk.pci_dbdf dev then some 0 else next_id rest

-- The path and the relay of a request; a path that is found with the device may be NULL.
unfoldable pub find_pair : Option Bytes → Bytes → Server → Option (Option Bytes × ℕ)
find_pair (some vhost_path) dev s =
    and_then (get_relay_for_sock s.relay_ifname_map vhost_path) λ id. some (some vhost_path, id)
find_pair none dev s =
    and_then (find_device s.world.relays dev)
      λ id. and_then (get_elem? s.relay_ifname_map id) λ path. some (path, id)

-- deregister_socket on a path that may be NULL: get_relay_for_sock gives it to `strcmp`, where it
-- must not be, for the first entry of the table that is set; with no such entry it finds no relay.
abbrev pub no_entry : List (Option Bytes) → Bool
no_entry [] = true
no_entry (none ∷ es) = no_entry es
no_entry (some path ∷ es) = false

abbrev pub search_null : S ℤ
search_null s = if no_entry s.relay_ifname_map then some (pos 1, s) else none

unfoldable pub deregister_path : Vhost → Option Bytes → S ℤ
deregister_path vh (some vhost_path) = deregister_socket vh vhost_path
deregister_path vh none = do err ← ask_vhost vh (driver_unregister none); search_null

-- What virtio_remove_sock_dev_pair does with a pair that it has found.
unfoldable pub remove_pair :
    Eth → (ℕ → World → World) → Vhost → Option Bytes → Bytes → ℕ → Bool → S ℤ
remove_pair eth sleep vh path dev relay_id conditional = do
  on_world (remove_virtio eth sleep relay_id)
  err ← deregister_path vh path
  if is_error err then pure (pos 3) else (do
    removed ← on_world (remove_vf2 eth sleep dev relay_id conditional)
    if is_error removed then pure (pos 4) else pure (pos 0))

-- The device: the relay's if none is given, else it is tested.
unfoldable pub choose_device :
    Eth → (ℕ → World → World) → Vhost → Option Bytes → Bytes → ℕ → Bool → S ℤ
choose_device eth sleep vh path [] relay_id conditional s =
    elim (get_elem? s.world.relays relay_id) [
      | none ↦ some (pos 1, s)
      | some r ↦ remove_pair eth sleep vh path r.dpdk.pci_dbdf relay_id conditional s
    ]
choose_device eth sleep vh path (c ∷ dev) relay_id conditional s =
    (if virtio_relay_has_device s.world.relays relay_id (c ∷ dev)
        then remove_pair eth sleep vh path (c ∷ dev) relay_id conditional
        else pure (pos 2))
      s

abbrev pub remove_found :
    Eth → (ℕ → World → World) → Vhost → Bytes → Bool → Option (Option Bytes × ℕ) → S ℤ
remove_found eth sleep vh dev conditional none = pure (pos 1)
remove_found eth sleep vh dev conditional (some (path, relay_id)) =
    choose_device eth sleep vh path dev relay_id conditional

abbrev pub no_argument : Option Bytes → Bytes → Bool
no_argument none [] = true
no_argument _ _ = false

unfoldable pub virtio_remove_sock_dev_pair :
    Eth → (ℕ → World → World) → Vhost → Option Bytes → Bytes → Bool → S ℤ
virtio_remove_sock_dev_pair eth sleep vh vhost_path dev conditional s =
    (if no_argument vhost_path dev
        then pure (negsuc 0)
        else remove_found eth sleep vh dev conditional (find_pair vhost_path dev s))
      s

-- virtio_query_pci: the code, and the string of the response.
unfoldable pub virtio_query_pci : Server → Option Bytes → ℤ × Option Bytes
virtio_query_pci s none = (pos 22, none)
virtio_query_pci s (some vhost_path) = elim (get_relay_for_sock s.relay_ifname_map vhost_path) [
  | none ↦ (pos 2, none)
  | some id ↦ elim (get_elem? s.world.relays id) [
    | none ↦ (pos 2, none)
    | some r ↦ (pos 0, some (r.dpdk.pci_dbdf))
  ]
]
