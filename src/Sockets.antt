-- ===== src/Sockets.antt =====
-- The vhost-user sockets (virtio_vhostuser.c): the table that gives a relay the path of its socket,
-- register_relay_socket and deregister_socket. The children model what is built on them.
pub mod Names
pub mod Runs
pub mod Table
pub mod Calls
pub mod Register
pub mod Pairs
pub mod Device
pub mod Start
pub mod Defaults
use virtio_forwarder.Prelude.{
  ℕ, zero, suc, Bool, true, false, not, ◌&&◌, ◌||◌, Option, none, some, List, [], ◌∷◌, ◌++◌,
  if◌then◌else◌, get_elem?, set, and_then, Bytes, str_equal,
}
use virtio_forwarder.Prelude.Int.{ℤ, pos, negsuc, is_error}
use virtio_forwarder.Relay.{Relay}
use virtio_forwarder.Cpu.{is_dpdk_uninit, is_virtio_uninit}
use virtio_forwarder.Control.{pci_dbdf_equal}
use virtio_forwarder.World.{World, M}

-- The feature bits that the code disables.
pub data Feature : Type 0 where
  mrg_rxbuf ctrl_rx host_tso4 host_tso6 : Feature

-- The calls into the vhost library and those that change the file system.
pub data VhostCall : Type 0 where
  driver_register : (path : Bytes) → (client : Bool) → VhostCall
  disable_features : (path : Bytes) → Feature → VhostCall
  callback_register driver_start unlink chown : (path : Bytes) → VhostCall
  driver_unregister : (path : Option Bytes) → VhostCall
  disable_notification : (vid queue : ℕ) → VhostCall

pub data FileKind : Type 0 where
  no_file socket_file other_file : FileKind

-- The answers, which depend on the calls made before, and what the code reads of its configuration:
-- `other_owner` says that the sockets belong to another user or group than the process.
pub record Vhost : Type 0 where
  pub answer : List VhostCall → VhostCall → ℤ
  pub stat : List VhostCall → Bytes → FileKind
  pub vhost_client : Bool
  pub use_rx_mrgbuf : Bool
  pub enable_tso : Bool
  pub other_owner : Bool

-- The globals with `relay_ifname_map`.
pub record Server : Type 0 where
  pub world : World
  pub relay_ifname_map : List (Option Bytes)
  pub vhost_calls : List VhostCall

-- A function on them; `none` is an access outside an array, a failed assertion or the use of a NULL
-- path.
abbrev pub S : Type 0 → Type 0
S A = Server → Option (A × Server)

infixl 5 ◌>>=◌ ◌>>◌
abbrev pub ◌>>=◌ : {A B : Type 0} → S A → (A → S B) → S B
◌>>=◌ m f s = and_then (m s) λ p. f p.0 p.1

abbrev pub ◌>>◌ : {B : Type 0} → S (Unit {0}) → S B → S B
m >> k = m >>= λ _. k

abbrev pub pure : {A : Type 0} → A → S A
pure a s = some (a, s)

abbrev pub fault : {A : Type 0} → S A
fault s = none

-- A function of virtio_worker.c.
unfoldable pub on_world : {A : Type 0} → M A → S A
on_world m s = and_then (m s.world) λ p. some (p.0, record s { world = p.1 })

abbrev pub called : Server → VhostCall → Server
called s c = record s { vhost_calls = s.vhost_calls ++ c ∷ [] }

unfoldable pub call_vhost : VhostCall → S (Unit {0})
call_vhost c s = some (tt, called s c)

unfoldable pub ask_vhost : Vhost → VhostCall → S ℤ
ask_vhost vh c s = some (vh.answer s.vhost_calls c, called s c)

-- `relay_ifname_map[id]`, read and written.
unfoldable pub get_entry : ℕ → S (Option Bytes)
get_entry id s = and_then (get_elem? s.relay_ifname_map id) λ e. some (e, s)

unfoldable pub set_entry : ℕ → Option Bytes → S (Unit {0})
set_entry id v s =
    and_then (get_elem? s.relay_ifname_map id)
      λ e. some (tt, record s { relay_ifname_map = set s.relay_ifname_map id v })

-- `relay_ifname_map[i] && strcmp(relay_ifname_map[i], vhost_path) == 0`
abbrev pub entry_equal : Option Bytes → Bytes → Bool
entry_equal none vhost_path = false
entry_equal (some name) vhost_path = str_equal name vhost_path

abbrev pub next_id : Option ℕ → Option ℕ
next_id none = none
next_id (some i) = some (suc i)

-- get_relay_for_sock: `none` is -1.
unfoldable pub get_relay_for_sock : List (Option Bytes) → Bytes → Option ℕ
get_relay_for_sock [] vhost_path = none
get_relay_for_sock (e ∷ es) vhost_path =
    let rest = get_relay_for_sock es vhost_path in
    if entry_equal e vhost_path then some 0 else next_id rest

abbrev pub is_free_entry : Option Bytes → Bool
is_free_entry none = true
is_free_entry (some name) = false

abbrev pub is_idle : Relay → Option Bytes → Bool
is_idle r e = is_virtio_uninit r.vio.state && is_dpdk_uninit r.dpdk.state && is_free_entry e

-- virtio_get_free_relay_id: `none` is -1.
unfoldable pub virtio_get_free_relay_id : List Relay → List (Option Bytes) → Option ℕ
virtio_get_free_relay_id (r ∷ rs) (e ∷ es) =
    let rest = virtio_get_free_relay_id rs es in if is_idle r e then some 0 else next_id rest
virtio_get_free_relay_id _ _ = none

-- virtio_relay_has_device
unfoldable pub virtio_relay_has_device : List Relay → ℕ → Bytes → Bool
virtio_relay_has_device relays id dev = elim (get_elem? relays id) [
  | none ↦ false
  | some r ↦ pci_dbdf_equal dev r.dpdk.pci_dbdf
]

-- The first part of register_relay_socket: a stale socket of a server is deleted.
abbrev pub clear_kind : Vhost → Bytes → FileKind → S ℤ
clear_kind vh vhost_path no_file = pure (pos 0)
clear_kind vh vhost_path other_file = pure (negsuc 0)
clear_kind vh vhost_path socket_file = do
  err ← ask_vhost vh (unlink vhost_path)
  if is_error err then pure (negsuc 0) else pure (pos 0)

unfoldable pub clear_stale : Vhost → Bytes → S ℤ
clear_stale vh vhost_path s =
    (if vh.vhost_client
        then pure (pos 0)
        else clear_kind vh vhost_path (vh.stat s.vhost_calls vhost_path))
      s

-- The features, whose errors are only logged.
unfoldable pub set_features : Vhost → Bytes → S (Unit {0})
set_features vh vhost_path = do
  if vh.use_rx_mrgbuf then pure tt else call_vhost (disable_features vhost_path mrg_rxbuf)
  call_vhost (disable_features vhost_path ctrl_rx)
  if vh.enable_tso then pure tt else (do
    call_vhost (disable_features vhost_path host_tso4)
    call_vhost (disable_features vhost_path host_tso6))

-- The end of register_relay_socket, with the driver started.
unfoldable pub take_entry : Vhost → Bytes → ℕ → S ℤ
take_entry vh vhost_path relay_id = do
  set_entry relay_id (some vhost_path)
  if vh.vhost_client || not vh.other_owner then pure (pos 0) else (do
    err ← ask_vhost vh (chown vhost_path)
    if is_error err then pure (negsuc 0) else pure (pos 0))

unfoldable pub start_driver : Vhost → Bytes → ℕ → S ℤ
start_driver vh vhost_path relay_id = do
  err ← ask_vhost vh (driver_register vhost_path vh.vhost_client)
  if is_error err then pure (negsuc 0) else (do
    set_features vh vhost_path
    call_vhost (callback_register vhost_path)
    started ← ask_vhost vh (driver_start vhost_path)
    if is_error started then pure (negsuc 0) else take_entry vh vhost_path relay_id)

unfoldable pub register_relay_socket : Vhost → Bytes → ℕ → S ℤ
register_relay_socket vh vhost_path relay_id = do
  stale ← clear_stale vh vhost_path
  if is_error stale then pure (negsuc 0) else (do
    entry ← get_entry relay_id
    if is_free_entry entry then start_driver vh vhost_path relay_id else pure (negsuc 0))

-- deregister_socket on a path; with a relay found its entry is not NULL.
abbrev pub clear_entry : ℤ → Option ℕ → S ℤ
clear_entry err none = pure (pos 1)
clear_entry err (some id) = do set_entry id none; pure err

unfoldable pub deregister_socket : Vhost → Bytes → S ℤ
deregister_socket vh vhost_path = do
  err ← ask_vhost vh (driver_unregister (some vhost_path))
  λ s. clear_entry err (get_relay_for_sock s.relay_ifname_map vhost_path) s
