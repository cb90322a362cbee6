-- ===== src/Sockets/Device.antt =====
-- The callbacks of the vhost library (virtio_vhostuser.c), by which guests come and go and enable
-- queues.
use virtio_forwarder.Prelude.{
  ℕ, zero, suc, ◌+◌, ◌*◌, ◌/◌, Bool, true, false, Option, none, some, if◌then◌else◌, get_elem?,
  take, Bytes, ◌≡◌, ◌<◌, refl, arith, take-all, set, length,
}
use virtio_forwarder.Prelude.Int.{ℤ, pos, negsuc, is_error}
use virtio_forwarder.Sockets.Table.{Distinct, relay_for_sock_self}
use virtio_forwarder.Relay.{Relay}
use virtio_forwarder.Queues.{vring_state_change}
use virtio_forwarder.World.{World, M, update_relay, Eth}
use virtio_forwarder.Control.Guest.{add_virtio, remove_virtio}
use virtio_forwarder.Sockets.{
  Server, S, ◌>>=◌, ◌>>◌, pure, disable_notification, call_vhost, on_world, get_relay_for_sock,
}

-- The loop that disables the notifications of a guest: the receive and the transmit queue of each
-- pair.
unfoldable pub disable_notifications : (vid pairs q : ℕ) → S (Unit {0})
disable_notifications vid zero q = pure tt
disable_notifications vid (suc n) q = do
  call_vhost (disable_notification vid (q * 2))
  call_vhost (disable_notification vid (q * 2 + 1))
  disable_notifications vid n (q + 1)

-- rte_vhost_get_ifname into 128 bytes.
abbrev pub ifname_of : Bytes → Bytes
ifname_of path = take 127 path

abbrev pub new_guest : Eth → ℕ → Option ℕ → S ℤ
new_guest eth vid none = pure (negsuc 0)
new_guest eth vid (some id) = do
  err ← on_world (add_virtio eth vid id)
  if is_error err then pure (negsuc 0) else pure (pos 0)

-- virtio_vhostuser_new_device_cb for the guest `vid` on the socket `path`.
unfoldable pub new_device_cb : Eth → ℕ → Bytes → S ℤ
new_device_cb eth vid path = do
  disable_notifications vid (eth.vring_num vid / 2) 0
  λ s. new_guest eth vid (get_relay_for_sock s.relay_ifname_map (ifname_of path)) s

abbrev pub lost_guest : Eth → (ℕ → World → World) → Option ℕ → S (Unit {0})
lost_guest eth sleep none = pure tt
lost_guest eth sleep (some id) = on_world (remove_virtio eth sleep id)

-- virtio_vhostuser_destroy_device_cb
unfoldable pub destroy_device_cb : Eth → (ℕ → World → World) → Bytes → S (Unit {0})
destroy_device_cb eth sleep path s =
    lost_guest eth sleep (get_relay_for_sock s.relay_ifname_map (ifname_of path)) s

-- virtio_forwarder_vring_state_change and virtio_set_lm_pending by the id, which may be out of
-- range.
unfoldable pub change_relay : ℕ → (Relay → Relay) → M (Unit {0})
change_relay id f w = elim (get_elem? w.relays id) [
  | none ↦ some (tt, w)
  | some r ↦ update_relay id f w
]

unfoldable pub virtio_set_lm_pending : ℕ → M (Unit {0})
virtio_set_lm_pending id =
    change_relay id λ r. record r { vio = record (r.vio) { lm_pending = true } }

-- A callback that changes the relay of a socket, if there is one.
abbrev pub with_relay : M (Unit {0}) → ℤ → S ℤ
with_relay m code = do on_world m; pure code

abbrev pub change_queue : ℕ → Bool → Option ℕ → S ℤ
change_queue queue_id enable none = pure (negsuc 0)
change_queue queue_id enable (some id) =
    with_relay (change_relay id λ r. record r { vio = vring_state_change queue_id enable r.vio })
      (pos 0)

-- virtio_vhostuser_vring_state_change_cb
unfoldable pub vring_state_change_cb : Bytes → ℕ → Bool → S ℤ
vring_state_change_cb path queue_id enable s =
    change_queue queue_id enable (get_relay_for_sock s.relay_ifname_map (ifname_of path)) s

abbrev pub change_features : Bool → Option ℕ → S ℤ
change_features need_log none = pure (negsuc 0)
change_features false (some id) = pure (pos 0)
change_features true (some id) = with_relay (virtio_set_lm_pending id) (pos 0)

-- virtio_vhostuser_features_changed_cb: `need_log` is RTE_VHOST_NEED_LOG of the features.
unfoldable pub features_changed_cb : Bytes → Bool → S ℤ
features_changed_cb path need_log s =
    change_features need_log (get_relay_for_sock s.relay_ifname_map (ifname_of path)) s

pub change_relay-none :
    (id : ℕ) (f : Relay → Relay) (w : World)
    → get_elem? w.relays id ≡ none
    → change_relay id f w ≡ some (tt, w)
unfolding change_relay
change_relay-none id f w e = rw (change_relay, e) refl

pub change_relay-at :
    (id : ℕ) (f : Relay → Relay) (w : World) (r : Relay)
    → get_elem? w.relays id ≡ some r
    → change_relay id f w ≡ some (tt, record w { relays = set w.relays id (f r) })
unfolding change_relay update_relay
change_relay-at id f w r e = rw (change_relay, e, update_relay, e) refl

-- If no two relays have the same path and the path fits the buffer of the callback, a change of a
-- queue on the socket of a relay is made on that relay, and nothing else changes.
pub vring_state_change_cb_lem :
    (path : Bytes) (queue_id : ℕ) (enable : Bool) (s : Server) (id : ℕ) (r : Relay)
    → Distinct s.relay_ifname_map
    → get_elem? s.relay_ifname_map id ≡ some (some path)
    → length path < 128
    → get_elem? s.world.relays id ≡ some r
    → vring_state_change_cb path queue_id enable s
      ≡ some (
        pos 0,
        record s {
          world = record (s.world) {
            relays =
                set s.world.relays id (record r { vio = vring_state_change queue_id enable r.vio });
          };
        },
      )
unfolding vring_state_change_cb on_world
vring_state_change_cb_lem path queue_id enable s id r d e fits at =
    rw
      (
        take-all 127 path (omega arith),
        relay_for_sock_self s.relay_ifname_map path id d e,
        change_relay-at id (λ r. record r { vio = vring_state_change queue_id enable r.vio })
            s.world r at,
      )
      refl
