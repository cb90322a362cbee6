-- ===== src/Sockets/Pairs/Leave.antt =====
-- What virtio_remove_sock_dev_pair does with the table of sockets.
use mathlib.Core.Option.{some-injective}
use virtio_forwarder.Prelude.{
  Bool-cases, inl, inr, ℕ, Bool, true, Option, none, some, [], ◌∷◌, ◌≡◌, refl, sym, ◌∙◌, ap,
  get_elem?, set, Bytes,
}
use virtio_forwarder.Prelude.Int.{ℤ, pos, is_error}
use virtio_forwarder.Relay.{Relay}
use virtio_forwarder.World.{World, Eth}
use virtio_forwarder.Sockets.{Server, Vhost, ask_vhost, get_relay_for_sock, virtio_relay_has_device}
use virtio_forwarder.Sockets.Runs.{
  Post, Post-bind, Post-if, Post-on_world, Post-pure, Runs-Post, SameSockets,
}
use virtio_forwarder.Sockets.Register.{deregister_socket_lem, Deregistered, unknown, released}
use virtio_forwarder.Sockets.Pairs.{
  no_entry, find_pair, deregister_path, remove_pair, choose_device, remove_found, no_argument,
  virtio_remove_sock_dev_pair,
}

-- A request is refused with an error and the table is as before, or the path of one relay leaves
-- the table; a NULL path leaves no table.
pub data Removed (s : Server) (path : Option Bytes) (c : ℤ) (s' : Server) : Type 0 where
  kept : is_error c ≡ true → s'.relay_ifname_map ≡ s.relay_ifname_map → Removed s path c s'
  left :
      (p : Bytes) (id : ℕ)
      → path ≡ some p
      → get_relay_for_sock s.relay_ifname_map p ≡ some id
      → s'.relay_ifname_map ≡ set s.relay_ifname_map id none
      → Removed s path c s'

Removed-of :
    {s t u v : Server} {p : Bytes} {c d : ℤ}
    → SameSockets s t
    → Deregistered t p c u
    → SameSockets u v
    → (c ≡ pos 1 → is_error d ≡ true)
    → Removed s (some p) d v
Removed-of q (unknown g m e) r h = kept (h e) (r.map_same ∙ m ∙ q.map_same)
Removed-of {p = p} q (released id g m) r h =
    left p id refl (ap (λ x. get_relay_for_sock x p) (sym q.map_same) ∙ g)
      (r.map_same ∙ m ∙ ap (λ x. set x id none) q.map_same)

same : (s : Server) → SameSockets s s
same s = record { map_same = refl; calls_same = refl }

-- The path of the pair that a request finds.
abbrev pub found_path : Option (Option Bytes × ℕ) → Option Bytes
found_path none = none
found_path (some (path, id)) = path

module _ (eth : Eth) (sleep : ℕ → World → World) (vh : Vhost) (conditional : Bool) where
  Post-remove_pair :
      (s : Server) (path : Bytes) (dev : Bytes) (id : ℕ)
      → Post (remove_pair eth sleep vh (some path) dev id conditional) s (Removed s (some path))
  unfolding remove_pair deregister_path
  Post-remove_pair s path dev id = Post-bind (Post-on_world _ s) λ a t q.
      Post-bind (Runs-Post (deregister_socket_lem vh path t)) λ err u h.
        Post-if (is_error err) (λ e. Post-pure _ (Removed-of q h.1 (same u) (λ f. refl)))
          λ e. Post-bind (Post-on_world _ u) λ removed v r.
            Post-if (is_error removed) (λ e'. Post-pure _ (Removed-of q h.1 r (λ f. refl)))
              (λ e'. Post-pure _ (Removed-of q h.1 r (λ f. cc)))

  Post-deregister_null :
      (s : Server)
      → Post
          (deregister_path vh none)
          s
          (λ c s'. (c ≡ pos 1) × (s'.relay_ifname_map ≡ s.relay_ifname_map))
  unfolding deregister_path ask_vhost
  Post-deregister_null s = record {
    post = λ c s' e. elim (Bool-cases (no_entry s.relay_ifname_map)) [
      | inl empty ↦
          let end = some-injective _ _ (rw empty at e) in
          (ap (λ p. p.0) (sym end), ap (λ p. p.1.relay_ifname_map) (sym end))
      | inr set ↦ absurd (let z = rw set at e in cc)
    ];
  }

  -- A NULL path is never found, and its deregistration fails.
  Post-remove_null :
      (s : Server) (dev : Bytes) (id : ℕ)
      → Post (remove_pair eth sleep vh none dev id conditional) s (Removed s none)
  unfolding remove_pair
  Post-remove_null s dev id = Post-bind (Post-on_world _ s) λ a t q.
      Post-bind (Post-deregister_null t) λ b u h.
        Post-if (is_error b) (λ e. Post-pure _ (kept refl (h.1 ∙ q.map_same)))
          (λ e. absurd (let z = rw (h.0) at e in cc))

  Post-remove_path :
      (s : Server) (path : Option Bytes) (dev : Bytes) (id : ℕ)
      → Post (remove_pair eth sleep vh path dev id conditional) s (Removed s path)
  Post-remove_path s (some path) dev id = Post-remove_pair s path dev id
  Post-remove_path s none dev id = Post-remove_null s dev id

  Post-choose_device :
      (s : Server) (path : Option Bytes) (dev : Bytes) (id : ℕ)
      → Post (choose_device eth sleep vh path dev id conditional) s (Removed s path)
  unfolding choose_device
  Post-choose_device s path (c ∷ dev) id = record {
    post =
        (Post-if (virtio_relay_has_device s.world.relays id (c ∷ dev))
          (λ h. Post-remove_path s path (c ∷ dev) id) (λ h. Post-pure _ (kept refl refl))).post;
  }
  Post-choose_device s path [] id = record { post = (at (get_elem? s.world.relays id)).post }
    where
      at :
          (o : Option Relay)
          → Post
              (λ s. elim o [
                | none ↦ some (pos 1, s)
                | some r ↦ remove_pair eth sleep vh path r.dpdk.pci_dbdf id conditional s
              ])
              s
              (Removed s path)
      at none = Post-pure _ (kept refl refl)
      at (some r) = Post-remove_path s path r.dpdk.pci_dbdf id

  Post-remove_found :
      (s : Server) (dev : Bytes) (found : Option (Option Bytes × ℕ))
      → Post (remove_found eth sleep vh dev conditional found) s (Removed s (found_path found))
  Post-remove_found s dev none = Post-pure _ (kept refl refl)
  Post-remove_found s dev (some (path, id)) = Post-choose_device s path dev id

-- When a request to remove a pair returns, whether it names the path or the device: either it gives
-- an error and the table is as before, or the relay that has the path of the pair that was found
-- loses it, and nothing else changes in the table. The latter needs a path: a request that finds
-- its relay by the device where the relay has no socket gives an error. A run that does not return,
-- as for such a relay where another one has a socket, is not in the statement.
pub remove_sock_dev_pair-Removed :
    (eth : Eth) (sleep : ℕ → World → World) (vh : Vhost) (vhost_path : Option Bytes) (dev : Bytes)
    (conditional : Bool) (s s' : Server) (c : ℤ)
    → virtio_remove_sock_dev_pair eth sleep vh vhost_path dev conditional s ≡ some (c, s')
    → Removed s (found_path (find_pair vhost_path dev s)) c s'
unfolding virtio_remove_sock_dev_pair
remove_sock_dev_pair-Removed eth sleep vh vhost_path dev conditional s s' c e =
    (Post-if (no_argument vhost_path dev) (λ h. Post-pure _ (kept refl refl))
        (λ h. Post-remove_found eth sleep vh conditional s dev (find_pair vhost_path dev s))).post
      c s' e
