-- ===== src/Sockets/Pairs/Outcome.antt =====
-- What virtio_add_sock_dev_pair and virtio_remove_sock_dev_pair do with the table of sockets.
use mathlib.Core.Option.{some-injective}
use virtio_forwarder.Prelude.{
  ℕ, ◌<◌, Bool, true, false, Option, none, some, List, [], ◌∷◌, ◌≡◌, refl, sym, ◌∙◌, ap, ap₂, subst,
  get_elem?, lt-of_get_elem?, set, set-set_back, length, Bytes,
}
use virtio_forwarder.Prelude.Int.{ℤ, pos, is_error, is_error-eq-zero}
use virtio_forwarder.World.{World, Eth, ask}
use virtio_forwarder.Control.Bond.{Slave}
use virtio_forwarder.Sockets.{Server, Vhost, on_world, get_relay_for_sock, virtio_get_free_relay_id}
use virtio_forwarder.Sockets.Runs.{
  Post, Post-bind, Post-if, Post-on_world, Post-pure, Post-fault, Post-weaken, Runs-Post,
  SameSockets,
}
use virtio_forwarder.Sockets.Register.{
  register_relay_socket_lem, Registered, left_alone, taken, deregister_socket_lem, Deregistered,
  unknown, released,
}
use virtio_forwarder.Sockets.Table.{Idle, free_relay-Idle, set-some-found}
use virtio_forwarder.Sockets.Pairs.{
  device_name, find_port, attach_device, detach_pair, deconfigure_pair, add_pair_to, add_pair_at,
  add_pair_here, add_pair, virtio_add_sock_dev_pair,
}

Post-find_port :
    (eth : Eth) (dev : Option Bytes) (s : Server)
    → Post (find_port eth dev) s (λ c s'. SameSockets s s' × (s'.world.relays ≡ s.world.relays))
unfolding on_world ask
Post-find_port eth none s = Post-pure _ (record { map_same = refl; calls_same = refl }, refl)
Post-find_port eth (some dev) s = record {
  post = λ c s' e.
      subst (λ q. SameSockets s q.1 × (q.1.world.relays ≡ s.world.relays)) (some-injective _ _ e)
        (record { map_same = refl; calls_same = refl }, refl);
}

-- A device is attached with 0, or an error.
Post-attach_device :
    (eth : Eth) (slaves : List Slave) (name : Option Bytes) (mode relay_id : ℕ) (conditional : Bool)
    (s : Server)
    → Post (attach_device eth slaves name mode relay_id conditional) s (λ c s'. SameSockets s s')
unfolding attach_device
Post-attach_device eth ((dbdf, old) ∷ []) name mode relay_id conditional s =
    Post-bind (Post-on_world _ s)
      λ err t q. Post-if (is_error err) (λ h. Post-pure _ q) (λ h. Post-pure _ q)
Post-attach_device eth [] none mode relay_id conditional s =
    Post-pure _ (record { map_same = refl; calls_same = refl })
Post-attach_device eth (x ∷ y ∷ ys) none mode relay_id conditional s =
    Post-pure _ (record { map_same = refl; calls_same = refl })
Post-attach_device eth [] (some name) mode relay_id conditional s =
    Post-bind (Post-on_world _ s)
      λ err t q. Post-if (is_error err) (λ h. Post-pure _ q) (λ h. Post-pure _ q)
Post-attach_device eth (x ∷ y ∷ ys) (some name) mode relay_id conditional s =
    Post-bind (Post-on_world _ s)
      λ err t q. Post-if (is_error err) (λ h. Post-pure _ q) (λ h. Post-pure _ q)

-- A pair is added with 0, to the first idle relay, or it is refused and the table is as before.
pub data Added (s : Server) (p : Bytes) (c : ℤ) (s' : Server) : Type 0 where
  refused : is_error c ≡ true → s'.relay_ifname_map ≡ s.relay_ifname_map → Added s p c s'
  paired :
      (id : ℕ)
      → c ≡ pos 0
      → get_relay_for_sock s.relay_ifname_map p ≡ none
      → Idle s.world.relays s.relay_ifname_map id
      → s'.relay_ifname_map ≡ set s.relay_ifname_map id (some p)
      → Added s p c s'

-- A registration that failed is undone by deregister_socket.
undone :
    {s t u : Server} {p : Bytes} {id : ℕ} {c d : ℤ}
    → get_relay_for_sock s.relay_ifname_map p ≡ none
    → Registered s p id c t
    → Deregistered t p d u
    → u.relay_ifname_map ≡ s.relay_ifname_map
undone new (left_alone h e) (unknown g m f) = m ∙ h
undone new (left_alone h e) (released id g m) = cc
undone {s} {t} {u} {p} {id} new (taken e h) (unknown g m f) =
    cc (set-some-found s.relay_ifname_map id p new (lt-of_get_elem? s.relay_ifname_map id e))
undone {s} {t} {u} {p} {id} new (taken e h) (released j g m) = cc (
  h,
  g,
  m,
  set-some-found s.relay_ifname_map id p new (lt-of_get_elem? s.relay_ifname_map id e),
  set-set_back s.relay_ifname_map id (some p) none e,
)

Registered-later :
    {s t u : Server} {p : Bytes} {id : ℕ} {c : ℤ}
    → SameSockets t u
    → Registered s p id c t
    → Registered s p id c u
Registered-later q (left_alone h e) = left_alone (q.map_same ∙ h) e
Registered-later q (taken e h) = taken e (q.map_same ∙ h)

Post-detach_pair :
    (eth : Eth) (sleep : ℕ → World → World) (dev : Option Bytes) (id : ℕ) (conditional : Bool)
    (s : Server)
    → Post (detach_pair eth sleep dev id conditional) s (λ c s'. SameSockets s s')
Post-detach_pair eth sleep none id conditional s = Post-fault
Post-detach_pair eth sleep (some dev) id conditional s = Post-on_world _ s

module _ (eth : Eth) (sleep : ℕ → World → World) (vh : Vhost) (p : Bytes) (slaves : List Slave)
    (name : Option Bytes) (mode : ℕ) (conditional : Bool) where
  Post-deconfigure :
      (s : Server) (dev : Option Bytes) (id : ℕ) (c : ℤ) (t : Server)
      → get_relay_for_sock s.relay_ifname_map p ≡ none
      → Registered s p id c t
      → Post
          (deconfigure_pair eth sleep vh p dev id conditional)
          t
          (λ c t'. (c ≡ pos 5) × (t'.relay_ifname_map ≡ s.relay_ifname_map))
  unfolding deconfigure_pair
  Post-deconfigure s dev id c t new r =
      Post-bind (Post-detach_pair eth sleep dev id conditional t) λ a u q.
        Post-bind (Runs-Post (deregister_socket_lem vh p u))
          λ d v h. Post-pure _ (refl, undone new (Registered-later q r) h.1)

  -- The first idle relay of the table has no path.
  Post-add_pair_to :
      (s t : Server) (id : ℕ)
      → SameSockets s t
      → get_relay_for_sock s.relay_ifname_map p ≡ none
      → virtio_get_free_relay_id s.world.relays s.relay_ifname_map ≡ some id
      → get_elem? s.relay_ifname_map id ≡ some none
      → Post (add_pair_to eth sleep vh p slaves name mode conditional id) t (Added s p)
  unfolding add_pair_to
  Post-add_pair_to s t id q new free e =
      Post-bind (Post-attach_device eth slaves name mode id conditional t) λ err u q1.
        Post-if (is_error err) (λ h. Post-pure _ (refused h (q1.map_same ∙ q.map_same)))
          λ h.
            Post-bind (Runs-Post (register_relay_socket_lem vh p id u (in_table u q1))) λ code v o.
              Post-if (is_error code)
                (λ g.
                  Post-weaken
                    (Post-deconfigure u (device_name slaves name) id code v
                      (ap (λ m. get_relay_for_sock m p) (q1.map_same ∙ q.map_same) ∙ new) o.table)
                    λ c w k. refused (ap is_error k.0) (k.1 ∙ q1.map_same ∙ q.map_same))
                (λ g. Post-pure _ (success u q1 v code g o.table))
    where
      in_table : (u : Server) → SameSockets t u → id < length u.relay_ifname_map
      in_table u q1 =
          lt-of_get_elem? u.relay_ifname_map id
            (ap (λ m. get_elem? m id) (q1.map_same ∙ q.map_same) ∙ e)

      success :
          (u : Server)
          → SameSockets t u
          → (v : Server) (code : ℤ) → is_error code ≡ false
          → Registered u p id code v
          → Added s p code v
      success u q1 v code g (left_alone h k) = cc
      success u q1 v code g (taken k h) =
          paired id (is_error-eq-zero code g) new (free_relay-Idle _ _ id free)
            (h ∙ ap (λ m. set m id (some p)) (q1.map_same ∙ q.map_same))

-- A pair that is added with 0 gets a relay that has no guest, no VF and no path, in whose entry its
-- path, which no relay had, is put; every other result is an error, and the table is then as it was
-- before, also where the socket was registered and its registration failed late.
pub add_sock_dev_pair-Added :
    (eth : Eth) (sleep : ℕ → World → World) (vh : Vhost) (p : Bytes) (slaves : List Slave)
    (name : Option Bytes) (mode : ℕ) (conditional : Bool) (s s' : Server) (c : ℤ)
    → virtio_add_sock_dev_pair eth sleep vh (some p) slaves name mode conditional s ≡ some (c, s')
    → Added s p c s'
unfolding virtio_add_sock_dev_pair add_pair add_pair_here
add_sock_dev_pair-Added eth sleep vh p slaves name mode conditional s s' c e =
    (Post-bind (Post-find_port eth (device_name slaves name) s) λ err t q.
        Post-if (is_error err) (λ h. here t q) (λ h. Post-pure _ (refused refl q.0.map_same))).post
      c s' e
  where
    here :
        (t : Server)
        → SameSockets s t × (t.world.relays ≡ s.world.relays)
        → Post (add_pair_here eth sleep vh p slaves name mode conditional) t (Added s p)
    here t q = record { post = (cases _ _ refl refl).post }
      where
        cases :
            (known free : Option ℕ)
            → get_relay_for_sock t.relay_ifname_map p ≡ known
            → virtio_get_free_relay_id t.world.relays t.relay_ifname_map ≡ free
            → Post
                (add_pair_at eth sleep vh p slaves name mode conditional known free)
                t
                (Added s p)
        cases (some i) free k f = Post-pure _ (refused refl q.0.map_same)
        cases none none k f = Post-pure _ (refused refl q.0.map_same)
        cases none (some id) k f =
            Post-add_pair_to eth sleep vh p slaves name mode conditional s t id q.0
              (ap (λ m. get_relay_for_sock m p) (sym q.0.map_same) ∙ k) (idle id f)
              ((free_relay-Idle _ _ id (idle id f)).free)
          where
            idle :
                (id : ℕ)
                → virtio_get_free_relay_id t.world.relays t.relay_ifname_map ≡ some id
                → virtio_get_free_relay_id s.world.relays s.relay_ifname_map ≡ some id
            idle id f = ap₂ virtio_get_free_relay_id (sym q.1) (sym q.0.map_same) ∙ f
