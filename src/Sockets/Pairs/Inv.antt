-- ===== src/Sockets/Pairs/Inv.antt =====
-- The invariant of the table of sockets, no path twice, and adding a pair and removing it.
use mathlib.Core.Option.{some-injective}
use virtio_forwarder.Prelude.{
  ℕ, Bool, Option, none, some, List, ◌≡◌, refl, sym, ◌∙◌, ap, subst, lt-of_get_elem?, set-set_back,
  Bytes,
}
use virtio_forwarder.Prelude.Int.{ℤ, pos}
use virtio_forwarder.World.{World, Eth}
use virtio_forwarder.Control.Bond.{Slave}
use virtio_forwarder.Sockets.{Server, S, Vhost, get_relay_for_sock}
use virtio_forwarder.Sockets.Table.{Distinct, set-some-found, set-some-Distinct, set-none-Distinct}
use virtio_forwarder.Sockets.Pairs.{
  virtio_add_sock_dev_pair, virtio_remove_sock_dev_pair, find_pair,
}
use virtio_forwarder.Sockets.Pairs.Outcome.{Added, refused, paired, add_sock_dev_pair-Added}
use virtio_forwarder.Sockets.Pairs.Leave.{
  Removed, kept, left, found_path, remove_sock_dev_pair-Removed,
}

pub Added-Distinct :
    (s : Server) (p : Bytes) (c : ℤ) (s' : Server)
    → Added s p c s'
    → Distinct s.relay_ifname_map
    → Distinct s'.relay_ifname_map
Added-Distinct s p c s' (refused e m) d = subst Distinct (sym m) d
Added-Distinct s p c s' (paired id e new i m) d =
    subst Distinct (sym m) (set-some-Distinct _ id p new d)

pub Removed-Distinct :
    (s : Server) (p : Option Bytes) (c : ℤ) (s' : Server)
    → Removed s p c s'
    → Distinct s.relay_ifname_map
    → Distinct s'.relay_ifname_map
Removed-Distinct s p c s' (kept e m) d = subst Distinct (sym m) d
Removed-Distinct s p c s' (left q id k g m) d = subst Distinct (sym m) (set-none-Distinct _ id d)

-- The requests on pairs, with their arguments.
pub data PairRequest : Type 0 where
  add_pair_request :
      (vhost_path : Bytes)
      → (slaves : List Slave) → (name : Option Bytes) → (mode : ℕ) → (conditional : Bool)
      → PairRequest
  remove_pair_request :
      (vhost_path : Option Bytes) → (dev : Bytes) → (conditional : Bool) → PairRequest

abbrev pub serve : Eth → (ℕ → World → World) → Vhost → PairRequest → S ℤ
serve eth sleep vh (add_pair_request p slaves name mode conditional) =
    virtio_add_sock_dev_pair eth sleep vh (some p) slaves name mode conditional
serve eth sleep vh (remove_pair_request p dev conditional) =
    virtio_remove_sock_dev_pair eth sleep vh p dev conditional

-- The states that a sequence of requests leads to; what the guests' callbacks and the workers do
-- between the requests may change the relays, but not the table.
pub data Reached (eth : Eth) (sleep : ℕ → World → World) (vh : Vhost)
    : Server → Server → Type 0 where
  here : {s : Server} → Reached eth sleep vh s s
  request :
      {s t u : Server} {c : ℤ} (q : PairRequest)
      → Reached eth sleep vh s t
      → serve eth sleep vh q t ≡ some (c, u)
      → Reached eth sleep vh s u
  between :
      {s t : Server} (w : World)
      → Reached eth sleep vh s t
      → Reached eth sleep vh s (record t { world = w })

-- If no two relays have the same path, no two have after any sequence of requests to add and to
-- remove pairs, whatever their results, with any changes of the relays in between.
pub Reached-Distinct :
    (eth : Eth) (sleep : ℕ → World → World) (vh : Vhost) (s s' : Server)
    → Distinct s.relay_ifname_map
    → Reached eth sleep vh s s'
    → Distinct s'.relay_ifname_map
Reached-Distinct eth sleep vh s s' d here = d
Reached-Distinct eth sleep vh s s' d (between w r) = Reached-Distinct eth sleep vh s _ d r
Reached-Distinct eth sleep vh s s' d
      (request (add_pair_request p slaves name mode conditional) r e) =
    Added-Distinct _ _ _ _
      (add_sock_dev_pair-Added eth sleep vh p slaves name mode conditional _ _ _ e)
      (Reached-Distinct eth sleep vh s _ d r)
Reached-Distinct eth sleep vh s s' d (request (remove_pair_request p dev conditional) r e) =
    Removed-Distinct _ _ _ _ (remove_sock_dev_pair-Removed eth sleep vh p dev conditional _ _ _ e)
      (Reached-Distinct eth sleep vh s _ d r)

found_path-known :
    (p : Bytes) (dev : Bytes) (s : Server) (id : ℕ)
    → get_relay_for_sock s.relay_ifname_map p ≡ some id
    → found_path (find_pair (some p) dev s) ≡ some p
unfolding find_pair
found_path-known p dev s id e = rw e refl

undo :
    (s t u : Server) (p : Bytes) (path : Option Bytes)
    → path ≡ some p
    → Added s p (pos 0) t
    → Removed t path (pos 0) u
    → u.relay_ifname_map ≡ s.relay_ifname_map
undo s t u p path k (refused e m) r = cc
undo s t u p path k (paired id e new i m) (kept e' n) = cc
undo s t u p path k (paired id e new i m) (left q j g h n) = cc (
  some-injective _ _ (sym g ∙ k),
  m,
  h,
  n,
  set-some-found s.relay_ifname_map id p new (lt-of_get_elem? _ id i.free),
  set-set_back s.relay_ifname_map id (some p) none i.free,
)

known_path :
    (s t : Server) (p : Bytes) (dev : Bytes)
    → Added s p (pos 0) t
    → found_path (find_pair (some p) dev t) ≡ some p
known_path s t p dev (refused e m) = cc
known_path s t p dev (paired id e new i m) = found_path-known p dev t id (
    ap (λ x. get_relay_for_sock x p) m
    ∙ set-some-found s.relay_ifname_map id p new (lt-of_get_elem? _ id i.free))

-- A pair that was added with 0 and is removed by its path: if the removal gives 0, the table is
-- what it was before the pair was added.
pub remove-add_pair :
    (eth : Eth) (sleep : ℕ → World → World) (vh : Vhost) (p : Bytes) (slaves : List Slave)
    (name : Option Bytes) (mode : ℕ) (conditional : Bool) (dev : Bytes) (s t u : Server)
    → virtio_add_sock_dev_pair eth sleep vh (some p) slaves name mode conditional s
      ≡ some (pos 0, t)
    → virtio_remove_sock_dev_pair eth sleep vh (some p) dev conditional t ≡ some (pos 0, u)
    → (u.relay_ifname_map ≡ s.relay_ifname_map)
remove-add_pair eth sleep vh p slaves name mode conditional dev s t u a r =
    let added = add_sock_dev_pair-Added eth sleep vh p slaves name mode conditional s t (pos 0) a in
    undo s t u p _ (known_path s t p dev added) added
      (remove_sock_dev_pair-Removed eth sleep vh (some p) dev conditional t u (pos 0) r)
