-- ===== src/Control/Add/Frame.antt =====
-- What virtio_forwarder_add_vf2 leaves alone: every other relay, and the guest of its own.
use virtio_forwarder.Prelude.{
  ℕ, ◌≡◌, refl, ◌∙◌, sym, some-ne-none, Bool, false, ◌&&◌, Option, none, some, List, get_elem?,
  and_then-eq-some,
}
use virtio_forwarder.Prelude.Int.{ℤ, pos, is_error}
use virtio_forwarder.Relay.{
  Relay, Mbuf, RelayStats, VioState, DpdkState, dpdk_added, dpdk_ready, is_virtio_ready,
}
use virtio_forwarder.World.{World, update_relay, get_relay_cpus, Eth, dev_start, dev_stop}
use virtio_forwarder.Cpu.{
  is_dpdk_uninit, pick_worker, release_cpu, search_vf2virtio_cpu, use_vf2virtio_cpu,
  find_vf2virtio_cpu, naive_get_idlest_worker,
}
use virtio_forwarder.Control.{start_eth_dev}
use virtio_forwarder.Control.Add.{
  attach, attach_steps, mark_cpu, configure_dev_with_virtio, add_new_vf, add_vf2, add_vf2_at,
  conditional_add_ok,
}
use virtio_forwarder.Control.Steps.{
  IsFrame, Steps, ends, Steps-pure, Steps-bind, Steps-if, Steps-get_relay, Steps-mark_update,
  Steps-ask,
}
use virtio_forwarder.Control.Keeps.{Keeps, Keeps-IsFrame, Steps-update}
use virtio_forwarder.Control.Setup.{Steps-cleanup, Steps-init_vf}

-- The packets that a relay holds, and its counters.
pub record Traffic : Type 0 where
  pub tx_pkts : List Mbuf
  pub tx_pkts_avail : ℕ
  pub tx_pkts_used : ℕ
  pub rx_pkts : List Mbuf
  pub rx_pkts_avail : ℕ
  pub rx_pkts_used : ℕ
  pub counted : RelayStats

abbrev pub traffic : Relay → Traffic
traffic r = record {
  tx_pkts = r.vio.tx_pkts;
  tx_pkts_avail = r.vio.tx_pkts_avail;
  tx_pkts_used = r.vio.tx_pkts_used;
  rx_pkts = r.dpdk.rx_pkts;
  rx_pkts_avail = r.dpdk.rx_pkts_avail;
  rx_pkts_used = r.dpdk.rx_pkts_used;
  counted = r.stats;
}

-- The same state of the guest, the same packets and counters.
abbrev pub SameGuest : Relay → Relay → Type 0
SameGuest r s = ◌≡◌ {A = VioState × Traffic} (s.vio.state, traffic s) (r.vio.state, traffic r)

abbrev pub Framed : ℕ → World → World → Type 0
Framed id = Keeps id SameGuest

pub Framed-IsFrame : (id : ℕ) → IsFrame (Framed id)
Framed-IsFrame id = Keeps-IsFrame id SameGuest (λ r. refl) (λ a b c p q. q ∙ p)

module _ (id : ℕ) where
  abbrev R : World → World → Type 0
  R = Framed id

  abbrev frame : IsFrame R
  frame = Framed-IsFrame id

  updates : (f : Relay → Relay) → ((r : Relay) → SameGuest r (f r)) → Steps R (update_relay id f)
  updates f h = Steps-update id SameGuest (λ r. refl) (λ a b c p q. q ∙ p) f h

  Steps-release : (o : Option ℕ) → Steps R (release_cpu o)
  Steps-release none = Steps-pure R frame tt
  Steps-release (some cpu) = Steps-mark_update R frame cpu

  Steps-pick_worker : (socket : Option ℕ) → Steps R (pick_worker socket)
  unfolding pick_worker
  Steps-pick_worker socket w a w' e =
      let (cpu, at, rest) =
        and_then-eq-some (naive_get_idlest_worker w socket) (λ c. some (c, w)) e in
      ends R frame cpu a w w w' (frame.same w) rest

  Steps-search : Steps R (search_vf2virtio_cpu id)
  unfolding search_vf2virtio_cpu
  Steps-search = Steps-bind R frame _ _ (Steps-get_relay R frame id) λ r.
      Steps-bind R frame _ _ (Steps-release r.dpdk.vf2vio_cpu) λ released.
        Steps-bind R frame _ _ (updates _ λ r. refl) λ cleared.
          Steps-bind R frame _ _ (Steps-pick_worker r.vio.mempool_socket_id)
            λ cpu. updates _ λ r. refl

  Steps-use : (o : Option ℕ) → Steps R (use_vf2virtio_cpu id o)
  Steps-use none = Steps-search
  Steps-use (some cpu) = updates _ λ r. refl

  Steps-get_relay_cpus : Steps R (get_relay_cpus id)
  unfolding get_relay_cpus
  Steps-get_relay_cpus w a w' e =
      let (c, at, rest) = and_then-eq-some (get_elem? w.relay_cpus id) (λ c. some (c, w)) e in
      ends R frame c a w w w' (frame.same w) rest

  pub Steps-find_vf2virtio_cpu : Steps R (find_vf2virtio_cpu id)
  unfolding find_vf2virtio_cpu
  Steps-find_vf2virtio_cpu =
      Steps-bind R frame _ _ Steps-get_relay_cpus λ conf. Steps-use conf.vf2vio_cpu

  pub Steps-mark_cpu : (o : Option ℕ) → Steps R (mark_cpu o)
  Steps-mark_cpu none = λ w a w' e. absurd (some-ne-none (sym e))
  Steps-mark_cpu (some cpu) = Steps-mark_update R frame cpu

  pub Steps-attach :
      (dbdf : List ℕ) (port_id : ℕ) (is_bond : Bool) (n : ℕ) (s : DpdkState)
      → Steps R (attach dbdf port_id id is_bond n s)
  unfolding attach attach_steps
  Steps-attach dbdf p is_bond n s =
      Steps-bind R frame (attach_steps dbdf p id is_bond n s) _
        (Steps-bind R frame _ _ (updates _ λ r. refl) λ named.
          Steps-bind R frame _ _ Steps-find_vf2virtio_cpu λ found.
            Steps-bind R frame _ _ (updates _ λ r. refl) λ done.
              Steps-bind R frame _ _ (Steps-get_relay R frame id)
                λ r. Steps-mark_cpu r.dpdk.vf2vio_cpu)
        λ told. Steps-pure R frame (pos 0)

  module _ (eth : Eth) where
    pub Steps-configure :
        (dbdf : List ℕ) (port_id : ℕ) (is_bond : Bool) (n : ℕ)
        → Steps R (configure_dev_with_virtio eth dbdf port_id id is_bond n)
    unfolding configure_dev_with_virtio start_eth_dev
    Steps-configure dbdf p is_bond n = Steps-bind R frame _ _ (Steps-get_relay R frame id) λ r.
        Steps-if R frame (is_virtio_ready r.vio.state) _ _
          (Steps-bind R frame _ _ (Steps-ask R frame eth (dev_start p)) λ err.
            Steps-if R frame (is_error err) _ _ (Steps-pure R frame (pos 1))
              (Steps-attach dbdf p is_bond n dpdk_ready))
          (Steps-bind R frame _ _ (Steps-ask R frame eth (dev_stop p))
            λ stopped. Steps-attach dbdf p is_bond n dpdk_added)

    pub Steps-add_new_vf : (dbdf : List ℕ) → Steps R (add_new_vf eth dbdf id)
    unfolding add_new_vf
    Steps-add_new_vf dbdf =
        Steps-bind R frame _ _ (Steps-init_vf R frame eth id (λ pool. updates _ λ r. refl) dbdf 0)
          λ answer. Steps-if R frame (is_error answer.0) _ _ (Steps-pure R frame answer.0) (
            Steps-bind R frame _ _ (Steps-configure dbdf answer.1 false 0) λ code.
              Steps-if R frame (is_error code) _ _
                (Steps-bind R frame _ _ (Steps-cleanup R frame eth answer.1)
                  λ cleaned. Steps-pure R frame code)
                (Steps-pure R frame code))

    Steps-add_vf2_at :
        (dbdf : List ℕ) (conditional : Bool) (o : Option Relay)
        → Steps R (add_vf2_at eth dbdf id conditional o)
    Steps-add_vf2_at dbdf conditional none = Steps-pure R frame (pos 1)
    Steps-add_vf2_at dbdf conditional (some r) =
        Steps-if R frame (is_dpdk_uninit r.dpdk.state) _ _ (Steps-add_new_vf dbdf) (
          Steps-if R frame (conditional && conditional_add_ok r dbdf id) _ _
            (Steps-pure R frame (pos 0)) (Steps-pure R frame (pos 8)))

-- Whatever DPDK answers and whatever code it returns, virtio_forwarder_add_vf2 changes no other
-- relay than the one it is given, and of that one neither the state of the guest nor the packets
-- that are held nor the counters.
pub add_vf2-frame :
    (eth : Eth) (pci_dbdf : List ℕ) (id : ℕ) (conditional : Bool) (w : World) {code : ℤ}
    {w' : World}
    → add_vf2 eth pci_dbdf id conditional w ≡ some (code, w')
    → Keeps id SameGuest w w'
unfolding add_vf2
add_vf2-frame eth dbdf id conditional w e =
    Steps-add_vf2_at id eth dbdf conditional (get_elem? w.relays id) w _ _ e
