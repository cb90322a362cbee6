-- ===== src/Workers/System.antt =====
-- The worker threads and the main thread together: rounds of worker_func, and between them VFs that
-- are added and queues that guests enable or disable.
use virtio_forwarder.Prelude.{
  Bool-cases, ◌==◌, ℕ, ◌+◌, ◌%◌, ◌^◌, ◌≤◌, Bool, some, List, ◌≡◌, refl, sym, ◌∙◌, ap, subst,
  get_elem?, set, length, inl, inr, get_elem?-set_inv, Option-cases,
}
use native.Mathlib.Decide.{ℕ_discrete}
use virtio_forwarder.Prelude.Int.{ℤ}
use virtio_forwarder.Relay.{Relay, burst_len}
use virtio_forwarder.World.{World, WorkerThread, Eth}
use virtio_forwarder.Control.Steps.{run-end}
use virtio_forwarder.Queues.{vring_state_change}
use virtio_forwarder.Datapath.Balance.{Balanced}
use virtio_forwarder.Control.Add.{add_vf2}
use virtio_forwarder.Control.Keeps.{Keeps}
use virtio_forwarder.Control.Add.Frame.{traffic, SameGuest, add_vf2-frame}
use virtio_forwarder.Sockets.Device.{change_relay, change_relay-at, change_relay-none}
use virtio_forwarder.Workers.{Turn, worker_round}
use virtio_forwarder.Workers.Rounds.{IsTurn, AllBalanced, worker_round-AllBalanced}

-- Balance is a matter of the packets that are held and of the counters.
Balanced-same : (r s : Relay) → traffic s ≡ traffic r → Balanced r → Balanced s
Balanced-same r s e b = record {
  tx_room = ap (λ t. length t.tx_pkts) e ∙ b.tx_room;
  tx_fits = subst (λ t. t.tx_pkts_used + t.tx_pkts_avail ≤ burst_len) (sym e) b.tx_fits;
  rx_room = ap (λ t. length t.rx_pkts) e ∙ b.rx_room;
  rx_fits = subst (λ t. t.rx_pkts_used + t.rx_pkts_avail ≤ burst_len) (sym e) b.rx_fits;
  down =
      subst
        (λ t.
          t.counted.vio_rx
          ≡ (t.counted.dpdk_tx + t.counted.dpdk_drop_unavail + t.tx_pkts_avail) % 2 ^ 64)
        (sym e) b.down;
  up =
      subst
        (λ t.
          t.counted.dpdk_rx
          ≡ (t.counted.vio_tx + t.counted.vio_drop_unavail + t.rx_pkts_avail) % 2 ^ 64)
        (sym e) b.up;
}

Keeps-AllBalanced :
    (id : ℕ) (v w : World) → Keeps id SameGuest v w → AllBalanced v.relays → AllBalanced w.relays
Keeps-AllBalanced id v w k all = record {
  each = λ i r e. elim (ℕ_discrete id i) [
    | yes h ↦
        let (s, at, same) = k.self r (ap (get_elem? w.relays) h ∙ e) in
        Balanced-same s r (ap (λ p. p.1) same) (all.each id s at)
    | no ne ↦ all.each i r (sym (k.others i ne) ∙ e)
  ];
}

abbrev pub queue_of_relay : ℕ → Bool → Relay → Relay
queue_of_relay queue_id enable r = record r { vio = vring_state_change queue_id enable r.vio }

queue-traffic :
    (queue_id : ℕ) (enable : Bool) (r : Relay)
    → traffic (queue_of_relay queue_id enable r) ≡ traffic r
unfolding vring_state_change
queue-traffic queue_id enable r = elim (Bool-cases (queue_id % 2 == 1)) [
  | inl odd ↦ rw odd refl
  | inr even ↦ rw even refl
]

queue-AllBalanced :
    (id queue_id : ℕ) (enable : Bool) (v w : World)
    → change_relay id (queue_of_relay queue_id enable) v ≡ some (tt, w)
    → AllBalanced v.relays
    → AllBalanced w.relays
queue-AllBalanced id queue_id enable v w e all = elim (Option-cases (get_elem? v.relays id)) [
  | inl h ↦ subst (λ u. AllBalanced u.relays) (run-end (sym (change_relay-none id _ v h) ∙ e)) all
  | inr (r, h) ↦
      subst (λ u. AllBalanced u.relays) (run-end (sym (change_relay-at id _ v r h) ∙ e))
        (record {
          each = λ i x at. elim (get_elem?-set_inv v.relays id _ i at) [
            | inl (k, k') ↦
                subst Balanced (sym k')
                  (Balanced-same r _ (queue-traffic queue_id enable r) (all.each id r h))
            | inr k ↦ all.each i x k
          ];
        })
]

-- The globals that the threads lead to, step by step, in any order.
pub data Ran (jhash : List ℕ → ℕ → ℕ) : World → World → Type 0 where
  start : {w : World} → Ran jhash w w
  round :
      {u v : World} {relays : List Relay} (turns : ℕ → Turn) (cpu : ℕ) (t t' : WorkerThread)
      → ((i : ℕ) → IsTurn (turns i))
      → Ran jhash u v
      → get_elem? v.worker_threads cpu ≡ some t
      → worker_round jhash turns t v.relays ≡ some (t', relays)
      → Ran jhash u (record v { relays = relays; worker_threads = set v.worker_threads cpu t' })
  vf_added :
      {u v w : World} {code : ℤ} (eth : Eth) (pci_dbdf : List ℕ) (id : ℕ) (conditional : Bool)
      → Ran jhash u v
      → add_vf2 eth pci_dbdf id conditional v ≡ some (code, w)
      → Ran jhash u w
  queue_changed :
      {u v w : World} (id queue_id : ℕ) (enable : Bool)
      → Ran jhash u v
      → change_relay id (queue_of_relay queue_id enable) v ≡ some (tt, w)
      → Ran jhash u w

-- If every relay is balanced, every relay is after any sequence of rounds of the worker threads,
-- with any locks taken and any bursts within the documented bounds, of VFs added by the main
-- thread, with or without success, and of queues that are enabled and disabled, in any order.
pub Ran-AllBalanced :
    (jhash : List ℕ → ℕ → ℕ) (u v : World)
    → AllBalanced u.relays
    → Ran jhash u v
    → AllBalanced v.relays
Ran-AllBalanced jhash u v all start = all
Ran-AllBalanced jhash u v all (round turns cpu t t' ok before at e) =
    worker_round-AllBalanced jhash turns t t' _ _ ok (Ran-AllBalanced jhash u _ all before) e
Ran-AllBalanced jhash u v all (vf_added eth pci_dbdf id conditional before e) =
    Keeps-AllBalanced id _ v (add_vf2-frame eth pci_dbdf id conditional _ e)
      (Ran-AllBalanced jhash u _ all before)
Ran-AllBalanced jhash u v all (queue_changed id queue_id enable before e) =
    queue-AllBalanced id queue_id enable _ v e (Ran-AllBalanced jhash u _ all before)
