-- ===== src/Examples/Workers.antt =====
-- The theorems on the worker threads, applied.
use virtio_forwarder.Prelude.{
  ℕ, zero, suc, arith, List, ◌≡◌, [], refl, true, false, some, replicate, get_elem?, set, subst,
}
use mathlib.Core.Option.{some-injective}
use virtio_forwarder.Bits.{test_bit, drain, ffs, clear_bit}
use virtio_forwarder.Relay.{Relay, virtio_ready, dpdk_uninit}
use virtio_forwarder.World.{World, WorkerThread}
use virtio_forwarder.Datapath.Balance.{Balanced}
use virtio_forwarder.Datapath.Down.{
  relay_vm2vf_traffic, fetch_tx, virtio_rx, next_tx_queue, send_tx, dpdk_tx, signal_virtio_removal,
  finish_vf_removal,
}
use virtio_forwarder.Workers.{
  Turn, forward_down, forward_up, serve_relay, serve_relays, worker_round,
}
use virtio_forwarder.Workers.Rounds.{IsTurn, AllBalanced}
use virtio_forwarder.Workers.System.{start, round, Ran-AllBalanced}
use virtio_forwarder.Examples.{some_io, some_io-IsIo, mbuf, first_word, a_vio, a_dpdk, a_relay}
use virtio_forwarder.Examples.Adding.{without_vf}

abbrev a_turn : Turn
a_turn = record { vio_lock = true; dpdk_lock = true; down = some_io; up = some_io }

a_turn-IsTurn : IsTurn a_turn
a_turn-IsTurn = record { down_ok = some_io-IsIo; up_ok = some_io-IsIo }

-- A thread on a CPU, with relay 0 in its mask.
abbrev thread_on : ℕ → WorkerThread
thread_on cpu = record {
  cpu = cpu;
  initialized = true;
  running = true;
  must_stop = false;
  need_update = false;
  active_relays = 1;
}

-- A relay with a guest on CPU 2 and without a VF.
abbrev sending : World
sending = record without_vf { worker_threads = set without_vf.worker_threads 2 (thread_on 2) }

abbrev sent :
    (out : WorkerThread × List Relay) × (worker_round first_word
        (λ i. a_turn)
        (thread_on 2)
        sending.relays
      ≡ some out)
unfolding worker_round serve_relays serve_relay forward_down forward_up drain ffs clear_bit
    relay_vm2vf_traffic fetch_tx virtio_rx next_tx_queue test_bit send_tx dpdk_tx
    signal_virtio_removal finish_vf_removal
sent = (_, refl)

without_vf-Balanced : Balanced (
    a_relay
      (a_vio virtio_ready 1 1 1 true (replicate 32 0))
      (a_dpdk dpdk_uninit [] (replicate 32 (mbuf 0))))
without_vf-Balanced = record {
  tx_room = refl;
  tx_fits = omega arith;
  rx_room = refl;
  rx_fits = omega arith;
  down = refl;
  up = refl;
}

sending-AllBalanced : AllBalanced sending.relays
sending-AllBalanced = record { each = each }
  where
    each : (i : ℕ) (r : Relay) → get_elem? sending.relays i ≡ some r → Balanced r
    each zero r e = subst Balanced (some-injective _ _ e) without_vf-Balanced
    each (suc i) r e = cc

Ran-AllBalanced_example : AllBalanced sent.0.1
Ran-AllBalanced_example =
    Ran-AllBalanced first_word sending _ sending-AllBalanced
      (round (λ i. a_turn) 2 (thread_on 2) sent.0.0 (λ i. a_turn-IsTurn) start refl sent.1)
