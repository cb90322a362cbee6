-- ===== src/Examples/Cpus.antt =====
-- The theorems on the choice of CPUs, applied.
use virtio_forwarder.Prelude.{
  ℕ, ◌≤◌, ◌≡◌, refl, true, false, Bool, some, none, [], ◌∷◌, replicate, arith,
}
use virtio_forwarder.Bits.{test_bit}
use virtio_forwarder.Relay.{Relay, virtio_ready, dpdk_ready}
use virtio_forwarder.World.{World, WorkerThread}
use virtio_forwarder.Cpu.{
  eligible, on_node, have_worker_on_node, worker_from, naive_get_idlest_worker,
}
use virtio_forwarder.Cpu.Idlest.{idlest_worker_total, loads_of, load_at}
use virtio_forwarder.Examples.{mbuf, a_vio, a_dpdk, a_relay}

abbrev pub a_thread : ℕ → Bool → WorkerThread
a_thread cpu initialized = record {
  cpu = cpu;
  initialized = initialized;
  running = initialized;
  must_stop = false;
  need_update = false;
  active_relays = 0;
}

-- A relay with a guest on CPU 2 and a VF on CPU 3.
abbrev pub busy : Relay
busy =
    a_relay (a_vio virtio_ready 1 1 1 true (replicate 32 0))
      (a_dpdk dpdk_ready [] (replicate 32 (mbuf 0)))

-- Workers on CPUs 1 to 3, all on node 0.
abbrev pub a_world : World
a_world = record {
  relays = busy ∷ [];
  worker_threads = a_thread 0 false ∷ a_thread 1 true ∷ a_thread 2 true ∷ a_thread 3 true ∷ [];
  worker_core_bitmap = 14;
  relay_cpus = record { vf2vio_cpu = none; vio2vf_cpu = none } ∷ [];
  numanode = 0 ∷ 0 ∷ 0 ∷ 0 ∷ [];
  calls = [];
}

idlest_worker_total_example :
    (c : ℕ) × (naive_get_idlest_worker a_world (some 0) ≡ some c)
    × (eligible a_world (some 0) c ≡ true)
    × (load_at (loads_of a_world) c ≤ load_at (loads_of a_world) 3)
unfolding eligible on_node have_worker_on_node worker_from test_bit
idlest_worker_total_example = idlest_worker_total a_world (some 0) 3 (omega arith) refl
