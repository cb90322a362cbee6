-- ===== src/Cpu.antt =====
-- Which CPU serves which direction of a relay (virtio_worker.c): naive_get_idlest_worker, the two
-- find functions, update_thread and migrate_relay_cpus.
pub mod Idlest
pub mod Active
use virtio_forwarder.Prelude.{
  and_then, ℕ, zero, suc, ◌+◌, ◌*◌, ◌-◌, Bool, true, false, not, ◌&&◌, ◌||◌, Option, none, some,
  List, [], ◌∷◌, ◌==◌, ltb, leb, if◌then◌else◌, length, get_elem?, set, replicate, bit_and,
}
use virtio_forwarder.Prelude.Int.{ℤ, pos, negsuc}
use virtio_forwarder.Bits.{test_bit, set_bit}
use virtio_forwarder.Relay.{
  Relay, VioState, DpdkState, virtio_uninit, virtio_ready, virtio_removing1, virtio_removing2,
  dpdk_uninit, dpdk_added, dpdk_ready, dpdk_removing1, dpdk_removing2, is_virtio_ready, max_cpus,
}
use virtio_forwarder.World.{
  World, WorkerThread, RelayCpus, M, ◌>>=◌, ◌>>◌, pure, fault, get_relay, update_relay,
  get_relay_cpus, get_thread, mark_update,
}

abbrev pub is_added_or_ready : DpdkState → Bool
is_added_or_ready dpdk_added = true
is_added_or_ready dpdk_ready = true
is_added_or_ready _ = false

-- `-1` is no CPU.
abbrev pub is_cpu : Option ℕ → ℕ → Bool
is_cpu none cpu = false
is_cpu (some c) cpu = c == cpu

-- `cpu_workers[cpu] += weight`, for a direction that is in use and has a CPU.
unfoldable pub add_load : Bool → Option ℕ → ℕ → List ℕ → List ℕ
add_load false cpu weight loads = loads
add_load true none weight loads = loads
add_load true (some cpu) weight [] = []
add_load true (some zero) weight (n ∷ loads) = (n + weight) ∷ loads
add_load true (some (suc cpu)) weight (n ∷ loads) = n ∷ add_load true (some cpu) weight loads

unfoldable pub relay_load : Relay → List ℕ → List ℕ
unfolding add_load
relay_load r loads =
    add_load (is_virtio_ready r.vio.state) r.vio.vio2vf_cpu 10
      (add_load (is_added_or_ready r.dpdk.state) r.dpdk.vf2vio_cpu 12 loads)

-- The first loop of naive_get_idlest_worker, over the relays.
unfoldable pub cpu_workers : List Relay → List ℕ → List ℕ
cpu_workers [] loads = loads
cpu_workers (r ∷ rs) loads = cpu_workers rs (relay_load r loads)

-- have_worker_on_node: the CPUs from `i` on, by their NUMA nodes.
unfoldable pub worker_from : ℕ → ℕ → ℕ → List ℕ → Bool
worker_from node bitmap i [] = false
worker_from node bitmap i (n ∷ nodes) =
    (n == node && test_bit bitmap i) || worker_from node bitmap (i + 1) nodes

unfoldable pub have_worker_on_node : World → ℕ → Bool
unfolding worker_from
have_worker_on_node w node = worker_from node w.worker_core_bitmap 0 w.numanode

-- A CPU that the second loop considers: on the node, if one is given that has a worker; in the mask
-- of worker CPUs; and with an initialized thread.
unfoldable pub on_node : World → Option ℕ → ℕ → Bool
unfolding have_worker_on_node
on_node w none cpu = true
on_node w (some node) cpu =
    not (have_worker_on_node w node)
    || elim (get_elem? w.numanode cpu) [ none ↦ false | some n ↦ n == node ]

unfoldable pub eligible : World → Option ℕ → ℕ → Bool
eligible w node cpu =
    on_node w node cpu
    && test_bit w.worker_core_bitmap cpu
    && elim (get_elem? w.worker_threads cpu) [ none ↦ false | some t ↦ t.initialized ]

-- The second loop, from CPU `cpu` on; the option holds `min_index` and `min`.
unfoldable pub idlest_from : (ℕ → Bool) → ℕ → List ℕ → Option (ℕ × ℕ) → Option (ℕ × ℕ)
idlest_from ok cpu [] best = best
idlest_from ok cpu (n ∷ loads) best =
    let better : Bool = elim best [ none ↦ true | some (c, m) ↦ ltb n m ] in
    idlest_from ok (cpu + 1) loads (if ok cpu && better then some (cpu, n) else best)

abbrev pub index_of : Option (ℕ × ℕ) → Option ℕ
index_of none = none
index_of (some (cpu, load)) = some cpu

unfoldable pub naive_get_idlest_worker : World → Option ℕ → Option ℕ
unfolding cpu_workers relay_load idlest_from eligible on_node
naive_get_idlest_worker w node =
    index_of (idlest_from (eligible w node) 0 (cpu_workers w.relays (replicate max_cpus 0)) none)

-- The idlest worker; `assert(idlest_cpu >= 0)`.
unfoldable pub pick_worker : Option ℕ → M ℕ
pick_worker socket w = and_then (naive_get_idlest_worker w socket) λ cpu. some (cpu, w)

-- `need_update` of the thread of a CPU, if there is one.
abbrev pub release_cpu : Option ℕ → M (Unit {0})
release_cpu none = pure tt
release_cpu (some cpu) = mark_update cpu

abbrev pub set_vf2vio_cpu : ℕ → Option ℕ → M (Unit {0})
set_vf2vio_cpu id cpu =
    update_relay id λ r. record r { dpdk = record (r.dpdk) { vf2vio_cpu = cpu } }

abbrev pub set_vio2vf_cpu : ℕ → Option ℕ → M (Unit {0})
set_vio2vf_cpu id cpu = update_relay id λ r. record r { vio = record (r.vio) { vio2vf_cpu = cpu } }

-- The branch of find_vf2virtio_cpu without a configured CPU.
unfoldable pub search_vf2virtio_cpu : ℕ → M (Unit {0})
search_vf2virtio_cpu id = do
  r ← get_relay id
  release_cpu r.dpdk.vf2vio_cpu
  set_vf2vio_cpu id none
  cpu ← pick_worker r.vio.mempool_socket_id
  set_vf2vio_cpu id (some cpu)

abbrev pub use_vf2virtio_cpu : ℕ → Option ℕ → M (Unit {0})
use_vf2virtio_cpu id none = search_vf2virtio_cpu id
use_vf2virtio_cpu id (some cpu) = set_vf2vio_cpu id (some cpu)

-- find_vf2virtio_cpu for relay `id`.
unfoldable pub find_vf2virtio_cpu : ℕ → M (Unit {0})
find_vf2virtio_cpu id = do conf ← get_relay_cpus id; use_vf2virtio_cpu id conf.vf2vio_cpu

unfoldable pub search_virtio2vf_cpu : ℕ → M (Unit {0})
search_virtio2vf_cpu id = do
  r ← get_relay id
  release_cpu r.vio.vio2vf_cpu
  set_vio2vf_cpu id none
  cpu ← pick_worker r.vio.mempool_socket_id
  set_vio2vf_cpu id (some cpu)

abbrev pub use_virtio2vf_cpu : ℕ → Option ℕ → M (Unit {0})
use_virtio2vf_cpu id none = search_virtio2vf_cpu id
use_virtio2vf_cpu id (some cpu) = set_vio2vf_cpu id (some cpu)

-- find_virtio2vf_cpu for relay `id`.
unfoldable pub find_virtio2vf_cpu : ℕ → M (Unit {0})
find_virtio2vf_cpu id = do conf ← get_relay_cpus id; use_virtio2vf_cpu id conf.vio2vf_cpu

abbrev pub is_dpdk_uninit : DpdkState → Bool
is_dpdk_uninit dpdk_uninit = true
is_dpdk_uninit _ = false

abbrev pub is_virtio_uninit : VioState → Bool
is_virtio_uninit virtio_uninit = true
is_virtio_uninit _ = false

-- A thread serves a relay if one direction of it is in use and on the CPU of the thread.
unfoldable pub serves : ℕ → Relay → Bool
serves cpu r =
    (not (is_dpdk_uninit r.dpdk.state) && is_cpu r.dpdk.vf2vio_cpu cpu)
    || (not (is_virtio_uninit r.vio.state) && is_cpu r.vio.vio2vf_cpu cpu)

-- The loop of update_thread, from relay `w` on.
pub active_from : ℕ → ℕ → List Relay → ℕ → ℕ
unfolding serves
active_from cpu w [] active = active
active_from cpu w (r ∷ rs) active =
    active_from cpu (w + 1) rs (if serves cpu r then set_bit active w else active)

pub update_thread : List Relay → WorkerThread → WorkerThread
unfolding active_from
update_thread relays t = record t {
  need_update = false;
  active_relays = active_from t.cpu 0 relays 0;
}

-- migrate_relay_cpus: the test of the new CPUs against the mask uses `!` on the mask.
unfoldable pub bad_cpus : ℕ → ℕ → ℕ → Bool
bad_cpus bitmap a b = not (bit_and (set_bit (set_bit 0 a) b) (if bitmap == 0 then 1 else 0) == 0)

-- The direction goes to the new CPU; both threads have to look at their relays again.
unfoldable pub assign_virtio2vf : ℕ → ℕ → Relay → M (Unit {0})
assign_virtio2vf id cpu r = do
  set_vio2vf_cpu id (some cpu)
  elim r.vio.vio2vf_cpu [ none ↦ fault | some old ↦ mark_update old ]
  mark_update cpu

unfoldable pub assign_vf2virtio : ℕ → ℕ → Relay → M (Unit {0})
assign_vf2virtio id cpu r = do
  set_vf2vio_cpu id (some cpu)
  elim r.dpdk.vf2vio_cpu [ none ↦ fault | some old ↦ mark_update old ]
  mark_update cpu

unfoldable pub move_virtio2vf : ℕ → ℕ → M (Unit {0})
unfolding assign_virtio2vf
move_virtio2vf id cpu = do
  t ← get_thread cpu
  if not t.initialized then pure tt else (do
    r ← get_relay id
    let moves = is_virtio_ready r.vio.state && not (is_cpu r.vio.vio2vf_cpu cpu)
    if moves then assign_virtio2vf id cpu r else pure tt)

unfoldable pub move_vf2virtio : ℕ → ℕ → M (Unit {0})
unfolding assign_vf2virtio
move_vf2virtio id cpu = do
  t ← get_thread cpu
  if not t.initialized then pure tt else (do
    r ← get_relay id
    let moves = is_added_or_ready r.dpdk.state && not (is_cpu r.dpdk.vf2vio_cpu cpu)
    if moves then assign_vf2virtio id cpu r else pure tt)

unfoldable pub migrate_relay_cpus : ℕ → ℕ → ℕ → M ℤ
unfolding bad_cpus move_virtio2vf move_vf2virtio
migrate_relay_cpus id new_virtio2vf_cpu new_vf2virtio_cpu w =
    if bad_cpus w.worker_core_bitmap new_virtio2vf_cpu new_vf2virtio_cpu
    then some (negsuc 0, w)
    else (do move_virtio2vf id new_virtio2vf_cpu; move_vf2virtio id new_vf2virtio_cpu; pure (pos 0))
        w
