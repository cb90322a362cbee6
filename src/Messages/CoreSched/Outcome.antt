-- ===== src/Messages/CoreSched/Outcome.antt =====
-- The reply that tells the worker CPUs, and a relay number that the validation should refuse.
use virtio_forwarder.Prelude.{
  ℕ, ◌≤◌, ◌<◌, ◌^◌, ◌%◌, true, false, not, none, some, List, [], ◌∷◌, ◌==◌, ◌≡◌, ◌≢◌, refl, ◌∙◌, ap,
  arith, get_elem?, length, inl, inr, Bool-cases, Option-cases, ==_iff, and_then, ◌⊎◌,
}
use virtio_forwarder.Prelude.Int.{ℤ, pos}
use virtio_forwarder.Bits.{drain, ones, popcount}
use virtio_forwarder.Bits.Drain.{drain-eq-ones, length-ones, popcount-le}
use virtio_forwarder.Bits.And.{bit_and_low}
use virtio_forwarder.World.{World, WorkerThread, get_relay, get_thread}
use virtio_forwarder.Cpu.{migrate_relay_cpus, move_virtio2vf, move_vf2virtio, bad_cpus}
use virtio_forwarder.Messages.CoreSched.{
  op_update, op_get_eal_cores, CoreSchedRequest, CoreSchedResponse, validate_CoreSchedRequest,
  set_error_code, update_cpus, cores_reply, get_eal_cores, handle_CoreSchedRequest,
}

-- The reply for a list of cores.
cores_reply_lem :
    (cs : List ℕ) (w : World)
    → (r : CoreSchedResponse) × (cores_reply cs w ≡ some (r, w))
      × (r.eal_cores ≡ cs)
      × (r.ok ≡ not (length cs == 0))
unfolding set_error_code
cores_reply_lem [] w = (_, refl, refl, refl)
cores_reply_lem (c ∷ cs) w = (_, refl, refl, ground arith)

-- A request for the worker CPUs that is valid is answered and changes nothing: the reply holds
-- exactly the ones of the mask, upwards, which the buffer of 64 entries has room for, and its
-- status is OK if and only if there is one.
pub get_eal_cores_lem :
    (pc : CoreSchedRequest) (w : World)
    → pc.op ≡ op_get_eal_cores
    → validate_CoreSchedRequest (length w.relays) pc.relay_cpu_map ≡ true
    → w.worker_core_bitmap < 2 ^ 64
    → (r : CoreSchedResponse) × (handle_CoreSchedRequest (some pc) w ≡ some (r, w))
      × (r.eal_cores ≡ ones 64 0 w.worker_core_bitmap)
      × (length r.eal_cores ≤ 64)
      × (r.ok ≡ not (popcount 64 w.worker_core_bitmap == 0))
unfolding handle_CoreSchedRequest get_eal_cores
get_eal_cores_lem pc w is_get valid fits =
    let (r, e, cores, ok) = cores_reply_lem (drain 64 w.worker_core_bitmap) w in
    let all = drain-eq-ones 64 w.worker_core_bitmap fits (popcount-le 64 w.worker_core_bitmap) in
    (
      r,
      rw (valid, is_get) e,
      cores ∙ all,
      omega (
        arith,
        ap length (cores ∙ all),
        length-ones 64 0 w.worker_core_bitmap,
        popcount-le 64 w.worker_core_bitmap,
      ),
      ok ∙ ap (λ n. not (n == 0)) (ap length all ∙ length-ones 64 0 w.worker_core_bitmap),
    )

get_elem?-length : {A : Type 0} (xs : List A) → get_elem? xs (length xs) ≡ none
get_elem?-length [] = refl
get_elem?-length (x ∷ xs) = get_elem?-length xs

-- The test of the CPUs refuses none, if there is a worker CPU.
bad_cpus-false : (bitmap a b : ℕ) → bitmap ≢ 0 → bad_cpus bitmap a b ≡ false
unfolding bad_cpus
bad_cpus-false bitmap a b ne = elim (Bool-cases (bitmap == 0)) [
  | inl z ↦ absurd (ne ((==_iff bitmap 0).0 z))
  | inr nz ↦ rw nz (ap (λ n. not (n == 0)) (bit_and_low 0 _ ∙ mod_one _))
]
  where
    mod_one : (n : ℕ) → n % 2 ^ 0 ≡ 0
    mod_one n = omega arith

-- The thread on a CPU is one of the workers.
abbrev pub IsInitialized : World → ℕ → Type 0
IsInitialized w cpu =
    (t : WorkerThread) × (get_elem? w.worker_threads cpu ≡ some t) × (t.initialized ≡ true)

-- A relay outside the table is read for a CPU whose thread is initialized.
move_virtio2vf-none :
    (id cpu : ℕ) (w : World)
    → get_elem? w.relays id ≡ none
    → IsInitialized w cpu
    → move_virtio2vf id cpu w ≡ none
unfolding move_virtio2vf get_relay get_thread
move_virtio2vf-none id cpu w e (t, at, on) = rw (at, and_then) (rw on (rw e refl))

move_vf2virtio-none :
    (id cpu : ℕ) (w : World)
    → get_elem? w.relays id ≡ none
    → IsInitialized w cpu
    → move_vf2virtio id cpu w ≡ none
unfolding move_vf2virtio get_relay get_thread
move_vf2virtio-none id cpu w e (t, at, on) = rw (at, and_then) (rw on (rw e refl))

-- For any other CPU nothing is done, unless the CPU itself is outside the table of threads.
move_virtio2vf-skips :
    (id cpu : ℕ) (w : World)
    → get_elem? w.relays id ≡ none
    → (move_virtio2vf id cpu w ≡ none) ⊎ (move_virtio2vf id cpu w ≡ some (tt, w))
unfolding move_virtio2vf get_relay get_thread
move_virtio2vf-skips id cpu w e = elim (Option-cases (get_elem? w.worker_threads cpu)) [
  | inl off ↦ inl (rw off refl)
  | inr (t, at) ↦ elim (Bool-cases t.initialized) [
    | inl on ↦ inl (rw at (rw on (rw e refl)))
    | inr off ↦ inr (rw at (rw off refl))
  ]
]

migrate-none :
    (id a b : ℕ) (w : World)
    → w.worker_core_bitmap ≢ 0
    → get_elem? w.relays id ≡ none
    → IsInitialized w a ⊎ IsInitialized w b
    → migrate_relay_cpus id a b w ≡ none
unfolding migrate_relay_cpus
migrate-none id a b w ne e (inl on) =
    rw (bad_cpus-false w.worker_core_bitmap a b ne, move_virtio2vf-none id a w e on) refl
migrate-none id a b w ne e (inr on) =
    rw (bad_cpus-false w.worker_core_bitmap a b ne) (elim (move_virtio2vf-skips id a w e) [
      | inl off ↦ rw off refl
      | inr skip ↦ rw (skip, move_vf2virtio-none id b w e on) refl
    ])

validate-last :
    (n : ℕ) (a b : ℤ)
    → validate_CoreSchedRequest n
        (record { relay_number = pos n; virtio2vf_cpu = a; vf2virtio_cpu = b } ∷ [])
      ≡ true
unfolding validate_CoreSchedRequest
validate-last n a b = ground arith

-- A request to move a relay whose number is the number of relays is found valid and reads outside
-- the table of relays, if the mask of worker CPUs is not empty and the thread on one of the two
-- CPUs of the request is initialized.
pub relay_number_overflow :
    (w : World) (a b : ℕ)
    → w.worker_core_bitmap ≢ 0
    → IsInitialized w a ⊎ IsInitialized w b
    → handle_CoreSchedRequest
        (some (record {
          op = op_update;
          relay_cpu_map =
              record {
                relay_number = pos (length w.relays);
                virtio2vf_cpu = pos a;
                vf2virtio_cpu = pos b;
              }
              ∷ [];
        }))
        w
      ≡ none
unfolding handle_CoreSchedRequest update_cpus
relay_number_overflow w a b ne on =
    rw
      (
        validate-last (length w.relays) (pos a) (pos b),
        migrate-none (length w.relays) a b w ne (get_elem?-length w.relays) on,
      )
      refl
