-- ===== src/Cpu/Active.antt =====
-- What update_thread of virtio_worker.c leaves in the mask of a worker thread.
use virtio_forwarder.Prelude.{
  ℕ, zero, suc, ◌+◌, ◌<◌, ◌≤◌, ◌≡◌, refl, ap, ◌∙◌, Bool, true, false, Option, none, some, List, [],
  ◌∷◌, arith, if◌then◌else◌, get_elem?, Bool-cases, inl, inr,
}
use virtio_forwarder.Bits.{test_bit, set_bit}
use virtio_forwarder.Bits.Mask.{test_bit-zero, test_bit-set_self, test_bit-set_ne}
use virtio_forwarder.Relay.{Relay}
use virtio_forwarder.World.{WorkerThread}
use virtio_forwarder.Cpu.{serves, active_from, update_thread}

-- Whether the thread of a CPU serves the relay at an index; no relay, no service.
abbrev pub serves_at : ℕ → Option Relay → Bool
serves_at cpu none = false
serves_at cpu (some r) = serves cpu r

active_from-low :
    (cpu w : ℕ) (rs : List Relay) (active j : ℕ)
    → j < w
    → test_bit (active_from cpu w rs active) j ≡ test_bit active j
unfolding active_from
active_from-low cpu w [] active j lt = refl
active_from-low cpu w (r ∷ rs) active j lt = elim (Bool-cases (serves cpu r)) [
  | inl on ↦ rw on (
      active_from-low cpu (w + 1) rs (set_bit active w) j (omega (arith, lt))
      ∙ test_bit-set_ne w j active (omega arith))
  | inr off ↦ rw off (active_from-low cpu (w + 1) rs active j (omega (arith, lt)))
]

mark-clear :
    (b : Bool) (w active : ℕ)
    → ((j : ℕ) → w ≤ j → test_bit active j ≡ false)
    → (j : ℕ) → w + 1 ≤ j
    → test_bit (if b then set_bit active w else active) j ≡ false
mark-clear true w active clear j h =
    test_bit-set_ne w j active (omega (arith, h)) ∙ clear j (omega (arith, h))
mark-clear false w active clear j h = clear j (omega (arith, h))

active_from-at :
    (cpu w : ℕ) (rs : List Relay) (active : ℕ)
    → ((j : ℕ) → w ≤ j → test_bit active j ≡ false)
    → (i : ℕ) → test_bit (active_from cpu w rs active) (w + i) ≡ serves_at cpu (get_elem? rs i)
unfolding active_from
active_from-at cpu w [] active clear i = clear (w + i) (omega arith)
active_from-at cpu w (r ∷ rs) active clear zero =
    ap (test_bit (active_from cpu w (r ∷ rs) active)) (let e : w + 0 ≡ w = omega arith in e)
    ∙ active_from-low cpu (w + 1) rs _ w (omega arith)
    ∙ elim (Bool-cases (serves cpu r))
        as (λ _. test_bit (if serves cpu r then set_bit active w else active) w ≡ serves cpu r) [
          | inl on ↦ rw on (test_bit-set_self w active)
          | inr off ↦ rw off (clear w (omega arith))
        ]
active_from-at cpu w (r ∷ rs) active clear (suc i) =
    ap (test_bit (active_from cpu w (r ∷ rs) active))
      (let e : w + suc i ≡ w + 1 + i = omega arith in e)
    ∙ active_from-at cpu (w + 1) rs _ (mark-clear (serves cpu r) w active clear) i

-- After update_thread the mask of a thread has exactly the ones of the relays that it serves: bit
-- `i` is set if and only if there is a relay `i` with a direction in use on the CPU of the thread.
pub update_thread_lem :
    (relays : List Relay) (t : WorkerThread) (i : ℕ)
    → test_bit (update_thread relays t).active_relays i ≡ serves_at t.cpu (get_elem? relays i)
unfolding update_thread
update_thread_lem relays t i =
    ap (test_bit (active_from t.cpu 0 relays 0)) (let e : i ≡ 0 + i = omega arith in e)
    ∙ active_from-at t.cpu 0 relays 0 (λ j _. test_bit-zero j) i
