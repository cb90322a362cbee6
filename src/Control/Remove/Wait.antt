-- ===== src/Control/Remove/Wait.antt =====
-- The waits of the main thread for the workers: virtio_forwarder_remove_vf2 and
-- virtio_forwarder_remove_virtio of virtio_worker.c.
use virtio_forwarder.Prelude.{ℕ, zero, suc, ◌+◌, ◌≤◌, ◌≡◌, Bool, true, Bool-cases, inl, inr, arith}
use virtio_forwarder.World.{World}
use virtio_forwarder.Control.Remove.{wait_until}

-- The globals after `i` sleeps, the first of which is number `k`.
unfoldable pub sleeps : (ℕ → World → World) → (i k : ℕ) → World → World
sleeps sleep zero k w = w
sleeps sleep (suc i) k w = sleeps sleep i (k + 1) (sleep k w)

-- If what is waited for holds after some number `i` of sleeps that is not above the limit `n`, then
-- it holds when the wait ends.
pub wait_until_lem :
    (done : World → Bool) (sleep : ℕ → World → World) (n k i : ℕ) (w : World)
    → i ≤ n
    → done (sleeps sleep i k w) ≡ true
    → done (wait_until done sleep n k w) ≡ true
unfolding wait_until sleeps
wait_until_lem done sleep zero k zero w h e = e
wait_until_lem done sleep zero k (suc i) w h e = absurd (omega arith)
wait_until_lem done sleep (suc n) k zero w h e = rw e e
wait_until_lem done sleep (suc n) k (suc i) w h e = elim (Bool-cases (done w)) [
  | inl now ↦ rw now now
  | inr later ↦ rw later (wait_until_lem done sleep n (k + 1) i (sleep k w) (omega arith) e)
]
