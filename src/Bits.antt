-- ===== src/Bits.antt =====
-- The 64-bit masks of virtio_worker.c and zmq_core_sched.c (`uint64_t` bitmaps): a mask is a
-- number, read by its binary digits. C expressions and their counterparts:
--   (1ULL << k) & b         test_bit b k
--   b | (1ULL << k)         set_bit b k
--   b & ~(1ULL << k)        clear_bit b k
--   __builtin_popcountl     popcount 64
--   __builtin_ffsll         ffs 64 (1 more than the lowest set position, 0 for 0)
pub mod And
pub mod Drain
pub mod Mask
use virtio_forwarder.Prelude.{
  ℕ, zero, suc, ◌+◌, ◌-◌, ◌*◌, ◌/◌, ◌%◌, Bool, true, false, List, [], ◌∷◌, ◌==◌, if◌then◌else◌,
}

unfoldable pub test_bit : ℕ → ℕ → Bool
test_bit b zero = b % 2 == 1
test_bit b (suc k) = test_bit (b / 2) k

unfoldable pub set_bit : ℕ → ℕ → ℕ
set_bit b zero = b / 2 * 2 + 1
set_bit b (suc k) = set_bit (b / 2) k * 2 + b % 2

unfoldable pub clear_bit : ℕ → ℕ → ℕ
clear_bit b zero = b / 2 * 2
clear_bit b (suc k) = clear_bit (b / 2) k * 2 + b % 2

-- The number of ones among the lowest `w` digits.
unfoldable pub popcount : ℕ → ℕ → ℕ
popcount zero b = 0
popcount (suc w) b = b % 2 + popcount w (b / 2)

unfoldable pub ffs : ℕ → ℕ → ℕ
ffs zero b = 0
ffs (suc w) b =
    let rest = ffs w (b / 2) in if b % 2 == 1 then 1 else if rest == 0 then 0 else suc rest

-- The loop `while (b) { v = ffs(b) - 1; b &= ~(1ULL << v); ... }`: the positions in the order in
-- which it visits them. The first argument bounds the rounds.
unfoldable pub drain : ℕ → ℕ → List ℕ
drain zero b = []
drain (suc f) b =
    let v = ffs 64 b - 1 in let rest = drain f (clear_bit b v) in if b == 0 then [] else v ∷ rest

-- The specification: the positions of the ones among the lowest `w` digits, upwards from `i`.
unfoldable pub ones : ℕ → ℕ → ℕ → List ℕ
ones zero i b = []
ones (suc w) i b = let rest = ones w (suc i) (b / 2) in if b % 2 == 1 then i ∷ rest else rest
