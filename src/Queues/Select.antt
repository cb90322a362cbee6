-- ===== src/Queues/Select.antt =====
-- The queue that calc_mbuf_queue picks.
use virtio_forwarder.Prelude.{
  ℕ, zero, suc, ◌-◌, ◌%◌, ◌<◌, ◌≤◌, ◌≡◌, ◌≢◌, refl, ap, sym, ◌∙◌, bit_and, true, false, List, [],
  ◌∷◌, arith, ◌==◌, length, take, inl, inr, Bool-cases, some, get_elem?, All, All-get_elem?,
  get_elem?-of_lt, map, >>=-eq-some, lt-of_get_elem?,
}
use native.Mathlib.Nat.{mod-lt, le_refl}
use virtio_forwarder.Bits.{test_bit, ones}
use virtio_forwarder.Bits.And.{bit_and_low, power_of_two}
use virtio_forwarder.Bits.Drain.{length-ones}
use mathlib.Core.Option.{some-injective}
use virtio_forwarder.Bits.Mask.{IsOne, ones-IsOne, test_bit-above}
use virtio_forwarder.Relay.{RelayVirtio, Mbuf}
use virtio_forwarder.Relay.Hash.{calc_eth_header_hash}
use virtio_forwarder.Queues.{lut_index, queue_of, calc_mbuf_queue}
use virtio_forwarder.Queues.Inv.{Agrees}

get_elem?-take {ℓ} :
    {A : Type ℓ} (n i : ℕ) (xs : List A) → i < n → get_elem? (take n xs) i ≡ get_elem? xs i
get_elem?-take zero i xs h = elim h [ ]
get_elem?-take (suc n) i [] h = refl
get_elem?-take (suc n) zero (x ∷ xs) h = refl
get_elem?-take (suc n) (suc i) (x ∷ xs) h = get_elem?-take n i xs (omega arith)

-- The cheap way to reduce a hash, by the low bits, gives the remainder by the number of queues.
pub lut_index-eq-mod :
    (v : RelayVirtio) (h : ℕ) → Agrees v → v.rx_q_active ≢ 0 → lut_index v h ≡ h % v.rx_q_active
unfolding lut_index
lut_index-eq-mod v h a ne = elim (Bool-cases v.pow2queues) [
  | inl pow2 ↦
      let zero_and : bit_and v.rx_q_active (v.rx_q_active - 1) ≡ 0 = ground (arith, a.cheap) in
      let (k, e) = power_of_two v.rx_q_active v.rx_q_active (le_refl _) ne zero_and in
      rw pow2
        (ap (λ (n : ℕ). bit_and h (n - 1)) e ∙ bit_and_low k h ∙ ap (λ (n : ℕ). h % n) (sym e))
  | inr plain ↦ rw plain refl
]

module _ (jhash : List ℕ → ℕ → ℕ) (v : RelayVirtio) (a : Agrees v) (ne : v.rx_q_active ≢ 0) where
  abbrev hash_of : Mbuf → ℕ
  hash_of m = calc_eth_header_hash jhash m.header

  -- With the fields in agreement and a receive queue enabled, every packet is given a queue: the
  -- entry of the list of enabled queues at the remainder of its header hash, an enabled queue.
  pub queue_of-enabled :
      (m : Mbuf)
      → (q : ℕ) × (queue_of jhash v m ≡ some q)
        × (get_elem? (ones 64 0 v.rx_q_bitmap) (hash_of m % v.rx_q_active) ≡ some q)
        × (test_bit v.rx_q_bitmap q ≡ true)
  unfolding queue_of
  queue_of-enabled m =
      let n = v.rx_q_active in
      let h = hash_of m in
      let inside : h % n < n = mod-lt h (omega arith) in
      let listed = ones 64 0 v.rx_q_bitmap in
      let size : length listed ≡ n = omega (arith, length-ones 64 0 v.rx_q_bitmap, a.active) in
      let (q, at) = get_elem?-of_lt listed (h % n) (omega arith) in
      let entry =
        sym (get_elem?-take n (h % n) v.rx_q_lut inside)
        ∙ ap (λ l. get_elem? l (h % n)) a.table
        ∙ at in
      let is_one =
        All-get_elem? (IsOne 64 0 v.rx_q_bitmap) listed (h % n) (ones-IsOne 64 0 v.rx_q_bitmap)
          at in
      let nz : (n == 0) ≡ false = ground arith in
      (
        q,
        rw (nz, lut_index-eq-mod v h a ne) entry,
        at,
        ap (test_bit v.rx_q_bitmap) (omega arith) ∙ is_one.2,
      )

  abbrev HasQueue : Mbuf → Type 0
  HasQueue m = test_bit v.rx_q_bitmap m.fdir_id ≡ true

  -- What a packet is, whatever queue it has been given.
  abbrev unmarked : Mbuf → Mbuf
  unmarked m = record m { fdir_id = 0 }

  -- calc_mbuf_queue ends without a fault, gives every packet of the burst an enabled queue, and
  -- changes nothing else of the packets nor their order.
  pub calc_mbuf_queue_total :
      (ms : List Mbuf)
      → (out : List Mbuf) × (calc_mbuf_queue jhash v ms ≡ some out)
        × All HasQueue out
        × (map unmarked out ≡ map unmarked ms)
  unfolding calc_mbuf_queue
  calc_mbuf_queue_total [] = ([], refl, tt, refl)
  calc_mbuf_queue_total (m ∷ ms) =
      let (q, picked, at, enabled) = queue_of-enabled m in
      let (rest, done, good, same) = calc_mbuf_queue_total ms in
      (
        record m { fdir_id = q } ∷ rest,
        rw (picked, done, calc_mbuf_queue),
        (enabled, good),
        ap (λ l. unmarked m ∷ l) same,
      )

pub length-calc_mbuf_queue :
    (jhash : List ℕ → ℕ → ℕ) (v : RelayVirtio) (ms : List Mbuf) {out : List Mbuf}
    → calc_mbuf_queue jhash v ms ≡ some out
    → length out ≡ length ms
unfolding calc_mbuf_queue
length-calc_mbuf_queue jhash v [] e = ground arith
length-calc_mbuf_queue jhash v (m ∷ ms) e =
    let (q, e1, e2) = >>=-eq-some (queue_of jhash v m) _ e in
    let (rest, e3, e4) = >>=-eq-some (calc_mbuf_queue jhash v ms) _ e2 in
    ground (arith, length-calc_mbuf_queue jhash v ms e3)

pub get_elem?-calc_mbuf_queue :
    (jhash : List ℕ → ℕ → ℕ) (v : RelayVirtio) (ms : List Mbuf) (i q : ℕ) {out : List Mbuf}
    {m : Mbuf}
    → calc_mbuf_queue jhash v ms ≡ some out
    → get_elem? ms i ≡ some m
    → queue_of jhash v m ≡ some q
    → get_elem? out i ≡ some (record m { fdir_id = q })
unfolding calc_mbuf_queue
get_elem?-calc_mbuf_queue jhash v [] i q e at picked = cc
get_elem?-calc_mbuf_queue jhash v (n ∷ ms) zero q e at picked =
    let (p, e1, e2) = >>=-eq-some (queue_of jhash v n) _ e in
    let (rest, e3, e4) = >>=-eq-some (calc_mbuf_queue jhash v ms) _ e2 in ground arith
get_elem?-calc_mbuf_queue jhash v (n ∷ ms) (suc i) q e at picked =
    let (p, e1, e2) = >>=-eq-some (queue_of jhash v n) _ e in
    let (rest, e3, e4) = >>=-eq-some (calc_mbuf_queue jhash v ms) _ e2 in
    let later = get_elem?-calc_mbuf_queue jhash v ms i q e3 at picked in
    ap (λ l. get_elem? l (suc i)) (sym (some-injective _ _ e4)) ∙ later

-- A packet that is given a queue other than 0 shows that more than queue 0 is enabled.
pub many_queues :
    (v : RelayVirtio) (j k : ℕ)
    → Agrees v
    → get_elem? (ones 64 0 v.rx_q_bitmap) j ≡ some k
    → v.rx_q_active ≤ k
    → 1 < v.rx_q_bitmap
many_queues v j k a at high =
    let listed = ones 64 0 v.rx_q_bitmap in
    let some_active : 0 < k =
      omega (arith, lt-of_get_elem? listed j at, length-ones 64 0 v.rx_q_bitmap, a.active) in
    let one =
      All-get_elem? (IsOne 64 0 v.rx_q_bitmap) listed j (ones-IsOne 64 0 v.rx_q_bitmap) at in
    test_bit-above v.rx_q_bitmap (k - 0) (omega arith) one.2

-- A table with an entry is not empty.
pub active-ne-zero :
    (v : RelayVirtio) (j : ℕ) {k : ℕ}
    → Agrees v
    → get_elem? (ones 64 0 v.rx_q_bitmap) j ≡ some k
    → v.rx_q_active ≢ 0
active-ne-zero v j a at =
    let below = lt-of_get_elem? (ones 64 0 v.rx_q_bitmap) j at in
    omega (arith, length-ones 64 0 v.rx_q_bitmap, a.active)
