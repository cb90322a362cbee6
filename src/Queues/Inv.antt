-- ===== src/Queues/Inv.antt =====
-- What virtio_forwarder_vring_state_change leaves behind.
use virtio_forwarder.Prelude.{
  ℕ, ◌-◌, ◌/◌, ◌%◌, ◌^◌, ◌<◌, ◌≤◌, ◌≡◌, refl, ap, sym, ◌∙◌, bit_and, Bool, true, false, arith, ◌&&◌,
  ◌==◌, if◌then◌else◌, length, take, write_at, read-write_at, length-write_at, inl, inr, Bool-cases,
}
use virtio_forwarder.Bits.{test_bit, popcount, drain, ones}
use virtio_forwarder.Bits.Drain.{drain-eq-ones, popcount-le, popcount_narrow, length-ones}
use virtio_forwarder.Bits.Mask.{
  test_bit-set_self, test_bit-set_ne, test_bit-clear_self, test_bit-clear_ne, set_bit-lt,
  clear_bit-le,
}
use virtio_forwarder.Relay.{RelayVirtio, max_multiqueue_pairs}
use virtio_forwarder.Queues.{change_bit, refresh_queues, vring_state_change}

-- What every change of a queue below 64 keeps: the mask of receive queues fits the table.
pub record Fits (v : RelayVirtio) : Type 0 where
  pub narrow : v.rx_q_bitmap < 2 ^ 32
  pub room : length v.rx_q_lut ≡ max_multiqueue_pairs

-- The derived fields agree with the mask of enabled receive queues.
pub record Agrees (v : RelayVirtio) : Type 0 where
  pub fits : Fits v
  pub active : v.rx_q_active ≡ popcount 64 v.rx_q_bitmap
  pub table : take v.rx_q_active v.rx_q_lut ≡ ones 64 0 v.rx_q_bitmap
  pub cheap : v.pow2queues ≡ (bit_and v.rx_q_active (v.rx_q_active - 1) == 0)

refresh-drain :
    (v : RelayVirtio) → Fits v → drain 64 (v.rx_q_bitmap % 2 ^ 32) ≡ ones 64 0 v.rx_q_bitmap
refresh-drain v f =
    ap (drain 64) (omega (arith, f.narrow))
    ∙ drain-eq-ones 64 v.rx_q_bitmap (omega (arith, f.narrow)) (popcount-le 64 v.rx_q_bitmap)

refresh-table :
    (v : RelayVirtio)
    → Fits v
    → take (popcount 64 v.rx_q_bitmap) (write_at v.rx_q_lut 0 (drain 64 (v.rx_q_bitmap % 2 ^ 32)))
      ≡ ones 64 0 v.rx_q_bitmap
refresh-table v f =
    let size : length (ones 64 0 v.rx_q_bitmap) ≤ length v.rx_q_lut = omega (
      arith,
      length-ones 64 0 v.rx_q_bitmap,
      popcount_narrow 64 32 v.rx_q_bitmap f.narrow,
      f.room,
    ) in
    ap (λ l. take (popcount 64 v.rx_q_bitmap) (write_at v.rx_q_lut 0 l)) (refresh-drain v f)
    ∙ ap (λ n. take n (write_at v.rx_q_lut 0 (ones 64 0 v.rx_q_bitmap)))
        (sym (length-ones 64 0 v.rx_q_bitmap))
    ∙ read-write_at v.rx_q_lut 0 (ones 64 0 v.rx_q_bitmap) (omega arith)

pub refresh_queues-Agrees : (v : RelayVirtio) → Fits v → Agrees (refresh_queues v)
unfolding refresh_queues
refresh_queues-Agrees v f = record {
  fits = record {
    narrow = f.narrow;
    room = length-write_at v.rx_q_lut 0 (drain 64 (v.rx_q_bitmap % 2 ^ 32)) ∙ f.room;
  };
  active = refl;
  table = refresh-table v f;
  cheap = refl;
}

change_bit-lt : (enable : Bool) (k b : ℕ) → k < 32 → b < 2 ^ 32 → change_bit enable b k < 2 ^ 32
change_bit-lt true k b h lt = set_bit-lt 32 k b h lt
change_bit-lt false k b h lt = omega (arith, clear_bit-le k b)

pub test_bit-change :
    (enable : Bool) (k j b : ℕ)
    → test_bit (change_bit enable b k) j ≡ (if k == j then enable else test_bit b j)
test_bit-change true k j b = elim (Bool-cases (k == j)) [
  | inl same ↦ let e : k ≡ j = ground arith in rw same (rw (← e) (test_bit-set_self k b))
  | inr other ↦ rw other (test_bit-set_ne k j b (ground arith))
]
test_bit-change false k j b = elim (Bool-cases (k == j)) [
  | inl same ↦ let e : k ≡ j = ground arith in rw same (rw (← e) (test_bit-clear_self k b))
  | inr other ↦ rw other (test_bit-clear_ne k j b (ground arith))
]

-- A change of queue `queue_id` below 64 (pair `queue_id / 2`; odd queues send, even ones receive)
-- sets the bit of that pair in the mask of its direction to `enable`, leaves every other bit of
-- both masks, and makes the number of active queues, the lookup table and the power-of-two flag
-- agree with the new mask of receive queues.
pub vring_state_change_lem :
    (queue_id : ℕ) (enable : Bool) (v : RelayVirtio)
    → queue_id < 64
    → Fits v
    → let v' = vring_state_change queue_id enable v in
      Agrees v'
      × ((j : ℕ)
          → test_bit v'.rx_q_bitmap j
            ≡ (if queue_id % 2 == 0 && queue_id / 2 == j then enable else test_bit v.rx_q_bitmap j))
      × ((j : ℕ)
          → test_bit v'.tx_q_bitmap j
            ≡ (if queue_id % 2 == 1 && queue_id / 2 == j then enable else test_bit v.tx_q_bitmap j))
unfolding vring_state_change refresh_queues
vring_state_change_lem q enable v h f = elim (Bool-cases (q % 2 == 1)) [
  | inl odd ↦
      let even : (q % 2 == 0) ≡ false = ground arith in
      let w = record v { tx_q_bitmap = change_bit enable v.tx_q_bitmap (q / 2) } in
      rw (odd, even)
        (
          refresh_queues-Agrees w (record { narrow = f.narrow; room = f.room }),
          (λ j. refl),
          λ j. test_bit-change enable (q / 2) j v.tx_q_bitmap,
        )
  | inr even ↦
      let zero : (q % 2 == 0) ≡ true = ground arith in
      let w = record v { rx_q_bitmap = change_bit enable v.rx_q_bitmap (q / 2) } in
      let narrow = change_bit-lt enable (q / 2) v.rx_q_bitmap (omega arith) f.narrow in
      rw (even, zero)
        (
          refresh_queues-Agrees w (record { narrow = narrow; room = f.room }),
          (λ j. test_bit-change enable (q / 2) j v.rx_q_bitmap),
          λ j. refl,
        )
]
