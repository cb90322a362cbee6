-- ===== src/Queues.antt =====
-- The receive queues of a relay (virtio_worker.c): virtio_forwarder_vring_state_change keeps the
-- masks of enabled queues and the lookup table, calc_mbuf_queue picks a queue for each packet.
pub mod Inv
pub mod Select
use virtio_forwarder.Prelude.{
  ℕ, zero, suc, ◌+◌, ◌-◌, ◌*◌, ◌/◌, ◌%◌, ◌^◌, bit_and, Bool, true, false, Option, none, some, List,
  [], ◌∷◌, ◌==◌, ◌>>=◌, ltb, if◌then◌else◌, get_elem?, write_at, length,
}
use virtio_forwarder.Bits.{set_bit, clear_bit, popcount, drain}
use virtio_forwarder.Relay.{RelayVirtio, Relay, Mbuf}
use virtio_forwarder.Relay.Hash.{calc_eth_header_hash}

-- The mask of one direction after the change of one queue pair.
abbrev pub change_bit : Bool → ℕ → ℕ → ℕ
change_bit true b k = set_bit b k
change_bit false b k = clear_bit b k

-- The derived fields. `bmp` is an `unsigned`: it keeps the low 32 bits of `rx_q_bitmap`; the loop
-- writes the positions of its ones into the table, whose `max_multiqueue_pairs` entries they fit.
unfoldable pub refresh_queues : RelayVirtio → RelayVirtio
refresh_queues v =
    let active = popcount 64 v.rx_q_bitmap in
    let bmp = v.rx_q_bitmap % 2 ^ 32 in
    record v {
      pow2queues = bit_and active (active - 1) == 0;
      rx_q_lut = write_at v.rx_q_lut 0 (drain 64 bmp);
      rx_q_active = active;
    }

-- virtio_forwarder_vring_state_change on the relay that `id` names: odd queues are TX, even RX.
unfoldable pub vring_state_change : ℕ → Bool → RelayVirtio → RelayVirtio
unfolding refresh_queues
vring_state_change queue_id enable v =
    let shiftwidth = queue_id / 2 in
    refresh_queues (
      if queue_id % 2 == 1
      then record v { tx_q_bitmap = change_bit enable v.tx_q_bitmap shiftwidth }
      else record v { rx_q_bitmap = change_bit enable v.rx_q_bitmap shiftwidth })

-- The index into the lookup table: the low bits of the hash, or the remainder.
pub lut_index : RelayVirtio → ℕ → ℕ
lut_index v h = if v.pow2queues then bit_and h (v.rx_q_active - 1) else h % v.rx_q_active

-- The loop of calc_mbuf_queue; `none`: no receive queue is active (the caller then makes
-- no call), or a read outside the table.
module _ (jhash : List ℕ → ℕ → ℕ) where
  pub queue_of : RelayVirtio → Mbuf → Option ℕ
  unfolding lut_index
  queue_of v m =
      if v.rx_q_active == 0
      then none
      else get_elem? v.rx_q_lut (lut_index v (calc_eth_header_hash jhash m.header))

  pub calc_mbuf_queue : RelayVirtio → List Mbuf → Option (List Mbuf)
  calc_mbuf_queue v [] = some []
  calc_mbuf_queue v (m ∷ ms) = do
    q ← queue_of v m
    rest ← calc_mbuf_queue v ms
    some (record m { fdir_id = q } ∷ rest)
