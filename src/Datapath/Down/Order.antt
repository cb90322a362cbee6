-- ===== src/Datapath/Down/Order.antt =====
-- The order in which packets of the guest leave through the VF.
use virtio_forwarder.Prelude.{
  ◌+◌, ◌≡◌, ◌∙◌, Bool, true, some, ◌==◌, ◌++◌, arith, take, length, drop, List, take-length-append,
  >>=-eq-some, if◌then◌else◌, append_assoc,
}
use virtio_forwarder.Relay.{Relay, Mbuf, tx_window, virtio_ready, dpdk_ready}
use virtio_forwarder.Datapath.Io.{Io, IsIo, sub32}
use virtio_forwarder.Datapath.Balance.{window_split, Balanced, length-tx_window}
use virtio_forwarder.Datapath.Down.Inv.{fetch_tx-Balanced}
use virtio_forwarder.Datapath.Down.{
  signal_virtio_removal, finish_vf_removal, virtio_rx, dpdk_tx, fetch_tx, send_tx,
  relay_vm2vf_traffic, rx_from_guest,
}

-- What is buffered after packets have been taken from the guest: these, if none was buffered.
abbrev pub fetched_window : Io → Relay → List Mbuf
fetched_window io r = if r.vio.tx_pkts_avail == 0 then rx_from_guest io r else tx_window r

-- A burst to a ready VF takes the front of the buffered packets, in order, and leaves the rest.
send_tx_order :
    (io : Io) (r : Relay) {r' : Relay}
    → IsIo io
    → Balanced r
    → r.dpdk.state ≡ dpdk_ready
    → send_tx io r ≡ some r'
    → (r'.trace.to_vf ++ tx_window r' ≡ r.trace.to_vf ++ tx_window r)
      × (r'.trace.freed ≡ r.trace.freed)
      × (r'.vio.state ≡ r.vio.state)
      × (r'.dpdk.state ≡ dpdk_ready)
unfolding send_tx dpdk_tx
send_tx_order io r ok b ready e =
    let window = tx_window r in
    let sent = io.tx_burst window in
    let left =
      take (sub32 r.vio.tx_pkts_avail sent) (drop (r.vio.tx_pkts_used + sent) r.vio.tx_pkts) in
    ground (
      arith,
      ok.accepted window,
      length-tx_window r b,
      window_split r.vio.tx_pkts_avail r.vio.tx_pkts_used sent r.vio.tx_pkts,
      append_assoc r.trace.to_vf (take sent window) left,
    )

fetch_tx_order :
    (io : Io) (r : Relay) {r' : Relay}
    → fetch_tx io r ≡ some r'
    → r.vio.state ≡ virtio_ready
    → (tx_window r' ≡ fetched_window io r)
      × (r'.trace ≡ r.trace)
      × (r'.vio.state ≡ r.vio.state)
      × (r'.dpdk.state ≡ r.dpdk.state)
unfolding fetch_tx virtio_rx
fetch_tx_order io r e ready = ground (
  arith,
  take-length-append (rx_from_guest io r) (drop (length (rx_from_guest io r)) r.vio.tx_pkts),
)

-- Between a ready guest and a ready VF no packet is lost, duplicated or overtaken: those that the
-- VF has accepted, followed by those still buffered, are those that it had accepted before,
-- followed by what was buffered or, with nothing buffered, by what the guest handed over. None is
-- freed.
pub vm2vf_order :
    (io : Io) (r : Relay) {r' : Relay} {busy : Bool}
    → IsIo io
    → Balanced r
    → r.vio.state ≡ virtio_ready
    → r.dpdk.state ≡ dpdk_ready
    → relay_vm2vf_traffic io r ≡ some (r', busy)
    → (r'.trace.to_vf ++ tx_window r' ≡ r.trace.to_vf ++ fetched_window io r)
      × (r'.trace.freed ≡ r.trace.freed)
      × (busy ≡ true)
unfolding relay_vm2vf_traffic signal_virtio_removal finish_vf_removal
vm2vf_order io r ok b up ready e =
    let (fetched, e1, rest) = >>=-eq-some (fetch_tx io r) _ e in
    let (sent, e2, last) = >>=-eq-some (send_tx io fetched) _ rest in
    let first = fetch_tx_order io r e1 up in
    let b1 = fetch_tx-Balanced io ok r b e1 in
    let second = send_tx_order io fetched ok b1 (first.3 ∙ ready) e2 in
    ground (arith, first, second)
