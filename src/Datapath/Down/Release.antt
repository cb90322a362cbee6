-- ===== src/Datapath/Down/Release.antt =====
-- What a run of relay_vm2vf_traffic does with a VF that the other direction has handed over.
use virtio_forwarder.Prelude.{◌≡◌, ap, subst, ◌∙◌, Bool, some, arith, >>=-eq-some}
use mathlib.Core.Option.{some-injective}
use virtio_forwarder.Relay.{Relay, dpdk_uninit, dpdk_removing2}
use virtio_forwarder.Datapath.Io.{Io, free_tx, free_rx, flush_rx, flush_tx}
use virtio_forwarder.Datapath.Down.{
  fetch_tx, virtio_rx, send_tx, dpdk_tx, signal_virtio_removal, finish_vf_removal, worker_remove_vf,
  relay_vm2vf_traffic,
}

fetch_tx_state :
    (io : Io) (r : Relay) {r' : Relay} → fetch_tx io r ≡ some r' → r'.dpdk.state ≡ r.dpdk.state
unfolding fetch_tx virtio_rx
fetch_tx_state io r e = ground arith

send_tx_state :
    (io : Io) (r : Relay) {r' : Relay} → send_tx io r ≡ some r' → r'.dpdk.state ≡ r.dpdk.state
unfolding send_tx dpdk_tx free_tx
send_tx_state io r e = ground arith

-- The VF is released, and nothing is buffered for either direction.
pub record Released (r : Relay) : Type 0 where
  pub state : r.dpdk.state ≡ dpdk_uninit
  pub tx_empty : r.vio.tx_pkts_avail ≡ 0
  pub rx_empty : r.dpdk.rx_pkts_avail ≡ 0

finish-Released : (r : Relay) → r.dpdk.state ≡ dpdk_removing2 → Released (finish_vf_removal r)
unfolding finish_vf_removal worker_remove_vf flush_rx flush_tx free_rx free_tx
finish-Released r e = ground arith

pub vm2vf-Released :
    (io : Io) (r : Relay) {r' : Relay} {busy : Bool}
    → r.dpdk.state ≡ dpdk_removing2
    → relay_vm2vf_traffic io r ≡ some (r', busy)
    → Released r'
unfolding relay_vm2vf_traffic signal_virtio_removal
vm2vf-Released io r told e =
    let (fetched, e1, rest) = >>=-eq-some (fetch_tx io r) _ e in
    let (sent, e2, last) = >>=-eq-some (send_tx io fetched) _ rest in
    let state = send_tx_state io fetched e2 ∙ fetch_tx_state io r e1 ∙ told in
    subst Released (ap (λ p. p.0) (some-injective _ _ last))
      (finish-Released (signal_virtio_removal sent) state)
