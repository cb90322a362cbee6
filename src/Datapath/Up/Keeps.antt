-- ===== src/Datapath/Up/Keeps.antt =====
-- What a run of relay_vf2vm_traffic does to the states of a relay.
use virtio_forwarder.Prelude.{
  ℕ, ◌≡◌, refl, ap, ap₂, sym, ◌∙◌, Bool, some, List, [], ◌∷◌, ◌+◌, ◌==◌, Bool-cases, inl, inr,
  replicate, arith, >>=-eq-some,
}
use mathlib.Core.Option.{some-injective}
use virtio_forwarder.Relay.{Relay, Mbuf, rx_window}
use virtio_forwarder.Datapath.Io.{Io, free_rx, flush_rx, flush_tx}
use virtio_forwarder.Datapath.Up.{
  fetch_rx, dpdk_rx, store_rx, send_rx, virtio_tx, virtio_tx_multi, virtio_tx_single, send_queues,
  send_row, enqueue_done, batch, finish_virtio_removal, worker_remove_virtio, signal_vf_removal,
  relay_vf2vm_traffic, dpdk_handover,
}

-- The same state of the VF and the same CPU for the other direction.
pub record SameVf (r s : Relay) : Type 0 where
  pub state : s.dpdk.state ≡ r.dpdk.state
  pub cpu : s.vio.vio2vf_cpu ≡ r.vio.vio2vf_cpu

trans : (a b c : Relay) → SameVf a b → SameVf b c → SameVf a c
trans a b c p q = record { state = q.state ∙ p.state; cpu = q.cpu ∙ p.cpu }

fetch_rx-SameVf :
    (jhash : List ℕ → ℕ → ℕ) (io : Io) (r : Relay) {r' : Relay}
    → fetch_rx jhash io r ≡ some r'
    → SameVf r r'
unfolding fetch_rx dpdk_rx store_rx
fetch_rx-SameVf jhash io r e = ground arith

send_queues-SameVf :
    (io : Io) (rows : List (List Mbuf)) (i k : ℕ) (r : Relay)
    → SameVf r (send_queues io rows i k r).0
unfolding send_queues send_row enqueue_done
send_queues-SameVf io [] i k r = record { state = refl; cpu = refl }
send_queues-SameVf io (row ∷ rows) i k r =
    trans r (send_row io row i k r).0 _ (ground arith)
      (send_queues-SameVf io rows (i + 1) (send_row io row i k r).1 (send_row io row i k r).0)

virtio_tx_multi-SameVf :
    (io : Io) (r : Relay) {r' : Relay} → virtio_tx_multi io r ≡ some r' → SameVf r r'
unfolding virtio_tx_multi
virtio_tx_multi-SameVf io r e =
    let (rows, e1, e2) = >>=-eq-some (batch (rx_window r) (replicate r.vio.rx_q_active [])) _ e in
    ground (arith, send_queues-SameVf io rows 0 0 r)

virtio_tx_single-SameVf :
    (io : Io) (r : Relay) {r' : Relay} → virtio_tx_single io r ≡ some r' → SameVf r r'
unfolding virtio_tx_single enqueue_done
virtio_tx_single-SameVf io r e = ground arith

virtio_tx-SameVf :
    (io : Io) (r : Relay) {out : Bool × Relay} → virtio_tx io r ≡ some out → SameVf r out.1
unfolding virtio_tx
virtio_tx-SameVf io r {out} e =
    ground
      (arith, virtio_tx_single-SameVf io r {r' = out.1}, virtio_tx_multi-SameVf io r {r' = out.1})

send_rx-SameVf : (io : Io) (r : Relay) {r' : Relay} → send_rx io r ≡ some r' → SameVf r r'
unfolding send_rx free_rx
send_rx-SameVf io r e = elim (Bool-cases (r.dpdk.rx_pkts_avail == 0)) [
  | inl empty ↦ ground arith
  | inr held ↦
      let (out, e1, e2) = >>=-eq-some (virtio_tx io r) _ (rw held at e) in
      let same = virtio_tx-SameVf io r e1 in ground arith
]

finish-SameVf : (r : Relay) → SameVf r (finish_virtio_removal r)
unfolding finish_virtio_removal worker_remove_virtio flush_rx flush_tx free_rx
finish-SameVf r = ground arith

-- A run on a relay whose VF is to be removed hands the removal over: the other direction is told if
-- it has a CPU, and else the VF is released.
pub vf2vm-handover :
    (jhash : List ℕ → ℕ → ℕ) (io : Io) (r : Relay) {r' : Relay} {busy : Bool}
    → relay_vf2vm_traffic jhash io r ≡ some (r', busy)
    → r'.dpdk.state ≡ dpdk_handover r.vio.vio2vf_cpu r.dpdk.state
unfolding relay_vf2vm_traffic signal_vf_removal
vf2vm-handover jhash io r {r'} e =
    let (fetched, e1, rest) = >>=-eq-some (fetch_rx jhash io r) _ e in
    let (sent, e2, last) = >>=-eq-some (send_rx io fetched) _ rest in
    let same =
      trans r fetched sent (fetch_rx-SameVf jhash io r e1) (send_rx-SameVf io fetched e2) in
    let all = trans r sent (finish_virtio_removal sent) same (finish-SameVf sent) in
    let ends : signal_vf_removal (finish_virtio_removal sent) ≡ r' =
      ap (λ p. p.0) (some-injective _ _ last) in
    sym (ap (λ q. q.dpdk.state) ends) ∙ ap₂ dpdk_handover all.cpu all.state
