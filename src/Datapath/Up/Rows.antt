-- ===== src/Datapath/Up/Rows.antt =====
-- The two loops of the multiqueue branch of virtio_tx, against what they do to the rows.
use virtio_forwarder.Prelude.{
  ℕ, zero, suc, ◌+◌, ◌*◌, ◌%◌, ◌^◌, ◌≡◌, refl, ap, ap₂, sym, ◌∙◌, false, some, List, [], ◌∷◌, ◌++◌,
  ◌==◌, arith, length, take, drop, reverse, replicate, length-append, length-take, length-drop,
  length-reverse, write_at, write_at-append, >>=-eq-some, append-nil, append_assoc, drop-nil,
  take-nil,
}
use virtio_forwarder.Relay.{Relay, Mbuf}
use virtio_forwarder.Datapath.Io.{Io, IsIo}
use virtio_forwarder.Datapath.Up.{put_queue, batch, enqueue_done, send_row, send_queues}

-- The packets of all rows.
abbrev pub total : List (List Mbuf) → ℕ
total [] = 0
total (row ∷ rows) = length row + total rows

-- What the queues from `i` on accept of their rows, and what they refuse, as it is put back.
unfoldable pub accepted : Io → ℕ → List (List Mbuf) → List Mbuf
accepted io i [] = []
accepted io i (row ∷ rows) = take (io.enqueue_burst (i * 2) row) row ++ accepted io (i + 1) rows

unfoldable pub refused : Io → ℕ → List (List Mbuf) → List Mbuf
refused io i [] = []
refused io i (row ∷ rows) =
    reverse (drop (io.enqueue_burst (i * 2) row) row) ++ refused io (i + 1) rows

pub total-replicate : (n : ℕ) → total (replicate n []) ≡ 0
total-replicate zero = refl
total-replicate (suc n) = omega (arith, total-replicate n)

pub put_queue-total :
    (q : ℕ) (m : Mbuf) (rows : List (List Mbuf)) {out : List (List Mbuf)}
    → put_queue q m rows ≡ some out
    → (total out ≡ total rows + 1) × (length out ≡ length rows)
unfolding put_queue
put_queue-total q m [] e = cc
put_queue-total zero m (row ∷ rows) e = ground (arith, length-append row (m ∷ []))
put_queue-total (suc q) m (row ∷ rows) e =
    let (out', e1, e2) = >>=-eq-some (put_queue q m rows) _ e in
    ground (arith, put_queue-total q m rows e1)

pub batch-total :
    (ms : List Mbuf) (rows : List (List Mbuf)) {out : List (List Mbuf)}
    → batch ms rows ≡ some out
    → (total out ≡ total rows + length ms) × (length out ≡ length rows)
unfolding batch
batch-total [] rows e = ground arith
batch-total (m ∷ ms) rows e =
    let (rows', e1, e2) = >>=-eq-some (put_queue m.fdir_id m rows) _ e in
    omega (arith, put_queue-total m.fdir_id m rows e1, batch-total ms rows' e2)

pub length-refused :
    (io : Io) (i : ℕ) (rows : List (List Mbuf))
    → IsIo io
    → length (accepted io i rows) + length (refused io i rows) ≡ total rows
unfolding accepted refused
length-refused io i [] ok = omega arith
length-refused io i (row ∷ rows) ok =
    let sent = io.enqueue_burst (i * 2) row in
    omega (
      arith,
      ok.enqueued (i * 2) row,
      length-append (take sent row) (accepted io (i + 1) rows),
      length-append (reverse (drop sent row)) (refused io (i + 1) rows),
      length-take sent row,
      length-drop sent row,
      length-reverse (drop sent row),
      length-refused io (i + 1) rows ok,
    )

-- What rounds of the second loop do from `r` to `r'`, when `refusals` are put back and `entries`
-- are accepted: the accepted packets go to the guest, the refused ones are written from `used + k`
-- on; nothing else of the relay changes but byte counters and `freed`.
pub record Sends (refusals entries : List Mbuf) (r r' : Relay) (k k' : ℕ) : Type 0 where
  pub count : k' ≡ k + length refusals
  pub pkts : r'.dpdk.rx_pkts ≡ write_at r.dpdk.rx_pkts (r.dpdk.rx_pkts_used + k) refusals
  pub to_vm : r'.trace.to_vm ≡ r.trace.to_vm ++ entries
  pub vio_tx : r'.stats.vio_tx % 2 ^ 64 ≡ (r.stats.vio_tx + length entries) % 2 ^ 64
  pub used : r'.dpdk.rx_pkts_used ≡ r.dpdk.rx_pkts_used
  pub state : r'.dpdk.state ≡ r.dpdk.state
  pub vio : r'.vio ≡ r.vio
  pub dropped : r'.stats.vio_drop_unavail ≡ r.stats.vio_drop_unavail
  pub rx : r'.stats.dpdk_rx ≡ r.stats.dpdk_rx
  pub vio_rx : r'.stats.vio_rx ≡ r.stats.vio_rx
  pub dpdk_tx : r'.stats.dpdk_tx ≡ r.stats.dpdk_tx
  pub dpdk_drop : r'.stats.dpdk_drop_unavail ≡ r.stats.dpdk_drop_unavail

Sends-nil : (r : Relay) (k : ℕ) → Sends [] [] r r k k
Sends-nil r k = record {
  count = omega arith;
  pkts = unfold write_at in refl;
  to_vm = sym (append-nil r.trace.to_vm);
  vio_tx = ap (λ (n : ℕ). n % 2 ^ 64) (omega arith);
  used = refl;
  state = refl;
  vio = refl;
  dropped = refl;
  rx = refl;
  vio_rx = refl;
  dpdk_tx = refl;
  dpdk_drop = refl;
}

Sends-append :
    {f g a b : List Mbuf} {r r' r'' : Relay} {k k' k'' : ℕ}
    → Sends f a r r' k k'
    → Sends g b r' r'' k' k''
    → Sends (f ++ g) (a ++ b) r r'' k k''
Sends-append {f} {g} {a} {b} {r} {r'} {r''} {k} {k'} {k''} s t = record {
  count = omega (arith, s.count, t.count, length-append f g);
  pkts =
      t.pkts
      ∙ ap₂ (λ l n. write_at l n g) s.pkts (omega (arith, s.used, s.count))
      ∙ write_at-append r.dpdk.rx_pkts (r.dpdk.rx_pkts_used + k) f g;
  to_vm = t.to_vm ∙ ap (λ l. l ++ b) s.to_vm ∙ append_assoc r.trace.to_vm a b;
  vio_tx = omega (arith, s.vio_tx, t.vio_tx, length-append a b);
  used = t.used ∙ s.used;
  state = t.state ∙ s.state;
  vio = t.vio ∙ s.vio;
  dropped = t.dropped ∙ s.dropped;
  rx = t.rx ∙ s.rx;
  vio_rx = t.vio_rx ∙ s.vio_rx;
  dpdk_tx = t.dpdk_tx ∙ s.dpdk_tx;
  dpdk_drop = t.dpdk_drop ∙ s.dpdk_drop;
}

send_row-Sends :
    (io : Io) (row : List Mbuf) (i k : ℕ) (r : Relay)
    → IsIo io
    → let sent = io.enqueue_burst (i * 2) row in
      Sends
        (reverse (drop sent row))
        (take sent row)
        r
        (send_row io row i k r).0
        k
        (send_row io row i k r).1
unfolding send_row enqueue_done
send_row-Sends io [] i k r ok =
    rw (drop-nil (io.enqueue_burst (i * 2) []), take-nil (io.enqueue_burst (i * 2) []))
      (Sends-nil r k)
send_row-Sends io (m ∷ ms) i k r ok =
    let sent = io.enqueue_burst (i * 2) (m ∷ ms) in
    let skip : (suc (length ms) == 0) ≡ false = ground arith in
    rw skip (record {
      count = refl;
      pkts = refl;
      to_vm = refl;
      vio_tx = omega (arith, ok.enqueued (i * 2) (m ∷ ms), length-take sent (m ∷ ms));
      used = refl;
      state = refl;
      vio = refl;
      dropped = refl;
      rx = refl;
      vio_rx = refl;
      dpdk_tx = refl;
      dpdk_drop = refl;
    })

pub send_queues-Sends :
    (io : Io) (rows : List (List Mbuf)) (i k : ℕ) (r : Relay)
    → IsIo io
    → Sends
        (refused io i rows)
        (accepted io i rows)
        r
        (send_queues io rows i k r).0
        k
        (send_queues io rows i k r).1
unfolding send_queues accepted refused
send_queues-Sends io [] i k r ok = Sends-nil r k
send_queues-Sends io (row ∷ rows) i k r ok =
    let out = send_row io row i k r in
    Sends-append (send_row-Sends io row i k r ok) (send_queues-Sends io rows (i + 1) out.1 out.0 ok)
