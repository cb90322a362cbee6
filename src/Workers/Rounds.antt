-- ===== src/Workers/Rounds.antt =====
-- Rounds of the worker threads: the relays stay balanced, and a thread leaves the relays of other
-- threads alone.
use virtio_forwarder.Prelude.{
  ℕ, zero, suc, ◌+◌, Bool, true, false, ◌||◌, Option, some, List, [], ◌∷◌, ◌≡◌, refl, sym, ◌∙◌, ap,
  subst, arith, if◌then◌else◌, get_elem?, get_elem?-set_inv, set, >>=-eq-some, inl, inr,
  get_elem?-set_ne, get_elem?-set_self, lt-of_get_elem?,
}
use native.Mathlib.Decide.{ℕ_discrete}
use mathlib.Core.Option.{some-injective}
use virtio_forwarder.Bits.{drain}
use virtio_forwarder.Relay.{Relay, Mbuf}
use virtio_forwarder.World.{WorkerThread, RelayCpus}
use virtio_forwarder.Cpu.{is_cpu}
use virtio_forwarder.Datapath.Io.{IsIo}
use virtio_forwarder.Datapath.Balance.{Balanced}
use virtio_forwarder.Datapath.Down.Inv.{vm2vf-Balanced}
use virtio_forwarder.Datapath.Up.Inv.{vf2vm-Balanced}
use virtio_forwarder.Workers.{
  Turn, forward_down, forward_up, serve_relay, serve_relays, worker_round, initial_relays,
  initial_relay, configured_node,
}

-- DPDK keeps to its documented bounds in the turns of a round.
pub record IsTurn (turn : Turn) : Type 0 where
  pub down_ok : IsIo turn.down
  pub up_ok : IsIo turn.up

-- Every relay of a table is balanced.
pub record AllBalanced (relays : List Relay) : Type 0 where
  pub each : (i : ℕ) (r : Relay) → get_elem? relays i ≡ some r → Balanced r

if_out :
    {X : Type 0} (c : Bool) (m : Option X) (x : X) (P : X → Type 0) (out : X)
    → (m ≡ some out → P out)
    → P x
    → (if c then m else some x) ≡ some out
    → P out
if_out true m x P out h k e = h e
if_out false m x P out h k e = subst P (some-injective _ _ e) k

-- A relay of which the CPU serves no direction.
pub record Unserved (cpu : ℕ) (r : Relay) : Type 0 where
  pub not_down : is_cpu r.vio.vio2vf_cpu cpu ≡ false
  pub not_up : is_cpu r.dpdk.vf2vio_cpu cpu ≡ false

module _ (jhash : List ℕ → ℕ → ℕ) (cpu : ℕ) where
  serve_relay-Balanced :
      (turn : Turn) (r r' : Relay) (b : Bool)
      → IsTurn turn
      → Balanced r
      → serve_relay jhash turn cpu r ≡ some (r', b)
      → Balanced r'
  unfolding serve_relay forward_down forward_up
  serve_relay-Balanced turn r r' b ok bal e =
      let (d, ed, rest) = >>=-eq-some (forward_down turn cpu r) _ e in
      let (u, eu, last) = >>=-eq-some (forward_up jhash turn cpu d.0) _ rest in
      let bd : Balanced d.0 =
        if_out _ _ _ (λ p. Balanced p.0) d (vm2vf-Balanced turn.down r ok.down_ok bal) bal ed in
      let bu : Balanced u.0 =
        if_out _ _ _ (λ p. Balanced p.0) u (vf2vm-Balanced jhash turn.up d.0 ok.up_ok bd) bd eu in
      subst (λ p. Balanced p.0) (some-injective _ _ last) bu

  serve_relay-Unserved :
      (turn : Turn) (r r' : Relay) (b : Bool)
      → Unserved cpu r
      → serve_relay jhash turn cpu r ≡ some (r', b)
      → r' ≡ r
  unfolding serve_relay forward_down forward_up
  serve_relay-Unserved turn r r' b n e = cc (n.not_down, n.not_up, e)

  set-AllBalanced :
      (relays : List Relay) (w : ℕ) (r : Relay)
      → AllBalanced relays
      → Balanced r
      → AllBalanced (set relays w r)
  set-AllBalanced relays w r all bal = record {
    each = λ i x e. elim (get_elem?-set_inv relays w r i e) [
      | inl (h, h') ↦ subst Balanced (sym h') bal
      | inr h ↦ all.each i x h
    ];
  }

  serve_relays-AllBalanced :
      (turns : ℕ → Turn) (ws : List ℕ) (relays : List Relay) (b : Bool) (out : List Relay × Bool)
      → ((w : ℕ) → IsTurn (turns w))
      → AllBalanced relays
      → serve_relays jhash turns cpu ws relays b ≡ some out
      → AllBalanced out.0
  unfolding serve_relays
  serve_relays-AllBalanced turns [] relays b out ok all e =
      subst (λ p. AllBalanced p.0) (some-injective _ _ e) all
  serve_relays-AllBalanced turns (w ∷ ws) relays b out ok all e =
      let (r, er, rest) = >>=-eq-some (get_elem? relays w) _ e in
      let (o, eo, last) = >>=-eq-some (serve_relay jhash (turns w) cpu r) _ rest in
      serve_relays-AllBalanced turns ws (set relays w o.0) (b || o.1) out ok
        (set-AllBalanced relays w o.0 all
          (serve_relay-Balanced (turns w) r o.0 o.1 (ok w) (all.each w r er) eo))
        last

  serve_relays-Unserved :
      (turns : ℕ → Turn) (ws : List ℕ) (relays : List Relay) (b : Bool) (out : List Relay × Bool)
      (i : ℕ) (r : Relay)
      → Unserved cpu r
      → get_elem? relays i ≡ some r
      → serve_relays jhash turns cpu ws relays b ≡ some out
      → get_elem? out.0 i ≡ some r
  unfolding serve_relays
  serve_relays-Unserved turns [] relays b out i r n at e =
      subst (λ p. get_elem? p.0 i ≡ some r) (some-injective _ _ e) at
  serve_relays-Unserved turns (w ∷ ws) relays b out i r n at e =
      let (x, ex, rest) = >>=-eq-some (get_elem? relays w) _ e in
      let (o, eo, last) = >>=-eq-some (serve_relay jhash (turns w) cpu x) _ rest in
      serve_relays-Unserved turns ws (set relays w o.0) (b || o.1) out i r n (kept x o.0 o.1 ex eo)
        last
    where
      kept :
          (x r' : Relay) (b' : Bool)
          → get_elem? relays w ≡ some x
          → serve_relay jhash (turns w) cpu x ≡ some (r', b')
          → get_elem? (set relays w r') i ≡ some r
      kept x r' b' ex eo = elim (ℕ_discrete w i) [
        | yes h ↦
            let xr : x ≡ r = some-injective _ _ (sym ex ∙ ap (get_elem? relays) h ∙ at) in
            ap (get_elem? (set relays w r')) (sym h)
            ∙ get_elem?-set_self relays w r' (lt-of_get_elem? relays w ex)
            ∙ ap (λ y. some y)
                (serve_relay-Unserved (turns w) x r' b' (subst (Unserved cpu) (sym xr) n) eo ∙ xr)
        | no ne ↦ get_elem?-set_ne relays r' ne ∙ at
      ]

-- A round of a thread leaves a relay as it is if the thread's CPU serves neither direction of it,
-- whatever the mask of the thread says.
pub worker_round-Unserved :
    (jhash : List ℕ → ℕ → ℕ) (turns : ℕ → Turn) (t t' : WorkerThread) (relays relays' : List Relay)
    (i : ℕ) (r : Relay)
    → Unserved t.cpu r
    → get_elem? relays i ≡ some r
    → worker_round jhash turns t relays ≡ some (t', relays')
    → get_elem? relays' i ≡ some r
unfolding worker_round
worker_round-Unserved jhash turns t t' relays relays' i r n at e =
    let (out, eo, last) =
      >>=-eq-some (serve_relays jhash turns t.cpu (drain 64 t.active_relays) relays false) _ e in
    subst (λ p. get_elem? p.1 i ≡ some r) (some-injective _ _ last)
      (serve_relays-Unserved jhash t.cpu turns _ relays false out i r n at eo)

pub worker_round-AllBalanced :
    (jhash : List ℕ → ℕ → ℕ) (turns : ℕ → Turn) (t t' : WorkerThread) (relays relays' : List Relay)
    → ((w : ℕ) → IsTurn (turns w))
    → AllBalanced relays
    → worker_round jhash turns t relays ≡ some (t', relays')
    → AllBalanced relays'
unfolding worker_round
worker_round-AllBalanced jhash turns t t' relays relays' ok all e =
    let (out, eo, last) =
      >>=-eq-some (serve_relays jhash turns t.cpu (drain 64 t.active_relays) relays false) _ e in
    subst (λ p. AllBalanced p.1) (some-injective _ _ last)
      (serve_relays-AllBalanced jhash t.cpu turns _ relays false out ok all eo)

initial_relay-Balanced :
    (null_pkt : Mbuf) (use_jumbo : Bool) (w : ℕ) (numa : Option ℕ)
    → Balanced (initial_relay null_pkt use_jumbo w numa)
initial_relay-Balanced null_pkt use_jumbo w numa = record {
  tx_room = refl;
  tx_fits = omega arith;
  rx_room = refl;
  rx_fits = omega arith;
  down = refl;
  up = refl;
}

-- The table that virtio_forwarders_initialize fills is balanced.
pub initial_relays-AllBalanced :
    (null_pkt : Mbuf) (use_jumbo : Bool) (numanode : List ℕ) (cs : List RelayCpus) (w : ℕ)
    (relays : List Relay)
    → initial_relays null_pkt use_jumbo numanode cs w ≡ some relays
    → AllBalanced relays
unfolding initial_relays
initial_relays-AllBalanced null_pkt use_jumbo numanode [] w relays e =
    subst AllBalanced (some-injective _ _ e) (record { each = λ i r h. cc })
initial_relays-AllBalanced null_pkt use_jumbo numanode (c ∷ cs) w relays e =
    let (numa, en, rest) = >>=-eq-some (configured_node numanode c.vio2vf_cpu) _ e in
    let (later, el, last) =
      >>=-eq-some (initial_relays null_pkt use_jumbo numanode cs (w + 1)) _ rest in
    let ih = initial_relays-AllBalanced null_pkt use_jumbo numanode cs (w + 1) later el in
    subst AllBalanced (some-injective _ _ last) (record { each = cases numa later ih })
  where
    cases :
        (numa : Option ℕ) (later : List Relay)
        → AllBalanced later
        → (i : ℕ) (r : Relay)
        → get_elem? (initial_relay null_pkt use_jumbo w numa ∷ later) i ≡ some r
        → Balanced r
    cases numa later ih zero r h =
        subst Balanced (some-injective _ _ h) (initial_relay-Balanced null_pkt use_jumbo w numa)
    cases numa later ih (suc i) r h = ih.each i r h
