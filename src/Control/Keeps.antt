-- ===== src/Control/Keeps.antt =====
-- What is kept of the relays: every relay but one, and a relation between the one before and after.
use virtio_forwarder.Prelude.{
  ℕ, ◌≡◌, ◌≢◌, refl, ap, sym, ◌∙◌, subst, some, get_elem?, set, and_then-eq-some, get_elem?-set_ne,
  get_elem?-set_self, lt-of_get_elem?,
}
use mathlib.Core.Option.{some-injective}
use virtio_forwarder.Relay.{Relay}
use virtio_forwarder.World.{World, update_relay}
use virtio_forwarder.Control.Steps.{IsFrame, Steps}

pub record Keeps (id : ℕ) (Q : Relay → Relay → Type 0) (u v : World) : Type 0 where
  pub others : (j : ℕ) → id ≢ j → get_elem? v.relays j ≡ get_elem? u.relays j
  pub self :
      (r' : Relay)
      → get_elem? v.relays id ≡ some r'
      → (r : Relay) × (get_elem? u.relays id ≡ some r) × Q r r'

module _ (id : ℕ) (Q : Relay → Relay → Type 0) (q_refl : (r : Relay) → Q r r)
    (q_trans : (a b c : Relay) → Q a b → Q b c → Q a c) where
  pub Keeps-IsFrame : IsFrame (Keeps id Q)
  Keeps-IsFrame = record {
    same = λ w. record { others = λ j ne. refl; self = λ r at. (r, at, q_refl r) };
    chain = λ u v w k l. record {
      others = λ j ne. l.others j ne ∙ k.others j ne;
      self = λ r at.
          let (s, at_s, q) = l.self r at in
          let (t, at_t, p) = k.self s at_s in (t, at_t, q_trans t s r p q);
    };
    calls = λ w c. record { others = λ j ne. refl; self = λ r at. (r, at, q_refl r) };
    threads = λ w ts. record { others = λ j ne. refl; self = λ r at. (r, at, q_refl r) };
  }

  pub Steps-update :
      (f : Relay → Relay) → ((r : Relay) → Q r (f r)) → Steps (Keeps id Q) (update_relay id f)
  unfolding update_relay
  Steps-update f step w a w' e =
      let (r, at, rest) =
        and_then-eq-some (get_elem? w.relays id)
          (λ r. some (tt, record w { relays = set w.relays id (f r) })) e in
      let ends : record w { relays = set w.relays id (f r) } ≡ w' =
        ap (λ p. p.1) (some-injective _ _ rest) in
      subst (Keeps id Q w) ends (record {
        others = λ j ne. get_elem?-set_ne w.relays (f r) ne;
        self = λ r' at'.
            let same : f r ≡ r' =
              some-injective _ _ (
                sym (get_elem?-set_self w.relays id (f r) (lt-of_get_elem? w.relays id at))
                ∙ at') in
            (r, at, subst (Q r) same (step r));
      })
