-- ===== src/Sockets/Table.antt =====
-- The table of socket paths: lookups, and the invariant that no two relays have the same path.
use mathlib.Core.Option.{some-injective}
use virtio_forwarder.Prelude.{
  ◌∙◌, sym, get_elem?-set_inv, get_elem?-set_self, ℕ, zero, suc, ◌<◌, Bool, true, false, Option,
  none, some, List, [], ◌∷◌, ◌≡◌, ◌≢◌, refl, arith, if◌then◌else◌, Bytes, get_elem?, set, length,
  inl, inr, ap, subst, str_equal_refl, str_equal-eq, Option-cases,
}
use virtio_forwarder.Relay.{Relay}
use virtio_forwarder.Cpu.{is_virtio_uninit, is_dpdk_uninit}
use virtio_forwarder.Sockets.{is_idle, virtio_get_free_relay_id, get_relay_for_sock, next_id}

next_id-eq-some : (o : Option ℕ) (i : ℕ) → next_id o ≡ some i → (j : ℕ) × (o ≡ some j) × (i ≡ suc j)
next_id-eq-some none i e = cc
next_id-eq-some (some j) i e = (j, refl, cc)

-- The relay that is found has the path.
pub relay_for_sock-entry :
    (m : List (Option Bytes)) (p : Bytes) (i : ℕ)
    → get_relay_for_sock m p ≡ some i
    → get_elem? m i ≡ some (some p)
unfolding get_relay_for_sock
relay_for_sock-entry [] p i e = cc
relay_for_sock-entry (none ∷ m) p i e =
    let (j, e', ij) = next_id-eq-some _ i e in rw ij (relay_for_sock-entry m p j e')
relay_for_sock-entry (some q ∷ m) p i e =
    grind (
      arith,
      str_equal-eq q p,
      next_id-eq-some (get_relay_for_sock m p) i,
      relay_for_sock-entry m p,
    )

-- If no relay is found, none has the path.
pub relay_for_sock-none :
    (m : List (Option Bytes)) (p : Bytes) (i : ℕ)
    → get_relay_for_sock m p ≡ none
    → get_elem? m i ≢ some (some p)
unfolding get_relay_for_sock
relay_for_sock-none [] p i e h = cc
relay_for_sock-none (none ∷ m) p zero e h = cc
relay_for_sock-none (some q ∷ m) p zero e h = grind (arith, str_equal_refl p)
relay_for_sock-none (x ∷ m) p (suc i) e h = grind (arith, relay_for_sock-none m p i)

-- No two relays have the same path.
pub record Distinct (m : List (Option Bytes)) : Type 0 where
  pub apart :
      (i j : ℕ) (p : Bytes) → get_elem? m i ≡ some (some p) → get_elem? m j ≡ some (some p) → i ≡ j

-- A relay whose path no other relay has is found by it.
pub relay_for_sock_self :
    (m : List (Option Bytes)) (p : Bytes) (i : ℕ)
    → Distinct m
    → get_elem? m i ≡ some (some p)
    → get_relay_for_sock m p ≡ some i
relay_for_sock_self m p i d e = elim (Option-cases (get_relay_for_sock m p)) [
  | inl h ↦ absurd (relay_for_sock-none m p i h e)
  | inr (j, h) ↦ h ∙ ap (λ k. some k) (d.apart j i p (relay_for_sock-entry m p j h) e)
]

module _ (m : List (Option Bytes)) (i : ℕ) where
  set-none-entry :
      (a : ℕ) (p : Bytes)
      → get_elem? (set m i none) a ≡ some (some p)
      → get_elem? m a ≡ some (some p)
  set-none-entry a p e = elim (get_elem?-set_inv m i none a e) [ inl (h, h') ↦ cc | inr h ↦ h ]

  pub set-none-Distinct : Distinct m → Distinct (set m i none)
  set-none-Distinct d = record {
    apart = λ a b p ea eb. d.apart a b p (set-none-entry a p ea) (set-none-entry b p eb);
  }

  -- A path that no relay has may be given to any.
  pub set-some-Distinct :
      (p : Bytes) → get_relay_for_sock m p ≡ none → Distinct m → Distinct (set m i (some p))
  set-some-Distinct p new d = record {
    apart = λ a b q ea eb. elim (get_elem?-set_inv m i (some p) a ea) [
      | inl (h, h') ↦ elim (get_elem?-set_inv m i (some p) b eb) [
        | inl (g, g') ↦ sym h ∙ g
        | inr g ↦ absurd (relay_for_sock-none m p b new (g ∙ ap (λ x. some x) h'))
      ]
      | inr h ↦ elim (get_elem?-set_inv m i (some p) b eb) [
        | inl (g, g') ↦ absurd (relay_for_sock-none m p a new (h ∙ ap (λ x. some x) g'))
        | inr g ↦ d.apart a b q h g
      ]
    ];
  }

  -- The relay that gets a new path is found by it.
  pub set-some-found :
      (p : Bytes)
      → get_relay_for_sock m p ≡ none
      → i < length m
      → get_relay_for_sock (set m i (some p)) p ≡ some i
  set-some-found p new h = elim (Option-cases (get_relay_for_sock (set m i (some p)) p)) [
    | inl e ↦ absurd (relay_for_sock-none _ p i e (get_elem?-set_self m i (some p) h))
    | inr (j, e) ↦ elim (get_elem?-set_inv m i (some p) j (relay_for_sock-entry _ p j e)) [
      | inl (g, g') ↦ e ∙ ap (λ k. some k) (sym g)
      | inr g ↦ absurd (relay_for_sock-none m p j new g)
    ]
  ]

is_idle-free : (r : Relay) (e : Option Bytes) → is_idle r e ≡ true → e ≡ none
is_idle-free r none h = refl
is_idle-free r (some p) h = ground arith

-- The relay that is found idle has neither a guest nor a VF, and its entry is free.
pub record Idle (relays : List Relay) (m : List (Option Bytes)) (id : ℕ) : Type 0 where
  pub relay : Relay
  pub at : get_elem? relays id ≡ some relay
  pub no_guest : is_virtio_uninit relay.vio.state ≡ true
  pub no_vf : is_dpdk_uninit relay.dpdk.state ≡ true
  pub free : get_elem? m id ≡ some none

pub free_relay-Idle :
    (relays : List Relay) (m : List (Option Bytes)) (id : ℕ)
    → virtio_get_free_relay_id relays m ≡ some id
    → Idle relays m id
unfolding virtio_get_free_relay_id
free_relay-Idle [] m id e = cc
free_relay-Idle (r ∷ rs) [] id e = cc
free_relay-Idle (r ∷ rs) (x ∷ xs) id e = go (λ j. free_relay-Idle rs xs j) (is_idle r x) refl e
  where
    go :
        ((j : ℕ) → virtio_get_free_relay_id rs xs ≡ some j → Idle rs xs j)
        → (b : Bool) → is_idle r x ≡ b
        → (if b then some 0 else next_id (virtio_get_free_relay_id rs xs)) ≡ some id
        → Idle (r ∷ rs) (x ∷ xs) id
    go ih true h k = subst (Idle (r ∷ rs) (x ∷ xs)) (some-injective _ _ k) (record {
      relay = r;
      at = refl;
      no_guest = ground arith;
      no_vf = ground arith;
      free = ap (λ y. some y) (is_idle-free r x h);
    })
    go ih false h k =
        let (j, k', ij) = next_id-eq-some _ id k in
        let i = ih j k' in
        subst (Idle (r ∷ rs) (x ∷ xs)) (sym ij) (record {
          relay = i.relay;
          at = i.at;
          no_guest = i.no_guest;
          no_vf = i.no_vf;
          free = i.free;
        })
