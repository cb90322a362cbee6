-- ===== src/Cpu/Idlest.antt =====
-- Which CPU naive_get_idlest_worker of virtio_worker.c picks.
use virtio_forwarder.Prelude.{
  ℕ, zero, suc, ◌+◌, ◌<◌, ◌≤◌, ◌≡◌, refl, ap, sym, ◌∙◌, Bool, true, false, ◌&&◌, Option, none, some,
  List, [], ◌∷◌, arith, if◌then◌else◌, ltb, get_elem?, length, replicate, get_elem?-of_lt,
  lt-of_get_elem?, Bool-cases, inl, inr, ◌⊎◌, some-ne-none,
}
use virtio_forwarder.Relay.{Relay, max_cpus, is_virtio_ready}
use virtio_forwarder.World.{World}
use virtio_forwarder.Cpu.{
  is_added_or_ready, add_load, relay_load, cpu_workers, idlest_from, index_of, eligible,
  naive_get_idlest_worker,
}

-- The load that the first loop adds up for a CPU.
abbrev pub loads_of : World → List ℕ
loads_of w = cpu_workers w.relays (replicate max_cpus 0)

abbrev pub load_at : List ℕ → ℕ → ℕ
load_at loads cpu = elim (get_elem? loads cpu) [ none ↦ 0 | some n ↦ n ]

length-add_load :
    (b : Bool) (c : Option ℕ) (weight : ℕ) (loads : List ℕ)
    → length (add_load b c weight loads) ≡ length loads
unfolding add_load
length-add_load false c weight loads = refl
length-add_load true none weight loads = refl
length-add_load true (some c) weight [] = refl
length-add_load true (some zero) weight (n ∷ loads) = refl
length-add_load true (some (suc c)) weight (n ∷ loads) =
    ap suc (length-add_load true (some c) weight loads)

length-cpu_workers :
    (rs : List Relay) (loads : List ℕ) → length (cpu_workers rs loads) ≡ length loads
unfolding cpu_workers relay_load
length-cpu_workers [] loads = refl
length-cpu_workers (r ∷ rs) loads =
    length-cpu_workers rs (relay_load r loads)
    ∙ length-add_load (is_virtio_ready r.vio.state) r.vio.vio2vf_cpu 10
        (add_load (is_added_or_ready r.dpdk.state) r.dpdk.vf2vio_cpu 12 loads)
    ∙ length-add_load (is_added_or_ready r.dpdk.state) r.dpdk.vf2vio_cpu 12 loads

length-loads_of : (w : World) → length (loads_of w) ≡ max_cpus
length-loads_of w = length-cpu_workers w.relays (replicate max_cpus 0)

-- The best CPU so far has at most load `n`.
abbrev AtMost : Option (ℕ × ℕ) → ℕ → Type 0
AtMost none n = ⊥
AtMost (some (c, m)) n = m ≤ n

abbrev better : Option (ℕ × ℕ) → ℕ → Bool
better best n = elim best [ none ↦ true | some (c, m) ↦ ltb n m ]

step-AtMost :
    (b : Bool) (best : Option (ℕ × ℕ)) (k n l : ℕ)
    → AtMost best l
    → AtMost (if b && better best n then some (k, n) else best) l
step-AtMost b none k n l h = absurd h
step-AtMost b (some (c, m)) k n l h = elim (Bool-cases (b && ltb n m)) [
  | inl fewer ↦ rw fewer (ground arith)
  | inr more ↦ rw more h
]

idlest_from-keeps :
    (ok : ℕ → Bool) (k : ℕ) (loads : List ℕ) (best : Option (ℕ × ℕ)) (l : ℕ)
    → AtMost best l
    → AtMost (idlest_from ok k loads best) l
unfolding idlest_from
idlest_from-keeps ok k [] best l h = h
idlest_from-keeps ok k (n ∷ loads) best l h =
    idlest_from-keeps ok (k + 1) loads _ l (step-AtMost (ok k) best k n l h)

step-least :
    (best : Option (ℕ × ℕ)) (k n : ℕ) → AtMost (if better best n then some (k, n) else best) n
step-least none k n = omega arith
step-least (some (c, m)) k n = elim (Bool-cases (ltb n m)) [
  | inl fewer ↦ rw fewer (omega arith)
  | inr more ↦ rw more (ground arith)
]

idlest_from-least :
    (ok : ℕ → Bool) (k : ℕ) (loads : List ℕ) (best : Option (ℕ × ℕ)) (i n : ℕ)
    → get_elem? loads i ≡ some n
    → ok (k + i) ≡ true
    → AtMost (idlest_from ok k loads best) n
unfolding idlest_from
idlest_from-least ok k [] best i n e y = cc
idlest_from-least ok k (m ∷ loads) best zero n e y =
    let y' : ok k ≡ true = ap ok (omega arith) ∙ y in
    let n' : m ≡ n = cc in
    idlest_from-keeps ok (k + 1) loads _ n (rw y' (rw (← n') (step-least best k m)))
idlest_from-least ok k (m ∷ loads) best (suc i) n e y =
    idlest_from-least ok (k + 1) loads _ i n e
      (ap ok (let e' : k + 1 + i ≡ k + suc i = omega arith in e') ∙ y)

pair-step :
    {B : Type 0} (k n c m : ℕ)
    → ◌≡◌ {A = Option (ℕ × ℕ)} (some (k, n)) (some (c, m))
    → B ⊎ ((true ≡ true) × (k ≡ c) × (n ≡ m))
pair-step k n c m e = inr (refl, cc, cc)

step-source :
    (b : Bool) (best : Option (ℕ × ℕ)) (k n c m : ℕ)
    → (if b && better best n then some (k, n) else best) ≡ some (c, m)
    → (best ≡ some (c, m)) ⊎ ((b ≡ true) × (k ≡ c) × (n ≡ m))
step-source false best k n c m e = inl e
step-source true none k n c m e = pair-step k n c m e
step-source true (some (c', m')) k n c m e = elim (Bool-cases (ltb n m')) [
  | inl fewer ↦ pair-step k n c m (rw fewer at e)
  | inr more ↦ inl (rw more at e)
]

-- Where the result comes from.
idlest_from-source :
    (ok : ℕ → Bool) (k : ℕ) (loads : List ℕ) (best : Option (ℕ × ℕ)) (c m : ℕ)
    → idlest_from ok k loads best ≡ some (c, m)
    → (best ≡ some (c, m)) ⊎ ((i : ℕ) × (c ≡ k + i) × (get_elem? loads i ≡ some m) × (ok c ≡ true))
unfolding idlest_from
idlest_from-source ok k [] best c m e = inl e
idlest_from-source ok k (n ∷ loads) best c m e =
    elim (idlest_from-source ok (k + 1) loads _ c m e) [
      | inl here ↦ elim (step-source (ok k) best k n c m here) [
        | inl old ↦ inl old
        | inr (y, at, get) ↦ inr (zero, omega (arith, at), ap some get, ap ok (sym at) ∙ y)
      ]
      | inr (i, at, get, y) ↦ inr (suc i, omega (arith, at), get, y)
    ]

of_AtMost :
    (o : Option (ℕ × ℕ)) (n : ℕ) → AtMost o n → (c : ℕ) × (m : ℕ) × (o ≡ some (c, m)) × (m ≤ n)
of_AtMost none n h = absurd h
of_AtMost (some (c, m)) n h = (c, m, refl, h)

-- The pick among any CPUs and loads.
picked :
    (ok : ℕ → Bool) (loads : List ℕ) (c m : ℕ)
    → idlest_from ok 0 loads none ≡ some (c, m)
    → (get_elem? loads c ≡ some m) × (ok c ≡ true)
picked ok loads c m e = elim (idlest_from-source ok 0 loads none c m e) [
  | inl h ↦ absurd (some-ne-none (sym h))
  | inr (i, at, get, y) ↦ (ap (get_elem? loads) (let e' : c ≡ i = omega (arith, at) in e') ∙ get, y)
]

load_at-get_elem? :
    (loads : List ℕ) (c : ℕ) {n : ℕ} → get_elem? loads c ≡ some n → load_at loads c ≡ n
load_at-get_elem? loads c e = ap (λ o. elim o [ none ↦ 0 | some n ↦ n ]) e

pick_least :
    (ok : ℕ → Bool) (loads : List ℕ) (cpu n : ℕ)
    → get_elem? loads cpu ≡ some n
    → ok cpu ≡ true
    → (c : ℕ) × (index_of (idlest_from ok 0 loads none) ≡ some c)
      × (ok c ≡ true)
      × (load_at loads c ≤ load_at loads cpu)
pick_least ok loads cpu n e y =
    let (c, m, at, le) = of_AtMost (idlest_from ok 0 loads none) n (
      idlest_from-least ok 0 loads none cpu n e
        (ap ok (let e' : 0 + cpu ≡ cpu = omega arith in e') ∙ y)) in
    let (get, good) = picked ok loads c m at in
    (
      c,
      ap index_of at,
      good,
      omega (arith, le, load_at-get_elem? loads c get, load_at-get_elem? loads cpu e),
    )

index_of-eq-some : (o : Option (ℕ × ℕ)) (c : ℕ) → index_of o ≡ some c → (m : ℕ) × (o ≡ some (c, m))
index_of-eq-some none c e = cc
index_of-eq-some (some (d, m)) c e = let e' : d ≡ c = cc in (m, ap (λ x. some (x, m)) e')

pick_ok :
    (ok : ℕ → Bool) (loads : List ℕ) (c : ℕ)
    → index_of (idlest_from ok 0 loads none) ≡ some c
    → (c < length loads) × (ok c ≡ true)
pick_ok ok loads c e =
    let (m, at) = index_of-eq-some (idlest_from ok 0 loads none) c e in
    let (get, good) = picked ok loads c m at in (lt-of_get_elem? loads c get, good)

-- If some CPU below 64 may take a direction of a relay (it is in the mask of worker CPUs, its
-- thread is initialized, and it is on the node asked for when the node has a worker), then the
-- function picks a CPU that may take it, and no CPU below 64 that may take it has less load.
pub idlest_worker_total :
    (w : World) (socket : Option ℕ) (cpu : ℕ)
    → cpu < max_cpus
    → eligible w socket cpu ≡ true
    → (c : ℕ) × (naive_get_idlest_worker w socket ≡ some c)
      × (eligible w socket c ≡ true)
      × (load_at (loads_of w) c ≤ load_at (loads_of w) cpu)
unfolding naive_get_idlest_worker
idlest_worker_total w socket cpu h y =
    let (n, e) = get_elem?-of_lt (loads_of w) cpu (omega (arith, h, length-loads_of w)) in
    pick_least (eligible w socket) (loads_of w) cpu n e y

-- A CPU that the function picks is below 64, in the mask of worker CPUs, and its thread is
-- initialized.
pub idlest_worker-eligible :
    (w : World) (socket : Option ℕ) (c : ℕ)
    → naive_get_idlest_worker w socket ≡ some c
    → (c < max_cpus) × (eligible w socket c ≡ true)
unfolding naive_get_idlest_worker
idlest_worker-eligible w socket c e =
    let (lt, y) = pick_ok (eligible w socket) (loads_of w) c e in
    (omega (arith, lt, length-loads_of w), y)
