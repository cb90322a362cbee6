-- ===== src/Control/Steps.antt =====
-- What a function on the globals keeps of them, for a relation that holds along the steps of which
-- the function consists.
use virtio_forwarder.Prelude.{
  subst, and_then-eq-some, ℕ, ◌≡◌, Bool, true, false, Option, some, List, [], ◌∷◌, ◌++◌,
  if◌then◌else◌, get_elem?, set,
}
use virtio_forwarder.Prelude.Int.{ℤ, is_error}
use virtio_forwarder.World.{
  World, WorkerThread, M, ◌>>=◌, pure, get_relay, mark_update, marked, Eth, ask, record_call, check,
  DevCall,
}

-- A relation that does not look at the threads and the calls.
pub record IsFrame (R : World → World → Type 0) : Type 0 where
  pub same : (w : World) → R w w
  pub chain : (u v w : World) → R u v → R v w → R u w
  pub calls : (w : World) (c : DevCall) → R w (record w { calls = w.calls ++ c ∷ [] })
  pub threads : (w : World) (ts : List WorkerThread) → R w (record w { worker_threads = ts })

-- Each run of `m` that ends takes its globals to related ones.
abbrev pub Steps : (World → World → Type 0) → {A : Type 0} → M A → Type 0
Steps R {A} m = (w : World) (a : A) (w' : World) → m w ≡ some (a, w') → R w w'

pub run-end :
    {A : Type 0} {a b : A} {w w' : World}
    → ◌≡◌ {A = Option (A × World)} (some (a, w)) (some (b, w'))
    → w ≡ w'
run-end e = cc

module _ (R : World → World → Type 0) (frame : IsFrame R) where
  pub ends :
      {A : Type 0} (a b : A) (w v w' : World)
      → R w v
      → ◌≡◌ {A = Option (A × World)} (some (a, v)) (some (b, w'))
      → R w w'
  ends a b w v w' r e = subst (R w) (run-end e) r

  pub Steps-pure : {A : Type 0} (a : A) → Steps R (pure a)
  Steps-pure a w b w' e = ends a b w w w' (frame.same w) e

  pub Steps-bind :
      {A B : Type 0} (m : M A) (f : A → M B)
      → Steps R m
      → ((a : A) → Steps R (f a))
      → Steps R (m >>= f)
  Steps-bind m f hm hf w b w' e =
      let ((a, v), at, rest) = and_then-eq-some (m w) (λ p. f p.0 p.1) e in
      frame.chain w v w' (hm w a v at) (hf a v b w' rest)

  pub Steps-if :
      {A : Type 0} (b : Bool) (m n : M A) → Steps R m → Steps R n → Steps R (if b then m else n)
  Steps-if true m n hm hn = hm
  Steps-if false m n hm hn = hn

  pub Steps-check : (err code : ℤ) (m : M ℤ) → Steps R m → Steps R (check err code m)
  Steps-check err code m hm = Steps-if (is_error err) (pure code) m (Steps-pure code) hm

  pub Steps-get_relay : (id : ℕ) → Steps R (get_relay id)
  unfolding get_relay
  Steps-get_relay id w a w' e =
      let (r, at, rest) = and_then-eq-some (get_elem? w.relays id) (λ r. some (r, w)) e in
      ends r a w w w' (frame.same w) rest

  pub Steps-mark_update : (cpu : ℕ) → Steps R (mark_update cpu)
  unfolding mark_update
  Steps-mark_update cpu w a w' e =
      let (t, at, rest) =
        and_then-eq-some (get_elem? w.worker_threads cpu) (λ t. some (tt, marked w cpu t)) e in
      ends tt a w _ w'
        (frame.threads w (set w.worker_threads cpu (record t { need_update = true }))) rest

  pub Steps-ask : (eth : Eth) (c : DevCall) → Steps R (ask eth c)
  unfolding ask
  Steps-ask eth c w a w' e = ends (eth.answer w.calls c) a w _ w' (frame.calls w c) e

  pub Steps-record_call : (c : DevCall) → Steps R (record_call c)
  unfolding record_call
  Steps-record_call c w a w' e = ends tt a w _ w' (frame.calls w c) e
