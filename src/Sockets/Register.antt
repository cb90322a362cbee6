-- ===== src/Sockets/Register.antt =====
-- The outcomes of register_relay_socket and deregister_socket: both end, and what they do to the
-- table.
use virtio_forwarder.Prelude.{
  ℕ, ◌<◌, true, not, ◌||◌, Option, none, some, ◌≡◌, refl, sym, ◌∙◌, subst, ap, if◌then◌else◌,
  get_elem?, get_elem?-of_lt, set, length, Bytes,
}
use virtio_forwarder.Prelude.Int.{ℤ, pos, negsuc, is_error}
use virtio_forwarder.Sockets.{
  Server, S, ◌>>=◌, pure, Vhost, get_entry, set_entry, get_relay_for_sock, is_free_entry,
  take_entry, start_driver, register_relay_socket, deregister_socket, clear_entry,
}
use virtio_forwarder.Sockets.Table.{relay_for_sock-entry}
use virtio_forwarder.Sockets.Runs.{
  Runs, Runs-bind, Runs-if, Runs-weaken, OnlyCalls, OnlyCalls-refl, OnlyCalls-trans,
}
use virtio_forwarder.Sockets.Calls.{
  Calls, Calls-pure, Calls-bind, Calls-if, Calls-ask, Calls-call, Calls-clear_stale,
  Calls-set_features,
}

-- What register_relay_socket does with the table: nothing, with an error, or it takes the free
-- entry, and an error is then one of `chown`.
pub data Registered (s : Server) (p : Bytes) (id : ℕ) (c : ℤ) (s' : Server) : Type 0 where
  left_alone : s'.relay_ifname_map ≡ s.relay_ifname_map → is_error c ≡ true → Registered s p id c s'
  taken :
      get_elem? s.relay_ifname_map id ≡ some none
      → s'.relay_ifname_map ≡ set s.relay_ifname_map id (some p)
      → Registered s p id c s'

pub record Outcome (s : Server) (p : Bytes) (id : ℕ) (c : ℤ) (s' : Server) : Type 0 where
  pub world_same : s'.world ≡ s.world
  pub table : Registered s p id c s'

module _ (vh : Vhost) (p : Bytes) (id : ℕ) (s : Server) where
  refused :
      (t : Server) → OnlyCalls s t → (c : ℤ) → is_error c ≡ true → Runs (pure c) t (Outcome s p id)
  refused t q c e = record {
    result = c;
    state = t;
    runs = refl;
    holds = record { world_same = q.world_same; table = left_alone q.map_same e };
  }

  entry_set :
      (t : Server)
      → OnlyCalls s t
      → get_elem? s.relay_ifname_map id ≡ some none
      → Runs (set_entry id (some p)) t (λ u t'.
        (t'.world ≡ s.world) × (t'.relay_ifname_map ≡ set s.relay_ifname_map id (some p)))
  unfolding set_entry
  entry_set t q e = record {
    result = tt;
    state = record t { relay_ifname_map = set t.relay_ifname_map id (some p) };
    runs = rw (q.map_same, e) refl;
    holds = (q.world_same, ap (λ m. set m id (some p)) q.map_same);
  }

  then_calls :
      {m : S ℤ} (t : Server)
      → Calls m
      → t.world ≡ s.world
      → t.relay_ifname_map ≡ set s.relay_ifname_map id (some p)
      → get_elem? s.relay_ifname_map id ≡ some none
      → Runs m t (Outcome s p id)
  then_calls t h w m e =
      Runs-weaken (h.only t)
        λ c u q. record { world_same = q.world_same ∙ w; table = taken e (q.map_same ∙ m) }

  take_entry_lem :
      (t : Server)
      → OnlyCalls s t
      → get_elem? s.relay_ifname_map id ≡ some none
      → Runs (take_entry vh p id) t (Outcome s p id)
  unfolding take_entry
  take_entry_lem t q e = Runs-bind (entry_set t q e) λ u t' h.
      then_calls t'
        (Calls-if (vh.vhost_client || not vh.other_owner) (Calls-pure _) (
          Calls-bind (Calls-ask vh _) λ err. Calls-if (is_error err) (Calls-pure _) (Calls-pure _)))
        h.0 h.1 e

  -- A call, and what follows it.
  step :
      {A B : Type 0} {m : S A} {f : A → S B} {R : B → Server → Type 0} {t : Server}
      → Calls m
      → OnlyCalls s t
      → ((a : A) (t' : Server) → OnlyCalls s t' → Runs (f a) t' R)
      → Runs (m >>= f) t R
  step {t = t} h q k = Runs-bind (h.only t) λ a t' q'. k a t' (OnlyCalls-trans q q')

  start_driver_lem :
      (t : Server)
      → OnlyCalls s t
      → get_elem? s.relay_ifname_map id ≡ some none
      → Runs (start_driver vh p id) t (Outcome s p id)
  unfolding start_driver
  start_driver_lem t q e = step (Calls-ask vh _) q λ err t1 q1.
      Runs-if (is_error err) (λ h. refused t1 q1 _ refl)
        λ h. step (Calls-set_features vh p) q1 λ _ t2 q2. step (Calls-call _) q2 λ _ t3 q3.
          step (Calls-ask vh _) q3 λ started t4 q4.
            Runs-if (is_error started) (λ h. refused t4 q4 _ refl) (λ h. take_entry_lem t4 q4 e)

  entry_read :
      (t : Server) (x : Option Bytes)
      → OnlyCalls s t
      → get_elem? s.relay_ifname_map id ≡ some x
      → Runs (get_entry id) t (λ y u. (y ≡ x) × OnlyCalls s u)
  unfolding get_entry
  entry_read t x q e = record {
    result = x;
    state = t;
    runs = rw (q.map_same, e) refl;
    holds = (refl, q);
  }

  -- With the table read.
  register_free :
      (t : Server) (x : Option Bytes)
      → OnlyCalls s t
      → get_elem? s.relay_ifname_map id ≡ some x
      → Runs (if is_free_entry x then start_driver vh p id else pure (negsuc 0)) t (Outcome s p id)
  register_free t none q e = start_driver_lem t q e
  register_free t (some name) q e = refused t q _ refl

  pub register_relay_socket_lem :
      id < length s.relay_ifname_map → Runs (register_relay_socket vh p id) s (Outcome s p id)
  unfolding register_relay_socket
  register_relay_socket_lem h =
      let (x, e) = get_elem?-of_lt s.relay_ifname_map id h in
      step (Calls-clear_stale vh p) (OnlyCalls-refl s) λ stale t q.
        Runs-if (is_error stale) (λ h. refused t q _ refl)
          λ h. Runs-bind (entry_read t x q e) λ y u (yx, q').
            subst
              (λ z.
                Runs (if is_free_entry z then start_driver vh p id else pure (negsuc 0)) u
                  (Outcome s p id))
              (sym yx) (register_free u x q' e)

-- What deregister_socket does with the table.
pub data Deregistered (s : Server) (p : Bytes) (c : ℤ) (s' : Server) : Type 0 where
  unknown :
      get_relay_for_sock s.relay_ifname_map p ≡ none
      → s'.relay_ifname_map ≡ s.relay_ifname_map
      → c ≡ pos 1
      → Deregistered s p c s'
  released :
      (id : ℕ)
      → get_relay_for_sock s.relay_ifname_map p ≡ some id
      → s'.relay_ifname_map ≡ set s.relay_ifname_map id none
      → Deregistered s p c s'

pub deregister_socket_lem :
    (vh : Vhost) (p : Bytes) (s : Server)
    → Runs (deregister_socket vh p) s (λ c s'. (s'.world ≡ s.world) × Deregistered s p c s')
unfolding deregister_socket set_entry
deregister_socket_lem vh p s = Runs-bind ((Calls-ask vh _).only s) λ err t q. found err t q _ refl
  where
    found :
        (err : ℤ) (t : Server)
        → OnlyCalls s t
        → (o : Option ℕ) → get_relay_for_sock s.relay_ifname_map p ≡ o
        → Runs
            (λ s. clear_entry err (get_relay_for_sock s.relay_ifname_map p) s)
            t
            (λ c s'. (s'.world ≡ s.world) × Deregistered s p c s')
    found err t q none e = record {
      result = pos 1;
      state = t;
      runs = rw (q.map_same, e) refl;
      holds = (q.world_same, unknown e q.map_same refl);
    }
    found err t q (some id) e = record {
      result = err;
      state = record t { relay_ifname_map = set t.relay_ifname_map id none };
      runs = rw (q.map_same, e, relay_for_sock-entry s.relay_ifname_map p id e) refl;
      holds = (q.world_same, released id e (ap (λ m. set m id none) q.map_same));
    }
