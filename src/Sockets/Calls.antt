-- ===== src/Sockets/Calls.antt =====
-- The parts of register_relay_socket that only call the vhost library or the file system.
use virtio_forwarder.Prelude.{Bool, true, false, ◌≡◌, refl, ◌∙◌, if◌then◌else◌, Bytes}
use virtio_forwarder.Prelude.Int.{is_error}
use virtio_forwarder.Sockets.{
  Server, S, ◌>>=◌, pure, Vhost, VhostCall, FileKind, no_file, socket_file, other_file, ask_vhost,
  call_vhost, clear_kind, clear_stale, set_features,
}
use virtio_forwarder.Sockets.Runs.{Runs, Runs-bind, Runs-weaken, OnlyCalls, OnlyCalls-refl}

-- A function that only calls the vhost library.
pub record Calls {A : Type 0} (m : S A) : Type 0 where
  pub only : (s : Server) → Runs m s (λ a s'. OnlyCalls s s')

pub Calls-pure : {A : Type 0} (a : A) → Calls (pure a)
Calls-pure a = record {
  only = λ s. record { result = a; state = s; runs = refl; holds = OnlyCalls-refl s };
}

pub Calls-bind :
    {A B : Type 0} {m : S A} {f : A → S B} → Calls m → ((a : A) → Calls (f a)) → Calls (m >>= f)
Calls-bind h k = record {
  only = λ s. Runs-bind (h.only s) λ a s' q. Runs-weaken ((k a).only s') λ b t r. record {
    world_same = r.world_same ∙ q.world_same;
    map_same = r.map_same ∙ q.map_same;
  };
}

pub Calls-if : {A : Type 0} {m k : S A} (b : Bool) → Calls m → Calls k → Calls (if b then m else k)
Calls-if true h g = h
Calls-if false h g = g

pub Calls-ask : (vh : Vhost) (c : VhostCall) → Calls (ask_vhost vh c)
unfolding ask_vhost
Calls-ask vh c = record {
  only = λ s. record {
    result = _;
    state = _;
    runs = refl;
    holds = record { world_same = refl; map_same = refl };
  };
}

pub Calls-call : (c : VhostCall) → Calls (call_vhost c)
unfolding call_vhost
Calls-call c = record {
  only = λ s. record {
    result = _;
    state = _;
    runs = refl;
    holds = record { world_same = refl; map_same = refl };
  };
}

-- A function that reads the state and goes on with calls.
Calls-at : {A : Type 0} {m : S A} → ((s : Server) → (k : S A) × (m s ≡ k s) × Calls k) → Calls m
Calls-at h = record {
  only = λ s.
      let (k, e, c) = h s in
      let r = c.only s in
      record { result = r.result; state = r.state; runs = e ∙ r.runs; holds = r.holds };
}

Calls-clear_kind : (vh : Vhost) (p : Bytes) (k : FileKind) → Calls (clear_kind vh p k)
Calls-clear_kind vh p no_file = Calls-pure _
Calls-clear_kind vh p other_file = Calls-pure _
Calls-clear_kind vh p socket_file =
    Calls-bind (Calls-ask vh _) λ err. Calls-if (is_error err) (Calls-pure _) (Calls-pure _)

pub Calls-clear_stale : (vh : Vhost) (p : Bytes) → Calls (clear_stale vh p)
unfolding clear_stale
Calls-clear_stale vh p = Calls-at λ s. (
  _,
  refl,
  Calls-if vh.vhost_client (Calls-pure _) (Calls-clear_kind vh p (vh.stat s.vhost_calls p)),
)

pub Calls-set_features : (vh : Vhost) (p : Bytes) → Calls (set_features vh p)
unfolding set_features
Calls-set_features vh p = Calls-bind (Calls-if vh.use_rx_mrgbuf (Calls-pure tt) (Calls-call _)) λ _.
    Calls-bind (Calls-call _)
      λ _. Calls-if vh.enable_tso (Calls-pure tt) (Calls-bind (Calls-call _) λ _. Calls-call _)
