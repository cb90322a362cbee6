-- ===== src/Sockets/Runs.antt =====
-- Reasoning about the functions on the globals with the socket table: Runs says that a function
-- ends and what it leaves behind, Post only what it leaves behind if it ends.
use mathlib.Core.Option.{some-injective}
use virtio_forwarder.Prelude.{
  subst, sym, ◌∙◌, Bool, true, false, some, ◌≡◌, refl, if◌then◌else◌, and_then-eq-some,
}
use virtio_forwarder.World.{M}
use virtio_forwarder.Sockets.{Server, S, pure, fault, ◌>>=◌, on_world, VhostCall, called}

pub record Runs {A : Type 0} (m : S A) (s : Server) (Q : A → Server → Type 0) : Type 0 where
  pub result : A
  pub state : Server
  pub runs : m s ≡ some (result, state)
  pub holds : Q result state

pub record Post {A : Type 0} (m : S A) (s : Server) (Q : A → Server → Type 0) : Type 0 where
  pub post : (a : A) (s' : Server) → m s ≡ some (a, s') → Q a s'

module _ {A B : Type 0} {m : S A} {f : A → S B} {s : Server} {Q : A → Server → Type 0}
    {R : B → Server → Type 0} where
  pub Runs-bind :
      Runs m s Q → ((a : A) (s' : Server) → Q a s' → Runs (f a) s' R) → Runs (m >>= f) s R
  Runs-bind h k =
      let r = k h.result h.state h.holds in
      record { result = r.result; state = r.state; runs = rw h.runs r.runs; holds = r.holds }

  pub Post-bind :
      Post m s Q → ((a : A) (s' : Server) → Q a s' → Post (f a) s' R) → Post (m >>= f) s R
  Post-bind h k = record {
    post = λ b t e.
        let (p, e', e'') = and_then-eq-some (m s) (λ p. f p.0 p.1) e in
        (k p.0 p.1 (h.post p.0 p.1 e')).post b t e'';
  }

module _ {A : Type 0} {m k : S A} {s : Server} {Q : A → Server → Type 0} where
  pub Runs-if :
      (b : Bool)
      → (b ≡ true → Runs m s Q)
      → (b ≡ false → Runs k s Q)
      → Runs (if b then m else k) s Q
  Runs-if true h g = h refl
  Runs-if false h g = g refl

  pub Post-if :
      (b : Bool)
      → (b ≡ true → Post m s Q)
      → (b ≡ false → Post k s Q)
      → Post (if b then m else k) s Q
  Post-if true h g = h refl
  Post-if false h g = g refl

module _ {A : Type 0} {m : S A} {s : Server} {Q : A → Server → Type 0} where
  pub Runs-Post : Runs m s Q → Post m s Q
  Runs-Post h = record {
    post = λ b t e. subst (λ p. Q p.0 p.1) (some-injective _ _ (sym h.runs ∙ e)) h.holds;
  }

  pub Runs-weaken :
      {R : A → Server → Type 0}
      → Runs m s Q
      → ((a : A) (s' : Server) → Q a s' → R a s')
      → Runs m s R
  Runs-weaken h k = record {
    result = h.result;
    state = h.state;
    runs = h.runs;
    holds = k _ _ h.holds;
  }

-- What the worker's functions leave alone.
pub record SameSockets (s s' : Server) : Type 0 where
  pub map_same : s'.relay_ifname_map ≡ s.relay_ifname_map
  pub calls_same : s'.vhost_calls ≡ s.vhost_calls

pub Post-on_world :
    {A : Type 0} (m : M A) (s : Server) → Post (on_world m) s (λ a s'. SameSockets s s')
unfolding on_world
Post-on_world m s = record {
  post = λ a s' e.
      let (p, e', e'') =
        and_then-eq-some (m s.world) (λ p. some (p.0, record s { world = p.1 })) e in
      subst (λ q. SameSockets s q.1) (some-injective _ _ e'')
        (record { map_same = refl; calls_same = refl });
}

-- The calls into the vhost library change nothing else.
pub record OnlyCalls (s s' : Server) : Type 0 where
  pub world_same : s'.world ≡ s.world
  pub map_same : s'.relay_ifname_map ≡ s.relay_ifname_map

pub OnlyCalls-refl : (s : Server) → OnlyCalls s s
OnlyCalls-refl s = record { world_same = refl; map_same = refl }

pub OnlyCalls-called : (s s' : Server) (c : VhostCall) → OnlyCalls s s' → OnlyCalls s (called s' c)
OnlyCalls-called s s' c h = record { world_same = h.world_same; map_same = h.map_same }

pub OnlyCalls-trans : {s t u : Server} → OnlyCalls s t → OnlyCalls t u → OnlyCalls s u
OnlyCalls-trans h k = record {
  world_same = k.world_same ∙ h.world_same;
  map_same = k.map_same ∙ h.map_same;
}

pub Post-pure :
    {A : Type 0} (a : A) {s : Server} {Q : A → Server → Type 0} → Q a s → Post (pure a) s Q
Post-pure a {s} {Q} q = record { post = λ b t e. subst (λ p. Q p.0 p.1) (some-injective _ _ e) q }

pub Post-fault : {A : Type 0} {s : Server} {Q : A → Server → Type 0} → Post (fault {A = A}) s Q
Post-fault = record { post = λ b t e. cc }

pub SameSockets-trans : {s t u : Server} → SameSockets s t → SameSockets t u → SameSockets s u
SameSockets-trans h k = record {
  map_same = k.map_same ∙ h.map_same;
  calls_same = k.calls_same ∙ h.calls_same;
}

pub Post-weaken :
    {A : Type 0} {m : S A} {s : Server} {Q R : A → Server → Type 0}
    → Post m s Q
    → ((a : A) (s' : Server) → Q a s' → R a s')
    → Post m s R
Post-weaken h k = record { post = λ a s' e. k a s' (h.post a s' e) }
