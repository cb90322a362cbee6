-- ===== src/Sockets/Defaults.antt =====
-- The default sockets of virtio_vhostuser_start: each relay is found by the name of its socket.
use mathlib.Core.Option.{some-injective}
use native.Mathlib.Decide.{ℕ_discrete}
use virtio_forwarder.Prelude.{
  ℕ, zero, suc, ◌+◌, ◌≤◌, ◌<◌, ◌^◌, false, Option, none, some, List, ◌≡◌, refl, sym, ◌∙◌, ap, subst,
  arith, length, length-set, get_elem?, get_elem?-set_self, get_elem?-set_ne, lt-of_get_elem?, set,
  Bytes,
}
use virtio_forwarder.Prelude.Int.{ℤ, pos, is_error}
use virtio_forwarder.Sockets.{Server, Vhost, get_relay_for_sock}
use virtio_forwarder.Sockets.Names.{virtio_vhostuser_id_to_name, virtio_vhostuser_name_to_id}
use virtio_forwarder.Sockets.Names.RoundTrip.{name_to_id-id_to_name, head_digit}
use virtio_forwarder.Sockets.Table.{Distinct, relay_for_sock_self}
use virtio_forwarder.Sockets.Runs.{Runs, Runs-bind, Runs-if, Runs-weaken}
use virtio_forwarder.Sockets.Register.{register_relay_socket_lem, Registered, left_alone, taken}
use virtio_forwarder.Sockets.Start.{register_default_sockets}

module _ (vh : Vhost) (prefix suffix : Bytes) where
  -- The relays below `k` have the names of their sockets, those from `k` on have none.
  record Filled (n k : ℕ) (m : List (Option Bytes)) : Type 0 where
    size : length m ≡ n
    low :
        (j : ℕ)
        → j < k
        → get_elem? m j ≡ some (some (virtio_vhostuser_id_to_name prefix suffix j 266))
    high : (j : ℕ) → k ≤ j → j < n → get_elem? m j ≡ some none

  Filled-set :
      (n k : ℕ) (m : List (Option Bytes))
      → k < n
      → Filled n k m
      → Filled n (k + 1) (set m k (some (virtio_vhostuser_id_to_name prefix suffix k 266)))
  Filled-set n k m h f = record {
    size = length-set m k _ ∙ f.size;
    low = λ j lt. elim (ℕ_discrete j k) [
      | yes e ↦
          subst
            (λ i.
              get_elem? (set m k (some (virtio_vhostuser_id_to_name prefix suffix k 266))) i
              ≡ some (some (virtio_vhostuser_id_to_name prefix suffix i 266)))
            (sym e) (get_elem?-set_self m k _ (omega (arith, f.size, h)))
      | no ne ↦ get_elem?-set_ne m _ (λ e. ne (sym e)) ∙ f.low j (omega (arith, ne, lt))
    ];
    high = λ j le lt. get_elem?-set_ne m _ (omega arith) ∙ f.high j (omega arith) lt;
  }

  fill :
      (n rest k : ℕ) (s : Server)
      → k + rest ≡ n
      → Filled n k s.relay_ifname_map
      → Runs
          (register_default_sockets vh prefix suffix rest k)
          s
          (λ c s'. is_error c ≡ false → Filled n n s'.relay_ifname_map)
  unfolding register_default_sockets
  fill n zero k s h f = record {
    result = pos 0;
    state = s;
    runs = refl;
    holds = λ e. subst (λ i. Filled n i s.relay_ifname_map) (omega arith) f;
  }
  fill n (suc rest) k s h f =
      Runs-bind (register_relay_socket_lem vh _ k s (omega (arith, f.size))) λ c t o.
        Runs-if (is_error c) (λ e. record { result = c; state = t; runs = refl; holds = λ e'. cc })
          (λ e. fill n rest (k + 1) t (omega arith) (filled t c e o.table))
    where
      filled :
          (t : Server) (c : ℤ)
          → is_error c ≡ false
          → Registered s (virtio_vhostuser_id_to_name prefix suffix k 266) k c t
          → Filled n (k + 1) t.relay_ifname_map
      filled t c e (left_alone m e') = cc
      filled t c e (taken g m) =
          subst (Filled n (k + 1)) (sym m) (Filled-set n k s.relay_ifname_map (omega arith) f)

  module _ (n : ℕ) (fits : n ≤ 2 ^ 32) (hp : length prefix < 128) (hs : length suffix < 128)
      (stop : head_digit suffix ≡ false) where
    read_back :
        (j : ℕ)
        → j < n
        → virtio_vhostuser_name_to_id prefix suffix n
            (virtio_vhostuser_id_to_name prefix suffix j 266)
          ≡ some j
    read_back j h = name_to_id-id_to_name prefix suffix n j hp hs stop fits h

    Filled-Distinct : (m : List (Option Bytes)) → Filled n n m → Distinct m
    Filled-Distinct m f = record {
      apart = λ i j p ei ej.
          let hi : i < n = omega (arith, f.size, lt-of_get_elem? m i ei) in
          let hj : j < n = omega (arith, f.size, lt-of_get_elem? m j ej) in
          some-injective _ _ (
            sym (read_back i hi)
            ∙ ap (virtio_vhostuser_name_to_id prefix suffix n)
                (name_is i p hi ei ∙ sym (name_is j p hj ej))
            ∙ read_back j hj);
    }
      where
        name_is :
            (i : ℕ) (p : Bytes)
            → i < n
            → get_elem? m i ≡ some (some p)
            → virtio_vhostuser_id_to_name prefix suffix i 266 ≡ p
        name_is i p h e = some-injective _ _ (some-injective _ _ (sym (f.low i h) ∙ e))

-- With a prefix and a suffix that fit their buffers and a suffix that does not begin with a digit,
-- the loop over an empty table of at most 2 ^ 32 relays ends, and if it gives 0, each relay is
-- found by the name of its default socket.
pub register_default_sockets_lem :
    (vh : Vhost) (prefix suffix : Bytes) (n : ℕ) (s : Server)
    → n ≤ 2 ^ 32
    → length prefix < 128
    → length suffix < 128
    → head_digit suffix ≡ false
    → length s.relay_ifname_map ≡ n
    → ((j : ℕ) → j < n → get_elem? s.relay_ifname_map j ≡ some none)
    → Runs (register_default_sockets vh prefix suffix n 0) s λ c s'.
      is_error c ≡ false
      → (id : ℕ) → id < n
      → get_relay_for_sock s'.relay_ifname_map (virtio_vhostuser_id_to_name prefix suffix id 266)
        ≡ some id
register_default_sockets_lem vh prefix suffix n s fits hp hs stop size empty =
    Runs-weaken
      (fill vh prefix suffix n n 0 s (omega arith)
        (record { size = size; low = λ j lt. absurd (omega arith); high = λ j le lt. empty j lt }))
      λ c t f e id h.
        let g = f e in
        relay_for_sock_self t.relay_ifname_map _ id
          (Filled-Distinct vh prefix suffix n fits hp hs stop t.relay_ifname_map g) (g.low id h)
