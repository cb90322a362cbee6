-- ===== src/Control/Add/Outcome.antt =====
-- The outcomes of virtio_forwarder_add_vf2.
use virtio_forwarder.Prelude.{
  ℕ, ◌≡◌, refl, ap, sym, ◌∙◌, Bool, true, false, ◌&&◌, Option, none, some, List, [], ◌∷◌, get_elem?,
  if◌then◌else◌, and_then-eq-some, arith, Bool-cases, inl, inr,
}
use virtio_forwarder.Prelude.Int.{ℤ, pos, is_error}
use virtio_forwarder.Relay.{Relay, DpdkState, dpdk_added, dpdk_ready, is_virtio_ready}
use virtio_forwarder.World.{World, M, ◌>>=◌, pure, update_relay, Eth, dev_start, dev_stop}
use virtio_forwarder.Cpu.{is_dpdk_uninit, is_added_or_ready}
use virtio_forwarder.Control.{start_eth_dev, pci_dbdf_equal}
use virtio_forwarder.Control.Steps.{
  IsFrame, Steps, Steps-pure, Steps-bind, Steps-if, Steps-get_relay, Steps-ask,
}
use virtio_forwarder.Control.Keeps.{Keeps, Keeps-IsFrame, Steps-update}
use virtio_forwarder.Control.Setup.{Steps-cleanup, Steps-init_vf}
use mathlib.Core.Bool.{false≢true}
use virtio_forwarder.Control.Add.{
  attach, attach_steps, configure_dev_with_virtio, add_new_vf, add_vf2, add_vf2_at,
  conditional_add_ok,
}

pci_dbdf_equal_refl : (s : List ℕ) → pci_dbdf_equal s s ≡ true
unfolding pci_dbdf_equal
pci_dbdf_equal_refl [] = refl
pci_dbdf_equal_refl (c ∷ s) = ground (arith, pci_dbdf_equal_refl s)

not_uninit : (s : DpdkState) → is_added_or_ready s ≡ true → is_dpdk_uninit s ≡ false
not_uninit s e = ground arith

again_ok :
    (r : Relay) (id : ℕ)
    → is_added_or_ready r.dpdk.state ≡ true
    → r.id ≡ id
    → conditional_add_ok r r.dpdk.pci_dbdf id ≡ true
unfolding conditional_add_ok
again_ok r id state same = ground (arith, pci_dbdf_equal_refl r.dpdk.pci_dbdf)

-- Adding again the VF that a relay has, on condition, returns 0 and changes nothing: no call into
-- DPDK is made and the globals stay as they are. The relay is ADDED or READY and knows its own id.
pub add_vf2-again :
    (eth : Eth) (w : World) (id : ℕ) (r : Relay)
    → get_elem? w.relays id ≡ some r
    → is_added_or_ready r.dpdk.state ≡ true
    → r.id ≡ id
    → add_vf2 eth r.dpdk.pci_dbdf id true w ≡ some (pos 0, w)
unfolding add_vf2 conditional_add_ok
add_vf2-again eth w id r at state same =
    rw (at, not_uninit r.dpdk.state state, again_ok r id state same) refl

-- On a relay that has a VF, or is giving one back, an addition without condition returns 8, or 1 if
-- there is no relay of that id, and changes nothing.
pub add_vf2-refused :
    (eth : Eth) (w : World) (pci_dbdf : List ℕ) (id : ℕ)
    → ((r : Relay) → get_elem? w.relays id ≡ some r → is_dpdk_uninit r.dpdk.state ≡ false)
    → add_vf2 eth pci_dbdf id false w
      ≡ some (elim (get_elem? w.relays id) [ none ↦ pos 1 | some r ↦ pos 8 ], w)
unfolding add_vf2
add_vf2-refused eth w dbdf id taken = go (get_elem? w.relays id) taken
  where
    go :
        (o : Option Relay)
        → ((r : Relay) → o ≡ some r → is_dpdk_uninit r.dpdk.state ≡ false)
        → add_vf2_at eth dbdf id false o w
          ≡ some (elim o as (λ _. ℤ) [ none ↦ pos 1 | some r ↦ pos 8 ], w)
    go none h = refl
    go (some r) h = rw (h r refl) refl

-- The same DPDK side.
abbrev pub SameDpdk : Relay → Relay → Type 0
SameDpdk r s = s.dpdk ≡ r.dpdk

-- A run that returns an error takes its globals to related ones.
abbrev pub Fails : (World → World → Type 0) → M ℤ → Type 0
Fails R m =
    (w : World) (code : ℤ) (w' : World) → m w ≡ some (code, w') → is_error code ≡ true → R w w'

abbrev pub Zero : M ℤ → Type 0
Zero m = (w : World) (code : ℤ) (w' : World) → m w ≡ some (code, w') → is_error code ≡ false

pub Zero-pure : (c : ℤ) → is_error c ≡ false → Zero (pure c)
Zero-pure c ok w code w' e = let same : c ≡ code = cc in ap is_error (sym same) ∙ ok

Zero-attach :
    (dbdf : List ℕ) (port_id id : ℕ) (is_bond : Bool) (n : ℕ) (s : DpdkState)
    → Zero (attach dbdf port_id id is_bond n s)
unfolding attach
Zero-attach dbdf p id is_bond n s w code w' e =
    let ((done, v), at, rest) =
      and_then-eq-some (attach_steps dbdf p id is_bond n s w)
        (λ (p : Unit {0} × World). pure (pos 0) p.1) e in
    Zero-pure (pos 0) refl v code w' rest

module _ (id : ℕ) where
  abbrev R : World → World → Type 0
  R = Keeps id SameDpdk

  abbrev frame : IsFrame R
  frame = Keeps-IsFrame id SameDpdk (λ r. refl) (λ a b c p q. q ∙ p)

  pub Fails-bind :
      {A : Type 0} (m : M A) (f : A → M ℤ)
      → Steps R m
      → ((a : A) → Fails R (f a))
      → Fails R (m >>= f)
  Fails-bind m f hm hf w code w' e bad =
      let ((a, v), at, rest) = and_then-eq-some (m w) (λ p. f p.0 p.1) e in
      frame.chain w v w' (hm w a v at) (hf a v code w' rest bad)

  pub Fails-if : (b : Bool) (m n : M ℤ) → Fails R m → Fails R n → Fails R (if b then m else n)
  Fails-if true m n hm hn = hm
  Fails-if false m n hm hn = hn

  pub Fails-Steps : (m : M ℤ) → Steps R m → Fails R m
  Fails-Steps m h w code w' e bad = h w code w' e

  Fails-Zero : (m : M ℤ) → Zero m → Fails R m
  Fails-Zero m h w code w' e bad = absurd (false≢true (sym (h w code w' e) ∙ bad))

  pub Fails-retry :
      (m : M ℤ) (f : ℤ → M ℤ)
      → Fails R m
      → ((c : ℤ) → Steps R (f c))
      → ((c : ℤ) → is_error c ≡ false → Zero (f c))
      → Fails R (m >>= f)
  Fails-retry m f hm hs hz w code w' e bad =
      let ((c, v), at, rest) = and_then-eq-some (m w) (λ p. f p.0 p.1) e in
      elim (Bool-cases (is_error c)) [
        | inl failed ↦ frame.chain w v w' (hm w c v at failed) (hs c v code w' rest)
        | inr ok ↦ absurd (false≢true (sym (hz c ok v code w' rest) ∙ bad))
      ]

  pools :
      (pool : ℕ)
      → Steps R (update_relay id λ r. record r { vio = record (r.vio) { mempool = some pool } })
  pools pool = Steps-update id SameDpdk (λ r. refl) (λ a b c p q. q ∙ p) _ λ r. refl

  module _ (eth : Eth) (dbdf : List ℕ) where
    pub Fails-configure :
        (port_id : ℕ) (is_bond : Bool) (n : ℕ)
        → Fails R (configure_dev_with_virtio eth dbdf port_id id is_bond n)
    unfolding configure_dev_with_virtio start_eth_dev
    Fails-configure p is_bond n = Fails-bind _ _ (Steps-get_relay R frame id) λ r.
        Fails-if (is_virtio_ready r.vio.state) _ _
          (Fails-bind _ _ (Steps-ask R frame eth (dev_start p)) λ err.
            Fails-if (is_error err) _ _ (Fails-Steps _ (Steps-pure R frame (pos 1)))
              (Fails-Zero _ (Zero-attach dbdf p id is_bond n dpdk_ready)))
          (Fails-bind _ _ (Steps-ask R frame eth (dev_stop p))
            λ stopped. Fails-Zero _ (Zero-attach dbdf p id is_bond n dpdk_added))

    Fails-add_new_vf : Fails R (add_new_vf eth dbdf id)
    unfolding add_new_vf
    Fails-add_new_vf = Fails-bind _ _ (Steps-init_vf R frame eth id pools dbdf 0) λ answer.
        Fails-if (is_error answer.0) _ _ (Fails-Steps _ (Steps-pure R frame answer.0)) (
          Fails-retry _ _ (Fails-configure answer.1 false 0)
            (λ code.
              Steps-if R frame (is_error code) _ _
                (Steps-bind R frame _ _ (Steps-cleanup R frame eth answer.1)
                  λ cleaned. Steps-pure R frame code)
                (Steps-pure R frame code))
            (λ code ok. rw ok (Zero-pure code ok)))

    Fails-add_vf2_at :
        (conditional : Bool) (o : Option Relay) → Fails R (add_vf2_at eth dbdf id conditional o)
    Fails-add_vf2_at conditional none = Fails-Steps _ (Steps-pure R frame (pos 1))
    Fails-add_vf2_at conditional (some r) =
        Fails-if (is_dpdk_uninit r.dpdk.state) _ _ Fails-add_new_vf (
          Fails-Steps _ (
            Steps-if R frame (conditional && conditional_add_ok r dbdf id) _ _
              (Steps-pure R frame (pos 0)) (Steps-pure R frame (pos 8))))

-- When virtio_forwarder_add_vf2 returns an error, whatever call into DPDK has failed, the DPDK side
-- of the relay is as it was before (so a relay without a VF is still without), and so are all other
-- relays.
pub add_vf2-error :
    (eth : Eth) (pci_dbdf : List ℕ) (id : ℕ) (conditional : Bool) (w : World) {code : ℤ}
    {w' : World}
    → add_vf2 eth pci_dbdf id conditional w ≡ some (code, w')
    → is_error code ≡ true
    → Keeps id SameDpdk w w'
unfolding add_vf2
add_vf2-error eth dbdf id conditional w e bad =
    Fails-add_vf2_at id eth dbdf conditional (get_elem? w.relays id) w _ _ e bad
