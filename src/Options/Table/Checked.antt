-- ===== src/Options/Table/Checked.antt =====
-- The settings that the daemon starts with.
use virtio_forwarder.Prelude.{
  ℕ, ◌<◌, true, Option, none, some, List, [], ◌∷◌, and_then-eq-some, Bytes, All, ◌≡◌, refl, ap, ◌∙◌,
  arith, Bool-cases, inl, inr,
}
use virtio_forwarder.Prelude.Int.{is_error}
use virtio_forwarder.Bits.{test_bit}
use virtio_forwarder.World.{RelayCpus}
use virtio_forwarder.Cmdline.{Getopt, Result}
use virtio_forwarder.Cmdline.Keeps.{cmdline_parser-Holds}
use virtio_forwarder.Options.{Settings, Files}
use virtio_forwarder.Options.Table.{
  opts, default_settings, check_cpus, check_relays, go_on, with_core_bitmap, start_with, configure,
}
use virtio_forwarder.Options.Table.Valid.{IsValid, Both, BothCpus, BothBelow64}
use virtio_forwarder.Options.Table.Kept.{opts-Valid, default-Valid}

-- The CPUs of a relay, if it has any, are worker CPUs.
abbrev pub InMask : ℕ → RelayCpus → Type 0
InMask mask = BothCpus (λ cpu. test_bit mask cpu ≡ true)

check_cpus-Both :
    (mask : ℕ) (a b : Option ℕ)
    → Both (λ cpu. cpu < 64) a b
    → check_cpus mask a b ≡ some true
    → Both (λ cpu. test_bit mask cpu ≡ true) a b
check_cpus-Both mask none none h e = tt
check_cpus-Both mask none (some b) h e = absurd h
check_cpus-Both mask (some a) none h e = absurd h
check_cpus-Both mask (some a) (some b) h e = ground arith

check_relays-Checked :
    (mask : ℕ) (cs : List RelayCpus)
    → All BothBelow64 cs
    → check_relays mask cs ≡ some true
    → All (InMask mask) cs
unfolding check_relays
check_relays-Checked mask [] h e = tt
check_relays-Checked mask (c ∷ cs) h e =
    let (ok, one, rest) = and_then-eq-some (check_cpus mask c.vf2vio_cpu c.vio2vf_cpu) _ e in
    elim (Bool-cases ok) [
      | inl y ↦ (
        check_cpus-Both mask c.vf2vio_cpu c.vio2vf_cpu h.0 (one ∙ ap some y),
        check_relays-Checked mask cs h.1 (rw y at rest),
      )
      | inr n ↦ absurd (let k = rw n at rest in cc)
    ]

start_with-go_on :
    (max : ℕ) (r : Result Settings) (s : Settings)
    → IsValid max r.globals.vhost_conf
    → start_with r ≡ some (go_on s)
    → (s ≡ with_core_bitmap r.globals)
      × All (InMask r.globals.vhost_conf.worker_core_bitmap) r.globals.vhost_conf.relay_cpus
unfolding start_with
start_with-go_on max r s h e = elim (Bool-cases (is_error r.ret)) [
  | inl y ↦ absurd (let k = rw y at e in cc)
  | inr n ↦ elim (Bool-cases r.globals.show_version) [
    | inl y ↦ absurd (let k = rw (n, y) at e in cc)
    | inr m ↦
        let (ok, run, end) =
          and_then-eq-some
            (check_relays r.globals.vhost_conf.worker_core_bitmap r.globals.vhost_conf.relay_cpus) _
            (rw (n, m) at e) in
        elim (Bool-cases ok) [
          | inl y ↦ ((let k = rw y at end in cc), check_relays-Checked _ _ h.cpus (run ∙ ap some y))
          | inr z ↦ absurd (let k = rw z at end in cc)
        ]
  ]
]

-- When main goes on after the command line, whatever it is: the configuration is valid (the mask
-- has 64 bits, the tables have their lengths, strings and entries fit their arrays), the CPUs of
-- each relay are worker CPUs in both directions or are not configured, and DPDK gets the mask.
pub configure-Checked :
    (getopt : Getopt) (stat : Files) (max_relays : ℕ) (argv : List Bytes) (s : Settings)
    → configure getopt stat max_relays argv ≡ some (go_on s)
    → IsValid max_relays s.vhost_conf
      × All (InMask s.vhost_conf.worker_core_bitmap) s.vhost_conf.relay_cpus
      × (s.dpdk_cfg.core_bitmap ≡ s.vhost_conf.worker_core_bitmap)
unfolding configure
configure-Checked getopt stat max_relays argv s e =
    let (r, run, end) = and_then-eq-some _ _ e in
    let valid =
      cmdline_parser-Holds (λ t. IsValid max_relays t.vhost_conf) getopt (opts stat) argv _
        (default_settings max_relays) (opts-Valid max_relays stat) (default-Valid max_relays) run in
    let (same, inside) = start_with-go_on max_relays r s valid end in rw same (valid, inside, refl)
