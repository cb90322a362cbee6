-- ===== src/Options/Table/Kept.antt =====
-- The callbacks of the options and the defaults give a valid configuration.
use virtio_forwarder.Prelude.{
  ℕ, zero, suc, ◌≤◌, not, ◌==◌, Option, none, some, [], Bytes, codes, length, take, length-take,
  replicate, All, ◌≡◌, refl, ap, arith, if_intro, str_equal,
}
use virtio_forwarder.Scan.{spans}
use virtio_forwarder.Options.{
  VhostConf, Settings, Files, Callback, cmdline_set_master_lcore, cmdline_set_nodaemon,
  cmdline_set_ipc, cmdline_set_loglevel, cmdline_set_pid, cmdline_set_huge_dir,
  cmdline_set_ovsdb_path, cmdline_set_zmq_config_ep, cmdline_set_zmq_port_control_ep,
  cmdline_set_zmq_stats_ep, cmdline_set_zmq_core_sched_ep, cmdline_set_vhost_username,
  cmdline_set_vhost_groupname, cmdline_set_vhost_path, cmdline_set_vhost_socket,
  cmdline_show_version, cmdline_enable_jumbo, cmdline_enable_mrgbuf, cmdline_enable_vhostclient,
  cmdline_enable_zerocopy, cmdline_enable_tso, cmdline_enable_dynamic_sockets,
  cmdline_enable_same_numa, name_or_empty,
}
use virtio_forwarder.Options.Static.{cmdline_set_vfio_vf_token}
use virtio_forwarder.Options.Table.{opts, default_settings}
use virtio_forwarder.Options.Table.Valid.{
  IsValid, Keeps, Keeps-with_arg, Keeps-if_directory, BothBelow64, ShortDbdf, set_cpus-Valid,
  set_vf_cpus-Valid,
}
use virtio_forwarder.Options.Table.Entries.{add_static_vf-Valid}

-- The same configuration with other flags and strings.
pub with_strings :
    (max : ℕ) (v w : VhostConf)
    → IsValid max v
    → w.worker_core_bitmap ≡ v.worker_core_bitmap
    → w.relay_cpus ≡ v.relay_cpus
    → w.static_relays ≡ v.static_relays
    → w.num_static_entries ≡ v.num_static_entries
    → length w.socket_path ≤ 127
    → length w.socket_name ≤ 31
    → length w.vhost_username ≤ 31
    → length w.vhost_groupname ≤ 31
    → IsValid max w
with_strings max v w h mask cpus entries num path name user group = record {
  mask = rw mask h.mask;
  cpus = rw cpus h.cpus;
  cpus_length = rw cpus h.cpus_length;
  entries = rw entries h.entries;
  entries_length = rw entries h.entries_length;
  num_entries = rw num h.num_entries;
  path = path;
  name = name;
  user = user;
  group = group;
}

pub take-le : (n : ℕ) (s : Bytes) → length (take n s) ≤ n
take-le n s = omega (arith, length-take n s)

pub name_or_empty-le : (arg : Option Bytes) → length (name_or_empty arg) ≤ 31
name_or_empty-le none = omega arith
name_or_empty-le (some arg) = take-le 31 arg

-- Every callback of an option keeps the configuration valid.
abbrev pub KeepsValid : ℕ → Callback → Type 0
KeepsValid max f =
    (arg : Option Bytes) (i : ℕ) (s : Settings) → IsValid max s.vhost_conf → Keeps max (f arg i s)

pub token-Valid : (max : ℕ) → KeepsValid max cmdline_set_vfio_vf_token
unfolding cmdline_set_vfio_vf_token
token-Valid max arg i s h =
    Keeps-with_arg max _ i s
      (λ arg. if_intro (Keeps max) (str_equal arg []) _ _ h (
        if_intro (Keeps max) (str_equal arg (codes "0")) _ _ h
          (if_intro (Keeps max) (spans (λ c. not (c == b'%')) arg) _ _ h tt)))
      arg

pub opts-Valid : (max : ℕ) (stat : Files) → All (λ o. KeepsValid max o.func) (opts stat)
unfolding opts cmdline_set_master_lcore cmdline_set_nodaemon cmdline_set_ipc cmdline_set_loglevel
    cmdline_set_pid cmdline_set_huge_dir cmdline_set_ovsdb_path cmdline_set_zmq_config_ep
    cmdline_set_zmq_port_control_ep cmdline_set_zmq_stats_ep cmdline_set_zmq_core_sched_ep
    cmdline_set_vhost_username cmdline_set_vhost_groupname cmdline_set_vhost_path
    cmdline_set_vhost_socket cmdline_show_version cmdline_enable_jumbo cmdline_enable_mrgbuf
    cmdline_enable_vhostclient cmdline_enable_zerocopy cmdline_enable_tso
    cmdline_enable_dynamic_sockets cmdline_enable_same_numa
opts-Valid max stat =
    let flag : (v w : VhostConf)
        → IsValid max v
        → w.worker_core_bitmap ≡ v.worker_core_bitmap
        → w.relay_cpus ≡ v.relay_cpus
        → w.static_relays ≡ v.static_relays
        → w.num_static_entries ≡ v.num_static_entries
        → w.socket_path ≡ v.socket_path
        → w.socket_name ≡ v.socket_name
        → w.vhost_username ≡ v.vhost_username
        → w.vhost_groupname ≡ v.vhost_groupname
        → IsValid max w =
      λ v w h a b c d p n u g.
        with_strings max v w h a b c d (rw p h.path) (rw n h.name) (rw u h.user) (rw g h.group) in
    (
      set_cpus-Valid max,
      (
        (λ arg i s h. Keeps-with_arg max _ i s (λ a. h) arg),
        (
          (λ arg i s h. h),
          (
            (λ arg i s h. Keeps-with_arg max _ i s (λ a. h) arg),
            (
              (λ arg i s h.
                  Keeps-with_arg max _ i s (λ a. Keeps-if_directory max (stat a) s _ h h) arg),
              (
                (λ arg i s h.
                    Keeps-with_arg max _ i s (λ a. Keeps-if_directory max (stat a) s _ h h) arg),
                (
                  (λ arg i s h. Keeps-with_arg max _ i s (λ a. h) arg),
                  (
                    (λ arg i s h. h),
                    (
                      (λ arg i s h. h),
                      (
                        (λ arg i s h. h),
                        (
                          (λ arg i s h. h),
                          (
                            (λ arg i s h. h),
                            (
                              (λ arg i s h.
                                  with_strings max _ _ h refl refl refl refl h.path h.name
                                    (name_or_empty-le arg) h.group),
                              (
                                (λ arg i s h.
                                    with_strings max _ _ h refl refl refl refl h.path h.name h.user
                                      (name_or_empty-le arg)),
                                (
                                  (λ arg i s h.
                                      Keeps-with_arg max _ i s
                                        (λ a.
                                          with_strings max _ _ h refl refl refl refl (take-le 127 a)
                                            h.name h.user h.group)
                                        arg),
                                  (
                                    (λ arg i s h.
                                        Keeps-with_arg max _ i s
                                          (λ a.
                                            with_strings max _ _ h refl refl refl refl h.path
                                              (take-le 31 a) h.user h.group)
                                          arg),
                                    (
                                      set_vf_cpus-Valid max,
                                      (
                                        (λ arg i s h.
                                            flag _ _ h refl refl refl refl refl refl refl refl),
                                        (
                                          (λ arg i s h.
                                              flag _ _ h refl refl refl refl refl refl refl refl),
                                          (
                                            add_static_vf-Valid max stat,
                                            (
                                              token-Valid max,
                                              (
                                                (λ arg i s h.
                                                    flag _ _ h refl refl refl refl refl refl refl
                                                      refl),
                                                (
                                                  (λ arg i s h.
                                                      flag _ _ h refl refl refl refl refl refl refl
                                                        refl),
                                                  (
                                                    (λ arg i s h.
                                                        flag _ _ h refl refl refl refl refl refl
                                                          refl refl),
                                                    (
                                                      (λ arg i s h. h),
                                                      ((λ arg i s h. h), ((λ arg i s h. h), tt)),
                                                    ),
                                                  ),
                                                ),
                                              ),
                                            ),
                                          ),
                                        ),
                                      ),
                                    ),
                                  ),
                                ),
                              ),
                            ),
                          ),
                        ),
                      ),
                    ),
                  ),
                ),
              ),
            ),
          ),
        ),
      ),
    )

All-replicate {ℓ κ} : {A : Type ℓ} (P : A → Type κ) (n : ℕ) (a : A) → P a → All P (replicate n a)
All-replicate P zero a h = tt
All-replicate P (suc n) a h = (h, All-replicate P n a h)

length-replicate {ℓ} : {A : Type ℓ} (n : ℕ) (a : A) → length (replicate n a) ≡ n
length-replicate zero a = refl
length-replicate (suc n) a = ap suc (length-replicate n a)

pub default-Valid : (max : ℕ) → IsValid max (default_settings max).vhost_conf
unfolding default_settings
default-Valid max = record {
  mask = omega arith;
  cpus = All-replicate BothBelow64 max _ tt;
  cpus_length = length-replicate max _;
  entries = All-replicate ShortDbdf max _ (omega arith);
  entries_length = length-replicate max _;
  num_entries = omega arith;
  path = omega arith;
  name = omega arith;
  user = omega arith;
  group = omega arith;
}
