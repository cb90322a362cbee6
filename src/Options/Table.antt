-- ===== src/Options/Table.antt =====
-- The table of the options, the defaults, and what main of virtio_forwarder_main.c does with the
-- command line before the daemon starts.
pub mod Valid
pub mod Entries
pub mod Kept
pub mod Checked
use virtio_forwarder.Prelude.{
  ℕ, zero, suc, ◌+◌, ◌≤◌, ◌<◌, Bool, true, false, not, ◌&&◌, ◌||◌, Option, none, some, List, [],
  ◌∷◌, ◌++◌, ◌==◌, ltb, if◌then◌else◌, and_then, Bytes, codes, length, replicate,
}
use virtio_forwarder.Prelude.Int.{ℤ, pos, negsuc, is_error}
use virtio_forwarder.Bits.{test_bit}
use virtio_forwarder.World.{RelayCpus}
use virtio_forwarder.Cmdline.{Opt, Getopt, Result, cmdline_parser}
use virtio_forwarder.Options.{
  StaticRelay, VhostConf, DpdkConf, Settings, Files, Callback, cmdline_set_master_lcore,
  cmdline_set_nodaemon, cmdline_set_ipc, cmdline_set_loglevel, cmdline_set_pid,
  cmdline_set_huge_dir, cmdline_set_ovsdb_path, cmdline_set_zmq_config_ep,
  cmdline_set_zmq_port_control_ep, cmdline_set_zmq_stats_ep, cmdline_set_zmq_core_sched_ep,
  cmdline_set_vhost_username, cmdline_set_vhost_groupname, cmdline_set_vhost_path,
  cmdline_set_vhost_socket, cmdline_show_version, cmdline_enable_jumbo, cmdline_enable_mrgbuf,
  cmdline_enable_vhostclient, cmdline_enable_zerocopy, cmdline_enable_tso,
  cmdline_enable_dynamic_sockets, cmdline_enable_same_numa,
}
use virtio_forwarder.Options.Cpus.{cmdline_set_cpus, cmdline_set_vf_cpus}
use virtio_forwarder.Options.Static.{cmdline_add_static_vf, cmdline_set_vfio_vf_token}
use Prim.Native.String.{String}

-- An option with no flags.
abbrev option : String → (opt_short : ℕ) → Callback → (has_arg : ℕ) → Opt Settings
option name short func has_arg = record {
  opt_long = codes name;
  opt_short = short;
  mandatory = false;
  terminate = false;
  func = func;
  has_arg = has_arg;
}

unfoldable pub opts : Files → List (Opt Settings)
opts stat =
    record (option "cpus" b'C' cmdline_set_cpus 1) { mandatory = true }
    ∷ option "master-lcore" b'M' cmdline_set_master_lcore 1
    ∷ option "nodaemon" b'n' cmdline_set_nodaemon 2
    ∷ option "loglevel" b'l' cmdline_set_loglevel 1
    ∷ option "pid-path" b'p' (cmdline_set_pid stat) 1
    ∷ option "huge-dir" b'H' (cmdline_set_huge_dir stat) 1
    ∷ option "ovsdb-sock" b'O' cmdline_set_ovsdb_path 1
    ∷ option "zmq-config-ep" b'Y' cmdline_set_zmq_config_ep 2
    ∷ option "zmq-port-control-ep" b'Z' cmdline_set_zmq_port_control_ep 2
    ∷ option "zmq-stats-ep" b'z' cmdline_set_zmq_stats_ep 2
    ∷ option "zmq-core-sched-ep" b's' cmdline_set_zmq_core_sched_ep 2
    ∷ option "ipc" b'I' cmdline_set_ipc 0
    ∷ option "vhost-username" b'u' cmdline_set_vhost_username 2
    ∷ option "vhost-groupname" b'g' cmdline_set_vhost_groupname 2
    ∷ option "vhost-path" b'V' cmdline_set_vhost_path 1
    ∷ option "vhost-socket" b'S' cmdline_set_vhost_socket 1
    ∷ option "virtio-cpu" b'c' cmdline_set_vf_cpus 1
    ∷ option "enable-jumbo" b'J' cmdline_enable_jumbo 0
    ∷ option "enable-mrgbuf" b'R' cmdline_enable_mrgbuf 0
    ∷ option "add-pci-vf" b'P' (cmdline_add_static_vf stat) 1
    ∷ option "vfio-vf-token" b't' cmdline_set_vfio_vf_token 1
    ∷ option "vhostuser-client" b'i' cmdline_enable_vhostclient 0
    ∷ option "zero-copy" b'0' cmdline_enable_zerocopy 0
    ∷ option "enable-tso" b'T' cmdline_enable_tso 0
    ∷ option "dynamic-sockets" b'd' cmdline_enable_dynamic_sockets 0
    ∷ option "same-numa" b'a' cmdline_enable_same_numa 0
    ∷ record (option "version" b'v' cmdline_show_version 0) { terminate = true }
    ∷ []

unfoldable pub default_dpdk : DpdkConf
default_dpdk = record {
  log_level = 6;
  master_lcore = 0;
  huge_dir = codes "/mnt/huge";
  vfio_vf_token = codes "14d63f20-8445-11ea-8900-1f9ce7d5650d";
  core_bitmap = 0;
  use_jumbo = false;
  enable_tso = false;
  enable_same_numa = false;
  enable_vfio_vf_token = false;
}

unfoldable pub default_vhost : (max_relays : ℕ) → VhostConf
default_vhost max_relays = record {
  worker_core_bitmap = 0;
  socket_path = codes "/tmp";
  socket_name = codes "virtio-forwarder%u.sock";
  vhost_username = codes "libvirt-qemu";
  vhost_groupname = codes "kvm";
  relay_cpus = replicate max_relays (record { vf2vio_cpu = none; vio2vf_cpu = none });
  static_relays = replicate max_relays (record { pci_dbdf = []; virtio_id = 0 });
  num_static_entries = 0;
  use_jumbo = false;
  use_rx_mrgbuf = false;
  vhost_client = false;
  zerocopy = false;
  enable_tso = false;
}

unfoldable pub default_settings : (max_relays : ℕ) → Settings
unfolding default_dpdk default_vhost
default_settings max_relays = record {
  pidpath = codes "/var/run";
  daemonize = true;
  log_syslog = true;
  use_zmq_config = false;
  use_zmq_port_control = false;
  use_zmq_stats = false;
  use_zmq_core_sched = false;
  use_ipc = false;
  show_version = false;
  dpdk_cfg = default_dpdk;
  ovsdb_sock_path = codes "/usr/local/var/run/openvswitch/db.sock";
  zmq_config_ep = codes "ipc:///var/run/virtio-forwarder/config";
  zmq_port_control_ep = codes "ipc:///var/run/virtio-forwarder/port_control";
  zmq_stats_ep = codes "ipc:///var/run/virtio-forwarder/stats";
  zmq_core_sched_ep = codes "ipc:///var/run/virtio-forwarder/core_sched";
  vhost_conf = default_vhost max_relays;
  create_vhostuser_sockets = true;
}

-- Whether the CPUs of one relay are worker CPUs; a shift by -1 is undefined.
abbrev pub check_cpus : (mask : ℕ) → (vf2vio_cpu vio2vf_cpu : Option ℕ) → Option Bool
check_cpus mask none b = some true
check_cpus mask (some a) none = if test_bit mask a then none else some false
check_cpus mask (some a) (some b) = if test_bit mask a then some (test_bit mask b) else some false

-- The loop over the relays.
unfoldable pub check_relays : (mask : ℕ) → List RelayCpus → Option Bool
check_relays mask [] = some true
check_relays mask (c ∷ cs) =
    and_then (check_cpus mask c.vf2vio_cpu c.vio2vf_cpu)
      λ ok. if ok then check_relays mask cs else some false

-- What main does up to the start: it exits with a code, or goes on with the settings.
pub data Start : Type 0 where
  exit : ℕ → Start
  go_on : Settings → Start

-- `dpdk_cfg.core_bitmap = vhost_conf.worker_core_bitmap;`
abbrev pub with_core_bitmap : Settings → Settings
with_core_bitmap s = record s {
  dpdk_cfg = record (s.dpdk_cfg) { core_bitmap = s.vhost_conf.worker_core_bitmap };
}

abbrev pub checked : Settings → Bool → Start
checked s ok = if ok then go_on (with_core_bitmap s) else exit 1

unfoldable pub start_with : Result Settings → Option Start
unfolding check_relays
start_with r =
    if is_error r.ret
    then some (exit 1)
    else if r.globals.show_version
    then some (exit 0)
    else and_then
        (check_relays r.globals.vhost_conf.worker_core_bitmap r.globals.vhost_conf.relay_cpus)
        λ ok. some (checked r.globals ok)

unfoldable pub configure : Getopt → Files → (max_relays : ℕ) → (argv : List Bytes) → Option Start
unfolding opts default_settings start_with
configure getopt stat max_relays argv =
    and_then
      (cmdline_parser getopt (opts stat) argv
        (record { ignore_unknown = false; ignore_extra = false }) (default_settings max_relays))
      start_with
