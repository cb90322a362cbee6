-- ===== src/Options.antt =====
-- The options of the daemon (virtio_forwarder_main.c): the globals that they set, and the callbacks
-- that store a flag, a number or a string.
pub mod Cpus
pub mod Static
pub mod Table
pub mod Overflow
use virtio_forwarder.Prelude.{
  ℕ, ◌+◌, Bool, true, false, not, Option, none, some, List, [], ◌∷◌, ◌==◌, if◌then◌else◌, take,
  Bytes, codes, str_equal,
}
use virtio_forwarder.Prelude.Int.{ℤ, pos}
use virtio_forwarder.World.{RelayCpus}
use virtio_forwarder.Sockets.Names.{atoi}

-- `struct static_relay_entry`
pub record StaticRelay : Type 0 where
  pub pci_dbdf : Bytes
  pub virtio_id : ℕ

-- `struct virtio_vhostuser_conf`: a CPU that is not configured, -1 in C, is `none`. MAX_RELAYS is
-- the length of both arrays.
pub record VhostConf : Type 0 where
  pub worker_core_bitmap : ℕ
  pub socket_path : Bytes
  pub socket_name : Bytes
  pub vhost_username : Bytes
  pub vhost_groupname : Bytes
  pub relay_cpus : List RelayCpus
  pub static_relays : List StaticRelay
  pub num_static_entries : ℕ
  pub use_jumbo : Bool
  pub use_rx_mrgbuf : Bool
  pub vhost_client : Bool
  pub zerocopy : Bool
  pub enable_tso : Bool

-- `struct dpdk_conf`
pub record DpdkConf : Type 0 where
  pub log_level : ℕ
  pub master_lcore : ℕ
  pub huge_dir : Bytes
  pub vfio_vf_token : Bytes
  pub core_bitmap : ℕ
  pub use_jumbo : Bool
  pub enable_tso : Bool
  pub enable_same_numa : Bool
  pub enable_vfio_vf_token : Bool

pub record Settings : Type 0 where
  pub pidpath : Bytes
  pub daemonize : Bool
  pub log_syslog : Bool
  pub use_zmq_config : Bool
  pub use_zmq_port_control : Bool
  pub use_zmq_stats : Bool
  pub use_zmq_core_sched : Bool
  pub use_ipc : Bool
  pub show_version : Bool
  pub dpdk_cfg : DpdkConf
  pub ovsdb_sock_path : Bytes
  pub zmq_config_ep : Bytes
  pub zmq_port_control_ep : Bytes
  pub zmq_stats_ep : Bytes
  pub zmq_core_sched_ep : Bytes
  pub vhost_conf : VhostConf
  pub create_vhostuser_sockets : Bool

-- stat(2): whether a path is a directory, if there is something.
abbrev pub Files : Type 0
Files = Bytes → Option Bool

-- A callback on its argument; `none` is an access outside an array or undefined behaviour.
abbrev pub Callback : Type 0
Callback = Option Bytes → ℕ → Settings → Option (Settings × ℤ)

abbrev pub done : Settings → Option (Settings × ℤ)
done s = some (s, pos 0)

-- An option that must have an argument: getopt_long gives one.
abbrev pub with_arg : (Bytes → Settings → Option (Settings × ℤ)) → Callback
with_arg f none i s = none
with_arg f (some arg) i s = f arg s

-- A flag or a string that is stored whatever it is.
abbrev pub store : (Settings → Settings) → Callback
store f arg i s = done (f s)

abbrev pub store_arg : (Bytes → Settings → Settings) → Callback
store_arg f = with_arg λ arg s. done (f arg s)

abbrev pub in_vhost : (VhostConf → VhostConf) → Settings → Settings
in_vhost f s = record s { vhost_conf = f s.vhost_conf }

abbrev pub in_dpdk : (DpdkConf → DpdkConf) → Settings → Settings
in_dpdk f s = record s { dpdk_cfg = f s.dpdk_cfg }

unfoldable pub cmdline_set_master_lcore : Callback
cmdline_set_master_lcore = store_arg λ arg. in_dpdk λ d. record d { master_lcore = atoi arg }

unfoldable pub is_log_syslog : Option Bytes → Bool
is_log_syslog none = false
is_log_syslog (some arg) = str_equal arg (codes "log_syslog")

unfoldable pub cmdline_set_nodaemon : Callback
unfolding is_log_syslog
cmdline_set_nodaemon arg i s =
    done (record s {
      log_syslog = if is_log_syslog arg then s.log_syslog else false;
      daemonize = false;
    })

unfoldable pub cmdline_set_ipc : Callback
cmdline_set_ipc = store λ s. record s { use_ipc = true }

unfoldable pub cmdline_set_loglevel : Callback
cmdline_set_loglevel = store_arg λ arg. in_dpdk λ d. record d { log_level = atoi arg }

-- `stat` must find a directory.
abbrev pub if_directory : Option Bool → Settings → Settings → Option (Settings × ℤ)
if_directory none s s' = some (s, pos 1)
if_directory (some is_dir) s s' = if is_dir then done s' else some (s, pos 1)

unfoldable pub cmdline_set_pid : Files → Callback
cmdline_set_pid stat =
    with_arg λ arg s. if_directory (stat arg) s (record s { pidpath = take 99 arg })

unfoldable pub cmdline_set_huge_dir : Files → Callback
cmdline_set_huge_dir stat =
    with_arg
      λ arg s. if_directory (stat arg) s (in_dpdk (λ d. record d { huge_dir = take 31 arg }) s)

unfoldable pub cmdline_set_ovsdb_path : Callback
cmdline_set_ovsdb_path = store_arg λ arg s. record s { ovsdb_sock_path = take 127 arg }

-- An endpoint keeps its default without an argument.
abbrev pub endpoint : Option Bytes → Bytes → Bytes
endpoint none ep = ep
endpoint (some arg) ep = take 1023 arg

unfoldable pub cmdline_set_zmq_config_ep : Callback
cmdline_set_zmq_config_ep arg i s =
    done (record s { zmq_config_ep = endpoint arg s.zmq_config_ep; use_zmq_config = true })

unfoldable pub cmdline_set_zmq_port_control_ep : Callback
cmdline_set_zmq_port_control_ep arg i s = done (record s {
  zmq_port_control_ep = endpoint arg s.zmq_port_control_ep;
  use_zmq_port_control = true;
})

unfoldable pub cmdline_set_zmq_stats_ep : Callback
cmdline_set_zmq_stats_ep arg i s =
    done (record s { zmq_stats_ep = endpoint arg s.zmq_stats_ep; use_zmq_stats = true })

unfoldable pub cmdline_set_zmq_core_sched_ep : Callback
cmdline_set_zmq_core_sched_ep arg i s = done (record s {
  zmq_core_sched_ep = endpoint arg s.zmq_core_sched_ep;
  use_zmq_stats = true;
  use_zmq_core_sched = true;
})

-- A name that is empty without an argument.
abbrev pub name_or_empty : Option Bytes → Bytes
name_or_empty none = []
name_or_empty (some arg) = take 31 arg

unfoldable pub cmdline_set_vhost_username : Callback
cmdline_set_vhost_username arg i =
    λ s. done (in_vhost (λ v. record v { vhost_username = name_or_empty arg }) s)

unfoldable pub cmdline_set_vhost_groupname : Callback
cmdline_set_vhost_groupname arg i =
    λ s. done (in_vhost (λ v. record v { vhost_groupname = name_or_empty arg }) s)

unfoldable pub cmdline_set_vhost_path : Callback
cmdline_set_vhost_path = store_arg λ arg. in_vhost λ v. record v { socket_path = take 127 arg }

unfoldable pub cmdline_set_vhost_socket : Callback
cmdline_set_vhost_socket = store_arg λ arg. in_vhost λ v. record v { socket_name = take 31 arg }

unfoldable pub cmdline_show_version : Callback
cmdline_show_version = store λ s. record s { show_version = true }

unfoldable pub cmdline_enable_jumbo : Callback
cmdline_enable_jumbo = store λ s.
    in_vhost (λ v. record v { use_jumbo = true }) (in_dpdk (λ d. record d { use_jumbo = true }) s)

unfoldable pub cmdline_enable_mrgbuf : Callback
cmdline_enable_mrgbuf = store (in_vhost λ v. record v { use_rx_mrgbuf = true })

unfoldable pub cmdline_enable_vhostclient : Callback
cmdline_enable_vhostclient = store (in_vhost λ v. record v { vhost_client = true })

unfoldable pub cmdline_enable_zerocopy : Callback
cmdline_enable_zerocopy = store (in_vhost λ v. record v { zerocopy = true })

unfoldable pub cmdline_enable_tso : Callback
cmdline_enable_tso = store λ s.
    in_dpdk (λ d. record d { enable_tso = true }) (in_vhost (λ v. record v { enable_tso = true }) s)

unfoldable pub cmdline_enable_dynamic_sockets : Callback
cmdline_enable_dynamic_sockets = store λ s. record s { create_vhostuser_sockets = false }

unfoldable pub cmdline_enable_same_numa : Callback
cmdline_enable_same_numa = store (in_dpdk λ d. record d { enable_same_numa = true })
