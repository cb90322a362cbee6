-- ===== src/Main.antt =====
-- main of virtio_forwarder_main.c, from the start of the services to the return: which services are
-- started and stopped, in which order, and the code that is returned. Whether a service starts and
-- the code with which a server stops are parameters.
pub mod Order
use virtio_forwarder.Prelude.{
  ℕ, Bool, true, false, not, Option, none, some, List, [], ◌∷◌, ◌++◌, if◌then◌else◌, reverse,
}
use virtio_forwarder.Prelude.Int.{ℤ, pos, negsuc, is_error}
use virtio_forwarder.Options.{Settings}

-- The environment abstraction layer of DPDK, the sockets, the servers of ZeroMQ and the monitors.
pub data Service : Type 0 where
  dpdk_eal vhostuser config_server stats_server port_control_server : Service
  file_mon ovsdb_mon core_sched_server : Service

pub data Event : Type 0 where
  start stop : Service → Event

abbrev pub when : Bool → Service → List Service → List Service
when use_it service rest = if use_it then service ∷ rest else rest

-- How ports are added and removed: by messages, by a file or by OVSDB.
abbrev pub port_service : Settings → Service
port_service s =
    if s.use_zmq_port_control
    then port_control_server
    else if s.use_ipc
    then file_mon
    else ovsdb_mon

-- The services in the order in which main starts them.
unfoldable pub services : Settings → List Service
services s =
    dpdk_eal
    ∷ vhostuser
    ∷ when s.use_zmq_config config_server (
        when s.use_zmq_stats stats_server
          (port_service s ∷ when s.use_zmq_core_sched core_sched_server []))

-- Starting one after the other; a service that does not start ends the program.
pub record Starting : Type 0 where
  pub events : List Event
  pub started : Bool

unfoldable pub start_services : (starts : Service → Bool) → List Service → Starting
start_services starts [] = record { events = []; started = true }
start_services starts (s ∷ ss) =
    let rest = start_services starts ss in
    if starts s
    then record { events = start s ∷ rest.events; started = rest.started }
    else record { events = start s ∷ []; started = false }

abbrev pub stop_when : Bool → Service → List Event → List Event
stop_when use_it service rest = if use_it then stop service ∷ rest else rest

-- What main stops when it has been told to, in its order.
unfoldable pub stop_services : Settings → List Event
stop_services s = stop_when s.use_zmq_core_sched core_sched_server (
    stop (port_service s)
    ∷ stop_when s.use_zmq_stats stats_server
        (stop_when s.use_zmq_config config_server (stop vhostuser ∷ stop dpdk_eal ∷ [])))

-- The code of a server that has been stopped, 0 for one that is not used.
abbrev pub stop_rc : (rc : Service → ℤ) → Bool → Service → ℤ
stop_rc rc use_it service = if use_it then rc service else pos 0

abbrev pub first_error : ℤ → ℤ → ℤ
first_error a b = if is_error a then a else b

unfoldable pub main_rc : (rc : Service → ℤ) → Settings → ℤ
main_rc rc s = first_error (stop_rc rc s.use_zmq_core_sched core_sched_server) (
    first_error (stop_rc rc s.use_zmq_port_control port_control_server) (
      first_error (stop_rc rc s.use_zmq_stats stats_server)
        (stop_rc rc s.use_zmq_config config_server)))

-- A run of main, and the code that it exits with or returns.
pub record Run : Type 0 where
  pub events : List Event
  pub code : ℤ

unfoldable pub run_main : (starts : Service → Bool) → (rc : Service → ℤ) → Settings → Run
unfolding services start_services stop_services main_rc
run_main starts rc s =
    let up = start_services starts (services s) in
    if up.started
    then record { events = up.events ++ stop_services s; code = main_rc rc s }
    else record { events = up.events; code = negsuc 0 }
