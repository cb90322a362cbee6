-- ===== src/Lib.antt =====
-- A model of virtio-forwarder, the daemon that relays packets between virtio guests and SR-IOV VFs.
--
-- The daemon keeps a table of relays. A relay has a virtio side (a guest behind a vhost-user socket)
-- and a DPDK side (a VF or a bond). Worker threads, one for each CPU of a mask, forward the packets of
-- the relays; the main thread adds and removes guests and VFs while they run, and gives each direction
-- of a relay a CPU. Other programs ask for pairs of a socket and a VF, for moves to other CPUs and for
-- statistics by messages; guests come and go on the sockets. This library models virtio_worker.c and
-- virtio_worker.h:
--   Relay, Relay/Hash     the state enums, the relay with its two sides and its counters
--                         (virtio_worker.h), and calc_eth_header_hash
--   World                 the globals: relays, worker threads, mask of worker CPUs; the monad of the
--                         control functions; the calls into DPDK and their answers
--   Bits                  the 64-bit masks: set, clear and test of a bit, popcount, the ffs loops
--   Queues                virtio_forwarder_vring_state_change and calc_mbuf_queue
--   Datapath/Io           the bursts of DPDK, and the freeing of buffered packets
--   Datapath/Down         relay_vm2vf_traffic with virtio_rx, dpdk_tx and worker_remove_vf
--   Datapath/Up           relay_vf2vm_traffic with dpdk_rx, virtio_tx and worker_remove_virtio
--   Datapath/Removal      the removal of a VF across the two directions
--   Cpu                   naive_get_idlest_worker, find_vf2virtio_cpu, find_virtio2vf_cpu,
--                         update_thread and migrate_relay_cpus
--   Control               cleanup_eth_dev, alloc_mempool, dev_queue_configure, init_vf
--   Control/Add           virtio_forwarder_add_vf2
--   Control/Bond          virtio_forwarder_bond_add
--   Control/Remove        virtio_forwarder_remove_vf2
--   Control/Guest         virtio_forwarder_add_virtio, virtio_forwarder_remove_virtio, migrate_mempool
--   Workers               virtio_forwarders_initialize, worker_func
-- of virtio_vhostuser.c:
--   Sockets               the table of socket paths, register_relay_socket, deregister_socket
--   Sockets/Names         the names of the default sockets
--   Sockets/Pairs         virtio_add_sock_dev_pair, virtio_remove_sock_dev_pair, virtio_query_pci, which call
--                         Control/Add, Control/Bond and Control/Remove
--   Sockets/Device        the callbacks of the vhost library, which call Control/Guest and Queues
--   Sockets/Start         the template of the names, and the loops over the sockets at start and stop
-- of zmq_port_control.c, zmq_core_sched.c and zmq_stats.c:
--   Messages/PortControl  handle_PortControlRequest, which calls Control and Sockets/Pairs
--   Messages/CoreSched    handle_CoreSchedRequest, which calls migrate_relay_cpus of Cpu
--   Messages/Stats        virtio_forwarder_get_stats, relay_query, handle_StatsRequest
-- of zmq_config.c and zmq_server.c:
--   Messages/Config       handle_ConfigRequest
--   Messages/Server       the thread of a server: init_zmq, zmq_thread_loop
-- of ovsdb_mon.c, file_mon.c and sriov.c, which add and remove VFs by Control:
--   Ovsdb/Buffer          the arrays of characters
--   Ovsdb/Fields          extract_field, unquote
--   Ovsdb/Map             parse_map; Ovsdb/Map/Strtol is strtol of the C library
--   Ovsdb/Client          process_external_ids, parse_ovsdb_client
--   FileMon               scan_file
--   Sriov                 get_VF_PCIE_from_netdev; Scan is what it uses of sscanf and strtok
-- of cmdline.c and virtio_forwarder_main.c:
--   Cmdline               cmdline_parser
--   Options               the globals, and the callbacks that store a flag or a string
--   Options/Cpus          cmdline_set_cpus, cmdline_set_vf_cpus
--   Options/Static        cmdline_add_static_vf, cmdline_set_vfio_vf_token
--   Options/Table         the table of the options, the defaults, and the tests of main
--   Main                  the services that main starts and stops
-- and
--   Examples              concrete relays, on which the theorems are applied
-- Below Queues, Datapath, Cpu, Control, Workers, Sockets, Messages, Ovsdb, Cmdline, Options and Main
-- stand the proofs, in modules named for what they prove.
--
-- Conventions. The build is that of DPDK 22.03 or later with bonding, without VIRTIO_ECHO and
-- VIRTIO_RETRY_ENQUEUE. A C array is a list of the array's length; an access outside an array, a
-- failed assertion and a loop that does not end give `none`. Counters wrap at 2 ^ 64, `unsigned`
-- sums and differences at 2 ^ 32. CPU numbers and NUMA sockets that C holds in an `int` with -1
-- are options; MAX_RELAYS is the length of the table of relays. Packets have a trace: which ones
-- the VF and the guest accepted and which ones were freed, in order.
--
-- Strings are lists of character codes. The constants of lengths (128 bytes for a path, 8 slaves,
-- 64 bytes for a device name) are those of the headers. In ovsdb_mon.c, where the arrays are not
-- initialised and are filled from the front, an array is the list of the characters that have
-- been set, and a read behind them gives `none`; the 65535 characters of an array bound the reads
-- of the socket and with them all that is written. Ovsdb/Map says how a run of parse_map ends.
--
-- Parameters. The bursts of DPDK are the functions of Datapath/Io.Io, of which Datapath/Io.IsIo
-- says what DPDK documents: no more packets than asked for, no more accepted than offered; what
-- the loop of virtio_rx reads of the mask of transmit queues, which is volatile, is one of these
-- functions too. The calls of the control functions are answered by World.Eth, which may depend
-- on all calls before. The calls of the vhost library and of the file system are answered by
-- Sockets.Vhost in the same way. The hash rte_jhash_32b is any function. A request is what the
-- protobuf decoder gives, if it gives anything. The size of an encoded statistics response is a
-- function of it. getopt_long, stat, the output of ethtool and what is there to read are
-- functions; a run of a server thread is a list of rounds, each of which says what ZeroMQ
-- answers; whether a service starts is a function of the service. In Control/Remove and
-- Control/Guest the argument `sleep` says what the worker threads do while the main thread waits.
--
-- Fuel. The loop of virtio_rx over the queues has one round more than there are queue pairs,
-- which is enough if a queue is enabled in all of them; a loop that would only end later, because
-- another thread enables a queue meanwhile, gives `none`. The loops over the bits of a mask have
-- 64 rounds, one for each bit; the waits have the 20 rounds of the code. The state machine of
-- parse_map has four rounds more than twice the characters, since no state moves back and a round
-- that uses no character is followed by one that uses one or ends; the loops over the lines and
-- the reads have a round for each character.
--
-- Not modelled: spinlocks, memory barriers and interleavings inside a forwarding function, the
-- rates of the statistics, which are floating-point, offload flags, the encoding of messages, the
-- directory of the default sockets; the processes, PID files, pipes and threads of the monitors
-- and servers (zmq_server_start, zmq_server_stop, zmq_service.c); usage texts, argv.c, cpuinfo.c,
-- ugid.c, log.c and dpdk_eal.c, which read or set up the system.
pub mod Prelude
pub mod Bits
pub mod Relay
pub mod Queues
pub mod Datapath
pub mod World
pub mod Cpu
pub mod Control
mod Examples
pub mod Sockets
pub mod Messages
pub mod Workers
pub mod Scan
pub mod Sriov
pub mod Ovsdb
pub mod Cmdline
pub mod Options
pub mod Main
pub mod FileMon
