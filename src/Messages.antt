-- ===== src/Messages.antt =====
-- The requests that other programs send to the daemon (zmq_port_control.c, zmq_core_sched.c,
-- zmq_stats.c, zmq_config.c). The transport and the encoding of messages are libraries' work: a
-- request is the message that the decoder gives, or nothing if it cannot be decoded.
pub mod PortRequest
pub mod PortControl
pub mod CoreSched
pub mod Stats
pub mod Config
pub mod Server
