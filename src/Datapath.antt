-- ===== src/Datapath.antt =====
-- The forwarding functions that a worker thread runs on a relay (virtio_worker.c).
pub mod Balance
pub mod Io
pub mod Down
pub mod Up
pub mod Removal
