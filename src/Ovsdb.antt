-- ===== src/Ovsdb.antt =====
-- The monitor of OVSDB (ovsdb_mon.c), which reads the rows that ovsdb-client prints and adds and
-- removes the VFs that they name.
pub mod Buffer
pub mod Quote
pub mod Fields
pub mod Map
pub mod Client
