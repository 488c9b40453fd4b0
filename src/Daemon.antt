-- ===== src/Daemon.antt =====
-- src/daemon: the coordinators behind the service.
pub mod Published
pub mod Scan
