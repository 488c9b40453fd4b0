-- ===== src/RssiHelper.antt =====
-- src/rssi_helper.rs and src/rssi_helper/mgmt.rs: the broker that reads the signal strength of
-- connected devices.
pub mod Limits
pub mod Mgmt
pub mod Helper
