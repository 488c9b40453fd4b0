-- ===== src/Bluez.antt =====
-- src/bluez/: the parts of the BlueZ backend that keep state of their own.
pub mod LinkSignal
