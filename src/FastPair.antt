-- ===== src/FastPair.antt =====
-- src/fast_pair/: the parts of the Fast Pair manager that keep state of their own.
pub mod Commands
pub mod Keys
pub mod Retry
pub mod Stream
pub mod Messages
pub mod Connection
pub mod AudioSwitch
pub mod Capabilities
pub mod Provider
