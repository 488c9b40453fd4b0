-- ===== src/Maestro.antt =====
-- src/maestro/protocol.rs: the data of the Maestro protocol. `usize` has 64 bits, and a `u32` or
-- `u64` is a native number below 2 ^ 32 or 2 ^ 64.
pub mod Varint
pub mod Fields
pub mod Packet
pub mod Frame
pub mod Runtime
use bt_daemon.Base.{ℕ, List, Result, Option, ◌^◌, ◌<◌}

-- Why a message is refused. `stuck` is no error of the source: the loop of `fields` ran out of
-- fuel, which it never does.
pub data Error : Type 0 where
  truncated varint_exceeds_u64 key_too_large field_zero : Error
  wire_type : ℕ → Error
  field_too_large : Error
  invalid_level : ℕ → Error
  escaping frame_truncated checksum_mismatch address_unterminated no_control : Error
  unsupported_control : ℕ → Error
  too_long stuck : Error

abbrev pub IsU32 : ℕ → Type 0
IsU32 n = n < 2 ^ 32

abbrev pub IsU64 : ℕ → Type 0
IsU64 n = n < 2 ^ 64
