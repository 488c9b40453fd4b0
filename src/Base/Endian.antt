-- ===== src/Base/Endian.antt =====
-- `to_le_bytes`, `to_be_bytes` and their inverses on words of one, two and four bytes.
use bt_daemon.Base.Lists.{All}
use Prim.Native.Nat.{ℕ, ◌+◌, ◌*◌, ◌/◌, ◌%◌, ◌^◌, ◌<◌}
use mathlib.Core.Path.{◌≡◌}
use mathlib.Core.List.{List, [], ◌∷◌}
use native.Mathlib.Omega.{arith}

abbrev pub IsByte : ℕ → Type 0
IsByte b = b < 256

abbrev pub IsBytes : List ℕ → Type 0
IsBytes = All IsByte

-- `u32::to_le_bytes`
abbrev pub le_bytes32 : ℕ → List ℕ
le_bytes32 v = v % 256 ∷ v / 256 % 256 ∷ v / 65536 % 256 ∷ v / 16777216 % 256 ∷ []

-- `u32::to_be_bytes`
abbrev pub be_bytes32 : ℕ → List ℕ
be_bytes32 v = v / 16777216 % 256 ∷ v / 65536 % 256 ∷ v / 256 % 256 ∷ v % 256 ∷ []

-- `u16::to_le_bytes`
abbrev pub le_bytes16 : ℕ → List ℕ
le_bytes16 v = v % 256 ∷ v / 256 % 256 ∷ []

-- `u16::to_be_bytes`
abbrev pub be_bytes16 : ℕ → List ℕ
be_bytes16 v = v / 256 % 256 ∷ v % 256 ∷ []

-- `from_le_bytes`, at any width
abbrev pub from_le_bytes : List ℕ → ℕ
from_le_bytes [] = 0
from_le_bytes (b ∷ bs) = b + 256 * from_le_bytes bs

pub from_le_bytes-le_bytes32 : (v : ℕ) → v < 2 ^ 32 → from_le_bytes (le_bytes32 v) ≡ v
from_le_bytes-le_bytes32 v h = omega arith

pub from_le_bytes-le_bytes16 : (v : ℕ) → v < 2 ^ 16 → from_le_bytes (le_bytes16 v) ≡ v
from_le_bytes-le_bytes16 v h = omega arith
