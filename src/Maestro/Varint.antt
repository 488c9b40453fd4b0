-- ===== src/Maestro/Varint.antt =====
-- src/maestro/protocol.rs: `take`, `read_varint` and `put_varint`.
pub mod RoundTrip
pub mod Bounds
use Prim.Native.Nat.{bit_and, bit_or}
use mathlib.Core.Logic.{dite}
use mathlib.Core.WellFounded.{Acc}
use native.Mathlib.Decide.{dec_le}
use bt_daemon.Base.{
  ℕ, zero, suc, ◌+◌, ◌*◌, ◌/◌, ◌%◌, ◌^◌, ◌≤◌, ◌<◌, List, [], ◌∷◌, ◌++◌, Result, ok, err, ◌>>=◌, leb,
  ◌==◌, if◌then◌else◌, length, take, drop, arith,
}
use bt_daemon.Base.Order.{lt_wf}
use bt_daemon.Maestro.{Error, truncated, varint_exceeds_u64}

-- `take`: the bytes taken, and the rest to which the slice is advanced.
pub take_bytes : List ℕ → ℕ → Result Error (List ℕ × List ℕ)
take_bytes bytes n = if leb n (length bytes) then ok (take n bytes, drop n bytes) else err truncated

-- `take(bytes, 1)?[0]`
pub take_byte : List ℕ → Result Error (ℕ × List ℕ)
take_byte [] = err truncated
take_byte (byte ∷ bytes) = ok (byte, bytes)

-- `value |= u64::from(byte & 0x7f) << shift`
abbrev pub add_group : ℕ → ℕ → ℕ → ℕ
add_group value byte shift = bit_or value (bit_and byte 0x7f * 2 ^ shift % 2 ^ 64)

-- The loop of `read_varint`, by the rounds left, and the tenth byte behind it.
pub read_groups : ℕ → ℕ → ℕ → List ℕ → Result Error (ℕ × List ℕ)
unfolding take_byte
read_groups zero shift value bytes = take_byte bytes >>= λ t.
    if leb t.0 1 then ok (bit_or value (t.0 * 2 ^ 63 % 2 ^ 64), t.1) else err varint_exceeds_u64
read_groups (suc rounds) shift value bytes = take_byte bytes >>= λ t.
    let more = read_groups rounds (shift + 7) (add_group value t.0 shift) t.1 in
    if bit_and t.0 0x80 == 0 then ok (add_group value t.0 shift, t.1) else more

-- `(0..63).step_by(7)` has nine values.
unfoldable pub read_varint : List ℕ → Result Error (ℕ × List ℕ)
unfolding read_groups
read_varint bytes = read_groups 9 0 0 bytes

pub shift_shrinks : (value : ℕ) → 128 ≤ value → value / 128 < value
shift_shrinks value h = omega arith

-- `value as u8` is `value % 256`, and `value >>= 7` is `value / 128`.
pub put_loop : List ℕ → (value : ℕ) → Acc ◌<◌ value → List ℕ
put_loop bytes value (Acc.intro _ smaller) =
    dite (dec_le 128 value)
      (λ more.
        put_loop (bytes ++ (bit_or (value % 256) 0x80 ∷ [])) (value / 128)
          (smaller _ (shift_shrinks value more)))
      (λ _. bytes ++ (value % 256 ∷ []))

unfoldable pub put_varint : List ℕ → ℕ → List ℕ
unfolding put_loop lt_wf
put_varint bytes value = put_loop bytes value (lt_wf.apply value)
