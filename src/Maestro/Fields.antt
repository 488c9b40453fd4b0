-- ===== src/Maestro/Fields.antt =====
-- src/maestro/protocol.rs: `Value` and `fields`, the protobuf wire format.
pub mod RoundTrip
pub mod Total
use bt_daemon.Maestro.{Error, stuck, wire_type, key_too_large, field_zero}
use bt_daemon.Base.{
  List, Result, Option, length, ok, [], if◌then◌else◌, ◌∷◌, err, ◌==◌, ◌>>=◌, ◌>>◌, some, none,
  ◌++◌, zero, ensure, ltb, ◌^◌, not, ◌/◌, ◌%◌,
}
use Prim.Native.Nat.{ℕ, suc}
use bt_daemon.Base.Endian.{from_le_bytes}
use bt_daemon.Maestro.Varint.{read_varint, take_bytes}

pub data Value : Type 0 where
  varint : ℕ → Value
  fixed32 : ℕ → Value
  bytes : List ℕ → Value

abbrev pub Field : Type 0
Field = ℕ × Value

-- The `match key & 0x07` of `fields`. A fixed64 is skipped: it gives no value.
pub read_value : ℕ → List ℕ → Result Error (Option Value × List ℕ)
read_value wire src =
    if wire == 0
    then read_varint src >>= (λ t. ok (some (varint t.0), t.1))
    else if wire == 1
    then take_bytes src 8 >>= (λ t. ok (none, t.1))
    else if wire == 2
    then read_varint src >>= (λ t. take_bytes t.1 t.0 >>= λ s. ok (some (bytes s.0), s.1))
    else if wire == 5
    then take_bytes src 4 >>= (λ t. ok (some (fixed32 (from_le_bytes t.0)), t.1))
    else err (wire_type wire)

-- One round of the `while` loop: what it adds to the fields, and the bytes left.
-- `key >> 3` is `key / 8`, and `key & 0x07` is `key % 8`.
pub read_field : List ℕ → Result Error (List Field × List ℕ)
unfolding read_value
read_field src = do
  key ← read_varint src
  ensure (ltb key.0 (2 ^ 32)) key_too_large
  ensure (not (key.0 / 8 == 0)) field_zero
  value ← read_value (key.0 % 8) key.1
  ok (elim value.0 [ none ↦ [] | some v ↦ (key.0 / 8, v) ∷ [] ], value.1)

fields_loop : ℕ → List ℕ → List Field → Result Error (List Field)
fields_loop fuel [] out = ok out
fields_loop zero (b ∷ src) out = err stuck
fields_loop (suc fuel) (b ∷ src) out =
    read_field (b ∷ src) >>= λ t. fields_loop fuel t.1 (out ++ t.0)

-- Each round takes a byte at least, so as many rounds as bytes are enough.
pub fields : List ℕ → Result Error (List Field)
unfolding fields_loop
fields src = fields_loop (length src) src []
