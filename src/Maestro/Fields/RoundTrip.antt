-- ===== src/Maestro/Fields/RoundTrip.antt =====
-- `fields` reads back every list of legal protobuf fields.
use bt_daemon.Maestro.Varint.Bounds.{take_bytes-append, put_varint-IsByte}
use bt_daemon.Maestro.Varint.RoundTrip.{read_varint-put_varint}
use bt_daemon.Base.Endian.{le_bytes32, from_le_bytes-le_bytes32}
use bt_daemon.Maestro.{IsU64, IsU32}
use bt_daemon.Maestro.Varint.{put_varint}
use bt_daemon.Maestro.Fields.{
  Field, Value, read_field, read_value, varint, fixed32, bytes, read_varint, fields, fields_loop,
}
use bt_daemon.Base.{
  ℕ, List, ◌<◌, ◌∷◌, ◌++◌, ◌^◌, [], ◌≡◌, ok, ◌*◌, append_assoc, ◌+◌, length, some, ◌/◌, arith, ◌%◌,
  ap, All, ◌∙◌, ◌≤◌, append-nil, length-append, suc, refl, zero,
}

-- A field as it stands on the wire: its key, and its value after the key.
unfoldable pub encode_field : Field → List ℕ
encode_field (n, varint v) = put_varint [] (n * 8 + 0) ++ put_varint [] v
encode_field (n, fixed32 v) = put_varint [] (n * 8 + 5) ++ le_bytes32 v
encode_field (n, bytes b) = put_varint [] (n * 8 + 2) ++ (put_varint [] (length b) ++ b)

unfoldable pub encode_fields : List Field → List ℕ
unfolding encode_field
encode_fields [] = []
encode_fields (f ∷ fs) = encode_field f ++ encode_fields fs

-- Field numbers have 29 bits and are not 0.
abbrev pub IsValue : Value → Type 0
IsValue (varint v) = IsU64 v
IsValue (fixed32 v) = IsU32 v
IsValue (bytes b) = IsU64 (length b)

abbrev pub IsField : Field → Type 0
IsField f = (0 < f.0) × (f.0 < 2 ^ 29) × IsValue f.1

read_field_key :
    (src : List ℕ) (key : ℕ) (rest : List ℕ) (v : Value) (left : List ℕ)
    → read_varint src ≡ ok (key, rest)
    → IsU32 key
    → 0 < key / 8
    → read_value (key % 8) rest ≡ ok (some v, left)
    → read_field src ≡ ok ((key / 8, v) ∷ [], left)
unfolding read_field
read_field_key src key rest v left e hk hf hv = ground arith

-- The same for a key that is put together from a field number and a wire type.
read_field_tag :
    (n wire : ℕ) (rest : List ℕ) (v : Value) (left : List ℕ)
    → wire < 8
    → 0 < n
    → n < 2 ^ 29
    → read_value wire rest ≡ ok (some v, left)
    → read_field (put_varint [] (n * 8 + wire) ++ rest) ≡ ok ((n, v) ∷ [], left)
read_field_tag n wire rest v left hw lo hi h =
    let key : read_varint (put_varint [] (n * 8 + wire) ++ rest) ≡ ok (n * 8 + wire, rest) =
      read_varint-put_varint (n * 8 + wire) rest (omega arith) in
    let kind : (n * 8 + wire) % 8 ≡ wire = omega arith in
    read_field_key _ (n * 8 + wire) rest v left key (omega arith) (omega arith) (rw kind h)
    ∙ ap (λ (t : ℕ). ok ((t, v) ∷ [], left)) (omega arith)

pub read_field-encode_field :
    (f : Field) (rest : List ℕ)
    → IsField f
    → read_field (encode_field f ++ rest) ≡ ok (f ∷ [], rest)
unfolding encode_field
read_field-encode_field (n, varint v) rest (lo, hi, h) =
    rw (append_assoc (put_varint [] (n * 8 + 0))) (
      read_field_tag n 0 _ (varint v) rest (omega arith) lo hi
        (unfold read_value in rw (read_varint-put_varint v rest h)))
read_field-encode_field (n, fixed32 v) rest (lo, hi, h) =
    rw (append_assoc (put_varint [] (n * 8 + 5))) (
      read_field_tag n 5 _ (fixed32 v) rest (omega arith) lo hi (
        unfold read_value in
        rw (take_bytes-append (le_bytes32 v) rest, from_le_bytes-le_bytes32 v h)))
read_field-encode_field (n, bytes b) rest (lo, hi, h) =
    rw (append_assoc (put_varint [] (n * 8 + 2)), append_assoc (put_varint [] (length b)))
      (read_field_tag n 2 _ (bytes b) rest (omega arith) lo hi (
        unfold read_value in
        rw (read_varint-put_varint (length b) (b ++ rest) h, take_bytes-append b rest)))

encode_field-cons : (f : Field) → IsField f → 1 ≤ length (encode_field f)
unfolding encode_field
encode_field-cons (n, varint v) (lo, hi, h) = omega (
  arith,
  length-append (put_varint [] (n * 8 + 0)) (put_varint [] v),
  put_varint-IsByte (n * 8 + 0) (omega arith),
)
encode_field-cons (n, fixed32 v) (lo, hi, h) = omega (
  arith,
  length-append (put_varint [] (n * 8 + 5)) (le_bytes32 v),
  put_varint-IsByte (n * 8 + 5) (omega arith),
)
encode_field-cons (n, bytes b) (lo, hi, h) = omega (
  arith,
  length-append (put_varint [] (n * 8 + 2)) (put_varint [] (length b) ++ b),
  put_varint-IsByte (n * 8 + 2) (omega arith),
)

fields_loop_step :
    (fuel : ℕ) (src : List ℕ) (out more : List Field) (rest : List ℕ)
    → read_field src ≡ ok (more, rest)
    → 1 ≤ length src
    → fields_loop (suc fuel) src out ≡ fields_loop fuel rest (out ++ more)
unfolding fields_loop
fields_loop_step fuel [] out more rest e h = absurd (omega arith)
fields_loop_step fuel (b ∷ src) out more rest e h = rw e

fields_loop-encode_fields :
    (fs : List Field) (fuel : ℕ) (out : List Field)
    → All IsField fs
    → length (encode_fields fs) ≤ fuel
    → fields_loop fuel (encode_fields fs) out ≡ ok (out ++ fs)
unfolding encode_fields
fields_loop-encode_fields [] fuel out h enough = rw append-nil (unfold fields_loop in refl)
fields_loop-encode_fields (f ∷ fs) zero out (h, hs) enough =
    absurd (omega (arith, encode_field-cons f h, length-append (encode_field f) (encode_fields fs)))
fields_loop-encode_fields (f ∷ fs) (suc fuel) out (h, hs) enough =
    let size : length (encode_field f ++ encode_fields fs)
        ≡ length (encode_field f) + length (encode_fields fs) =
      length-append (encode_field f) (encode_fields fs) in
    let some_byte : 1 ≤ length (encode_field f) = encode_field-cons f h in
    fields_loop_step fuel _ out (f ∷ []) (encode_fields fs) (read_field-encode_field f _ h)
      (omega arith)
    ∙ fields_loop-encode_fields fs fuel (out ++ (f ∷ [])) hs (omega arith)
    ∙ ap ok (append_assoc out (f ∷ []) fs)

-- Every list of legal fields is read back from the bytes that stand for it.
pub fields-encode_fields : (fs : List Field) → All IsField fs → fields (encode_fields fs) ≡ ok fs
unfolding fields
fields-encode_fields fs h = fields_loop-encode_fields fs _ [] h (omega arith)

pub encode_fields-nil : encode_fields [] ≡ []
unfolding encode_fields
encode_fields-nil = refl

pub encode_fields_one : (f : Field) → encode_fields (f ∷ []) ≡ encode_field f
unfolding encode_fields
encode_fields_one f = append-nil (encode_field f)

pub encode_fields-append :
    (fs gs : List Field) → encode_fields (fs ++ gs) ≡ encode_fields fs ++ encode_fields gs
unfolding encode_fields
encode_fields-append [] gs = refl
encode_fields-append (f ∷ fs) gs = rw (encode_fields-append fs gs, append_assoc (encode_field f))
