-- ===== src/Maestro/Packet.antt =====
-- src/maestro/protocol.rs: pw_rpc packets, `encode_packet` and `decode_packet`.
pub mod RoundTrip
pub mod Bytes
use bt_daemon.Base.Endian.{le_bytes32}
use Prim.Native.Nat.{bit_or}
use bt_daemon.Maestro.Varint.{put_varint}
use bt_daemon.Maestro.{Error, field_too_large}
use bt_daemon.Maestro.Fields.{Field, fields, varint, fixed32, bytes}
use bt_daemon.Base.{
  ℕ, List, Result, [], if◌then◌else◌, ◌∷◌, ltb, ok, ◌==◌, ◌*◌, ◌>>=◌, ◌^◌, err, length, ◌++◌,
}

pub record Packet : Type 0 where
  pub kind : ℕ
  pub channel : ℕ
  pub service : ℕ
  pub method : ℕ
  pub payload : List ℕ
  pub status : ℕ
  pub call : ℕ

-- `Packet::default()`
abbrev pub default : Packet
default = record {
  kind = 0;
  channel = 0;
  service = 0;
  method = 0;
  payload = [];
  status = 0;
  call = 0;
}

-- The inner functions `varint` and `fixed32` of `encode_packet`.
put_varint_field : List ℕ → ℕ → ℕ → List ℕ
put_varint_field dst field value =
    if value == 0 then dst else put_varint (put_varint dst (field * 8)) value

put_fixed32_field : List ℕ → ℕ → ℕ → List ℕ
put_fixed32_field dst field value =
    if value == 0 then dst else put_varint dst (bit_or (field * 8) 5) ++ le_bytes32 value

-- The payload is omitted if it is empty.
put_payload : List ℕ → List ℕ → List ℕ
put_payload dst [] = dst
put_payload dst (b ∷ payload) =
    put_varint (put_varint dst (bit_or (5 * 8) 2)) (length (b ∷ payload)) ++ (b ∷ payload)

pub encode_packet : Packet → List ℕ
encode_packet p =
    let b1 = put_varint_field [] 1 p.kind in
    let b2 = put_varint_field b1 2 p.channel in
    let b3 = put_fixed32_field b2 3 p.service in
    let b4 = put_fixed32_field b3 4 p.method in
    let b5 = put_payload b4 p.payload in
    let b6 = put_varint_field b5 6 p.status in put_varint_field b6 7 p.call

-- `u32::try_from`
abbrev pub to_u32 : ℕ → Result Error ℕ
to_u32 v = if ltb v (2 ^ 32) then ok v else err field_too_large

-- One field in the loop of `decode_packet`; fields that it does not know are skipped.
pub set_field : Packet → Field → Result Error Packet
set_field p (n, varint v) =
    if n == 1
    then to_u32 v >>= (λ x. ok (record p { kind = x }))
    else if n == 2
    then to_u32 v >>= (λ x. ok (record p { channel = x }))
    else if n == 6
    then to_u32 v >>= (λ x. ok (record p { status = x }))
    else if n == 7
    then to_u32 v >>= (λ x. ok (record p { call = x }))
    else ok p
set_field p (n, fixed32 v) =
    if n == 3
    then to_u32 v >>= (λ x. ok (record p { service = x }))
    else if n == 4
    then to_u32 v >>= (λ x. ok (record p { method = x }))
    else ok p
set_field p (n, bytes b) = if n == 5 then ok (record p { payload = b }) else ok p

pub set_fields : Packet → List Field → Result Error Packet
unfolding set_field
set_fields p [] = ok p
set_fields p (f ∷ fs) = set_field p f >>= λ q. set_fields q fs

pub decode_packet : List ℕ → Result Error Packet
decode_packet src = fields src >>= set_fields default
