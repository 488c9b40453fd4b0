-- ===== src/Maestro/Packet/RoundTrip.antt =====
-- `decode_packet` reads back what `encode_packet` wrote.
use bt_daemon.Maestro.Varint.RoundTrip.{put_varint-append}
use bt_daemon.Maestro.Fields.RoundTrip.{
  encode_fields, encode_fields-nil, encode_fields_one, encode_field, IsField, encode_fields-append,
  fields-encode_fields, IsValue,
}
use bt_daemon.Maestro.{IsU32, IsU64}
use bt_daemon.Maestro.Fields.{Value, Field, varint, bytes, fixed32}
use bt_daemon.Maestro.Packet.{
  Packet, put_varint, put_varint_field, put_fixed32_field, put_payload, set_fields, bit_or,
  decode_packet, default, encode_packet,
}
use bt_daemon.Base.{
  ℕ, List, ◌∷◌, ◌≡◌, length, ◌++◌, [], Bool-cases, arith, ◌==◌, append-nil, inl, ◌*◌, inr, ◌+◌,
  if◌then◌else◌, append_assoc, ap, All, ok, ◌<◌, refl, ◌^◌, ◌∙◌, All-append, sym,
}

-- Every field holds a `u32`, and the payload's length is a `u64`.
pub record IsPacket (p : Packet) : Type 0 where
  pub kind_u32 : IsU32 p.kind
  pub channel_u32 : IsU32 p.channel
  pub service_u32 : IsU32 p.service
  pub method_u32 : IsU32 p.method
  pub payload_fits : IsU64 (length p.payload)
  pub status_u32 : IsU32 p.status
  pub call_u32 : IsU32 p.call

-- The fields that stand for a packet: those that are not zero and not empty.
unfoldable pub number_field : ℕ → (ℕ → Value) → ℕ → List Field
number_field n make v = if v == 0 then [] else (n, make v) ∷ []

unfoldable pub payload_field : List ℕ → List Field
payload_field [] = []
payload_field (b ∷ payload) = (5, bytes (b ∷ payload)) ∷ []

unfoldable pub packet_fields : Packet → List Field
packet_fields p =
    number_field 1 varint p.kind
    ++ (number_field 2 varint p.channel
        ++ (number_field 3 fixed32 p.service
            ++ (number_field 4 fixed32 p.method
                ++ (payload_field p.payload
                    ++ (number_field 6 varint p.status ++ number_field 7 varint p.call)))))

put_varint_field-eq :
    (dst : List ℕ) (n v : ℕ)
    → put_varint_field dst n v ≡ dst ++ encode_fields (number_field n varint v)
unfolding put_varint_field number_field
put_varint_field-eq dst n v = elim (Bool-cases (v == 0)) [
  | inl e ↦ rw (e, encode_fields-nil, append-nil)
  | inr e ↦
      rw (e, encode_fields_one)
        (unfold encode_field in
          rw
            (
              put_varint-append (put_varint dst (n * 8)),
              put_varint-append dst (n * 8),
              append_assoc dst,
            )
            (ap (λ (t : ℕ). dst ++ (put_varint [] t ++ put_varint [] v)) (omega arith)))
]

put_fixed32_field-eq :
    (dst : List ℕ) (n v : ℕ)
    → bit_or (n * 8) 5 ≡ n * 8 + 5
    → put_fixed32_field dst n v ≡ dst ++ encode_fields (number_field n fixed32 v)
unfolding put_fixed32_field number_field
put_fixed32_field-eq dst n v tag = elim (Bool-cases (v == 0)) [
  | inl e ↦ rw (e, encode_fields-nil, append-nil)
  | inr e ↦
      rw (e, encode_fields_one)
        (unfold encode_field in rw (tag, put_varint-append dst (n * 8 + 5), append_assoc dst))
]

put_payload-eq :
    (dst payload : List ℕ) → put_payload dst payload ≡ dst ++ encode_fields (payload_field payload)
unfolding put_payload payload_field
put_payload-eq dst [] = rw (encode_fields-nil, append-nil)
put_payload-eq dst (b ∷ payload) = rw encode_fields_one (
    unfold encode_field in
    rw (
      put_varint-append (put_varint dst 42),
      put_varint-append dst 42,
      append_assoc dst,
      append_assoc dst,
      append_assoc (put_varint [] 42),
    ))

pub encode_packet-eq : (p : Packet) → encode_packet p ≡ encode_fields (packet_fields p)
unfolding encode_packet packet_fields
encode_packet-eq p =
    rw
      (
        put_varint_field-eq _ 7 p.call,
        put_varint_field-eq _ 6 p.status,
        put_payload-eq _ p.payload,
        put_fixed32_field-eq _ 4 p.method refl,
        put_fixed32_field-eq _ 3 p.service refl,
        put_varint_field-eq _ 2 p.channel,
        put_varint_field-eq [] 1 p.kind,
      )
      (simp (encode_fields-append, append_assoc))

module _ (p : Packet) (fs : List Field) where
  set_kind :
      (v : ℕ)
      → IsU32 v
      → p.kind ≡ 0
      → set_fields p (number_field 1 varint v ++ fs) ≡ set_fields (record p { kind = v }) fs
  unfolding set_fields number_field
  set_kind v h e = ground arith

  set_channel :
      (v : ℕ)
      → IsU32 v
      → p.channel ≡ 0
      → set_fields p (number_field 2 varint v ++ fs) ≡ set_fields (record p { channel = v }) fs
  unfolding set_fields number_field
  set_channel v h e = ground arith

  set_service :
      (v : ℕ)
      → IsU32 v
      → p.service ≡ 0
      → set_fields p (number_field 3 fixed32 v ++ fs) ≡ set_fields (record p { service = v }) fs
  unfolding set_fields number_field
  set_service v h e = ground arith

  set_method :
      (v : ℕ)
      → IsU32 v
      → p.method ≡ 0
      → set_fields p (number_field 4 fixed32 v ++ fs) ≡ set_fields (record p { method = v }) fs
  unfolding set_fields number_field
  set_method v h e = ground arith

  set_payload :
      (b : List ℕ)
      → p.payload ≡ []
      → set_fields p (payload_field b ++ fs) ≡ set_fields (record p { payload = b }) fs
  unfolding set_fields payload_field
  set_payload [] e = ground arith
  set_payload (x ∷ b) e = ground arith

  set_status :
      (v : ℕ)
      → IsU32 v
      → p.status ≡ 0
      → set_fields p (number_field 6 varint v ++ fs) ≡ set_fields (record p { status = v }) fs
  unfolding set_fields number_field
  set_status v h e = ground arith

  set_call :
      (v : ℕ)
      → IsU32 v
      → p.call ≡ 0
      → set_fields p (number_field 7 varint v ++ fs) ≡ set_fields (record p { call = v }) fs
  unfolding set_fields number_field
  set_call v h e = ground arith

set_fields-nil : (p : Packet) → set_fields p [] ≡ ok p
unfolding set_fields
set_fields-nil p = refl

set_fields-packet_fields : (p : Packet) → IsPacket p → set_fields default (packet_fields p) ≡ ok p
unfolding packet_fields
set_fields-packet_fields p h =
    set_kind default _ p.kind h.kind_u32 refl
    ∙ set_channel _ _ p.channel h.channel_u32 refl
    ∙ set_service _ _ p.service h.service_u32 refl
    ∙ set_method _ _ p.method h.method_u32 refl
    ∙ set_payload _ _ p.payload refl
    ∙ set_status _ _ p.status h.status_u32 refl
    ∙ ap (set_fields _) (sym (append-nil (number_field 7 varint p.call)))
    ∙ set_call _ [] p.call h.call_u32 refl
    ∙ set_fields-nil p

number_field-IsField :
    (n : ℕ) (make : ℕ → Value) (v : ℕ)
    → 0 < n
    → n < 2 ^ 29
    → IsValue (make v)
    → All IsField (number_field n make v)
unfolding number_field
number_field-IsField n make v lo hi h = elim (Bool-cases (v == 0)) [
  | inl e ↦ rw e tt
  | inr e ↦ rw e ((lo, hi, h), tt)
]

payload_field-IsField : (b : List ℕ) → IsU64 (length b) → All IsField (payload_field b)
unfolding payload_field
payload_field-IsField [] h = tt
payload_field-IsField (x ∷ b) h = ((omega arith, omega arith, h), tt)

packet_fields-IsField : (p : Packet) → IsPacket p → All IsField (packet_fields p)
unfolding packet_fields
packet_fields-IsField p h =
    All-append IsField (number_field 1 varint p.kind) _
      (number_field-IsField 1 varint p.kind (omega arith) (omega arith) (omega arith))
      (All-append IsField (number_field 2 varint p.channel) _
        (number_field-IsField 2 varint p.channel (omega arith) (omega arith) (omega arith))
        (All-append IsField (number_field 3 fixed32 p.service) _
          (number_field-IsField 3 fixed32 p.service (omega arith) (omega arith) h.service_u32)
          (All-append IsField (number_field 4 fixed32 p.method) _
            (number_field-IsField 4 fixed32 p.method (omega arith) (omega arith) h.method_u32)
            (All-append IsField (payload_field p.payload) _
              (payload_field-IsField p.payload h.payload_fits)
              (All-append IsField (number_field 6 varint p.status) _
                (number_field-IsField 6 varint p.status (omega arith) (omega arith) (omega arith))
                (number_field-IsField 7 varint p.call (omega arith) (omega arith)
                  (omega arith)))))))

-- A packet whose fields are `u32` and whose payload's length is a `u64` is read back from what
-- `encode_packet` writes.
pub decode_packet-encode_packet : (p : Packet) → IsPacket p → decode_packet (encode_packet p) ≡ ok p
unfolding decode_packet
decode_packet-encode_packet p h =
    rw (encode_packet-eq p, fields-encode_fields (packet_fields p) (packet_fields-IsField p h))
      (set_fields-packet_fields p h)
