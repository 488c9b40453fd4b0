-- ===== src/Maestro/Packet/Bytes.antt =====
-- `encode_packet` writes bytes, and not many more than the payload has.
use bt_daemon.Maestro.Varint.Bounds.{put_varint-IsByte}
use bt_daemon.Maestro.Fields.RoundTrip.{
  encode_fields, encode_fields-nil, encode_fields-append, encode_fields_one, encode_field,
}
use bt_daemon.Maestro.Packet.{Packet, encode_packet, fixed32, varint}
use bt_daemon.Maestro.Varint.{put_varint}
use bt_daemon.Base.Endian.{IsBytes, IsByte, le_bytes32}
use bt_daemon.Maestro.Packet.RoundTrip.{
  number_field, packet_fields, payload_field, IsPacket, encode_packet-eq,
}
use bt_daemon.Maestro.{IsU64, IsU32}
use bt_daemon.Base.{
  ℕ, List, length, ◌+◌, ◌<◌, [], ◌++◌, ◌≤◌, All-append, Bool-cases, arith, length-append, ◌==◌, ◌∷◌,
  inl, inr, ◌*◌,
}

abbrev Fits : ℕ → List ℕ → Type 0
Fits n bs = IsBytes bs × (length bs ≤ n)

Fits-append : (m n : ℕ) (xs ys : List ℕ) → Fits m xs → Fits n ys → Fits (m + n) (xs ++ ys)
Fits-append m n xs ys h k = (All-append IsByte xs ys h.0 k.0, omega (arith, length-append xs ys))

put_varint-Fits : (v : ℕ) → IsU64 v → Fits 10 (put_varint [] v)
put_varint-Fits v h = ((put_varint-IsByte v h).0, (put_varint-IsByte v h).2)

varint-Fits : (n v : ℕ) → n < 100 → IsU32 v → Fits 20 (encode_fields (number_field n varint v))
unfolding number_field
varint-Fits n v small h = elim (Bool-cases (v == 0)) [
  | inl e ↦ rw (e, encode_fields-nil) (omega arith)
  | inr e ↦
      rw (e, encode_fields_one)
        (unfold encode_field in
          Fits-append 10 10 (put_varint [] (n * 8 + 0)) (put_varint [] v)
            (put_varint-Fits (n * 8 + 0) (omega arith)) (put_varint-Fits v (omega arith)))
]

fixed32-Fits : (n v : ℕ) → n < 100 → IsU32 v → Fits 14 (encode_fields (number_field n fixed32 v))
unfolding number_field
fixed32-Fits n v small h = elim (Bool-cases (v == 0)) [
  | inl e ↦ rw (e, encode_fields-nil) (omega arith)
  | inr e ↦
      rw (e, encode_fields_one)
        (unfold encode_field in
          Fits-append 10 4 (put_varint [] (n * 8 + 5)) (le_bytes32 v)
            (put_varint-Fits (n * 8 + 5) (omega arith)) (omega arith))
]

payload-Fits :
    (b : List ℕ)
    → IsU64 (length b)
    → IsBytes b
    → Fits (20 + length b) (encode_fields (payload_field b))
unfolding payload_field
payload-Fits [] fits h = rw encode_fields-nil (omega arith)
payload-Fits (x ∷ b) fits h = rw encode_fields_one (
    unfold encode_field in
    (let both : Fits (10 + (10 + length (x ∷ b)))
          (put_varint [] (5 * 8 + 2) ++ (put_varint [] (length (x ∷ b)) ++ (x ∷ b))) =
        Fits-append 10 (10 + length (x ∷ b)) (put_varint [] (5 * 8 + 2))
          (put_varint [] (length (x ∷ b)) ++ (x ∷ b)) (put_varint-Fits 42 (omega arith))
          (Fits-append 10 (length (x ∷ b)) (put_varint [] (length (x ∷ b))) (x ∷ b)
            (put_varint-Fits (length (x ∷ b)) fits) (h, omega arith)) in
      (both.0, omega (arith, both.1))))

-- A packet is written as bytes, at most 128 more than its payload has.
pub encode_packet-IsBytes :
    (p : Packet)
    → IsPacket p
    → IsBytes p.payload
    → IsBytes (encode_packet p) × (length (encode_packet p) ≤ length p.payload + 128)
unfolding packet_fields
encode_packet-IsBytes p v k =
    let all : Fits (20 + (20 + (14 + (14 + ((20 + length p.payload) + (20 + 20)))))) (
        encode_fields (number_field 1 varint p.kind)
        ++ (encode_fields (number_field 2 varint p.channel)
            ++ (encode_fields (number_field 3 fixed32 p.service)
                ++ (encode_fields (number_field 4 fixed32 p.method)
                    ++ (encode_fields (payload_field p.payload)
                        ++ (encode_fields (number_field 6 varint p.status)
                            ++ encode_fields (number_field 7 varint p.call))))))) =
      Fits-append 20 _ _ _ (varint-Fits 1 p.kind (omega arith) v.kind_u32) (
        Fits-append 20 _ _ _ (varint-Fits 2 p.channel (omega arith) v.channel_u32) (
          Fits-append 14 _ _ _ (fixed32-Fits 3 p.service (omega arith) v.service_u32) (
            Fits-append 14 _ _ _ (fixed32-Fits 4 p.method (omega arith) v.method_u32) (
              Fits-append (20 + length p.payload) _ _ _ (payload-Fits p.payload v.payload_fits k) (
                Fits-append 20 20 _ _ (varint-Fits 6 p.status (omega arith) v.status_u32)
                  (varint-Fits 7 p.call (omega arith) v.call_u32)))))) in
    rw encode_packet-eq (simp encode_fields-append (all.0, omega (arith, all.1)))
