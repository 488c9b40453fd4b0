-- ===== src/Tests/MaestroTests.antt =====
-- src/maestro/protocol.rs on concrete packets.
use bt_daemon.Framing.{default as closed, DelimitedFrames}
use bt_daemon.Maestro.{IsU64, stuck}
use bt_daemon.Maestro.Varint.{read_varint, put_varint}
use bt_daemon.Maestro.Varint.RoundTrip.{read_varint-put_varint}
use bt_daemon.Maestro.Varint.Bounds.{read_varint_takes, put_varint-IsByte}
use bt_daemon.Maestro.Fields.{Field, varint, fixed32, bytes, fields}
use bt_daemon.Maestro.Fields.RoundTrip.{encode_fields, fields-encode_fields}
use bt_daemon.Maestro.Fields.Total.{fields-ne-stuck}
use bt_daemon.Maestro.Packet.{Packet, encode_packet, decode_packet}
use bt_daemon.Maestro.Packet.RoundTrip.{IsPacket, decode_packet-encode_packet}
use bt_daemon.Maestro.Packet.Bytes.{encode_packet-IsBytes}
use bt_daemon.Maestro.Frame.{push_frames, encode_frame, put_address, address_end}
use bt_daemon.Maestro.Frame.Address.{address_end-put_address}
use bt_daemon.Maestro.Frame.RoundTrip.{push_frames-encode_frame, push_frames-encode_packet}
use bt_daemon.Base.Endian.{IsBytes}
use bt_daemon.Base.{
  ℕ, List, [], ◌∷◌, ◌++◌, ◌≡◌, ◌≢◌, ◌≤◌, ◌<◌, ◌+◌, inl, inr, refl, ok, err, some, length, drop, All,
  arith, true,
}

-- 300 takes two groups of seven bits.
two_groups : put_varint [] 300 ≡ 0xac ∷ 0x02 ∷ []
unfolding put_varint native.Mathlib.Decide.dec_le
two_groups = refl

read_two_groups : read_varint (0xac ∷ 0x02 ∷ 9 ∷ []) ≡ ok (300, 9 ∷ [])
unfolding read_varint
read_two_groups = refl

read_varint-put_varint_test : read_varint (put_varint [] 300 ++ (9 ∷ [])) ≡ ok (300, 9 ∷ [])
read_varint-put_varint_test = read_varint-put_varint 300 (9 ∷ []) (omega arith)

read_varint_takes_test : IsU64 300 × (1 < 3) × (3 ≤ 1 + 10) × All (λ b. b < 256) (9 ∷ [])
read_varint_takes_test =
    read_varint_takes (0xac ∷ 0x02 ∷ 9 ∷ []) 300 (9 ∷ [])
      (omega arith, (omega arith, (omega arith, tt))) read_two_groups

put_varint-IsByte_test :
    All (λ b. b < 256) (put_varint [] 300)
    × (1 ≤ length (put_varint [] 300))
    × (length (put_varint [] 300) ≤ 10)
put_varint-IsByte_test = put_varint-IsByte 300 (omega arith)

abbrev some_fields : List Field
some_fields = (1, varint 2) ∷ (3, fixed32 77) ∷ (5, bytes (1 ∷ 2 ∷ [])) ∷ []

fields-encode_fields_test : fields (encode_fields some_fields) ≡ ok some_fields
fields-encode_fields_test = fields-encode_fields some_fields (
  (omega arith, omega arith, omega arith),
  ((omega arith, omega arith, omega arith), ((omega arith, omega arith, omega arith), tt)),
)

fields-ne-stuck_example : fields (8 ∷ 0xff ∷ []) ≢ err stuck
fields-ne-stuck_example = fields-ne-stuck (8 ∷ 0xff ∷ [])

abbrev packet : Packet
packet = record {
  kind = 7;
  channel = 18;
  service = 0x7ede_71ea;
  method = 0x7c4e_b6a6;
  payload = 0x7e ∷ 0x7d ∷ [];
  status = 0;
  call = 1;
}

packet-IsPacket : IsPacket packet
packet-IsPacket = record {
  kind_u32 = omega arith;
  channel_u32 = omega arith;
  service_u32 = omega arith;
  method_u32 = omega arith;
  payload_fits = omega arith;
  status_u32 = omega arith;
  call_u32 = omega arith;
}

packet-IsBytes : IsBytes packet.payload
packet-IsBytes = (omega arith, (omega arith, tt))

decode_packet-encode_packet_test : decode_packet (encode_packet packet) ≡ ok packet
decode_packet-encode_packet_test = decode_packet-encode_packet packet packet-IsPacket

encode_packet-IsBytes_test :
    IsBytes (encode_packet packet) × (length (encode_packet packet) ≤ 2 + 128)
encode_packet-IsBytes_test = encode_packet-IsBytes packet packet-IsPacket packet-IsBytes

abbrev between_flags : DelimitedFrames
between_flags = record { body = []; is_open = true }

push_frames-encode_frame_test :
    push_frames between_flags (encode_frame 2688 (8 ∷ 1 ∷ []))
    ≡ (between_flags, decode_packet (8 ∷ 1 ∷ []) ∷ [])
push_frames-encode_frame_test =
    push_frames-encode_frame between_flags 2688 (8 ∷ 1 ∷ []) (inr refl) (omega arith)
      (omega arith, (omega arith, tt)) (omega arith)

push_frames-encode_packet_example :
    push_frames closed (encode_frame 2688 (encode_packet packet)) ≡ (between_flags, ok packet ∷ [])
push_frames-encode_packet_example =
    push_frames-encode_packet closed 2688 packet (inl refl) (omega arith) packet-IsPacket
      packet-IsBytes (omega arith)

address_end-put_address_test :
    (n : ℕ) × (address_end (put_address [] 2688 ++ (3 ∷ [])) ≡ some n)
    × (drop (n + 1) (put_address [] 2688 ++ (3 ∷ [])) ≡ 3 ∷ [])
address_end-put_address_test = address_end-put_address 2688 (3 ∷ []) (omega arith)
