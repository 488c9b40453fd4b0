-- ===== src/Maestro/Frame/RoundTrip.antt =====
-- `FrameDecoder` reads back every packet that `encode_frame` framed.
use bt_daemon.Maestro.Packet.{encode_packet}
use bt_daemon.Maestro.Packet.Bytes.{encode_packet-IsBytes}
use bt_daemon.Maestro.Packet.RoundTrip.{IsPacket, decode_packet-encode_packet}
use bt_daemon.Maestro.Frame.Crc.{crc32-IsU32}
use bt_daemon.Framing.Wire.{IsBetween, push-escape}
use bt_daemon.Maestro.Frame.Address.{address_end-put_address, put_address-IsBytes}
use bt_daemon.Framing.{is_special, DelimitedFrames}
use bt_daemon.Maestro.{IsU32, too_long}
use bt_daemon.Base.Endian.{IsBytes, le_bytes32, from_le_bytes, IsByte, from_le_bytes-le_bytes32}
use bt_daemon.Maestro.Frame.{
  flag, check_body, decode_content, escape_byte, frame_content, toggle, decode_packet, crc32,
  decode_control, push_frames, encode_frame, unnumbered_information, put_address, Packet,
  decode_frame,
}
use bt_daemon.Framing.RoundTrip.{IsEscapeCode, stuffed, length-stuffed-le, unescape-stuffed}
use bt_daemon.Base.{
  ℕ, List, ◌≡◌, ◌≤◌, length, ◌++◌, arith, take, ◌+◌, ◌⊎◌, inl, length-append, true, ◌-◌, ◌≢◌, ap,
  drop, inr, ◌∙◌, ◌∷◌, [], append_assoc, le→leb, take-append, All-append, drop-append, eq→==, refl,
  ok,
}

special-cases : (b : ℕ) → is_special flag flag escape_byte b ≡ true → (b ≡ flag) ⊎ (b ≡ escape_byte)
special-cases b h = ground arith

toggle_twice : (b : ℕ) → (b ≡ flag) ⊎ (b ≡ escape_byte) → toggle (toggle b) ≡ b
toggle_twice b (inl e) = rw e
toggle_twice b (inr e) = rw e

toggle-ne-flag : (b : ℕ) → (b ≡ flag) ⊎ (b ≡ escape_byte) → toggle b ≢ flag
toggle-ne-flag b (inl e) = rw e (omega arith)
toggle-ne-flag b (inr e) = rw e (omega arith)

pub toggle_code : IsEscapeCode flag flag escape_byte toggle toggle
toggle_code = record {
  undoes = λ b h. toggle_twice b (special-cases b h);
  no_end = λ b h. toggle-ne-flag b (special-cases b h);
  esc_not_end = omega arith;
}

check_body_split :
    (body content received : List ℕ)
    → 6 ≤ length body
    → take (length body - 4) body ≡ content
    → drop (length body - 4) body ≡ received
    → from_le_bytes received ≡ crc32 content
    → check_body body ≡ decode_content content
unfolding check_body
check_body_split body content received long e1 e2 e3 =
    rw (le→leb 6 (length body) long, e1, e2, e3, eq→== (crc32 content) _ refl)

-- A body that carries its own checksum is accepted as far as its content is.
check_body-checked :
    (content : List ℕ)
    → IsBytes content
    → 2 ≤ length content
    → check_body (content ++ le_bytes32 (crc32 content)) ≡ decode_content content
check_body-checked content h long =
    let checksum : List ℕ = le_bytes32 (crc32 content) in
    let size : length (content ++ checksum) ≡ length content + 4 = length-append content checksum in
    let cut : length (content ++ checksum) - 4 ≡ length content = omega arith in
    check_body_split (content ++ checksum) content checksum (omega arith)
      (ap (λ n. take n (content ++ checksum)) cut ∙ take-append content checksum)
      (ap (λ n. drop n (content ++ checksum)) cut ∙ drop-append content checksum)
      (from_le_bytes-le_bytes32 (crc32 content) (crc32-IsU32 content h))

decode_content-frame_content :
    (address : ℕ) (packet : List ℕ)
    → IsU32 address
    → decode_content (frame_content address packet) ≡ decode_packet packet
unfolding decode_content frame_content decode_control
decode_content-frame_content address packet h =
    let (n, found, rest) = address_end-put_address address (unnumbered_information ∷ packet) h in
    rw (append_assoc (put_address [] address), found, rest)

frame_content-IsBytes :
    (address : ℕ) (packet : List ℕ)
    → IsU32 address
    → IsBytes packet
    → IsBytes (frame_content address packet)
      × (2 ≤ length (frame_content address packet))
      × (length (frame_content address packet) ≤ length packet + 6)
unfolding frame_content
frame_content-IsBytes address packet h k =
    let (bytes, lo, hi) = put_address-IsBytes address h in
    let tail : List ℕ = unnumbered_information ∷ packet in
    let size : length (put_address [] address ++ tail)
        ≡ length (put_address [] address) + length tail =
      length-append (put_address [] address) tail in
    rw (append_assoc (put_address [] address)) (
      All-append IsByte (put_address [] address) tail bytes (omega arith, k),
      omega arith,
      omega arith,
    )

decode_frame-stuffed :
    (content : List ℕ)
    → IsBytes content
    → 2 ≤ length content
    → decode_frame (stuffed flag flag escape_byte toggle (content ++ le_bytes32 (crc32 content)))
      ≡ decode_content content
unfolding decode_frame
decode_frame-stuffed content h long =
    rw (unescape-stuffed flag flag escape_byte toggle toggle toggle_code)
      (check_body-checked content h long)

-- Between frames, at most 2000 bytes framed for a `u32` address are one frame on the wire, and its
-- packet is decoded as by itself.
pub push_frames-encode_frame :
    (d : DelimitedFrames) (address : ℕ) (packet : List ℕ)
    → IsBetween flag flag d
    → IsU32 address
    → IsBytes packet
    → length packet ≤ 2000
    → push_frames d (encode_frame address packet)
      ≡ (record { body = []; is_open = true }, decode_packet packet ∷ [])
unfolding push_frames encode_frame
push_frames-encode_frame d address packet b h k few =
    let content : List ℕ = frame_content address packet in
    let (bytes, lo, hi) = frame_content-IsBytes address packet h k in
    let size : length (content ++ le_bytes32 (crc32 content)) ≡ length content + 4 =
      length-append content (le_bytes32 (crc32 content)) in
    let some_byte : content ++ le_bytes32 (crc32 content) ≢ [] =
      λ e. absurd (omega (arith, ap length e)) in
    push-escape flag flag too_long decode_frame escape_byte toggle toggle toggle_code d
      (content ++ le_bytes32 (crc32 content)) b
      (omega (
        arith,
        length-stuffed-le flag flag escape_byte toggle (content ++ le_bytes32 (crc32 content)),
      ))
      (inr some_byte)
    ∙ ap (λ r. (record { body = []; is_open = true }, r ∷ []))
        (decode_frame-stuffed content bytes lo ∙ decode_content-frame_content address packet h)

-- Between frames, a legal packet with a payload of at most 1800 bytes that is encoded and framed for
-- a `u32` address comes out of the stream decoder as itself, once.
pub push_frames-encode_packet :
    (d : DelimitedFrames) (address : ℕ) (p : Packet)
    → IsBetween flag flag d
    → IsU32 address
    → IsPacket p
    → IsBytes p.payload
    → length p.payload ≤ 1800
    → push_frames d (encode_frame address (encode_packet p))
      ≡ (record { body = []; is_open = true }, ok p ∷ [])
push_frames-encode_packet d address p b h v k few =
    push_frames-encode_frame d address (encode_packet p) b h (encode_packet-IsBytes p v k).0
      (omega (arith, (encode_packet-IsBytes p v k).1))
    ∙ ap (λ r. (record { body = []; is_open = true }, r ∷ [])) (decode_packet-encode_packet p v)
