-- ===== src/Maestro/Frame.antt =====
-- src/maestro/protocol.rs: HDLC frames, `crc32`, `put_address`, `encode_frame`, `decode_frame` and
-- `FrameDecoder`.
pub mod Crc
pub mod Address
pub mod RoundTrip
use native.Mathlib.Decide.{dec_lt}
use bt_daemon.Base.Order.{lt_wf}
use mathlib.Core.Logic.{dite}
use mathlib.Core.Option
use bt_daemon.Base.Endian.{le_bytes32, from_le_bytes}
use bt_daemon.Maestro.Packet.{Packet, decode_packet}
use bt_daemon.Maestro.{
  Error, escaping, no_control, too_long, address_unterminated, unsupported_control, frame_truncated,
  checksum_mismatch,
}
use mathlib.Core.WellFounded.{Acc}
use bt_daemon.Framing.{DelimitedFrames, EscapeError, escape, push, unescape}
use Prim.Native.Nat.{bit_xor, bit_and, bit_or}
use bt_daemon.Base.{
  ℕ, List, Result, if◌then◌else◌, suc, ◌<◌, Option, [], zero, ◌/◌, ◌∷◌, arith, none, ok, ◌++◌, ◌==◌,
  err, some, ◌>>=◌, or_fail, drop, ◌+◌, ◌>>◌, ensure, leb, ◌*◌, length, ◌%◌, take, ◌-◌,
}

abbrev pub flag : ℕ
flag = 0x7e

abbrev pub escape_byte : ℕ
escape_byte = 0x7d

-- `|byte| byte ^ ESCAPE_MASK`, both ways
abbrev pub toggle : ℕ → ℕ
toggle byte = bit_xor byte 0x20

abbrev pub unnumbered_information : ℕ
unnumbered_information = 0x03

-- One of the eight rounds for each byte. `crc >> 1` is `crc / 2`.
pub crc_round : ℕ → ℕ
crc_round crc = if bit_and crc 1 == 0 then crc / 2 else bit_xor (crc / 2) 0xedb8_8320

pub crc_rounds : ℕ → ℕ → ℕ
crc_rounds zero crc = crc
crc_rounds (suc n) crc = crc_rounds n (crc_round crc)

pub crc_bytes : ℕ → List ℕ → ℕ
unfolding crc_rounds crc_round
crc_bytes crc [] = crc
crc_bytes crc (byte ∷ bytes) = crc_bytes (crc_rounds 8 (bit_xor crc byte)) bytes

-- `!x` on a `u32` flips its 32 bits.
pub crc32 : List ℕ → ℕ
crc32 bytes = bit_xor (crc_bytes 0xffff_ffff bytes) 0xffff_ffff

pub address_shrinks : (address : ℕ) → 0 < address / 128 → address / 128 < address
address_shrinks address h = omega arith

pub put_address_loop : List ℕ → (address : ℕ) → Acc ◌<◌ address → List ℕ
put_address_loop bytes address (Acc.intro _ smaller) =
    dite (dec_lt 0 (address / 128))
      (λ more.
        put_address_loop (bytes ++ ((bit_and address 0x7f * 2 % 256) ∷ [])) (address / 128)
          (smaller _ (address_shrinks address more)))
      (λ _. bytes ++ (bit_or (address % 256 * 2 % 256) 1 ∷ []))

pub put_address : List ℕ → ℕ → List ℕ
put_address bytes address = put_address_loop bytes address (lt_wf.apply address)

-- What `encode_frame` escapes: address, control, data and checksum.
pub frame_content : ℕ → List ℕ → List ℕ
frame_content address bytes = (put_address [] address ++ (unnumbered_information ∷ [])) ++ bytes

pub encode_frame : ℕ → List ℕ → List ℕ
encode_frame address bytes =
    let body = frame_content address bytes in
    escape flag flag escape_byte toggle (body ++ le_bytes32 (crc32 body))

-- `position(|byte| byte & 1 == 1)`
pub address_end : List ℕ → Option ℕ
address_end [] = none
address_end (byte ∷ bytes) =
    if bit_and byte 1 == 1 then some 0 else Option.map suc (address_end bytes)

-- `let [control, packet @ ..] = …`, and the packet behind it
decode_control : List ℕ → Result Error Packet
decode_control [] = err no_control
decode_control (control ∷ packet) =
    if control == unnumbered_information
    then decode_packet packet
    else err (unsupported_control control)

decode_content : List ℕ → Result Error Packet
decode_content content = do
  address_length ← or_fail (address_end content) address_unterminated
  decode_control (drop (address_length + 1) content)

abbrev escape_context {ℓ} : {A : Type ℓ} → Result EscapeError A → Result Error A
escape_context (ok a) = ok a
escape_context (err e) = err escaping

check_body : List ℕ → Result Error Packet
check_body body = do
  ensure (leb 6 (length body)) frame_truncated
  let content = take (length body - 4) body
  let received = drop (length body - 4) body
  ensure (crc32 content == from_le_bytes received) checksum_mismatch
  decode_content content

pub decode_frame : List ℕ → Result Error Packet
decode_frame escaped = escape_context (unescape escape_byte toggle escaped) >>= check_body

-- `FrameDecoder::push`
pub push_frames : DelimitedFrames → List ℕ → DelimitedFrames × List (Result Error Packet)
push_frames d bytes = push flag flag too_long decode_frame d bytes
