-- ===== src/Sony.antt =====
-- src/sony/protocol.rs: Sony Headphones Connect frames.
pub mod RoundTrip
pub mod Checksum
pub mod NcAsm
use bt_daemon.Base.Endian.{be_bytes32}
use bt_daemon.Framing.{DelimitedFrames, EscapeError, push, unescape, escape}
use mathlib.Core.Option
use Prim.Native.Nat.{bit_and, bit_or}
use bt_daemon.Base.{
  ℕ, List, Result, ◌*◌, Option, if◌then◌else◌, ◌+◌, ◌>>=◌, ◌∷◌, ltb, none, ok, ◌%◌, ◌>>◌, [],
  ensure, err, length, or_fail, some, ◌++◌, ◌==◌, ◌^◌,
}

pub data Error : Type 0 where
  payload_too_large escaping empty_frame header_truncated length_mismatch : Error
  checksum_mismatch too_long : Error
  report_length unsupported_type invalid_report unsupported_mode : Error

abbrev pub start : ℕ
start = 0x3e

abbrev pub end : ℕ
end = 0x3c

abbrev pub escape_byte : ℕ
escape_byte = 0x3d

-- `|byte| byte & ESCAPE_MASK`
abbrev pub mask : ℕ → ℕ
mask byte = bit_and byte 0xef

-- `|byte| byte | !ESCAPE_MASK`
abbrev pub unmask : ℕ → ℕ
unmask byte = bit_or byte 0x10

pub record Frame : Type 0 where
  pub kind : ℕ
  pub sequence : ℕ
  pub payload : List ℕ

-- `fold(0_u8, |sum, byte| sum.wrapping_add(*byte))`
pub checksum_from : ℕ → List ℕ → ℕ
checksum_from sum [] = sum
checksum_from sum (byte ∷ bytes) = checksum_from ((sum + byte) % 256) bytes

pub checksum : List ℕ → ℕ
unfolding checksum_from
checksum bytes = checksum_from 0 bytes

-- What `encode` sums up: kind, sequence, length and payload.
pub frame_body : ℕ → ℕ → List ℕ → List ℕ
frame_body kind sequence payload = kind ∷ sequence ∷ (be_bytes32 (length payload) ++ payload)

pub encode : ℕ → ℕ → List ℕ → Result Error (List ℕ)
encode kind sequence payload =
    let body = frame_body kind sequence payload in
    if ltb (length payload) (2 ^ 32)
    then ok (escape start end escape_byte mask (body ++ (checksum body ∷ [])))
    else err payload_too_large

-- `slice::split_last`
pub split_last : List ℕ → Option (ℕ × List ℕ)
split_last [] = none
split_last (byte ∷ []) = some (byte, [])
split_last (byte ∷ next ∷ bytes) = Option.map (λ t. (t.0, byte ∷ t.1)) (split_last (next ∷ bytes))

from_be_bytes : ℕ → ℕ → ℕ → ℕ → ℕ
from_be_bytes a b c d = ((a * 256 + b) * 256 + c) * 256 + d

-- The `let [kind, sequence, a, b, c, d, payload @ ..] = body` of `decode`, and the checks behind it.
check_frame : ℕ → List ℕ → Result Error Frame
unfolding from_be_bytes
check_frame received (kind ∷ sequence ∷ a ∷ b ∷ c ∷ d ∷ payload) = do
  ensure (from_be_bytes a b c d == length payload) length_mismatch
  ensure (checksum (kind ∷ sequence ∷ a ∷ b ∷ c ∷ d ∷ payload) == received) checksum_mismatch
  ok (record { kind = kind; sequence = sequence; payload = payload })
check_frame received _ = err header_truncated

abbrev escape_context {ℓ} : {A : Type ℓ} → Result EscapeError A → Result Error A
escape_context (ok a) = ok a
escape_context (err e) = err escaping

pub decode : List ℕ → Result Error Frame
decode escaped = do
  bytes ← escape_context (unescape escape_byte unmask escaped)
  split ← or_fail (split_last bytes) empty_frame
  check_frame split.0 split.1

-- `FrameDecoder::push`
pub push_frames : DelimitedFrames → List ℕ → DelimitedFrames × List (Result Error Frame)
push_frames d bytes = push start end too_long decode d bytes
