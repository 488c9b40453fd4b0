-- ===== src/FastPair/Stream.antt =====
-- src/fast_pair.rs: the frames of the Fast Pair Message Stream and their decoder.
pub mod Progress
pub mod RoundTrip
pub mod Chunks
pub mod Limits
pub mod Transport
use bt_daemon.Base.Endian.{be_bytes16}
use bt_daemon.Base.{
  ℕ, zero, suc, ◌+◌, ◌*◌, List, [], ◌∷◌, ◌++◌, ltb, if◌then◌else◌, length, take, drop, Result, ok,
  err, Option, none, some,
}

-- `MAX_FRAME_PAYLOAD`
abbrev pub max_frame_payload : ℕ
max_frame_payload = 4096

pub record Frame : Type 0 where
  pub group : ℕ
  pub code : ℕ
  pub payload : List ℕ

pub data StreamError : Type 0 where
  -- "Fast Pair frame payload exceeds the protocol length"
  payload_length : StreamError
  -- "Fast Pair frame payload is too large"
  too_large : ℕ → StreamError
  -- "read Fast Pair Message Stream transport"
  read_failed : StreamError

-- `Frame::encoded`; `try_into` fails above the last `u16`.
unfoldable pub encoded : ℕ → ℕ → List ℕ → Result StreamError (List ℕ)
encoded group code payload =
    if ltb (length payload) 65536
    then ok (group ∷ code ∷ (be_bytes16 (length payload) ++ payload))
    else err payload_length

-- What one round of the loop of `push` finds at the front of the bytes that are left.
pub data Found : Type 0 where
  complete : Frame → List ℕ → Found
  partial : Found
  oversized : ℕ → Found

take_payload : ℕ → ℕ → ℕ → List ℕ → Found
take_payload group code payload_len bytes =
    if ltb max_frame_payload payload_len
    then oversized payload_len
    else if ltb (length bytes) payload_len
    then partial
    else complete (record { group = group; code = code; payload = take payload_len bytes })
        (drop payload_len bytes)

unfoldable pub take_frame : List ℕ → Found
unfolding take_payload
take_frame (group ∷ code ∷ high ∷ low ∷ bytes) = take_payload group code (high * 256 + low) bytes
take_frame _ = partial

abbrev pub Loop : Type 0
Loop = List Frame → List ℕ → Result StreamError (List Frame × List ℕ)

-- The rest of a round, before the `next` one.
abbrev pub on_found : Found → Loop → Loop
on_found (complete frame rest) next frames bytes = next (frames ++ (frame ∷ [])) rest
on_found partial next frames bytes = ok (frames, bytes)
on_found (oversized payload_len) next frames bytes = err (too_large payload_len)

-- The loop of `push` from the bytes that are not consumed yet, on fuel.
unfoldable pub push_loop : ℕ → Loop
push_loop zero frames bytes = ok (frames, bytes)
push_loop (suc rounds) frames bytes = on_found (take_frame bytes) (push_loop rounds) frames bytes

pub record FrameDecoder : Type 0 where
  pub buffered : List ℕ

-- `FrameDecoder::default()`
abbrev pub default : FrameDecoder
default = record { buffered = [] }

-- The buffer is drained up to what is consumed, and cleared before an error.
abbrev pub drained :
    Result StreamError (List Frame × List ℕ) → Result StreamError (List Frame) × FrameDecoder
drained (ok (frames, rest)) = (ok frames, record { buffered = rest })
drained (err e) = (err e, default)

-- As many rounds as bytes are enough, since each takes four bytes at least.
unfoldable pub push : FrameDecoder → List ℕ → Result StreamError (List Frame) × FrameDecoder
push d bytes =
    let buffered = d.buffered ++ bytes in drained (push_loop (length buffered) [] buffered)

-- The frames of one read go before those of the reads after it; an error ends the loop.
abbrev pub sent_frames :
    Result StreamError (List Frame)
    → List Frame × Result StreamError (Unit {0})
    → List Frame × Result StreamError (Unit {0})
sent_frames (ok frames) later = (frames ++ later.0, later.1)
sent_frames (err e) later = ([], err e)

-- The loop of `read_transport` over what the reads give, where `none` is a read that fails and an
-- empty read the end of the stream: the frames that it sends, in order, and how it returns.
unfoldable pub read_transport :
    FrameDecoder → List (Option (List ℕ)) → List Frame × Result StreamError (Unit {0})
read_transport d [] = ([], ok tt)
read_transport d (none ∷ reads) = ([], err read_failed)
read_transport d (some [] ∷ reads) = ([], ok tt)
read_transport d (some (b ∷ bytes) ∷ reads) =
    let answer = push d (b ∷ bytes) in sent_frames answer.0 (read_transport answer.1 reads)
