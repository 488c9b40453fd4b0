-- ===== src/Tests/StreamTests.antt =====
-- src/fast_pair.rs, the Message Stream on concrete bytes.
use bt_daemon.FastPair.Stream.{Frame, FrameDecoder, push, take_frame, push_loop, default, too_large}
use bt_daemon.FastPair.Stream.RoundTrip.{push-IsWire, IsWire}
use bt_daemon.FastPair.Stream.Chunks.{push-after, after}
use bt_daemon.FastPair.Stream.Limits.{push-too_large, IsBroken}
use bt_daemon.Base.Endian.{IsBytes}
use bt_daemon.Base.{ℕ, ◌≡◌, ◌↔◌, List, [], ◌∷◌, ◌++◌, ok, err, arith, refl}

-- A battery report and the first byte of another frame.
abbrev report : Frame
report = record { group = 3; code = 3; payload = 0x64 ∷ 0x32 ∷ 0xff ∷ [] }

abbrev bytes : List ℕ
bytes = 3 ∷ 3 ∷ 0 ∷ 3 ∷ 0x64 ∷ 0x32 ∷ 0xff ∷ 3 ∷ []

abbrev left : FrameDecoder
left = record { buffered = 3 ∷ [] }

bytes-IsBytes : IsBytes bytes
bytes-IsBytes = ground arith

push-IsWire_example :
    (push default bytes ≡ (ok (report ∷ []), left)) ↔ IsWire (report ∷ []) (3 ∷ []) bytes
push-IsWire_example = push-IsWire default left bytes (report ∷ []) bytes-IsBytes

first_read : push default bytes ≡ (ok (report ∷ []), left)
unfolding push push_loop take_frame
first_read = refl

push-after_test :
    push default (bytes ++ (1 ∷ 0 ∷ 0 ∷ [])) ≡ after (report ∷ []) (push left (1 ∷ 0 ∷ 0 ∷ []))
push-after_test = push-after default left bytes (1 ∷ 0 ∷ 0 ∷ []) (report ∷ []) first_read

overlong-IsBytes : IsBytes (1 ∷ 1 ∷ 0x10 ∷ 0x01 ∷ [])
overlong-IsBytes = omega arith

overlong : push default (1 ∷ 1 ∷ 0x10 ∷ 0x01 ∷ []) ≡ (err (too_large 4097), default)
unfolding push push_loop take_frame
overlong = refl

push-too_large_example :
    (push default (1 ∷ 1 ∷ 0x10 ∷ 0x01 ∷ []) ≡ (err (too_large 4097), default))
    ↔ ((frames : List Frame) × IsBroken frames 4097 (1 ∷ 1 ∷ 0x10 ∷ 0x01 ∷ []))
push-too_large_example = push-too_large default (1 ∷ 1 ∷ 0x10 ∷ 0x01 ∷ []) 4097 overlong-IsBytes

abbrev reads : List (ℕ × List ℕ)
reads = (3, 3 ∷ 0 ∷ []) ∷ (3, 0x64 ∷ []) ∷ (0x32, 0xff ∷ 3 ∷ []) ∷ []
