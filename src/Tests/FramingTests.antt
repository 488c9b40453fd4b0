-- ===== src/Tests/FramingTests.antt =====
-- src/framing.rs on Sony's and on Maestro's delimiters.
use bt_daemon.Framing.{
  DelimitedFrames, default, max_frame, push, escape, unescape, push_loop, stuff, push_byte,
}
use bt_daemon.Framing.Chunks.{push-append}
use bt_daemon.Framing.Limits.{IsSound, IsFrame, push-IsSound, push-IsFrame}
use bt_daemon.Framing.RoundTrip.{length-stuffed-le, stuffed, unescape-stuffed}
use bt_daemon.Framing.Wire.{opened, between, escapes, push-escapes, push-resync, push-overlong}
use bt_daemon.Framing.Reader.{
  Reader, bytes, next, remaining, Delivers, next-Delivers, next-push, chunks, joined,
}
use bt_daemon.Sony.{Error, Frame, start, end, escape_byte, mask, unmask, decode, too_long}
use bt_daemon.Sony.RoundTrip.{mask_code}
use bt_daemon.Base.{
  ℕ, List, [], ◌∷◌, ◌++◌, ◌≡◌, ◌≢◌, ◌≤◌, inl, refl, ok, err, length, map, All, arith, suc, zero,
}

-- A delimiter and the escape byte among plain bytes.
abbrev body : List ℕ
body = 0x3c ∷ 7 ∷ 0x3d ∷ []

abbrev other : List ℕ
other = 1 ∷ []

escape_body :
    escape start end escape_byte mask body ≡ 0x3e ∷ 0x3d ∷ 0x2c ∷ 7 ∷ 0x3d ∷ 0x2d ∷ 0x3c ∷ []
unfolding escape stuff
escape_body = refl

-- A read may end inside a frame.
half_read : push start end too_long decode default (9 ∷ 0x3e ∷ 5 ∷ []) ≡ (opened (5 ∷ []), [])
unfolding push push_loop push_byte
half_read = refl

-- A flag twice in a row is idle where it serves both ends.
idle_flags : (push 0x7e 0x7e too_long decode default (0x7e ∷ 0x7e ∷ 0x7e ∷ [])).1 ≡ []
unfolding push push_loop push_byte
idle_flags = refl

push-escapes_example :
    (push start end too_long decode default (
      escapes start end too_long decode escape_byte mask unmask mask_code
        (body ∷ [] ∷ other ∷ []))).1
    ≡ map (λ b. decode (stuffed start end escape_byte mask b)) (body ∷ [] ∷ other ∷ [])
push-escapes_example =
    push-escapes start end too_long decode escape_byte mask unmask mask_code
      (body ∷ [] ∷ other ∷ []) default (inl refl)
      (
        (omega (arith, length-stuffed-le start end escape_byte mask body), inl (omega arith)),
        (
          (omega (arith, length-stuffed-le start end escape_byte mask []), inl (omega arith)),
          (
            (omega (arith, length-stuffed-le start end escape_byte mask other), inl (omega arith)),
            tt,
          ),
        ),
      )

opened-IsSound : IsSound (opened (5 ∷ 6 ∷ []))
opened-IsSound = record { within = omega arith; idle = λ e. absurd cc }

push-resync_example :
    (before : List _) × (length before ≤ 1)
    × (push start end too_long decode
          (opened (5 ∷ 6 ∷ []))
          (end ∷ escape start end escape_byte mask body)
        ≡ ((between start end), before ++ (decode (stuffed start end escape_byte mask body) ∷ [])))
push-resync_example =
    push-resync start end too_long decode escape_byte mask unmask mask_code (opened (5 ∷ 6 ∷ []))
      body opened-IsSound (omega (arith, length-stuffed-le start end escape_byte mask body))
      (inl (omega arith))

push-append_test : push start end too_long decode default ((0x3e ∷ 1 ∷ []) ++ (2 ∷ 0x3c ∷ [])) ≡ (
  (push start end too_long decode
      (push start end too_long decode default (0x3e ∷ 1 ∷ [])).0
      (2 ∷ 0x3c ∷ [])).0,
  (push start end too_long decode default (0x3e ∷ 1 ∷ [])).1
      ++ (push start end too_long decode
          (push start end too_long decode default (0x3e ∷ 1 ∷ [])).0
          (2 ∷ 0x3c ∷ [])).1,
)
push-append_test = push-append start end too_long decode default (0x3e ∷ 1 ∷ []) (2 ∷ 0x3c ∷ [])

push-IsSound_test :
    IsSound (push start end too_long decode (opened (5 ∷ 6 ∷ [])) (7 ∷ 0x3c ∷ 0x3e ∷ [])).0
push-IsSound_test =
    push-IsSound start end too_long decode (7 ∷ 0x3c ∷ 0x3e ∷ []) (opened (5 ∷ 6 ∷ []))
      opened-IsSound

push-IsFrame_test :
    All
      (IsFrame start end too_long decode)
      (push start end too_long decode (opened (5 ∷ 6 ∷ [])) (7 ∷ 0x3c ∷ 0x3e ∷ [])).1
push-IsFrame_test =
    push-IsFrame start end too_long decode (7 ∷ 0x3c ∷ 0x3e ∷ []) (opened (5 ∷ 6 ∷ []))
      opened-IsSound

unescape-stuffed_test :
    unescape escape_byte unmask (stuffed start end escape_byte mask body) ≡ ok body
unescape-stuffed_test = unescape-stuffed start end escape_byte mask unmask mask_code body

-- One read gives two messages; `next` returns the first.
abbrev reader : Reader Error Frame DelimitedFrames ℕ
reader = record {
  reads = bytes (0x3e ∷ 1 ∷ 0x3c ∷ []) ∷ bytes (0x3e ∷ 2 ∷ 0x3c ∷ []) ∷ [];
  decoder = default;
  pending = [];
  reported = [];
}

next-Delivers_example :
    Delivers
      (push start end too_long decode)
      []
      (remaining (push start end too_long decode) reader)
      (next (push start end too_long decode) reader).0
      (next (push start end too_long decode) reader).1
next-Delivers_example = next-Delivers (push start end too_long decode) reader

abbrev pieces : List (ℕ × List ℕ)
pieces = (0x3e, 1 ∷ []) ∷ (0x3c, 0x3e ∷ []) ∷ (2, []) ∷ (0x3c, []) ∷ []

abbrev over_pieces : Reader Error Frame DelimitedFrames ℕ
over_pieces = record { reads = chunks pieces; decoder = default; pending = []; reported = [] }

next-push_example :
    Delivers
      (push start end too_long decode)
      []
      (push start end too_long decode default (joined pieces)).1
      (next (push start end too_long decode) over_pieces).0
      (next (push start end too_long decode) over_pieces).1
next-push_example = next-push start end too_long decode ℕ default pieces []

abbrev ones : ℕ → List ℕ
ones zero = []
ones (suc n) = 1 ∷ ones n

ones-ne_end : (n : ℕ) → All (λ b. b ≢ end) (ones n)
ones-ne_end zero = tt
ones-ne_end (suc n) = (omega arith, ones-ne_end n)

length-ones : (n : ℕ) → length (ones n) ≡ n
length-ones zero = refl
length-ones (suc n) = omega (arith, length-ones n)

push-overlong_test :
    push start end too_long decode default (start ∷ (ones max_frame ++ (2 ∷ 0x3c ∷ [])))
    ≡ (default, err too_long ∷ [])
push-overlong_test =
    push-overlong start end too_long decode (ones max_frame) (2 ∷ 0x3c ∷ []) (ones-ne_end max_frame)
      (length-ones max_frame) (omega arith, (omega arith, tt))
