-- ===== src/Framing/Wire.antt =====
-- What `DelimitedFrames.push` makes of whole frames, overlong ones and noise on the wire.
use bt_daemon.Base.{
  ℕ, ◌+◌, ◌≤◌, ◌<◌, ◌≡◌, ◌≢◌, refl, ap, sym, ◌⊎◌, inl, inr, Bool, true, false, List, [], ◌∷◌, ◌++◌,
  Result, err, arith, length, length-append, All, append-nil, append_assoc, ◌==◌, Bool-cases, ==→eq,
  ◌-◌, map,
}
use bt_daemon.Framing.{DelimitedFrames, push_byte, push_loop, push, max_frame, escape, default}
use bt_daemon.Framing.Chunks.{push-cons, push-append}
use bt_daemon.Framing.Limits.{IsSound}
use bt_daemon.Framing.RoundTrip.{
  stuffed, stuffed-ne-end, stuffed-idle, escape-stuffed, IsEscapeCode,
}

abbrev pub opened : List ℕ → DelimitedFrames
opened body = record { body = body; is_open = true }

-- The state after a frame: closed, or open at once where one flag serves both ends.
abbrev pub between : ℕ → ℕ → DelimitedFrames
between start end = record { body = []; is_open = start == end }

-- No frame is begun: at the start of the stream, or after a frame.
abbrev pub IsBetween : ℕ → ℕ → DelimitedFrames → Type 0
IsBetween start end d = (d ≡ default) ⊎ (d ≡ between start end)

module _ {ℓ κ} {E : Type ℓ} {T : Type κ} (start end : ℕ) (too_long : E)
    (decode : List ℕ → Result E T) where
  push_byte_plain :
      (body : List ℕ) (x : ℕ)
      → x ≢ end
      → length body < max_frame - 1
      → push_byte start end too_long decode (opened body) x ≡ (opened (body ++ (x ∷ [])), [])
  unfolding push_byte
  push_byte_plain body x h fits = ground arith

  push_byte_overlong :
      (body : List ℕ) (x : ℕ)
      → x ≢ end
      → max_frame - 1 ≤ length body
      → push_byte start end too_long decode (opened body) x ≡ (default, err too_long ∷ [])
  unfolding push_byte
  push_byte_overlong body x h full = ground arith

  push_byte-end :
      (body : List ℕ)
      → (start ≢ end) ⊎ (body ≢ [])
      → push_byte start end too_long decode (opened body) end
        ≡ ((between start end), decode body ∷ [])
  unfolding push_byte
  push_byte-end [] (inl h) = ground arith
  push_byte-end [] (inr h) = absurd (h refl)
  push_byte-end (b ∷ body) h = ground arith

  push_byte-start : push_byte start end too_long decode default start ≡ (opened [], [])
  unfolding push_byte
  push_byte-start = ground arith

  push_byte_noise :
      (x : ℕ) → x ≢ start → push_byte start end too_long decode default x ≡ (default, [])
  unfolding push_byte
  push_byte_noise x h = ground arith

  -- Inside a frame, bytes other than the closing delimiter are collected.
  push-plain :
      (xs body : List ℕ)
      → All (λ b. b ≢ end) xs
      → length body + length xs < max_frame
      → push start end too_long decode (opened body) xs ≡ (opened (body ++ xs), [])
  push-plain [] body h fits =
      unfold push push_loop in ap (λ t. (opened t, [])) (sym (append-nil body))
  push-plain (x ∷ xs) body (h, hs) fits = rw (
    push-cons,
    push_byte_plain body x h (omega arith),
    push-plain xs (body ++ (x ∷ [])) hs (omega (arith, length-append body (x ∷ []))),
    append_assoc body (x ∷ []),
  )

  push-nil : (d : DelimitedFrames) → push start end too_long decode d [] ≡ (d, [])
  unfolding push push_loop
  push-nil d = refl

  -- Outside a frame, bytes other than the opening delimiter are skipped.
  push-noise :
      (xs : List ℕ)
      → All (λ b. b ≢ start) xs
      → push start end too_long decode default xs ≡ (default, [])
  push-noise [] h = push-nil default
  push-noise (x ∷ xs) (h, hs) = rw (push-cons, push_byte_noise x h) (push-noise xs hs)

  -- The body of a frame and its closing delimiter, read from the opening delimiter on.
  push-closing :
      (xs : List ℕ)
      → All (λ b. b ≢ end) xs
      → length xs < max_frame
      → (start ≢ end) ⊎ (xs ≢ [])
      → push start end too_long decode (opened []) (xs ++ (end ∷ []))
        ≡ ((between start end), decode xs ∷ [])
  push-closing xs h fits idle = rw (
    push-append,
    push-plain xs [] h (omega arith),
    push-cons _ _ _ _ (opened xs),
    push_byte-end xs idle,
    push-nil,
  )

  pub push-overlong_from :
      (xs body rest : List ℕ)
      → All (λ b. b ≢ end) xs
      → length body + length xs ≡ max_frame
      → length body < max_frame
      → All (λ b. b ≢ start) rest
      → push start end too_long decode (opened body) (xs ++ rest) ≡ (default, err too_long ∷ [])
  push-overlong_from [] body rest h e fits skipped = absurd (omega arith)
  push-overlong_from (x ∷ []) body rest (h, hs) e fits skipped =
      rw (push-cons, push_byte_overlong body x h (omega arith), push-noise rest skipped)
  push-overlong_from (x ∷ y ∷ xs) body rest (h, hs) e fits skipped =
      rw (push-cons, push_byte_plain body x h (omega arith))
        (push-overlong_from (y ∷ xs) (body ++ (x ∷ [])) rest hs
          (omega (arith, length-append body (x ∷ []))) (omega (arith, length-append body (x ∷ [])))
          skipped)

  -- A frame whose body passes the limit before its end is reported once, and what follows it is
  -- skipped up to the next opening delimiter.
  pub push-overlong :
      (xs rest : List ℕ)
      → All (λ b. b ≢ end) xs
      → length xs ≡ max_frame
      → All (λ b. b ≢ start) rest
      → push start end too_long decode default (start ∷ (xs ++ rest)) ≡ (default, err too_long ∷ [])
  push-overlong xs rest h e skipped =
      rw (push-cons, push_byte-start)
        (push-overlong_from xs [] rest h (omega arith) (omega arith) skipped)

  push_byte_idle :
      start ≡ end → push_byte start end too_long decode (opened []) start ≡ (opened [], [])
  unfolding push_byte
  push_byte_idle h = ground arith

  -- Between frames the opening delimiter opens a frame, and adds none.
  push_byte-between :
      push_byte start end too_long decode (between start end) start ≡ (opened [], [])
  push_byte-between = elim (Bool-cases (start == end)) [
    | inl same ↦ rw same (push_byte_idle (==→eq start end same))
    | inr differ ↦ rw differ push_byte-start
  ]

  push_byte-IsBetween :
      (d : DelimitedFrames)
      → IsBetween start end d
      → push_byte start end too_long decode d start ≡ (opened [], [])
  push_byte-IsBetween d (inl e) = rw e push_byte-start
  push_byte-IsBetween d (inr e) = rw e push_byte-between

  -- The closing delimiter leads from any sound state to the state between frames.
  push_byte_resync :
      (o : Bool) (body : List ℕ)
      → IsSound (record { body = body; is_open = o })
      → ((push_byte start end too_long decode (record { body = body; is_open = o }) end).0
          ≡ (between start end))
        × (length (push_byte start end too_long decode (record { body = body; is_open = o }) end).1
            ≤ 1)
  unfolding push_byte
  push_byte_resync false body s = (ground (arith, s.idle refl), omega arith)
  push_byte_resync true body s = ground arith

  module _ (esc : ℕ) (encode unmap : ℕ → ℕ) (code : IsEscapeCode start end esc encode unmap) where
    -- `escape` puts exactly one frame on the wire: read between frames, it gives the decoder the
    -- escaped body once. Where one flag serves both ends, an empty body would be an idle flag.
    pub push-escape :
        (d : DelimitedFrames) (body : List ℕ)
        → IsBetween start end d
        → length (stuffed start end esc encode body) < max_frame
        → (start ≢ end) ⊎ (body ≢ [])
        → push start end too_long decode d (escape start end esc encode body)
          ≡ ((between start end), decode (stuffed start end esc encode body) ∷ [])
    push-escape d body b fits idle =
        rw (escape-stuffed, push-cons, push_byte-IsBetween d b)
          (push-closing _ (stuffed-ne-end start end esc encode unmap code body) fits
            (stuffed-idle start end esc encode body idle))

    abbrev pub Sendable : List ℕ → Type 0
    Sendable body =
        (length (stuffed start end esc encode body) < max_frame) × ((start ≢ end) ⊎ (body ≢ []))

    abbrev pub escapes : List (List ℕ) → List ℕ
    escapes [] = []
    escapes (body ∷ bodies) = escape start end esc encode body ++ escapes bodies

    -- Between frames, a stream of escaped bodies is decoded body by body, in order, if each fits the
    -- limit once stuffed and, where one flag serves both ends, is not empty.
    pub push-escapes :
        (bodies : List (List ℕ)) (d : DelimitedFrames)
        → IsBetween start end d
        → All Sendable bodies
        → (push start end too_long decode d (escapes bodies)).1
          ≡ map (λ body. decode (stuffed start end esc encode body)) bodies
    push-escapes [] d b h = ap (λ t. t.1) (push-nil d)
    push-escapes (body ∷ bodies) d b (h, hs) =
        rw (push-append, push-escape d body b h.0 h.1)
          (ap (◌∷◌ (decode (stuffed start end esc encode body)))
            (push-escapes bodies (between start end) (inr refl) hs))

    -- From any sound state, after a closing delimiter the next whole frame is decoded, and at most
    -- one frame comes before it; the body fits the limit once stuffed and, where one flag serves both
    -- ends, is not empty.
    pub push-resync :
        (d : DelimitedFrames) (body : List ℕ)
        → IsSound d
        → length (stuffed start end esc encode body) < max_frame
        → (start ≢ end) ⊎ (body ≢ [])
        → (before : List (Result E T)) × (length before ≤ 1)
          × (push start end too_long decode d (end ∷ escape start end esc encode body)
              ≡ ((between start end), before ++ (decode (stuffed start end esc encode body) ∷ [])))
    push-resync d body s fits idle =
        let (there, few) = push_byte_resync d.is_open d.body s in
        (
          _,
          few,
          rw (push-cons, there, push-escape (between start end) body (inr refl) fits idle) refl,
        )
