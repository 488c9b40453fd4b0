-- ===== src/FastPair/Stream/Chunks.antt =====
-- `FrameDecoder::push` does not depend on how the stream is cut into reads.
use bt_daemon.FastPair.Stream.{
  Frame, complete, oversized, take_frame, take_payload, push_loop, push, drained, FrameDecoder,
  StreamError, too_large,
}
use bt_daemon.FastPair.Stream.Progress.{
  Found-cases, take_frame-shorter, push_loop-fuel, drained-ok, drained-err,
}
use bt_daemon.Base.{
  ℕ, ◌≡◌, ◌≤◌, arith, List, [], ◌∷◌, ◌++◌, length, refl, ok, err, Result, append-nil, append_assoc,
  suc, take-append-le, inl, ◌*◌, inr, ◌+◌, drop-append-le, zero, length-append, ap, sym,
}

take_frame-append :
    (xs ys : List ℕ) (f : Frame) (rest : List ℕ)
    → take_frame xs ≡ complete f rest
    → take_frame (xs ++ ys) ≡ complete f (rest ++ ys)
unfolding take_frame take_payload
take_frame-append [] ys f rest h = cc
take_frame-append (_ ∷ []) ys f rest h = cc
take_frame-append (_ ∷ _ ∷ []) ys f rest h = cc
take_frame-append (_ ∷ _ ∷ _ ∷ []) ys f rest h = cc
take_frame-append (g ∷ c ∷ high ∷ low ∷ xs) ys f rest h = ground (
  arith,
  take-append-le (high * 256 + low) xs ys,
  drop-append-le (high * 256 + low) xs ys,
  length-append xs ys,
)

take_frame-append_oversized :
    (xs ys : List ℕ) (n : ℕ) → take_frame xs ≡ oversized n → take_frame (xs ++ ys) ≡ oversized n
unfolding take_frame take_payload
take_frame-append_oversized [] ys n h = cc
take_frame-append_oversized (_ ∷ []) ys n h = cc
take_frame-append_oversized (_ ∷ _ ∷ []) ys n h = cc
take_frame-append_oversized (_ ∷ _ ∷ _ ∷ []) ys n h = cc
take_frame-append_oversized (g ∷ c ∷ high ∷ low ∷ xs) ys n h = ground arith

-- More bytes behind those that were read: the loop goes on from what it left.
push_loop-append :
    (n m : ℕ) (frames out : List Frame) (xs ys tail : List ℕ)
    → length xs ≤ n
    → length (xs ++ ys) ≤ m
    → push_loop n frames xs ≡ ok (out, tail)
    → push_loop m frames (xs ++ ys) ≡ push_loop (length (tail ++ ys)) out (tail ++ ys)
unfolding push_loop
push_loop-append zero m frames out xs ys tail h k e =
    let same : tail ≡ xs = cc in
    let same_out : out ≡ frames = cc in
    rw (same, same_out) (push_loop-fuel m _ frames (xs ++ ys) k (omega arith))
push_loop-append (suc n) m frames out xs ys tail h k e = elim (Found-cases xs) [
  | inl (f, rest, found) ↦
      let shorter = take_frame-shorter xs f rest found in
      rw
        (
          push_loop-fuel m (suc (length (xs ++ ys))) frames (xs ++ ys) k (omega arith),
          take_frame-append xs ys f rest found,
        )
        (push_loop-append n (length (xs ++ ys)) (frames ++ (f ∷ [])) out rest ys tail (omega arith)
          (omega (arith, length-append xs ys, length-append rest ys)) (rw found at e))
  | inr (inl found) ↦
      let stopped : ok (frames, xs) ≡ ok (out, tail) = rw found at e in
      let same : tail ≡ xs = cc in
      let same_out : out ≡ frames = cc in
      rw (same, same_out) (push_loop-fuel m _ frames (xs ++ ys) k (omega arith))
  | inr (inr (payload_len, found)) ↦
      let failed : err (too_large payload_len) ≡ ok (out, tail) = rw found at e in absurd cc
]

-- The frames found so far are only appended to.
abbrev behind :
    List Frame → Result StreamError (List Frame × List ℕ) → Result StreamError (List Frame × List ℕ)
behind frames (ok (out, rest)) = ok (frames ++ out, rest)
behind frames (err e) = err e

behind-append :
    (xs ys : List Frame) (r : Result StreamError (List Frame × List ℕ))
    → behind (xs ++ ys) r ≡ behind xs (behind ys r)
behind-append xs ys (ok (out, rest)) = ap (λ t. ok (t, rest)) (append_assoc xs ys out)
behind-append xs ys (err e) = refl

push_loop-behind :
    (n : ℕ) (frames : List Frame) (bytes : List ℕ)
    → push_loop n frames bytes ≡ behind frames (push_loop n [] bytes)
unfolding push_loop
push_loop-behind zero frames bytes = ap (λ t. ok (t, bytes)) (sym (append-nil frames))
push_loop-behind (suc n) frames bytes = elim (Found-cases bytes) [
  | inl (f, rest, found) ↦ rw (
    found,
    push_loop-behind n (frames ++ (f ∷ [])) rest,
    push_loop-behind n (f ∷ []) rest,
    behind-append frames (f ∷ []) (push_loop n [] rest),
  )
  | inr (inl found) ↦ rw found (ap (λ t. ok (t, bytes)) (sym (append-nil frames)))
  | inr (inr (payload_len, found)) ↦ rw found refl
]

-- The answer of a read that follows one which gave `frames`.
abbrev pub after :
    List Frame
    → Result StreamError (List Frame) × FrameDecoder
    → Result StreamError (List Frame) × FrameDecoder
after frames (ok out, d) = (ok (frames ++ out), d)
after frames (err e, d) = (err e, d)

drained-behind :
    (frames : List Frame) (r : Result StreamError (List Frame × List ℕ))
    → drained (behind frames r) ≡ after frames (drained r)
drained-behind frames (ok (out, rest)) = refl
drained-behind frames (err e) = refl

-- When reading `xs` succeeds, reading `ys` after it is reading `xs ++ ys` at once: the same
-- frames in the same order or the same error, and the same buffer.
pub push-after :
    (d next : FrameDecoder) (xs ys : List ℕ) (frames : List Frame)
    → push d xs ≡ (ok frames, next)
    → push d (xs ++ ys) ≡ after frames (push next ys)
unfolding push
push-after d next xs ys frames h =
    let all = d.buffered ++ xs in
    let e = drained-ok (push_loop (length all) [] all) frames next h in
    rw
      (
        sym (append_assoc d.buffered xs ys),
        push_loop-append (length all) (length (all ++ ys)) [] frames all ys next.buffered
            (omega arith) (omega arith) e,
        push_loop-behind _ frames (next.buffered ++ ys),
      )
      (drained-behind frames _)

push_loop-append_err :
    (n m : ℕ) (frames : List Frame) (xs ys : List ℕ) (e : StreamError)
    → length xs ≤ n
    → length (xs ++ ys) ≤ m
    → push_loop n frames xs ≡ err e
    → push_loop m frames (xs ++ ys) ≡ err e
unfolding push_loop
push_loop-append_err zero m frames xs ys e h k failed = cc
push_loop-append_err (suc n) m frames xs ys e h k failed = elim (Found-cases xs) [
  | inl (f, rest, found) ↦
      let shorter = take_frame-shorter xs f rest found in
      rw
        (
          push_loop-fuel m (suc (length (xs ++ ys))) frames (xs ++ ys) k (omega arith),
          take_frame-append xs ys f rest found,
        )
        (push_loop-append_err n (length (xs ++ ys)) (frames ++ (f ∷ [])) rest ys e (omega arith)
          (omega (arith, length-append xs ys, length-append rest ys)) (rw found at failed))
  | inr (inl found) ↦ let stopped : ok (frames, xs) ≡ err e = rw found at failed in absurd cc
  | inr (inr (payload_len, found)) ↦
      rw
        (
          push_loop-fuel m (suc (length (xs ++ ys))) frames (xs ++ ys) k (omega arith),
          take_frame-append_oversized xs ys payload_len found,
        )
        (rw found at failed)
]

-- A read that fails still fails when more bytes stand behind it.
pub push-after_err :
    (d next : FrameDecoder) (xs ys : List ℕ) (e : StreamError)
    → push d xs ≡ (err e, next)
    → (push d (xs ++ ys)).0 ≡ err e
unfolding push
push-after_err d next xs ys e h =
    let all = d.buffered ++ xs in
    let (failed, _) = drained-err (push_loop (length all) [] all) e next h in
    rw
      (
        sym (append_assoc d.buffered xs ys),
        push_loop-append_err (length all) (length (all ++ ys)) [] all ys e (omega arith)
            (omega arith) failed,
      )
      refl
