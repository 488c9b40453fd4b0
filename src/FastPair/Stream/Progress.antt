-- ===== src/FastPair/Stream/Progress.antt =====
-- Each round of the decoder's loop takes a frame off the bytes, and enough rounds are given.
use bt_daemon.FastPair.Stream.{
  Frame, Found, complete, partial, oversized, take_frame, push_loop, take_payload, StreamError,
  FrameDecoder, drained, default, too_large,
}
use bt_daemon.Base.{
  ℕ, ◌≡◌, ◌≤◌, ◌+◌, arith, List, [], ◌∷◌, length, length-drop, refl, zero, suc, inl, ◌*◌, ◌⊎◌, inr,
  Result, err, ok, ap, ◌++◌,
}

pub Found-cases :
    (bytes : List ℕ)
    → ((f : Frame) × (rest : List ℕ) × (take_frame bytes ≡ complete f rest))
      ⊎ (take_frame bytes ≡ partial)
      ⊎ ((n : ℕ) × (take_frame bytes ≡ oversized n))
Found-cases bytes = of (take_frame bytes) refl
  where
    of :
        (found : Found)
        → take_frame bytes ≡ found
        → ((f : Frame) × (rest : List ℕ) × (take_frame bytes ≡ complete f rest))
          ⊎ (take_frame bytes ≡ partial)
          ⊎ ((n : ℕ) × (take_frame bytes ≡ oversized n))
    of (complete f rest) e = inl (f, rest, e)
    of partial e = inr (inl e)
    of (oversized n) e = inr (inr (n, e))

pub rest_of : Found → List ℕ
rest_of (complete f rest) = rest
rest_of partial = []
rest_of (oversized n) = []

-- A frame's header alone is four bytes.
pub take_frame-shorter :
    (bytes : List ℕ) (f : Frame) (rest : List ℕ)
    → take_frame bytes ≡ complete f rest
    → length rest + 4 ≤ length bytes
unfolding take_frame take_payload
take_frame-shorter [] f rest h = cc
take_frame-shorter (_ ∷ []) f rest h = cc
take_frame-shorter (_ ∷ _ ∷ []) f rest h = cc
take_frame-shorter (_ ∷ _ ∷ _ ∷ []) f rest h = cc
take_frame-shorter (g ∷ c ∷ high ∷ low ∷ bytes) f rest h =
    ground (arith, length-drop (high * 256 + low) bytes)

pub push_loop-fuel :
    (n m : ℕ) (frames : List Frame) (bytes : List ℕ)
    → length bytes ≤ n
    → length bytes ≤ m
    → push_loop n frames bytes ≡ push_loop m frames bytes
unfolding push_loop
push_loop-fuel zero zero frames bytes h k = refl
push_loop-fuel zero (suc m) frames [] h k = unfold take_frame in refl
push_loop-fuel zero (suc m) frames (x ∷ bytes) h k = absurd (omega arith)
push_loop-fuel (suc n) zero frames [] h k = unfold take_frame in refl
push_loop-fuel (suc n) zero frames (x ∷ bytes) h k = absurd (omega arith)
push_loop-fuel (suc n) (suc m) frames bytes h k = elim (Found-cases bytes) [
  | inl (f, rest, e) ↦ rw e (
      let shorter = take_frame-shorter bytes f rest e in
      push_loop-fuel n m _ rest (omega arith) (omega arith))
  | inr (inl e) ↦ rw e refl
  | inr (inr (_, e)) ↦ rw e refl
]

pub drained-ok :
    (r : Result StreamError (List Frame × List ℕ)) (frames : List Frame) (d : FrameDecoder)
    → drained r ≡ (ok frames, d)
    → r ≡ ok (frames, d.buffered)
drained-ok (ok (out, rest)) frames d h = cc
drained-ok (err e) frames d h = cc

pub drained-err :
    (r : Result StreamError (List Frame × List ℕ)) (e : StreamError) (d : FrameDecoder)
    → drained r ≡ (err e, d)
    → (r ≡ err e) × (d ≡ default)
drained-err (ok (out, rest)) e d h = cc
drained-err (err e2) e d h =
    let same : e2 ≡ e = cc in let cleared : d ≡ default = cc in (ap err same, cleared)

pub push_loop-partial :
    (n : ℕ) (frames : List Frame) (bytes : List ℕ)
    → take_frame bytes ≡ partial
    → push_loop n frames bytes ≡ ok (frames, bytes)
unfolding push_loop
push_loop-partial zero frames bytes h = refl
push_loop-partial (suc n) frames bytes h = rw h refl

pub push_loop-left :
    (n : ℕ) (frames out : List Frame) (bytes rest : List ℕ)
    → length bytes ≤ n
    → push_loop n frames bytes ≡ ok (out, rest)
    → take_frame rest ≡ partial
unfolding push_loop
push_loop-left zero frames out [] rest h e =
    let same : rest ≡ [] = cc in rw same (unfold take_frame in refl)
push_loop-left zero frames out (b ∷ bytes) rest h e = absurd (omega arith)
push_loop-left (suc n) frames out bytes rest h e = elim (Found-cases bytes) [
  | inl (f, others, found) ↦
      let shorter = take_frame-shorter bytes f others found in
      push_loop-left n (frames ++ (f ∷ [])) out others rest (omega arith) (rw found at e)
  | inr (inl found) ↦
      let stopped : ◌≡◌ {A = Result StreamError (List Frame × List ℕ)} (ok (frames, bytes))
          (ok (out, rest)) =
        rw found at e in
      let same : rest ≡ bytes = cc in rw same found
  | inr (inr (payload_len, found)) ↦
      let failed : err (too_large payload_len) ≡ ok (out, rest) = rw found at e in absurd cc
]
