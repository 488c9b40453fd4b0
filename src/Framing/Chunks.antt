-- ===== src/Framing/Chunks.antt =====
-- `DelimitedFrames.push` does not depend on how the stream is cut into reads.
use bt_daemon.Base.{ℕ, ◌≡◌, refl, sym, ap, List, [], ◌∷◌, ◌++◌, Result, append-nil, append_assoc}
use bt_daemon.Framing.{DelimitedFrames, push_byte, push_loop, push}

module _ {ℓ κ} {E : Type ℓ} {T : Type κ} (start end : ℕ) (too_long : E)
    (decode : List ℕ → Result E T) where
  abbrev Out : Type (ℓ ⊔ κ)
  Out = DelimitedFrames × List (Result E T)

  -- The frames found so far are only appended to.
  push_loop-push :
      (d : DelimitedFrames) (bytes : List ℕ) (frames : List (Result E T))
      → push_loop start end too_long decode d bytes frames ≡ (
        (push start end too_long decode d bytes).0,
        frames ++ (push start end too_long decode d bytes).1,
      )
  unfolding push push_loop
  push_loop-push d [] frames = ap (λ t. (d, t)) (sym (append-nil frames))
  push_loop-push d (byte ∷ bytes) frames =
      let next : Out = push_byte start end too_long decode d byte in
      rw (push_loop-push next.0 bytes (frames ++ next.1), push_loop-push next.0 bytes next.1)
        (ap (λ t. ((push start end too_long decode next.0 bytes).0, t))
          (append_assoc frames next.1 _))

  pub push-cons :
      (d : DelimitedFrames) (byte : ℕ) (bytes : List ℕ)
      → push start end too_long decode d (byte ∷ bytes) ≡ (
        (push start end too_long decode (push_byte start end too_long decode d byte).0 bytes).0,
        (push_byte start end too_long decode d byte).1
            ++ (push start end too_long decode
                (push_byte start end too_long decode d byte).0
                bytes).1,
      )
  unfolding push push_loop
  push-cons d byte bytes =
      push_loop-push (push_byte start end too_long decode d byte).0 bytes
        (push_byte start end too_long decode d byte).1

  -- Reading `xs` and then `ys` is reading `xs ++ ys` at once: the same state is reached, and the
  -- same frames come out in the same order.
  pub push-append :
      (d : DelimitedFrames) (xs ys : List ℕ)
      → push start end too_long decode d (xs ++ ys) ≡ (
        (push start end too_long decode (push start end too_long decode d xs).0 ys).0,
        (push start end too_long decode d xs).1
            ++ (push start end too_long decode (push start end too_long decode d xs).0 ys).1,
      )
  push-append d [] ys = unfold push push_loop in refl
  push-append d (byte ∷ xs) ys =
      let next : Out = push_byte start end too_long decode d byte in
      rw (
        push-cons d byte (xs ++ ys),
        push-cons d byte xs,
        push-append next.0 xs ys,
        append_assoc next.1,
      )
