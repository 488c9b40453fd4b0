-- ===== src/Framing/Limits.antt =====
-- What `DelimitedFrames` keeps between reads, and what it hands to a vendor's decoder.
use bt_daemon.Base.{
  ℕ, ◌<◌, ◌≡◌, refl, ◌⊎◌, inl, inr, Bool, true, false, leb, ◌-◌, List, [], ◌∷◌, Result, err, arith,
  length, length-append, All, All-append, ◌==◌, Bool-cases, not, ◌||◌,
}
use bt_daemon.Framing.{DelimitedFrames, push_byte, push_loop, push, max_frame, is_empty}
use bt_daemon.Framing.Chunks.{push-cons}

-- The buffer is below the limit, and outside a frame it is empty.
pub record IsSound (d : DelimitedFrames) : Type 0 where
  pub within : length d.body < max_frame
  pub idle : d.is_open ≡ false → d.body ≡ []

module _ {ℓ κ} {E : Type ℓ} {T : Type κ} (start end : ℕ) (too_long : E)
    (decode : List ℕ → Result E T) where
  push_byte-IsSound :
      (o : Bool) (body : List ℕ) (byte : ℕ)
      → IsSound (record { body = body; is_open = o })
      → IsSound (push_byte start end too_long decode (record { body = body; is_open = o }) byte).0
  unfolding push_byte
  push_byte-IsSound false body byte s = ground arith
  push_byte-IsSound true body byte s = ground (arith, length-append body (byte ∷ []))

  -- Every run of `push` keeps the state sound: the buffer stays below the limit, and it is empty
  -- outside a frame.
  pub push-IsSound :
      (bytes : List ℕ) (d : DelimitedFrames)
      → IsSound d
      → IsSound (push start end too_long decode d bytes).0
  push-IsSound [] d s = unfold push push_loop in s
  push-IsSound (byte ∷ bytes) d s = rw push-cons (
      push-IsSound bytes (push_byte start end too_long decode d byte).0
        (push_byte-IsSound d.is_open d.body byte s))

  -- A frame is the report of an overlong one, or the decoder's answer on a body below the limit.
  abbrev pub IsFrame : Result E T → Type (ℓ ⊔ κ)
  IsFrame r = (r ≡ err too_long) ⊎ ((b : List ℕ) × (length b < max_frame) × (r ≡ decode b))

  push_byte-IsFrame :
      (o : Bool) (body : List ℕ) (byte : ℕ)
      → length body < max_frame
      → All IsFrame
          (push_byte start end too_long decode (record { body = body; is_open = o }) byte).1
  unfolding push_byte
  push_byte-IsFrame false body byte s = tt
  push_byte-IsFrame true body byte s = elim (Bool-cases (byte == end)) [
    | inl e ↦ rw e (elim (Bool-cases (not (start == end) || not (is_empty body))) [
      | inl f ↦ rw f (inr (body, s, refl), tt)
      | inr f ↦ rw f tt
    ])
    | inr e ↦ rw e (elim (Bool-cases (leb (max_frame - 1) (length body))) [
      | inl f ↦ rw f (inl refl, tt)
      | inr f ↦ rw f tt
    ])
  ]

  -- From a sound state, each frame that comes out is the report of an overlong one or the answer of
  -- the vendor's decoder on a body below the limit.
  pub push-IsFrame :
      (bytes : List ℕ) (d : DelimitedFrames)
      → IsSound d
      → All IsFrame (push start end too_long decode d bytes).1
  push-IsFrame [] d s = unfold push push_loop in tt
  push-IsFrame (byte ∷ bytes) d s = rw push-cons (
      All-append IsFrame (push_byte start end too_long decode d byte).1 _
        (push_byte-IsFrame d.is_open d.body byte s.within)
        (push-IsFrame bytes (push_byte start end too_long decode d byte).0
          (push_byte-IsSound d.is_open d.body byte s)))
