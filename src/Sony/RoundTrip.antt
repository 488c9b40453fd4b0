-- ===== src/Sony/RoundTrip.antt =====
-- `FrameDecoder` reads back every frame that `encode` wrote.
use bt_daemon.Framing.Wire.{push-escape}
use bt_daemon.Sony.{
  decode, frame_body, push_frames, split_last, check_frame, encode, start, end, escape_byte, mask,
  unmask, checksum, too_long,
}
use bt_daemon.Framing.RoundTrip.{IsEscapeCode, stuffed, unescape-stuffed, length-stuffed-le}
use bt_daemon.Framing.{is_special, default}
use bt_daemon.Base.{
  ℕ, ◌≡◌, List, length, ◌++◌, ◌⊎◌, ◌+◌, ◌<◌, ◌∷◌, ◌≤◌, [], arith, ok, true, ◌^◌, some, ◌≢◌, inl,
  refl, inr, ◌>>=◌, length-append, lt→ltb, ap, ◌∙◌,
}

special-cases :
    (b : ℕ)
    → is_special start end escape_byte b ≡ true
    → (b ≡ start) ⊎ (b ≡ end) ⊎ (b ≡ escape_byte)
special-cases b h = ground arith

unmask-mask :
    (b : ℕ) → (b ≡ start) ⊎ (b ≡ end) ⊎ (b ≡ escape_byte) → (unmask (mask b) ≡ b) × (mask b ≢ end)
unmask-mask b (inl e) = rw e (refl, omega arith)
unmask-mask b (inr (inl e)) = rw e (refl, omega arith)
unmask-mask b (inr (inr e)) = rw e (refl, omega arith)

pub mask_code : IsEscapeCode start end escape_byte mask unmask
mask_code = record {
  undoes = λ b h. (unmask-mask b (special-cases b h)).0;
  no_end = λ b h. (unmask-mask b (special-cases b h)).1;
  esc_not_end = omega arith;
}

pub split_last-append :
    (bytes : List ℕ) (last : ℕ) → split_last (bytes ++ (last ∷ [])) ≡ some (last, bytes)
unfolding split_last
split_last-append [] last = refl
split_last-append (b ∷ []) last = refl
split_last-append (b ∷ c ∷ bytes) last = rw (split_last-append (c ∷ bytes) last)

check_frame-frame_body :
    (kind sequence : ℕ) (payload : List ℕ)
    → length payload < 2 ^ 32
    → check_frame (checksum (frame_body kind sequence payload)) (frame_body kind sequence payload)
      ≡ ok (record { kind = kind; sequence = sequence; payload = payload })
unfolding check_frame frame_body
check_frame-frame_body kind sequence payload h = ground arith

length-frame_body :
    (kind sequence : ℕ) (payload : List ℕ)
    → length (frame_body kind sequence payload) ≡ length payload + 6
unfolding frame_body
length-frame_body kind sequence payload = omega arith

decode-stuffed :
    (kind sequence : ℕ) (payload : List ℕ)
    → length payload < 2 ^ 32
    → decode (
        stuffed start end escape_byte mask
          (frame_body kind sequence payload ++ (checksum (frame_body kind sequence payload) ∷ [])))
      ≡ ok (record { kind = kind; sequence = sequence; payload = payload })
unfolding decode
decode-stuffed kind sequence payload h =
    rw
      (
        unescape-stuffed start end escape_byte mask unmask mask_code,
        split_last-append (frame_body kind sequence payload),
      )
      (check_frame-frame_body kind sequence payload h)

-- For a payload of at most 2000 bytes, what `encode` writes is one frame on the wire, and it is
-- decoded to its kind, sequence and payload.
pub push_frames-encode :
    (kind sequence : ℕ) (payload : List ℕ)
    → length payload ≤ 2000
    → (encode kind sequence payload >>= (λ wire. ok (push_frames default wire)))
      ≡ ok (default, ok (record { kind = kind; sequence = sequence; payload = payload }) ∷ [])
unfolding push_frames encode
push_frames-encode kind sequence payload few =
    let body : List ℕ = frame_body kind sequence payload in
    let content : List ℕ = body ++ (checksum body ∷ []) in
    let size : length content ≡ length body + 1 = length-append body (checksum body ∷ []) in
    let short : length body ≡ length payload + 6 = length-frame_body kind sequence payload in
    rw (lt→ltb (length payload) (2 ^ 32) (omega arith)) (
      ap ok (
        push-escape start end too_long decode escape_byte mask unmask mask_code default content
          (inl refl) (omega (arith, length-stuffed-le start end escape_byte mask content))
          (inl (omega arith))
        ∙ ap (λ r. (default, r ∷ [])) (decode-stuffed kind sequence payload (omega arith))))
