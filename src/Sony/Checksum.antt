-- ===== src/Sony/Checksum.antt =====
-- The checksum detects every altered byte.
use bt_daemon.Sony.RoundTrip.{mask_code, split_last-append}
use bt_daemon.Framing.RoundTrip.{stuffed, unescape-stuffed}
use bt_daemon.Sony.{
  checksum_from, decode, check_frame, checksum, Error, start, end, header_truncated, escape_byte,
  mask, from_be_bytes, unmask, checksum_mismatch, length_mismatch,
}
use bt_daemon.Base.{
  ℕ, List, ◌<◌, ◌≢◌, ◌++◌, ◌∷◌, ◌+◌, ◌≡◌, err, ◌%◌, arith, [], refl, Bool-cases, sym, ◌==◌, length,
  inl, ne→==, inr,
}

shifted-ne : (s t b : ℕ) → s < 256 → t < 256 → s ≢ t → (s + b) % 256 ≢ (t + b) % 256
shifted-ne s t b hs ht h = omega arith

added-ne : (s x y : ℕ) → s < 256 → x < 256 → y < 256 → x ≢ y → (s + x) % 256 ≢ (s + y) % 256
added-ne s x y hs hx hy h = omega arith

-- A difference in the running sum stays to the end.
checksum_from-ne :
    (bytes : List ℕ) (s t : ℕ)
    → s < 256
    → t < 256
    → s ≢ t
    → checksum_from s bytes ≢ checksum_from t bytes
unfolding checksum_from
checksum_from-ne [] s t hs ht h = h
checksum_from-ne (b ∷ bytes) s t hs ht h =
    checksum_from-ne bytes ((s + b) % 256) ((t + b) % 256) (omega arith) (omega arith)
      (shifted-ne s t b hs ht h)

checksum_from-altered :
    (before after : List ℕ) (s x y : ℕ)
    → s < 256
    → x < 256
    → y < 256
    → x ≢ y
    → checksum_from s (before ++ (x ∷ after)) ≢ checksum_from s (before ++ (y ∷ after))
unfolding checksum_from
checksum_from-altered [] after s x y hs hx hy h =
    checksum_from-ne after ((s + x) % 256) ((s + y) % 256) (omega arith) (omega arith)
      (added-ne s x y hs hx hy h)
checksum_from-altered (b ∷ before) after s x y hs hx hy h =
    checksum_from-altered before after ((s + b) % 256) x y (omega arith) hx hy h

check_frame-rejects :
    (received : ℕ) (body : List ℕ)
    → checksum body ≢ received
    → (e : Error) × (check_frame received body ≡ err e)
unfolding check_frame
check_frame-rejects received [] h = (header_truncated, refl)
check_frame-rejects received (a ∷ []) h = (header_truncated, refl)
check_frame-rejects received (a ∷ b ∷ []) h = (header_truncated, refl)
check_frame-rejects received (a ∷ b ∷ c ∷ []) h = (header_truncated, refl)
check_frame-rejects received (a ∷ b ∷ c ∷ d ∷ []) h = (header_truncated, refl)
check_frame-rejects received (a ∷ b ∷ c ∷ d ∷ e ∷ []) h = (header_truncated, refl)
check_frame-rejects received (a ∷ b ∷ c ∷ d ∷ e ∷ f ∷ payload) h =
    elim (Bool-cases (from_be_bytes c d e f == length payload)) [
      | inl same ↦ (
        checksum_mismatch,
        rw (same, ne→== (checksum (a ∷ b ∷ c ∷ d ∷ e ∷ f ∷ payload)) received h),
      )
      | inr differ ↦ (length_mismatch, rw differ)
    ]

-- A frame body in which one byte was altered is refused, wherever the byte stands: the checksum
-- of the original does not fit it.
pub decode-altered :
    (before after : List ℕ) (x y : ℕ)
    → x < 256
    → y < 256
    → x ≢ y
    → (e : Error) × (decode (
          stuffed start end escape_byte mask
            ((before ++ (y ∷ after)) ++ (checksum (before ++ (x ∷ after)) ∷ [])))
        ≡ err e)
unfolding decode
decode-altered before after x y hx hy h =
    let body : List ℕ = before ++ (y ∷ after) in
    let received : ℕ = checksum (before ++ (x ∷ after)) in
    let (e, refused) = check_frame-rejects received body (
      unfold checksum in
      λ same. checksum_from-altered before after 0 x y (omega arith) hx hy h (sym same)) in
    (
      e,
      rw
          (
            unescape-stuffed start end escape_byte mask unmask mask_code,
            split_last-append body received,
          )
          refused,
    )
