-- ===== src/Framing/RoundTrip.antt =====
-- `unescape` undoes `escape`.
use bt_daemon.Base.{
  ℕ, ◌≡◌, ◌≢◌, sym, ap, ◌∙◌, true, false, List, [], ◌∷◌, ◌++◌, if◌then◌else◌, ok, append-nil,
  append_assoc, arith, length, ◌≤◌, ◌*◌, All, ◌⊎◌, Bool-cases, inl, inr,
}
use bt_daemon.Framing.{is_special, stuff, escape, unescape_loop, unescape}

-- The escaped bytes by themselves, without the delimiters.
module _ (start end esc : ℕ) (encode : ℕ → ℕ) where
  pub stuffed : List ℕ → List ℕ
  stuffed [] = []
  stuffed (byte ∷ body) =
      (if is_special start end esc byte then esc ∷ encode byte ∷ [] else byte ∷ []) ++ stuffed body

  pub stuff-stuffed :
      (frame body : List ℕ) → stuff start end esc encode frame body ≡ frame ++ stuffed body
  unfolding stuff stuffed
  stuff-stuffed frame [] = sym (append-nil frame)
  stuff-stuffed frame (byte ∷ body) =
      stuff-stuffed (frame ++ _) body ∙ append_assoc frame _ (stuffed body)

  pub escape-stuffed :
      (body : List ℕ) → escape start end esc encode body ≡ start ∷ (stuffed body ++ (end ∷ []))
  unfolding escape
  escape-stuffed body = ap (λ t. t ++ (end ∷ [])) (stuff-stuffed (start ∷ []) body)

  pub length-stuffed-le : (body : List ℕ) → length (stuffed body) ≤ 2 * length body
  unfolding stuffed
  length-stuffed-le [] = omega arith
  length-stuffed-le (byte ∷ body) = ground (arith, length-stuffed-le body)

  pub special-ne-end : (b : ℕ) → is_special start end esc b ≡ false → b ≢ end
  special-ne-end b plain = ground arith

  stuffed-ne-nil : (body : List ℕ) → body ≢ [] → stuffed body ≢ []
  unfolding stuffed
  stuffed-ne-nil [] h = h
  stuffed-ne-nil (byte ∷ body) h = ground arith

  pub stuffed-idle :
      (body : List ℕ) → (start ≢ end) ⊎ (body ≢ []) → (start ≢ end) ⊎ (stuffed body ≢ [])
  stuffed-idle body (inl h) = inl h
  stuffed-idle body (inr h) = inr (stuffed-ne-nil body h)

-- What a vendor's pair of byte maps has to satisfy: the escape code of each special byte is
-- undone, and is no delimiter.
pub record IsEscapeCode (start end esc : ℕ) (encode decode : ℕ → ℕ) : Type 0 where
  pub undoes : (b : ℕ) → is_special start end esc b ≡ true → decode (encode b) ≡ b
  pub no_end : (b : ℕ) → is_special start end esc b ≡ true → encode b ≢ end
  pub esc_not_end : esc ≢ end

module _ (start end esc : ℕ) (encode decode : ℕ → ℕ)
    (code : IsEscapeCode start end esc encode decode) where
  unescape_loop-stuffed :
      (acc body : List ℕ)
      → unescape_loop esc decode false acc (stuffed start end esc encode body) ≡ ok (acc ++ body)
  unfolding unescape_loop stuffed
  unescape_loop-stuffed acc [] = ap ok (sym (append-nil acc))
  unescape_loop-stuffed acc (byte ∷ body) = ground (
    arith,
    code.undoes byte,
    unescape_loop-stuffed (acc ++ (byte ∷ [])) body,
    append_assoc acc (byte ∷ []) body,
  )

  -- `unescape` reads back every body that `escape` stuffed.
  pub unescape-stuffed :
      (body : List ℕ) → unescape esc decode (stuffed start end esc encode body) ≡ ok body
  unfolding unescape
  unescape-stuffed body = unescape_loop-stuffed [] body

  pub stuffed-ne-end : (body : List ℕ) → All (λ b. b ≢ end) (stuffed start end esc encode body)
  unfolding stuffed
  stuffed-ne-end [] = tt
  stuffed-ne-end (byte ∷ body) = elim (Bool-cases (is_special start end esc byte)) [
    | inl special ↦ rw special (code.esc_not_end, (code.no_end byte special, stuffed-ne-end body))
    | inr plain ↦ rw plain (special-ne-end start end esc encode byte plain, stuffed-ne-end body)
  ]
