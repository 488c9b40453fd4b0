-- ===== src/FastPair/Stream/Limits.antt =====
-- What the decoder's buffer holds, and how it fails.
use bt_daemon.FastPair.Stream.RoundTrip.{
  take_frame-complete, IsBytes-append-right, take_frame-encoded,
}
use bt_daemon.Base.Endian.{IsBytes}
use bt_daemon.FastPair.Stream.{
  Frame, oversized, take_frame, take_payload, push_loop, push, FrameDecoder, max_frame_payload,
  default, too_large, encoded, complete, drained,
}
use bt_daemon.FastPair.Stream.Progress.{Found-cases, drained-err, take_frame-shorter}
use bt_daemon.Base.{
  ℕ, ◌≡◌, arith, List, [], ◌∷◌, ◌++◌, length, err, ◌<◌, suc, inl, inr, ok, zero, ltb, ◌*◌, ◌≤◌, ap,
  ◌+◌, ◌↔◌, refl, true, subst,
}

-- A header that announces more than the limit, read in network byte order.
pub record IsOverlong (payload_len : ℕ) (tail : List ℕ) : Type 0 where
  pub group : ℕ
  pub code : ℕ
  pub high : ℕ
  pub low : ℕ
  pub others : List ℕ
  pub tail_eq : tail ≡ group ∷ code ∷ high ∷ low ∷ others
  pub announced : payload_len ≡ high * 256 + low
  pub too_long : max_frame_payload < payload_len

-- The bytes are the frames as `encoded` writes them, and then an overlong one.
abbrev pub IsBroken : List Frame → ℕ → List ℕ → Type 0
IsBroken [] payload_len bytes = IsOverlong payload_len bytes
IsBroken (f ∷ fs) payload_len bytes =
    (first : List ℕ) × (others : List ℕ) × (encoded f.group f.code f.payload ≡ ok first)
    × (length f.payload ≤ max_frame_payload)
    × (bytes ≡ first ++ others)
    × IsBroken fs payload_len others

take_frame-IsOverlong :
    (bytes : List ℕ) (payload_len : ℕ)
    → take_frame bytes ≡ oversized payload_len
    → IsOverlong payload_len bytes
unfolding take_frame take_payload
take_frame-IsOverlong [] n h = cc
take_frame-IsOverlong (_ ∷ []) n h = cc
take_frame-IsOverlong (_ ∷ _ ∷ []) n h = cc
take_frame-IsOverlong (_ ∷ _ ∷ _ ∷ []) n h = cc
take_frame-IsOverlong (g ∷ c ∷ high ∷ low ∷ bytes) n h = record {
  group = g;
  code = c;
  high = high;
  low = low;
  others = bytes;
  tail_eq = refl;
  announced = ground arith;
  too_long = ground arith;
}

IsOverlong-take_frame :
    (bytes : List ℕ) (payload_len : ℕ)
    → IsOverlong payload_len bytes
    → take_frame bytes ≡ oversized payload_len
unfolding take_frame take_payload
IsOverlong-take_frame bytes n a =
    let announced = a.announced in
    let over : ltb max_frame_payload (a.high * 256 + a.low) ≡ true = ground (arith, a.too_long) in
    rw (a.tail_eq, over, announced) refl

push_loop-IsBroken :
    (n payload_len : ℕ) (before : List Frame) (bytes : List ℕ)
    → IsBytes bytes
    → push_loop n before bytes ≡ err (too_large payload_len)
    → (frames : List Frame) × IsBroken frames payload_len bytes
unfolding push_loop
push_loop-IsBroken zero payload_len before bytes v h = cc
push_loop-IsBroken (suc n) payload_len before bytes v h = elim (Found-cases bytes) [
  | inl (f, rest, found) ↦
      let (first, written, small, all) = take_frame-complete bytes rest f v found in
      let rest_bytes = IsBytes-append-right first rest (subst IsBytes all v) in
      let (frames, broken) =
        push_loop-IsBroken n payload_len (before ++ (f ∷ [])) rest rest_bytes (rw found at h) in
      (f ∷ frames, (first, rest, written, small, all, broken))
  | inr (inl found) ↦
      let done : ok (before, bytes) ≡ err (too_large payload_len) = rw found at h in absurd cc
  | inr (inr (announced, found)) ↦
      let failed : err (too_large announced) ≡ err (too_large payload_len) = rw found at h in
      let same : announced ≡ payload_len = cc in
      ([], subst (λ k. IsOverlong k bytes) same (take_frame-IsOverlong bytes announced found))
]

IsBroken-push_loop :
    (n payload_len : ℕ) (before frames : List Frame) (bytes : List ℕ)
    → length bytes ≤ n
    → IsBroken frames payload_len bytes
    → push_loop n before bytes ≡ err (too_large payload_len)
unfolding push_loop
IsBroken-push_loop zero payload_len before [] bytes h a =
    let tail_eq : length bytes ≡ _ = ap length (a.tail_eq) in absurd (omega arith)
IsBroken-push_loop (suc n) payload_len before [] bytes h a =
    rw (IsOverlong-take_frame bytes payload_len a) refl
IsBroken-push_loop zero payload_len before (f ∷ fs) bytes h
      (first, others, written, small, all, b) =
    let found : take_frame bytes ≡ complete f others =
      rw all (take_frame-encoded f first others written small) in
    let shorter = take_frame-shorter bytes f others found in absurd (omega arith)
IsBroken-push_loop (suc n) payload_len before (f ∷ fs) bytes h
      (first, others, written, small, all, b) =
    let found : take_frame bytes ≡ complete f others =
      rw all (take_frame-encoded f first others written small) in
    let shorter = take_frame-shorter bytes f others found in
    rw found (IsBroken-push_loop n payload_len (before ++ (f ∷ [])) fs others (omega arith) b)

-- A read of bytes fails with a length exactly when what was buffered and what was read are together
-- whole frames, as `encoded` writes them, and then a header that announces this length, which is
-- above 4096; and then nothing stays buffered.
pub push-too_large :
    (d : FrameDecoder) (bytes : List ℕ) (payload_len : ℕ)
    → IsBytes (d.buffered ++ bytes)
    → (push d bytes ≡ (err (too_large payload_len), default))
      ↔ ((frames : List Frame) × IsBroken frames payload_len (d.buffered ++ bytes))
unfolding push
push-too_large d bytes payload_len v =
    let all = d.buffered ++ bytes in
    (
      λ h.
          let (failed, _) =
            drained-err (push_loop (length all) [] all) (too_large payload_len) default h in
          push_loop-IsBroken (length all) payload_len [] all v failed,
      λ b. ap drained (IsBroken-push_loop (length all) payload_len [] b.0 all (omega arith) b.1),
    )
