-- ===== src/FastPair/Stream/RoundTrip.antt =====
-- The decoder against the wire format: what `Frame::encoded` writes for each frame, and then the
-- start of a frame that has not arrived in full.
use bt_daemon.FastPair.Stream.{
  Frame, complete, partial, take_frame, take_payload, push_loop, push, drained, FrameDecoder,
  StreamError, encoded, max_frame_payload, too_large,
}
use bt_daemon.FastPair.Stream.Progress.{Found-cases, take_frame-shorter, drained-ok}
use bt_daemon.Base.Endian.{be_bytes16, IsBytes}
use bt_daemon.Base.{
  ℕ, ◌≡◌, ◌≤◌, arith, List, [], ◌∷◌, ◌++◌, length, refl, ok, err, Result, append-nil, append_assoc,
  inl, ltb, ◌<◌, inr, true, ◌*◌, ◌⊎◌, ◌+◌, false, take, ◌/◌, drop, length-append, ◌%◌, take-append,
  drop-append, length-take, suc, append-take-drop, ◌∙◌, ap, zero, subst, sym, ◌↔◌,
}

-- The bytes announce a frame that they do not hold yet.
pub record IsAnnounced (tail : List ℕ) : Type 0 where
  pub group : ℕ
  pub code : ℕ
  pub high : ℕ
  pub low : ℕ
  pub here : List ℕ
  pub tail_eq : tail ≡ group ∷ code ∷ high ∷ low ∷ here
  pub missing : length here < high * 256 + low
  pub allowed : high * 256 + low ≤ max_frame_payload

-- Less than a header, or less than the header announces.
abbrev pub IsIncomplete : List ℕ → Type 0
IsIncomplete tail = (length tail < 4) ⊎ IsAnnounced tail

-- The bytes are the frames as `encoded` writes them, and then an incomplete rest.
abbrev pub IsWire : List Frame → List ℕ → List ℕ → Type 0
IsWire [] rest bytes = (bytes ≡ rest) × IsIncomplete rest
IsWire (f ∷ fs) rest bytes =
    (first : List ℕ) × (others : List ℕ) × (encoded f.group f.code f.payload ≡ ok first)
    × (length f.payload ≤ max_frame_payload)
    × (bytes ≡ first ++ others)
    × IsWire fs rest others

take_frame-IsIncomplete : (tail : List ℕ) → IsIncomplete tail → take_frame tail ≡ partial
unfolding take_frame take_payload
take_frame-IsIncomplete [] h = refl
take_frame-IsIncomplete (_ ∷ []) h = refl
take_frame-IsIncomplete (_ ∷ _ ∷ []) h = refl
take_frame-IsIncomplete (_ ∷ _ ∷ _ ∷ []) h = refl
take_frame-IsIncomplete (g ∷ c ∷ high ∷ low ∷ here) (inl h) = absurd (omega arith)
take_frame-IsIncomplete (g ∷ c ∷ high ∷ low ∷ here) (inr a) =
    let tail_eq = a.tail_eq in
    let high_eq : high ≡ a.high = cc in
    let low_eq : low ≡ a.low = cc in
    let here_eq : here ≡ a.here = cc in
    rw (high_eq, low_eq, here_eq) (ground (arith, a.missing, a.allowed))

partial-IsIncomplete : (tail : List ℕ) → take_frame tail ≡ partial → IsIncomplete tail
unfolding take_frame take_payload
partial-IsIncomplete [] h = inl (omega arith)
partial-IsIncomplete (_ ∷ []) h = inl (omega arith)
partial-IsIncomplete (_ ∷ _ ∷ []) h = inl (omega arith)
partial-IsIncomplete (_ ∷ _ ∷ _ ∷ []) h = inl (omega arith)
partial-IsIncomplete (g ∷ c ∷ high ∷ low ∷ here) h = inr (record {
  group = g;
  code = c;
  high = high;
  low = low;
  here = here;
  tail_eq = refl;
  missing = ground arith;
  allowed = ground arith;
})

take_payload-append :
    (group code : ℕ) (payload others : List ℕ)
    → length payload ≤ max_frame_payload
    → take_payload group code (length payload) (payload ++ others)
      ≡ complete (record { group = group; code = code; payload = payload }) others
unfolding take_payload
take_payload-append group code payload others small =
    let fits : ltb (length (payload ++ others)) (length payload) ≡ false =
      ground (arith, length-append payload others) in
    let allowed : ltb max_frame_payload (length payload) ≡ false = ground arith in
    rw (fits, allowed, take-append payload others, drop-append payload others)

be_bytes16_eq : (n : ℕ) → n < 65536 → n / 256 % 256 * 256 + n % 256 ≡ n
be_bytes16_eq n h = omega arith

-- A frame that `encoded` wrote is found at the front.
pub take_frame-encoded :
    (f : Frame) (first others : List ℕ)
    → encoded f.group f.code f.payload ≡ ok first
    → length f.payload ≤ max_frame_payload
    → take_frame (first ++ others) ≡ complete f others
unfolding encoded take_frame
take_frame-encoded f first others e small =
    let within : ltb (length f.payload) 65536 ≡ true = ground arith in
    let written : ok (f.group ∷ f.code ∷ (be_bytes16 (length f.payload) ++ f.payload)) ≡ ok first =
      rw within at e in
    let first_eq : first ≡ f.group ∷ f.code ∷ (be_bytes16 (length f.payload) ++ f.payload) = cc in
    rw (first_eq, be_bytes16_eq (length f.payload) (omega arith))
      (take_payload-append f.group f.code f.payload others small)

take_payload-complete :
    (group code payload_len : ℕ) (bytes others : List ℕ) (f : Frame)
    → take_payload group code payload_len bytes ≡ complete f others
    → (payload_len ≤ max_frame_payload)
      × (payload_len ≤ length bytes)
      × (f.group ≡ group)
      × (f.code ≡ code)
      × (f.payload ≡ take payload_len bytes)
      × (others ≡ drop payload_len bytes)
unfolding take_payload
take_payload-complete group code payload_len bytes others f h = ground arith

-- What is found at the front is what `encoded` writes, and the rest is left.
pub take_frame-complete :
    (bytes others : List ℕ) (f : Frame)
    → IsBytes bytes
    → take_frame bytes ≡ complete f others
    → (first : List ℕ) × (encoded f.group f.code f.payload ≡ ok first)
      × (length f.payload ≤ max_frame_payload)
      × (bytes ≡ first ++ others)
unfolding take_frame encoded
take_frame-complete [] others f v h = cc
take_frame-complete (_ ∷ []) others f v h = cc
take_frame-complete (_ ∷ _ ∷ []) others f v h = cc
take_frame-complete (_ ∷ _ ∷ _ ∷ []) others f v h = cc
take_frame-complete (g ∷ c ∷ high ∷ low ∷ bytes) others f v h =
    let n : ℕ = high * 256 + low in
    let (allowed, fits, group_eq, code_eq, payload_eq, others_eq) =
      take_payload-complete g c n bytes others f h in
    let size : length f.payload ≡ n = rw payload_eq (length-take n bytes fits) in
    let high_byte : high < 256 = v.1.1.0 in
    let low_byte : low < 256 = v.1.1.1.0 in
    let within : ltb n 65536 ≡ true = ground arith in
    let high_eq : n / 256 % 256 ≡ high = omega arith in
    let low_eq : n % 256 ≡ low = omega arith in
    (
      g ∷ c ∷ high ∷ low ∷ f.payload,
      rw (size, within, group_eq, code_eq, high_eq, low_eq) refl,
      omega arith,
      rw (payload_eq, others_eq, append-take-drop n bytes) refl,
    )

pub IsWire-push_loop :
    (n : ℕ) (before frames : List Frame) (rest bytes : List ℕ)
    → length bytes ≤ n
    → IsWire frames rest bytes
    → push_loop n before bytes ≡ ok (before ++ frames, rest)
unfolding push_loop
IsWire-push_loop zero before [] rest bytes h (same, stop) = rw (same, append-nil before) refl
IsWire-push_loop (suc n) before [] rest bytes h (same, stop) =
    rw (same, take_frame-IsIncomplete rest stop, append-nil before) refl
IsWire-push_loop zero before (f ∷ fs) rest bytes h (first, others, written, small, all, tail) =
    let found : take_frame bytes ≡ complete f others =
      rw all (take_frame-encoded f first others written small) in
    let shorter = take_frame-shorter bytes f others found in absurd (omega arith)
IsWire-push_loop (suc n) before (f ∷ fs) rest bytes h (first, others, written, small, all, tail) =
    let found : take_frame bytes ≡ complete f others =
      rw all (take_frame-encoded f first others written small) in
    let shorter = take_frame-shorter bytes f others found in
    rw found (
      IsWire-push_loop n (before ++ (f ∷ [])) fs rest others (omega arith) tail
      ∙ ap (λ t. ok (t, rest)) (append_assoc before (f ∷ []) fs))

abbrev HasWire : List Frame → List Frame → List ℕ → List ℕ → Type 0
HasWire before out rest bytes =
    (frames : List Frame) × (out ≡ before ++ frames) × IsWire frames rest bytes

stopped-HasWire :
    (before out : List Frame) (rest bytes : List ℕ)
    → take_frame bytes ≡ partial
    → ◌≡◌ {A = Result StreamError (List Frame × List ℕ)} (ok (before, bytes)) (ok (out, rest))
    → HasWire before out rest bytes
stopped-HasWire before out rest bytes found e =
    let rest_eq : rest ≡ bytes = cc in
    let out_eq : out ≡ before = cc in
    let stop : IsIncomplete rest = rw rest_eq (partial-IsIncomplete bytes found) in
    let same : out ≡ before ++ [] = rw (out_eq, append-nil before) refl in
    ([], same, (sym rest_eq, stop))

pub IsBytes-append-right : (xs ys : List ℕ) → IsBytes (xs ++ ys) → IsBytes ys
IsBytes-append-right [] ys h = h
IsBytes-append-right (x ∷ xs) ys h = IsBytes-append-right xs ys h.1

push_loop-IsWire :
    (n : ℕ) (before out : List Frame) (rest bytes : List ℕ)
    → IsBytes bytes
    → length bytes ≤ n
    → push_loop n before bytes ≡ ok (out, rest)
    → HasWire before out rest bytes
unfolding push_loop
push_loop-IsWire zero before out rest [] v h e =
    stopped-HasWire before out rest [] (unfold take_frame in refl) e
push_loop-IsWire zero before out rest (b ∷ bytes) v h e = absurd (omega arith)
push_loop-IsWire (suc n) before out rest bytes v h e = elim (Found-cases bytes) [
  | inl (f, others, found) ↦
      let shorter = take_frame-shorter bytes f others found in
      let (first, written, small, all) = take_frame-complete bytes others f v found in
      let others_bytes = IsBytes-append-right first others (subst IsBytes all v) in
      let (frames, out_eq, wire) =
        push_loop-IsWire n (before ++ (f ∷ [])) out rest others others_bytes (omega arith)
          (rw found at e) in
      (
        f ∷ frames,
        out_eq ∙ append_assoc before (f ∷ []) frames,
        (first, others, written, small, all, wire),
      )
  | inr (inl found) ↦ stopped-HasWire before out rest bytes found (rw found at e)
  | inr (inr (payload_len, found)) ↦
      let failed : err (too_large payload_len) ≡ ok (out, rest) = rw found at e in absurd cc
]

-- A read of bytes gives the frames `frames` and keeps `rest` exactly when what was buffered and
-- what was read are together those frames, as `encoded` writes them with payloads of at most 4096
-- bytes, followed by the incomplete start `rest` of another: no byte is lost or made up.
pub push-IsWire :
    (d next : FrameDecoder) (bytes : List ℕ) (frames : List Frame)
    → IsBytes (d.buffered ++ bytes)
    → (push d bytes ≡ (ok frames, next)) ↔ IsWire frames next.buffered (d.buffered ++ bytes)
unfolding push
push-IsWire d next bytes frames v = (
  λ e.
      let all = d.buffered ++ bytes in
      let (found, same, wire) =
        push_loop-IsWire (length all) [] frames next.buffered all v (omega arith)
          (drained-ok (push_loop (length all) [] all) frames next e) in
      rw same wire,
  λ wire.
      let all = d.buffered ++ bytes in
      ap drained (IsWire-push_loop (length all) [] frames next.buffered all (omega arith) wire),
)
