-- ===== src/Framing/Reader.antt =====
-- src/framing.rs, `Reader`: messages that one read completes are queued, corrupt ones are reported
-- and skipped. The transport is the list of what its reads give; past its end a read gives no
-- byte. `reported` is what the caller's `invalid` has been called with.
use bt_daemon.Base.{
  ℕ, ◌≡◌, refl, List, [], ◌∷◌, ◌++◌, Option, none, some, Result, ok, err, append_assoc, append-nil,
  sym, ap, ◌∙◌,
}
use bt_daemon.Framing.{DelimitedFrames, push, push_loop}
use bt_daemon.Framing.Chunks.{push-append}

pub data Read {ℓ} (F : Type ℓ) : Type ℓ where
  bytes : List ℕ → Read F
  failed : F → Read F

pub data Scan {ℓ κ} (E : Type ℓ) (T : Type κ) : Type (ℓ ⊔ κ) where
  found : T → List (Result E T) → List E → Scan E T
  exhausted : List E → Scan E T

module _ {ℓ κ} {E : Type ℓ} {T : Type κ} where
  -- `pending.find_map(|frame| frame.map_err(&mut invalid).ok())`
  pub scan : List E → List (Result E T) → Scan E T
  scan reported [] = exhausted reported
  scan reported (ok value ∷ rest) = found value rest reported
  scan reported (err e ∷ rest) = scan (reported ++ (e ∷ [])) rest

  -- Corrupt frames.
  pub corrupt : List E → List (Result E T)
  corrupt [] = []
  corrupt (e ∷ es) = err e ∷ corrupt es

pub record Reader {ℓ κ ν μ} (E : Type ℓ) (T : Type κ) (S : Type ν) (F : Type μ)
    : Type (ℓ ⊔ κ ⊔ ν ⊔ μ) where
  pub reads : List (Read F)
  pub decoder : S
  pub pending : List (Result E T)
  pub reported : List E

module _ {ℓ κ ν μ} {E : Type ℓ} {T : Type κ} {S : Type ν} {F : Type μ}
    (decode : S → List ℕ → S × List (Result E T)) where
  abbrev at_rest : List (Read F) → S → List (Result E T) → List E → Reader E T S F
  at_rest reads d pending reported = record {
    reads = reads;
    decoder = d;
    pending = pending;
    reported = reported;
  }

  -- The `loop` of `next`, over the reads to come.
  next_loop : List (Read F) → S → List E → List (Result E T) → Result F (Option T) × Reader E T S F
  unfolding scan
  next_loop [] d reported pending = elim (scan reported pending) [
    | found value rest seen ↦ (ok (some value), at_rest [] d rest seen)
    | exhausted seen ↦ (ok none, at_rest [] d [] seen)
  ]
  next_loop (failed e ∷ reads) d reported pending = elim (scan reported pending) [
    | found value rest seen ↦ (ok (some value), at_rest (failed e ∷ reads) d rest seen)
    | exhausted seen ↦ (err e, at_rest reads d [] seen)
  ]
  next_loop (bytes [] ∷ reads) d reported pending = elim (scan reported pending) [
    | found value rest seen ↦ (ok (some value), at_rest (bytes [] ∷ reads) d rest seen)
    | exhausted seen ↦ (ok none, at_rest reads d [] seen)
  ]
  next_loop (bytes (b ∷ bs) ∷ reads) d reported pending = elim (scan reported pending) [
    | found value rest seen ↦ (ok (some value), at_rest (bytes (b ∷ bs) ∷ reads) d rest seen)
    | exhausted seen ↦ next_loop reads (decode d (b ∷ bs)).0 seen (decode d (b ∷ bs)).1
  ]

  pub next : Reader E T S F → Result F (Option T) × Reader E T S F
  unfolding next_loop
  next r = next_loop r.reads r.decoder r.reported r.pending

  -- The frames of the reads up to the end of the stream or the first transport error.
  pub frames_of : S → List (Read F) → List (Result E T)
  frames_of d [] = []
  frames_of d (failed e ∷ reads) = []
  frames_of d (bytes [] ∷ reads) = []
  frames_of d (bytes (b ∷ bs) ∷ reads) =
      (decode d (b ∷ bs)).1 ++ frames_of (decode d (b ∷ bs)).0 reads

  abbrev pub remaining : Reader E T S F → List (Result E T)
  remaining r = r.pending ++ frames_of r.decoder r.reads

  -- A message is the first valid frame of those to come: the frames before it are corrupt and are
  -- reported, in order and no others, and those behind it are still to come. At the end, or at a
  -- transport error, all frames that were left are corrupt, and are reported.
  abbrev pub Delivers :
      List E → List (Result E T) → Result F (Option T) → Reader E T S F → Type (ℓ ⊔ κ)
  Delivers reported frames (ok (some value)) r =
      (bad : List E) × (frames ≡ corrupt bad ++ (ok value ∷ remaining r))
      × (r.reported ≡ reported ++ bad)
  Delivers reported frames (ok none) r =
      (bad : List E) × (frames ≡ corrupt bad) × (r.reported ≡ reported ++ bad)
  Delivers reported frames (err e) r =
      (bad : List E) × (frames ≡ corrupt bad) × (r.reported ≡ reported ++ bad)

  next_loop_err :
      (reads : List (Read F)) (d : S) (reported : List E) (e : E) (pending : List (Result E T))
      → next_loop reads d reported (err e ∷ pending)
        ≡ next_loop reads d (reported ++ (e ∷ [])) pending
  unfolding next_loop
  next_loop_err [] d reported e pending = refl
  next_loop_err (failed x ∷ reads) d reported e pending = refl
  next_loop_err (bytes [] ∷ reads) d reported e pending = refl
  next_loop_err (bytes (b ∷ bs) ∷ reads) d reported e pending = refl

  Delivers-err :
      (reported : List E) (e : E) (frames : List (Result E T)) (result : Result F (Option T))
      (r : Reader E T S F)
      → Delivers (reported ++ (e ∷ [])) frames result r
      → Delivers reported (err e ∷ frames) result r
  unfolding corrupt
  Delivers-err reported e frames (ok (some value)) r (bad, h, k) =
      (e ∷ bad, ap (◌∷◌ (err e)) h, k ∙ append_assoc reported (e ∷ []) bad)
  Delivers-err reported e frames (ok none) r (bad, h, k) =
      (e ∷ bad, ap (◌∷◌ (err e)) h, k ∙ append_assoc reported (e ∷ []) bad)
  Delivers-err reported e frames (err x) r (bad, h, k) =
      (e ∷ bad, ap (◌∷◌ (err e)) h, k ∙ append_assoc reported (e ∷ []) bad)

  next_loop-Delivers :
      (reads : List (Read F)) (d : S) (reported : List E) (pending : List (Result E T))
      → Delivers reported
          (pending ++ frames_of d reads)
          (next_loop reads d reported pending).0
          (next_loop reads d reported pending).1
  unfolding next_loop frames_of corrupt
  next_loop-Delivers [] d reported [] = ([], refl, sym (append-nil reported))
  next_loop-Delivers (failed e ∷ reads) d reported [] = ([], refl, sym (append-nil reported))
  next_loop-Delivers (bytes [] ∷ reads) d reported [] = ([], refl, sym (append-nil reported))
  next_loop-Delivers (bytes (b ∷ bs) ∷ reads) d reported [] =
      next_loop-Delivers reads (decode d (b ∷ bs)).0 reported (decode d (b ∷ bs)).1
  next_loop-Delivers [] d reported (ok value ∷ pending) = ([], refl, sym (append-nil reported))
  next_loop-Delivers (failed e ∷ reads) d reported (ok value ∷ pending) =
      ([], refl, sym (append-nil reported))
  next_loop-Delivers (bytes [] ∷ reads) d reported (ok value ∷ pending) =
      ([], refl, sym (append-nil reported))
  next_loop-Delivers (bytes (b ∷ bs) ∷ reads) d reported (ok value ∷ pending) =
      ([], refl, sym (append-nil reported))
  next_loop-Delivers reads d reported (err e ∷ pending) = rw next_loop_err (
      Delivers-err reported e (pending ++ frames_of d reads)
        (next_loop reads d (reported ++ (e ∷ [])) pending).0
        (next_loop reads d (reported ++ (e ∷ [])) pending).1
        (next_loop-Delivers reads d (reported ++ (e ∷ [])) pending))

  -- Each call of `next` returns the first valid frame still to come, in the order of the stream,
  -- reports exactly the corrupt ones before it, and leaves those behind it; where no valid frame is
  -- left, it reports all corrupt ones.
  pub next-Delivers : (r : Reader E T S F) → Delivers r.reported (remaining r) (next r).0 (next r).1
  unfolding next
  next-Delivers r = next_loop-Delivers r.reads r.decoder r.reported r.pending

-- A stream of nonempty reads.
abbrev pub chunks {ℓ} : {F : Type ℓ} → List (ℕ × List ℕ) → List (Read F)
chunks [] = []
chunks ((b, bs) ∷ rest) = bytes (b ∷ bs) ∷ chunks rest

abbrev pub joined : List (ℕ × List ℕ) → List ℕ
joined [] = []
joined ((b, bs) ∷ rest) = (b ∷ bs) ++ joined rest

-- Over `DelimitedFrames` the frames to come are those of one `push` of the whole stream, however
-- the transport cuts it.
module _ {ℓ κ} {E : Type ℓ} {T : Type κ} (start end : ℕ) (too_long : E)
    (decode : List ℕ → Result E T) where
  pub frames_of-chunks {μ} :
      (F : Type μ) (d : DelimitedFrames) (cs : List (ℕ × List ℕ))
      → frames_of (push start end too_long decode) d (chunks {F = F} cs)
        ≡ (push start end too_long decode d (joined cs)).1
  unfolding frames_of
  frames_of-chunks F d [] = unfold push push_loop in refl
  frames_of-chunks F d ((b, bs) ∷ rest) =
      rw (push-append start end too_long decode d (b ∷ bs) (joined rest)) (
        ap (◌++◌ (push start end too_long decode d (b ∷ bs)).1)
          (frames_of-chunks F (push start end too_long decode d (b ∷ bs)).0 rest))

  -- With nothing pending, a message is the first valid frame of one `push` of the whole stream,
  -- however the stream is cut into nonempty reads.
  pub next-push {μ} :
      (F : Type μ) (d : DelimitedFrames) (cs : List (ℕ × List ℕ)) (reported : List E)
      → Delivers
          (push start end too_long decode)
          reported
          (push start end too_long decode d (joined cs)).1
          (next (push start end too_long decode) (record {
            reads = chunks {F = F} cs;
            decoder = d;
            pending = [];
            reported = reported;
          })).0
          (next (push start end too_long decode) (record {
            reads = chunks {F = F} cs;
            decoder = d;
            pending = [];
            reported = reported;
          })).1
  next-push F d cs reported = rw (frames_of-chunks F d cs) at (
      next-Delivers (push start end too_long decode)
        (record { reads = chunks {F = F} cs; decoder = d; pending = []; reported = reported }))
