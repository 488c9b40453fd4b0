-- ===== src/Framing.antt =====
-- src/framing.rs: byte stuffing and the delimiter decoder that the Sony and Maestro protocols
-- share. Bytes are native numbers and a slice is a list; a vendor's payload validation is the
-- argument `decode`, and `too_long` stands for the error that names the vendor's label.
pub mod RoundTrip
pub mod Chunks
pub mod Limits
pub mod Wire
pub mod Reader
use bt_daemon.Base.{
  ℕ, suc, ◌+◌, ◌-◌, ◌<◌, Bool, true, false, not, ◌||◌, List, [], ◌∷◌, ◌++◌, ltb, leb, ◌==◌,
  if◌then◌else◌, length, Result, ok, err,
}

abbrev pub max_frame : ℕ
max_frame = 4096

-- `[markers.0, markers.1, escape].contains(&byte)`
abbrev pub is_special : ℕ → ℕ → ℕ → ℕ → Bool
is_special start end esc byte = byte == start || (byte == end || byte == esc)

module _ (start end esc : ℕ) (encode : ℕ → ℕ) where
  -- What the loop of `escape` appends for each byte.
  unfoldable pub stuff : List ℕ → List ℕ → List ℕ
  stuff frame [] = frame
  stuff frame (byte ∷ body) =
      stuff (frame ++ (if is_special start end esc byte then esc ∷ encode byte ∷ [] else byte ∷ []))
        body

  unfoldable pub escape : List ℕ → List ℕ
  escape body = stuff (start ∷ []) body ++ (end ∷ [])

-- "frame ends inside an escape"
pub data EscapeError : Type 0 where
  ends_inside_escape : EscapeError

-- The loop of `unescape`. The flag says that the byte before was the escape byte, whose successor
-- the source takes by a second `next`.
module _ (esc : ℕ) (decode : ℕ → ℕ) where
  pub unescape_loop : Bool → List ℕ → List ℕ → Result EscapeError (List ℕ)
  unescape_loop false body [] = ok body
  unescape_loop true body [] = err ends_inside_escape
  unescape_loop false body (byte ∷ bytes) =
      unescape_loop (byte == esc) (if byte == esc then body else body ++ (byte ∷ [])) bytes
  unescape_loop true body (byte ∷ bytes) = unescape_loop false (body ++ (decode byte ∷ [])) bytes

  pub unescape : List ℕ → Result EscapeError (List ℕ)
  unescape bytes = unescape_loop false [] bytes

-- `DelimitedFrames`; the field `open` of the source is `is_open`.
pub record DelimitedFrames : Type 0 where
  pub body : List ℕ
  pub is_open : Bool

abbrev pub default : DelimitedFrames
default = record { body = []; is_open = false }

abbrev pub is_empty {ℓ} : {A : Type ℓ} → List A → Bool
is_empty [] = true
is_empty (x ∷ xs) = false

module _ {ℓ κ} {E : Type ℓ} {T : Type κ} (start end : ℕ) (too_long : E)
    (decode : List ℕ → Result E T) where
  -- The `match` of `push` on one byte: the next state and the frames that it adds.
  match_byte : Bool → DelimitedFrames → ℕ → DelimitedFrames × List (Result E T)
  match_byte false d byte = (record d { is_open = byte == start }, [])
  match_byte true d byte =
      if byte == end
      then (
        record { body = []; is_open = start == end },
        if not (start == end) || not (is_empty d.body) then decode d.body ∷ [] else [],
      )
      else if leb (max_frame - 1) (length d.body)
      then (record { body = []; is_open = false }, err too_long ∷ [])
      else (record d { body = d.body ++ (byte ∷ []) }, [])

  unfoldable pub push_byte : DelimitedFrames → ℕ → DelimitedFrames × List (Result E T)
  unfolding match_byte
  push_byte d byte = match_byte d.is_open d byte

  unfoldable pub push_loop :
      DelimitedFrames → List ℕ → List (Result E T) → DelimitedFrames × List (Result E T)
  push_loop d [] frames = (d, frames)
  push_loop d (byte ∷ bytes) frames =
      let next = push_byte d byte in push_loop next.0 bytes (frames ++ next.1)

  unfoldable pub push : DelimitedFrames → List ℕ → DelimitedFrames × List (Result E T)
  push d bytes = push_loop d bytes []
