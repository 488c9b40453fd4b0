-- ===== src/FastPair/Messages/NoiseControl.antt =====
-- Selecting a noise-control mode keeps the reported modes, and only a settable one is sent.
use bt_daemon.FastPair.Messages.{
  MessageError, anc_modes, anc_mode_flag, any_mode, decode_anc_state, decode_fixed4, fold_flags,
  has, noise_control_payload, only, str_eq, anc_version, not_settable,
}
use bt_daemon.Model.Devices.{FastPairNoiseControl}
use Prim.Native.String.{String}
use text.Mathlib.TextEquality.{eq_iff}
use bt_daemon.Base.{
  ℕ, Bool, true, false, List, [], ◌∷◌, ◌≡◌, some, ok, err, refl, if◌then◌else◌, ◌+◌, ◌⊎◌, inl, inr,
  >>=-eq-ok, Bool-cases, ◌==◌, ◌||◌, sym, ◌>>=◌, ◌∙◌, ◌≢◌, ensure, ◌>>◌, Result,
}

-- The modes of four flags, in the order of the table.
abbrev modes_of : Bool → Bool → Bool → Bool → List String
modes_of a b c d =
    let w : List String = if d then "noise-cancelling" ∷ [] else [] in
    let z : List String = if c then "off" ∷ w else w in
    let y : List String = if b then "adaptive" ∷ z else z in if a then "transparent" ∷ y else y

abbrev bits_of : Bool → Bool → Bool → Bool → ℕ
bits_of a b c d =
    (if a then 0x80 else 0)
    + (if b then 0x40 else 0)
    + (if c then 0x20 else 0)
    + (if d then 0x08 else 0)

anc_modes_eq :
    (flags : ℕ)
    → anc_modes flags ≡ modes_of (has flags 0x80) (has flags 0x40) (has flags 0x20) (has flags 0x08)
unfolding anc_modes
anc_modes_eq flags = refl

-- The flags of some modes, read again.
Reads : Bool → Bool → Bool → Bool → Type 0
Reads a b c d =
    (fold_flags 0 (modes_of a b c d) ≡ ok (bits_of a b c d))
    × (anc_modes (bits_of a b c d) ≡ modes_of a b c d)

reads : (a b c d : Bool) → Reads a b c d
unfolding anc_modes anc_mode_flag Reads
reads true true true true = (refl, refl)
reads true true true false = (refl, refl)
reads true true false true = (refl, refl)
reads true true false false = (refl, refl)
reads true false true true = (refl, refl)
reads true false true false = (refl, refl)
reads true false false true = (refl, refl)
reads true false false false = (refl, refl)
reads false true true true = (refl, refl)
reads false true true false = (refl, refl)
reads false true false true = (refl, refl)
reads false true false false = (refl, refl)
reads false false true true = (refl, refl)
reads false false true false = (refl, refl)
reads false false false true = (refl, refl)
reads false false false false = (refl, refl)

fold_flags-anc_modes :
    (flags : ℕ)
    → (bits : ℕ) × (fold_flags 0 (anc_modes flags) ≡ ok bits) × (anc_modes bits ≡ anc_modes flags)
unfolding Reads
fold_flags-anc_modes flags =
    let r = reads (has flags 0x80) (has flags 0x40) (has flags 0x20) (has flags 0x08) in
    (
      bits_of (has flags 0x80) (has flags 0x40) (has flags 0x20) (has flags 0x08),
      rw (anc_modes_eq flags) r.0,
      rw (anc_modes_eq flags) r.1,
    )

-- A mode of the table has one flag.
abbrev HasFlag : String → Type 0
HasFlag mode = (flag : ℕ) × (anc_mode_flag mode ≡ ok flag) × (anc_modes flag ≡ mode ∷ [])

transparent-HasFlag : HasFlag "transparent"
unfolding anc_mode_flag anc_modes
transparent-HasFlag = (0x80, refl, refl)

adaptive-HasFlag : HasFlag "adaptive"
unfolding anc_mode_flag anc_modes
adaptive-HasFlag = (0x40, refl, refl)

off-HasFlag : HasFlag "off"
unfolding anc_mode_flag anc_modes
off-HasFlag = (0x20, refl, refl)

noise_cancelling-HasFlag : HasFlag "noise-cancelling"
unfolding anc_mode_flag anc_modes
noise_cancelling-HasFlag = (0x08, refl, refl)

-- Whether `rest` behind `name`, or alone, holds the mode.
any_mode-if :
    (b : Bool) (mode name : String) (rest : List String)
    → any_mode mode (if b then name ∷ rest else rest) ≡ true
    → (mode ≡ name) ⊎ (any_mode mode rest ≡ true)
any_mode-if true mode name rest h = elim (Bool-cases (str_eq name mode)) [
  | inl same ↦ inl (sym ((eq_iff name mode).0 same))
  | inr other ↦ inr (rw other at h)
]
any_mode-if false mode name rest h = inr h

any_mode-modes_of :
    (a b c d : Bool) (mode : String) → any_mode mode (modes_of a b c d) ≡ true → HasFlag mode
any_mode-modes_of a b c d mode h = elim (any_mode-if a mode "transparent" _ h) [
  | inl e ↦ rw e transparent-HasFlag
  | inr h1 ↦ elim (any_mode-if b mode "adaptive" _ h1) [
    | inl e ↦ rw e adaptive-HasFlag
    | inr h2 ↦ elim (any_mode-if c mode "off" _ h2) [
      | inl e ↦ rw e off-HasFlag
      | inr h3 ↦ elim (any_mode-if d mode "noise-cancelling" [] h3) [
        | inl e ↦ rw e noise_cancelling-HasFlag
        | inr h4 ↦ absurd cc
      ]
    ]
  ]
]

any_mode-anc_modes :
    (flags : ℕ) (mode : String) → any_mode mode (anc_modes flags) ≡ true → HasFlag mode
any_mode-anc_modes flags mode h =
    any_mode-modes_of (has flags 0x80) (has flags 0x40) (has flags 0x20) (has flags 0x08) mode
      (rw (anc_modes_eq flags) at h)

-- What a decoded state is made of.
record IsDecoded (s : FastPairNoiseControl) : Type 0 where
  available : ℕ
  settable : ℕ
  available_eq : s.available_modes ≡ anc_modes available
  settable_eq : s.settable_modes ≡ anc_modes settable

decode_anc_state-IsDecoded :
    (payload : List ℕ) (s : FastPairNoiseControl) → decode_anc_state payload ≡ ok s → IsDecoded s
unfolding decode_anc_state
decode_anc_state-IsDecoded payload s h =
    let (t, _, h1) = >>=-eq-ok (decode_fixed4 payload) _ h in
    let (active, _, h2) = >>=-eq-ok (only (anc_modes t.3)) _ h1 in
    record { available = t.1; settable = t.2; available_eq = cc; settable_eq = cc }

-- For a state that was decoded, of version 1 or 2, and a mode that it calls settable, the payload
-- that selects the mode decodes to the same state with that mode active.
pub noise_control_payload-decode_anc_state :
    (payload : List ℕ) (s : FastPairNoiseControl) (mode : String)
    → decode_anc_state payload ≡ ok s
    → (s.version == 1 || s.version == 2) ≡ true
    → any_mode mode s.settable_modes ≡ true
    → (noise_control_payload s mode >>= decode_anc_state)
      ≡ ok (record s { active_mode = some mode })
unfolding noise_control_payload decode_anc_state decode_fixed4
noise_control_payload-decode_anc_state payload s mode h version settable =
    let d = decode_anc_state-IsDecoded payload s h in
    let (flag, flag_eq, active_eq) =
      any_mode-anc_modes d.settable mode (rw (d.settable_eq) at settable) in
    let (available, available_ok, available_read) = fold_flags-anc_modes d.available in
    let (bits, settable_ok, settable_read) = fold_flags-anc_modes d.settable in
    let available_bits : fold_flags 0 s.available_modes ≡ ok available =
      rw (d.available_eq) available_ok in
    let settable_bits : fold_flags 0 s.settable_modes ≡ ok bits = rw (d.settable_eq) settable_ok in
    let available_back : anc_modes available ≡ s.available_modes =
      available_read ∙ sym d.available_eq in
    let settable_back : anc_modes bits ≡ s.settable_modes = settable_read ∙ sym d.settable_eq in
    rw
      (
        version, flag_eq, settable, available_bits, settable_bits, active_eq, available_back,
        settable_back,
      )
      refl

-- A mode that the state does not call settable is refused, whatever it is.
pub noise_control_payload-not_settable :
    (s : FastPairNoiseControl) (mode : String) (payload : List ℕ)
    → any_mode mode s.settable_modes ≡ false
    → noise_control_payload s mode ≢ ok payload
unfolding noise_control_payload
noise_control_payload-not_settable s mode payload h e =
    let (flag, _, rest) =
      >>=-eq-ok (ensure (s.version == 1 || s.version == 2) anc_version >> anc_mode_flag mode) _ e in
    let refused : ◌≡◌ {A = Result MessageError (List ℕ)} (err not_settable) (ok payload) =
      rw h at rest in
    cc
