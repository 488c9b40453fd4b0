-- ===== src/FastPair/Messages.antt =====
-- src/fast_pair.rs: what the payloads of the Message Stream say, and the payload that selects a
-- noise-control mode. A byte is a number; a mode is its text.
pub mod NoiseControl
pub mod Levels
use Prim.Native.Nat.{bit_and, bit_or}
use Prim.Native.String.{String}
use text.Mathlib.Text.{◌==◌ as str_eq}
use bt_daemon.Base.Endian.{from_le_bytes}
use bt_daemon.Model.Devices.{Battery, FastPairMultipoint, FastPairNoiseControl}
use bt_daemon.FastPair.Stream.{StreamError, encoded}
use bt_daemon.Base.{
  ℕ, ◌+◌, ◌*◌, Bool, not, true, false, List, [], ◌∷◌, ◌++◌, Option, none, some, ltb, leb, ◌==◌,
  ◌&&◌, ◌||◌, if◌then◌else◌, length, Result, ok, err, ◌>>=◌, ◌>>◌, ensure, or_fail,
}

pub data MessageError : Type 0 where
  payload_bytes : ℕ → MessageError
  battery_percentage : ℕ → MessageError
  active_modes : MessageError
  anc_version : MessageError
  unsupported_mode : MessageError
  not_settable : MessageError
  psm_range : ℕ → MessageError
  psm_state : ℕ → MessageError
  switch_missing : MessageError
  switch_name : MessageError
  framing : StreamError → MessageError
  no_stream : MessageError
  writer_failed : MessageError

-- `decode_fixed`, for payloads that are kept whole
unfoldable pub decode_fixed : ℕ → List ℕ → Result MessageError (List ℕ)
decode_fixed n payload =
    if length payload == n then ok payload else err (payload_bytes (length payload))

-- `decode_fixed` for an array of three bytes
unfoldable pub decode_fixed3 : List ℕ → Result MessageError (ℕ × ℕ × ℕ)
decode_fixed3 (a ∷ b ∷ c ∷ []) = ok (a, b, c)
decode_fixed3 payload = err (payload_bytes (length payload))

-- `decode_fixed` for an array of four bytes
unfoldable pub decode_fixed4 : List ℕ → Result MessageError (ℕ × ℕ × ℕ × ℕ)
decode_fixed4 (a ∷ b ∷ c ∷ d ∷ []) = ok (a, b, c, d)
decode_fixed4 payload = err (payload_bytes (length payload))

-- `value & flag != 0`
abbrev pub has : ℕ → ℕ → Bool
has value flag = not (bit_and value flag == 0)

unfoldable pub decode_component : ℕ → Result MessageError (Option ℕ)
decode_component value =
    let percentage = bit_and value 0x7f in
    if percentage == 0x7f
    then ok none
    else if ltb 100 percentage
    then err (battery_percentage percentage)
    else ok (some percentage)

-- The array `charging` is three fields.
pub record BatteryReport : Type 0 where
  pub left : Option ℕ
  pub right : Option ℕ
  pub case : Option ℕ
  pub charging_left : Bool
  pub charging_right : Bool
  pub charging_case : Bool

unfoldable pub from_payload : List ℕ → Result MessageError BatteryReport
from_payload payload = decode_fixed3 payload >>= λ values. decode_component values.0 >>= λ left.
    decode_component values.1 >>= λ right. decode_component values.2 >>= λ case. ok (record {
      left = left;
      right = right;
      case = case;
      charging_left = has values.0 0x80;
      charging_right = has values.1 0x80;
      charging_case = has values.2 0x80;
    })

-- What `filter_map` gives for one component.
abbrev pub component_battery : String → String → String → Option ℕ → Bool → List Battery
component_battery id label component none charging = []
component_battery id label component (some percentage) charging =
    record {
      id = id;
      label = label;
      component = component;
      percentage = percentage;
      charging = some charging;
      source = "google-fast-pair-message-stream";
      confidence = "high";
    }
    ∷ []

unfoldable pub model_batteries : BatteryReport → List Battery
model_batteries r =
    component_battery "fast-pair-left" "Left" "left" r.left r.charging_left
    ++ (component_battery "fast-pair-right" "Right" "right" r.right r.charging_right
        ++ component_battery "fast-pair-case" "Case" "case" r.case r.charging_case)

unfoldable pub decode_audio_switch_capability : List ℕ → Result MessageError FastPairMultipoint
decode_audio_switch_capability payload = decode_fixed4 payload >>= λ t.
    let version = t.0 * 256 + t.1 in
    ok (record {
      version = version;
      supported = not (version == 0);
      configurable = has t.2 0x40;
      enabled = has t.2 0x20;
      audio_switch_enabled = has t.2 0x80;
    })

-- `ANC_MODES`
abbrev pub anc_mode_table : List (ℕ × String)
anc_mode_table =
    (0x80, "transparent") ∷ (0x40, "adaptive") ∷ (0x20, "off") ∷ (0x08, "noise-cancelling") ∷ []

abbrev pub flagged : ℕ → List (ℕ × String) → List String
flagged flags [] = []
flagged flags ((flag, name) ∷ table) =
    let rest = flagged flags table in if has flags flag then name ∷ rest else rest

unfoldable pub anc_modes : ℕ → List String
anc_modes flags = flagged flags anc_mode_table

abbrev pub find_mode : String → List (ℕ × String) → Option ℕ
find_mode mode [] = none
find_mode mode ((flag, name) ∷ table) =
    let rest = find_mode mode table in if str_eq name mode then some flag else rest

unfoldable pub anc_mode_flag : String → Result MessageError ℕ
anc_mode_flag mode = or_fail (find_mode mode anc_mode_table) unsupported_mode

-- The test `active.len() != 1`, and the one mode.
abbrev pub only : List String → Result MessageError String
only (mode ∷ []) = ok mode
only modes = err active_modes

unfoldable pub decode_anc_state : List ℕ → Result MessageError FastPairNoiseControl
decode_anc_state payload = decode_fixed4 payload >>= λ t. only (anc_modes t.3) >>= λ active.
    ok (record {
      version = t.0;
      available_modes = anc_modes t.1;
      settable_modes = anc_modes t.2;
      active_mode = some active;
    })

-- `try_fold(0_u8, ..)` over the modes
abbrev pub fold_flags : ℕ → List String → Result MessageError ℕ
fold_flags flags [] = ok flags
fold_flags flags (mode ∷ modes) =
    anc_mode_flag mode >>= λ flag. fold_flags (bit_or flags flag) modes

-- `settable_modes.iter().any(|candidate| candidate == mode)`
abbrev pub any_mode : String → List String → Bool
any_mode mode [] = false
any_mode mode (candidate ∷ modes) = str_eq candidate mode || any_mode mode modes

unfoldable pub noise_control_payload : FastPairNoiseControl → String → Result MessageError (List ℕ)
noise_control_payload s mode =
    ensure (s.version == 1 || s.version == 2) anc_version >> anc_mode_flag mode >>= λ mode_flag.
    ensure (any_mode mode s.settable_modes) not_settable
    >> fold_flags 0 s.available_modes
    >>= λ available. fold_flags 0 s.settable_modes >>= λ settable.
        ok (s.version ∷ available ∷ settable ∷ mode_flag ∷ [])

-- An error of `Frame::encoded`, as it is passed on.
abbrev pub framed {ℓ} : {A : Type ℓ} → Result StreamError A → Result MessageError A
framed (ok a) = ok a
framed (err e) = err (framing e)

unfoldable pub noise_control_frame : FastPairNoiseControl → String → Result MessageError (List ℕ)
noise_control_frame s mode =
    noise_control_payload s mode >>= λ payload. framed (encoded 0x08 0x12 payload)

pub data PsmAvailability : Type 0 where
  unknown unavailable : PsmAvailability
  ready : ℕ → PsmAvailability

-- The range of dynamic channels is that of the Bluetooth library.
module _ (psm_le_dyn_start psm_le_max : ℕ) where
  check_psm : ℕ → ℕ → ℕ → Result MessageError PsmAvailability
  check_psm state low high =
      if state == 0
      then ok unknown
      else if state == 1
      then (let psm = from_le_bytes (low ∷ high ∷ []) in
          if not (leb psm_le_dyn_start psm && leb psm psm_le_max)
          then err (psm_range psm)
          else ok (ready psm))
      else if state == 2
      then ok unavailable
      else err (psm_state state)

  unfoldable pub decode_message_stream_psm : List ℕ → Result MessageError PsmAvailability
  unfolding check_psm
  decode_message_stream_psm value = decode_fixed3 value >>= λ t. check_psm t.0 t.1 t.2
