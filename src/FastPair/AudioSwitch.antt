-- ===== src/FastPair/AudioSwitch.antt =====
-- src/fast_pair/audio_switch.rs: the notification that the audio was switched. `from_utf8` is
-- the standard library's decoding, and `now` the time in milliseconds.
use Prim.Native.String.{String}
use text.Mathlib.Text.{◌==◌ as str_eq}
use bt_daemon.Model.Devices.{FastPairSwitchEvent}
use bt_daemon.Model.Text.{remote_text}
use bt_daemon.FastPair.Messages.{MessageError, switch_missing, switch_name}
use bt_daemon.Base.{
  ℕ, List, ◌∷◌, Option, none, some, Result, ok, err, ◌>>=◌, or_fail, if◌then◌else◌, ◌==◌,
}

-- `match payload[0]`
abbrev pub switch_reason : ℕ → String
switch_reason byte =
    if byte == 0
    then "unspecified"
    else if byte == 1
    then "media"
    else if byte == 2
    then "call"
    else "unknown"

-- `match payload[1]`
abbrev pub switch_target : ℕ → String
switch_target byte =
    if byte == 1 then "this-device" else if byte == 2 then "another-device" else "unknown"

module _ (from_utf8 : List ℕ → Option String) (now : ℕ) where
  unfoldable pub notification : List ℕ → Result MessageError FastPairSwitchEvent
  notification (reason ∷ target ∷ rest) = or_fail (from_utf8 rest) switch_name >>= λ text.
      let name = remote_text text 128 in
      ok (record {
        reason = switch_reason reason;
        target = switch_target target;
        target_name = if str_eq name "" then none else some name;
        observed_at_ms = now;
      })
  notification _ = err switch_missing
