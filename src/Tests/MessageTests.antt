-- ===== src/Tests/MessageTests.antt =====
-- src/fast_pair.rs, the payloads of the Message Stream on concrete bytes.
use Prim.Native.String.{String}
use bt_daemon.Model.Devices.{FastPairNoiseControl}
use bt_daemon.FastPair.Messages.{
  BatteryReport, from_payload, decode_component, decode_fixed3, decode_fixed4, model_batteries,
  decode_anc_state, anc_modes, noise_control_payload, decode_message_stream_psm, ready,
}
use bt_daemon.FastPair.Messages.Levels.{
  model_batteries-from_payload, decode_message_stream_psm-ready,
}
use bt_daemon.FastPair.Messages.NoiseControl.{
  noise_control_payload-decode_anc_state, noise_control_payload-not_settable,
}
use bt_daemon.FastPair.Capabilities.{describe, empty_report, provisioning_reason}
use bt_daemon.FastPair.Capabilities.Provisioning.{describe-provisioning}
use bt_daemon.Model.Text.{remote_text}
use bt_daemon.Model.Text.Bounds.{remote_text-AreShown, chars, AreShown, shown_chars}
use bt_daemon.Base.Endian.{IsBytes, le_bytes16}
use bt_daemon.Base.{
  ℕ, ◌≡◌, ◌↔◌, ◌≢◌, ◌≤◌, List, [], ◌∷◌, ok, arith, refl, some, true, false, All, ◌>>=◌, min,
}

abbrev report : BatteryReport
report = record {
  left = some 100;
  right = some 50;
  case = some 78;
  charging_left = true;
  charging_right = false;
  charging_case = false;
}

decoded : from_payload (0xe4 ∷ 0x32 ∷ 0x4e ∷ []) ≡ ok report
unfolding from_payload decode_fixed3 decode_component
decoded = refl

model_batteries-from_payload_example : All (λ b. b.percentage ≤ 100) (model_batteries report)
model_batteries-from_payload_example =
    model_batteries-from_payload (0xe4 ∷ 0x32 ∷ 0x4e ∷ []) report decoded

psm-IsBytes : IsBytes (1 ∷ 0x85 ∷ 0 ∷ [])
psm-IsBytes = ground arith

decode_message_stream_psm-ready_example :
    (decode_message_stream_psm 0x80 0xff (1 ∷ 0x85 ∷ 0 ∷ []) ≡ ok (ready 0x85))
    ↔ ((◌≡◌ {A = List ℕ} (1 ∷ 0x85 ∷ 0 ∷ []) (1 ∷ le_bytes16 0x85)) × (0x80 ≤ 0x85) × (0x85 ≤ 0xff))
decode_message_stream_psm-ready_example =
    decode_message_stream_psm-ready 0x80 0xff (1 ∷ 0x85 ∷ 0 ∷ []) 0x85 psm-IsBytes (omega arith)

abbrev state : FastPairNoiseControl
state = record {
  version = 1;
  available_modes = "transparent" ∷ "off" ∷ "noise-cancelling" ∷ [];
  settable_modes = "transparent" ∷ "off" ∷ [];
  active_mode = some "off";
}

state_decoded : decode_anc_state (1 ∷ 0xa8 ∷ 0xa0 ∷ 0x20 ∷ []) ≡ ok state
unfolding decode_anc_state decode_fixed4 anc_modes
state_decoded = refl

noise_control_payload-decode_anc_state_example :
    (noise_control_payload state "transparent" >>= decode_anc_state)
    ≡ ok (record state { active_mode = some "transparent" })
noise_control_payload-decode_anc_state_example =
    noise_control_payload-decode_anc_state (1 ∷ 0xa8 ∷ 0xa0 ∷ 0x20 ∷ []) state "transparent"
      state_decoded refl refl

noise_control_payload-not_settable_test :
    noise_control_payload state "noise-cancelling" ≢ ok (1 ∷ 0xa8 ∷ 0xa0 ∷ 0x08 ∷ [])
noise_control_payload-not_settable_test =
    noise_control_payload-not_settable state "noise-cancelling" (1 ∷ 0xa8 ∷ 0xa0 ∷ 0x08 ∷ []) refl

abbrev text_of : List ℕ → String
text_of bytes = "bytes"

describe-provisioning_test :
    ((describe text_of text_of empty_report false (some "Buds") true).provisioning_available ≡ true)
    × (false ≡ false)
    × (false ≡ false)
    × (false ≡ false)
unfolding describe provisioning_reason
describe-provisioning_test =
    describe-provisioning text_of text_of empty_report false (some "Buds") true

remote_text-AreShown_example :
    (chars (remote_text "Buds\n" 4) ≡ min (shown_chars "Buds\n") 4)
    × AreShown (remote_text "Buds\n" 4)
    × (remote_text (remote_text "Buds\n" 4) 4 ≡ remote_text "Buds\n" 4)
remote_text-AreShown_example = remote_text-AreShown "Buds\n" 4
