-- ===== src/Tests/ProviderTests.antt =====
-- src/fast_pair.rs, frames that the provider applies and streams that end.
use Prim.Native.String.{String}
use bt_daemon.FastPair.Stream.{Frame}
use bt_daemon.FastPair.Messages.{
  BatteryReport, battery_percentage, from_payload, decode_fixed3, decode_component,
}
use bt_daemon.FastPair.Connection.{default as no_connections}
use bt_daemon.FastPair.Commands.{default as no_commands}
use bt_daemon.FastPair.Provider.{
  Provider, apply_frame, apply_frames, apply_device_information, connection_ended,
}
use bt_daemon.FastPair.Provider.Laws.{apply_frame-err, apply_frames-IsKept, IsKept}
use bt_daemon.FastPair.Provider.Ending.{connection_ended-IsGone, IsGone}
use bt_daemon.Base.{ℕ, ◌≡◌, ◌≢◌, List, [], ◌∷◌, Option, none, some, err, arith, refl, true, false}

abbrev utf8 : List ℕ → Option String
utf8 bytes = some "name"

abbrev report : BatteryReport
report = record {
  left = some 100;
  right = some 50;
  case = none;
  charging_left = false;
  charging_right = false;
  charging_case = true;
}

abbrev provider : Provider
provider = record {
  reports = (1, report) ∷ (2, report) ∷ [];
  runtime = [];
  connections = no_connections;
  pending = no_commands;
  written = [];
  queries = [];
  changes = 0;
}

-- A level of 101 percent.
abbrev bad : Frame
bad = record { group = 3; code = 3; payload = 101 ∷ 50 ∷ 0x7f ∷ [] }

refused : (apply_frame utf8 0 true 1 bad provider).0 ≡ err (battery_percentage 101)
unfolding apply_frame apply_device_information from_payload decode_fixed3 decode_component
refused = refl

apply_frame-err_example : (apply_frame utf8 0 true 1 bad provider).1 ≡ provider
apply_frame-err_example =
    apply_frame-err utf8 0 true 1 bad provider (battery_percentage 101) refused

abbrev good : Frame
good = record { group = 3; code = 3; payload = 90 ∷ 40 ∷ 0x7f ∷ [] }

apply_frames-IsKept_example :
    IsKept 2 provider (apply_frames utf8 0 true 1 (good ∷ bad ∷ []) provider)
apply_frames-IsKept_example =
    apply_frames-IsKept utf8 0 true 1 2 (good ∷ bad ∷ []) provider (omega arith)

connection_ended-IsGone_example :
    IsGone 1 (connection_ended 0 0 1 provider)
    × ((j : ℕ) → 1 ≢ j → IsKept j provider (connection_ended 0 0 1 provider))
connection_ended-IsGone_example = connection_ended-IsGone 0 0 1 provider
