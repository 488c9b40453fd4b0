-- ===== src/Tests/RuntimeTests.antt =====
-- src/maestro/protocol.rs: the subscription on a concrete channel, and reports of batteries.
use bt_daemon.Maestro.Varint.{put_varint}
use bt_daemon.Framing.{default}
use bt_daemon.Maestro.Packet.{Packet}
use bt_daemon.Maestro.Frame.{push_frames}
use bt_daemon.Maestro.Fields.RoundTrip.{encode_fields, encode_field}
use bt_daemon.Maestro.Runtime.{
  is_subscription, subscribe_runtime_info_id, id, Channel, Batteries, batteries,
  subscription_packet, announced_channel, subscribe_runtime_info, runtime_batteries,
  subscription_update, maestro_service, get_software_info, charging_of, kind_update,
}
use bt_daemon.Maestro.Runtime.Levels.{AreLevels, subscription_update-AreLevels}
use bt_daemon.Maestro.Runtime.Subscribe.{
  reading_fields, runtime_info, info_fields, push_frames-subscribe_runtime_info,
  runtime_batteries-runtime_info,
}
use bt_daemon.Base.{[], ◌∷◌, ◌≡◌, ok, some, none, refl, arith, length, true, false}

-- The answer by which the buds announce channel 18.
abbrev announcement : Packet
announcement = record {
  kind = 1;
  channel = 18;
  service = maestro_service;
  method = get_software_info;
  payload = [];
  status = 0;
  call = 0;
}

abbrev channel18 : Channel
channel18 = record { id = 18; address = 2688 }

announced : announced_channel announcement ≡ some channel18
unfolding announced_channel maestro_service get_software_info id
announced = refl

push_frames-subscribe_runtime_info_test :
    (push_frames default (subscribe_runtime_info channel18)).1
    ≡ ok (subscription_packet channel18) ∷ []
push_frames-subscribe_runtime_info_test =
    push_frames-subscribe_runtime_info announcement channel18 announced

left_size : length (encode_fields (reading_fields (55, 1))) ≡ 4
unfolding encode_fields encode_field put_varint native.Mathlib.Decide.dec_le
left_size = refl

right_size : length (encode_fields (reading_fields (80, 2))) ≡ 4
unfolding encode_fields encode_field put_varint native.Mathlib.Decide.dec_le
right_size = refl

info_size : length (encode_fields (info_fields none (some (55, 1)) (some (80, 2)))) ≡ 12
unfolding encode_fields encode_field put_varint native.Mathlib.Decide.dec_le
info_size = refl

-- The right bud at 80 % and charging, the left one at 55 %, and no case.
runtime_batteries-runtime_info_example :
    runtime_batteries (runtime_info 5 (info_fields none (some (55, 1)) (some (80, 2))))
    ≡ ok (
        some (record {
          left = some (record { level = 55; charging = some false });
          right = some (record { level = 80; charging = some true });
          case = none;
        }))
unfolding charging_of
runtime_batteries-runtime_info_example =
    runtime_batteries-runtime_info 5 none (some (55, 1)) (some (80, 2)) (omega arith) tt
      ((omega arith, omega arith), omega (arith, left_size))
      ((omega arith, omega arith), omega (arith, right_size)) (omega (arith, info_size))

-- The same report, as a packet of the subscription.
abbrev report : Packet
report = record {
  kind = 7;
  channel = 18;
  service = maestro_service;
  method = subscribe_runtime_info_id;
  payload = runtime_info 5 (info_fields none (some (55, 1)) (some (80, 2)));
  status = 0;
  call = 0;
}

abbrev reported : Batteries
reported = record {
  left = some (record { level = 55; charging = some false });
  right = some (record { level = 80; charging = some true });
  case = none;
}

report_read : subscription_update report channel18 ≡ ok (batteries reported)
unfolding subscription_update is_subscription kind_update maestro_service subscribe_runtime_info_id
    id
report_read = rw runtime_batteries-runtime_info_example refl

subscription_update-AreLevels_example : AreLevels reported
subscription_update-AreLevels_example =
    subscription_update-AreLevels report channel18 reported report_read
