-- ===== src/FastPair/Provider.antt =====
-- src/fast_pair.rs: what `FastPairBatteryProvider` does with the frames of a stream and with its end.
-- The locks are not modelled: each operation is one step. `written` is what the writers were
-- given, `queries` the peers whose capability query a task answers, and `changes` how often the
-- subscribers were told of a change.
pub mod Same
pub mod Laws
pub mod Ending
use Prim.Native.String.{String}
use bt_daemon.Base.Equality.{nat_eq}
use bt_daemon.Base.Map.{Map, get, insert, remove, contains_key}
use bt_daemon.Model.Devices.{FastPairMultipoint, FastPairNoiseControl, FastPairSwitchEvent}
use bt_daemon.FastPair.AudioSwitch.{notification}
use bt_daemon.FastPair.Capabilities.{RuntimeReport, empty_report}
use bt_daemon.FastPair.Commands.{PendingCommands, Reply, accepted, rejected, resolve, disconnect}
use bt_daemon.FastPair.Connection.{ConnectionState, ended, note_connection_change}
use bt_daemon.FastPair.Provider.Same.{
  bytes_same, multipoint_same, noise_control_same, switch_same, report_same, is_same,
}
use bt_daemon.FastPair.Stream.{Frame, encoded}
use bt_daemon.FastPair.Messages.{
  BatteryReport, MessageError, from_payload, decode_fixed, decode_audio_switch_capability,
  decode_anc_state, framed, no_stream, writer_failed,
}
use bt_daemon.Base.{
  ℕ, suc, Bool, List, [], ◌∷◌, ◌++◌, Option, none, some, Result, ok, err, if◌then◌else◌, ◌==◌,
  is_some, ◌+◌, ◌>>=◌, ◌&&◌,
}

pub record Provider : Type 0 where
  pub reports : Map ℕ BatteryReport
  pub runtime : Map ℕ RuntimeReport
  pub connections : ConnectionState
  pub pending : PendingCommands
  pub written : List (ℕ × List ℕ)
  pub queries : List ℕ
  pub changes : ℕ

-- `entry(address).or_default()`
abbrev pub runtime_of : ℕ → Provider → RuntimeReport
runtime_of address p = elim (get address p.runtime) [ none ↦ empty_report | some r ↦ r ]

-- A field of a report: what it is, and the report with another value in it.
module _ {ℓ} {T : Type ℓ} (same : T → T → Bool) (field : RuntimeReport → Option T)
    (with_field : RuntimeReport → T → RuntimeReport) where
  unfoldable pub update_runtime : ℕ → T → Provider → Provider
  update_runtime address value p =
      let report = runtime_of address p in
      if is_same same (field report) value
      then record p { runtime = insert address report p.runtime }
      else record p {
        runtime = insert address (with_field report value) p.runtime;
        changes = p.changes + 1;
      }

unfoldable pub update_report : ℕ → BatteryReport → Provider → Provider
update_report address report p =
    if is_same report_same (get address p.reports) report
    then record p { reports = insert address report p.reports }
    else record p { reports = insert address report p.reports; changes = p.changes + 1 }

unfoldable pub remove_report : ℕ → Provider → Provider
remove_report address p =
    if is_some (get address p.reports)
    then record p { reports = remove address p.reports; changes = p.changes + 1 }
    else p

-- `delivered` is whether the writer takes the frame within a second.
unfoldable pub send_frame : Bool → ℕ → List ℕ → Provider → Result MessageError (Unit {0}) × Provider
send_frame delivered address frame p =
    if is_some (get address p.connections.writers)
    then (if delivered
        then (ok tt, record p { written = p.written ++ ((address, frame) ∷ []) })
        else (err writer_failed, p))
    else (err no_stream, p)

-- `install_writer`; a writer is known by a number.
unfoldable pub install_writer : ℕ → ℕ → Provider → Provider
install_writer address writer p = record p {
  connections = record (p.connections) { writers = insert address writer p.connections.writers };
  runtime = insert address (runtime_of address p) p.runtime;
  changes = p.changes + 1;
}

unfoldable pub connection_ended : ℕ → ℕ → ℕ → Provider → Provider
connection_ended now random address p =
    let cleared : Provider = record p {
      connections = ended now random address p.connections;
      pending = disconnect address p.pending;
      runtime = remove address p.runtime;
    } in
    let removed = remove_report address cleared in
    if is_some (get address p.runtime)
    then record removed { changes = removed.changes + 1 }
    else removed

-- A decoded value is stored; an error leaves the provider as it is.
abbrev pub on_ok {ℓ} :
    {T : Type ℓ}
    → Result MessageError T
    → (T → Provider)
    → Provider
    → Result MessageError (Unit {0}) × Provider
on_ok (ok value) store p = (ok tt, store value)
on_ok (err e) store p = (err e, p)

abbrev pub set_session_nonce : RuntimeReport → List ℕ → RuntimeReport
set_session_nonce r value = record r { session_nonce = some value }

abbrev pub set_model_id : RuntimeReport → List ℕ → RuntimeReport
set_model_id r value = record r { model_id = some value }

abbrev pub set_ble_address : RuntimeReport → List ℕ → RuntimeReport
set_ble_address r value = record r { ble_address = some value }

unfoldable pub apply_device_information :
    ℕ → ℕ → List ℕ → Provider → Result MessageError (Unit {0}) × Provider
apply_device_information address code payload p =
    if code == 0x03
    then on_ok (from_payload payload) (λ report. update_report address report p) p
    else if code == 0x0a
    then (on_ok (decode_fixed 8 payload)
        (λ nonce.
          update_runtime bytes_same (λ r. r.session_nonce) set_session_nonce address nonce p)
        p)
    else if code == 0x01
    then (on_ok (decode_fixed 3 payload)
        (λ model_id. update_runtime bytes_same (λ r. r.model_id) set_model_id address model_id p) p)
    else if code == 0x02
    then (on_ok (decode_fixed 6 payload)
        (λ ble. update_runtime bytes_same (λ r. r.ble_address) set_ble_address address ble p) p)
    else (ok tt, p)

-- The key and the reply that an acknowledgement resolves, if its payload has them.
abbrev pub acknowledged : ℕ → List ℕ → Option ((ℕ × ℕ) × Reply)
acknowledged code [] = none
acknowledged code (first ∷ []) = none
acknowledged code (first ∷ second ∷ []) =
    if code == 0x01 then some ((first, second), accepted) else none
acknowledged code (first ∷ second ∷ third ∷ rest) =
    if code == 0x01
    then some ((first, second), accepted)
    else if code == 0x02
    then some ((second, third), rejected)
    else none

abbrev pub resolved : ℕ → Option ((ℕ × ℕ) × Reply) → Provider → Provider
resolved address none p = p
resolved address (some ((group, message), result)) p = record p {
  pending = resolve (address, (group, message)) result p.pending;
}

unfoldable pub apply_acknowledgement : ℕ → ℕ → List ℕ → Provider → Provider
apply_acknowledgement address code payload p = resolved address (acknowledged code payload) p

abbrev pub set_last_switch : RuntimeReport → FastPairSwitchEvent → RuntimeReport
set_last_switch r value = record r { last_switch = some value }

abbrev pub set_multipoint : RuntimeReport → FastPairMultipoint → RuntimeReport
set_multipoint r value = record r { multipoint = some value }

abbrev pub set_noise_control : RuntimeReport → FastPairNoiseControl → RuntimeReport
set_noise_control r value = record r { noise_control = some value }

-- What follows the acknowledgement of a capability: it is stored when the writer took the frame.
abbrev pub after_send :
    (Provider → Provider)
    → Result MessageError (Unit {0}) × Provider
    → Result MessageError (Unit {0}) × Provider
after_send store (ok done, p) = (ok tt, store p)
after_send store (err e, p) = (err e, p)

-- The acknowledgement of a capability, and then the capability.
abbrev pub acknowledge_capability :
    Bool
    → ℕ
    → Provider
    → Result MessageError FastPairMultipoint
    → Result MessageError (List ℕ)
    → Result MessageError (Unit {0}) × Provider
acknowledge_capability delivered address p (err e) ack = (err e, p)
acknowledge_capability delivered address p (ok capability) (err e) = (err e, p)
acknowledge_capability delivered address p (ok capability) (ok ack) =
    after_send
      (update_runtime multipoint_same (λ r. r.multipoint) set_multipoint address capability)
      (send_frame delivered address ack p)

module _ (from_utf8 : List ℕ → Option String) (now : ℕ) (delivered : Bool) where
  unfoldable pub apply_frame : ℕ → Frame → Provider → Result MessageError (Unit {0}) × Provider
  apply_frame address frame p =
      if frame.group == 0x03
      then apply_device_information address frame.code frame.payload p
      else if frame.group == 0x07 && frame.code == 0x10
      then (ok tt, record p { queries = p.queries ++ (address ∷ []) })
      else if frame.group == 0x07 && frame.code == 0x32
      then (on_ok (notification from_utf8 now frame.payload)
          (λ event. update_runtime switch_same (λ r. r.last_switch) set_last_switch address event p)
          p)
      else if frame.group == 0x07 && frame.code == 0x11
      then (acknowledge_capability delivered address p
          (decode_audio_switch_capability frame.payload)
          (framed (encoded 0xff 0x01 (0x07 ∷ 0x11 ∷ []))))
      else if frame.group == 0x08 && frame.code == 0x13
      then (on_ok (decode_anc_state frame.payload)
          (λ state.
            update_runtime noise_control_same (λ r. r.noise_control) set_noise_control address state
              p)
          p)
      else if frame.group == 0xff
      then (ok tt, apply_acknowledgement address frame.code frame.payload p)
      else (ok tt, p)

  -- `apply_frames`, over the frames that the channel gives; an error is only logged.
  unfoldable pub apply_frames : ℕ → List Frame → Provider → Provider
  apply_frames address [] p = p
  apply_frames address (frame ∷ frames) p =
      apply_frames address frames (apply_frame address frame p).1
