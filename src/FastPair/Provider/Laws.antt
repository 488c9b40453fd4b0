-- ===== src/FastPair/Provider/Laws.antt =====
-- What frames leave as it was: other peers always, and everything where a frame is refused.
use bt_daemon.FastPair.Commands.{Key}
use bt_daemon.Base.Equality.{nat_eq}
use bt_daemon.Base.Map.{get, get-insert_other, get-remove_other}
use bt_daemon.FastPair.Capabilities.{RuntimeReport}
use bt_daemon.FastPair.Commands.{Key, key_eq, resolve}
use bt_daemon.FastPair.Messages.{
  MessageError, BatteryReport, from_payload, decode_fixed, decode_audio_switch_capability,
  writer_failed, framed, no_stream, decode_anc_state,
}
use bt_daemon.FastPair.Provider.{
  Provider, update_runtime, update_report, on_ok, is_same, runtime_of, report_same, Reply,
  apply_device_information, apply_frame, apply_frames, send_frame, FastPairMultipoint, String,
  apply_acknowledgement, resolved, Frame, acknowledge_capability, bytes_same, notification,
  multipoint_same, set_session_nonce, switch_same, set_last_switch, set_model_id, set_multipoint,
  set_ble_address, encoded, noise_control_same, set_noise_control, acknowledged, resolve,
}
use bt_daemon.Base.{
  ℕ, Bool, true, false, ◌≡◌, ◌≢◌, refl, Option, Result, ok, err, Bool-cases, if◌then◌else◌, inl,
  inr, List, ◌∙◌, ◌==◌, some, is_some, none, ◌&&◌, ◌∷◌, [], ◌++◌, ap,
}

-- The report, the runtime state, the link, the writer, the retries and the waiting commands of the
-- peer `j` are the same.
pub record IsKept (j : ℕ) (p q : Provider) : Type 0 where
  pub report_kept : get j q.reports ≡ get j p.reports
  pub runtime_kept : get j q.runtime ≡ get j p.runtime
  pub link_kept : get j q.connections.links ≡ get j p.connections.links
  pub writer_kept : get j q.connections.writers ≡ get j p.connections.writers
  pub retry_kept : get j q.connections.retry ≡ get j p.connections.retry
  pub commands_kept :
      (key : Key) → key.0 ≡ j → get key q.pending.entries ≡ get key p.pending.entries

kept_refl : (j : ℕ) (p : Provider) → IsKept j p p
kept_refl j p = record {
  report_kept = refl;
  runtime_kept = refl;
  link_kept = refl;
  writer_kept = refl;
  retry_kept = refl;
  commands_kept = λ key same. refl;
}

update_runtime-IsKept {ℓ} :
    {T : Type ℓ} (same : T → T → Bool) (field : RuntimeReport → Option T)
    (with_field : RuntimeReport → T → RuntimeReport) (address j : ℕ) (value : T) (p : Provider)
    → address ≢ j
    → IsKept j p (update_runtime same field with_field address value p)
unfolding update_runtime
update_runtime-IsKept same field with_field address j value p other =
    let report = runtime_of address p in
    elim (Bool-cases (is_same same (field report) value)) [
      | inl h ↦ rw h (record {
        report_kept = refl;
        runtime_kept = get-insert_other address j report p.runtime other;
        link_kept = refl;
        writer_kept = refl;
        retry_kept = refl;
        commands_kept = λ key same. refl;
      })
      | inr h ↦ rw h (record {
        report_kept = refl;
        runtime_kept = get-insert_other address j (with_field report value) p.runtime other;
        link_kept = refl;
        writer_kept = refl;
        retry_kept = refl;
        commands_kept = λ key same. refl;
      })
    ]

update_report-IsKept :
    (address j : ℕ) (report : BatteryReport) (p : Provider)
    → address ≢ j
    → IsKept j p (update_report address report p)
unfolding update_report
update_report-IsKept address j report p other =
    let stored = get-insert_other address j report p.reports other in
    elim (Bool-cases (is_same report_same (get address p.reports) report)) [
      | inl h ↦ rw h (record {
        report_kept = stored;
        runtime_kept = refl;
        link_kept = refl;
        writer_kept = refl;
        retry_kept = refl;
        commands_kept = λ key same. refl;
      })
      | inr h ↦ rw h (record {
        report_kept = stored;
        runtime_kept = refl;
        link_kept = refl;
        writer_kept = refl;
        retry_kept = refl;
        commands_kept = λ key same. refl;
      })
    ]

-- What an operation that may fail does: nothing on an error, and nothing to other peers.
record IsCareful (address : ℕ) (p : Provider) (answer : Result MessageError (Unit {0}) × Provider)
    : Type 0 where
  unchanged : (e : MessageError) → answer.0 ≡ err e → answer.1 ≡ p
  others : (j : ℕ) → address ≢ j → IsKept j p answer.1

done-IsCareful :
    (address : ℕ) (p q : Provider)
    → ((j : ℕ) → address ≢ j → IsKept j p q)
    → IsCareful address p (ok tt, q)
done-IsCareful address p q h = record { unchanged = λ e failed. absurd cc; others = h }

on_ok-IsCareful {ℓ} :
    {T : Type ℓ} (address : ℕ) (r : Result MessageError T) (store : T → Provider) (p : Provider)
    → ((value : T) (j : ℕ) → address ≢ j → IsKept j p (store value))
    → IsCareful address p (on_ok r store p)
on_ok-IsCareful address (ok value) store p h = done-IsCareful address p (store value) (h value)
on_ok-IsCareful address (err e) store p h = record {
  unchanged = λ e2 failed. refl;
  others = λ j other. kept_refl j p;
}

failed-IsCareful : (address : ℕ) (p : Provider) (e : MessageError) → IsCareful address p (err e, p)
failed-IsCareful address p e = record {
  unchanged = λ e2 failed. refl;
  others = λ j other. kept_refl j p;
}

if-IsCareful :
    (b : Bool) (address : ℕ) (p : Provider) (x y : Result MessageError (Unit {0}) × Provider)
    → IsCareful address p x
    → IsCareful address p y
    → IsCareful address p (if b then x else y)
if-IsCareful true address p x y h k = h
if-IsCareful false address p x y h k = k

apply_device_information-IsCareful :
    (address code : ℕ) (payload : List ℕ) (p : Provider)
    → IsCareful address p (apply_device_information address code payload p)
unfolding apply_device_information
apply_device_information-IsCareful address code payload p =
    if-IsCareful (code == 0x03) address p _ _
      (on_ok-IsCareful address (from_payload payload) _ p
        (λ report j. update_report-IsKept address j report p))
      (if-IsCareful (code == 0x0a) address p _ _
        (on_ok-IsCareful address (decode_fixed 8 payload) _ p
          (λ value j. update_runtime-IsKept bytes_same _ set_session_nonce address j value p))
        (if-IsCareful (code == 0x01) address p _ _
          (on_ok-IsCareful address (decode_fixed 3 payload) _ p
            (λ value j. update_runtime-IsKept bytes_same _ set_model_id address j value p))
          (if-IsCareful (code == 0x02) address p _ _
            (on_ok-IsCareful address (decode_fixed 6 payload) _ p
              (λ value j. update_runtime-IsKept bytes_same _ set_ble_address address j value p))
            (done-IsCareful address p p (λ j other. kept_refl j p)))))

resolved-IsKept :
    (address j : ℕ) (o : Option ((ℕ × ℕ) × Reply)) (p : Provider)
    → address ≢ j
    → IsKept j p (resolved address o p)
unfolding resolve
resolved-IsKept address j none p other = kept_refl j p
resolved-IsKept address j (some ((group, message), result)) p other = record {
  report_kept = refl;
  runtime_kept = refl;
  link_kept = refl;
  writer_kept = refl;
  retry_kept = refl;
  commands_kept = λ key same.
      get-remove_other (address, (group, message)) key p.pending.entries
        (λ e. other (ap (λ k. k.0) e ∙ same));
}

acknowledge_capability-IsCareful :
    (delivered : Bool) (address : ℕ) (p : Provider) (c : Result MessageError FastPairMultipoint)
    (ack : Result MessageError (List ℕ))
    → IsCareful address p (acknowledge_capability delivered address p c ack)
unfolding send_frame
acknowledge_capability-IsCareful delivered address p (err e) ack = failed-IsCareful address p e
acknowledge_capability-IsCareful delivered address p (ok capability) (err e) =
    failed-IsCareful address p e
acknowledge_capability-IsCareful delivered address p (ok capability) (ok ack) =
    elim (Bool-cases (is_some (get address p.connections.writers))) [
      | inl h ↦ elim (Bool-cases delivered) [
        | inl d ↦
            let sent : Provider = record p { written = p.written ++ ((address, ack) ∷ []) } in
            rw (h, d)
              (done-IsCareful address p _ (λ j other.
                let stored =
                  update_runtime-IsKept multipoint_same (λ r. r.multipoint) set_multipoint address j
                    capability sent other in
                record {
                  report_kept = stored.report_kept;
                  runtime_kept = stored.runtime_kept;
                  link_kept = stored.link_kept;
                  writer_kept = stored.writer_kept;
                  retry_kept = stored.retry_kept;
                  commands_kept = stored.commands_kept;
                }))
        | inr d ↦ rw (h, d) (failed-IsCareful address p writer_failed)
      ]
      | inr h ↦ rw h (failed-IsCareful address p no_stream)
    ]

apply_frame-IsCareful :
    (from_utf8 : List ℕ → Option String) (now : ℕ) (delivered : Bool) (address : ℕ) (frame : Frame)
    (p : Provider)
    → IsCareful address p (apply_frame from_utf8 now delivered address frame p)
unfolding apply_frame apply_acknowledgement
apply_frame-IsCareful from_utf8 now delivered address frame p =
    if-IsCareful (frame.group == 0x03) address p _ _
      (apply_device_information-IsCareful address frame.code frame.payload p)
      (if-IsCareful (frame.group == 0x07 && frame.code == 0x10) address p _ _
        (done-IsCareful address p _ (λ j other. record {
          report_kept = refl;
          runtime_kept = refl;
          link_kept = refl;
          writer_kept = refl;
          retry_kept = refl;
          commands_kept = λ key same. refl;
        }))
        (if-IsCareful (frame.group == 0x07 && frame.code == 0x32) address p _ _
          (on_ok-IsCareful address (notification from_utf8 now frame.payload) _ p
            (λ value j. update_runtime-IsKept switch_same _ set_last_switch address j value p))
          (if-IsCareful (frame.group == 0x07 && frame.code == 0x11) address p _ _
            (acknowledge_capability-IsCareful delivered address p
              (decode_audio_switch_capability frame.payload)
              (framed (encoded 0xff 0x01 (0x07 ∷ 0x11 ∷ []))))
            (if-IsCareful (frame.group == 0x08 && frame.code == 0x13) address p _ _
              (on_ok-IsCareful address (decode_anc_state frame.payload) _ p (λ value j.
                update_runtime-IsKept noise_control_same _ set_noise_control address j value p))
              (if-IsCareful (frame.group == 0xff) address p _ _
                (done-IsCareful address p _ (λ j other.
                  resolved-IsKept address j (acknowledged frame.code frame.payload) p other))
                (done-IsCareful address p p (λ j other. kept_refl j p)))))))

-- A frame that is refused, because its payload is malformed or its acknowledgement cannot be sent,
-- changes nothing.
pub apply_frame-err :
    (from_utf8 : List ℕ → Option String) (now : ℕ) (delivered : Bool) (address : ℕ) (frame : Frame)
    (p : Provider) (e : MessageError)
    → (apply_frame from_utf8 now delivered address frame p).0 ≡ err e
    → (apply_frame from_utf8 now delivered address frame p).1 ≡ p
apply_frame-err from_utf8 now delivered address frame p e =
    (apply_frame-IsCareful from_utf8 now delivered address frame p).unchanged e

kept_trans : (j : ℕ) {p q r : Provider} → IsKept j p q → IsKept j q r → IsKept j p r
kept_trans j h k = record {
  report_kept = k.report_kept ∙ h.report_kept;
  runtime_kept = k.runtime_kept ∙ h.runtime_kept;
  link_kept = k.link_kept ∙ h.link_kept;
  writer_kept = k.writer_kept ∙ h.writer_kept;
  retry_kept = k.retry_kept ∙ h.retry_kept;
  commands_kept = λ key same. k.commands_kept key same ∙ h.commands_kept key same;
}

-- Whatever frames arrive on one peer's stream, the report, the runtime state, the link, the writer,
-- the retries and the waiting commands of every other peer stay as they were.
pub apply_frames-IsKept :
    (from_utf8 : List ℕ → Option String) (now : ℕ) (delivered : Bool) (address j : ℕ)
    (frames : List Frame) (p : Provider)
    → address ≢ j
    → IsKept j p (apply_frames from_utf8 now delivered address frames p)
unfolding apply_frames
apply_frames-IsKept from_utf8 now delivered address j [] p other = kept_refl j p
apply_frames-IsKept from_utf8 now delivered address j (frame ∷ frames) p other =
    let once = (apply_frame-IsCareful from_utf8 now delivered address frame p).others j other in
    kept_trans j once (
      apply_frames-IsKept from_utf8 now delivered address j frames
        (apply_frame from_utf8 now delivered address frame p).1 other)
