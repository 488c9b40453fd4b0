-- ===== src/Pairing/Run.antt =====
-- The broker over any sequence of prompts, answers, timeouts, disconnects and displays.
use Prim.Native.String.{String}
use bt_daemon.Pairing.{
  RequestId, id_eq, id_beq, id_beq_iff, PairingEvent, PendingRequest, PendingResponse,
  PairingBroker, Params, pairing, emit, respond, insert_request, cancel_pending, cancel_all,
  display, cancelled, Answer, emit_all, finish_all, new_broker, respond_with, PairingError,
  answered, get, respond_checked,
}
use bt_daemon.Pairing.Once.{
  requests, waiting, IsCounted, emit-IsCounted, requests-append, waiting-insert,
  respond_with-IsCounted, cancel_pending-IsCounted, times, cancel_all-IsCounted,
}
use bt_daemon.Base.{
  ℕ, ◌+◌, ◌<◌, ◌^◌, Bool, true, ◌≡◌, refl, List, [], ◌∷◌, Option, none, arith, if◌then◌else◌,
  Bool-cases, inl, subst, inr, Result, length, ◌≤◌, Option-cases, some, ◌&&◌, err, not, ok,
}

-- The calls of BlueZ, of clients and of the timeouts, with what they bring.
pub data Call : Type 0 where
  prompts : ℕ → String → String → PendingResponse → Option String → Option String → Call
  responds : Bool → Params → Call
  gives_up : RequestId → String → Call
  shows : String → String → String → Option ℕ → Call
  hides : RequestId → String → String → String → Call
  stops : String → Call

abbrev pub apply : Call → PairingBroker → PairingBroker
apply (prompts timeout kind key response value service) b =
    (insert_request timeout kind key response value service b).1
apply (responds delivered p) b = (respond delivered p b).1
apply (gives_up id reason) b = cancel_pending id reason b
apply (shows kind key value entered) b = (display kind key value entered b).1
apply (hides id kind key reason) b = cancelled id kind key reason b
apply (stops reason) b = cancel_all reason b

abbrev pub run : List Call → PairingBroker → PairingBroker
run [] b = b
run (c ∷ calls) b = run calls (apply c b)

insert_request-IsCounted :
    (timeout : ℕ) (kind key : String) (response : PendingResponse) (value service : Option String)
    (b : PairingBroker)
    → b.sequence + 1 < 2 ^ 64
    → IsCounted [] b
    → IsCounted [] (insert_request timeout kind key response value service b).1
unfolding insert_request
insert_request-IsCounted timeout kind key response value service b small h =
    let id = pairing b.sequence in
    let event : PairingEvent = record {
      event = "requested";
      request_id = id;
      kind = kind;
      device_key = key;
      response_required = true;
      value = value;
      entered = none;
      service = service;
      reason = none;
      timeout_ms = timeout;
    } in
    let request : PendingRequest = record { response = response; event = event } in
    let unused = h.fresh b.sequence (omega arith) in
    let free : waiting id b.pending ≡ 0 = let before = h.balanced id in omega arith in
    let announced : (j : RequestId)
        → requests j (emit event b).emitted
          ≡ requests j b.emitted + (if id_beq id j then 1 else 0) =
      λ j. ground (arith, requests-append j b.emitted (event ∷ [])) in
    record {
      balanced = λ j.
          let before = h.balanced j in
          let after = announced j in
          let stored = waiting-insert id j request b.pending free in ground arith;
      once = λ j.
          let after = announced j in
          let le = h.once j in
          elim (Bool-cases (id_beq id j)) [
            | inl same ↦
                let none_yet : requests j b.emitted ≡ 0 =
                  subst (λ x. requests x b.emitted ≡ 0) ((id_beq_iff id j).0 same) unused in
                ground arith
            | inr other ↦ ground arith
          ];
      fresh = λ n above.
          let after = announced (pairing n) in
          let before = h.fresh n (ground arith) in ground arith;
    }

display-IsCounted :
    (kind key value : String) (entered : Option ℕ) (b : PairingBroker)
    → b.sequence + 1 < 2 ^ 64
    → IsCounted [] b
    → IsCounted [] (display kind key value entered b).1
unfolding display
display-IsCounted kind key value entered b small h =
    emit-IsCounted [] _ _ refl
      (record { balanced = h.balanced; once = h.once; fresh = λ n above. h.fresh n (ground arith) })

cancelled-IsCounted :
    (id : RequestId) (kind key reason : String) (b : PairingBroker)
    → IsCounted [] b
    → IsCounted [] (cancelled id kind key reason b)
unfolding cancelled
cancelled-IsCounted id kind key reason b h =
    emit-IsCounted [] _ _ refl (record { balanced = h.balanced; once = h.once; fresh = h.fresh })

finish_all-sequence :
    (reason : String) (held : List (RequestId × PendingRequest)) (b : PairingBroker)
    → (finish_all reason held b).sequence ≡ b.sequence
finish_all-sequence reason [] b = refl
finish_all-sequence reason ((id, request) ∷ held) b = finish_all-sequence reason held _

emit_all-sequence :
    (reason : String) (displays : List (RequestId × PairingEvent)) (b : PairingBroker)
    → (emit_all reason displays b).sequence ≡ b.sequence
emit_all-sequence reason [] b = refl
emit_all-sequence reason ((id, e) ∷ displays) b = emit_all-sequence reason displays _

answered-sequence :
    (delivered accept : Bool) (id : RequestId) (request : PendingRequest) (a : Answer)
    (b : PairingBroker)
    → (answered delivered accept id request a b).1.sequence ≡ b.sequence
answered-sequence delivered accept id request a b = elim (Bool-cases (accept && not delivered)) [
  | inl h ↦ rw h refl
  | inr h ↦ rw h refl
]

respond_checked-sequence :
    (delivered accept : Bool) (id : RequestId) (request : PendingRequest)
    (r : Result PairingError Answer) (b : PairingBroker)
    → (respond_checked delivered accept id request r b).1.sequence ≡ b.sequence
respond_checked-sequence delivered accept id request (err e) b = refl
respond_checked-sequence delivered accept id request (ok a) b =
    answered-sequence delivered accept id request a b

respond_with-sequence :
    (delivered : Bool) (id : Option RequestId) (accept : Option Bool) (value : Option String)
    (b : PairingBroker)
    → (respond_with delivered id accept value b).1.sequence ≡ b.sequence
respond_with-sequence delivered none accept value b = refl
respond_with-sequence delivered (some id) none value b = refl
respond_with-sequence delivered (some id) (some accept) value b =
    elim (Option-cases (get id b.pending)) [
      | inl h ↦ rw h refl
      | inr (request, h) ↦ rw h (respond_checked-sequence delivered accept id request _ b)
    ]

apply-sequence :
    (c : Call) (b : PairingBroker) → b.sequence + 1 < 2 ^ 64 → (apply c b).sequence ≤ b.sequence + 1
unfolding insert_request respond cancel_pending display cancelled cancel_all
apply-sequence (prompts timeout kind key response value service) b h = omega arith
apply-sequence (responds delivered p) b h =
    let same = respond_with-sequence delivered p.request_id p.accept p.value b in omega arith
apply-sequence (gives_up id reason) b h = elim (Option-cases (get id b.pending)) [
  | inl found ↦ rw found (omega arith)
  | inr (request, found) ↦ rw found (omega arith)
]
apply-sequence (shows kind key value entered) b h = omega arith
apply-sequence (hides id kind key reason) b h = omega arith
apply-sequence (stops reason) b h =
    let taken : PairingBroker = record b { pending = []; displays = [] } in
    let first = finish_all-sequence reason b.pending taken in
    let second = emit_all-sequence reason b.displays (finish_all reason b.pending taken) in
    omega arith

apply-IsCounted :
    (c : Call) (b : PairingBroker)
    → b.sequence + 1 < 2 ^ 64
    → IsCounted [] b
    → IsCounted [] (apply c b)
unfolding respond
apply-IsCounted (prompts timeout kind key response value service) b small h =
    insert_request-IsCounted timeout kind key response value service b small h
apply-IsCounted (responds delivered p) b small h =
    respond_with-IsCounted delivered p.request_id p.accept p.value b h
apply-IsCounted (gives_up id reason) b small h = cancel_pending-IsCounted id reason b h
apply-IsCounted (shows kind key value entered) b small h =
    display-IsCounted kind key value entered b small h
apply-IsCounted (hides id kind key reason) b small h = cancelled-IsCounted id kind key reason b h
apply-IsCounted (stops reason) b small h = cancel_all-IsCounted reason b h

run-IsCounted :
    (calls : List Call) (b : PairingBroker)
    → b.sequence + length calls < 2 ^ 64
    → IsCounted [] b
    → IsCounted [] (run calls b)
run-IsCounted [] b small h = h
run-IsCounted (c ∷ calls) b small h =
    let grown = apply-sequence c b (omega arith) in
    run-IsCounted calls (apply c b) (omega arith) (apply-IsCounted c b (omega arith) h)

new_broker-IsCounted : IsCounted [] new_broker
new_broker-IsCounted = record {
  balanced = λ id. refl;
  once = λ id. omega arith;
  fresh = λ n above. refl;
}

-- In any run of fewer than 2^64 - 1 prompts, answers, timeouts, cancellations and displays from the
-- start: a prompt that was requested either waits, or was answered, exactly once, and a prompt
-- that was not requested neither waits nor was answered.
pub run-once :
    (calls : List Call) (id : RequestId)
    → length calls + 1 < 2 ^ 64
    → (requests id (run calls new_broker).emitted
        ≡ waiting id (run calls new_broker).pending + times id (run calls new_broker).answers)
      × (requests id (run calls new_broker).emitted ≤ 1)
run-once calls id small =
    let h = run-IsCounted calls new_broker (omega arith) new_broker-IsCounted in
    let balanced = h.balanced id in (ground arith, h.once id)
