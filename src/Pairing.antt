-- ===== src/Pairing.antt =====
-- src/pairing.rs: `PairingBroker`, the prompts of BlueZ that wait for an answer. A request id is its
-- prefix and its number; the device key that the identities give is an argument. `answers` is what
-- the senders of the prompts were used for, and `emitted` the events, both in order. Each
-- operation is one step; the tasks that wait for time are the callers of `cancel_pending`.
pub mod Once
pub mod Run
pub mod Displays
pub mod Input
use Prim.Native.Char.{Char, code}
use Prim.Native.String.{String}
use text.Mathlib.Text.{◌==◌ as str_eq}
use bt_daemon.Base.Equality.{Eq, nat_beq_iff}
use bt_daemon.Base.Map.{Map, get, insert, remove, retain}
use bt_daemon.Base.{
  ℕ, zero, suc, ◌+◌, ◌-◌, ◌*◌, ◌%◌, ◌^◌, Bool, not, true, false, ◌&&◌, ◌||◌, List, [], ◌∷◌, ◌++◌,
  Option, none, some, Result, ok, err, ◌>>=◌, or_fail, if◌then◌else◌, ◌==◌, leb, ltb, ◌≡◌, ◌↔◌,
  arith,
}

pub data RequestId : Type 0 where
  pairing pairing_display : ℕ → RequestId

abbrev pub id_beq : RequestId → RequestId → Bool
id_beq (pairing n) (pairing m) = n == m
id_beq (pairing n) (pairing_display m) = false
id_beq (pairing_display n) (pairing m) = false
id_beq (pairing_display n) (pairing_display m) = n == m

pub id_beq_iff : (x y : RequestId) → (id_beq x y ≡ true) ↔ (x ≡ y)
id_beq_iff (pairing n) (pairing m) = ground (arith, nat_beq_iff n m)
id_beq_iff (pairing n) (pairing_display m) = (λ h. absurd cc, λ h. absurd cc)
id_beq_iff (pairing_display n) (pairing m) = (λ h. absurd cc, λ h. absurd cc)
id_beq_iff (pairing_display n) (pairing_display m) = ground (arith, nat_beq_iff n m)

instance abbrev pub id_eq : Eq RequestId
id_eq = record { beq = id_beq; beq_iff = id_beq_iff }

pub record PairingEvent : Type 0 where
  pub event : String
  pub request_id : RequestId
  pub kind : String
  pub device_key : String
  pub response_required : Bool
  pub value : Option String
  pub entered : Option ℕ
  pub service : Option String
  pub reason : Option String
  pub timeout_ms : ℕ

-- `PairingEvent::cancelled`
abbrev pub cancelled_event : PairingEvent → String → PairingEvent
cancelled_event e reason = record e {
  event = "cancelled";
  response_required = false;
  value = none;
  service = none;
  reason = some reason;
  timeout_ms = 0;
}

-- `PendingResponse`; its sender is that of the request.
pub data PendingResponse : Type 0 where
  pin passkey unit : PendingResponse

-- What BlueZ is answered.
pub data Answer : Type 0 where
  pin_code : String → Answer
  passkey_code : ℕ → Answer
  confirmed rejected canceled : Answer

pub data PairingError : Type 0 where
  missing_parameter not_pending pin_length passkey_digits request_cancelled : PairingError

-- `.unwrap_or_default()` on the member `value`
abbrev pub text_of : Option String → String
text_of none = ""
text_of (some value) = value

abbrev pub chars : String → ℕ
chars String.[] = 0
chars (String.◌∷◌ c s) = suc (chars s)

unfoldable pub pin_value : Option String → Result PairingError String
pin_value value =
    let pin = text_of value in
    if str_eq pin "" || ltb 16 (chars pin) then err pin_length else ok pin

abbrev pub all_digits : String → Bool
all_digits String.[] = true
all_digits (String.◌∷◌ c s) = (leb 48 (code c) && leb (code c) 57) && all_digits s

-- `value.parse()` on digits, which are read from the left.
abbrev pub parse_digits : ℕ → String → ℕ
parse_digits n String.[] = n
parse_digits n (String.◌∷◌ c s) = parse_digits (n * 10 + (code c - 48)) s

-- The length in bytes is that in characters where all are digits, and otherwise it is an error.
unfoldable pub passkey_value : Option String → Result PairingError ℕ
passkey_value value =
    let passkey = text_of value in
    if str_eq passkey "" || (ltb 6 (chars passkey) || not (all_digits passkey))
    then err passkey_digits
    else ok (parse_digits 0 passkey)

-- The answer of a response that is accepted: the checks of `validate`, and the value that `accept`
-- sends.
unfoldable pub accepted_answer : PendingResponse → Option String → Result PairingError Answer
accepted_answer pin value = pin_value value >>= λ v. ok (pin_code v)
accepted_answer passkey value = passkey_value value >>= λ v. ok (passkey_code v)
accepted_answer unit value = ok confirmed

pub record PendingRequest : Type 0 where
  pub response : PendingResponse
  pub event : PairingEvent

pub record PairingBroker : Type 0 where
  pub sequence : ℕ
  pub pending : Map RequestId PendingRequest
  pub displays : Map RequestId PairingEvent
  pub answers : List (RequestId × Answer)
  pub emitted : List PairingEvent

-- `PairingBroker::new`
abbrev pub new_broker : PairingBroker
new_broker = record { sequence = 1; pending = []; displays = []; answers = []; emitted = [] }

abbrev pub emit : PairingEvent → PairingBroker → PairingBroker
emit e b = record b { emitted = b.emitted ++ (e ∷ []) }

abbrev pub answer : RequestId → Answer → PairingBroker → PairingBroker
answer id a b = record b { answers = b.answers ++ ((id, a) ∷ []) }

-- The members of a response that `respond` reads.
pub record Params : Type 0 where
  pub request_id : Option RequestId
  pub accept : Option Bool
  pub value : Option String

-- The end of `respond`, when the answer has been sent: `delivered` is whether BlueZ still waited
-- for it. A rejection does not look at that.
abbrev pub answered :
    Bool
    → Bool
    → RequestId
    → PendingRequest
    → Answer
    → PairingBroker
    → Result PairingError Bool × PairingBroker
answered delivered accept id request a b =
    let sent = answer id a (record b { pending = remove id b.pending }) in
    if accept && not delivered then (err request_cancelled, sent) else (
      ok accept,
      emit
          (record (cancelled_event request.event (if accept then "accepted" else "rejected")) {
            event = "answered";
          })
          sent,
    )

abbrev pub respond_checked :
    Bool
    → Bool
    → RequestId
    → PendingRequest
    → Result PairingError Answer
    → PairingBroker
    → Result PairingError Bool × PairingBroker
respond_checked delivered accept id request (err e) b = (err e, b)
respond_checked delivered accept id request (ok a) b = answered delivered accept id request a b

abbrev pub respond_to :
    Bool
    → Bool
    → RequestId
    → Option String
    → Option PendingRequest
    → PairingBroker
    → Result PairingError Bool × PairingBroker
respond_to delivered accept id value none b = (err not_pending, b)
respond_to delivered accept id value (some request) b =
    respond_checked delivered accept id request
      (if accept then accepted_answer request.response value else ok rejected) b

abbrev pub respond_with :
    Bool
    → Option RequestId
    → Option Bool
    → Option String
    → PairingBroker
    → Result PairingError Bool × PairingBroker
respond_with delivered none accept value b = (err missing_parameter, b)
respond_with delivered (some id) none value b = (err missing_parameter, b)
respond_with delivered (some id) (some accept) value b =
    respond_to delivered accept id value (get id b.pending) b

unfoldable pub respond : Bool → Params → PairingBroker → Result PairingError Bool × PairingBroker
respond delivered p b = respond_with delivered p.request_id p.accept p.value b

-- `fetch_add` on an `AtomicU64`
abbrev pub next_sequence : ℕ → ℕ
next_sequence n = (n + 1) % 2 ^ 64

unfoldable pub insert_request :
    ℕ
    → String
    → String
    → PendingResponse
    → Option String
    → Option String
    → PairingBroker
    → RequestId × PairingBroker
insert_request prompt_timeout kind device_key response value service b =
    let id = pairing b.sequence in
    let event : PairingEvent = record {
      event = "requested";
      request_id = id;
      kind = kind;
      device_key = device_key;
      response_required = true;
      value = value;
      entered = none;
      service = service;
      reason = none;
      timeout_ms = prompt_timeout;
    } in
    (
      id,
      emit event (record b {
        sequence = next_sequence b.sequence;
        pending = insert id (record { response = response; event = event }) b.pending;
      }),
    )

abbrev pub cancel_request :
    RequestId → String → Option PendingRequest → PairingBroker → PairingBroker
cancel_request id reason none b = b
cancel_request id reason (some request) b =
    emit (cancelled_event request.event reason)
      (answer id canceled (record b { pending = remove id b.pending }))

-- Also the `Drop` of a `RequestGuard`, and the end of the timeout.
unfoldable pub cancel_pending : RequestId → String → PairingBroker → PairingBroker
cancel_pending id reason b = cancel_request id reason (get id b.pending) b

-- The loops of `cancel_all`.
abbrev pub finish_all : String → List (RequestId × PendingRequest) → PairingBroker → PairingBroker
finish_all reason [] b = b
finish_all reason ((id, request) ∷ requests) b =
    finish_all reason requests (emit (cancelled_event request.event reason) (answer id canceled b))

abbrev pub emit_all : String → List (RequestId × PairingEvent) → PairingBroker → PairingBroker
emit_all reason [] b = b
emit_all reason ((id, e) ∷ displays) b =
    emit_all reason displays (emit (cancelled_event e reason) b)

unfoldable pub cancel_all : String → PairingBroker → PairingBroker
cancel_all reason b =
    emit_all reason b.displays
      (finish_all reason b.pending (record b { pending = []; displays = [] }))

-- The entries that a new display leaves.
abbrev pub is_other : String → String → PairingEvent → Bool
is_other device_key kind old = not (str_eq old.device_key device_key) || not (str_eq old.kind kind)

unfoldable pub display :
    String → String → String → Option ℕ → PairingBroker → RequestId × PairingBroker
display kind device_key value entered b =
    let id = pairing_display b.sequence in
    let event : PairingEvent = record {
      event = "display";
      request_id = id;
      kind = kind;
      device_key = device_key;
      response_required = false;
      value = some value;
      entered = entered;
      service = none;
      reason = none;
      timeout_ms = 0;
    } in
    (
      id,
      emit event (record b {
        sequence = next_sequence b.sequence;
        displays = insert id event (retain (λ k old. is_other device_key kind old) b.displays);
      }),
    )

-- `PairingBroker::cancelled`, at the end of a display
unfoldable pub cancelled : RequestId → String → String → String → PairingBroker → PairingBroker
cancelled id kind device_key reason b =
    emit
      (record {
        event = "cancelled";
        request_id = id;
        kind = kind;
        device_key = device_key;
        response_required = false;
        value = none;
        entered = none;
        service = none;
        reason = some reason;
        timeout_ms = 0;
      })
      (record b { displays = remove id b.displays })
