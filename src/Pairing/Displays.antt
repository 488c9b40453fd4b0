-- ===== src/Pairing/Displays.antt =====
-- The codes that are shown: one at a time for each device and kind.
use text.Mathlib.TextEquality.{eq_iff}
use bt_daemon.Pairing.Run.{Call, run, apply, prompts, responds, gives_up, shows, hides, stops}
use Prim.Native.String.{String}
use bt_daemon.Base.Map.{Map, insert, remove, retain, get}
use bt_daemon.Pairing.{
  RequestId, id_eq, PairingEvent, is_other, PairingBroker, display, respond, PendingRequest,
  cancel_pending, emit_all, cancelled, finish_all, pairing_display, respond_with, PairingError,
  cancel_all, new_broker, Answer, insert_request, respond_checked,
}
use bt_daemon.Base.{
  ℕ, suc, ◌+◌, ◌≤◌, ◌≡◌, refl, [], ◌∷◌, arith, if◌then◌else◌, Bool-cases, inl, inr, Bool, List,
  Option, Result, false, some, Option-cases, none, err, ok, ◌&&◌, not,
}

-- How many codes of the kind are shown for the device.
abbrev pub shown : String → String → Map RequestId PairingEvent → ℕ
shown key kind [] = 0
shown key kind ((id, e) ∷ displays) =
    let rest = shown key kind displays in if is_other key kind e then rest else suc rest

shown-remove :
    (key kind : String) (id : RequestId) (m : Map RequestId PairingEvent)
    → shown key kind (remove id m) ≤ shown key kind m
unfolding remove
shown-remove key kind id [] = omega arith
shown-remove key kind id ((j, e) ∷ m) = ground (arith, shown-remove key kind id m)

shown-insert :
    (key kind : String) (id : RequestId) (e : PairingEvent) (m : Map RequestId PairingEvent)
    → shown key kind (insert id e m) ≤ (if is_other key kind e then 0 else 1) + shown key kind m
unfolding insert
shown-insert key kind id e [] = ground arith
shown-insert key kind id e ((j, f) ∷ m) = ground (arith, shown-insert key kind id e m)

shown-retain :
    (key kind key2 kind2 : String) (m : Map RequestId PairingEvent)
    → shown key kind (retain (λ k old. is_other key2 kind2 old) m) ≤ shown key kind m
unfolding retain
shown-retain key kind key2 kind2 [] = omega arith
shown-retain key kind key2 kind2 ((j, f) ∷ m) = elim (Bool-cases (is_other key2 kind2 f)) [
  | inl h ↦ let rest = shown-retain key kind key2 kind2 m in rw h (ground arith)
  | inr h ↦ let rest = shown-retain key kind key2 kind2 m in rw h (ground arith)
]

shown-retain_same :
    (key kind : String) (m : Map RequestId PairingEvent)
    → shown key kind (retain (λ k old. is_other key kind old) m) ≡ 0
unfolding retain
shown-retain_same key kind [] = refl
shown-retain_same key kind ((j, f) ∷ m) = elim (Bool-cases (is_other key kind f)) [
  | inl h ↦ rw h (rw h (shown-retain_same key kind m))
  | inr h ↦ rw h (shown-retain_same key kind m)
]

abbrev AreSingle : PairingBroker → Type 0
AreSingle b = (key kind : String) → shown key kind b.displays ≤ 1

display-AreSingle :
    (kind2 key2 value : String) (entered : Option ℕ) (b : PairingBroker)
    → AreSingle b
    → AreSingle (display kind2 key2 value entered b).1
unfolding display
display-AreSingle kind2 key2 value entered b h key kind =
    let id = pairing_display b.sequence in
    let event : PairingEvent = record {
      event = "display";
      request_id = id;
      kind = kind2;
      device_key = key2;
      response_required = false;
      value = some value;
      entered = entered;
      service = none;
      reason = none;
      timeout_ms = 0;
    } in
    let kept = retain (λ k old. is_other key2 kind2 old) b.displays in
    let stored = shown-insert key kind id event kept in
    let before = shown-retain key kind key2 kind2 b.displays in
    let le = h key kind in
    elim (Bool-cases (is_other key kind event)) [
      | inl other ↦
          let bound : shown key kind (insert id event kept) ≤ 0 + shown key kind kept =
            rw other at stored in
          omega arith
      | inr same ↦
          let key_eq : key2 ≡ key = (eq_iff key2 key).0 (ground arith) in
          let kind_eq : kind2 ≡ kind = (eq_iff kind2 kind).0 (ground arith) in
          let gone : shown key kind kept ≡ 0 =
            rw (key_eq, kind_eq) (shown-retain_same key kind b.displays) in
          let bound : shown key kind (insert id event kept) ≤ 1 + shown key kind kept =
            rw same at stored in
          omega arith
    ]

finish_all-displays :
    (reason : String) (held : List (RequestId × PendingRequest)) (b : PairingBroker)
    → (finish_all reason held b).displays ≡ b.displays
finish_all-displays reason [] b = refl
finish_all-displays reason ((id, request) ∷ held) b = finish_all-displays reason held _

emit_all-displays :
    (reason : String) (displays : List (RequestId × PairingEvent)) (b : PairingBroker)
    → (emit_all reason displays b).displays ≡ b.displays
emit_all-displays reason [] b = refl
emit_all-displays reason ((id, e) ∷ displays) b = emit_all-displays reason displays _

respond_checked-displays :
    (delivered accept : Bool) (id : RequestId) (request : PendingRequest)
    (r : Result PairingError Answer) (b : PairingBroker)
    → (respond_checked delivered accept id request r b).1.displays ≡ b.displays
respond_checked-displays delivered accept id request (err e) b = refl
respond_checked-displays delivered accept id request (ok a) b =
    elim (Bool-cases (accept && not delivered)) [ inl h ↦ rw h refl | inr h ↦ rw h refl ]

respond_with-displays :
    (delivered : Bool) (id : Option RequestId) (accept : Option Bool) (value : Option String)
    (b : PairingBroker)
    → (respond_with delivered id accept value b).1.displays ≡ b.displays
respond_with-displays delivered none accept value b = refl
respond_with-displays delivered (some id) none value b = refl
respond_with-displays delivered (some id) (some accept) value b =
    elim (Option-cases (get id b.pending)) [
      | inl h ↦ rw h refl
      | inr (request, h) ↦ rw h (respond_checked-displays delivered accept id request _ b)
    ]

apply-AreSingle : (c : Call) (b : PairingBroker) → AreSingle b → AreSingle (apply c b)
unfolding respond cancel_pending cancelled cancel_all insert_request
apply-AreSingle (prompts timeout kind2 key2 response value service) b h key kind = h key kind
apply-AreSingle (responds delivered p) b h key kind =
    rw (respond_with-displays delivered p.request_id p.accept p.value b) (h key kind)
apply-AreSingle (gives_up id reason) b h key kind = elim (Option-cases (get id b.pending)) [
  | inl found ↦ rw found (h key kind)
  | inr (request, found) ↦ rw found (h key kind)
]
apply-AreSingle (shows kind2 key2 value entered) b h key kind =
    display-AreSingle kind2 key2 value entered b h key kind
apply-AreSingle (hides id kind2 key2 reason) b h key kind =
    let less = shown-remove key kind id b.displays in let le = h key kind in omega arith
apply-AreSingle (stops reason) b h key kind =
    let taken : PairingBroker = record b { pending = []; displays = [] } in
    rw
      (
        emit_all-displays reason b.displays (finish_all reason b.pending taken),
        finish_all-displays reason b.pending taken,
      )
      (omega arith)

run-AreSingle : (calls : List Call) (b : PairingBroker) → AreSingle b → AreSingle (run calls b)
run-AreSingle [] b h = h
run-AreSingle (c ∷ calls) b h = run-AreSingle calls (apply c b) (apply-AreSingle c b h)

-- In any run from the start, at most one code of a kind is shown for a device.
pub run-shown :
    (calls : List Call) (key kind : String) → shown key kind (run calls new_broker).displays ≤ 1
run-shown calls key kind = run-AreSingle calls new_broker (λ k d. omega arith) key kind
