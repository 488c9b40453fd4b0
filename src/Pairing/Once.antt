-- ===== src/Pairing/Once.antt =====
-- Every prompt that was requested waits, or has been answered once.
use text.Mathlib.Text.{◌==◌ as str_eq}
use bt_daemon.Base.Map.{Map, get, insert, remove}
use bt_daemon.Pairing.{
  RequestId, id_eq, id_beq, id_beq_iff, PairingEvent, PendingRequest, Answer, PairingBroker, String,
  cancel_all, cancel_pending, PairingError, answer, answered, emit, emit_all, finish_all, pairing,
  respond_with, canceled, cancelled_event, respond_checked,
}
use bt_daemon.Base.{
  ℕ, suc, ◌+◌, ◌≤◌, Bool, ◌&&◌, ◌≡◌, List, [], ◌∷◌, ◌++◌, some, if◌then◌else◌, arith, Option,
  Result, false, Option-cases, Bool-cases, inl, ◌∙◌, err, inr, not, refl, subst, none, ok,
}

abbrev pub is_request : RequestId → PairingEvent → Bool
is_request id e = str_eq e.event "requested" && id_beq e.request_id id

-- How often a prompt was announced, how often it was answered, and how often it waits.
abbrev pub requests : RequestId → List PairingEvent → ℕ
requests id [] = 0
requests id (e ∷ events) =
    let rest = requests id events in if is_request id e then suc rest else rest

abbrev pub times : RequestId → List (RequestId × Answer) → ℕ
times id [] = 0
times id ((j, a) ∷ answers) = let rest = times id answers in if id_beq j id then suc rest else rest

abbrev pub waiting : RequestId → Map RequestId PendingRequest → ℕ
waiting id [] = 0
waiting id ((j, request) ∷ pending) =
    let rest = waiting id pending in if id_beq j id then suc rest else rest

pub requests-append :
    (id : RequestId) (xs ys : List PairingEvent)
    → requests id (xs ++ ys) ≡ requests id xs + requests id ys
requests-append id [] ys = omega arith
requests-append id (e ∷ xs) ys = ground (arith, requests-append id xs ys)

times-append :
    (id : RequestId) (xs ys : List (RequestId × Answer))
    → times id (xs ++ ys) ≡ times id xs + times id ys
times-append id [] ys = omega arith
times-append id ((j, a) ∷ xs) ys = ground (arith, times-append id xs ys)

waiting-remove :
    (id j : RequestId) (m : Map RequestId PendingRequest)
    → waiting j (remove id m) ≡ (if id_beq id j then 0 else waiting j m)
unfolding remove
waiting-remove id j [] = ground arith
waiting-remove id j ((i, r) ∷ m) =
    ground (arith, id_beq_iff id j, id_beq_iff i id, id_beq_iff i j, waiting-remove id j m)

pub waiting-insert :
    (id j : RequestId) (r : PendingRequest) (m : Map RequestId PendingRequest)
    → waiting id m ≡ 0
    → waiting j (insert id r m) ≡ (if id_beq id j then 1 else 0) + waiting j m
unfolding insert
waiting-insert id j r [] h = ground arith
waiting-insert id j r ((i, s) ∷ m) h =
    ground (arith, id_beq_iff id j, id_beq_iff i id, id_beq_iff i j, waiting-insert id j r m)

waiting-get :
    (id : RequestId) (r : PendingRequest) (m : Map RequestId PendingRequest)
    → get id m ≡ some r
    → 1 ≤ waiting id m
unfolding get
waiting-get id r [] h = absurd cc
waiting-get id r ((i, s) ∷ m) h = ground (arith, waiting-get id r m)

-- The prompts in `held` were taken out of the broker and are not answered yet.
pub record IsCounted (held : List (RequestId × PendingRequest)) (b : PairingBroker) : Type 0 where
  pub balanced :
      (id : RequestId)
      → requests id b.emitted ≡ waiting id held + (waiting id b.pending + times id b.answers)
  pub once : (id : RequestId) → requests id b.emitted ≤ 1
  pub fresh : (n : ℕ) → b.sequence ≤ n → requests (pairing n) b.emitted ≡ 0

abbrev pub IsQuiet : PairingEvent → Type 0
IsQuiet e = str_eq e.event "requested" ≡ false

requests-emit :
    (id : RequestId) (e : PairingEvent) (b : PairingBroker)
    → IsQuiet e
    → requests id (emit e b).emitted ≡ requests id b.emitted
requests-emit id e b h = rw (requests-append id b.emitted (e ∷ []), h) (omega arith)

pub emit-IsCounted :
    (held : List (RequestId × PendingRequest)) (e : PairingEvent) (b : PairingBroker)
    → IsQuiet e
    → IsCounted held b
    → IsCounted held (emit e b)
emit-IsCounted held e b quiet h = record {
  balanced = λ id. requests-emit id e b quiet ∙ h.balanced id;
  once = λ id. let same = requests-emit id e b quiet in let le = h.once id in omega arith;
  fresh = λ n above. requests-emit (pairing n) e b quiet ∙ h.fresh n above;
}

times-answer :
    (id j : RequestId) (a : Answer) (b : PairingBroker)
    → times j (answer id a b).answers ≡ times j b.answers + (if id_beq id j then 1 else 0)
times-answer id j a b = ground (arith, times-append j b.answers ((id, a) ∷ []))

answer-IsCounted :
    (id : RequestId) (a : Answer) (b : PairingBroker)
    → 1 ≤ waiting id b.pending
    → IsCounted [] b
    → IsCounted [] (answer id a (record b { pending = remove id b.pending }))
answer-IsCounted id a b present h = record {
  balanced = λ j.
      let removed = waiting-remove id j b.pending in
      let sent = times-answer id j a b in
      let before = h.balanced j in
      let le = h.once j in
      elim (Bool-cases (id_beq id j)) [
        | inl same ↦
            let here : 1 ≤ waiting j b.pending =
              subst (λ x. 1 ≤ waiting x b.pending) ((id_beq_iff id j).0 same) present in
            ground arith
        | inr other ↦ ground arith
      ];
  once = h.once;
  fresh = h.fresh;
}

finish_all-IsCounted :
    (reason : String) (held : List (RequestId × PendingRequest)) (b : PairingBroker)
    → IsCounted held b
    → IsCounted [] (finish_all reason held b)
finish_all-IsCounted reason [] b h = h
finish_all-IsCounted reason ((id, request) ∷ held) b h =
    let sent : IsCounted held (answer id canceled b) = record {
      balanced = λ j.
          let before = h.balanced j in let after = times-answer id j canceled b in ground arith;
      once = h.once;
      fresh = h.fresh;
    } in
    finish_all-IsCounted reason held
      (emit (cancelled_event request.event reason) (answer id canceled b))
      (emit-IsCounted held (cancelled_event request.event reason) (answer id canceled b) refl sent)

emit_all-IsCounted :
    (reason : String) (displays : List (RequestId × PairingEvent)) (b : PairingBroker)
    → IsCounted [] b
    → IsCounted [] (emit_all reason displays b)
emit_all-IsCounted reason [] b h = h
emit_all-IsCounted reason ((id, e) ∷ displays) b h =
    emit_all-IsCounted reason displays (emit (cancelled_event e reason) b)
      (emit-IsCounted [] (cancelled_event e reason) b refl h)

pub cancel_all-IsCounted :
    (reason : String) (b : PairingBroker) → IsCounted [] b → IsCounted [] (cancel_all reason b)
unfolding cancel_all
cancel_all-IsCounted reason b h =
    let taken : PairingBroker = record b { pending = []; displays = [] } in
    let held : IsCounted b.pending taken = record {
      balanced = λ j. let before = h.balanced j in omega arith;
      once = h.once;
      fresh = h.fresh;
    } in
    emit_all-IsCounted reason b.displays (finish_all reason b.pending taken)
      (finish_all-IsCounted reason b.pending taken held)

pub cancel_pending-IsCounted :
    (id : RequestId) (reason : String) (b : PairingBroker)
    → IsCounted [] b
    → IsCounted [] (cancel_pending id reason b)
unfolding cancel_pending
cancel_pending-IsCounted id reason b h = elim (Option-cases (get id b.pending)) [
  | inl none_here ↦ rw none_here h
  | inr (request, found) ↦
      let sent = answer-IsCounted id canceled b (waiting-get id request b.pending found) h in
      rw found (
        emit-IsCounted [] (cancelled_event request.event reason)
          (answer id canceled (record b { pending = remove id b.pending })) refl sent)
]

answered-IsCounted :
    (delivered accept : Bool) (id : RequestId) (request : PendingRequest) (a : Answer)
    (b : PairingBroker)
    → 1 ≤ waiting id b.pending
    → IsCounted [] b
    → IsCounted [] (answered delivered accept id request a b).1
answered-IsCounted delivered accept id request a b present h =
    let sent = answer-IsCounted id a b present h in
    elim (Bool-cases (accept && not delivered)) [
      | inl lost ↦ rw lost sent
      | inr kept ↦ rw kept (emit-IsCounted [] _ _ refl sent)
    ]

respond_checked-IsCounted :
    (delivered accept : Bool) (id : RequestId) (request : PendingRequest)
    (r : Result PairingError Answer) (b : PairingBroker)
    → 1 ≤ waiting id b.pending
    → IsCounted [] b
    → IsCounted [] (respond_checked delivered accept id request r b).1
respond_checked-IsCounted delivered accept id request (err e) b present h = h
respond_checked-IsCounted delivered accept id request (ok a) b present h =
    answered-IsCounted delivered accept id request a b present h

pub respond_with-IsCounted :
    (delivered : Bool) (id : Option RequestId) (accept : Option Bool) (value : Option String)
    (b : PairingBroker)
    → IsCounted [] b
    → IsCounted [] (respond_with delivered id accept value b).1
respond_with-IsCounted delivered none accept value b h = h
respond_with-IsCounted delivered (some id) none value b h = h
respond_with-IsCounted delivered (some id) (some accept) value b h =
    elim (Option-cases (get id b.pending)) [
      | inl none_here ↦ rw none_here h
      | inr (request, found) ↦ rw found (
          respond_checked-IsCounted delivered accept id request _ b
            (waiting-get id request b.pending found) h)
    ]
