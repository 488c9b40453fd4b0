-- ===== src/Pairing/Input.antt =====
-- What a client may answer: a refused answer leaves the prompt, an accepted one is within bounds.
use Prim.Native.Char.{code}
use Prim.Native.String.{String}
use text.Mathlib.Text.{◌==◌ as str_eq}
use bt_daemon.Base.Map.{get}
use bt_daemon.Pairing.{
  RequestId, id_eq, PendingRequest, PairingBroker, Params, PairingError, Answer, PendingResponse,
  pin, passkey, unit, pin_code, passkey_code, confirmed, pin_value, passkey_value, accepted_answer,
  text_of, chars, all_digits, parse_digits, respond, respond_with, respond_to, respond_checked,
  answered, request_cancelled,
}
use bt_daemon.Base.{
  ℕ, suc, zero, ◌+◌, ◌*◌, ◌≤◌, ◌<◌, Bool, true, false, not, ◌≡◌, ◌≢◌, refl, Option, none, some,
  Result, ok, err, arith, >>=-eq-ok, Bool-cases, ◌-◌, subst, ◌&&◌, inl, inr,
}

-- One above the largest number that `k` more digits make of `n`.
abbrev top : ℕ → ℕ → ℕ
top n zero = n + 1
top n (suc k) = top (n * 10 + 9) k

top_mono : (n m k : ℕ) → n ≤ m → top n k ≤ top m k
top_mono n m zero h = omega arith
top_mono n m (suc k) h = top_mono (n * 10 + 9) (m * 10 + 9) k (omega arith)

top-suc : (n k : ℕ) → top n k ≤ top n (suc k)
top-suc n k = top_mono n (n * 10 + 9) k (omega arith)

-- `k` is at most `k + d`.
top_more : (n k d : ℕ) → top n k ≤ top n (k + d)
top_more n k zero = let same : k + 0 ≡ k = omega arith in rw same (omega arith)
top_more n k (suc d) =
    let less = top_more n k d in
    let more = top-suc n (k + d) in
    let same : k + suc d ≡ suc (k + d) = omega arith in rw same (omega arith)

parse_digits-top : (n : ℕ) (s : String) → all_digits s ≡ true → parse_digits n s < top n (chars s)
parse_digits-top n String.[] h = omega arith
parse_digits-top n (String.◌∷◌ c s) h =
    let (digit, rest) : (code c - 48 ≤ 9) × (all_digits s ≡ true) = (ground arith, ground arith) in
    let next = n * 10 + (code c - 48) in
    let below = parse_digits-top next s rest in
    let within = top_mono next (n * 10 + 9) (chars s) (omega arith) in omega arith

passkey_value-lt : (value : Option String) (n : ℕ) → passkey_value value ≡ ok n → n < 1000000
unfolding passkey_value
passkey_value-lt value n h =
    let passkey = text_of value in
    let short : chars passkey ≤ 6 = ground arith in
    let digits : all_digits passkey ≡ true = ground arith in
    let same : n ≡ parse_digits 0 passkey = ground arith in
    let below = parse_digits-top 0 passkey digits in
    let six : chars passkey + (6 - chars passkey) ≡ 6 = omega arith in
    let within : top 0 (chars passkey) ≤ top 0 6 =
      subst (λ k. top 0 (chars passkey) ≤ top 0 k) six
        (top_more 0 (chars passkey) (6 - chars passkey)) in
    omega arith

some_chars : (s : String) → str_eq s "" ≡ false → 1 ≤ chars s
some_chars String.[] h = absurd cc
some_chars (String.◌∷◌ c s) h = omega arith

pin_value-chars :
    (value : Option String) (s : String) → pin_value value ≡ ok s → (1 ≤ chars s) × (chars s ≤ 16)
unfolding pin_value
pin_value-chars value s h =
    let text = text_of value in
    let some_text : str_eq text "" ≡ false = ground arith in
    let short : chars text ≤ 16 = ground arith in
    let same : s ≡ text = ground arith in rw same (some_chars text some_text, short)

-- What BlueZ may be given for a prompt.
abbrev pub IsAllowed : PendingResponse → Answer → Type 0
IsAllowed pin (pin_code s) = (1 ≤ chars s) × (chars s ≤ 16)
IsAllowed passkey (passkey_code n) = n < 1000000
IsAllowed unit confirmed = Unit {0}
IsAllowed response a = ⊥

-- Whatever a client sends, an accepted answer is of the prompt's kind: a PIN of 1 to 16 characters,
-- a passkey below 1000000, or a confirmation.
pub accepted_answer-IsAllowed :
    (response : PendingResponse) (value : Option String) (a : Answer)
    → accepted_answer response value ≡ ok a
    → IsAllowed response a
unfolding accepted_answer
accepted_answer-IsAllowed pin value a h =
    let (s, valid, e) = >>=-eq-ok (pin_value value) _ h in
    let same : a ≡ pin_code s = cc in rw same (pin_value-chars value s valid)
accepted_answer-IsAllowed passkey value a h =
    let (n, valid, e) = >>=-eq-ok (passkey_value value) _ h in
    let same : a ≡ passkey_code n = cc in rw same (passkey_value-lt value n valid)
accepted_answer-IsAllowed unit value a h = let same : a ≡ confirmed = cc in rw same tt

abbrev Unless : PairingBroker → Result PairingError Bool × PairingBroker → Type 0
Unless b answer = (e : PairingError) → answer.0 ≡ err e → e ≢ request_cancelled → answer.1 ≡ b

answered-Unless :
    (delivered accept : Bool) (id : RequestId) (request : PendingRequest) (a : Answer)
    (b : PairingBroker)
    → Unless b (answered delivered accept id request a b)
answered-Unless delivered accept id request a b e h k =
    elim (Bool-cases (accept && not delivered)) [
      | inl lost ↦
          let same : ◌≡◌ {A = Result PairingError Bool} (err request_cancelled) (err e) =
            rw lost at h in
          let same_error : e ≡ request_cancelled = cc in absurd (k same_error)
      | inr kept ↦
          let done : ◌≡◌ {A = Result PairingError Bool} (ok accept) (err e) = rw kept at h in
          absurd cc
    ]

respond_checked-Unless :
    (delivered accept : Bool) (id : RequestId) (request : PendingRequest)
    (r : Result PairingError Answer) (b : PairingBroker)
    → Unless b (respond_checked delivered accept id request r b)
respond_checked-Unless delivered accept id request (err e2) b e h k = refl
respond_checked-Unless delivered accept id request (ok a) b e h k =
    answered-Unless delivered accept id request a b e h k

respond_to-Unless :
    (delivered accept : Bool) (id : RequestId) (value : Option String) (o : Option PendingRequest)
    (b : PairingBroker)
    → Unless b (respond_to delivered accept id value o b)
respond_to-Unless delivered accept id value none b e h k = refl
respond_to-Unless delivered accept id value (some request) b e h k =
    respond_checked-Unless delivered accept id request _ b e h k

respond_with-Unless :
    (delivered : Bool) (id : Option RequestId) (accept : Option Bool) (value : Option String)
    (b : PairingBroker)
    → Unless b (respond_with delivered id accept value b)
respond_with-Unless delivered none accept value b e h k = refl
respond_with-Unless delivered (some id) none value b e h k = refl
respond_with-Unless delivered (some id) (some accept) value b e h k =
    respond_to-Unless delivered accept id value (get id b.pending) b e h k

-- A response that is refused, unless BlueZ gave the prompt up at that time, changes nothing: the
-- prompt still waits, and can be answered again.
pub respond-refused :
    (delivered : Bool) (p : Params) (b : PairingBroker) (e : PairingError)
    → (respond delivered p b).0 ≡ err e
    → e ≢ request_cancelled
    → (respond delivered p b).1 ≡ b
unfolding respond
respond-refused delivered p b e h k =
    respond_with-Unless delivered p.request_id p.accept p.value b e h k
