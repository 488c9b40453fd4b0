-- ===== src/FastPair/Connection/Numbers.antt =====
-- The numbers of the attempts: what an attempt reports after a later one has begun is ignored.
use bt_daemon.Base.Equality.{nat_eq}
use bt_daemon.Base.Map.{get, get-insert, insert}
use bt_daemon.FastPair.Connection.{
  ConnectionState, MessageStreamTransport, is_stale, connecting, expire, begin, is_refused, start,
  note_connection_change, connection_failed, is_current_attempt, mark_connected, connect_completed,
  ended, is_connecting,
}
use bt_daemon.FastPair.Connection.Run.{
  World, Step, admitted, offered, begins, completes, requested, accepts, refuses, fails, notes,
  schedules, ends,
}
use bt_daemon.Base.{
  ℕ, suc, ◌+◌, ◌≤◌, ◌<◌, ◌^◌, Bool, true, false, ◌≡◌, arith, refl, ◌==◌, Bool-cases, some, ◌%◌, inl,
  inr, not, ◌&&◌, Option, none, ap, List, subst, ◌∙◌, ◌⊎◌,
}

-- `n` steps, in order.
pub data Steps : ℕ → World → World → Type 0 where
  here : {w : World} → Steps 0 w w
  next : {n : ℕ} {u v w : World} → Steps n u v → Step v w → Steps (suc n) u w

expire-next_attempt :
    (now random address : ℕ) (s : ConnectionState)
    → (expire now random address s).next_attempt ≡ s.next_attempt
unfolding expire
expire-next_attempt now random address s = elim (Bool-cases (is_stale now (get address s.links))) [
  | inl h ↦ rw h refl
  | inr h ↦ rw h refl
]

-- What one step makes of the counter.
abbrev IsStepped : ℕ → ℕ → Type 0
IsStepped before after = (after ≡ before) ⊎ (after ≡ (before + 1) % 2 ^ 64)

begin-IsStepped :
    (now random address : ℕ) (transport : MessageStreamTransport) (s : ConnectionState)
    → IsStepped s.next_attempt (begin now random address transport s).1.next_attempt
unfolding begin
begin-IsStepped now random address transport s =
    let fresh = expire now random address s in
    let same = expire-next_attempt now random address s in
    elim (Bool-cases (is_refused now address transport fresh)) [
      | inl k ↦ rw (k, same) (inl refl)
      | inr k ↦ rw (k, same) (inr refl)
    ]

mark_connected-next_attempt :
    (now address : ℕ) (s : ConnectionState)
    → (mark_connected now address s).1.next_attempt ≡ s.next_attempt
unfolding mark_connected
mark_connected-next_attempt now address s = ground arith

connect_completed-next_attempt :
    (now address attempt : ℕ) (s : ConnectionState)
    → (connect_completed now address attempt s).1.next_attempt ≡ s.next_attempt
unfolding connect_completed
connect_completed-next_attempt now address attempt s =
    elim (Bool-cases (is_current_attempt address attempt s)) [
      | inl h ↦ rw h (mark_connected-next_attempt now address s)
      | inr h ↦ rw h refl
    ]

admitted-state :
    (address : ℕ) (answer : Bool × ConnectionState) (w : World)
    → (admitted address answer w).state ≡ answer.1
admitted-state address (true, state) w = refl
admitted-state address (false, state) w = refl

offered-state :
    (address : ℕ) (answer : Bool × ConnectionState) (w : World)
    → (offered address answer w).state ≡ answer.1
offered-state address (true, state) w = refl
offered-state address (false, state) w = refl

Step-IsStepped : {v w : World} → Step v w → IsStepped v.state.next_attempt w.state.next_attempt
unfolding note_connection_change connection_failed ended
Step-IsStepped {v} (begins now random address transport) =
    begin-IsStepped now random address transport v.state
Step-IsStepped {v} (completes now address attempt) =
    let answer = connect_completed now address attempt v.state in
    rw (admitted-state address answer v)
      (inl (connect_completed-next_attempt now address attempt v.state))
Step-IsStepped {v} (requested now address) =
    let answer = mark_connected now address v.state in
    rw (offered-state address answer v) (inl (mark_connected-next_attempt now address v.state))
Step-IsStepped (accepts address held) = inl refl
Step-IsStepped (refuses now random address held) = inl refl
Step-IsStepped {v} (fails now random busy address attempt) =
    elim (Bool-cases (is_current_attempt address attempt v.state)) [
      | inl k ↦ rw k (inl refl)
      | inr k ↦ rw k (inl refl)
    ]
Step-IsStepped {v} (notes address is_now) =
    elim (Bool-cases (not is_now && is_connecting (get address v.state.links))) [
      | inl k ↦ rw k (inl refl)
      | inr k ↦ rw k (inl refl)
    ]
Step-IsStepped (schedules retry) = inl refl
Step-IsStepped (ends now random address running) = inl refl

-- The counter after at most `n` steps, wrap-around included.
abbrev IsShifted : ℕ → ℕ → ℕ → Type 0
IsShifted n before after = (k : ℕ) × (k ≤ n) × (after ≡ (before + k) % 2 ^ 64)

shift : (n a b c : ℕ) → IsShifted n a b → IsStepped b c → IsShifted (suc n) a c
shift n a b c (k, le, e) (inl same) = (k, omega arith, omega arith)
shift n a b c (k, le, e) (inr more) = (suc k, omega arith, omega arith)

Steps-IsShifted :
    {n : ℕ} {v w : World}
    → Steps n v w
    → v.state.next_attempt < 2 ^ 64
    → IsShifted n v.state.next_attempt w.state.next_attempt
Steps-IsShifted here h = (0, omega arith, omega arith)
Steps-IsShifted {v} {w} (next {n} {v = u} run step) h =
    shift n v.state.next_attempt u.state.next_attempt w.state.next_attempt (Steps-IsShifted run h)
      (Step-IsStepped step)

-- What a state is in which `begin` gave the attempt.
abbrev HasBegun : ℕ → ℕ → ℕ → ConnectionState → ConnectionState → Type 0
HasBegun now address attempt s t =
    (attempt ≡ t.next_attempt)
    × (t.next_attempt ≡ (s.next_attempt + 1) % 2 ^ 64)
    × (get address t.links ≡ some (connecting attempt now))

start-HasBegun :
    (now address : ℕ) (s : ConnectionState)
    → HasBegun now address ((s.next_attempt + 1) % 2 ^ 64) s (start now address s).1
start-HasBegun now address s =
    let attempt = (s.next_attempt + 1) % 2 ^ 64 in
    let found : get address (insert address (connecting attempt now) s.links)
        ≡ some (connecting attempt now) =
      ground (arith, get-insert address address (connecting attempt now) s.links) in
    (refl, refl, found)

pub begin-HasBegun :
    (now random address attempt : ℕ) (transport : MessageStreamTransport) (s t : ConnectionState)
    → begin now random address transport s ≡ (some attempt, t)
    → HasBegun now address attempt s t
unfolding begin
begin-HasBegun now random address attempt transport s t h =
    let fresh = expire now random address s in
    elim (Bool-cases (is_refused now address transport fresh)) [
      | inl k ↦
          let refused : ◌≡◌ {A = Option ℕ × ConnectionState} (none, fresh) (some attempt, t) =
            rw k at h in
          absurd cc
      | inr k ↦
          let started : start now address fresh ≡ (some attempt, t) = rw k at h in
          let number : (fresh.next_attempt + 1) % 2 ^ 64 ≡ attempt = cc in
          let state : (start now address fresh).1 ≡ t = ap (λ p. p.1) started in
          let same = expire-next_attempt now random address s in
          let (first, second, third) =
            subst (λ u. HasBegun now address attempt fresh u) state
              (subst (λ n. HasBegun now address n fresh (start now address fresh).1) number
                (start-HasBegun now address fresh)) in
          (first, second ∙ ap (λ n. (n + 1) % 2 ^ 64) same, third)
    ]

-- An attempt at a peer that began in state `s`, then fewer than 2^64 - 1 steps of any kind, whose
-- numbers may wrap around, and then an attempt that begins at the same peer: when the older one reports that it completed, or that it
-- failed, the report is refused and the state stays as it is.
pub begin-superseded :
    (now random address old : ℕ) (transport : MessageStreamTransport) (s t : ConnectionState)
    (readers accepting : List ℕ) (n : ℕ) (w : World) (now2 random2 new : ℕ)
    (transport2 : MessageStreamTransport) (u : ConnectionState) (now3 random3 : ℕ) (busy : Bool)
    → begin now random address transport s ≡ (some old, t)
    → Steps n (record { state = t; readers = readers; accepting = accepting }) w
    → n + 1 < 2 ^ 64
    → begin now2 random2 address transport2 w.state ≡ (some new, u)
    → (connect_completed now3 address old u ≡ (false, u))
      × (connection_failed now3 random3 busy address old u ≡ u)
unfolding connect_completed connection_failed is_current_attempt
begin-superseded now random address old transport s t readers accepting n w now2 random2 new
      transport2 u now3 random3 busy began run small again =
    let (old_eq, old_value, _) = begin-HasBegun now random address old transport s t began in
    let (new_eq, next_eq, link) =
      begin-HasBegun now2 random2 address new transport2 w.state u again in
    let (k, few, shifted) = Steps-IsShifted {w = w} run (omega arith) in
    let other : (new == old) ≡ false = ground arith in rw (link, other) (refl, refl)
