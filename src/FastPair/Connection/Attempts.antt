-- ===== src/FastPair/Connection/Attempts.antt =====
-- What each operation does to the links: a connection that is up is never lost to another attempt.
use bt_daemon.Base.Equality.{nat_eq}
use bt_daemon.Base.Map.{get, get-insert, get-remove, contains_key, contains_key-get, remove}
use bt_daemon.FastPair.Connection.{
  ConnectionState, MessageStreamTransport, is_connected, is_connecting, is_stale, is_attempt,
  connecting, connected_at, expire, begin, is_refused, start, note_connection_change,
  connection_failed, is_current_attempt, mark_connected, connect_completed, ended, LinkState,
}
use bt_daemon.Base.{
  ℕ, Bool, true, false, ◌≡◌, arith, Option, some, none, refl, if◌then◌else◌, ◌==◌, Bool-cases, not,
  inl, ◌&&◌, inr, is_some, ◌∙◌, sym, ◌+◌, ◌%◌, ◌^◌,
}

-- Whether a reader may be running for the peer `j`.
abbrev pub up : ℕ → ConnectionState → Bool
up j s = is_connected (get j s.links)

abbrev IsDown : Option LinkState → Type 0
IsDown l = is_connected l ≡ false

stale-IsDown : (now : ℕ) (l : Option LinkState) → is_stale now l ≡ true → IsDown l
stale-IsDown now none h = refl
stale-IsDown now (some (connecting attempt started)) h = refl
stale-IsDown now (some (connected_at began)) h = cc

connecting-IsDown : (l : Option LinkState) → is_connecting l ≡ true → IsDown l
connecting-IsDown none h = refl
connecting-IsDown (some (connecting attempt started)) h = refl
connecting-IsDown (some (connected_at began)) h = cc

attempt-IsDown : (attempt : ℕ) (l : Option LinkState) → is_attempt attempt l ≡ true → IsDown l
attempt-IsDown attempt none h = refl
attempt-IsDown attempt (some (connecting a started)) h = refl
attempt-IsDown attempt (some (connected_at began)) h = cc

up-remove :
    (address j : ℕ) (s : ConnectionState)
    → IsDown (get address s.links)
    → is_connected (get j (remove address s.links)) ≡ up j s
up-remove address j s h = ground (arith, get-remove address j s.links)

pub up-expire :
    (now random address j : ℕ) (s : ConnectionState) → up j (expire now random address s) ≡ up j s
unfolding expire
up-expire now random address j s = elim (Bool-cases (is_stale now (get address s.links))) [
  | inl h ↦ rw h (up-remove address j s (stale-IsDown now (get address s.links) h))
  | inr h ↦ rw h refl
]

none-IsDown : (l : Option LinkState) → is_some l ≡ false → IsDown l
none-IsDown none h = refl
none-IsDown (some l) h = cc

up-start :
    (now address j : ℕ) (s : ConnectionState)
    → contains_key address s.links ≡ false
    → up j (start now address s).1 ≡ up j s
up-start now address j s h =
    let free : is_some (get address s.links) ≡ false = sym (contains_key-get address s.links) ∙ h in
    let before = none-IsDown (get address s.links) free in
    ground (arith, get-insert address j (connecting ((s.next_attempt + 1) % 2 ^ 64) now) s.links)

pub up-begin :
    (now random address j : ℕ) (transport : MessageStreamTransport) (s : ConnectionState)
    → up j (begin now random address transport s).1 ≡ up j s
unfolding begin
up-begin now random address j transport s =
    let fresh = expire now random address s in
    elim (Bool-cases (is_refused now address transport fresh)) [
      | inl h ↦ rw h (up-expire now random address j s)
      | inr h ↦
          rw h (up-start now address j fresh (ground arith) ∙ up-expire now random address j s)
    ]

pub up-note_connection_change :
    (address j : ℕ) (is_now : Bool) (s : ConnectionState)
    → up j (note_connection_change address is_now s) ≡ up j s
unfolding note_connection_change
up-note_connection_change address j is_now s =
    elim (Bool-cases (not is_now && is_connecting (get address s.links))) [
      | inl h ↦
          rw h (up-remove address j s (connecting-IsDown (get address s.links) (ground arith)))
      | inr h ↦ rw h refl
    ]

pub up-connection_failed :
    (now random : ℕ) (busy : Bool) (address attempt j : ℕ) (s : ConnectionState)
    → up j (connection_failed now random busy address attempt s) ≡ up j s
unfolding connection_failed is_current_attempt
up-connection_failed now random busy address attempt j s =
    elim (Bool-cases (is_attempt attempt (get address s.links))) [
      | inl h ↦ rw h (up-remove address j s (attempt-IsDown attempt (get address s.links) h))
      | inr h ↦ rw h refl
    ]

-- A connection comes up only where none is, and then only for that peer.
pub up-mark_connected :
    (now address j : ℕ) (s : ConnectionState)
    → ((mark_connected now address s).0 ≡ not (up address s))
      × (up j (mark_connected now address s).1 ≡ (if address == j then true else up j s))
unfolding mark_connected
up-mark_connected now address j s = ground (arith, get-insert address j (connected_at now) s.links)

pub up-ended :
    (now random address j : ℕ) (s : ConnectionState)
    → up j (ended now random address s) ≡ (if address == j then false else up j s)
unfolding ended
up-ended now random address j s = ground (arith, get-remove address j s.links)

pub up-connect_completed :
    (now address attempt j : ℕ) (s : ConnectionState)
    → up j (connect_completed now address attempt s).1
      ≡ (if (connect_completed now address attempt s).0 && address == j then true else up j s)
unfolding connect_completed is_current_attempt
up-connect_completed now address attempt j s =
    elim (Bool-cases (is_attempt attempt (get address s.links))) [
      | inl h ↦
          let before = attempt-IsDown attempt (get address s.links) h in
          let (answer, after) = up-mark_connected now address j s in
          rw (h, answer, before, after) refl
      | inr h ↦ rw h refl
    ]

pub connect_completed-up :
    (now address attempt : ℕ) (s : ConnectionState)
    → (connect_completed now address attempt s).0 ≡ true
    → up address s ≡ false
unfolding connect_completed is_current_attempt
connect_completed-up now address attempt s h =
    elim (Bool-cases (is_attempt attempt (get address s.links))) [
      | inl k ↦ attempt-IsDown attempt (get address s.links) k
      | inr k ↦ let no : false ≡ true = rw k at h in absurd cc
    ]

pub mark_connected-up :
    (now address : ℕ) (s : ConnectionState)
    → (mark_connected now address s).0 ≡ true
    → up address s ≡ false
unfolding mark_connected
mark_connected-up now address s h = ground arith

pub up-mark_connected_if :
    (now address j : ℕ) (s : ConnectionState)
    → up j (mark_connected now address s).1
      ≡ (if (mark_connected now address s).0 && address == j then true else up j s)
unfolding mark_connected
up-mark_connected_if now address j s =
    ground (arith, get-insert address j (connected_at now) s.links)
