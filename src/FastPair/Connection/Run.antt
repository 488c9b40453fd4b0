-- ===== src/FastPair/Connection/Run.antt =====
-- The connection state together with the tasks that read the streams, in any interleaving.
use bt_daemon.Base.Map.{get}
use bt_daemon.Base.Equality.{nat_eq}
use bt_daemon.FastPair.Connection.{
  ConnectionState, MessageStreamTransport, begin, note_connection_change, connection_failed,
  mark_connected, connect_completed, ended, default, get,
}
use bt_daemon.FastPair.Connection.Attempts.{
  up, up-begin, up-note_connection_change, up-connection_failed, up-ended, up-connect_completed,
  connect_completed-up, mark_connected-up, up-mark_connected_if,
}
use bt_daemon.FastPair.Retry.{RetryPolicy}
use bt_daemon.Base.{
  ℕ, suc, ◌+◌, ◌≤◌, Bool, true, false, ◌≡◌, arith, refl, if◌then◌else◌, ◌==◌, List, [], ◌∷◌, ◌&&◌,
  ◌∙◌, Bool-cases, inl, subst, inr,
}

-- The daemon's view of its connections, the peers whose streams are being read, one entry for each
-- task, and those whose request the profile handler has let in and not accepted yet.
pub record World : Type 0 where
  pub state : ConnectionState
  pub readers : List ℕ
  pub accepting : List ℕ

abbrev pub count : ℕ → List ℕ → ℕ
count j [] = 0
count j (address ∷ readers) = let rest = count j readers in if address == j then suc rest else rest

abbrev pub remove_one : ℕ → List ℕ → List ℕ
remove_one j [] = []
remove_one j (address ∷ readers) =
    let rest = remove_one j readers in if address == j then readers else address ∷ rest

-- `spawn_reader` when the state lets the new stream in, else the stream is dropped.
abbrev pub admitted : ℕ → Bool × ConnectionState → World → World
admitted address (true, state) w = record w { state = state; readers = address ∷ w.readers }
admitted address (false, state) w = record w { state = state }

-- A request goes on to `accept` when the state lets the peer in, else it is rejected.
abbrev pub offered : ℕ → Bool × ConnectionState → World → World
offered address (true, state) w = record w { state = state; accepting = address ∷ w.accepting }
offered address (false, state) w = record w { state = state }

-- What the tasks of `FastPairBatteryProvider` do to the connections: `ensure_connected` begins an
-- attempt and reports its end, the profile handler takes a request and then either gets its stream
-- or an error, the adapter's events and `reconcile_device` note changes, workers schedule retries,
-- and a reader that is running ends.
pub data Step (w : World) : World → Type 0 where
  begins :
      (now random address : ℕ) (transport : MessageStreamTransport)
      → Step w (record w { state = (begin now random address transport w.state).1 })
  completes :
      (now address attempt : ℕ)
      → Step w (admitted address (connect_completed now address attempt w.state) w)
  requested : (now address : ℕ) → Step w (offered address (mark_connected now address w.state) w)
  accepts :
      (address : ℕ)
      → 1 ≤ count address w.accepting
      → Step w
          (record w { readers = address ∷ w.readers; accepting = remove_one address w.accepting })
  refuses :
      (now random address : ℕ)
      → 1 ≤ count address w.accepting
      → Step w (record w {
        state = ended now random address w.state;
        accepting = remove_one address w.accepting;
      })
  fails :
      (now random : ℕ) (busy : Bool) (address attempt : ℕ)
      → Step w (record w { state = connection_failed now random busy address attempt w.state })
  notes :
      (address : ℕ) (is_now : Bool)
      → Step w (record w { state = note_connection_change address is_now w.state })
  schedules :
      (retry : RetryPolicy) → Step w (record w { state = record (w.state) { retry = retry } })
  ends :
      (now random address : ℕ)
      → 1 ≤ count address w.readers
      → Step w (record w {
        state = ended now random address w.state;
        readers = remove_one address w.readers;
      })

pub data Reach : World → Type 0 where
  here : Reach (record { state = default; readers = []; accepting = [] })
  next : {v w : World} → Reach v → Step v w → Reach w

-- A peer whose link is up is held by one task, its reader or the handler that accepts its request,
-- and by none otherwise.
abbrev pub IsExclusive : World → Type 0
IsExclusive w = (j : ℕ) → count j w.readers + count j w.accepting ≡ (if up j w.state then 1 else 0)

count-remove_one :
    (address j : ℕ) (readers : List ℕ)
    → 1 ≤ count address readers
    → (if address == j then 1 else 0) + count j (remove_one address readers) ≡ count j readers
count-remove_one address j [] h = absurd (omega arith)
count-remove_one address j (x ∷ readers) h = ground (arith, count-remove_one address j readers)

-- One more task holds the peer where none did.
enter-IsExclusive :
    (address : ℕ) (after : ConnectionState) (v : World)
    → IsExclusive v
    → up address v.state ≡ false
    → ((j : ℕ) → up j after ≡ (if address == j then true else up j v.state))
    → (j : ℕ)
    → (if address == j then 1 else 0) + (count j v.readers + count j v.accepting)
      ≡ (if up j after then 1 else 0)
enter-IsExclusive address after v h before changed j =
    let none_here : count address v.readers + count address v.accepting ≡ 0 =
      h address ∙ rw before refl in
    elim (Bool-cases (address == j)) [
      | inl same ↦
          let same_eq : address ≡ j = ground arith in
          let none_there : count j v.readers + count j v.accepting ≡ 0 =
            subst (λ x. count x v.readers + count x v.accepting ≡ 0) same_eq none_here in
          rw (changed j, same, none_there) refl
      | inr other ↦ rw (changed j, other) (let e = h j in omega arith)
    ]

admitted-IsExclusive :
    (address : ℕ) (answer : Bool × ConnectionState) (v : World)
    → IsExclusive v
    → (answer.0 ≡ true → up address v.state ≡ false)
    → ((j : ℕ) → up j answer.1 ≡ (if answer.0 && address == j then true else up j v.state))
    → IsExclusive (admitted address answer v)
admitted-IsExclusive address (false, state) v h free after j = rw (after j) (h j)
admitted-IsExclusive address (true, state) v h free after j =
    let entered = enter-IsExclusive address state v h (free refl) after j in ground arith

offered-IsExclusive :
    (address : ℕ) (answer : Bool × ConnectionState) (v : World)
    → IsExclusive v
    → (answer.0 ≡ true → up address v.state ≡ false)
    → ((j : ℕ) → up j answer.1 ≡ (if answer.0 && address == j then true else up j v.state))
    → IsExclusive (offered address answer v)
offered-IsExclusive address (false, state) v h free after j = rw (after j) (h j)
offered-IsExclusive address (true, state) v h free after j =
    let entered = enter-IsExclusive address state v h (free refl) after j in ground arith

-- The task that held the peer gives it up.
leave-IsExclusive :
    (now random address : ℕ) (v : World) (others rest : List ℕ) (j : ℕ)
    → IsExclusive v
    → 1 ≤ count address rest
    → count j others + count j rest ≡ count j v.readers + count j v.accepting
    → count j others + count j (remove_one address rest)
      ≡ (if up j (ended now random address v.state) then 1 else 0)
leave-IsExclusive now random address v others rest j h running total =
    rw (up-ended now random address j v.state) (
      let removed = count-remove_one address j rest running in
      let counted : count j v.readers + count j v.accepting ≡ (if up j v.state then 1 else 0) =
        h j in
      ground arith)

Step-IsExclusive : {v w : World} → Step v w → IsExclusive v → IsExclusive w
Step-IsExclusive {v} (begins now random address transport) h j =
    rw (up-begin now random address j transport v.state) (h j)
Step-IsExclusive {v} (completes now address attempt) h j =
    admitted-IsExclusive address (connect_completed now address attempt v.state) v h
      (connect_completed-up now address attempt v.state)
      (λ i. up-connect_completed now address attempt i v.state) j
Step-IsExclusive {v} (requested now address) h j =
    offered-IsExclusive address (mark_connected now address v.state) v h
      (λ is_new. mark_connected-up now address v.state is_new)
      (λ i. up-mark_connected_if now address i v.state) j
Step-IsExclusive {v} (accepts address held) h j =
    let removed = count-remove_one address j v.accepting held in
    let counted : count j v.readers + count j v.accepting ≡ (if up j v.state then 1 else 0) = h j in
    ground arith
Step-IsExclusive {v} (refuses now random address held) h j =
    leave-IsExclusive now random address v v.readers v.accepting j h held refl
Step-IsExclusive {v} (fails now random busy address attempt) h j =
    rw (up-connection_failed now random busy address attempt j v.state) (h j)
Step-IsExclusive {v} (notes address is_now) h j =
    rw (up-note_connection_change address j is_now v.state) (h j)
Step-IsExclusive {v} (schedules retry) h j = h j
Step-IsExclusive {v} (ends now random address running) h j =
    let left =
      leave-IsExclusive now random address v v.accepting v.readers j h running (omega arith) in
    omega arith

-- In every interleaving of connection attempts, requests that are let in and then accepted or not,
-- failures, adapter events, retries and readers that end, from the start of the daemon: a peer whose
-- link is up is held by one task, which reads its stream or is accepting it, and any other peer by
-- none.
pub Reach-IsExclusive :
    {w : World} (j : ℕ)
    → Reach w
    → count j w.readers + count j w.accepting ≡ (if up j w.state then 1 else 0)
Reach-IsExclusive j here = unfold get in refl
Reach-IsExclusive j (next r s) = Step-IsExclusive s (λ i. Reach-IsExclusive i r) j
