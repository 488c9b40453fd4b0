-- ===== src/Obex/Monitoring.antt =====
-- What the monitoring of a transfer tells, and when it ends.
use text.Mathlib.Text.{◌==◌ as str_eq}
use bt_daemon.Obex.{
  TransferUpdate, Signal, Monitored, cancels, changes, foreign, ends, terminal, finish, before,
  on_signal, monitor_loop, monitor_transfer, apply_values, Properties, ObexError, on_properties,
  garbled, watch_failed, cancel_failed, signal_failed, stream_ended, transfer_failed,
}
use bt_daemon.Base.{
  true, false, ◌≡◌, List, [], ◌∷◌, Option, none, some, ok, err, Bool-cases, inl, inr, Result, All,
  ap, ◌++◌, refl,
}

-- What the outcome says of the last update. Without an outcome the transfer runs on; an error other
-- than the transfer's own ends the monitoring of one that runs.
abbrev pub IsOutcome : TransferUpdate → Option (Result ObexError (Unit {0})) → Type 0
IsOutcome t none = terminal t ≡ false
IsOutcome t (some (ok done)) = (terminal t ≡ true) × (str_eq t.status "error" ≡ false)
IsOutcome t (some (err watch_failed)) = terminal t ≡ false
IsOutcome t (some (err cancel_failed)) = terminal t ≡ false
IsOutcome t (some (err signal_failed)) = terminal t ≡ false
IsOutcome t (some (err stream_ended)) = terminal t ≡ false
IsOutcome t (some (err transfer_failed)) = str_eq t.status "error" ≡ true

-- From the update `t` on, told or known: each update but the last is of a transfer that runs, and
-- the outcome fits the last one.
abbrev pub IsOrderly : TransferUpdate → Monitored → Type 0
IsOrderly t ([], outcome) = IsOutcome t outcome
IsOrderly t (next ∷ updates, outcome) = (terminal t ≡ false) × IsOrderly next (updates, outcome)

finish-IsOrderly : (t : TransferUpdate) → terminal t ≡ true → IsOrderly t ([], some (finish t))
finish-IsOrderly t h = elim (Bool-cases (str_eq t.status "error")) [
  | inl failed ↦ rw failed failed
  | inr other ↦ rw other (h, other)
]

before-IsOrderly :
    (t next : TransferUpdate) (m : Monitored)
    → terminal t ≡ false
    → IsOrderly next m
    → IsOrderly t (before next m)
before-IsOrderly t next (updates, outcome) h k = (h, k)

on_signal-IsOrderly :
    (signal : Signal) (t : TransferUpdate) (next : TransferUpdate → Monitored)
    → terminal t ≡ false
    → ((u : TransferUpdate) → IsOrderly u (next u))
    → IsOrderly t (on_signal signal t next)
on_signal-IsOrderly (cancels true) t next h k = before-IsOrderly t _ (next _) h (k _)
on_signal-IsOrderly (cancels false) t next h k = h
on_signal-IsOrderly (changes status transferred) t next h k =
    before-IsOrderly t (apply_values status transferred none t) (next _) h (k _)
on_signal-IsOrderly foreign t next h k = k t
on_signal-IsOrderly garbled t next h k = h
on_signal-IsOrderly ends t next h k = h

monitor_loop-IsOrderly :
    (signals : List Signal) (t : TransferUpdate) → IsOrderly t (monitor_loop signals t)
unfolding monitor_loop
monitor_loop-IsOrderly [] t = elim (Bool-cases (terminal t)) [
  | inl h ↦ rw h (finish-IsOrderly t h)
  | inr h ↦ rw h h
]
monitor_loop-IsOrderly (signal ∷ signals) t = elim (Bool-cases (terminal t)) [
  | inl h ↦ rw h (finish-IsOrderly t h)
  | inr h ↦
      rw h (on_signal-IsOrderly signal t (monitor_loop signals) h (monitor_loop-IsOrderly signals))
]

-- The signal came, at some time.
abbrev pub Comes : Signal → List Signal → Type 0
Comes signal signals =
    (earlier : List Signal) × (later : List Signal) × (signals ≡ earlier ++ (signal ∷ later))

abbrev pub IsQuiet : Signal → Type 0
IsQuiet (changes status transferred) = Unit {0}
IsQuiet foreign = Unit {0}
IsQuiet (cancels accepted) = ⊥
IsQuiet garbled = ⊥
IsQuiet ends = ⊥

-- What the outcome is due to: each error to its own event, and none to the lack of any.
abbrev pub IsCaused :
    Option Properties → List Signal → Option (Result ObexError (Unit {0})) → Type 0
IsCaused properties signals none = All IsQuiet signals
IsCaused properties signals (some (ok done)) = Unit {0}
IsCaused properties signals (some (err watch_failed)) = properties ≡ none
IsCaused properties signals (some (err cancel_failed)) = Comes (cancels false) signals
IsCaused properties signals (some (err signal_failed)) = Comes garbled signals
IsCaused properties signals (some (err stream_ended)) = Comes ends signals
IsCaused properties signals (some (err transfer_failed)) = Unit {0}

Comes-later :
    (signal other : Signal) (signals : List Signal)
    → Comes signal signals
    → Comes signal (other ∷ signals)
Comes-later signal other signals (earlier, later, e) = (other ∷ earlier, later, ap (◌∷◌ other) e)

IsCaused-later :
    (properties : Option Properties) (other : Signal) (signals : List Signal)
    (outcome : Option (Result ObexError (Unit {0})))
    → IsQuiet other
    → IsCaused properties signals outcome
    → IsCaused properties (other ∷ signals) outcome
IsCaused-later properties other signals none quiet h = (quiet, h)
IsCaused-later properties other signals (some (ok done)) quiet h = tt
IsCaused-later properties other signals (some (err watch_failed)) quiet h = h
IsCaused-later properties other signals (some (err cancel_failed)) quiet h =
    Comes-later (cancels false) other signals h
IsCaused-later properties other signals (some (err signal_failed)) quiet h =
    Comes-later garbled other signals h
IsCaused-later properties other signals (some (err stream_ended)) quiet h =
    Comes-later ends other signals h
IsCaused-later properties other signals (some (err transfer_failed)) quiet h = tt

finish-IsCaused :
    (properties : Option Properties) (signals : List Signal) (t : TransferUpdate)
    → IsCaused properties signals (some (finish t))
finish-IsCaused properties signals t = elim (Bool-cases (str_eq t.status "error")) [
  | inl failed ↦ rw failed tt
  | inr other ↦ rw other tt
]

-- A cancellation that obexd accepts ends the loop at once.
monitor_loop-cancelled :
    (signals : List Signal) (t : TransferUpdate)
    → monitor_loop signals (record t { status = "cancelled" }) ≡ ([], some (ok tt))
unfolding monitor_loop terminal
monitor_loop-cancelled [] t = refl
monitor_loop-cancelled (signal ∷ signals) t = refl

on_signal-IsCaused :
    (properties : Option Properties) (signal : Signal) (signals : List Signal) (t : TransferUpdate)
    → ((u : TransferUpdate) → IsCaused properties signals (monitor_loop signals u).1)
    → IsCaused properties (signal ∷ signals) (on_signal signal t (monitor_loop signals)).1
on_signal-IsCaused properties (cancels true) signals t h = rw (monitor_loop-cancelled signals t) tt
on_signal-IsCaused properties (cancels false) signals t h = ([], signals, refl)
on_signal-IsCaused properties (changes status transferred) signals t h =
    IsCaused-later properties (changes status transferred) signals _ tt (h _)
on_signal-IsCaused properties foreign signals t h =
    IsCaused-later properties foreign signals _ tt (h t)
on_signal-IsCaused properties garbled signals t h = ([], signals, refl)
on_signal-IsCaused properties ends signals t h = ([], signals, refl)

monitor_loop-IsCaused :
    (properties : Option Properties) (signals : List Signal) (t : TransferUpdate)
    → IsCaused properties signals (monitor_loop signals t).1
unfolding monitor_loop
monitor_loop-IsCaused properties [] t = elim (Bool-cases (terminal t)) [
  | inl h ↦ rw h (finish-IsCaused properties [] t)
  | inr h ↦ rw h tt
]
monitor_loop-IsCaused properties (signal ∷ signals) t = elim (Bool-cases (terminal t)) [
  | inl h ↦ rw h (finish-IsCaused properties (signal ∷ signals) t)
  | inr h ↦
      rw h
        (on_signal-IsCaused properties signal signals t (monitor_loop-IsCaused properties signals))
]

on_properties-IsCaused :
    (properties : Option Properties) (signals : List Signal) (t : TransferUpdate)
    → IsCaused properties signals (on_properties properties signals t).1
on_properties-IsCaused none signals t = refl
on_properties-IsCaused (some (status, (transferred, size))) signals t =
    monitor_loop-IsCaused (some (status, (transferred, size))) signals _

on_properties-IsOrderly :
    (properties : Option Properties) (signals : List Signal) (t : TransferUpdate)
    → terminal t ≡ false
    → IsOrderly t (on_properties properties signals t)
on_properties-IsOrderly none signals t h = h
on_properties-IsOrderly (some (status, (transferred, size))) signals t h =
    let current = apply_values status transferred size t in
    before-IsOrderly t current (monitor_loop signals current) h
      (monitor_loop-IsOrderly signals current)

-- Whatever obexd answers and signals, and whenever a client cancels: from the state that was known
-- at the start, a terminal update is told only as the last one. Monitoring succeeds only with a
-- transfer that is complete or cancelled, and reports the transfer as failed only with the status
-- "error". Any other error ends it while the transfer runs and has its event: the transfer could not
-- be watched, a cancellation failed, a signal could not be read, or the stream ended. It goes on only
-- while the transfer runs and none of these came.
pub monitor_transfer-IsOrderly :
    (properties : Option Properties) (signals : List Signal) (t : TransferUpdate)
    → IsOrderly t (monitor_transfer properties signals t)
      × IsCaused properties signals (monitor_transfer properties signals t).1
unfolding monitor_transfer
monitor_transfer-IsOrderly properties signals t = elim (Bool-cases (terminal t)) [
  | inl h ↦ rw h (finish-IsOrderly t h, finish-IsCaused properties signals t)
  | inr h ↦
      rw h (
        on_properties-IsOrderly properties signals t h,
        on_properties-IsCaused properties signals t,
      )
]
