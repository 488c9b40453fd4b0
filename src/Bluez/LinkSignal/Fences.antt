-- ===== src/Bluez/LinkSignal/Fences.antt =====
-- Reads that began before a link was invalidated, or before the system slept, come to nothing.
use Prim.Native.String.{String}
use text.Mathlib.Text.{◌==◌ as str_eq}
use bt_daemon.Base.Equality.{string_eq, nat_eq}
use bt_daemon.Base.Map.{Map, get}
use bt_daemon.RssiHelper.Mgmt.{ℤ}
use bt_daemon.Model.Devices.{RssiKind}
use bt_daemon.Bluez.LinkSignal.{
  Key, key_eq, Entry, Signals, holds_key, holds_name, concerns, expire_some, fence, invalidate,
  expire_all, suspend, begin_poll, current, accept,
}
use bt_daemon.Base.{
  ℕ, ◌≤◌, Bool, true, false, ◌||◌, ◌≡◌, refl, List, [], ◌∷◌, Option, none, some, arith, ◌==◌,
  Bool-cases, sym, inl, inr,
}

pub data Event : Type 0 where
  invalidates : ℕ → String → Option ℕ → Event
  suspends : ℕ → Event
  polls : Event
  accepts : ℕ → ℕ → Key → ℕ → Option (ℤ × RssiKind) → Event

abbrev pub apply : Event → Signals → Signals
apply (invalidates now adapter address) s = invalidate now adapter address s
apply (suspends now) s = suspend now s
apply polls s = (begin_poll s).1
apply (accepts now wall key epoch reading) s = accept now wall key epoch reading s

abbrev pub run : List Event → Signals → Signals
run [] s = s
run (event ∷ events) s = run events (apply event s)

-- The event takes the link out of use: its device or its adapter is invalidated, or the system
-- sleeps.
abbrev pub Ends : Key → Event → Type 0
Ends key (invalidates now adapter none) = adapter ≡ key.0
Ends key (invalidates now adapter (some address)) = (adapter ≡ key.0) × (address ≡ key.1)
Ends key (suspends now) = Unit {0}
Ends key polls = ⊥
Ends key (accepts now wall other epoch reading) = ⊥

-- A result of a read belongs to a poll up to `last`.
abbrev pub IsOld : ℕ → Event → Type 0
IsOld last (invalidates now adapter address) = Unit {0}
IsOld last (suspends now) = Unit {0}
IsOld last polls = Unit {0}
IsOld last (accepts now wall key epoch reading) = epoch ≤ last

abbrev pub succeeded_of : Option Entry → Bool
succeeded_of none = false
succeeded_of (some entry) = entry.succeeded

abbrev pub held : Key → Signals → Bool
held key s = holds_key key s.invalidated_devices || holds_name (key.0) s.invalidated_adapters

-- Reads of polls up to `last` are shut out, and the last one that is known did not succeed.
pub record IsFenced (key : Key) (last : ℕ) (s : Signals) : Type 0 where
  pub bound : last ≤ s.epoch
  pub shut : last ≡ s.epoch → held key s ≡ true
  pub quiet : succeeded_of (get key s.entries) ≡ false

pub expire_some-quiet :
    (now : ℕ) (adapter : String) (address : Option ℕ) (key : Key) (m : Map Key Entry)
    → succeeded_of (get key m) ≡ false
    → succeeded_of (get key (expire_some now adapter address m)) ≡ false
unfolding get
expire_some-quiet now adapter address key [] h = refl
expire_some-quiet now adapter address key ((j, entry) ∷ m) h =
    elim (Bool-cases (key_eq.beq j key)) [
      | inl same ↦
          let before : entry.succeeded ≡ false = rw same at h in
          elim (Bool-cases (concerns adapter address j)) [
            | inl c ↦ rw (same, c) refl
            | inr c ↦ rw (same, c) before
          ]
      | inr other ↦ rw other (expire_some-quiet now adapter address key m (rw other at h))
    ]

concerns-Ends :
    (now : ℕ) (adapter : String) (address : Option ℕ) (key : Key)
    → Ends key (invalidates now adapter address)
    → concerns adapter address key ≡ true
concerns-Ends now adapter none key h = (string_eq.beq_iff (key.0) adapter).1 (sym h)
concerns-Ends now adapter (some address) key (h, k) =
    let name : str_eq (key.0) adapter ≡ true = (string_eq.beq_iff (key.0) adapter).1 (sym h) in
    ground arith

pub expire_some-concerned :
    (now : ℕ) (adapter : String) (address : Option ℕ) (key : Key) (m : Map Key Entry)
    → Ends key (invalidates now adapter address)
    → succeeded_of (get key (expire_some now adapter address m)) ≡ false
unfolding get
expire_some-concerned now adapter address key [] h = refl
expire_some-concerned now adapter address key ((j, entry) ∷ m) h =
    elim (Bool-cases (key_eq.beq j key)) [
      | inl same ↦
          let same_key : j ≡ key = (key_eq.beq_iff j key).0 same in
          let c : concerns adapter address j ≡ true =
            rw same_key (concerns-Ends now adapter address key h) in
          rw (same, c) refl
      | inr other ↦ rw other (expire_some-concerned now adapter address key m h)
    ]

pub expire_all-quiet :
    (now : ℕ) (key : Key) (m : Map Key Entry) → succeeded_of (get key (expire_all now m)) ≡ false
unfolding get
expire_all-quiet now key [] = refl
expire_all-quiet now key ((j, entry) ∷ m) = elim (Bool-cases (key_eq.beq j key)) [
  | inl same ↦ rw same refl
  | inr other ↦ rw other (expire_all-quiet now key m)
]

pub fence-held :
    (adapter : String) (address : Option ℕ) (key : Key) (s : Signals)
    → held key s ≡ true
    → held key (fence adapter address s) ≡ true
fence-held adapter none key s h = ground arith
fence-held adapter (some address) key s h = ground arith

pub fence-concerned :
    (now : ℕ) (adapter : String) (address : Option ℕ) (key : Key) (s : Signals)
    → Ends key (invalidates now adapter address)
    → held key (fence adapter address s) ≡ true
fence-concerned now adapter none key s h =
    let back : str_eq adapter (key.0) ≡ true = (string_eq.beq_iff adapter (key.0)).1 h in
    ground arith
fence-concerned now adapter (some address) key s (h, k) =
    let back : str_eq adapter (key.0) ≡ true = (string_eq.beq_iff adapter (key.0)).1 h in
    ground arith

pub current-IsFenced :
    (key : Key) (last epoch : ℕ) (s : Signals)
    → IsFenced key last s
    → epoch ≤ last
    → current key epoch s ≡ false
unfolding current
current-IsFenced key last epoch s h old = elim (Bool-cases (epoch == s.epoch)) [
  | inl now ↦
      let bound = h.bound in
      let at_last : last ≡ s.epoch = ground arith in let shut = h.shut at_last in ground arith
  | inr earlier ↦ rw earlier refl
]
