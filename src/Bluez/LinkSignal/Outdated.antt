-- ===== src/Bluez/LinkSignal/Outdated.antt =====
-- A link that was invalidated shows no live reading until a later poll has read it.
use Prim.Native.String.{String}
use bt_daemon.Base.Map.{get, get-insert_other}
use bt_daemon.RssiHelper.Mgmt.{ℤ}
use bt_daemon.Model.Devices.{RssiKind}
use bt_daemon.Bluez.LinkSignal.{
  Key, key_eq, Reading, Entry, Signals, shown, get_reading, invalidate, suspend, begin_poll,
  current, or_new, observe, accept,
}
use bt_daemon.Bluez.LinkSignal.Fences.{
  Event, invalidates, suspends, polls, accepts, apply, run, Ends, IsOld, IsFenced, succeeded_of,
  expire_some-quiet, expire_some-concerned, expire_all-quiet, fence-held, fence-concerned,
  current-IsFenced,
}
use bt_daemon.Base.{
  ℕ, ◌+◌, ◌≤◌, ◌<◌, ◌^◌, Bool, true, false, ◌≡◌, ◌≢◌, refl, List, [], ◌∷◌, Option, none, some,
  arith, length, All, Bool-cases, Option-cases, inl, inr, subst,
}

accept-IsFenced :
    (now wall : ℕ) (other : Key) (epoch : ℕ) (reading : Option (ℤ × RssiKind)) (key : Key)
    (last : ℕ) (s : Signals)
    → epoch ≤ last
    → IsFenced key last s
    → IsFenced key last (accept now wall other epoch reading s)
unfolding accept
accept-IsFenced now wall other epoch reading key last s old h =
    elim (Bool-cases (current other epoch s)) [
      | inr outdated ↦ rw outdated h
      | inl valid ↦
          let apart : other ≢ key = λ same.
            let shut = current-IsFenced key last epoch s h old in
            let still : current key epoch s ≡ true =
              subst (λ k. current k epoch s ≡ true) same valid in
            cc in
          let kept =
            get-insert_other other key (observe now wall reading (or_new now (get other s.entries)))
              s.entries apart in
          rw valid (record { bound = h.bound; shut = h.shut; quiet = rw kept (h.quiet) })
    ]

apply-IsFenced :
    (event : Event) (key : Key) (last : ℕ) (s : Signals)
    → s.epoch + 1 < 2 ^ 64
    → IsOld last event
    → IsFenced key last s
    → IsFenced key last (apply event s)
unfolding invalidate suspend begin_poll
apply-IsFenced (invalidates now adapter none) key last s small old h = record {
  bound = h.bound;
  shut = λ e. fence-held adapter none key s (h.shut e);
  quiet = expire_some-quiet now adapter none key s.entries (h.quiet);
}
apply-IsFenced (invalidates now adapter (some address)) key last s small old h = record {
  bound = h.bound;
  shut = λ e. fence-held adapter (some address) key s (h.shut e);
  quiet = expire_some-quiet now adapter (some address) key s.entries (h.quiet);
}
apply-IsFenced (suspends now) key last s small old h =
    let bound = h.bound in
    record {
      bound = omega arith;
      shut = λ e. absurd (omega arith);
      quiet = expire_all-quiet now key s.entries;
    }
apply-IsFenced polls key last s small old h =
    let bound = h.bound in
    record { bound = omega arith; shut = λ e. absurd (omega arith); quiet = h.quiet }
apply-IsFenced (accepts now wall other epoch reading) key last s small old h =
    accept-IsFenced now wall other epoch reading key last s old h

Ends-IsFenced :
    (event : Event) (key : Key) (last : ℕ) (s : Signals)
    → s.epoch + 1 < 2 ^ 64
    → last ≤ s.epoch
    → Ends key event
    → IsFenced key last (apply event s)
unfolding invalidate suspend
Ends-IsFenced (invalidates now adapter none) key last s small bound c = record {
  bound = bound;
  shut = λ e. fence-concerned now adapter none key s c;
  quiet = expire_some-concerned now adapter none key s.entries c;
}
Ends-IsFenced (invalidates now adapter (some address)) key last s small bound c = record {
  bound = bound;
  shut = λ e. fence-concerned now adapter (some address) key s c;
  quiet = expire_some-concerned now adapter (some address) key s.entries c;
}
Ends-IsFenced (suspends now) key last s small bound c = record {
  bound = omega arith;
  shut = λ e. absurd (omega arith);
  quiet = expire_all-quiet now key s.entries;
}
Ends-IsFenced polls key last s small bound c = absurd c
Ends-IsFenced (accepts now wall other epoch reading) key last s small bound c = absurd c

apply-epoch :
    (event : Event) (s : Signals) → s.epoch + 1 < 2 ^ 64 → (apply event s).epoch ≤ s.epoch + 1
unfolding invalidate suspend begin_poll accept
apply-epoch (invalidates now adapter none) s small = omega arith
apply-epoch (invalidates now adapter (some address)) s small = omega arith
apply-epoch (suspends now) s small = omega arith
apply-epoch polls s small = omega arith
apply-epoch (accepts now wall other epoch reading) s small =
    elim (Bool-cases (current other epoch s)) [
      | inl valid ↦ rw valid (omega arith)
      | inr outdated ↦ rw outdated (omega arith)
    ]

run-IsFenced :
    (events : List Event) (key : Key) (last : ℕ) (s : Signals)
    → s.epoch + length events < 2 ^ 64
    → All (IsOld last) events
    → IsFenced key last s
    → IsFenced key last (run events s)
run-IsFenced [] key last s small old h = h
run-IsFenced (event ∷ events) key last s small (first, others) h =
    let grown = apply-epoch event s (omega arith) in
    run-IsFenced events key last (apply event s) (omega arith) others
      (apply-IsFenced event key last s (omega arith) first h)

shown-live :
    (ttl now : ℕ) (connected : Bool) (entry : Entry) (o : Option Reading) (r : Reading)
    → entry.succeeded ≡ false
    → shown ttl now connected entry o ≡ some r
    → r.live ≡ false
shown-live ttl now connected entry none r h e = absurd cc
shown-live ttl now connected entry (some reading) r h e = ground arith

quiet-live :
    (ttl now : ℕ) (adapter : String) (address : ℕ) (connected : Bool) (s : Signals) (r : Reading)
    → succeeded_of (get (adapter, address) s.entries) ≡ false
    → get_reading ttl now adapter address connected s ≡ some r
    → r.live ≡ false
unfolding get_reading
quiet-live ttl now adapter address connected s r quiet h =
    elim (Option-cases (get (adapter, address) s.entries)) [
      | inl missing ↦ let no : ◌≡◌ {A = Option Reading} none (some r) = rw missing at h in absurd cc
      | inr (entry, found) ↦
          let failed : entry.succeeded ≡ false = rw found at quiet in
          let answer : shown ttl now connected entry entry.reading ≡ some r = rw found at h in
          shown-live ttl now connected entry entry.reading r failed answer
    ]

-- After an event that invalidates the link, its adapter or all links, and events after it that do not
-- bring the counter of polls to its wrap-around at 2^64, which may be new polls
-- but no results of polls later than `last`, where `last` is at most the poll that was current:
-- no reading of the link is shown as live, and the result of a read of a poll up to `last` is dropped.
pub run-outdated :
    (event : Event) (events : List Event) (adapter : String) (address last : ℕ) (s : Signals)
    → Ends (adapter, address) event
    → last ≤ s.epoch
    → s.epoch + 1 + length events < 2 ^ 64
    → All (IsOld last) events
    → ((ttl now : ℕ) (connected : Bool) (r : Reading)
        → get_reading ttl now adapter address connected (run events (apply event s)) ≡ some r
        → r.live ≡ false)
      × ((now wall epoch : ℕ) (reading : Option (ℤ × RssiKind))
          → epoch ≤ last
          → accept now wall (adapter, address) epoch reading (run events (apply event s))
            ≡ run events (apply event s))
unfolding accept
run-outdated event events adapter address last s end bound small old =
    let key : Key = (adapter, address) in
    let t = run events (apply event s) in
    let grown = apply-epoch event s (omega arith) in
    let h =
      run-IsFenced events key last (apply event s) (omega arith) old
        (Ends-IsFenced event key last s (omega arith) bound end) in
    (
      λ ttl now connected r. quiet-live ttl now adapter address connected t r (h.quiet),
      λ now wall epoch reading before. rw (current-IsFenced key last epoch t h before) refl,
    )
