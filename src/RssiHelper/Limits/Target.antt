-- ===== src/RssiHelper/Limits/Target.antt =====
-- A peer is asked once in two seconds.
use bt_daemon.RssiHelper.Limits.{Limits, Peer, target, limited, fresh_targets, target_interval}
use bt_daemon.Base.Equality.{nat_eq, pair_eq, beq_false}
use bt_daemon.Base.Map.{Map, get, contains_key, get-insert, get-retain, contains_key-get}
use bt_daemon.Base.{
  ◌∙◌, ap, ℕ, ◌-◌, ◌<◌, ◌≡◌, refl, Bool, true, false, List, [], ◌∷◌, err, some, ltb, leb, length,
  Bool-cases, inl, inr, All, lt→ltb, ◌||◌,
}

-- The state after a row of calls for targets, each at its time.
abbrev pub run_targets : List (ℕ × Peer) → Limits → Limits
run_targets [] l = l
run_targets ((now, peer) ∷ calls) l = run_targets calls (target now peer l).1

get-fresh_targets :
    (now time : ℕ) (peer : Peer) (m : Map Peer ℕ)
    → get peer m ≡ some time
    → now - time < target_interval
    → get peer (fresh_targets now m) ≡ some time
get-fresh_targets now time peer m h k =
    get-retain (λ _ t. ltb (now - t) target_interval) peer time m h (lt→ltb _ _ k)

-- The test of `target`.
abbrev refused : ℕ → Peer → Limits → Bool
refused now peer l =
    leb 64 (length (fresh_targets now l.targets)) || contains_key peer (fresh_targets now l.targets)

or_true : (b : Bool) → (b || true) ≡ true
or_true true = refl
or_true false = refl

refused_held :
    (now time : ℕ) (peer : Peer) (l : Limits)
    → get peer l.targets ≡ some time
    → now - time < target_interval
    → refused now peer l ≡ true
refused_held now time peer l h k =
    rw
      (
        contains_key-get peer (fresh_targets now l.targets),
        get-fresh_targets now time peer l.targets h k,
      )
      (or_true (leb 64 (length (fresh_targets now l.targets))))

-- A peer that is held is refused.
target-refused :
    (now time : ℕ) (peer : Peer) (l : Limits)
    → get peer l.targets ≡ some time
    → now - time < target_interval
    → (target now peer l).0 ≡ err limited
unfolding target
target-refused now time peer l h k = rw (refused_held now time peer l h k) refl

not_both :
    (now : ℕ) (l : Limits) (a b : Peer)
    → a ≡ b
    → refused now a l ≡ false
    → refused now b l ≡ true
    → ⊥
not_both now l a b same f t =
    let both : refused now a l ≡ refused now b l = ap (λ (p : Peer). refused now p l) same in cc

-- A peer that is not refused is not the one that is held.
other_peer :
    (now time : ℕ) (peer other : Peer) (l : Limits)
    → get peer l.targets ≡ some time
    → now - time < target_interval
    → refused now other l ≡ false
    → pair_eq.beq other peer ≡ false
other_peer now time peer other l h k e =
    let held : refused now peer l ≡ true = refused_held now time peer l h k in
    beq_false other peer (λ same. not_both now l other peer same e held)

target-held :
    (now time : ℕ) (peer other : Peer) (l : Limits)
    → get peer l.targets ≡ some time
    → now - time < target_interval
    → get peer (target now other l).1.targets ≡ some time
unfolding target
target-held now time peer other l h k = elim (Bool-cases (refused now other l)) [
  | inl e ↦ rw e (get-fresh_targets now time peer l.targets h k)
  | inr e ↦ rw e (
      get-insert other peer now (fresh_targets now l.targets)
      ∙ (rw (other_peer now time peer other l h k e)
          (get-fresh_targets now time peer l.targets h k)))
]

held :
    (calls : List (ℕ × Peer)) (time : ℕ) (peer : Peer) (l : Limits)
    → get peer l.targets ≡ some time
    → All (λ c. c.0 - time < target_interval) calls
    → get peer (run_targets calls l).targets ≡ some time
held [] time peer l h k = h
held ((now, other) ∷ calls) time peer l h (k, ks) =
    held calls time peer (target now other l).1 (target-held now time peer other l h k) ks

-- While a peer's last request is less than two seconds old it is refused, whatever was asked for
-- others in between.
pub target-run_targets :
    (calls : List (ℕ × Peer)) (now time : ℕ) (peer : Peer) (l : Limits)
    → get peer l.targets ≡ some time
    → All (λ c. c.0 - time < target_interval) calls
    → now - time < target_interval
    → (target now peer (run_targets calls l)).0 ≡ err limited
target-run_targets calls now time peer l h k last =
    target-refused now time peer (run_targets calls l) (held calls time peer l h k) last
