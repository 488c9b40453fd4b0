-- ===== src/FastPair/Commands/Once.antt =====
-- Each reservation gets one reply at most, and an old one never ends a newer one.
use bt_daemon.FastPair.Commands.{
  key_eq, PendingCommands, Key, Reply, reserve, resolve, disconnect, clear, release, default, sent,
  is_generation,
}
use bt_daemon.Base.Map.{Map, get, insert, remove, contains_key, retain}
use bt_daemon.Base.Equality.{beq_refl}
use bt_daemon.Base.Map.{contains_key-get, get-insert, get-remove, get, insert}
use native.Mathlib.Decide.{dec_lt}
use bt_daemon.Base.{
  ap, suc, ltb, ◌^◌, ◌-◌, ℕ, ◌+◌, ◌≡◌, ◌≢◌, refl, Bool, false, List, [], ◌∷◌, ◌++◌, arith,
  Bool-cases, inl, inr, if◌then◌else◌, ◌≤◌, ◌==◌, some, ◌<◌, ok, lt→ltb,
}

-- The calls on the pending commands. Any of them may come at any time.
pub data Call : Type 0 where
  reserves : Key → Call
  resolves : Key → Reply → Call
  disconnects : ℕ → Call
  clears : Call
  releases : Key → ℕ → Call

unfoldable pub apply : Call → PendingCommands → PendingCommands
apply (reserves key) p = (reserve key p).1
apply (resolves key result) p = resolve key result p
apply (disconnects address) p = disconnect address p
apply clears p = clear p
apply (releases key generation) p = release key generation p

unfoldable pub run : List Call → PendingCommands → PendingCommands
run [] p = p
run (c ∷ cs) p = run cs (apply c p)

-- All generations that were given out and may still get or have got a reply, newest first in no
-- particular order: those of the entries, and those of the replies.
abbrev pub live : Map Key ℕ → List ℕ
live [] = []
live ((key, generation) ∷ m) = generation ∷ live m

abbrev pub answered : List (ℕ × Reply) → List ℕ
answered [] = []
answered ((generation, result) ∷ replies) = generation ∷ answered replies

-- How often a generation stands in a list.
unfoldable pub times : ℕ → List ℕ → ℕ
times g [] = 0
times g (x ∷ xs) = if x == g then suc (times g xs) else times g xs

-- A generation stands at most once among the entries and the replies, and the next one nowhere.
pub record IsPending (p : PendingCommands) : Type 0 where
  pub once : (g : ℕ) → times g (live p.entries) + times g (answered p.delivered) ≤ 1
  pub unused :
      (g : ℕ) → p.sequence ≤ g → times g (live p.entries) + times g (answered p.delivered) ≡ 0

times-append : (g : ℕ) (xs ys : List ℕ) → times g (xs ++ ys) ≡ times g xs + times g ys
unfolding times
times-append g [] ys = omega arith
times-append g (x ∷ xs) ys = ground (arith, times-append g xs ys)

answered-append : (xs ys : List (ℕ × Reply)) → answered (xs ++ ys) ≡ answered xs ++ answered ys
answered-append [] ys = refl
answered-append (x ∷ xs) ys = ap (◌∷◌ x.0) (answered-append xs ys)

times-remove :
    (g : ℕ) (key : Key) (m : Map Key ℕ) → times g (live (remove key m)) ≤ times g (live m)
unfolding times remove
times-remove g key [] = omega arith
times-remove g key ((j, h) ∷ m) = ground (arith, times-remove g key m)

times-retain :
    (g : ℕ) (keep : Key → ℕ → Bool) (m : Map Key ℕ)
    → times g (live (retain keep m)) ≤ times g (live m)
unfolding times retain
times-retain g keep [] = omega arith
times-retain g keep ((j, h) ∷ m) = ground (arith, times-retain g keep m)

-- What is sent was among the entries, and it is taken out of them.
times-resolve :
    (g : ℕ) (key : Key) (result : Reply) (m : Map Key ℕ)
    → times g (live (remove key m)) + times g (answered (sent (get key m) result))
      ≤ times g (live m)
unfolding times remove get
times-resolve g key result [] = omega arith
times-resolve g key result ((j, h) ∷ m) =
    ground (arith, times-resolve g key result m, times-remove g key m)

times-insert :
    (g : ℕ) (key : Key) (new : ℕ) (m : Map Key ℕ)
    → contains_key key m ≡ false
    → times g (live (insert key new m)) ≡ times g (live m) + times g (new ∷ [])
unfolding times insert contains_key
times-insert g key new [] h = omega arith
times-insert g key new ((j, old) ∷ m) h = ground (arith, times-insert g key new m)

shrink-IsPending :
    (p : PendingCommands) (m : Map Key ℕ)
    → IsPending p
    → ((g : ℕ) → times g (live m) ≤ times g (live p.entries))
    → IsPending (record p { entries = m })
shrink-IsPending p m v fewer = record {
  once = λ g. omega (arith, v.once g, fewer g);
  unused = λ g h. omega (arith, v.unused g h, fewer g);
}

times_one : (g x : ℕ) → g ≢ x → times g (x ∷ []) ≡ 0
unfolding times
times_one g x h = ground arith

times_one-le : (g x : ℕ) → times g (x ∷ []) ≤ 1
unfolding times
times_one-le g x = ground arith

reserve-IsPending : (key : Key) (p : PendingCommands) → IsPending p → IsPending (reserve key p).1
unfolding reserve
reserve-IsPending key p v = elim (Bool-cases (contains_key key p.entries)) [
  | inl e ↦ rw e v
  | inr e ↦ elim (Bool-cases (ltb p.sequence (2 ^ 64 - 1))) [
    | inl f ↦
        rw (e, f)
          (record {
            once = λ g. elim (dec_lt g p.sequence) [
              | yes h ↦ omega (
                arith,
                v.once g,
                times-insert g key p.sequence p.entries e,
                times_one g p.sequence (omega arith),
              )
              | no h ↦ omega (
                arith,
                v.unused g (omega arith),
                times-insert g key p.sequence p.entries e,
                times_one-le g p.sequence,
              )
            ];
            unused = λ g h. omega (
              arith,
              v.unused g (omega arith),
              times-insert g key p.sequence p.entries e,
              times_one g p.sequence (omega arith),
            );
          })
    | inr f ↦ rw (e, f) v
  ]
]

resolve-IsPending :
    (key : Key) (result : Reply) (p : PendingCommands)
    → IsPending p
    → IsPending (resolve key result p)
unfolding resolve
resolve-IsPending key result p v =
    let given : List (ℕ × Reply) = sent (get key p.entries) result in
    let split : (g : ℕ)
        → times g (answered (p.delivered ++ given))
          ≡ times g (answered p.delivered) + times g (answered given) =
      λ g.
        rw (answered-append p.delivered given)
          (times-append g (answered p.delivered) (answered given)) in
    record {
      once = λ g. omega (arith, v.once g, split g, times-resolve g key result p.entries);
      unused = λ g h. omega (arith, v.unused g h, split g, times-resolve g key result p.entries);
    }

release-IsPending :
    (key : Key) (generation : ℕ) (p : PendingCommands)
    → IsPending p
    → IsPending (release key generation p)
unfolding release
release-IsPending key generation p v =
    elim (Bool-cases (is_generation generation (get key p.entries))) [
      | inl e ↦
          rw e (shrink-IsPending p (remove key p.entries) v (λ g. times-remove g key p.entries))
      | inr e ↦ rw e v
    ]

apply-IsPending : (c : Call) (p : PendingCommands) → IsPending p → IsPending (apply c p)
unfolding apply
apply-IsPending (reserves key) p v = reserve-IsPending key p v
apply-IsPending (resolves key result) p v = resolve-IsPending key result p v
apply-IsPending (disconnects address) p v =
    unfold disconnect in shrink-IsPending p _ v (λ g. times-retain g _ p.entries)
apply-IsPending clears p v =
    unfold clear in shrink-IsPending p [] v (λ g. unfold times in omega arith)
apply-IsPending (releases key generation) p v = release-IsPending key generation p v

pub run-IsPending : (cs : List Call) (p : PendingCommands) → IsPending p → IsPending (run cs p)
unfolding run
run-IsPending [] p v = v
run-IsPending (c ∷ cs) p v = run-IsPending cs (apply c p) (apply-IsPending c p v)

pub default-IsPending : IsPending default
unfolding times
default-IsPending = record { once = λ g. omega arith; unused = λ g h. omega arith }

-- Whatever calls come in whatever order, no reservation is given two replies.
pub times-run : (cs : List Call) (g : ℕ) → times g (answered (run cs default).delivered) ≤ 1
times-run cs g = omega (arith, (run-IsPending cs default default-IsPending).once g)

times-get : (key : Key) (g : ℕ) (m : Map Key ℕ) → get key m ≡ some g → 1 ≤ times g (live m)
unfolding times get
times-get key g [] h = cc
times-get key g ((j, old) ∷ m) h = ground (arith, times-get key g m)

is_generation_ne : (g h : ℕ) → g ≢ h → is_generation g (some h) ≡ false
is_generation_ne g h ne = ground arith

-- Once a pending command was acknowledged and the same one was sent again, with a generation left to
-- give, the end of the old reservation does not disturb the new one.
pub release-reserve :
    (key : Key) (result : Reply) (p : PendingCommands) (old : ℕ)
    → IsPending p
    → get key p.entries ≡ some old
    → p.sequence < 2 ^ 64 - 1
    → (reserve key (resolve key result p)).0 ≡ ok p.sequence
      × (release key old (reserve key (resolve key result p)).1
          ≡ (reserve key (resolve key result p)).1)
      × (get key (release key old (reserve key (resolve key result p)).1).entries ≡ some p.sequence)
unfolding reserve resolve release
release-reserve key result p old v h room =
    let differs : old ≢ p.sequence =
      λ e. absurd (omega (arith, times-get key old p.entries h, v.unused old (omega arith))) in
    let gone : contains_key key (remove key p.entries) ≡ false =
      rw (contains_key-get key (remove key p.entries), get-remove key key p.entries, beq_refl key)
        refl in
    let there : get key (insert key p.sequence (remove key p.entries)) ≡ some p.sequence =
      rw (get-insert key key p.sequence (remove key p.entries), beq_refl key) refl in
    rw (gone, lt→ltb p.sequence (2 ^ 64 - 1) room, there, is_generation_ne old p.sequence differs)
      (refl, refl, there)
