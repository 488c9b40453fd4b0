-- ===== src/FastPair/Provider/Ending.antt =====
-- What is left of a peer when its stream has ended.
use bt_daemon.FastPair.Retry.{failed, reset_session}
use bt_daemon.FastPair.Provider.Laws.{IsKept}
use bt_daemon.Base.Equality.{nat_eq}
use bt_daemon.Base.Map.{
  get, retain, remove, get-remove, get-remove_same, get-remove_other, get-insert_other,
}
use bt_daemon.FastPair.Commands.{Key, key_eq, disconnect}
use bt_daemon.FastPair.Provider.{Provider, connection_ended, remove_report}
use bt_daemon.FastPair.Connection.{ended, ConnectionState, was_long}
use bt_daemon.Base.{
  ℕ, ◌≡◌, refl, List, [], ◌∷◌, none, arith, not, ◌==◌, Option, if◌then◌else◌, Bool-cases, is_some,
  false, inl, inr, some, ◌≢◌, ap, true, ◌∙◌, sym,
}

-- There is no report, runtime state, link or writer of the peer, and no command to it waits.
pub record IsGone (address : ℕ) (p : Provider) : Type 0 where
  pub no_report : get address p.reports ≡ none
  pub no_runtime : get address p.runtime ≡ none
  pub no_link : get address p.connections.links ≡ none
  pub no_writer : get address p.connections.writers ≡ none
  pub no_command : (key : Key) → key.0 ≡ address → get key p.pending.entries ≡ none

-- The maps of a provider, the number of changes aside.
abbrev Maps : Provider → Provider → Type 0
Maps p q = (q.runtime ≡ p.runtime) × (q.connections ≡ p.connections) × (q.pending ≡ p.pending)

get-disconnect :
    (address : ℕ) (key : Key) (entries : List (Key × ℕ))
    → key.0 ≡ address
    → get key (retain (λ k generation. not (k.0 == address)) entries) ≡ none
unfolding get retain
get-disconnect address key [] h = refl
get-disconnect address key ((k, generation) ∷ entries) h =
    ground (arith, get-disconnect address key entries h, key_eq.beq_iff k key)

get-disconnect_other :
    (address : ℕ) (key : Key) (entries : List (Key × ℕ))
    → key.0 ≢ address
    → get key (retain (λ k generation. not (k.0 == address)) entries) ≡ get key entries
unfolding get retain
get-disconnect_other address key [] h = refl
get-disconnect_other address key ((k, generation) ∷ entries) h =
    ground (arith, get-disconnect_other address key entries h, key_eq.beq_iff k key)

get-retry_after :
    (now random address j : ℕ) (c : ConnectionState)
    → address ≢ j
    → get j (ended now random address c).retry ≡ get j c.retry
unfolding ended failed reset_session
get-retry_after now random address j c other =
    get-insert_other address j _ _ other ∙ elim (Bool-cases (was_long now (get address c.links))) [
      | inl h ↦ rw h (get-remove_other address j c.retry other)
      | inr h ↦ rw h refl
    ]

remove_report-Maps : (address : ℕ) (p : Provider) → Maps p (remove_report address p)
unfolding remove_report
remove_report-Maps address p = elim (Bool-cases (is_some (get address p.reports))) [
  | inl h ↦ rw h (refl, refl, refl)
  | inr h ↦ rw h (refl, refl, refl)
]

not_some : {A : Type 0} (o : Option A) → is_some o ≡ false → o ≡ none
not_some none h = refl
not_some (some a) h = cc

get-remove_report :
    (address j : ℕ) (p : Provider)
    → get j (remove_report address p).reports ≡ (if address == j then none else get j p.reports)
unfolding remove_report
get-remove_report address j p = elim (Bool-cases (is_some (get address p.reports))) [
  | inl h ↦ rw h (get-remove address j p.reports)
  | inr h ↦ let none_here = not_some (get address p.reports) h in rw h (ground arith)
]

-- What a stream's end leaves, up to the number of changes.
record IsAfter (now random address : ℕ) (p q : Provider) : Type 0 where
  reports_after : (j : ℕ) → get j q.reports ≡ (if address == j then none else get j p.reports)
  runtime_after : q.runtime ≡ remove address p.runtime
  connections_after : q.connections ≡ ended now random address p.connections
  pending_after : q.pending ≡ disconnect address p.pending

connection_ended-IsAfter :
    (now random address : ℕ) (p : Provider)
    → IsAfter now random address p (connection_ended now random address p)
unfolding connection_ended
connection_ended-IsAfter now random address p =
    let cleared : Provider = record p {
      connections = ended now random address p.connections;
      pending = disconnect address p.pending;
      runtime = remove address p.runtime;
    } in
    let (runtime_eq, connections_eq, pending_eq) = remove_report-Maps address cleared in
    elim (Bool-cases (is_some (get address p.runtime))) [
      | inl h ↦ rw h (record {
        reports_after = λ j. get-remove_report address j cleared;
        runtime_after = runtime_eq;
        connections_after = connections_eq;
        pending_after = pending_eq;
      })
      | inr h ↦ rw h (record {
        reports_after = λ j. get-remove_report address j cleared;
        runtime_after = runtime_eq;
        connections_after = connections_eq;
        pending_after = pending_eq;
      })
    ]

-- When a stream ends, its report, runtime state, link, writer and waiting commands are gone. Those
-- of every other peer, and when it is tried again, stay as they were.
pub connection_ended-IsGone :
    (now random address : ℕ) (p : Provider)
    → IsGone address (connection_ended now random address p)
      × ((j : ℕ) → address ≢ j → IsKept j p (connection_ended now random address p))
unfolding ended disconnect
connection_ended-IsGone now random address p =
    let q = connection_ended now random address p in
    let a = connection_ended-IsAfter now random address p in
    let reports = a.reports_after in
    let runtime = a.runtime_after in
    let connections = a.connections_after in
    let pending = a.pending_after in
    let links : q.connections.links ≡ remove address p.connections.links =
      ap (λ c. c.links) connections in
    let writers : q.connections.writers ≡ remove address p.connections.writers =
      ap (λ c. c.writers) connections in
    let entries : q.pending.entries
        ≡ retain (λ k generation. not (k.0 == address)) p.pending.entries =
      ap (λ c. c.entries) pending in
    let itself : (address == address) ≡ true = ground arith in
    (
      record {
        no_report = reports address ∙ rw itself refl;
        no_runtime = rw runtime (get-remove_same address p.runtime);
        no_link = rw links (get-remove_same address p.connections.links);
        no_writer = rw writers (get-remove_same address p.connections.writers);
        no_command = λ key same. rw entries (get-disconnect address key p.pending.entries same);
      },
      λ j other.
          let apart : (address == j) ≡ false = ground arith in
          record {
            report_kept = reports j ∙ rw apart refl;
            runtime_kept = rw runtime (get-remove_other address j p.runtime other);
            link_kept = rw links (get-remove_other address j p.connections.links other);
            writer_kept = rw writers (get-remove_other address j p.connections.writers other);
            retry_kept = rw connections (get-retry_after now random address j p.connections other);
            commands_kept = λ key same. rw entries (
                get-disconnect_other address key p.pending.entries
                  (λ e. other (sym (sym same ∙ e))));
          },
    )
