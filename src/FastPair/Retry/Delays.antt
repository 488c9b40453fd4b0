-- ===== src/FastPair/Retry/Delays.antt =====
-- How long a peer is left alone.
use native.Mathlib.Decide.{dec_lt}
use bt_daemon.FastPair.Retry.{
  backoff_seconds, peer_connection_failed, peer_failed, PeerRetry, busy_retry_ms,
}
use bt_daemon.Base.{
  [], ◌∷◌, ℕ, List, ◌≤◌, arith, ◌<◌, suc, true, ◌≡◌, min, some, ◌+◌, zero, ◌^◌, ◌-◌, ◌%◌, ◌/◌, ◌*◌,
  refl, get_elem?, length, none, ◌⊎◌, inl, inr,
}

-- The back-off in seconds lies between 15 and 300.
backoff_seconds_bounds : (n : ℕ) → (15 ≤ backoff_seconds n) × (backoff_seconds n ≤ 300)
unfolding backoff_seconds
backoff_seconds_bounds zero = omega arith
backoff_seconds_bounds (suc zero) = omega arith
backoff_seconds_bounds (suc (suc zero)) = omega arith
backoff_seconds_bounds (suc (suc (suc zero))) = omega arith
backoff_seconds_bounds (suc (suc (suc (suc zero)))) = omega arith
backoff_seconds_bounds (suc (suc (suc (suc (suc n))))) =
    let capped : min (suc (suc (suc (suc (suc n))))) 5 ≡ 5 = omega arith in rw capped (omega arith)

-- An ordinary failure leaves a peer alone for 15 s to 6 min, jitter included, and is counted.
pub peer_failed_bounds :
    (now random : ℕ) (peer : PeerRetry)
    → random < 256
    → (delay : ℕ) × ((peer_failed now random peer).after ≡ some (now + delay))
      × (15000 ≤ delay)
      × (delay ≤ 360000)
      × ((peer_failed now random peer).failures ≡ min (peer.failures + 1) (2 ^ 32 - 1))
      × ((peer_failed now random peer).busy_attempts ≡ peer.busy_attempts)
unfolding peer_failed
peer_failed_bounds now random peer h =
    let (lo, hi) = backoff_seconds_bounds peer.failures in
    let jitter : random % (backoff_seconds peer.failures / 5 + 1)
        ≤ backoff_seconds peer.failures / 5 =
      omega arith in
    (
      (backoff_seconds peer.failures + random % (backoff_seconds peer.failures / 5 + 1)) * 1000,
      refl,
      omega arith,
      omega arith,
      refl,
      refl,
    )

quick_delay :
    (n : ℕ) → n < 6 → (delay : ℕ) × (delay ≤ 1000) × (get_elem? busy_retry_ms n ≡ some delay)
quick_delay zero h = (250, omega arith, refl)
quick_delay (suc zero) h = (500, omega arith, refl)
quick_delay (suc (suc zero)) h = (1000, omega arith, refl)
quick_delay (suc (suc (suc zero))) h = (1000, omega arith, refl)
quick_delay (suc (suc (suc (suc zero)))) h = (1000, omega arith, refl)
quick_delay (suc (suc (suc (suc (suc zero))))) h = (1000, omega arith, refl)
quick_delay (suc (suc (suc (suc (suc (suc n)))))) h = absurd (omega arith)

no_delay : (n : ℕ) → 6 ≤ n → get_elem? busy_retry_ms n ≡ none
no_delay zero h = absurd (omega arith)
no_delay (suc zero) h = absurd (omega arith)
no_delay (suc (suc zero)) h = absurd (omega arith)
no_delay (suc (suc (suc zero))) h = absurd (omega arith)
no_delay (suc (suc (suc (suc zero)))) h = absurd (omega arith)
no_delay (suc (suc (suc (suc (suc zero))))) h = absurd (omega arith)
no_delay (suc (suc (suc (suc (suc (suc n)))))) h = refl

-- While the budget lasts, a busy connection is tried again within a second.
pub peer_connection_failed_quick :
    (now random : ℕ) (peer : PeerRetry)
    → peer.busy_attempts < 6
    → (delay : ℕ) × (delay ≤ 1000)
      × (peer_connection_failed now random true peer
          ≡ record peer { busy_attempts = peer.busy_attempts + 1; after = some (now + delay) })
unfolding peer_connection_failed
peer_connection_failed_quick now random peer h =
    let (delay, short, e) = quick_delay peer.busy_attempts h in (delay, short, rw e)

-- Then it fails like any other.
pub peer_connection_failed_slow :
    (now random : ℕ) (peer : PeerRetry)
    → 6 ≤ peer.busy_attempts
    → peer_connection_failed now random true peer ≡ peer_failed now random peer
unfolding peer_connection_failed
peer_connection_failed_slow now random peer h = rw (no_delay peer.busy_attempts h)

-- The state after a row of busy failures, each at its time and with its random byte.
abbrev pub busy_run : List (ℕ × ℕ) → PeerRetry → PeerRetry
busy_run [] peer = peer
busy_run ((now, random) ∷ ts) peer = busy_run ts (peer_connection_failed now random true peer)

one_busy :
    (now random : ℕ) (peer : PeerRetry)
    → peer.busy_attempts ≤ 6
    → peer.failures ≤ 2 ^ 32 - 1
    → ((peer_connection_failed now random true peer).busy_attempts ≡ min (peer.busy_attempts + 1) 6)
      × ((peer_connection_failed now random true peer).failures
          ≡ min (peer.failures + (peer.busy_attempts + 1 - 6)) (2 ^ 32 - 1))
one_busy now random peer hb hf = elim (dec_lt peer.busy_attempts 6) [
  | yes h ↦
      let (delay, short, e) = peer_connection_failed_quick now random peer h in
      rw e (omega arith, omega arith)
  | no h ↦
      let full : peer.busy_attempts ≡ 6 = omega arith in
      rw (peer_connection_failed_slow now random peer (omega arith))
        (unfold peer_failed in (omega arith, omega arith))
]

-- When a busy peer is tried again: within a second while the budget lasts, then as after any failure.
one_busy_delay :
    (now random : ℕ) (peer : PeerRetry)
    → random < 256
    → (delay : ℕ) × ((peer_connection_failed now random true peer).after ≡ some (now + delay))
      × (((peer.busy_attempts < 6) × (delay ≤ 1000))
          ⊎ ((6 ≤ peer.busy_attempts) × (15000 ≤ delay) × (delay ≤ 360000)))
one_busy_delay now random peer h = elim (dec_lt peer.busy_attempts 6) [
  | yes quick ↦
      let (delay, short, e) = peer_connection_failed_quick now random peer quick in
      (delay, rw e refl, inl (quick, short))
  | no slow ↦
      let (delay, e, low, high, _, _) = peer_failed_bounds now random peer h in
      (
        delay,
        rw (peer_connection_failed_slow now random peer (omega arith)) e,
        inr (omega arith, low, high),
      )
]

busy_run_counters :
    (ts : List (ℕ × ℕ)) (peer : PeerRetry)
    → peer.busy_attempts ≤ 6
    → peer.failures ≤ 2 ^ 32 - 1
    → ((busy_run ts peer).busy_attempts ≡ min (peer.busy_attempts + length ts) 6)
      × ((busy_run ts peer).failures
          ≡ min (peer.failures + (peer.busy_attempts + length ts - 6)) (2 ^ 32 - 1))
busy_run_counters [] peer hb hf = (omega arith, omega arith)
busy_run_counters ((now, random) ∷ ts) peer hb hf =
    let (b, f) = one_busy now random peer hb hf in
    let (bs, fs) =
      busy_run_counters ts (peer_connection_failed now random true peer) (omega arith)
        (omega arith) in
    (omega arith, omega arith)

-- Within the counters' bounds, after any row of busy failures: the next one is tried again within a
-- second if fewer than six quick retries were spent, and else after 15 s to 6 min; the row spends one
-- quick retry for each failure up to six, and counts each further failure like an ordinary one.
pub busy_run_counts :
    (ts : List (ℕ × ℕ)) (peer : PeerRetry) (now random : ℕ)
    → peer.busy_attempts ≤ 6
    → peer.failures ≤ 2 ^ 32 - 1
    → random < 256
    → ((delay : ℕ) × ((peer_connection_failed now random true (busy_run ts peer)).after
          ≡ some (now + delay))
        × (((peer.busy_attempts + length ts < 6) × (delay ≤ 1000))
            ⊎ ((6 ≤ peer.busy_attempts + length ts) × (15000 ≤ delay) × (delay ≤ 360000))))
      × ((busy_run ts peer).busy_attempts ≡ min (peer.busy_attempts + length ts) 6)
      × ((busy_run ts peer).failures
          ≡ min (peer.failures + (peer.busy_attempts + length ts - 6)) (2 ^ 32 - 1))
busy_run_counts ts peer now random hb hf small =
    let (b, f) = busy_run_counters ts peer hb hf in
    let (delay, e, which) = one_busy_delay now random (busy_run ts peer) small in
    (
      (
        delay,
        e,
        elim which [
          | inl (quick, short) ↦ inl (omega arith, short)
          | inr (slow, low, high) ↦ inr (omega arith, low, high)
        ],
      ),
      b,
      f,
    )
