-- ===== src/Tests/RetryTests.antt =====
-- src/fast_pair/retry.rs on concrete peers.
use bt_daemon.FastPair.Retry.{
  RetryPolicy, fresh, peer_failed, peer_connection_failed, psm_unknown, l2cap_allowed,
}
use bt_daemon.FastPair.Retry.Delays.{
  peer_failed_bounds, busy_run, busy_run_counts, peer_connection_failed_quick,
}
use bt_daemon.FastPair.Retry.Peers.{apply, fails, get-apply, l2cap_allowed-psm_unknown}
use bt_daemon.Base.Map.{get}
use bt_daemon.Base.Equality.{nat_eq}
use bt_daemon.Base.{
  ℕ, List, [], ◌∷◌, ◌≡◌, ◌≤◌, ◌+◌, ◌-◌, ◌^◌, min, some, true, false, arith, length, ◌<◌, ◌⊎◌,
}

peer_failed_bounds_test :
    (delay : ℕ) × ((peer_failed 1000 77 fresh).after ≡ some (1000 + delay))
    × (15000 ≤ delay)
    × (delay ≤ 360000)
    × ((peer_failed 1000 77 fresh).failures ≡ min (0 + 1) (2 ^ 32 - 1))
    × ((peer_failed 1000 77 fresh).busy_attempts ≡ 0)
peer_failed_bounds_test = peer_failed_bounds 1000 77 fresh (omega arith)

-- Eight busy failures in a row, each 2 s after the other.
abbrev failures : List (ℕ × ℕ)
failures =
    (0, 1)
    ∷ (2000, 2)
    ∷ (4000, 3)
    ∷ (6000, 4)
    ∷ (8000, 5)
    ∷ (10000, 6)
    ∷ (12000, 7)
    ∷ (14000, 8)
    ∷ []

busy_run_counts_example :
    ((delay : ℕ) × ((peer_connection_failed 20000 9 true (busy_run failures fresh)).after
        ≡ some (20000 + delay))
      × (((0 + length failures < 6) × (delay ≤ 1000))
          ⊎ ((6 ≤ 0 + length failures) × (15000 ≤ delay) × (delay ≤ 360000))))
    × ((busy_run failures fresh).busy_attempts ≡ min (0 + length failures) 6)
    × ((busy_run failures fresh).failures ≡ min (0 + (0 + length failures - 6)) (2 ^ 32 - 1))
busy_run_counts_example =
    busy_run_counts failures fresh 20000 9 (omega arith) (omega arith) (omega arith)

peer_connection_failed_quick_test :
    (delay : ℕ) × (delay ≤ 1000)
    × (peer_connection_failed 1000 77 true fresh
        ≡ record fresh { busy_attempts = 0 + 1; after = some (1000 + delay) })
peer_connection_failed_quick_test = peer_connection_failed_quick 1000 77 fresh (omega arith)

abbrev known : RetryPolicy
known = (1, fresh) ∷ (2, fresh) ∷ []

get-apply_test : get 2 (apply 1000 77 (fails 1) known) ≡ get 2 known
get-apply_test = get-apply 1000 77 2 (fails 1) known (λ e. absurd (omega arith))

l2cap_allowed-psm_unknown_test :
    l2cap_allowed 2 (psm_unknown 2 (psm_unknown 2 (psm_unknown 2 known))) ≡ false
l2cap_allowed-psm_unknown_test = l2cap_allowed-psm_unknown 2 known
