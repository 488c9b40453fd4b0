-- ===== src/FastPair/Retry/Peers.antt =====
-- The peers do not disturb one another, and only a new session gives a budget back.
use bt_daemon.Base.Equality.{beq_false, beq_refl, nat_eq}
use bt_daemon.Base.Map.{get-insert, get-remove}
use bt_daemon.FastPair.Retry.{
  l2cap_allowed, peer_psm_unknown, or_default, connected_peer, PeerRetry, RetryPolicy,
  connection_failed, failed, get, connected, insert, psm_unknown, psm_unavailable, reset_session,
  clear_due,
}
use bt_daemon.Base.{true, false, none, arith, Option, refl, ℕ, Bool, ◌≡◌, ◌≢◌, some}

-- The calls that change the policy, at a time and with a random byte.
pub data Call : Type 0 where
  connection_fails : Bool → ℕ → Call
  fails connects psm_is_unknown psm_is_unavailable resets : ℕ → Call
  clears_due : Call

abbrev pub apply : ℕ → ℕ → Call → RetryPolicy → RetryPolicy
apply now random (connection_fails busy address) r = connection_failed now random busy address r
apply now random (fails address) r = failed now random address r
apply now random (connects address) r = connected address r
apply now random (psm_is_unknown address) r = psm_unknown address r
apply now random (psm_is_unavailable address) r = psm_unavailable address r
apply now random (resets address) r = reset_session address r
apply now random clears_due r = clear_due now r

-- Whether a call is about a peer. `clear_due` is about all of them.
abbrev pub Concerns : ℕ → Call → Type 0
Concerns a (connection_fails busy address) = address ≡ a
Concerns a (fails address) = address ≡ a
Concerns a (connects address) = address ≡ a
Concerns a (psm_is_unknown address) = address ≡ a
Concerns a (psm_is_unavailable address) = address ≡ a
Concerns a (resets address) = address ≡ a
Concerns a clears_due = Unit {0}

get-insert_ne : (k j : ℕ) (v : PeerRetry) (r : RetryPolicy) → k ≢ j → get j (insert k v r) ≡ get j r
get-insert_ne k j v r h = rw (get-insert k j v r, beq_false k j h)

get-insert_self : (k : ℕ) (v : PeerRetry) (r : RetryPolicy) → get k (insert k v r) ≡ some v
get-insert_self k v r = rw (get-insert k k v r, beq_refl k)

get-connected_peer :
    (address a : ℕ) (p : Option PeerRetry) (r : RetryPolicy)
    → address ≢ a
    → get a (connected_peer address p r) ≡ get a r
get-connected_peer address a none r h = refl
get-connected_peer address a (some peer) r h = get-insert_ne address a _ r h

-- A call about one peer leaves what is known of every other peer as it was.
pub get-apply :
    (now random a : ℕ) (c : Call) (r : RetryPolicy)
    → ¬ Concerns a c
    → get a (apply now random c r) ≡ get a r
unfolding connection_failed failed connected psm_unknown psm_unavailable reset_session
get-apply now random a (connection_fails busy address) r h = get-insert_ne address a _ r h
get-apply now random a (fails address) r h = get-insert_ne address a _ r h
get-apply now random a (connects address) r h = get-connected_peer address a (get address r) r h
get-apply now random a (psm_is_unknown address) r h = get-insert_ne address a _ r h
get-apply now random a (psm_is_unavailable address) r h = get-insert_ne address a _ r h
get-apply now random a (resets address) r h = rw (get-remove address a r, beq_false address a h)
get-apply now random a clears_due r h = absurd (h tt)

get-psm_unknown :
    (address : ℕ) (r : RetryPolicy)
    → get address (psm_unknown address r) ≡ some (peer_psm_unknown (or_default (get address r)))
unfolding psm_unknown
get-psm_unknown address r = get-insert_self address _ r

third_unknown :
    (peer : PeerRetry)
    → (peer_psm_unknown (peer_psm_unknown (peer_psm_unknown peer))).unavailable_psm ≡ true
unfolding peer_psm_unknown
third_unknown peer = ground arith

-- An L2CAP connection is refused after the channel was unknown three times, whatever was known
-- before.
pub l2cap_allowed-psm_unknown :
    (address : ℕ) (r : RetryPolicy)
    → l2cap_allowed address (psm_unknown address (psm_unknown address (psm_unknown address r)))
      ≡ false
unfolding l2cap_allowed
l2cap_allowed-psm_unknown address r = rw (
  get-psm_unknown address (psm_unknown address (psm_unknown address r)),
  get-psm_unknown address (psm_unknown address r),
  get-psm_unknown address r,
  third_unknown (or_default (get address r)),
)
