-- ===== src/FastPair/Retry.antt =====
-- src/fast_pair/retry.rs: when a peer is tried again. An `Instant` is a number of milliseconds, and
-- an address is a number; the current time and the random byte are arguments. `busy` is the answer
-- of `is_connection_busy`.
pub mod Delays
pub mod Peers
use bt_daemon.Base.Equality.{nat_eq}
use bt_daemon.Base.Map.{Map, get, insert, remove}
use bt_daemon.Base.{
  ℕ, Bool, List, Option, map, min, none, ◌%◌, ◌||◌, false, if◌then◌else◌, is_none_or, leb, some,
  true, ◌*◌, ◌+◌, ◌/◌, ◌∷◌, [], get_elem?, ltb, not, ◌^◌, ◌-◌,
}

-- `BUSY_RETRY_MS`
abbrev pub busy_retry_ms : List ℕ
busy_retry_ms = 250 ∷ 500 ∷ 1000 ∷ 1000 ∷ 1000 ∷ 1000 ∷ []

pub record PeerRetry : Type 0 where
  pub failures : ℕ
  pub busy_attempts : ℕ
  pub after : Option ℕ
  pub unknown_psm : ℕ
  pub unavailable_psm : Bool

-- `PeerRetry::default()`
abbrev pub fresh : PeerRetry
fresh = record {
  failures = 0;
  busy_attempts = 0;
  after = none;
  unknown_psm = 0;
  unavailable_psm = false;
}

-- `saturating_add(1)` below the modulus
abbrev pub saturating_suc : ℕ → ℕ → ℕ
saturating_suc top n = min (n + 1) top

-- `(15 * (1 << failures.min(5))).min(300)`
pub backoff_seconds : ℕ → ℕ
backoff_seconds failures = min (15 * 2 ^ min failures 5) 300

-- `PeerRetry::failed`
pub peer_failed : ℕ → ℕ → PeerRetry → PeerRetry
peer_failed now random peer =
    let seconds = backoff_seconds peer.failures in
    let jitter = random % (seconds / 5 + 1) in
    record peer {
      failures = saturating_suc (2 ^ 32 - 1) peer.failures;
      after = some (now + (seconds + jitter) * 1000);
    }

abbrev pub RetryPolicy : Type 0
RetryPolicy = Map ℕ PeerRetry

-- `entry(address).or_default()`
abbrev pub or_default : Option PeerRetry → PeerRetry
or_default none = fresh
or_default (some peer) = peer

abbrev pub after_of : Option PeerRetry → Option ℕ
after_of none = none
after_of (some peer) = peer.after

unfoldable pub ready : ℕ → ℕ → RetryPolicy → Bool
ready now address r = is_none_or (after_of (get address r)) (λ deadline. leb deadline now)

-- `Option::min` of what `values().filter_map(..)` gives
earlier : Option ℕ → Option ℕ → Option ℕ
earlier none b = b
earlier (some a) none = some a
earlier (some a) (some b) = some (min a b)

pub next_deadline : RetryPolicy → Option ℕ
unfolding earlier
next_deadline [] = none
next_deadline ((address, peer) ∷ r) = earlier peer.after (next_deadline r)

-- `deadline.filter(|deadline| *deadline > now)`
not_due : ℕ → Option ℕ → Option ℕ
not_due now none = none
not_due now (some deadline) = if ltb now deadline then some deadline else none

pub clear_due : ℕ → RetryPolicy → RetryPolicy
unfolding not_due
clear_due now [] = []
clear_due now ((address, peer) ∷ r) =
    (address, record peer { after = not_due now peer.after }) ∷ clear_due now r

-- `if is_connection_busy(error) && let Some(&millis) = BUSY_RETRY_MS.get(peer.busy_attempts)`
pub peer_connection_failed : ℕ → ℕ → Bool → PeerRetry → PeerRetry
peer_connection_failed now random busy peer =
    elim (if busy then get_elem? busy_retry_ms peer.busy_attempts else none) [
      | some millis ↦ record peer {
        busy_attempts = peer.busy_attempts + 1;
        after = some (now + millis);
      }
      | none ↦ peer_failed now random peer
    ]

pub connection_failed : ℕ → ℕ → Bool → ℕ → RetryPolicy → RetryPolicy
connection_failed now random busy address r =
    insert address (peer_connection_failed now random busy (or_default (get address r))) r

unfoldable pub failed : ℕ → ℕ → ℕ → RetryPolicy → RetryPolicy
failed now random address r = insert address (peer_failed now random (or_default (get address r))) r

-- `if let Some(peer) = self.0.get_mut(&address)`
abbrev pub connected_peer : ℕ → Option PeerRetry → RetryPolicy → RetryPolicy
connected_peer address none r = r
connected_peer address (some peer) r = insert address (record peer { after = none }) r

pub connected : ℕ → RetryPolicy → RetryPolicy
connected address r = connected_peer address (get address r) r

pub l2cap_allowed : ℕ → RetryPolicy → Bool
l2cap_allowed address r = is_none_or (get address r) (λ peer. not peer.unavailable_psm)

pub peer_psm_unknown : PeerRetry → PeerRetry
peer_psm_unknown peer =
    let unknown = saturating_suc 255 peer.unknown_psm in
    record peer { unknown_psm = unknown; unavailable_psm = peer.unavailable_psm || leb 3 unknown }

pub psm_unknown : ℕ → RetryPolicy → RetryPolicy
unfolding peer_psm_unknown
psm_unknown address r = insert address (peer_psm_unknown (or_default (get address r))) r

pub psm_unavailable : ℕ → RetryPolicy → RetryPolicy
psm_unavailable address r =
    let peer = or_default (get address r) in
    insert address (record peer { unavailable_psm = true }) r

unfoldable pub reset_session : ℕ → RetryPolicy → RetryPolicy
reset_session address r = remove address r
