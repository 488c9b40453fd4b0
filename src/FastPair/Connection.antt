-- ===== src/FastPair/Connection.antt =====
-- src/fast_pair.rs: `ConnectionState`, which lets one connection to each peer be under way. The
-- time is in milliseconds, as in src/fast_pair/retry.rs; a writer is known by a number.
pub mod Attempts
pub mod Run
pub mod Numbers
use bt_daemon.Base.Equality.{nat_eq}
use bt_daemon.Base.Map.{Map, get, insert, remove, contains_key}
use bt_daemon.FastPair.Retry.{
  RetryPolicy, ready, failed, connected, connection_failed as note_failure, reset_session,
  l2cap_allowed,
}
use bt_daemon.Base.{
  ℕ, ◌+◌, ◌-◌, ◌%◌, ◌^◌, Bool, not, true, false, ◌&&◌, ◌||◌, List, [], Option, none, some, ◌==◌,
  leb, if◌then◌else◌,
}

-- `STALE_CONNECT`
abbrev pub stale_connect : ℕ
stale_connect = 30000

pub data MessageStreamTransport : Type 0 where
  rfcomm l2cap : MessageStreamTransport

pub select_transport : Bool → Bool → Bool → Option MessageStreamTransport
select_transport rfcomm_available supports_rfcomm supports_l2cap =
    if rfcomm_available && supports_rfcomm
    then some rfcomm
    else if supports_l2cap
    then some l2cap
    else none

-- `LinkState`; the first number of `connecting` is the attempt.
pub data LinkState : Type 0 where
  connecting : ℕ → ℕ → LinkState
  connected_at : ℕ → LinkState

pub record ConnectionState : Type 0 where
  pub links : Map ℕ LinkState
  pub writers : Map ℕ ℕ
  pub retry : RetryPolicy
  pub next_attempt : ℕ

-- `ConnectionState::default()`
abbrev pub default : ConnectionState
default = record { links = []; writers = []; retry = []; next_attempt = 0 }

-- `Some(LinkState::Connecting { started, .. }) if started.elapsed() >= STALE_CONNECT`
abbrev pub is_stale : ℕ → Option LinkState → Bool
is_stale now none = false
is_stale now (some (connected_at start)) = false
is_stale now (some (connecting attempt started)) = leb stale_connect (now - started)

-- `Some(LinkState::Connecting { .. })`
abbrev pub is_connecting : Option LinkState → Bool
is_connecting none = false
is_connecting (some (connected_at start)) = false
is_connecting (some (connecting attempt started)) = true

-- `Some(LinkState::Connected(_))`
abbrev pub is_connected : Option LinkState → Bool
is_connected none = false
is_connected (some (connected_at start)) = true
is_connected (some (connecting attempt started)) = false

abbrev pub is_attempt : ℕ → Option LinkState → Bool
is_attempt attempt none = false
is_attempt attempt (some (connected_at start)) = false
is_attempt attempt (some (connecting current started)) = current == attempt

-- `Some(LinkState::Connected(start)) if start.elapsed() >= Duration::from_secs(60)`
abbrev pub was_long : ℕ → Option LinkState → Bool
was_long now none = false
was_long now (some (connecting attempt started)) = false
was_long now (some (connected_at start)) = leb 60000 (now - start)

abbrev pub is_l2cap : MessageStreamTransport → Bool
is_l2cap rfcomm = false
is_l2cap l2cap = true

-- The first `if` of `begin`.
unfoldable pub expire : ℕ → ℕ → ℕ → ConnectionState → ConnectionState
expire now random address s =
    if is_stale now (get address s.links)
    then record s { links = remove address s.links; retry = failed now random address s.retry }
    else s

-- The condition under which `begin` gives no attempt.
abbrev pub is_refused : ℕ → ℕ → MessageStreamTransport → ConnectionState → Bool
is_refused now address transport s =
    contains_key address s.links
    || (not (ready now address s.retry)
        || (is_l2cap transport && not (l2cap_allowed address s.retry)))

abbrev pub start : ℕ → ℕ → ConnectionState → Option ℕ × ConnectionState
start now address s =
    let attempt = (s.next_attempt + 1) % 2 ^ 64 in
    (
      some attempt,
      record s { next_attempt = attempt; links = insert address (connecting attempt now) s.links },
    )

unfoldable pub begin :
    ℕ → ℕ → ℕ → MessageStreamTransport → ConnectionState → Option ℕ × ConnectionState
begin now random address transport s =
    let fresh = expire now random address s in
    if is_refused now address transport fresh then (none, fresh) else start now address fresh

unfoldable pub is_current_attempt : ℕ → ℕ → ConnectionState → Bool
is_current_attempt address attempt s = is_attempt attempt (get address s.links)

unfoldable pub note_connection_change : ℕ → Bool → ConnectionState → ConnectionState
note_connection_change address is_now s =
    let reset = reset_session address s.retry in
    if not is_now && is_connecting (get address s.links)
    then record s { retry = reset; links = remove address s.links }
    else record s { retry = reset }

unfoldable pub mark_connected : ℕ → ℕ → ConnectionState → Bool × ConnectionState
mark_connected now address s = if is_connected (get address s.links) then (false, s) else (
  true,
  record s { links = insert address (connected_at now) s.links; retry = connected address s.retry },
)

unfoldable pub connect_completed : ℕ → ℕ → ℕ → ConnectionState → Bool × ConnectionState
connect_completed now address attempt s =
    if is_current_attempt address attempt s then mark_connected now address s else (false, s)

unfoldable pub ended : ℕ → ℕ → ℕ → ConnectionState → ConnectionState
ended now random address s = record s {
  links = remove address s.links;
  writers = remove address s.writers;
  retry =
      failed now random address
        (if was_long now (get address s.links) then reset_session address s.retry else s.retry);
}

-- `busy` is the answer of `is_connection_busy`.
unfoldable pub connection_failed : ℕ → ℕ → Bool → ℕ → ℕ → ConnectionState → ConnectionState
connection_failed now random busy address attempt s =
    if is_current_attempt address attempt s
    then record s {
      links = remove address s.links;
      retry = note_failure now random busy address s.retry;
    }
    else s
