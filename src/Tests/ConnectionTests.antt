-- ===== src/Tests/ConnectionTests.antt =====
-- src/fast_pair.rs, the connections of a peer in concrete runs.
use bt_daemon.Base.Equality.{nat_eq}
use bt_daemon.Base.Map.{get, insert, remove, contains_key}
use bt_daemon.FastPair.Connection.{
  ConnectionState, begin, expire, connect_completed, connection_failed, default, connecting, rfcomm,
  mark_connected, note_connection_change,
}
use bt_daemon.FastPair.Retry.{ready, reset_session}
use bt_daemon.FastPair.Connection.Run.{
  World, Reach, Reach-IsExclusive, here, next, begins, requested, accepts, notes, count, offered,
}
use bt_daemon.FastPair.Connection.Attempts.{up}
use bt_daemon.FastPair.Connection.Numbers.{Steps, begin-superseded}
use bt_daemon.Base.{ℕ, ◌≡◌, [], ◌∷◌, arith, refl, some, false, true, if◌then◌else◌, ◌+◌}

abbrev peer : ℕ
peer = 7

abbrev begun : ConnectionState
begun = record default { next_attempt = 1; links = (peer, connecting 1 0) ∷ [] }

abbrev gone : ConnectionState
gone = record default { next_attempt = 1 }

abbrev again : ConnectionState
again = record default { next_attempt = 2; links = (peer, connecting 2 5) ∷ [] }

abbrev first : ConnectionState
first = (begin 0 0 peer rfcomm default).1

-- A request that comes while an attempt is under way.
abbrev asked : World
asked =
    offered peer (mark_connected 1 peer first)
      (record { state = first; readers = []; accepting = [] })

-- Its stream is accepted.
abbrev delivered : World
delivered = record { state = (mark_connected 1 peer first).1; readers = peer ∷ []; accepting = [] }

delivered-Reach : Reach delivered
unfolding mark_connected begin expire get insert contains_key ready
delivered-Reach =
    next (next (next here (begins 0 0 peer rfcomm)) (requested 1 peer)) (accepts peer (omega arith))

Reach-IsExclusive_example :
    count peer delivered.readers + count peer delivered.accepting
    ≡ (if up peer delivered.state then 1 else 0)
Reach-IsExclusive_example = Reach-IsExclusive peer delivered-Reach

asked_handler : count peer asked.accepting ≡ 1
unfolding mark_connected begin expire get insert contains_key ready
asked_handler = refl

-- The attempt is given up by an event, and another begins.
abbrev dropped : World
dropped = record { state = note_connection_change peer false begun; readers = []; accepting = [] }

begins_first : begin 0 0 peer rfcomm default ≡ (some 1, begun)
unfolding begin expire get insert contains_key ready
begins_first = refl

begins_again : begin 5 0 peer rfcomm dropped.state ≡ (some 2, again)
unfolding begin expire get insert contains_key ready note_connection_change remove reset_session
begins_again = refl

one_step : Steps 1 (record { state = begun; readers = []; accepting = [] }) dropped
one_step = Steps.next Steps.here (notes peer false)

begin-superseded_example :
    (connect_completed 6 peer 1 again ≡ (false, again))
    × (connection_failed 6 0 true peer 1 again ≡ again)
begin-superseded_example =
    begin-superseded 0 0 peer 1 rfcomm default begun [] [] 1 dropped 5 0 2 rfcomm again 6 0 true
      begins_first one_step (omega arith) begins_again
