-- ===== src/RssiHelper/Helper.antt =====
-- src/rssi_helper.rs, `Helper::execute` over its backend. The answers of the backend are arguments:
-- `address` is what the text of the address parses to. The permits are those that are free; the
-- timeout is not modelled.
use bt_daemon.RssiHelper.Limits.{Limits, admit, target}
use bt_daemon.RssiHelper.Mgmt.{ℤ, pos, Reply, reading, is_not_connected, denied, unavailable}
use bt_daemon.Base.{
  ℕ, zero, suc, Bool, false, Option, none, some, Result, ok, err, if◌then◌else◌, ◌==◌, ◌||◌, not,
}

pub data Status : Type 0 where
  is_ok not_connected permission_denied timeout unavailable_now : Status

pub record Sample : Type 0 where
  pub status : Status
  pub rssi : ℤ
  pub relative : Bool

-- `Sample::status`
abbrev pub without_reading : Status → Sample
without_reading status = record { status = status; rssi = pos 0; relative = false }

-- The kinds of `io::Error` that are told apart.
pub data ReadError : Type 0 where
  no_permission timed_out other_error : ReadError

pub from_read : Result ReadError (Reply × Bool) → Sample
from_read (ok (reading rssi, relative)) = record {
  status = is_ok;
  rssi = rssi;
  relative = relative;
}
from_read (ok (is_not_connected, relative)) = without_reading not_connected
from_read (ok (denied, relative)) = without_reading permission_denied
from_read (ok (unavailable, relative)) = without_reading unavailable_now
from_read (err no_permission) = without_reading permission_denied
from_read (err timed_out) = without_reading timeout
from_read (err other_error) = without_reading unavailable_now

pub data Failure : Type 0 where
  limit_reached access_denied invalid_target invalid_address backend_failed : Failure

-- `parse_target`, on the length of the text and what it parses to.
pub parse_target : ℕ → ℕ → Option ℕ → Result Failure ℕ
parse_target index length address =
    if index == 0xffff || not (length == 17)
    then err invalid_target
    else elim address [ none ↦ err invalid_address | some a ↦ ok a ]

pub record Backend : Type 0 where
  pub authorize : Result Failure (Unit {0})
  pub connected : Result Failure (Option Bool)
  pub read : Bool → Result ReadError (Reply × Bool)

-- What follows the two limits.
pub read_connected : Backend → Result Failure Sample
read_connected b = elim b.connected [
  | err e ↦ err e
  | ok c ↦ elim c [
    | none ↦ ok (without_reading not_connected)
    | some random ↦ ok (from_read (b.read random))
  ]
]

-- `target(..)?`, and what follows it
pub ask_target : ℕ → ℕ → ℕ → Backend → Limits → Result Failure Sample × Limits
ask_target now index address b l =
    let (taken, after) = target now (index, address) l in
    elim taken [ err e ↦ (err limit_reached, after) | ok _ ↦ (read_connected b, after) ]

pub authorized : ℕ → ℕ → ℕ → Backend → Limits → Result Failure Sample × Limits
authorized now index address b l = elim b.authorize [
  | err e ↦ (err e, l)
  | ok _ ↦ ask_target now index address b l
]

pub admitted_request : ℕ → ℕ → ℕ → Option ℕ → Backend → Limits → Result Failure Sample × Limits
admitted_request now index length address b l = elim (parse_target index length address) [
  | err e ↦ (err e, l)
  | ok a ↦ authorized now index a b l
]

-- The first argument is the number of free permits; they are given back at the end.
pub execute : ℕ → ℕ → ℕ → ℕ → Option ℕ → Backend → Limits → Result Failure Sample × Limits
execute zero now index length address b l = (err limit_reached, l)
execute (suc free) now index length address b l =
    let (taken, after) = admit now l in
    elim taken [
      | err e ↦ (err limit_reached, after)
      | ok _ ↦ admitted_request now index length address b after
    ]
