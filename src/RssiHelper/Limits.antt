-- ===== src/RssiHelper/Limits.antt =====
-- src/rssi_helper.rs, `Limits`: how often the helper is asked. An `Instant` is a number of
-- milliseconds, and `duration_since` stops at zero, as subtraction does here. The current time is
-- an argument. An address is a number.
pub mod Rate
pub mod Target
use bt_daemon.Base.Equality.{nat_eq, pair_eq}
use bt_daemon.Base.Map.{Map, insert, contains_key, retain}
use bt_daemon.Base.{
  ℕ, ◌-◌, Bool, ◌||◌, List, [], ◌∷◌, ◌++◌, Result, ok, err, if◌then◌else◌, ltb, leb, length,
}

-- `limited`
pub data Refusal : Type 0 where
  limited : Refusal

-- `TARGET_INTERVAL`
abbrev pub target_interval : ℕ
target_interval = 2000

abbrev pub Peer : Type 0
Peer = ℕ × ℕ

pub record Limits : Type 0 where
  pub arrivals : List ℕ
  pub targets : Map Peer ℕ

-- `Limits::default()`
abbrev pub default : Limits
default = record { arrivals = []; targets = [] }

-- `now.duration_since(*time) < Duration::from_secs(1)`
abbrev pub is_recent : ℕ → ℕ → Bool
is_recent now time = ltb (now - time) 1000

-- `retain` on the arrivals
unfoldable pub recent : ℕ → List ℕ → List ℕ
recent now [] = []
recent now (time ∷ times) = if is_recent now time then time ∷ recent now times else recent now times

unfoldable pub admit : ℕ → Limits → Result Refusal (Unit {0}) × Limits
admit now l =
    let arrivals = recent now l.arrivals in
    if leb 16 (length arrivals)
    then (err limited, record l { arrivals = arrivals })
    else (ok tt, record l { arrivals = arrivals ++ (now ∷ []) })

-- `retain` on the targets
abbrev pub fresh_targets : ℕ → Map Peer ℕ → Map Peer ℕ
fresh_targets now targets = retain (λ peer time. ltb (now - time) target_interval) targets

unfoldable pub target : ℕ → Peer → Limits → Result Refusal (Unit {0}) × Limits
target now peer l =
    let targets = fresh_targets now l.targets in
    if leb 64 (length targets) || contains_key peer targets
    then (err limited, record l { targets = targets })
    else (ok tt, record l { targets = insert peer now targets })
