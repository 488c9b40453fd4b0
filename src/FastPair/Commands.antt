-- ===== src/FastPair/Commands.antt =====
-- src/fast_pair/commands.rs: the commands of the Message Stream that wait for an acknowledgement. A
-- key is an address, a group and a code. The sender in an entry is known by its generation, and
-- `delivered` is what the senders have been given, in order; a sender that is dropped gives nothing.
pub mod Once
use bt_daemon.Base.Equality.{Eq, nat_eq, pair_eq}
use bt_daemon.Base.Map.{Map, get, insert, remove, contains_key, retain}
use bt_daemon.Base.{
  ℕ, ◌+◌, ◌-◌, ◌^◌, Bool, not, List, [], ◌∷◌, ◌++◌, Option, none, some, Result, ok, err,
  if◌then◌else◌, ltb, ◌==◌, false,
}

abbrev pub Key : Type 0
Key = ℕ × (ℕ × ℕ)

instance abbrev pub key_eq : Eq Key
key_eq = pair_eq ⦃e = nat_eq⦄ ⦃f = pair_eq ⦃e = nat_eq⦄ ⦃f = nat_eq⦄⦄

-- `Reply`; the reason is a text that the peer gave.
pub data Reply : Type 0 where
  accepted rejected : Reply

pub data Refusal : Type 0 where
  already_pending generation_exhausted : Refusal

pub record PendingCommands : Type 0 where
  pub sequence : ℕ
  pub entries : Map Key ℕ
  pub delivered : List (ℕ × Reply)

-- `PendingCommands::default()`
abbrev pub default : PendingCommands
default = record { sequence = 0; entries = []; delivered = [] }

-- The generation of the reservation. `checked_add` fails at the last `u64`.
unfoldable pub reserve : Key → PendingCommands → Result Refusal ℕ × PendingCommands
reserve key p =
    if contains_key key p.entries
    then (err already_pending, p)
    else if ltb p.sequence (2 ^ 64 - 1)
    then (
      ok p.sequence,
      record p { sequence = p.sequence + 1; entries = insert key p.sequence p.entries },
    )
    else (err generation_exhausted, p)

-- What `sender.send(result)` adds, if there was an entry.
abbrev pub sent : Option ℕ → Reply → List (ℕ × Reply)
sent none result = []
sent (some generation) result = (generation, result) ∷ []

unfoldable pub resolve : Key → Reply → PendingCommands → PendingCommands
resolve key result p = record p {
  entries = remove key p.entries;
  delivered = p.delivered ++ sent (get key p.entries) result;
}

unfoldable pub disconnect : ℕ → PendingCommands → PendingCommands
disconnect address p = record p {
  entries = retain (λ key generation. not (key.0 == address)) p.entries;
}

unfoldable pub clear : PendingCommands → PendingCommands
clear p = record p { entries = [] }

-- The test of `drop` on the entry.
abbrev pub is_generation : ℕ → Option ℕ → Bool
is_generation generation none = false
is_generation generation (some g) = g == generation

-- `Drop for Reservation`
unfoldable pub release : Key → ℕ → PendingCommands → PendingCommands
release key generation p =
    if is_generation generation (get key p.entries)
    then record p { entries = remove key p.entries }
    else p
