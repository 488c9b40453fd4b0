-- ===== src/Bluez/LinkSignal.antt =====
-- src/bluez/link_signal.rs: `Signals`, the readings of connected links. A time is a number of
-- milliseconds, an address a number, and the current time and the wall clock are arguments; an
-- instant counts from more than the longest time that is subtracted.
pub mod Fences
pub mod Outdated
use Prim.Native.String.{String}
use text.Mathlib.Text.{◌==◌ as str_eq}
use bt_daemon.RssiHelper.Mgmt.{ℤ}
use bt_daemon.Base.Equality.{Eq, nat_eq, string_eq, pair_eq}
use bt_daemon.Base.Map.{Map, get, insert}
use bt_daemon.Model.Devices.{RssiKind}
use bt_daemon.Base.{
  ℕ, ◌+◌, ◌-◌, ◌%◌, ◌^◌, Bool, not, true, false, ◌&&◌, ◌||◌, List, [], ◌∷◌, Option, none, some,
  if◌then◌else◌, ◌==◌, leb, ltb, is_some,
}

abbrev pub poll_interval : ℕ
poll_interval = 5000

abbrev pub failure_backoff : ℕ
failure_backoff = 30000

abbrev pub live_ttl : ℕ
live_ttl = 12000

abbrev pub Key : Type 0
Key = String × ℕ

instance abbrev pub key_eq : Eq Key
key_eq = pair_eq ⦃e = string_eq⦄ ⦃f = nat_eq⦄

pub record Reading : Type 0 where
  pub rssi : ℤ
  pub kind : RssiKind
  pub last_seen_ms : ℕ
  pub live : Bool

pub record Entry : Type 0 where
  pub reading : Option Reading
  pub observed : ℕ
  pub attempted : ℕ
  pub succeeded : Bool

pub record Signals : Type 0 where
  pub entries : Map Key Entry
  pub epoch : ℕ
  pub invalidated_devices : List Key
  pub invalidated_adapters : List String

-- `HashSet::contains`, on what was inserted.
abbrev pub holds_key : Key → List Key → Bool
holds_key key [] = false
holds_key key (other ∷ keys) = key_eq.beq other key || holds_key key keys

abbrev pub holds_name : String → List String → Bool
holds_name name [] = false
holds_name name (other ∷ names) = str_eq other name || holds_name name names

-- The checks of `get` on an entry; `cache_ttl` is a constant of the backend.
module _ (cache_ttl : ℕ) where
  abbrev pub shown : ℕ → Bool → Entry → Option Reading → Option Reading
  shown now connected entry none = none
  shown now connected entry (some reading) =
      if ltb cache_ttl (now - entry.observed)
      then none
      else some (record reading {
        live = connected && (entry.succeeded && leb (now - entry.observed) live_ttl);
      })

  abbrev pub shown_entry : ℕ → Bool → Option Entry → Option Reading
  shown_entry now connected none = none
  shown_entry now connected (some entry) = shown now connected entry entry.reading

  -- `Signals::get`
  unfoldable pub get_reading : ℕ → String → ℕ → Bool → Signals → Option Reading
  get_reading now adapter address connected s =
      shown_entry now connected (get (adapter, address) s.entries)

abbrev pub expired : ℕ → Entry → Entry
expired now entry = record entry { succeeded = false; attempted = now - failure_backoff }

-- `name == adapter && address.is_none_or(|address| address == *peer)`
abbrev pub concerns : String → Option ℕ → Key → Bool
concerns adapter none key = str_eq key.0 adapter
concerns adapter (some address) key = str_eq key.0 adapter && address == key.1

abbrev pub expire_some : ℕ → String → Option ℕ → Map Key Entry → Map Key Entry
expire_some now adapter address [] = []
expire_some now adapter address ((key, entry) ∷ entries) =
    (key, if concerns adapter address key then expired now entry else entry)
    ∷ expire_some now adapter address entries

abbrev pub fence : String → Option ℕ → Signals → Signals
fence adapter none s = record s { invalidated_adapters = adapter ∷ s.invalidated_adapters }
fence adapter (some address) s = record s {
  invalidated_devices = (adapter, address) ∷ s.invalidated_devices;
}

unfoldable pub invalidate : ℕ → String → Option ℕ → Signals → Signals
invalidate now adapter address s = record (fence adapter address s) {
  entries = expire_some now adapter address s.entries;
}

abbrev pub expire_all : ℕ → Map Key Entry → Map Key Entry
expire_all now [] = []
expire_all now ((key, entry) ∷ entries) = (key, expired now entry) ∷ expire_all now entries

unfoldable pub suspend : ℕ → Signals → Signals
suspend now s = record s { epoch = (s.epoch + 1) % 2 ^ 64; entries = expire_all now s.entries }

unfoldable pub begin_poll : Signals → ℕ × Signals
begin_poll s =
    let epoch = (s.epoch + 1) % 2 ^ 64 in
    (epoch, record s { epoch = epoch; invalidated_devices = []; invalidated_adapters = [] })

unfoldable pub current : Key → ℕ → Signals → Bool
current key epoch s =
    epoch == s.epoch
    && (not (holds_key key s.invalidated_devices)
        && not (holds_name (key.0) s.invalidated_adapters))

abbrev pub is_due : ℕ → Option Entry → Bool
is_due now none = true
is_due now (some entry) = entry.succeeded || leb failure_backoff (now - entry.attempted)

unfoldable pub due : ℕ → Key → Signals → Bool
due now key s = is_due now (get key s.entries)

-- `entry(key).or_insert(..)`
abbrev pub or_new : ℕ → Option Entry → Entry
or_new now none = record { reading = none; observed = now; attempted = now; succeeded = false }
or_new now (some entry) = entry

abbrev pub observe : ℕ → ℕ → Option (ℤ × RssiKind) → Entry → Entry
observe now wall none entry = record entry { attempted = now; succeeded = false }
observe now wall (some (rssi, kind)) entry = record entry {
  attempted = now;
  succeeded = true;
  observed = now;
  reading = some (record { rssi = rssi; kind = kind; live = true; last_seen_ms = wall });
}

unfoldable pub accept : ℕ → ℕ → Key → ℕ → Option (ℤ × RssiKind) → Signals → Signals
accept now wall key epoch reading s = if not (current key epoch s) then s else record s {
  entries = insert key (observe now wall reading (or_new now (get key s.entries))) s.entries;
}
