-- ===== src/Daemon/Scan.antt =====
-- src/daemon/scan.rs: the scans that are active, and the adapters that they hold. A request id
-- `scan-N` is the number N. `set` stands for the backend's `set_scanning`, and `look` for its
-- `snapshot`; a call of the backend takes the world to a new one. The timers are not modelled: a
-- timeout that fires is a call of `complete`.
pub mod Held
use bt_daemon.Base.Equality.{nat_eq}
use bt_daemon.Base.Map.{Map, remove, insert, get}
use bt_daemon.Model.{Snapshot, Adapter}
use bt_daemon.Base.{
  ℕ, ◌+◌, Bool, true, false, not, ◌&&◌, ◌||◌, List, [], ◌∷◌, ◌++◌, Option, none, some, Result, ok,
  err, if◌then◌else◌, ◌==◌, min, max, ltb,
}
use Prim.Native.String.{String}
use Prim.Native.Char.{code}
use text.Mathlib.Text.{◌==◌ as str_eq}

pub data Phase : Type 0 where
  running cancelled completed failed : Phase

pub record ScanEvent (S : Type 0) (F : Type 0) : Type 0 where
  pub request_id : ℕ
  pub adapter_key : Option String
  pub adapter_keys : List String
  pub owner : String
  pub state : Phase
  pub timeout_ms : Option ℕ
  pub snapshot : Option S
  pub error : Option F

-- `clamp(1_000, 60_000)`, and 15 s where no timeout is asked for.
pub timeout_of : Option ℕ → ℕ
timeout_of none = 15000
timeout_of (some ms) = min (max ms 1000) 60000

abbrev pub is_requested : Option String → String → Bool
is_requested none key = true
is_requested (some requested) key = str_eq key requested

-- The `filter` and the `map` of `powered_adapter_keys`.
pub powered_keys : List Adapter → Option String → List String
powered_keys [] requested = []
powered_keys (a ∷ adapters) requested =
    if a.powered && (a.discovering && is_requested requested a.key)
    then a.key ∷ powered_keys adapters requested
    else powered_keys adapters requested

pub powered_adapter_keys : Snapshot → Option String → List String
powered_adapter_keys s requested = powered_keys s.adapters requested

-- Whether a slice or a set holds the key.
unfoldable pub holds : String → List String → Bool
holds key [] = false
holds key (k ∷ keys) = str_eq k key || holds key keys

abbrev pub Tasks : Type 0 → Type 0 → Type 0
Tasks S F = Map ℕ (ScanEvent S F)

module _ {S F : Type 0} where
  abbrev pub is_selected : Option ℕ → Option String → ℕ → ScanEvent S F → Bool
  is_selected request owner id task =
      elim request [ none ↦ true | some r ↦ r == id ]
      && elim owner [ none ↦ true | some o ↦ str_eq task.owner o ]

  -- The ids, the adapters of the selected scans, and those of the others.
  pub collect : Option ℕ → Option String → Tasks S F → List ℕ × (List String × List String)
  collect request owner [] = ([], ([], []))
  collect request owner ((id, task) ∷ tasks) =
      let (ids, (adapters, retained)) = collect request owner tasks in
      if is_selected request owner id task
      then (id ∷ ids, (task.adapter_keys ++ adapters, retained))
      else (ids, (adapters, task.adapter_keys ++ retained))

-- `adapters.difference(&retained)`; `adapters` is a set, so a key comes once.
pub difference : List String → List String → List String
difference [] retained = []
difference (key ∷ adapters) retained =
    let rest = difference adapters retained in
    if holds key retained || holds key rest then rest else key ∷ rest

-- `String`'s order: by the code points, which is the order of the bytes of UTF-8.
pub string_le : String → String → Bool
string_le String.[] t = true
string_le (String.◌∷◌ c s) String.[] = false
string_le (String.◌∷◌ c s) (String.◌∷◌ d t) =
    ltb (code c) (code d) || (code c == code d && string_le s t)

pub insert_key : String → List String → List String
insert_key key [] = key ∷ []
insert_key key (k ∷ keys) = if string_le key k then key ∷ k ∷ keys else k ∷ insert_key key keys

pub sort : List String → List String
sort [] = []
sort (key ∷ keys) = insert_key key (sort keys)

module _ {S F : Type 0} where
  pub select_scans : Tasks S F → Option ℕ → Option String → List ℕ × List String
  select_scans tasks request owner =
      let (ids, (adapters, retained)) = collect request owner tasks in
      (ids, sort (difference adapters retained))

-- The backend, as far as scans need it.
module _ {S F W : Type 0} (set : Option String → Bool → W → Result F S × W)
    (look : W → Result F S × W) where
  -- `result.and(current.map(Some))`: the first error, or the last snapshot.
  abbrev pub and_then_last : Result F (Option S) → Result F S → Result F (Option S)
  and_then_last (err e) current = err e
  and_then_last (ok s) (ok snapshot) = ok (some snapshot)
  and_then_last (ok s) (err e) = err e

  pub stop_loop : List String → Result F (Option S) → W → Result F (Option S) × W
  stop_loop [] result w = (result, w)
  stop_loop (key ∷ keys) result w =
      let (current, next) = set (some key) false w in
      stop_loop keys (and_then_last result current) next

  abbrev pub last_or_look : Result F (Option S) × W → Result F S × W
  last_or_look (err e, w) = (err e, w)
  last_or_look (ok (some snapshot), w) = (ok snapshot, w)
  last_or_look (ok none, w) = look w

  pub stop_adapters : List String → W → Result F S × W
  stop_adapters keys w = last_or_look (stop_loop keys (ok none) w)

  pub record Coordinator : Type 0 where
    pub sequence : ℕ
    pub tasks : Tasks S F
    pub events : List (ScanEvent S F)
    pub world : W

  pub data Response : Type 0 where
    stopped : S → Response
    started : ℕ → S → Response
    request_not_found scan_not_started : Response
    stop_failed start_failed : F → Response

  -- A removed task's last event.
  abbrev pub terminal : Phase → S → ScanEvent S F → ScanEvent S F
  terminal event last e = record e { state = event; timeout_ms = none; snapshot = some last }

  -- The removal of the selected tasks: those that stay, and the events of the others.
  pub remove_all :
      List ℕ → Phase → S → Tasks S F → List (ScanEvent S F) → Tasks S F × List (ScanEvent S F)
  remove_all [] event last tasks events = (tasks, events)
  remove_all (id ∷ ids) event last tasks events =
      remove_all ids event last (remove id tasks)
        (events ++ elim (get id tasks) [ none ↦ [] | some e ↦ terminal event last e ∷ [] ])

  stop_with : List ℕ → Phase → Result F S × W → Coordinator → Response × Coordinator
  stop_with ids event (err e, w) c = (stop_failed e, record c { world = w })
  stop_with ids event (ok last, w) c =
      let (tasks, events) = remove_all ids event last c.tasks c.events in
      (stopped last, record c { tasks = tasks; events = events; world = w })

  pub stop_selected : Option ℕ → Option String → Phase → Coordinator → Response × Coordinator
  stop_selected request owner event c =
      let (ids, adapters) = select_scans c.tasks request owner in
      elim ids [
        | [] ↦ (request_not_found, c)
        | id ∷ rest ↦ stop_with (id ∷ rest) event (stop_adapters adapters c.world) c
      ]

  -- The event of a scan that started, and what `start` does with a snapshot.
  start_with :
      Option String → ℕ → String → List String → S → W → Coordinator → Response × Coordinator
  start_with adapter_key timeout_ms owner [] snapshot w c =
      (scan_not_started, record c { world = (set adapter_key false w).1 })
  start_with adapter_key timeout_ms owner (key ∷ keys) snapshot w c =
      let running : ScanEvent S F = record {
        request_id = c.sequence;
        adapter_key = adapter_key;
        adapter_keys = key ∷ keys;
        owner = owner;
        state = Phase.running;
        timeout_ms = some timeout_ms;
        snapshot = some snapshot;
        error = none;
      } in
      (
        started c.sequence snapshot,
        record {
          sequence = c.sequence + 1;
          tasks = insert c.sequence running c.tasks;
          events = c.events ++ (running ∷ []);
          world = w;
        },
      )

  -- `keys_of` is `powered_adapter_keys` on the backend's snapshots.
  pub start :
      (S → Option String → List String)
      → Option String
      → Option ℕ
      → String
      → Coordinator
      → Response × Coordinator
  start keys_of adapter_key timeout owner c =
      let (result, w) = set adapter_key true c.world in
      elim result [
        | err e ↦ (start_failed e, record c { world = w })
        | ok snapshot ↦
            start_with adapter_key (timeout_of timeout) owner (keys_of snapshot adapter_key)
              snapshot w c
      ]

  -- `terminal_event`
  abbrev pub terminal_event : ℕ → Option String → Result F S → ScanEvent S F
  terminal_event id adapter (ok snapshot) = record {
    request_id = id;
    adapter_key = adapter;
    adapter_keys = [];
    owner = "";
    state = completed;
    timeout_ms = none;
    snapshot = some snapshot;
    error = none;
  }
  terminal_event id adapter (err e) = record {
    request_id = id;
    adapter_key = adapter;
    adapter_keys = [];
    owner = "";
    state = failed;
    timeout_ms = none;
    snapshot = none;
    error = some e;
  }

  -- The event is sent in the first round only, while there is an adapter to take.
  abbrev pub first_event : ℕ → Option (Option String) → Result F S → List (ScanEvent S F)
  first_event id none result = []
  first_event id (some adapter) result = terminal_event id adapter result ∷ []

  abbrev pub without : ℕ → Result F S → Tasks S F → Tasks S F
  without id (ok snapshot) tasks = remove id tasks
  without id (err e) tasks = tasks

  complete_with : ℕ → Option (Option String) → Result F S × W → Coordinator → Coordinator
  complete_with id adapter (result, w) c = record c {
    tasks = without id result c.tasks;
    events = c.events ++ first_event id adapter result;
    world = w;
  }

  -- One round of the loop of `spawn_timeout`. A scan that failed to stop stays, and is tried again.
  pub complete : ℕ → Option (Option String) → Coordinator → Coordinator
  complete id adapter c =
      let (ids, adapters) = select_scans c.tasks (some id) none in
      elim ids [ [] ↦ c | i ∷ rest ↦ complete_with id adapter (stop_adapters adapters c.world) c ]
