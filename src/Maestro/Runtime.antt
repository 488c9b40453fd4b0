-- ===== src/Maestro/Runtime.antt =====
-- src/maestro/protocol.rs: service ids, the announced channel, the runtime-info subscription and
-- the batteries that it reports.
pub mod Levels
pub mod Subscribe
use bt_daemon.Maestro.{invalid_level, Error}
use bt_daemon.Maestro.Frame.{encode_frame}
use bt_daemon.Maestro.Fields.{Field, bytes, varint, fields, fixed32}
use Prim.Native.Nat.{bit_or}
use Prim.Native.Char.{code}
use Prim.Native.String.{String}
use bt_daemon.Base.{
  ℕ, List, Option, Result, none, Bool, if◌then◌else◌, length, some, [], ltb, not, ok, ◌%◌, ◌+◌,
  ◌==◌, ◌>>=◌, false, ◌&&◌, ◌*◌, ◌^◌, leb, true, ◌||◌, err, ◌∷◌,
}
use bt_daemon.Maestro.Packet.{default as empty_packet, Packet, encode_packet}

-- The bytes of an ASCII name.
abbrev pub codes : String → List ℕ
codes String.[] = []
codes (String.◌∷◌ c s) = code c ∷ codes s

-- The `while` loop of `id`; arithmetic wraps at 32 bits.
id_loop : ℕ → ℕ → List ℕ → ℕ
id_loop hash coefficient [] = hash
id_loop hash coefficient (byte ∷ rest) =
    id_loop ((hash + coefficient * byte % 2 ^ 32) % 2 ^ 32) (coefficient * 65599 % 2 ^ 32) rest

unfoldable pub id : List ℕ → ℕ
unfolding id_loop
id name = id_loop (length name % 2 ^ 32) 65599 name

abbrev pub request : ℕ
request = 0

abbrev pub response : ℕ
response = 1

abbrev pub server_error : ℕ
server_error = 5

abbrev pub server_stream : ℕ
server_stream = 7

unfoldable pub maestro_service : ℕ
maestro_service = id (codes "maestro_pw.Maestro")

unfoldable pub get_software_info : ℕ
get_software_info = id (codes "GetSoftwareInfo")

unfoldable pub subscribe_runtime_info_id : ℕ
subscribe_runtime_info_id = id (codes "SubscribeRuntimeInfo")

abbrev pub subscribe_call : ℕ
subscribe_call = 0

pub record Channel : Type 0 where
  pub id : ℕ
  pub address : ℕ

-- `CHANNELS`: the channel's id, and its local and remote peers.
abbrev pub channels : List (ℕ × ℕ × ℕ)
channels = (18, 10, 2) ∷ (19, 10, 3) ∷ (21, 10, 4) ∷ (23, 13, 2) ∷ (24, 13, 3) ∷ (26, 13, 4) ∷ []

find_channel : ℕ → List (ℕ × ℕ × ℕ) → Option Channel
find_channel wanted [] = none
find_channel wanted ((c, near, far) ∷ rest) =
    if c == wanted
    then some (record { id = c; address = bit_or (near * 64) (far * 1024) })
    else find_channel wanted rest

unfoldable pub announced_channel : Packet → Option Channel
unfolding find_channel
announced_channel p =
    if not (p.kind == response && (p.service == maestro_service && p.method == get_software_info))
    then none
    else find_channel p.channel channels

pub subscription_packet : Channel → Packet
subscription_packet c = record empty_packet {
  kind = request;
  channel = c.id;
  service = maestro_service;
  method = subscribe_runtime_info_id;
  call = subscribe_call;
}

pub subscribe_runtime_info : Channel → List ℕ
subscribe_runtime_info c = encode_frame c.address (encode_packet (subscription_packet c))

pub record Reading : Type 0 where
  pub level : ℕ
  pub charging : Option Bool

pub record Batteries : Type 0 where
  pub left : Option Reading
  pub right : Option Reading
  pub case : Option Reading

pub data Update : Type 0 where
  batteries : Batteries → Update
  ended : ℕ → Update
  ignored : Update

-- The loop of `decode_reading`: the level and the state, the last of each kind.
pub reading_loop : ℕ → ℕ → List Field → ℕ × ℕ
reading_loop level state [] = (level, state)
reading_loop level state ((n, varint value) ∷ fs) =
    reading_loop (if n == 1 then value else level) (if n == 2 then value else state) fs
reading_loop level state ((n, fixed32 value) ∷ fs) = reading_loop level state fs
reading_loop level state ((n, bytes value) ∷ fs) = reading_loop level state fs

unfoldable pub charging_of : ℕ → Option Bool
charging_of state = if state == 1 then some false else if state == 2 then some true else none

-- `u8::try_from(level).ok().filter(|level| *level <= 100)`
check_reading : ℕ → ℕ → Result Error Reading
check_reading level state =
    if ltb level 256 && leb level 100
    then ok (record { level = level; charging = charging_of state })
    else err (invalid_level level)

pub decode_reading : List ℕ → Result Error Reading
unfolding check_reading
decode_reading src = do
  fs ← fields src
  check_reading (reading_loop 0 0 fs).0 (reading_loop 0 0 fs).1

-- `find_map` for the first `battery_info`
pub find_info : List Field → Option (List ℕ)
find_info [] = none
find_info ((n, bytes info) ∷ fs) = if n == 6 then some info else find_info fs
find_info ((n, varint value) ∷ fs) = find_info fs
find_info ((n, fixed32 value) ∷ fs) = find_info fs

-- One field in the loop of `runtime_batteries`.
pub set_battery : Batteries → Field → Result Error Batteries
set_battery b (n, bytes src) =
    if n == 1
    then decode_reading src >>= (λ r. ok (record b { case = some r }))
    else if n == 2
    then decode_reading src >>= (λ r. ok (record b { left = some r }))
    else if n == 3
    then decode_reading src >>= (λ r. ok (record b { right = some r }))
    else ok b
set_battery b (n, varint value) = ok b
set_battery b (n, fixed32 value) = ok b

pub set_batteries : Batteries → List Field → Result Error Batteries
unfolding set_battery
set_batteries b [] = ok b
set_batteries b (f ∷ fs) = set_battery b f >>= λ c. set_batteries c fs

abbrev pub no_batteries : Batteries
no_batteries = record { left = none; right = none; case = none }

info_batteries : Option (List ℕ) → Result Error (Option Batteries)
info_batteries none = ok none
info_batteries (some info) = do fs ← fields info; b ← set_batteries no_batteries fs; ok (some b)

pub runtime_batteries : List ℕ → Result Error (Option Batteries)
unfolding info_batteries
runtime_batteries payload = fields payload >>= λ fs. info_batteries (find_info fs)

abbrev update_of : Option Batteries → Update
update_of none = ignored
update_of (some b) = batteries b

-- The comparison of channel, service, method and call.
unfoldable pub is_subscription : Packet → Channel → Bool
is_subscription p c =
    p.channel == c.id
    && (p.service == maestro_service
        && (p.method == subscribe_runtime_info_id && p.call == subscribe_call))

-- The `match packet.kind`.
unfoldable pub kind_update : Packet → Result Error Update
kind_update p =
    if p.kind == server_stream
    then runtime_batteries p.payload >>= (λ b. ok (update_of b))
    else if p.kind == response || p.kind == server_error
    then ok (ended p.status)
    else ok ignored

unfoldable pub subscription_update : Packet → Channel → Result Error Update
unfolding kind_update
subscription_update p c = if is_subscription p c then kind_update p else ok ignored
