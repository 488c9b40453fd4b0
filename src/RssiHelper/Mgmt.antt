-- ===== src/RssiHelper/Mgmt.antt =====
-- src/rssi_helper/mgmt.rs: the management packets that ask for the signal strength of a connection.
-- The socket is the list of the packets that it still gives; `sent` is what each `send` returns. An
-- address is its six bytes.
pub mod Replies
use bt_daemon.Base.Endian.{le_bytes16}
use mathlib.Core.List.{reverse}
use mathlib.Core.Option
use bt_daemon.Base.{
  ℕ, ◌+◌, ◌-◌, ◌*◌, Bool, true, false, not, ◌&&◌, ◌||◌, List, [], ◌∷◌, ◌++◌, Option, some, none,
  Result, ok, err, ◌>>=◌, if◌then◌else◌, ltb, ◌==◌, length,
}

abbrev pub get_conn_info : ℕ
get_conn_info = 0x0031

abbrev pub command_complete : ℕ
command_complete = 0x0001

abbrev pub command_status : ℕ
command_status = 0x0002

abbrev pub not_connected : ℕ
not_connected = 0x02

abbrev pub permission_denied : ℕ
permission_denied = 0x14

-- An `i16`. `negsuc n` is -(n + 1).
pub data ℤ : Type 0 where
  pos negsuc : ℕ → ℤ

pub data Reply : Type 0 where
  reading : ℤ → Reply
  is_not_connected unavailable denied : Reply

-- `i16::from(*rssi as i8)`
abbrev pub of_i8 : ℕ → ℤ
of_i8 b = if ltb b 128 then pos b else negsuc (255 - b)

abbrev pub peer : List ℕ → ℕ → List ℕ
peer address kind = reverse address ++ (kind ∷ [])

pub request : ℕ → List ℕ → List ℕ
request index p = le_bytes16 get_conn_info ++ (le_bytes16 index ++ (le_bytes16 7 ++ p))

-- Two slices of bytes are equal.
pub bytes_eq : List ℕ → List ℕ → Bool
bytes_eq [] [] = true
bytes_eq (a ∷ x) (b ∷ y) = a == b && bytes_eq x y
bytes_eq _ _ = false

-- `[target @ .., rssi, _, _]`: the target and the strength.
pub split_target : List ℕ → Option (List ℕ × ℕ)
split_target [] = none
split_target (a ∷ []) = none
split_target (a ∷ b ∷ []) = none
split_target (a ∷ b ∷ c ∷ []) = some ([], a)
split_target (a ∷ b ∷ c ∷ d ∷ rest) =
    Option.map (λ t. (a ∷ t.0, t.1)) (split_target (b ∷ c ∷ d ∷ rest))

-- The arm for a reading, and the next one, to which a foreign target falls.
pub reading_of : Option (List ℕ × ℕ) → List ℕ → Option Reply
reading_of none p = none
reading_of (some (target, rssi)) p =
    if bytes_eq target p
    then some (if rssi == 127 then unavailable else reading (of_i8 rssi))
    else none

-- The `match` of `reply`, on the status, the event and what follows the header.
unfoldable pub status_reply : ℕ → ℕ → List ℕ → List ℕ → Option Reply
status_reply status event tail p =
    if status == 0
    then if event == command_complete then reading_of (split_target tail) p else none
    else if status == not_connected
    then some is_not_connected
    else if status == permission_denied
    then some denied
    else some unavailable

abbrev pub word : ℕ → ℕ → ℕ
word low high = low + high * 256

unfoldable pub reply : List ℕ → ℕ → List ℕ → Option Reply
unfolding status_reply reading_of
reply (e0 ∷ e1 ∷ i0 ∷ i1 ∷ l0 ∷ l1 ∷ c0 ∷ c1 ∷ status ∷ tail) index p =
    if not (word i0 i1 == index)
      || (not (word l0 l1 == length tail + 3)
          || (not (word c0 c1 == get_conn_info)
              || not (word e0 e1 == command_complete || word e0 e1 == command_status)))
    then none
    else status_reply status (word e0 e1) tail p
reply _ index p = none

pub data IoError : Type 0 where
  write_zero unexpected_eof would_wait : IoError

pub sent_request : ℕ → ℕ → Result IoError (Unit {0})
sent_request sent length = if sent == 0 || sent == length then ok tt else err write_zero

-- `if let Some(reply) = … { return Ok(reply); }`, or what the loop goes on to.
abbrev pub reply_or :
    Option Reply
    → List (List ℕ)
    → Result IoError (Reply × List (List ℕ))
    → Result IoError (Reply × List (List ℕ))
reply_or none packets later = later
reply_or (some r) packets later = ok (r, packets)

-- The loop of `exchange`, with the packets left behind the reply. A packet of no byte is the end of
-- the stream; with no packet left the loop waits until the timeout.
pub receive : ℕ → List ℕ → List (List ℕ) → Result IoError (Reply × List (List ℕ))
receive index p [] = err would_wait
receive index p ([] ∷ packets) = err unexpected_eof
receive index p ((b ∷ bytes) ∷ packets) =
    reply_or (reply (b ∷ bytes) index p) packets (receive index p packets)

pub exchange : ℕ → ℕ → List ℕ → List (List ℕ) → Result IoError (Reply × List (List ℕ))
exchange sent index p packets =
    sent_request sent (length (request index p)) >>= λ _. receive index p packets

-- What `read_from` does after the BR/EDR probe: LE only if that is authoritatively not connected.
after_classic : ℕ → ℕ → List ℕ → Reply × List (List ℕ) → Result IoError (Reply × Bool)
after_classic sent index address (is_not_connected, packets) =
    exchange sent index (peer address 1) packets >>= (λ t. ok (t.0, false))
after_classic sent index address (r, packets) = ok (r, true)

pub read_from : ℕ × ℕ → ℕ → List ℕ → Bool → List (List ℕ) → Result IoError (Reply × Bool)
unfolding after_classic
read_from sent index address true packets =
    exchange sent.0 index (peer address 2) packets >>= (λ t. ok (t.0, false))
read_from sent index address false packets =
    exchange sent.0 index (peer address 0) packets >>= after_classic sent.1 index address
