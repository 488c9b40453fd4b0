-- ===== src/Obex.antt =====
-- src/obex.rs: the state of a file transfer, and the names of received files. The signals that
-- obexd gives are a list; a directory is the list of the names in it. `base_name` is what
-- `Path::file_name` gives, and `number` the decimal text of a number.
pub mod Monitoring
pub mod Names
use Prim.Native.String.{String, ◌++◌ as str_append}
use text.Mathlib.Text.{◌==◌ as str_eq}
use bt_daemon.Model.Text.{is_control, take_chars}
use bt_daemon.Base.{
  ℕ, zero, suc, ◌+◌, Bool, not, true, false, ◌||◌, List, [], ◌∷◌, ◌++◌, Option, none, some, Result,
  ok, err, if◌then◌else◌, ◌==◌,
}

pub record TransferUpdate : Type 0 where
  pub status : String
  pub transferred : ℕ
  pub size : ℕ

abbrev pub or_kept {ℓ} : {A : Type ℓ} → Option A → A → A
or_kept none kept = kept
or_kept (some value) kept = value

-- `TransferUpdate::apply_values`
abbrev pub apply_values : Option String → Option ℕ → Option ℕ → TransferUpdate → TransferUpdate
apply_values status transferred size t = record {
  status = or_kept status t.status;
  transferred = or_kept transferred t.transferred;
  size = or_kept size t.size;
}

unfoldable pub terminal : TransferUpdate → Bool
terminal t = str_eq t.status "complete" || (str_eq t.status "error" || str_eq t.status "cancelled")

unfoldable pub lifecycle_event : String → String
lifecycle_event status =
    if str_eq status "complete"
    then "completed"
    else if str_eq status "cancelled"
    then "cancelled"
    else if str_eq status "error"
    then "failed"
    else if str_eq status "queued"
    then "queued"
    else "progress"

pub data ObexError : Type 0 where
  watch_failed cancel_failed signal_failed stream_ended transfer_failed : ObexError

-- What `select!` gives: a request to cancel, with the outcome of the call to obexd; changed
-- properties; a signal of another interface; one whose arguments cannot be read; or the end of the
-- stream.
pub data Signal : Type 0 where
  cancels : Bool → Signal
  changes : Option String → Option ℕ → Signal
  foreign garbled ends : Signal

-- The updates that were given out, and the result; there is none while the loop waits.
abbrev pub Monitored : Type 0
Monitored = List TransferUpdate × Option (Result ObexError (Unit {0}))

abbrev pub before : TransferUpdate → Monitored → Monitored
before t (updates, outcome) = (t ∷ updates, outcome)

-- The `ensure!` behind the loop.
abbrev pub finish : TransferUpdate → Result ObexError (Unit {0})
finish t = if str_eq t.status "error" then err transfer_failed else ok tt

-- The body of the loop for one signal, before the `next` round.
abbrev pub on_signal : Signal → TransferUpdate → (TransferUpdate → Monitored) → Monitored
on_signal (cancels true) t next =
    let cancelled : TransferUpdate = record t { status = "cancelled" } in
    before cancelled (next cancelled)
on_signal (cancels false) t next = ([], some (err cancel_failed))
on_signal (changes status transferred) t next =
    let changed = apply_values status transferred none t in before changed (next changed)
on_signal foreign t next = next t
on_signal garbled t next = ([], some (err signal_failed))
on_signal ends t next = ([], some (err stream_ended))

unfoldable pub monitor_loop : List Signal → TransferUpdate → Monitored
monitor_loop [] t = if terminal t then ([], some (finish t)) else ([], none)
monitor_loop (signal ∷ signals) t =
    if terminal t then ([], some (finish t)) else on_signal signal t (monitor_loop signals)

-- What `get_all` gives: the status, and the numbers of transferred and of all bytes.
abbrev pub Properties : Type 0
Properties = Option String × (Option ℕ × Option ℕ)

-- What follows the subscription; there are no properties where a proxy could not be made, the
-- subscription failed, or they could not be read.
abbrev pub on_properties : Option Properties → List Signal → TransferUpdate → Monitored
on_properties none signals t = ([], some (err watch_failed))
on_properties (some (status, (transferred, size))) signals t =
    let current = apply_values status transferred size t in
    before current (monitor_loop signals current)

unfoldable pub monitor_transfer : Option Properties → List Signal → TransferUpdate → Monitored
monitor_transfer properties signals t =
    if terminal t then ([], some (finish t)) else on_properties properties signals t

abbrev pub filter_control : String → String
filter_control String.[] = String.[]
filter_control (String.◌∷◌ c s) =
    let rest = filter_control s in if is_control c then rest else String.◌∷◌ c rest

-- The `if` at the end of `safe_file_name`.
abbrev pub unless_special : String → String
unless_special name =
    if str_eq name "" || (str_eq name "." || str_eq name "..") then "bluetooth-transfer" else name

unfoldable pub safe_file_name : Option String → String
safe_file_name base_name =
    unless_special (take_chars 180 (filter_control (or_kept base_name "bluetooth-transfer")))

pub data ReserveError : Type 0 where
  open_failed no_unique_name : ReserveError

abbrev pub holds : String → List String → Bool
holds name [] = false
holds name (other ∷ directory) = str_eq other name || holds name directory

module _ (number : ℕ → String) (file_name stem : String) (extension : Option String) where
  -- The name for a suffix.
  unfoldable pub candidate : ℕ → String
  candidate suffix =
      if suffix == 0
      then file_name
      else str_append stem (
          str_append " (" (
            str_append (number suffix)
              (str_append ")" (elim extension [ none ↦ "" | some e ↦ str_append "." e ]))))

  -- The rounds that are left, from a suffix on; `fails` says for which names opening fails for
  -- another reason than that the name exists.
  unfoldable pub reserve_loop :
      (String → Bool) → ℕ → ℕ → List String → Result ReserveError String × List String
  reserve_loop fails zero suffix directory = (err no_unique_name, directory)
  reserve_loop fails (suc left) suffix directory =
      let name = candidate suffix in
      let rest = reserve_loop fails left (suffix + 1) directory in
      if holds name directory
      then rest
      else if fails name
      then (err open_failed, directory)
      else (ok name, name ∷ directory)

  unfoldable pub reserve_incoming_destination_in :
      (String → Bool) → List String → Result ReserveError String × List String
  reserve_incoming_destination_in fails directory = reserve_loop fails 10000 0 directory
