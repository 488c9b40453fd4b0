-- ===== src/Tests/ObexTests.antt =====
-- src/obex.rs on concrete transfers and names.
use Prim.Native.String.{String}
use bt_daemon.Obex.{
  TransferUpdate, Signal, cancels, changes, foreign, ends, monitor_transfer, monitor_loop, terminal,
  safe_file_name, candidate, reserve_loop, reserve_incoming_destination_in,
}
use bt_daemon.Obex.Monitoring.{IsOrderly, monitor_transfer-IsOrderly, IsCaused}
use bt_daemon.Obex.Names.{
  IsSafe, safe_file_name-IsSafe, IsFirstFree, reserve_incoming_destination_in-IsFirstFree,
}
use bt_daemon.Base.{
  ℕ, Bool, true, false, ◌≡◌, refl, List, [], ◌∷◌, none, some, ok, ◌==◌, if◌then◌else◌,
}

abbrev queued : TransferUpdate
queued = record { status = "queued"; transferred = 0; size = 10 }

abbrev signals : List Signal
signals = changes (some "active") (some 4) ∷ foreign ∷ cancels true ∷ ends ∷ []

monitor_transfer-IsOrderly_example :
    IsOrderly queued (monitor_transfer (some (none, (none, some 12))) signals queued)
    × IsCaused
        (some (none, (none, some 12)))
        signals
        (monitor_transfer (some (none, (none, some 12))) signals queued).1
monitor_transfer-IsOrderly_example =
    monitor_transfer-IsOrderly (some (none, (none, some 12))) signals queued

-- The cancellation that obexd accepts ends the loop, before the stream does.
ended : (monitor_transfer (some (none, (none, some 12))) signals queued).1 ≡ some (ok tt)
unfolding monitor_transfer monitor_loop terminal
ended = refl

safe_file_name-IsSafe_example : IsSafe (safe_file_name (some "..\n"))
safe_file_name-IsSafe_example = safe_file_name-IsSafe (some "..\n")

renamed : safe_file_name (some "..\n") ≡ "bluetooth-transfer"
unfolding safe_file_name
renamed = refl

abbrev digit : ℕ → String
digit n = if n == 1 then "1" else "2"

abbrev never : String → Bool
never name = false

abbrev directory : List String
directory = "photo.jpg" ∷ "photo (1).jpg" ∷ []

reserved :
    reserve_incoming_destination_in digit "photo.jpg" "photo" (some "jpg") never directory
    ≡ (ok "photo (2).jpg", "photo (2).jpg" ∷ directory)
unfolding reserve_incoming_destination_in reserve_loop candidate
reserved = refl

reserve_incoming_destination_in-IsFirstFree_example :
    IsFirstFree
      (candidate digit "photo.jpg" "photo" (some "jpg"))
      0
      10000
      directory
      "photo (2).jpg"
      ("photo (2).jpg" ∷ directory)
reserve_incoming_destination_in-IsFirstFree_example =
    reserve_incoming_destination_in-IsFirstFree digit "photo.jpg" "photo" (some "jpg") never
      directory ("photo (2).jpg" ∷ directory) "photo (2).jpg" reserved
