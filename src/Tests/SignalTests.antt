-- ===== src/Tests/SignalTests.antt =====
-- src/bluez/link_signal.rs: a device is invalidated while it is read.
use bt_daemon.RssiHelper.Mgmt.{ℤ, pos}
use bt_daemon.Model.Devices.{RssiKind, dbm}
use bt_daemon.Bluez.LinkSignal.{Signals, Reading, Entry, accept, get_reading}
use bt_daemon.Bluez.LinkSignal.Fences.{Event, invalidates, polls, accepts, apply, run}
use bt_daemon.Bluez.LinkSignal.Outdated.{run-outdated}
use bt_daemon.Base.{ℕ, Bool, true, false, ◌≡◌, ◌≤◌, refl, List, [], ◌∷◌, Option, some, arith}

abbrev sample : Reading
sample = record { rssi = pos 3; kind = dbm; last_seen_ms = 5; live = true }

abbrev entry : Entry
entry = record { reading = some sample; observed = 40000; attempted = 40000; succeeded = true }

abbrev reading_one : Signals
reading_one = record {
  entries = (("hci0", 7), entry) ∷ [];
  epoch = 1;
  invalidated_devices = [];
  invalidated_adapters = [];
}

-- The read of poll 1 ends after the disconnect.
abbrev late : List Event
late = accepts 41000 6 ("hci0", 7) 1 (some (pos 9, dbm)) ∷ polls ∷ []

run-outdated_example :
    ((ttl now : ℕ) (connected : Bool) (r : Reading)
      → get_reading ttl now "hci0" 7 connected
          (run late (apply (invalidates 40500 "hci0" (some 7)) reading_one))
        ≡ some r
      → r.live ≡ false)
    × ((now wall epoch : ℕ) (reading : Option (ℤ × RssiKind))
        → epoch ≤ 1
        → accept now wall
            ("hci0", 7)
            epoch
            reading
            (run late (apply (invalidates 40500 "hci0" (some 7)) reading_one))
          ≡ run late (apply (invalidates 40500 "hci0" (some 7)) reading_one))
run-outdated_example =
    run-outdated (invalidates 40500 "hci0" (some 7)) late "hci0" 7 1 reading_one (refl, refl)
      (omega arith) (omega arith) (omega arith, (tt, tt))
