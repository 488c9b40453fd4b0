-- ===== src/Tests/ScanTests.antt =====
-- src/daemon/scan.rs on two scans that share an adapter.
use bt_daemon.Daemon.Scan.{ScanEvent, Tasks, running, holds, select_scans, stop_loop}
use bt_daemon.Daemon.Scan.Held.{holds-select_scans, after, stop_loop-after}
use Prim.Native.String.{String}
use bt_daemon.Base.{
  ℕ, ◌+◌, Bool, false, List, [], ◌∷◌, ◌≡◌, refl, Option, none, some, Result, ok, err, inl, inr, suc,
  zero,
}

abbrev scan : ℕ → List String → String → ScanEvent ℕ ℕ
scan id keys owner = record {
  request_id = id;
  adapter_key = none;
  adapter_keys = keys;
  owner = owner;
  state = running;
  timeout_ms = some 15000;
  snapshot = none;
  error = none;
}

abbrev two_scans : Tasks ℕ ℕ
two_scans = (1, scan 1 ("a" ∷ "b" ∷ []) "x") ∷ (2, scan 2 ("b" ∷ []) "y") ∷ []

holds-select_scans_example : holds "b" (select_scans two_scans (some 1) none).1 ≡ false
unfolding holds
holds-select_scans_example = holds-select_scans "b" two_scans (some 1) none (inr (inl (refl, refl)))

-- A backend that counts its calls and fails on the first.
abbrev counting : Option String → Bool → ℕ → Result ℕ ℕ × ℕ
counting key on zero = (err 7, 1)
counting key on (suc calls) = (ok calls, calls + 2)

abbrev look : ℕ → Result ℕ ℕ × ℕ
look calls = (ok calls, calls)

stop_loop-after_test :
    (stop_loop counting look ("a" ∷ "b" ∷ []) (ok none) 0).1
    ≡ after counting look ("a" ∷ "b" ∷ []) 0
stop_loop-after_test = stop_loop-after counting look ("a" ∷ "b" ∷ []) (ok none) 0
