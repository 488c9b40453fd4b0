-- ===== src/Tests/KeyTests.antt =====
-- src/fast_pair/keys.rs on a store with one key.
use bt_daemon.FastPair.Keys.{AccountKeyStore}
use bt_daemon.FastPair.Keys.File.{Call, Agrees, inserts, removes, run, run-Agrees}
use Prim.Native.String.{String}
use bt_daemon.Base.{ℕ, Bool, true, false, List, [], ◌∷◌, none, refl}

-- Any text serves for a key here.
abbrev to_hex : List ℕ → String
to_hex key = "04"

abbrev empty_store : AccountKeyStore
empty_store = record { keys = []; file = none }

abbrev changes : List (Bool × Call)
changes =
    (true, inserts "buds" (4 ∷ 1 ∷ []))
    ∷ (false, removes "buds")
    ∷ (true, inserts "case" (5 ∷ []))
    ∷ []

empty_store-Agrees : Agrees to_hex empty_store
unfolding bt_daemon.Base.Map.get mathlib.Core.Option.bind
empty_store-Agrees = λ device. refl

run-Agrees_example : Agrees to_hex (run to_hex changes empty_store)
run-Agrees_example = run-Agrees to_hex changes empty_store empty_store-Agrees
