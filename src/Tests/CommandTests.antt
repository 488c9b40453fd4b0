-- ===== src/Tests/CommandTests.antt =====
-- src/fast_pair/commands.rs on concrete commands.
use bt_daemon.FastPair.Commands.{
  Key, PendingCommands, key_eq, accepted, default, reserve, resolve, release,
}
use bt_daemon.FastPair.Commands.Once.{
  apply, Call, IsPending, reserves, resolves, releases, run, times, answered, times-run,
  run-IsPending, default-IsPending, release-reserve,
}
use bt_daemon.Base.Map.{get, contains_key, insert}
use bt_daemon.Base.{List, [], ◌∷◌, ◌≡◌, ◌≤◌, refl, ok, some, arith}

abbrev key : Key
key = (1, (8, 0x12))

-- A late acknowledgement, after the command was sent again.
abbrev calls : List Call
calls =
    reserves key
    ∷ resolves key accepted
    ∷ reserves key
    ∷ releases key 0
    ∷ resolves key accepted
    ∷ []

times-run_example : times 0 (answered (run calls default).delivered) ≤ 1
times-run_example = times-run calls 0

abbrev sent_once : PendingCommands
sent_once = record { sequence = 1; entries = (key, 0) ∷ []; delivered = [] }

sent_once-IsPending : IsPending sent_once
unfolding run apply reserve contains_key insert
sent_once-IsPending = run-IsPending (reserves key ∷ []) default default-IsPending

release-reserve_example :
    ((reserve key (resolve key accepted sent_once)).0 ≡ ok 1)
    × (release key 0 (reserve key (resolve key accepted sent_once)).1
        ≡ (reserve key (resolve key accepted sent_once)).1)
    × (get key (release key 0 (reserve key (resolve key accepted sent_once)).1).entries ≡ some 1)
unfolding get
release-reserve_example =
    release-reserve key accepted sent_once 0 sent_once-IsPending refl (omega arith)
