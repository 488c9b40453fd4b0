-- ===== src/Tests/PairingTests.antt =====
-- src/pairing.rs on concrete prompts.
use bt_daemon.Base.Map.{get, insert}
use bt_daemon.Pairing.{
  pairing, PairingBroker, Params, passkey, passkey_code, passkey_value, accepted_answer, respond,
  new_broker, passkey_digits, insert_request,
}
use bt_daemon.Pairing.Run.{Call, run, prompts, responds, gives_up, shows, stops, run-once}
use bt_daemon.Pairing.Once.{requests, waiting, times}
use bt_daemon.Pairing.Input.{accepted_answer-IsAllowed, respond-refused}
use bt_daemon.Pairing.Displays.{run-shown, shown}
use bt_daemon.Base.{◌+◌, ◌≤◌, ◌≡◌, List, [], ◌∷◌, none, some, ok, err, true, refl, arith, ◌<◌}

-- A late timeout, after the prompt was answered.
abbrev calls : List Call
calls =
    prompts 60000 "passkey" "buds" passkey none none
    ∷ shows "display-pin" "buds" "1234" none
    ∷ responds true
        (record { request_id = some (pairing 1); accept = some true; value = some "004217" })
    ∷ gives_up (pairing 1) "timeout"
    ∷ stops "shutdown"
    ∷ []

run-once_example :
    (requests (pairing 1) (run calls new_broker).emitted
      ≡ waiting (pairing 1) (run calls new_broker).pending
        + times (pairing 1) (run calls new_broker).answers)
    × (requests (pairing 1) (run calls new_broker).emitted ≤ 1)
run-once_example = run-once calls (pairing 1) (omega arith)

run-shown_example : shown "buds" "display-pin" (run calls new_broker).displays ≤ 1
run-shown_example = run-shown calls "buds" "display-pin"

accepted : accepted_answer passkey (some "004217") ≡ ok (passkey_code 4217)
unfolding accepted_answer passkey_value
accepted = refl

accepted_answer-IsAllowed_example : 4217 < 1000000
accepted_answer-IsAllowed_example =
    accepted_answer-IsAllowed passkey (some "004217") (passkey_code 4217) accepted

abbrev waiting_broker : PairingBroker
waiting_broker = (insert_request 60000 "passkey" "buds" passkey none none new_broker).1

abbrev bad : Params
bad = record { request_id = some (pairing 1); accept = some true; value = some "12a" }

refused : (respond true bad waiting_broker).0 ≡ err passkey_digits
unfolding respond insert_request insert get accepted_answer passkey_value
refused = refl

respond-refused_example : (respond true bad waiting_broker).1 ≡ waiting_broker
respond-refused_example =
    respond-refused true bad waiting_broker passkey_digits refused (λ h. absurd cc)
