-- ===== src/Tests/RssiTests.antt =====
-- src/rssi_helper.rs and src/rssi_helper/mgmt.rs on concrete requests.
use bt_daemon.RssiHelper.Limits.{Limits, default, target, limited}
use bt_daemon.RssiHelper.Limits.Rate.{admitted, in_second, in_second-admitted}
use bt_daemon.RssiHelper.Limits.Target.{run_targets, target-run_targets}
use bt_daemon.RssiHelper.Mgmt.{
  reading, of_i8, reply, peer, receive, read_from, is_not_connected, not_connected,
}
use bt_daemon.RssiHelper.Mgmt.Replies.{
  complete, refusal, Holds, reply-complete, reply-reading, receive-foreign, read_from-le,
}
use bt_daemon.Base.Map.{get}
use bt_daemon.Base.Endian.{from_le_bytes}
use bt_daemon.Base.{ℕ, List, [], ◌∷◌, ◌≡◌, ◌≤◌, refl, ok, err, some, none, false, take, drop, arith}

-- Twenty requests within 19 ms.
abbrev burst : List ℕ
burst = 0 ∷ 1 ∷ 2 ∷ 3 ∷ 4 ∷ 5 ∷ 6 ∷ 7 ∷ 8 ∷ 9 ∷ 10 ∷ 11 ∷ 12 ∷ 13 ∷ 14 ∷ 15 ∷ 16 ∷ 17 ∷ 18 ∷ 19 ∷ []

in_second-admitted_example : in_second 500 (admitted burst default) ≤ 16
in_second-admitted_example = in_second-admitted burst 500 (
  omega arith,
  (
    omega arith,
    (
      omega arith,
      (
        omega arith,
        (
          omega arith,
          (
            omega arith,
            (
              omega arith,
              (
                omega arith,
                (
                  omega arith,
                  (
                    omega arith,
                    (
                      omega arith,
                      (
                        omega arith,
                        (
                          omega arith,
                          (
                            omega arith,
                            (
                              omega arith,
                              (
                                omega arith,
                                (omega arith, (omega arith, (omega arith, (omega arith, tt)))),
                              ),
                            ),
                          ),
                        ),
                      ),
                    ),
                  ),
                ),
              ),
            ),
          ),
        ),
      ),
    ),
  ),
)

abbrev asked : Limits
asked = record { arrivals = []; targets = ((0, 7), 1000) ∷ [] }

target-run_targets_test :
    (target 2500 (0, 7) (run_targets ((1200, (0, 8)) ∷ (1300, (0, 7)) ∷ []) asked)).0 ≡ err limited
unfolding get
target-run_targets_test =
    target-run_targets ((1200, (0, 8)) ∷ (1300, (0, 7)) ∷ []) 2500 1000 (0, 7) asked refl
      (omega arith, (omega arith, tt)) (omega arith)

abbrev address : List ℕ
address = 1 ∷ 2 ∷ 3 ∷ 4 ∷ 5 ∷ 6 ∷ []

reply-complete_test :
    reply (complete 0 (peer address 1) 214 127 127) 0 (peer address 1) ≡ some (reading (of_i8 214))
reply-complete_test = reply-complete 0 (peer address 1) 214 127 127 (omega arith) refl (omega arith)

reply-reading_test :
    (from_le_bytes (take 2 (drop 2 (complete 0 (peer address 1) 214 127 127))) ≡ 0)
    × Holds (drop 9 (complete 0 (peer address 1) 214 127 127)) (peer address 1) (of_i8 214)
reply-reading_test =
    reply-reading (complete 0 (peer address 1) 214 127 127) 0 (peer address 1) (of_i8 214)
      reply-complete_test

read_from-le_test :
    read_from
      (13, 13)
      0
      address
      false
      ((refusal 0 not_connected ∷ (complete 0 (peer address 1) 214 127 127 ∷ [])))
    ≡ ok (reading (of_i8 214), false)
read_from-le_test =
    read_from-le 0 address [] [] [] 214 127 127 (omega arith) refl (omega arith) tt tt

foreign_index : reply (refusal 1 not_connected) 0 (peer address 0) ≡ none
unfolding reply
foreign_index = refl

refused_here : reply (refusal 0 not_connected) 0 (peer address 0) ≡ some is_not_connected
unfolding reply
refused_here = refl

receive-foreign_test :
    receive 0 (peer address 0) (refusal 1 not_connected ∷ refusal 0 not_connected ∷ [])
    ≡ ok (is_not_connected, [])
receive-foreign_test =
    receive-foreign 0 (peer address 0) (refusal 1 not_connected ∷ []) _ _ [] is_not_connected
      ((λ e. absurd cc, foreign_index), tt) refused_here
