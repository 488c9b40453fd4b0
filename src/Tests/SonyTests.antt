-- ===== src/Tests/SonyTests.antt =====
-- src/sony/protocol.rs on concrete frames and reports.
use text.Mathlib.TextEquality.{eq_iff}
use bt_daemon.Framing.{default}
use bt_daemon.Framing.RoundTrip.{stuffed}
use bt_daemon.Sony.{
  Error, start, end, escape_byte, mask, encode, decode, push_frames, checksum, unsupported_mode,
  invalid_report,
}
use bt_daemon.Sony.RoundTrip.{push_frames-encode}
use bt_daemon.Sony.Checksum.{decode-altered}
use bt_daemon.Sony.NcAsm.{NcAsm, decode_nc_asm, nc_asm_payload, active_mode, check_report}
use bt_daemon.Sony.NcAsm.Laws.{
  IsNcAsm, IsMode, as_report, with_mode, decode_nc_asm-IsNcAsm, nc_asm_payload-IsMode,
  nc_asm_payload-unsupported,
}
use bt_daemon.Base.{
  Bool, [], ◌∷◌, ◌++◌, ◌≡◌, ◌>>=◌, inl, inr, refl, ok, err, some, true, false, arith,
}

-- The payload holds both delimiters and the escape byte.
push_frames-encode_example :
    (encode 0x0c 1 (0x3e ∷ 0x3c ∷ 0x3d ∷ []) >>= (λ wire. ok (push_frames default wire)))
    ≡ ok
        (default, ok (record { kind = 0x0c; sequence = 1; payload = 0x3e ∷ 0x3c ∷ 0x3d ∷ [] }) ∷ [])
push_frames-encode_example = push_frames-encode 0x0c 1 (0x3e ∷ 0x3c ∷ 0x3d ∷ []) (omega arith)

decode-altered_example :
    (e : Error) × (decode (
        stuffed start end escape_byte mask (
          ((0x0c ∷ 0 ∷ 0 ∷ 0 ∷ 0 ∷ 1 ∷ []) ++ (9 ∷ []))
          ++ (checksum ((0x0c ∷ 0 ∷ 0 ∷ 0 ∷ 0 ∷ 1 ∷ []) ++ (8 ∷ [])) ∷ [])))
      ≡ err e)
decode-altered_example =
    decode-altered (0x0c ∷ 0 ∷ 0 ∷ 0 ∷ 0 ∷ 1 ∷ []) [] 8 9 (omega arith) (omega arith) (omega arith)

-- A report with wind reduction on.
abbrev windy : NcAsm
windy = record {
  inquired = 0x17;
  enabled = true;
  ambient = false;
  wind = some 3;
  focus_on_voice = true;
  level = 12;
}

read_report : decode_nc_asm (0x67 ∷ 0x17 ∷ 1 ∷ 1 ∷ 0 ∷ 3 ∷ 1 ∷ 12 ∷ []) ≡ ok windy
unfolding decode_nc_asm check_report
read_report = refl

level_above_20 : decode_nc_asm (0x67 ∷ 0x17 ∷ 1 ∷ 1 ∷ 0 ∷ 3 ∷ 1 ∷ 21 ∷ []) ≡ err invalid_report
unfolding decode_nc_asm check_report
level_above_20 = refl

decoded_mode_test : IsNcAsm windy
decoded_mode_test =
    decode_nc_asm-IsNcAsm (0x67 ∷ 0x17 ∷ 1 ∷ 1 ∷ 0 ∷ 3 ∷ 1 ∷ 12 ∷ []) windy read_report

nc_asm_payload-IsMode_test :
    (enabled ambient : Bool) × ((nc_asm_payload windy "transparent"
        >>= (λ p. decode_nc_asm (as_report p)))
      ≡ ok (with_mode windy enabled ambient))
    × (active_mode (with_mode windy enabled ambient) ≡ some "transparent")
nc_asm_payload-IsMode_test =
    nc_asm_payload-IsMode windy "transparent"
      (record { known_type = inr refl; level_within = omega arith }) (inl refl)

wind-IsMode_not : ¬ IsMode "wind"
wind-IsMode_not =
    ground
      (arith, eq_iff "wind" "transparent", eq_iff "wind" "off", eq_iff "wind" "noise-cancelling")

nc_asm_payload-unsupported_test : nc_asm_payload windy "wind" ≡ err unsupported_mode
nc_asm_payload-unsupported_test = nc_asm_payload-unsupported windy "wind" wind-IsMode_not
