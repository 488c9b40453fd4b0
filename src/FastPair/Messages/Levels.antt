-- ===== src/FastPair/Messages/Levels.antt =====
-- The battery levels and the channel numbers that are accepted.
use bt_daemon.Base.Endian.{IsBytes, le_bytes16}
use bt_daemon.FastPair.Messages.{
  BatteryReport, component_battery, decode_component, decode_fixed3, from_payload, model_batteries,
  decode_message_stream_psm, ready, check_psm,
}
use Prim.Native.String.{String}
use bt_daemon.Base.{
  ℕ, Bool, List, [], ◌∷◌, ◌≡◌, ◌≤◌, Option, none, some, ok, arith, >>=-eq-ok, All, All-append, ◌<◌,
  ◌↔◌, ◌%◌, ◌+◌, ◌*◌, ◌/◌, refl,
}

-- A level, where there is one, is a percentage.
abbrev pub IsLevel : Option ℕ → Type 0
IsLevel none = Unit {0}
IsLevel (some percentage) = percentage ≤ 100

decode_component-IsLevel :
    (value : ℕ) (level : Option ℕ) → decode_component value ≡ ok level → IsLevel level
unfolding decode_component
decode_component-IsLevel value none h = tt
decode_component-IsLevel value (some percentage) h = ground arith

component_battery-IsLevel :
    (id label component : String) (level : Option ℕ) (charging : Bool)
    → IsLevel level
    → All (λ b. b.percentage ≤ 100) (component_battery id label component level charging)
component_battery-IsLevel id label component none charging h = tt
component_battery-IsLevel id label component (some percentage) charging h = (h, tt)

-- Whatever payload a peer sends, the batteries of an accepted report are percentages.
pub model_batteries-from_payload :
    (payload : List ℕ) (r : BatteryReport)
    → from_payload payload ≡ ok r
    → All (λ b. b.percentage ≤ 100) (model_batteries r)
unfolding from_payload model_batteries
model_batteries-from_payload payload r h =
    let (values, _, h1) = >>=-eq-ok (decode_fixed3 payload) _ h in
    let (left, left_ok, h2) = >>=-eq-ok (decode_component values.0) _ h1 in
    let (right, right_ok, h3) = >>=-eq-ok (decode_component values.1) _ h2 in
    let (case, case_ok, h4) = >>=-eq-ok (decode_component values.2) _ h3 in
    let left_eq : r.left ≡ left = cc in
    let right_eq : r.right ≡ right = cc in
    let case_eq : r.case ≡ case = cc in
    rw (left_eq, right_eq, case_eq)
      (All-append _ _ _
        (component_battery-IsLevel "fast-pair-left" "Left" "left" left r.charging_left
          (decode_component-IsLevel values.0 left left_ok))
        (All-append _ _ _
          (component_battery-IsLevel "fast-pair-right" "Right" "right" right r.charging_right
            (decode_component-IsLevel values.1 right right_ok))
          (component_battery-IsLevel "fast-pair-case" "Case" "case" case r.charging_case
            (decode_component-IsLevel values.2 case case_ok))))

module _ (low_end high_end : ℕ) where
  check_psm-ready :
      (state low high psm : ℕ)
      → check_psm low_end high_end state low high ≡ ok (ready psm)
      → (state ≡ 1) × (psm ≡ low + 256 * high) × (low_end ≤ psm) × (psm ≤ high_end)
  unfolding check_psm
  check_psm-ready state low high psm h = ground arith

  accepted_psm :
      (value : List ℕ) (psm : ℕ)
      → IsBytes value
      → decode_message_stream_psm low_end high_end value ≡ ok (ready psm)
      → (value ≡ 1 ∷ le_bytes16 psm) × (low_end ≤ psm) × (psm ≤ high_end)
  unfolding decode_message_stream_psm decode_fixed3
  accepted_psm [] psm v h = cc
  accepted_psm (_ ∷ []) psm v h = cc
  accepted_psm (_ ∷ _ ∷ []) psm v h = cc
  accepted_psm (state ∷ low ∷ high ∷ []) psm v h =
      let (is_one, psm_eq, from, to) = check_psm-ready state low high psm h in
      let low_byte : low < 256 = v.1.0 in
      let high_byte : high < 256 = v.1.1.0 in
      let low_eq : low ≡ psm % 256 = omega arith in
      let high_eq : high ≡ psm / 256 % 256 = omega arith in
      (rw (is_one, low_eq, high_eq) refl, from, to)
  accepted_psm (_ ∷ _ ∷ _ ∷ _ ∷ rest) psm v h = cc

  check_psm-le_bytes16 :
      (psm : ℕ)
      → high_end < 65536
      → low_end ≤ psm
      → psm ≤ high_end
      → check_psm low_end high_end 1 (psm % 256) (psm / 256 % 256) ≡ ok (ready psm)
  unfolding check_psm
  check_psm-le_bytes16 psm h from to =
      let word : psm % 256 + 256 * (psm / 256 % 256 + 0) ≡ psm = omega arith in
      rw word (ground arith)

  -- A channel is accepted exactly when the value is the byte 1 and then, as a little-endian word,
  -- a number in the range of dynamic channels, which ends below 65536.
  pub decode_message_stream_psm-ready :
      (value : List ℕ) (psm : ℕ)
      → IsBytes value
      → high_end < 65536
      → (decode_message_stream_psm low_end high_end value ≡ ok (ready psm))
        ↔ ((value ≡ 1 ∷ le_bytes16 psm) × (low_end ≤ psm) × (psm ≤ high_end))
  unfolding decode_message_stream_psm decode_fixed3
  decode_message_stream_psm-ready value psm v h = (
    accepted_psm value psm v,
    λ (value_eq, from, to). rw value_eq (check_psm-le_bytes16 psm h from to),
  )
