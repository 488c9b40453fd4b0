-- ===== src/FastPair/Provider/Same.antt =====
-- The derived `PartialEq` of the values that the provider stores.
use text.Mathlib.Text.{◌==◌ as str_eq}
use bt_daemon.Model.Devices.{FastPairMultipoint, FastPairNoiseControl, FastPairSwitchEvent}
use bt_daemon.FastPair.Messages.{BatteryReport}
use bt_daemon.Base.{ℕ, Bool, not, true, false, ◌&&◌, List, [], ◌∷◌, Option, none, some, ◌==◌}

abbrev pub bool_same : Bool → Bool → Bool
bool_same true b = b
bool_same false b = not b

abbrev pub option_same {ℓ} : {A : Type ℓ} → (A → A → Bool) → Option A → Option A → Bool
option_same same none none = true
option_same same none (some b) = false
option_same same (some a) none = false
option_same same (some a) (some b) = same a b

abbrev pub list_same {ℓ} : {A : Type ℓ} → (A → A → Bool) → List A → List A → Bool
list_same same [] [] = true
list_same same [] (y ∷ ys) = false
list_same same (x ∷ xs) [] = false
list_same same (x ∷ xs) (y ∷ ys) = same x y && list_same same xs ys

abbrev pub nat_same : ℕ → ℕ → Bool
nat_same a b = a == b

abbrev pub bytes_same : List ℕ → List ℕ → Bool
bytes_same = list_same nat_same

pub multipoint_same : FastPairMultipoint → FastPairMultipoint → Bool
multipoint_same a b =
    a.version == b.version
    && (bool_same a.supported b.supported
        && (bool_same a.configurable b.configurable
            && (bool_same a.enabled b.enabled
                && bool_same a.audio_switch_enabled b.audio_switch_enabled)))

pub noise_control_same : FastPairNoiseControl → FastPairNoiseControl → Bool
noise_control_same a b =
    a.version == b.version
    && (list_same str_eq a.available_modes b.available_modes
        && (list_same str_eq a.settable_modes b.settable_modes
            && option_same str_eq a.active_mode b.active_mode))

pub switch_same : FastPairSwitchEvent → FastPairSwitchEvent → Bool
switch_same a b =
    str_eq a.reason b.reason
    && (str_eq a.target b.target
        && (option_same str_eq a.target_name b.target_name && a.observed_at_ms == b.observed_at_ms))

pub report_same : BatteryReport → BatteryReport → Bool
report_same a b =
    option_same nat_same a.left b.left
    && (option_same nat_same a.right b.right
        && (option_same nat_same a.case b.case
            && (bool_same a.charging_left b.charging_left
                && (bool_same a.charging_right b.charging_right
                    && bool_same a.charging_case b.charging_case))))

-- `target.as_ref() == Some(&value)`
abbrev pub is_same {ℓ} : {A : Type ℓ} → (A → A → Bool) → Option A → A → Bool
is_same same none value = false
is_same same (some a) value = same a value
