-- ===== src/Management.antt =====
-- src/management.rs: how a request changes the global policy and the overrides of a device. A JSON
-- object is the list of its members, in the order in which they are visited.
pub mod Store
pub mod Valid
use Prim.Native.String.{String}
use text.Mathlib.Text.{◌==◌ as str_eq}
use bt_daemon.Model.Policy.{ManagementPolicy, DevicePolicy, DevicePolicyOverrides}
use bt_daemon.Base.{
  Bool, not, true, false, ◌||◌, ◌&&◌, List, [], ◌∷◌, Option, none, some, Result, ok, err, ◌>>=◌,
  or_fail, if◌then◌else◌, is_some,
}

-- `serde_json::Value`, as far as settings use it; `other` is a number, an array or an object.
pub data Value : Type 0 where
  null other : Value
  boolean : Bool → Value
  string : String → Value

abbrev pub Object : Type 0
Object = List (String × Value)

-- The errors, with the name of the setting where the source's text has one.
pub data ManagementError : Type 0 where
  not_object : ManagementError
  not_string not_boolean unsupported expected : String → ManagementError
  launch_state_value save_failed : ManagementError
  policy_version runtime_version device_policy_version unreadable : ManagementError

abbrev pub as_bool : Value → Option Bool
as_bool null = none
as_bool other = none
as_bool (boolean b) = some b
as_bool (string s) = none

abbrev pub as_str : Value → Option String
as_str null = none
as_str other = none
as_str (boolean b) = none
as_str (string s) = some s

abbrev pub is_launch_state : String → Bool
is_launch_state value = str_eq "remember" value || (str_eq "enable" value || str_eq "disable" value)

abbrev pub validate_launch_state : String → Result ManagementError String
validate_launch_state value = if is_launch_state value then ok value else err launch_state_value

-- One round of `ManagementPolicy::apply`.
unfoldable pub apply_setting :
    String → Value → ManagementPolicy → Result ManagementError ManagementPolicy
apply_setting name value p =
    if str_eq name "launch_state"
    then (or_fail (as_str value) (not_string name) >>= λ state.
        validate_launch_state state >>= λ valid. ok (record p { launch_state = valid }))
    else if str_eq name "preferred_adapter_key"
    then (or_fail (as_str value) (not_string name) >>= λ key.
        ok (record p { preferred_adapter_key = key }))
    else if str_eq name "reconnect_on_resume"
    then (or_fail (as_bool value) (not_boolean name) >>= λ b.
        ok (record p { reconnect_on_resume = b }))
    else if str_eq name "trust_after_pair"
    then (or_fail (as_bool value) (not_boolean name) >>= λ b.
        ok (record p { trust_after_pair = b }))
    else if str_eq name "show_blocked_devices"
    then (or_fail (as_bool value) (not_boolean name) >>= λ b.
        ok (record p { show_blocked_devices = b }))
    else if str_eq name "show_recent_devices"
    then (or_fail (as_bool value) (not_boolean name) >>= λ b.
        ok (record p { show_recent_devices = b }))
    else err (unsupported name)

unfoldable pub apply : Object → ManagementPolicy → Result ManagementError ManagementPolicy
apply [] p = ok p
apply ((name, value) ∷ object) p = apply_setting name value p >>= λ q. apply object q

-- `optional_value`
abbrev pub optional_value {ℓ} :
    {T : Type ℓ} → Value → String → (Value → Option T) → Result ManagementError (Option T)
optional_value null name parse = ok none
optional_value other name parse = or_fail (parse other) (expected name) >>= λ t. ok (some t)
optional_value (boolean b) name parse =
    or_fail (parse (boolean b)) (expected name) >>= λ t. ok (some t)
optional_value (string s) name parse =
    or_fail (parse (string s)) (expected name) >>= λ t. ok (some t)

-- `.filter(|value| ["keep", "switch"].contains(value))`
abbrev pub route_of : Option String → Option String
route_of none = none
route_of (some route) = if str_eq "keep" route || str_eq "switch" route then some route else none

-- `.filter(|value| !value.is_empty())`
abbrev pub non_empty : Option String → Option String
non_empty none = none
non_empty (some key) = if str_eq key "" then none else some key

-- One round of `DevicePolicyOverrides::apply`.
unfoldable pub apply_override :
    String → Value → DevicePolicyOverrides → Result ManagementError DevicePolicyOverrides
apply_override name value d =
    if str_eq name "audio_route_on_connect"
    then (optional_value value name (λ v. route_of (as_str v)) >>= λ route.
        ok (record d { audio_route_on_connect = route }))
    else if str_eq name "preferred_audio_profile_key"
    then (optional_value value name (λ v. non_empty (as_str v)) >>= λ key.
        ok (record d { preferred_audio_profile_key = key }))
    else if str_eq name "reconnect_on_resume"
    then (optional_value value name as_bool >>= λ b. ok (record d { reconnect_on_resume = b }))
    else if str_eq name "trust_after_pair"
    then (optional_value value name as_bool >>= λ b. ok (record d { trust_after_pair = b }))
    else if str_eq name "power_on_connect"
    then (optional_value value name as_bool >>= λ b. ok (record d { power_on_connect = b }))
    else if str_eq name "wait_for_services"
    then (optional_value value name as_bool >>= λ b. ok (record d { wait_for_services = b }))
    else if str_eq name "fast_pair_controls_enabled"
    then (optional_value value name as_bool >>= λ b.
        ok (record d { fast_pair_controls_enabled = b }))
    else err (unsupported name)

unfoldable pub apply_overrides :
    Object → DevicePolicyOverrides → Result ManagementError DevicePolicyOverrides
apply_overrides [] d = ok d
apply_overrides ((name, value) ∷ object) d =
    apply_override name value d >>= λ e. apply_overrides object e

-- `DevicePolicyOverrides::default()`
abbrev pub no_overrides : DevicePolicyOverrides
no_overrides = record {
  reconnect_on_resume = none;
  trust_after_pair = none;
  power_on_connect = none;
  wait_for_services = none;
  fast_pair_controls_enabled = none;
  audio_route_on_connect = none;
  preferred_audio_profile_key = none;
}

-- `updated != DevicePolicyOverrides::default()`
abbrev pub overrides_any : DevicePolicyOverrides → Bool
overrides_any d =
    is_some d.reconnect_on_resume
    || (is_some d.trust_after_pair
        || (is_some d.power_on_connect
            || (is_some d.wait_for_services
                || (is_some d.fast_pair_controls_enabled
                    || (is_some d.audio_route_on_connect
                        || is_some d.preferred_audio_profile_key)))))

-- `Option::unwrap_or`
abbrev pub unwrap_or {ℓ} : {A : Type ℓ} → Option A → A → A
unwrap_or none a = a
unwrap_or (some b) a = b

unfoldable pub effective : DevicePolicyOverrides → ManagementPolicy → DevicePolicy
effective d global = record {
  reconnect_on_resume = unwrap_or d.reconnect_on_resume global.reconnect_on_resume;
  trust_after_pair = unwrap_or d.trust_after_pair global.trust_after_pair;
  power_on_connect = unwrap_or d.power_on_connect true;
  wait_for_services = unwrap_or d.wait_for_services true;
  fast_pair_controls_enabled = unwrap_or d.fast_pair_controls_enabled true;
  audio_route_on_connect = unwrap_or d.audio_route_on_connect "keep";
  preferred_audio_profile_key = d.preferred_audio_profile_key;
}
