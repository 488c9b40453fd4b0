-- ===== src/Tests/ManagementTests.antt =====
-- src/management.rs on concrete requests.
use Prim.Native.String.{String}
use bt_daemon.Base.Equality.{string_eq}
use bt_daemon.Base.Map.{get, insert, remove}
use bt_daemon.Model.Policy.{
  DevicePolicy, DevicePolicyOverrides, default_policy, default_device_policies, default_runtime,
}
use bt_daemon.Management.{
  Object, boolean, string, apply_overrides, apply_override, effective, no_overrides, unsupported,
}
use bt_daemon.Management.Store.{
  ManagementStore, update_device_policy, persist_device_change, device_policy,
}
use bt_daemon.Management.Store.Device.{
  update_device_policy-IsSaved, update_device_policy-IsRefused, IsSaved, IsRefused, overrides_of,
}
use bt_daemon.Management.Store.Restart.{
  IsDurable, Call, updates, updates_device, forgets, remembers, run, restart, restart-run,
}
use bt_daemon.Base.{◌≡◌, List, [], ◌∷◌, none, some, ok, err, true, false, refl}

abbrev store : ManagementStore
store = record {
  policy_path = true;
  runtime_path = true;
  device_policy_path = true;
  policy = default_policy;
  runtime = default_runtime;
  device_policies = default_device_policies;
  files = record { policy_file = none; runtime_file = none; device_policy_file = none };
}

store-IsDurable : IsDurable store
store-IsDurable = record {
  policy_saved = refl;
  policy_valid = record { version_known = refl; state_known = refl };
  runtime_saved = refl;
  runtime_version = refl;
  devices_saved = λ j. refl;
  devices_version = refl;
  memory_version = refl;
  paths = (refl, refl, refl);
}

abbrev request : Object
request = ("audio_route_on_connect", string "switch") ∷ ("trust_after_pair", boolean false) ∷ []

abbrev overrides : DevicePolicyOverrides
overrides = record no_overrides {
  audio_route_on_connect = some "switch";
  trust_after_pair = some false;
}

abbrev answer : DevicePolicy
answer = record {
  reconnect_on_resume = true;
  trust_after_pair = false;
  power_on_connect = true;
  wait_for_services = true;
  fast_pair_controls_enabled = true;
  audio_route_on_connect = "switch";
  preferred_audio_profile_key = none;
}

applied : apply_overrides request (overrides_of "buds" store) ≡ ok overrides
unfolding apply_overrides apply_override get
applied = refl

answered : (update_device_policy true "buds" (some request) store).0 ≡ ok answer
unfolding update_device_policy apply_overrides apply_override persist_device_change device_policy
    effective get insert remove
answered = refl

update_device_policy-IsSaved_example :
    (answer ≡ effective overrides default_policy)
    × IsSaved "buds"
        (some overrides)
        store
        (update_device_policy true "buds" (some request) store).1
update_device_policy-IsSaved_example =
    update_device_policy-IsSaved true "buds" request store overrides answer applied answered

abbrev bad_request : Object
bad_request = ("trust_after_pair", boolean false) ∷ ("volume", boolean true) ∷ []

refused : (update_device_policy true "buds" (some bad_request) store).0 ≡ err (unsupported "volume")
unfolding update_device_policy apply_overrides apply_override get
refused = refl

update_device_policy-IsRefused_example :
    IsRefused store (update_device_policy true "buds" (some bad_request) store).1
update_device_policy-IsRefused_example =
    update_device_policy-IsRefused true "buds" (some bad_request) store (unsupported "volume")
      refused

abbrev calls : List Call
calls =
    updates_device true "buds" (some request)
    ∷ updates false (some (("show_recent_devices", boolean true) ∷ []))
    ∷ forgets false "buds"
    ∷ remembers true [] ("buds" ∷ [])
    ∷ []

restart-run_example :
    (t : ManagementStore) × (restart (run calls store) ≡ ok t)
    × (t.policy ≡ (run calls store).policy)
    × (t.runtime ≡ (run calls store).runtime)
    × ((j : String) → device_policy j t ≡ device_policy j (run calls store))
restart-run_example = restart-run calls store store-IsDurable
