-- ===== src/Management/Store.antt =====
-- src/management.rs: `ManagementStore`. The three files are what was last written to them, and a
-- write that fails leaves its file; whether a write works is the argument `saves`. The locks are
-- not modelled: each operation is one step. A store without a path for a file never writes it.
pub mod Restart
pub mod Device
use Prim.Native.String.{String}
use bt_daemon.Base.Equality.{string_eq}
use bt_daemon.Base.Map.{Map, get, insert, remove, contains_key}
use bt_daemon.Model.Policy.{
  ManagementPolicy, DevicePolicy, DevicePolicyOverrides, DevicePolicyFile, RuntimeState,
  default_policy, default_device_policies, default_runtime,
}
use bt_daemon.Management.{
  Object, ManagementError, apply, apply_overrides, effective, no_overrides, overrides_any,
  unwrap_or, not_object, save_failed, policy_version, runtime_version, device_policy_version,
  unreadable, validate_launch_state,
}
use bt_daemon.Base.{
  ℕ, Bool, not, ◌&&◌, ◌==◌, List, [], ◌∷◌, Option, none, some, Result, ok, err, ◌>>=◌, ◌>>◌, ensure,
  or_fail, if◌then◌else◌, false, true,
}

-- What stands in the three files.
pub record Files : Type 0 where
  pub policy_file : Option ManagementPolicy
  pub runtime_file : Option RuntimeState
  pub device_policy_file : Option DevicePolicyFile

-- A path is only whether there is one.
pub record ManagementStore : Type 0 where
  pub policy_path : Bool
  pub runtime_path : Bool
  pub device_policy_path : Bool
  pub policy : ManagementPolicy
  pub runtime : RuntimeState
  pub device_policies : DevicePolicyFile
  pub files : Files

-- `load_state`, on what `read_json` gives.
abbrev pub load_state {ℓ} :
    {T : Type ℓ} → Bool → Result ManagementError (Option T) → T → Result ManagementError T
load_state false read default = ok default
load_state true (err e) default = err e
load_state true (ok content) default = ok (unwrap_or content default)

-- What is read stands in the file.
abbrev pub content_of {ℓ} : {T : Type ℓ} → Result ManagementError (Option T) → Option T
content_of (ok content) = content
content_of (err e) = none

unfoldable pub load :
    Bool
    → Bool
    → Bool
    → Result ManagementError (Option ManagementPolicy)
    → Result ManagementError (Option RuntimeState)
    → Result ManagementError (Option DevicePolicyFile)
    → Result ManagementError ManagementStore
load policy_path runtime_path device_policy_path policies runtimes devices =
    load_state policy_path policies default_policy >>= λ policy.
    ensure (policy.version == 1) policy_version
    >> validate_launch_state policy.launch_state
    >>= λ launch_state. load_state runtime_path runtimes default_runtime >>= λ runtime.
        ensure (runtime.version == 1) runtime_version
        >> load_state device_policy_path devices default_device_policies
        >>= λ device_policies.
            ensure (device_policies.version == 1) device_policy_version
            >> ok (record {
              policy_path = policy_path;
              runtime_path = runtime_path;
              device_policy_path = device_policy_path;
              policy = policy;
              runtime = runtime;
              device_policies = device_policies;
              files = record {
                policy_file = content_of policies;
                runtime_file = content_of runtimes;
                device_policy_file = content_of devices;
              };
            })

-- `write_json` behind the test for a path: whether it fails, and the file after it.
abbrev pub write_json {ℓ} : {T : Type ℓ} → Bool → Bool → T → Option T → Bool × Option T
write_json false saves value file = (true, file)
write_json true true value file = (true, some value)
write_json true false value file = (false, file)

-- The end of `update`, after the changes have been applied to a copy.
abbrev pub persist_policy :
    Bool
    → Result ManagementError ManagementPolicy
    → ManagementStore
    → Result ManagementError ManagementPolicy × ManagementStore
persist_policy saves (err e) s = (err e, s)
persist_policy saves (ok updated) s =
    let written = write_json s.policy_path saves updated s.files.policy_file in
    if written.0
    then (
      ok updated,
      record s { policy = updated; files = record (s.files) { policy_file = written.1 } },
    )
    else (err save_failed, s)

-- `values.as_object()` is the argument's `Option`.
unfoldable pub update :
    Bool
    → Option Object
    → ManagementStore
    → Result ManagementError ManagementPolicy × ManagementStore
update saves values s =
    persist_policy saves (or_fail values not_object >>= λ object. apply object s.policy) s

unfoldable pub device_policy : String → ManagementStore → DevicePolicy
device_policy key s =
    effective (unwrap_or (get key s.device_policies.devices) no_overrides) s.policy

abbrev pub with_devices : Map String DevicePolicyOverrides → ManagementStore → ManagementStore
with_devices devices s = record s {
  device_policies = record (s.device_policies) { devices = devices };
}

-- `if let Some(updated) = updated { .. insert(..) }`
abbrev pub insert_some :
    String
    → Option DevicePolicyOverrides
    → Map String DevicePolicyOverrides
    → Map String DevicePolicyOverrides
insert_some key none devices = devices
insert_some key (some d) devices = insert key d devices

unfoldable pub persist_device_change :
    Bool
    → String
    → Option DevicePolicyOverrides
    → ManagementStore
    → Result ManagementError (Unit {0}) × ManagementStore
persist_device_change saves key updated s =
    let devices = s.device_policies.devices in
    let previous = get key devices in
    let changed = with_devices (insert_some key updated (remove key devices)) s in
    let written =
      write_json s.device_policy_path saves changed.device_policies s.files.device_policy_file in
    if written.0
    then (ok tt, record changed { files = record (s.files) { device_policy_file = written.1 } })
    else (
      err save_failed,
      with_devices (insert_some key previous (remove key changed.device_policies.devices)) s,
    )

-- `(updated != DevicePolicyOverrides::default()).then_some(updated)`
abbrev pub unless_default : DevicePolicyOverrides → Option DevicePolicyOverrides
unless_default d = if overrides_any d then some d else none

-- The policy after a change that was saved.
abbrev pub then_policy :
    String
    → Result ManagementError (Unit {0}) × ManagementStore
    → Result ManagementError DevicePolicy × ManagementStore
then_policy key (ok saved, s) = (ok (device_policy key s), s)
then_policy key (err e, s) = (err e, s)

abbrev pub persist_overrides :
    Bool
    → String
    → Result ManagementError DevicePolicyOverrides
    → ManagementStore
    → Result ManagementError DevicePolicy × ManagementStore
persist_overrides saves key (err e) s = (err e, s)
persist_overrides saves key (ok updated) s =
    then_policy key (persist_device_change saves key (unless_default updated) s)

unfoldable pub update_device_policy :
    Bool
    → String
    → Option Object
    → ManagementStore
    → Result ManagementError DevicePolicy × ManagementStore
update_device_policy saves key values s =
    persist_overrides saves key
      (or_fail values not_object >>= λ object.
        apply_overrides object (unwrap_or (get key s.device_policies.devices) no_overrides))
      s

unfoldable pub forget_device_policy : Bool → String → ManagementStore → ManagementStore
forget_device_policy saves key s =
    if not (contains_key key s.device_policies.devices)
    then s
    else (persist_device_change saves key none s).1

unfoldable pub remember_snapshot : Bool → RuntimeState → ManagementStore → ManagementStore
remember_snapshot saves runtime s =
    let written = write_json s.runtime_path saves runtime s.files.runtime_file in
    if written.0
    then record s { runtime = runtime; files = record (s.files) { runtime_file = written.1 } }
    else s
