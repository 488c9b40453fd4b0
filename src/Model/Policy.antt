-- ===== src/Model/Policy.antt =====
-- src/management.rs: the policies and the runtime state that are kept on disk.
use bt_daemon.Base.{ℕ, Bool, true, false, List, [], Option}
use bt_daemon.Base.Map.{Map}
use Prim.Native.String.{String}

pub record ManagementPolicy : Type 0 where
  pub version : ℕ
  pub launch_state : String
  pub reconnect_on_resume : Bool
  pub trust_after_pair : Bool
  pub preferred_adapter_key : String
  pub show_blocked_devices : Bool
  pub show_recent_devices : Bool

pub record DevicePolicy : Type 0 where
  pub reconnect_on_resume : Bool
  pub trust_after_pair : Bool
  pub power_on_connect : Bool
  pub wait_for_services : Bool
  pub fast_pair_controls_enabled : Bool
  pub audio_route_on_connect : String
  pub preferred_audio_profile_key : Option String

pub record DevicePolicyOverrides : Type 0 where
  pub reconnect_on_resume : Option Bool
  pub trust_after_pair : Option Bool
  pub power_on_connect : Option Bool
  pub wait_for_services : Option Bool
  pub fast_pair_controls_enabled : Option Bool
  pub audio_route_on_connect : Option String
  pub preferred_audio_profile_key : Option String

pub record DevicePolicyFile : Type 0 where
  pub version : ℕ
  pub devices : Map String DevicePolicyOverrides

pub record RuntimeState : Type 0 where
  pub version : ℕ
  pub adapter_power : Map String Bool
  pub connected_device_keys : List String

-- `default_launch_state`
abbrev pub default_launch_state : String
default_launch_state = "remember"

-- `ManagementPolicy::default()`
abbrev pub default_policy : ManagementPolicy
default_policy = record {
  version = 1;
  launch_state = default_launch_state;
  reconnect_on_resume = true;
  trust_after_pair = true;
  preferred_adapter_key = "";
  show_blocked_devices = false;
  show_recent_devices = false;
}

-- `DevicePolicyFile::default()`
abbrev pub default_device_policies : DevicePolicyFile
default_device_policies = record { version = 1; devices = [] }

-- `RuntimeState::default()`
abbrev pub default_runtime : RuntimeState
default_runtime = record { version = 1; adapter_power = []; connected_device_keys = [] }

-- `RuntimeState::observed`
abbrev pub observed : Map String Bool → List String → RuntimeState
observed power keys = record { version = 1; adapter_power = power; connected_device_keys = keys }
