-- ===== src/Model/Devices.antt =====
-- src/model.rs: what is known of a device.
use bt_daemon.Base.{ℕ, Bool, List, Option}
use bt_daemon.Base.Map.{Map}
use bt_daemon.RssiHelper.Mgmt.{ℤ}
use bt_daemon.Model.Policy.{DevicePolicy}
use Prim.Native.String.{String}

pub data DisconnectReason : Type 0 where
  unknown timeout local remote authentication suspend : DisconnectReason

pub record DeviceDisconnect : Type 0 where
  pub reason : DisconnectReason
  pub message : String
  pub observed_at_ms : ℕ

pub record Service : Type 0 where
  pub uuid : String
  pub label : String

pub data RssiKind : Type 0 where
  dbm br_edr_relative : RssiKind

pub record Battery : Type 0 where
  pub id : String
  pub label : String
  pub component : String
  pub percentage : ℕ
  pub charging : Option Bool
  pub source : String
  pub confidence : String

pub record FastPairAdvertisementCapabilities : Type 0 where
  pub le_audio_sharing : Bool
  pub factory_new : Bool

pub record FastPairSwitchEvent : Type 0 where
  pub reason : String
  pub target : String
  pub target_name : Option String
  pub observed_at_ms : ℕ

pub record FastPairMultipoint : Type 0 where
  pub version : ℕ
  pub supported : Bool
  pub configurable : Bool
  pub enabled : Bool
  pub audio_switch_enabled : Bool

pub record FastPairNoiseControl : Type 0 where
  pub version : ℕ
  pub available_modes : List String
  pub settable_modes : List String
  pub active_mode : Option String

pub record NoiseControl : Type 0 where
  pub source : String
  pub available_modes : List String
  pub settable_modes : List String
  pub active_mode : Option String

pub record FastPairFeatures : Type 0 where
  pub model_id : Option String
  pub advertised_capabilities : Option FastPairAdvertisementCapabilities
  pub ble_address : Option String
  pub controls_available : Bool
  pub authenticated_controls : Bool
  pub account_key_available : Bool
  pub provisioning_available : Bool
  pub provisioning_reason : Option String
  pub trusted_model_name : Option String
  pub multipoint : Option FastPairMultipoint
  pub noise_control : Option FastPairNoiseControl
  pub last_switch : Option FastPairSwitchEvent
  pub audio_switch_seeker_supported : Bool

pub record DeviceIdentity : Type 0 where
  pub name : String
  pub alias : String
  pub remote_name : Option String
  pub device_type : String
  pub address : String
  pub address_type : String
  pub icon : Option String
  pub modalias : Option String

pub record DeviceState : Type 0 where
  pub paired : Bool
  pub bonded : Option Bool
  pub connected : Bool
  pub trusted : Bool
  pub blocked : Bool
  pub wake_allowed : Option Bool
  pub legacy_pairing : Bool
  pub last_disconnect : Option DeviceDisconnect

pub record DeviceServices : Type 0 where
  pub services_resolved : Bool
  pub uuids : List String
  pub services : List Service

pub record DevicePresentation : Type 0 where
  pub icon_id : String
  pub battery : List Battery
  pub battery_live : Bool
  pub battery_last_known : Bool
  pub components : List String
  pub model_id : Option String
  pub fast_pair : Option FastPairFeatures
  pub noise_control : Option NoiseControl
  pub rssi : Option ℤ
  pub rssi_kind : Option RssiKind
  pub signal_strength : Option ℕ
  pub signal_level : Option ℕ
  pub signal_live : Bool
  pub present : Bool
  pub last_seen_ms : Option ℕ

pub record DeviceCapabilities : Type 0 where
  pub can_pair : Bool
  pub can_connect : Bool
  pub can_disconnect : Bool
  pub can_remove : Bool
  pub can_trust : Bool
  pub can_block : Bool
  pub can_wake : Bool
  pub can_rename : Bool
  pub can_send_file : Bool
  pub can_provision_fast_pair : Bool
  pub can_set_multipoint : Bool
  pub can_set_noise_control : Bool
  pub unsupported_reasons : Map String String

pub record Device : Type 0 where
  pub key : String
  pub adapter_key : String
  pub identity : DeviceIdentity
  pub state : DeviceState
  pub services : DeviceServices
  pub presentation : DevicePresentation
  pub policy : DevicePolicy
  pub capabilities : DeviceCapabilities
