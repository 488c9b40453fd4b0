-- ===== src/Model.antt =====
-- src/model.rs: a view of the adapters and devices at one time.
pub mod Policy
pub mod Devices
pub mod Text
use bt_daemon.Base.{ℕ, Bool, List, Option}
use bt_daemon.Model.Policy.{ManagementPolicy}
use bt_daemon.Model.Devices.{Device}
use Prim.Native.String.{String}

pub record RadioState : Type 0 where
  pub available : Bool
  pub operational : Bool
  pub powered : Bool
  pub adapter_count : ℕ
  pub rfkill_present : Bool
  pub soft_blocked : Bool
  pub hard_blocked : Bool

pub record Adapter : Type 0 where
  pub key : String
  pub name : String
  pub alias : String
  pub address : String
  pub address_type : String
  pub powered : Bool
  pub discovering : Bool
  pub discoverable : Bool
  pub pairable : Bool
  pub discoverable_timeout : ℕ
  pub pairable_timeout : ℕ
  pub modalias : Option String

pub record Snapshot : Type 0 where
  pub radio : RadioState
  pub management : ManagementPolicy
  pub adapters : List Adapter
  pub devices : List Device
