-- ===== src/FastPair/Capabilities.antt =====
-- src/fast_pair/capabilities.rs: what is shown of a peer, and why a key cannot be provisioned. The
-- codecs `hex::encode` and `Address::to_string` are arguments.
pub mod Provisioning
use Prim.Native.String.{String}
use bt_daemon.Model.Devices.{
  FastPairFeatures, FastPairMultipoint, FastPairNoiseControl, FastPairSwitchEvent,
}
use mathlib.Core.Option
use bt_daemon.Base.{ℕ, Bool, not, true, false, List, Option, none, some, is_some, if◌then◌else◌}

-- `RuntimeReport`; the addresses and nonces are their bytes.
pub record RuntimeReport : Type 0 where
  pub session_nonce : Option (List ℕ)
  pub model_id : Option (List ℕ)
  pub ble_address : Option (List ℕ)
  pub multipoint : Option FastPairMultipoint
  pub noise_control : Option FastPairNoiseControl
  pub last_switch : Option FastPairSwitchEvent

-- `RuntimeReport::default()`
abbrev pub empty_report : RuntimeReport
empty_report = record {
  session_nonce = none;
  model_id = none;
  ble_address = none;
  multipoint = none;
  noise_control = none;
  last_switch = none;
}

unfoldable pub provisioning_reason : Bool → Bool → Bool → Option String
provisioning_reason has_key trusted_model recent_pairing =
    if has_key
    then some "Account key already provisioned"
    else if not trusted_model
    then some "Trusted model metadata is missing; configure fast-pair-models.json"
    else if not recent_pairing
    then some "Re-pair this device to open its one-minute Fast Pair provisioning window"
    else none

module _ (hex_encode address_text : List ℕ → String) where
  unfoldable pub describe : RuntimeReport → Bool → Option String → Bool → FastPairFeatures
  describe runtime account_key_available trusted_model_name recent =
      let reason = provisioning_reason account_key_available (is_some trusted_model_name) recent in
      record {
        model_id = Option.map hex_encode runtime.model_id;
        advertised_capabilities = none;
        ble_address = Option.map address_text runtime.ble_address;
        controls_available = false;
        authenticated_controls = false;
        account_key_available = account_key_available;
        provisioning_available = not (is_some reason);
        provisioning_reason = reason;
        trusted_model_name = trusted_model_name;
        multipoint = runtime.multipoint;
        noise_control = runtime.noise_control;
        last_switch = runtime.last_switch;
        audio_switch_seeker_supported = false;
      }
