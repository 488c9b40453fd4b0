-- ===== src/FastPair/Capabilities/Provisioning.antt =====
-- When an account key can be provisioned, as it is shown.
use Prim.Native.String.{String}
use bt_daemon.FastPair.Capabilities.{RuntimeReport, provisioning_reason, describe}
use bt_daemon.Base.{Bool, not, ◌&&◌, List, ℕ, ◌≡◌, Option, none, some, is_some, refl, false, true}

-- Provisioning is offered exactly without a key, with a trusted model and a recent pairing; a reason
-- is given exactly when it is not offered; and no control is announced by the description.
pub describe-provisioning :
    (hex_encode address_text : List ℕ → String) (runtime : RuntimeReport) (has_key : Bool)
    (name : Option String) (recent : Bool)
    → let features = describe hex_encode address_text runtime has_key name recent in
      (features.provisioning_available ≡ (not has_key && (is_some name && recent)))
      × (is_some features.provisioning_reason ≡ not features.provisioning_available)
      × (features.controls_available ≡ false)
      × (features.authenticated_controls ≡ false)
unfolding describe provisioning_reason
describe-provisioning hex_encode address_text runtime true name recent = (refl, refl, refl, refl)
describe-provisioning hex_encode address_text runtime false none recent = (refl, refl, refl, refl)
describe-provisioning hex_encode address_text runtime false (some n) true = (refl, refl, refl, refl)
describe-provisioning hex_encode address_text runtime false (some n) false =
    (refl, refl, refl, refl)
