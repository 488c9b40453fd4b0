-- ===== src/Model/Text.antt =====
-- src/model.rs: the text of remote peers and the components of a device, as they are shown.
pub mod Bounds
use Prim.Native.Char.{Char, code}
use Prim.Native.String.{String}
use text.Mathlib.Text.{◌==◌ as str_eq}
use bt_daemon.Model.Devices.{Battery}
use bt_daemon.Base.{
  ℕ, suc, zero, Bool, not, ◌&&◌, ◌||◌, List, [], ◌∷◌, none, if◌then◌else◌, leb, ltb,
}

-- `char::is_control`: the general category Cc.
abbrev pub is_control : Char → Bool
is_control c = ltb (code c) 0x20 || (leb 0x7f (code c) && leb (code c) 0x9f)

-- The embeddings, overrides and isolates of bidirectional text.
abbrev pub is_bidi : Char → Bool
is_bidi c =
    (leb 0x202a (code c) && leb (code c) 0x202e) || (leb 0x2066 (code c) && leb (code c) 0x2069)

abbrev pub is_shown : Char → Bool
is_shown c = not (is_control c) && not (is_bidi c)

abbrev pub filter_shown : String → String
filter_shown String.[] = String.[]
filter_shown (String.◌∷◌ c s) =
    let rest = filter_shown s in if is_shown c then String.◌∷◌ c rest else rest

abbrev pub take_chars : ℕ → String → String
take_chars zero s = String.[]
take_chars (suc n) String.[] = String.[]
take_chars (suc n) (String.◌∷◌ c s) = String.◌∷◌ c (take_chars n s)

unfoldable pub remote_text : String → ℕ → String
remote_text text limit = take_chars limit (filter_shown text)

-- `Battery::bluez_aggregate`
abbrev pub bluez_aggregate : ℕ → Battery
bluez_aggregate percentage = record {
  id = "aggregate";
  label = "Battery";
  component = "main";
  percentage = percentage;
  charging = none;
  source = "bluez";
  confidence = "standard";
}

unfoldable pub presentation_component_order : String → ℕ
presentation_component_order component =
    if str_eq component "left"
    then 0
    else if str_eq component "right"
    then 1
    else if str_eq component "case"
    then 2
    else 3
