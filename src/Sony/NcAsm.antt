-- ===== src/Sony/NcAsm.antt =====
-- src/sony/protocol.rs: noise-cancelling and ambient-sound (NC/ASM) payloads. A mode is its text.
pub mod Laws
use bt_daemon.Sony.{Error, report_length, unsupported_mode, unsupported_type, invalid_report}
use Prim.Native.String.{String, []}
use text.Mathlib.Text.{◌==◌ as str_eq}
use bt_daemon.Base.{
  ℕ, Bool, List, Option, Result, false, if◌then◌else◌, map, true, ◌∷◌, none, not, ok, some, ◌>>=◌,
  ◌>>◌, ensure, err, ◌++◌, ◌==◌, ◌||◌, leb, ◌&&◌, [],
}

abbrev pub nc_asm_get : ℕ
nc_asm_get = 0x66

abbrev pub nc_asm_ret : ℕ
nc_asm_ret = 0x67

abbrev pub nc_asm_set : ℕ
nc_asm_set = 0x68

-- `NC_ASM_TYPES`
abbrev pub nc_asm_types : List ℕ
nc_asm_types = 0x15 ∷ 0x17 ∷ []

pub record NcAsm : Type 0 where
  pub inquired : ℕ
  pub enabled : Bool
  pub ambient : Bool
  pub wind : Option ℕ
  pub focus_on_voice : Bool
  pub level : ℕ

-- Wind reduction, `Some(0x03 | 0x05)`.
reduces_wind : Option ℕ → Bool
reduces_wind none = false
reduces_wind (some wind) = wind == 0x03 || wind == 0x05

pub active_mode : NcAsm → Option String
unfolding reduces_wind
active_mode s =
    if not s.enabled
    then some "off"
    else if reduces_wind s.wind
    then none
    else if s.ambient
    then some "transparent"
    else some "noise-cancelling"

pub queries : List (List ℕ)
queries = map (λ inquired. nc_asm_get ∷ inquired ∷ []) nc_asm_types

-- The checks of `decode_nc_asm` behind the `match` on the payload's length.
unfoldable pub check_report : ℕ → ℕ → ℕ → Option ℕ → ℕ → ℕ → Result Error NcAsm
check_report inquired enabled ambient wind voice level = do
  ensure (inquired == 0x15 || inquired == 0x17) unsupported_type
  ensure (leb enabled 1 && (leb ambient 1 && (leb voice 1 && leb level 20))) invalid_report
  ok (record {
    inquired = inquired;
    enabled = enabled == 1;
    ambient = ambient == 1;
    wind = wind;
    focus_on_voice = voice == 1;
    level = level;
  })

unfoldable pub decode_nc_asm : List ℕ → Result Error NcAsm
decode_nc_asm (_ ∷ inquired ∷ _ ∷ enabled ∷ ambient ∷ voice ∷ level ∷ []) =
    check_report inquired enabled ambient none voice level
decode_nc_asm (_ ∷ inquired ∷ _ ∷ enabled ∷ ambient ∷ wind ∷ voice ∷ level ∷ []) =
    check_report inquired enabled ambient (some wind) voice level
decode_nc_asm _ = err report_length

-- The `match mode` of `nc_asm_payload`: the bytes for enabled and ambient.
mode_bytes : String → Result Error (ℕ × ℕ)
mode_bytes mode =
    if str_eq mode "noise-cancelling"
    then ok (1, 0)
    else if str_eq mode "transparent"
    then ok (1, 1)
    else if str_eq mode "off"
    then ok (0, 0)
    else err unsupported_mode

-- `u8::from`
abbrev pub from_bool : Bool → ℕ
from_bool true = 1
from_bool false = 0

wind_bytes : Option ℕ → List ℕ
wind_bytes none = []
wind_bytes (some wind) = 0x02 ∷ []

pub nc_asm_payload : NcAsm → String → Result Error (List ℕ)
unfolding mode_bytes wind_bytes
nc_asm_payload s mode = mode_bytes mode >>= λ t. ok (
    nc_asm_set
    ∷ s.inquired
    ∷ 0x01
    ∷ t.0
    ∷ t.1
    ∷ (wind_bytes s.wind ++ (from_bool s.focus_on_voice ∷ s.level ∷ [])))
