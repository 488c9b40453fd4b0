-- ===== src/Sony/NcAsm/Laws.antt =====
-- A report of the headphones, and the command that changes its mode.
use text.Mathlib.TextEquality.{eq_iff}
use bt_daemon.Sony.NcAsm.{
  NcAsm, check_report, decode_nc_asm, nc_asm_payload, active_mode, nc_asm_ret, from_bool,
  unsupported_mode,
}
use Prim.Native.String.{String}
use bt_daemon.Base.{
  ℕ, ◌≡◌, List, Option, ◌⊎◌, ok, ◌≤◌, arith, ◌∷◌, some, Bool, [], none, true, leb, ◌>>=◌, false,
  ◌==◌, refl, err, inl, inr,
}

-- What an accepted report holds.
pub record IsNcAsm (s : NcAsm) : Type 0 where
  pub known_type : (s.inquired ≡ 0x15) ⊎ (s.inquired ≡ 0x17)
  pub level_within : s.level ≤ 20

check_report-IsNcAsm :
    (i e a : ℕ) (w : Option ℕ) (v l : ℕ) (s : NcAsm) → check_report i e a w v l ≡ ok s → IsNcAsm s
unfolding check_report
check_report-IsNcAsm i e a w v l s h = ground arith

-- Only reports of a known type and level are accepted.
pub decode_nc_asm-IsNcAsm :
    (payload : List ℕ) (s : NcAsm) → decode_nc_asm payload ≡ ok s → IsNcAsm s
unfolding decode_nc_asm
decode_nc_asm-IsNcAsm [] s h = cc
decode_nc_asm-IsNcAsm (_ ∷ []) s h = cc
decode_nc_asm-IsNcAsm (_ ∷ _ ∷ []) s h = cc
decode_nc_asm-IsNcAsm (_ ∷ _ ∷ _ ∷ []) s h = cc
decode_nc_asm-IsNcAsm (_ ∷ _ ∷ _ ∷ _ ∷ []) s h = cc
decode_nc_asm-IsNcAsm (_ ∷ _ ∷ _ ∷ _ ∷ _ ∷ []) s h = cc
decode_nc_asm-IsNcAsm (_ ∷ _ ∷ _ ∷ _ ∷ _ ∷ _ ∷ []) s h = cc
decode_nc_asm-IsNcAsm (_ ∷ i ∷ _ ∷ e ∷ a ∷ v ∷ l ∷ []) s h = check_report-IsNcAsm i e a none v l s h
decode_nc_asm-IsNcAsm (_ ∷ i ∷ _ ∷ e ∷ a ∷ w ∷ v ∷ l ∷ []) s h =
    check_report-IsNcAsm i e a (some w) v l s h
decode_nc_asm-IsNcAsm (_ ∷ _ ∷ _ ∷ _ ∷ _ ∷ _ ∷ _ ∷ _ ∷ _ ∷ rest) s h = cc

-- `MODES`
abbrev pub IsMode : String → Type 0
IsMode mode = (mode ≡ "transparent") ⊎ (mode ≡ "off") ⊎ (mode ≡ "noise-cancelling")

-- A command read as the headphones report it: its first byte is that of a return.
abbrev pub as_report : List ℕ → List ℕ
as_report [] = []
as_report (command ∷ tail) = nc_asm_ret ∷ tail

-- The state in which a command leaves the headphones: the type, the voice focus and the level are
-- kept, and wind reduction ends where there is any.
abbrev pub with_mode : NcAsm → Bool → Bool → NcAsm
with_mode s enabled ambient = record s {
  enabled = enabled;
  ambient = ambient;
  wind = elim s.wind [ none ↦ none | some wind ↦ some 0x02 ];
}

abbrev Sets : NcAsm → String → Bool → Bool → Type 0
Sets s mode enabled ambient =
    ((nc_asm_payload s mode >>= (λ p. decode_nc_asm (as_report p)))
      ≡ ok (with_mode s enabled ambient))
    × (active_mode (with_mode s enabled ambient) ≡ some mode)

from_bool_eq : (b : Bool) → (from_bool b == 1) ≡ b
from_bool_eq true = refl
from_bool_eq false = refl

from_bool_le : (b : Bool) → leb (from_bool b) 1 ≡ true
from_bool_le true = refl
from_bool_le false = refl

nc_asm_payload-transparent : (s : NcAsm) → IsNcAsm s → Sets s "transparent" true true
unfolding nc_asm_payload decode_nc_asm check_report active_mode
nc_asm_payload-transparent s v = ground arith

nc_asm_payload-off : (s : NcAsm) → IsNcAsm s → Sets s "off" false false
unfolding nc_asm_payload decode_nc_asm check_report active_mode
nc_asm_payload-off s v = ground arith

nc_asm_payload-noise_cancelling : (s : NcAsm) → IsNcAsm s → Sets s "noise-cancelling" true false
unfolding nc_asm_payload decode_nc_asm check_report active_mode
nc_asm_payload-noise_cancelling s v = ground arith

-- The command for each of the three modes is accepted when it is read as a report; it reports
-- that mode, whatever mode or wind reduction was active, and keeps type, voice focus and level.
pub nc_asm_payload-IsMode :
    (s : NcAsm) (mode : String)
    → IsNcAsm s
    → IsMode mode
    → (enabled ambient : Bool) × ((nc_asm_payload s mode >>= (λ p. decode_nc_asm (as_report p)))
        ≡ ok (with_mode s enabled ambient))
      × (active_mode (with_mode s enabled ambient) ≡ some mode)
nc_asm_payload-IsMode s mode v (inl e) =
    rw e (true, true, (nc_asm_payload-transparent s v).0, (nc_asm_payload-transparent s v).1)
nc_asm_payload-IsMode s mode v (inr (inl e)) =
    rw e (false, false, (nc_asm_payload-off s v).0, (nc_asm_payload-off s v).1)
nc_asm_payload-IsMode s mode v (inr (inr e)) =
    rw e (
      true,
      false,
      (nc_asm_payload-noise_cancelling s v).0,
      (nc_asm_payload-noise_cancelling s v).1,
    )

-- Any other text is refused.
pub nc_asm_payload-unsupported :
    (s : NcAsm) (mode : String) → ¬ IsMode mode → nc_asm_payload s mode ≡ err unsupported_mode
unfolding nc_asm_payload
nc_asm_payload-unsupported s mode h =
    ground (arith, eq_iff mode "noise-cancelling", eq_iff mode "transparent", eq_iff mode "off")
