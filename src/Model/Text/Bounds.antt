-- ===== src/Model/Text/Bounds.antt =====
-- What remote text is bounded to.
use Prim.Native.String.{String, []}
use bt_daemon.Model.Text.{remote_text, filter_shown, take_chars, is_shown, Char, code}
use bt_daemon.Base.{
  ℕ, suc, zero, ◌≡◌, ◌≤◌, true, arith, refl, Bool-cases, inl, inr, ap, List, if◌then◌else◌, min,
  ◌∙◌, Bool, false, not, ◌∷◌, ltb, [], leb,
}

abbrev pub chars : String → ℕ
chars String.[] = 0
chars (String.◌∷◌ c s) = suc (chars s)

-- The code points that remote text must not have: the control characters, and the embeddings,
-- overrides and isolates of bidirectional text, each from its first to its last.
abbrev hidden_ranges : List (ℕ × ℕ)
hidden_ranges = (0, 31) ∷ (127, 159) ∷ (0x202a, 0x202e) ∷ (0x2066, 0x2069) ∷ []

abbrev is_within : ℕ → List (ℕ × ℕ) → Bool
is_within n [] = false
is_within n ((first, last) ∷ ranges) =
    let rest = is_within n ranges in if ltb n first then rest else if leb n last then true else rest

abbrev pub AreShown : String → Type 0
AreShown String.[] = Unit {0}
AreShown (String.◌∷◌ c s) = (is_within (code c) hidden_ranges ≡ false) × AreShown s

-- How many characters of a text may be shown.
abbrev pub shown_chars : String → ℕ
shown_chars String.[] = 0
shown_chars (String.◌∷◌ c s) =
    let rest = shown_chars s in if is_within (code c) hidden_ranges then rest else suc rest

is_shown_eq : (c : Char) → is_shown c ≡ not (is_within (code c) hidden_ranges)
is_shown_eq c = ground arith

filter_shown-AreShown : (s : String) → AreShown (filter_shown s)
filter_shown-AreShown String.[] = tt
filter_shown-AreShown (String.◌∷◌ c s) = elim (Bool-cases (is_shown c)) [
  | inl h ↦
      let outside : is_within (code c) hidden_ranges ≡ false = ground (arith, is_shown_eq c) in
      rw h (outside, filter_shown-AreShown s)
  | inr h ↦ rw h (filter_shown-AreShown s)
]

take_chars-AreShown : (n : ℕ) (s : String) → AreShown s → AreShown (take_chars n s)
take_chars-AreShown zero s h = tt
take_chars-AreShown (suc n) String.[] h = tt
take_chars-AreShown (suc n) (String.◌∷◌ c s) h = (h.0, take_chars-AreShown n s h.1)

pub take_chars-chars : (n : ℕ) (s : String) → chars (take_chars n s) ≤ n
take_chars-chars zero s = omega arith
take_chars-chars (suc n) String.[] = omega arith
take_chars-chars (suc n) (String.◌∷◌ c s) = omega (arith, take_chars-chars n s)

filter_shown-shown : (s : String) → AreShown s → filter_shown s ≡ s
filter_shown-shown String.[] h = refl
filter_shown-shown (String.◌∷◌ c s) h =
    let shown : is_shown c ≡ true = is_shown_eq c ∙ rw (h.0) refl in
    rw (shown, filter_shown-shown s h.1) refl

chars-filter_shown : (s : String) → chars (filter_shown s) ≡ shown_chars s
chars-filter_shown String.[] = refl
chars-filter_shown (String.◌∷◌ c s) = elim (Bool-cases (is_within (code c) hidden_ranges)) [
  | inl h ↦
      let shown : is_shown c ≡ false = is_shown_eq c ∙ rw h refl in
      rw (h, shown) (chars-filter_shown s)
  | inr h ↦
      let shown : is_shown c ≡ true = is_shown_eq c ∙ rw h refl in
      rw (h, shown) (ap suc (chars-filter_shown s))
]

take_chars-min : (n : ℕ) (s : String) → chars (take_chars n s) ≡ min (chars s) n
take_chars-min zero s = omega arith
take_chars-min (suc n) String.[] = omega arith
take_chars-min (suc n) (String.◌∷◌ c s) = omega (arith, take_chars-min n s)

take_chars-short : (n : ℕ) (s : String) → chars s ≤ n → take_chars n s ≡ s
take_chars-short zero String.[] h = refl
take_chars-short zero (String.◌∷◌ c s) h = absurd (omega arith)
take_chars-short (suc n) String.[] h = refl
take_chars-short (suc n) (String.◌∷◌ c s) h = ap (String.◌∷◌ c) (take_chars-short n s (omega arith))

-- Remote text has no control character and no bidirectional embedding, override or isolate. It has
-- as many characters as the received text has others, up to the limit, and bounding it again changes
-- nothing.
pub remote_text-AreShown :
    (text : String) (limit : ℕ)
    → (chars (remote_text text limit) ≡ min (shown_chars text) limit)
      × AreShown (remote_text text limit)
      × (remote_text (remote_text text limit) limit ≡ remote_text text limit)
unfolding remote_text
remote_text-AreShown text limit =
    let kept = take_chars-min limit (filter_shown text) in
    let short : chars (take_chars limit (filter_shown text)) ≤ limit = omega arith in
    let shown = take_chars-AreShown limit (filter_shown text) (filter_shown-AreShown text) in
    (
      rw (kept, chars-filter_shown text) refl,
      shown,
      rw (filter_shown-shown (take_chars limit (filter_shown text)) shown)
          (take_chars-short limit (take_chars limit (filter_shown text)) short),
    )
