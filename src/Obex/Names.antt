-- ===== src/Obex/Names.antt =====
-- The names of received files.
use Prim.Native.String.{String}
use text.Mathlib.Text.{◌==◌ as str_eq}
use bt_daemon.Model.Text.{is_control, take_chars}
use bt_daemon.Model.Text.Bounds.{chars, take_chars-chars}
use bt_daemon.Obex.{
  safe_file_name, unless_special, filter_control, or_kept, holds, candidate, reserve_loop,
  reserve_incoming_destination_in, ReserveError, open_failed,
}
use bt_daemon.Base.{
  ℕ, zero, suc, ◌+◌, ◌≤◌, ◌<◌, Bool, true, false, ◌≡◌, refl, List, ◌∷◌, Option, Result, ok, err,
  arith, Bool-cases, ◌⊎◌, inl, ◌==◌, ◌||◌, inr, sym,
}

abbrev pub ArePrintable : String → Type 0
ArePrintable String.[] = Unit {0}
ArePrintable (String.◌∷◌ c s) = (is_control c ≡ false) × ArePrintable s

filter_control-ArePrintable : (s : String) → ArePrintable (filter_control s)
filter_control-ArePrintable String.[] = tt
filter_control-ArePrintable (String.◌∷◌ c s) = elim (Bool-cases (is_control c)) [
  | inl h ↦ rw h (filter_control-ArePrintable s)
  | inr h ↦ rw h (h, filter_control-ArePrintable s)
]

take_chars-ArePrintable : (n : ℕ) (s : String) → ArePrintable s → ArePrintable (take_chars n s)
take_chars-ArePrintable zero s h = tt
take_chars-ArePrintable (suc n) String.[] h = tt
take_chars-ArePrintable (suc n) (String.◌∷◌ c s) h = (h.0, take_chars-ArePrintable n s h.1)

-- A name that a received file may have.
pub record IsSafe (name : String) : Type 0 where
  pub not_empty : str_eq name "" ≡ false
  pub not_here : str_eq name "." ≡ false
  pub not_above : str_eq name ".." ≡ false
  pub printable : ArePrintable name
  pub short : chars name ≤ 180

default-ArePrintable : ArePrintable "bluetooth-transfer"
default-ArePrintable = filter_control-ArePrintable "bluetooth-transfer"

unless_special-IsSafe :
    (name : String) → ArePrintable name → chars name ≤ 180 → IsSafe (unless_special name)
unless_special-IsSafe name p h =
    elim (Bool-cases (str_eq name "" || (str_eq name "." || str_eq name ".."))) [
      | inl special ↦ rw special (record {
        not_empty = refl;
        not_here = refl;
        not_above = refl;
        printable = default-ArePrintable;
        short = omega arith;
      })
      | inr fine ↦ rw fine (record {
        not_empty = ground arith;
        not_here = ground arith;
        not_above = ground arith;
        printable = p;
        short = h;
      })
    ]

-- Whatever base name a peer's file has, or none: the name that is used is not empty and not a
-- directory's, holds no control character, and has at most 180 characters.
pub safe_file_name-IsSafe : (base_name : Option String) → IsSafe (safe_file_name base_name)
unfolding safe_file_name
safe_file_name-IsSafe base_name =
    let name = filter_control (or_kept base_name "bluetooth-transfer") in
    unless_special-IsSafe (take_chars 180 name)
      (take_chars-ArePrintable 180 name
        (filter_control-ArePrintable (or_kept base_name "bluetooth-transfer")))
      (take_chars-chars 180 name)

-- What a reservation that works has done: its name is the first free one, and the file is new.
pub record IsFirstFree (name_of : ℕ → String) (from left : ℕ) (directory : List String)
    (name : String) (after : List String) : Type 0 where
  pub suffix : ℕ
  pub from_on : from ≤ suffix
  pub in_range : suffix < from + left
  pub name_eq : name ≡ name_of suffix
  pub was_free : holds name directory ≡ false
  pub after_eq : after ≡ name ∷ directory
  pub others_taken : (j : ℕ) → from ≤ j → j < suffix → holds (name_of j) directory ≡ true

nat_cases : (m n : ℕ) → m ≤ n → (m ≡ n) ⊎ (m + 1 ≤ n)
nat_cases m n h = elim (Bool-cases (m == n)) [
  | inl same ↦ inl (ground arith)
  | inr other ↦ inr (ground arith)
]

module _ (number : ℕ → String) (file_name stem : String) (extension : Option String) where
  reserve_loop-IsFirstFree :
      (fails : String → Bool) (left from : ℕ) (directory after : List String) (name : String)
      → reserve_loop number file_name stem extension fails left from directory ≡ (ok name, after)
      → IsFirstFree (candidate number file_name stem extension) from left directory name after
  unfolding reserve_loop
  reserve_loop-IsFirstFree fails zero from directory after name h = absurd cc
  reserve_loop-IsFirstFree fails (suc left) from directory after name h =
      let this = candidate number file_name stem extension from in
      elim (Bool-cases (holds this directory)) [
        | inl taken ↦
            let r =
              reserve_loop-IsFirstFree fails left (from + 1) directory after name (rw taken at h) in
            let low = r.from_on in
            let high = r.in_range in
            record {
              suffix = r.suffix;
              from_on = omega arith;
              in_range = omega arith;
              name_eq = r.name_eq;
              was_free = r.was_free;
              after_eq = r.after_eq;
              others_taken = λ j above below. elim (nat_cases from j above) [
                | inl here ↦ rw (sym here) taken
                | inr more ↦ r.others_taken j more below
              ];
            }
        | inr free ↦ elim (Bool-cases (fails this)) [
          | inl bad ↦
              let failed : ◌≡◌ {A = Result ReserveError String × List String}
                  (err open_failed, directory) (ok name, after) =
                rw (free, bad) at h in
              absurd cc
          | inr good ↦
              let made : ◌≡◌ {A = Result ReserveError String × List String}
                  (ok this, this ∷ directory) (ok name, after) =
                rw (free, good) at h in
              let name_eq : name ≡ this = cc in
              record {
                suffix = from;
                from_on = omega arith;
                in_range = omega arith;
                name_eq = name_eq;
                was_free = rw name_eq free;
                after_eq = cc;
                others_taken = λ j above below. absurd (omega arith);
              }
        ]
      ]

  -- A reservation that works took the first name that was free, among the file's own and 9999 with
  -- a suffix, and added just that file to the directory.
  pub reserve_incoming_destination_in-IsFirstFree :
      (fails : String → Bool) (directory after : List String) (name : String)
      → reserve_incoming_destination_in number file_name stem extension fails directory
        ≡ (ok name, after)
      → IsFirstFree (candidate number file_name stem extension) 0 10000 directory name after
  unfolding reserve_incoming_destination_in
  reserve_incoming_destination_in-IsFirstFree fails directory after name h =
      reserve_loop-IsFirstFree fails 10000 0 directory after name h
