-- ===== src/RssiHelper/Limits/Rate.antt =====
-- At most 16 requests are admitted in any second.
use bt_daemon.RssiHelper.Limits.{default, Limits, admit, recent}
use native.Mathlib.Decide.{dec_le}
use bt_daemon.Base.{
  append-nil, append_assoc, sym, ℕ, suc, ◌+◌, ◌-◌, ◌≤◌, ◌<◌, ◌≡◌, refl, false, ◌&&◌, List, [], ◌∷◌,
  ◌++◌, ok, err, if◌then◌else◌, ltb, leb, length, arith, Bool-cases, inl, inr,
}

-- The times that were admitted, in the order of the calls, and the state after them.
abbrev pub admitted : List ℕ → Limits → List ℕ
admitted [] l = []
admitted (now ∷ times) l =
    elim (admit now l).0 [ ok _ ↦ now ∷ [] | err _ ↦ [] ] ++ admitted times (admit now l).1

-- How many of the times lie in the second that ends at `w`.
unfoldable pub in_second : ℕ → List ℕ → ℕ
in_second w [] = 0
in_second w (time ∷ times) =
    if leb time w && ltb (w - time) 1000 then suc (in_second w times) else in_second w times

-- The calls come at times that do not decrease, from `start` on.
abbrev pub Ordered : ℕ → List ℕ → Type 0
Ordered start [] = Unit {0}
Ordered start (now ∷ times) = (start ≤ now) × Ordered now times

in_second-append :
    (w : ℕ) (xs ys : List ℕ) → in_second w (xs ++ ys) ≡ in_second w xs + in_second w ys
unfolding in_second
in_second-append w [] ys = omega arith
in_second-append w (x ∷ xs) ys = ground (arith, in_second-append w xs ys)

-- Dropping old arrivals changes no second that ends now or later.
in_second-recent :
    (now w : ℕ) (xs : List ℕ) → now ≤ w → in_second w (recent now xs) ≡ in_second w xs
unfolding in_second recent
in_second-recent now w [] h = refl
in_second-recent now w (x ∷ xs) h = ground (arith, in_second-recent now w xs h)

in_second-le : (w : ℕ) (xs : List ℕ) → in_second w xs ≤ length xs
unfolding in_second
in_second-le w [] = omega arith
in_second-le w (x ∷ xs) = ground (arith, in_second-le w xs)

in_second_one : (w now : ℕ) → in_second w (now ∷ []) ≤ 1
in_second_one w now = in_second-le w (now ∷ [])

in_second_later : (w now : ℕ) → ¬ (now ≤ w) → in_second w (now ∷ []) ≡ 0
unfolding in_second
in_second_later w now h = ground arith

under_limit : (xs : List ℕ) → leb 16 (length xs) ≡ false → length xs < 16
under_limit xs h = ground arith

-- The arrivals know the admitted requests of each second that ends at `last` or later.
record IsHistory (last : ℕ) (past : List ℕ) (l : Limits) : Type 0 where
  pub few : (w : ℕ) → in_second w past ≤ 16
  pub kept : (w : ℕ) → last ≤ w → in_second w past ≤ in_second w l.arrivals

admit-IsHistory :
    (last now : ℕ) (past : List ℕ) (l : Limits)
    → last ≤ now
    → IsHistory last past l
    → IsHistory now (past ++ elim (admit now l).0 [ ok _ ↦ now ∷ [] | err _ ↦ [] ]) (admit now l).1
unfolding admit
admit-IsHistory last now past l le v = elim (Bool-cases (leb 16 (length (recent now l.arrivals)))) [
  | inl e ↦ rw e (record {
    few = λ w. rw append-nil (v.few w);
    kept = λ w h. rw (append-nil, in_second-recent now w l.arrivals h) (v.kept w (omega arith));
  })
  | inr e ↦ rw e (record {
    few = λ w. elim (dec_le now w) [
      | yes h ↦ omega (
        arith,
        in_second-append w past (now ∷ []),
        in_second_one w now,
        in_second-recent now w l.arrivals h,
        in_second-le w (recent now l.arrivals),
        v.kept w (omega arith),
        under_limit (recent now l.arrivals) e,
      )
      | no h ↦ omega (arith, in_second-append w past (now ∷ []), in_second_later w now h, v.few w)
    ];
    kept = λ w h. omega (
      arith,
      in_second-append w past (now ∷ []),
      in_second-append w (recent now l.arrivals) (now ∷ []),
      in_second-recent now w l.arrivals h,
      v.kept w (omega arith),
    );
  })
]

in_second-past :
    (times past : List ℕ) (last w : ℕ) (l : Limits)
    → Ordered last times
    → IsHistory last past l
    → in_second w (past ++ admitted times l) ≤ 16
in_second-past [] past last w l o v = rw append-nil (v.few w)
in_second-past (now ∷ times) past last w l o v =
    rw
      (sym (
        append_assoc past (elim (admit now l).0 [ ok _ ↦ now ∷ [] | err _ ↦ [] ])
          (admitted times (admit now l).1)))
      (in_second-past times (past ++ elim (admit now l).0 [ ok _ ↦ now ∷ [] | err _ ↦ [] ]) now w
        (admit now l).1 o.1 (admit-IsHistory last now past l o.0 v))

-- However often the helper is asked, at times that do not decrease, no second holds more than 16
-- admitted requests.
pub in_second-admitted :
    (times : List ℕ) (w : ℕ) → Ordered 0 times → in_second w (admitted times default) ≤ 16
unfolding in_second
in_second-admitted times w o =
    in_second-past times [] 0 w default o
      (record { few = λ _. omega (arith, in_second-le w []); kept = λ _ _. omega arith })
