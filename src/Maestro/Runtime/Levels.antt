-- ===== src/Maestro/Runtime/Levels.antt =====
-- The battery levels that a runtime-info report gives.
use bt_daemon.Maestro.Packet.{Packet}
use bt_daemon.Maestro.{Error}
use bt_daemon.Maestro.Runtime.{
  Batteries, Update, decode_reading, set_batteries, set_battery, subscription_update, Channel,
  Field, Reading, batteries, check_reading, info_batteries, runtime_batteries, update_of, ended,
  varint, fields, fixed32, ignored, bytes, no_batteries, reading_loop, server_stream, find_info,
  response, server_error, is_subscription, kind_update,
}
use bt_daemon.Base.{
  ℕ, Option, Result, ltb, List, Yields, some, ◌&&◌, Yields-bind, Yields-if, leb, none, ok, ◌∷◌, ◌≡◌,
  ◌≤◌, Bool-cases, Yields-ok, [], err, true, arith, inl, ◌==◌, inr, ◌||◌,
}

-- A level is a percentage.
abbrev pub IsLevel : Option Reading → Type 0
IsLevel none = Unit {0}
IsLevel (some r) = r.level ≤ 100

pub record AreLevels (b : Batteries) : Type 0 where
  pub left_level : IsLevel b.left
  pub right_level : IsLevel b.right
  pub case_level : IsLevel b.case

abbrev AnyError : Error → Type 0
AnyError _ = Unit {0}

any {ℓ} : {A : Type ℓ} (r : Result Error A) → Yields (λ _. Unit {0}) AnyError r
any (ok a) = (tt, tt)
any (err e) = (tt, tt)

within : (level : ℕ) → (ltb level 256 && leb level 100) ≡ true → level ≤ 100
within level h = ground arith

check_reading-IsLevel :
    (level state : ℕ) → Yields (λ r. r.level ≤ 100) AnyError (check_reading level state)
unfolding check_reading
check_reading-IsLevel level state = elim (Bool-cases (ltb level 256 && leb level 100)) [
  | inl h ↦ rw h (within level h, tt)
  | inr h ↦ rw h (tt, tt)
]

decode_reading-IsLevel : (src : List ℕ) → Yields (λ r. r.level ≤ 100) AnyError (decode_reading src)
unfolding decode_reading
decode_reading-IsLevel src =
    Yields-bind (λ _. Unit {0}) _ AnyError (fields src) _ (any (fields src))
      (λ fs _. check_reading-IsLevel (reading_loop 0 0 fs).0 (reading_loop 0 0 fs).1)

set_battery-AreLevels :
    (b : Batteries) (f : Field) → AreLevels b → Yields AreLevels AnyError (set_battery b f)
unfolding set_battery
set_battery-AreLevels b (n, varint value) h = (h, tt)
set_battery-AreLevels b (n, fixed32 value) h = (h, tt)
set_battery-AreLevels b (n, bytes src) h =
    Yields-if _ _ (n == 1) _ _
      (Yields-bind _ _ AnyError (decode_reading src) _ (decode_reading-IsLevel src) (λ r k.
        (record { left_level = h.left_level; right_level = h.right_level; case_level = k }, tt)))
      (Yields-if _ _ (n == 2) _ _
        (Yields-bind _ _ AnyError (decode_reading src) _ (decode_reading-IsLevel src) (λ r k.
          (record { left_level = k; right_level = h.right_level; case_level = h.case_level }, tt)))
        (Yields-if _ _ (n == 3) _ _
          (Yields-bind _ _ AnyError (decode_reading src) _ (decode_reading-IsLevel src) (λ r k.
            (record { left_level = h.left_level; right_level = k; case_level = h.case_level }, tt)))
          (h, tt)))

set_batteries-AreLevels :
    (fs : List Field) (b : Batteries) → AreLevels b → Yields AreLevels AnyError (set_batteries b fs)
unfolding set_batteries
set_batteries-AreLevels [] b h = (h, tt)
set_batteries-AreLevels (f ∷ fs) b h =
    Yields-bind AreLevels AreLevels AnyError (set_battery b f) _ (set_battery-AreLevels b f h)
      (λ c k. set_batteries-AreLevels fs c k)

abbrev MaybeLevels : Option Batteries → Type 0
MaybeLevels none = Unit {0}
MaybeLevels (some b) = AreLevels b

info_batteries-MaybeLevels :
    (info : Option (List ℕ)) → Yields MaybeLevels AnyError (info_batteries info)
unfolding info_batteries
info_batteries-MaybeLevels none = (tt, tt)
info_batteries-MaybeLevels (some info) =
    Yields-bind (λ _. Unit {0}) _ AnyError (fields info) _ (any (fields info))
      (λ fs _.
        Yields-bind AreLevels MaybeLevels AnyError (set_batteries no_batteries fs) _
          (set_batteries-AreLevels fs no_batteries
            (record { left_level = tt; right_level = tt; case_level = tt }))
          (λ b k. (k, tt)))

abbrev UpdateLevels : Update → Type 0
UpdateLevels (batteries b) = AreLevels b
UpdateLevels (ended status) = Unit {0}
UpdateLevels ignored = Unit {0}

update_of-UpdateLevels : (b : Option Batteries) → MaybeLevels b → UpdateLevels (update_of b)
update_of-UpdateLevels none h = tt
update_of-UpdateLevels (some b) h = h

kind_update-Yields : (p : Packet) → Yields UpdateLevels AnyError (kind_update p)
unfolding kind_update runtime_batteries
kind_update-Yields p =
    Yields-if UpdateLevels AnyError (p.kind == server_stream) _ _
      (Yields-bind MaybeLevels UpdateLevels AnyError (runtime_batteries p.payload) _
        (Yields-bind (λ _. Unit {0}) MaybeLevels AnyError (fields p.payload) _
          (any (fields p.payload)) (λ fs _. info_batteries-MaybeLevels (find_info fs)))
        (λ b k. (update_of-UpdateLevels b k, tt)))
      (Yields-if UpdateLevels AnyError (p.kind == response || p.kind == server_error) _ _ (tt, tt)
        (tt, tt))

subscription_update-Yields :
    (p : Packet) (c : Channel) → Yields UpdateLevels AnyError (subscription_update p c)
unfolding subscription_update
subscription_update-Yields p c =
    Yields-if UpdateLevels AnyError (is_subscription p c) _ _ (kind_update-Yields p) (tt, tt)

-- Whatever a packet holds, no battery level above 100 leaves the decoder.
pub subscription_update-AreLevels :
    (p : Packet) (c : Channel) (b : Batteries)
    → subscription_update p c ≡ ok (batteries b)
    → AreLevels b
subscription_update-AreLevels p c b e =
    Yields-ok UpdateLevels AnyError (subscription_update p c) (subscription_update-Yields p c) e
