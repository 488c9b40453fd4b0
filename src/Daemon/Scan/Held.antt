-- ===== src/Daemon/Scan/Held.antt =====
-- Which adapters a stop reaches.
use bt_daemon.Daemon.Scan.{
  Tasks, holds, collect, difference, insert_key, sort, select_scans, is_selected, stop_loop,
  and_then_last,
}
use text.Mathlib.TextEquality.{eq_iff}
use text.Mathlib.Text.{◌==◌ as str_eq}
use Prim.Native.String.{String}
use bt_daemon.Base.{
  ℕ, Bool, true, false, not, ◌&&◌, ◌||◌, ◌≡◌, refl, List, [], ◌∷◌, ◌++◌, Option, some, Result,
  Bool-cases, inl, inr, arith, ◌⊎◌,
}

holds-append :
    (key : String) (xs ys : List String) → holds key (xs ++ ys) ≡ (holds key xs || holds key ys)
unfolding holds
holds-append key [] ys = refl
holds-append key (x ∷ xs) ys = ground (arith, holds-append key xs ys)

holds-insert_key :
    (key k : String) (keys : List String)
    → holds key (insert_key k keys) ≡ (str_eq k key || holds key keys)
unfolding holds insert_key
holds-insert_key key k [] = refl
holds-insert_key key k (x ∷ keys) = ground (arith, holds-insert_key key k keys)

holds-sort : (key : String) (keys : List String) → holds key (sort keys) ≡ holds key keys
unfolding holds sort
holds-sort key [] = refl
holds-sort key (k ∷ keys) = rw (holds-insert_key key k (sort keys), holds-sort key keys) refl

holds-difference :
    (key : String) (adapters retained : List String)
    → holds key (difference adapters retained) ≡ (holds key adapters && not (holds key retained))
unfolding holds difference
holds-difference key [] retained = refl
holds-difference key (k ∷ adapters) retained =
    ground (arith, holds-difference key adapters retained, eq_iff k key)

or_true : (b : Bool) → (b || true) ≡ true
or_true true = refl
or_true false = refl

and_false : (b : Bool) → (b && false) ≡ false
and_false true = refl
and_false false = refl

module _ {S F : Type 0} where
  -- An adapter of a scan that is not selected is retained.
  abbrev pub HeldBy : String → Option ℕ → Option String → Tasks S F → Type 0
  HeldBy key request owner [] = ⊥
  HeldBy key request owner ((id, task) ∷ tasks) =
      ((is_selected request owner id task ≡ false) × (holds key task.adapter_keys ≡ true))
      ⊎ HeldBy key request owner tasks

  retained-HeldBy :
      (key : String) (request : Option ℕ) (owner : Option String) (tasks : Tasks S F)
      → HeldBy key request owner tasks
      → holds key (collect request owner tasks).1.1 ≡ true
  unfolding collect
  retained-HeldBy key request owner [] h = absurd h
  retained-HeldBy key request owner ((id, task) ∷ tasks) (inl (other, here)) =
      rw (other, holds-append key task.adapter_keys (collect request owner tasks).1.1, here) refl
  retained-HeldBy key request owner ((id, task) ∷ tasks) (inr h) =
      elim (Bool-cases (is_selected request owner id task)) [
        | inl e ↦ rw e (retained-HeldBy key request owner tasks h)
        | inr e ↦
            rw
              (
                e,
                holds-append key task.adapter_keys (collect request owner tasks).1.1,
                retained-HeldBy key request owner tasks h,
              )
              (or_true (holds key task.adapter_keys))
      ]

  -- A stop never reaches an adapter that a scan which goes on still holds.
  pub holds-select_scans :
      (key : String) (tasks : Tasks S F) (request : Option ℕ) (owner : Option String)
      → HeldBy key request owner tasks
      → holds key (select_scans tasks request owner).1 ≡ false
  unfolding select_scans
  holds-select_scans key tasks request owner h =
      rw
        (
          holds-sort key
              (difference (collect request owner tasks).1.0 (collect request owner tasks).1.1),
          holds-difference key (collect request owner tasks).1.0 (collect request owner tasks).1.1,
          retained-HeldBy key request owner tasks h,
        )
        (and_false (holds key (collect request owner tasks).1.0))

-- The world after the backend was asked to stop each adapter, in order.
module _ {S F W : Type 0} (set : Option String → Bool → W → Result F S × W)
    (look : W → Result F S × W) where
  abbrev pub after : List String → W → W
  after [] w = w
  after (key ∷ keys) w = after keys (set (some key) false w).1

  -- Every adapter is asked to stop, in order, whichever of them fails.
  pub stop_loop-after :
      (keys : List String) (result : Result F (Option S)) (w : W)
      → (stop_loop set look keys result w).1 ≡ after keys w
  unfolding stop_loop
  stop_loop-after [] result w = refl
  stop_loop-after (key ∷ keys) result w =
      stop_loop-after keys (and_then_last set look result (set (some key) false w).0)
        (set (some key) false w).1
