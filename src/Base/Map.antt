-- ===== src/Base/Map.antt =====
-- Rust's `HashMap` as an association list. A key stands at most once in a map that `insert`
-- built; the order of the entries is that of insertion, which no theorem relies on.
use bt_daemon.Base.{
  Bool, List, Option, length, ◌∷◌, ◌≡◌, [], false, is_some, none, some, ◌≤◌, arith, ◌+◌, ◌||◌, refl,
  true, Bool-cases, inl, inr, ◌≢◌,
}
use bt_daemon.Base.Equality.{Eq}
use bt_daemon.Base.Tests.{if◌then◌else◌}

abbrev pub Map {ℓ κ} : Type ℓ → Type κ → Type (ℓ ⊔ κ)
Map K V = List (K × V)

module _ {ℓ κ} {K : Type ℓ} {V : Type κ} ⦃e : Eq K⦄ where
  unfoldable pub get : K → Map K V → Option V
  get k [] = none
  get k ((j, v) ∷ m) = if e.beq j k then some v else get k m

  unfoldable pub insert : K → V → Map K V → Map K V
  insert k v [] = (k, v) ∷ []
  insert k v ((j, w) ∷ m) = if e.beq j k then (k, v) ∷ m else (j, w) ∷ insert k v m

  unfoldable pub remove : K → Map K V → Map K V
  remove k [] = []
  remove k ((j, v) ∷ m) = if e.beq j k then remove k m else (j, v) ∷ remove k m

  unfoldable pub contains_key : K → Map K V → Bool
  contains_key k [] = false
  contains_key k ((j, v) ∷ m) = e.beq j k || contains_key k m

  pub get-insert :
      (k j : K) (v : V) (m : Map K V)
      → get j (insert k v m) ≡ (if e.beq k j then some v else get j m)
  unfolding get insert
  get-insert k j v [] = refl
  get-insert k j v ((i, w) ∷ m) =
      ground (arith, e.beq_iff k j, e.beq_iff i k, e.beq_iff i j, get-insert k j v m)

  pub get-remove :
      (k j : K) (m : Map K V) → get j (remove k m) ≡ (if e.beq k j then none else get j m)
  unfolding get remove
  get-remove k j [] = ground arith
  get-remove k j ((i, w) ∷ m) =
      ground (arith, e.beq_iff k j, e.beq_iff i k, e.beq_iff i j, get-remove k j m)

  pub contains_key-get : (k : K) (m : Map K V) → contains_key k m ≡ is_some (get k m)
  unfolding contains_key get
  contains_key-get k [] = refl
  contains_key-get k ((j, v) ∷ m) = ground (arith, contains_key-get k m)

  pub length-remove-le : (k : K) (m : Map K V) → length (remove k m) ≤ length m
  unfolding remove
  length-remove-le k [] = omega arith
  length-remove-le k ((j, v) ∷ m) = ground (arith, length-remove-le k m)

  pub length-insert-le : (k : K) (v : V) (m : Map K V) → length (insert k v m) ≤ length m + 1
  unfolding insert
  length-insert-le k v [] = omega arith
  length-insert-le k v ((j, w) ∷ m) = ground (arith, length-insert-le k v m)

-- `retain`, on the values alone and on whole entries
module _ {ℓ κ} {K : Type ℓ} {V : Type κ} (keep : K → V → Bool) where
  unfoldable pub retain : Map K V → Map K V
  retain [] = []
  retain ((k, v) ∷ m) = if keep k v then (k, v) ∷ retain m else retain m

  pub length-retain-le : (m : Map K V) → length (retain m) ≤ length m
  unfolding retain
  length-retain-le [] = omega arith
  length-retain-le ((k, v) ∷ m) = ground (arith, length-retain-le m)

  pub get-retain :
      ⦃e : Eq K⦄ (k : K) (v : V) (m : Map K V)
      → get k m ≡ some v
      → keep k v ≡ true
      → get k (retain m) ≡ some v
  unfolding get retain
  get-retain ⦃e⦄ k v [] h p = cc
  get-retain ⦃e⦄ k v ((j, w) ∷ m) h p = elim (Bool-cases (e.beq j k)) [
    | inl same ↦
        let here : j ≡ k = (e.beq_iff j k).0 same in
        let value : some w ≡ some v = rw same at h in
        let w_eq : w ≡ v = cc in
        let kept : keep j w ≡ true = rw (here, w_eq) p in rw (kept, same) value
    | inr other ↦
        let rest : get k m ≡ some v = rw other at h in
        elim (Bool-cases (keep j w)) [
          | inl kept ↦ rw (kept, other) (get-retain k v m rest p)
          | inr dropped ↦ rw dropped (get-retain k v m rest p)
        ]
  ]

module _ {ℓ κ} {K : Type ℓ} {V : Type κ} ⦃e : Eq K⦄ where
  pub get-insert_same : (k : K) (v : V) (m : Map K V) → get k (insert k v m) ≡ some v
  get-insert_same k v m = ground (arith, e.beq_iff k k, get-insert k k v m)

  pub get-remove_same : (k : K) (m : Map K V) → get k (remove k m) ≡ none
  get-remove_same k m = ground (arith, e.beq_iff k k, get-remove k k m)

  pub get-insert_other : (k j : K) (v : V) (m : Map K V) → k ≢ j → get j (insert k v m) ≡ get j m
  get-insert_other k j v m h = ground (arith, e.beq_iff k j, get-insert k j v m)

  pub get-remove_other : (k j : K) (m : Map K V) → k ≢ j → get j (remove k m) ≡ get j m
  get-remove_other k j m h = ground (arith, e.beq_iff k j, get-remove k j m)
