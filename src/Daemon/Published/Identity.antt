-- ===== src/Daemon/Published/Identity.antt =====
-- A watermark names one state: it is never used for another one.
use bt_daemon.Daemon.Published.{Published, max_revision, new, update, updates}
use bt_daemon.Base.{
  ℕ, ◌+◌, ◌*◌, ◌≤◌, ◌<◌, Bool, ◌≡◌, refl, List, [], ◌∷◌, arith, ◌⊎◌, Bool-cases, inl, inr, ◌==◌,
  sym, ◌∙◌, subst,
}

module _ {ℓ κ} {Epoch : Type ℓ} {T : Type κ} (uuid : ℕ → Epoch) (same : T → T → Bool) where
  -- The epoch is the last one that was drawn, and the revision fits in a JSON number.
  pub record IsStamped (p : Published Epoch T) : Type ℓ where
    pub last : ℕ
    pub last_eq : p.drawn ≡ last + 1
    pub epoch_eq : p.watermark.epoch ≡ uuid last
    pub from_one : 1 ≤ p.watermark.revision
    pub to_max : p.watermark.revision ≤ max_revision

  abbrev rank : Published Epoch T → ℕ
  rank p = p.drawn * max_revision + p.watermark.revision

  new-IsStamped : (drawn : ℕ) (value : T) → IsStamped (new uuid same drawn value)
  unfolding new
  new-IsStamped drawn value = record {
    last = drawn;
    last_eq = refl;
    epoch_eq = refl;
    from_one = omega arith;
    to_max = omega arith;
  }

  -- Either nothing happened, or the rank grew by one.
  update-rank :
      (next : T) (p : Published Epoch T)
      → IsStamped p
      → IsStamped (update uuid same next p)
        × ((update uuid same next p ≡ p) ⊎ (rank (update uuid same next p) ≡ rank p + 1))
  unfolding update
  update-rank next p h = elim (Bool-cases (same p.value next)) [
    | inl unchanged ↦ rw unchanged (h, inl refl)
    | inr changed ↦ elim (Bool-cases (p.watermark.revision == max_revision)) [
      | inl full ↦
          let last_eq = h.last_eq in
          rw (changed, full)
            (
              record {
                last = p.drawn;
                last_eq = refl;
                epoch_eq = refl;
                from_one = omega arith;
                to_max = omega arith;
              },
              inr (ground arith),
            )
      | inr more ↦
          let from = h.from_one in
          let to = h.to_max in
          rw (changed, more)
            (
              record {
                last = h.last;
                last_eq = h.last_eq;
                epoch_eq = h.epoch_eq;
                from_one = omega arith;
                to_max = ground arith;
              },
              inr (omega arith),
            )
    ]
  ]

  updates-rank :
      (values : List T) (p : Published Epoch T)
      → IsStamped p
      → IsStamped (updates uuid same values p)
        × ((updates uuid same values p ≡ p) ⊎ (rank p < rank (updates uuid same values p)))
  unfolding updates
  updates-rank [] p h = (h, inl refl)
  updates-rank (next ∷ values) p h =
      let (stamped, one) = update-rank next p h in
      let (last, rest) = updates-rank values (update uuid same next p) stamped in
      elim one [
        | inl kept ↦ elim rest [
          | inl done ↦ (last, inl (done ∙ kept))
          | inr grown ↦
              let below : rank p < rank (updates uuid same values (update uuid same next p)) =
                subst (λ x. rank x < rank (updates uuid same values (update uuid same next p))) kept
                  grown in
              (last, inr below)
        ]
        | inr more ↦ elim rest [
          | inl done ↦ (last, inr (rw done (omega arith)))
          | inr grown ↦ (last, inr (omega arith))
        ]
      ]

  -- When the epochs that are drawn are all different: a state that is reached by updates from the
  -- start and any later one are the same if they have the same epoch and revision.
  pub updates-identity :
      (drawn : ℕ) (value : T) (before after : List T)
      → ((m n : ℕ) → uuid m ≡ uuid n → m ≡ n)
      → (updates uuid same after
          (updates uuid same before (new uuid same drawn value))).watermark.epoch
        ≡ (updates uuid same before (new uuid same drawn value)).watermark.epoch
      → (updates uuid same after
          (updates uuid same before (new uuid same drawn value))).watermark.revision
        ≡ (updates uuid same before (new uuid same drawn value)).watermark.revision
      → updates uuid same after (updates uuid same before (new uuid same drawn value))
        ≡ updates uuid same before (new uuid same drawn value)
  updates-identity drawn value before after distinct epoch_same revision_same =
      let p = updates uuid same before (new uuid same drawn value) in
      let q = updates uuid same after p in
      let (stamped, _) =
        updates-rank before (new uuid same drawn value) (new-IsStamped drawn value) in
      let (later, moved) = updates-rank after p stamped in
      elim moved [
        | inl done ↦ done
        | inr grown ↦
            let lasts : later.last ≡ stamped.last =
              distinct later.last stamped.last
                (sym later.epoch_eq ∙ (epoch_same ∙ stamped.epoch_eq)) in
            let later_eq = later.last_eq in let stamped_eq = stamped.last_eq in absurd (omega arith)
      ]
