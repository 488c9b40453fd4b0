-- ===== src/Daemon/Published.antt =====
-- src/daemon/published.rs: a state and its watermark. `uuid` gives the epochs that are drawn, and
-- `drawn` counts them; a value is compared by the argument `same`.
pub mod Identity
use bt_daemon.Base.{ℕ, ◌+◌, ◌-◌, ◌^◌, Bool, List, [], ◌∷◌, Option, none, some, if◌then◌else◌, ◌==◌}

-- `MAX_REVISION`
abbrev pub max_revision : ℕ
max_revision = 2 ^ 53 - 1

module _ {ℓ} (Epoch : Type ℓ) where
  pub record Watermark : Type ℓ where
    pub epoch : Epoch
    pub revision : ℕ
    pub previous_epoch : Option Epoch

module _ {ℓ κ} (Epoch : Type ℓ) (T : Type κ) where
  pub record Published : Type (ℓ ⊔ κ) where
    pub value : T
    pub watermark : Watermark Epoch
    pub drawn : ℕ

module _ {ℓ κ} {Epoch : Type ℓ} {T : Type κ} (uuid : ℕ → Epoch) (same : T → T → Bool) where
  -- `Published::new`, when `drawn` epochs have been drawn before.
  unfoldable pub new : ℕ → T → Published Epoch T
  new drawn value = record {
    value = value;
    watermark = record { epoch = uuid drawn; revision = 1; previous_epoch = none };
    drawn = drawn + 1;
  }

  -- The watermark of the next value.
  abbrev pub next_watermark : Published Epoch T → Watermark Epoch
  next_watermark p =
      if p.watermark.revision == max_revision
      then record { epoch = uuid p.drawn; revision = 1; previous_epoch = some p.watermark.epoch }
      else record (p.watermark) { revision = p.watermark.revision + 1 }

  abbrev pub next_drawn : Published Epoch T → ℕ
  next_drawn p = if p.watermark.revision == max_revision then p.drawn + 1 else p.drawn

  unfoldable pub update : T → Published Epoch T → Published Epoch T
  update next p =
      if same p.value next
      then p
      else record { value = next; watermark = next_watermark p; drawn = next_drawn p }

  unfoldable pub updates : List T → Published Epoch T → Published Epoch T
  updates [] p = p
  updates (next ∷ values) p = updates values (update next p)
