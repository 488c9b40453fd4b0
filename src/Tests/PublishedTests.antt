-- ===== src/Tests/PublishedTests.antt =====
-- src/daemon/published.rs on numbers.
use bt_daemon.Daemon.Published.{Published, new, update, updates}
use bt_daemon.Daemon.Published.Identity.{updates-identity}
use bt_daemon.Base.{ℕ, Bool, ◌≡◌, ◌==◌, [], ◌∷◌, refl}

abbrev draw : ℕ → ℕ
draw n = n

abbrev equal : ℕ → ℕ → Bool
equal a b = a == b

abbrev first : Published ℕ ℕ
first = updates draw equal (1 ∷ 2 ∷ []) (new draw equal 0 0)

-- The same value again is not a new state.
same_epoch : (updates draw equal (2 ∷ []) first).watermark.epoch ≡ first.watermark.epoch
unfolding updates update new
same_epoch = refl

same_revision : (updates draw equal (2 ∷ []) first).watermark.revision ≡ first.watermark.revision
unfolding updates update new
same_revision = refl

updates-identity_example : updates draw equal (2 ∷ []) first ≡ first
updates-identity_example =
    updates-identity draw equal 0 0 (1 ∷ 2 ∷ []) (2 ∷ []) (λ m n same. same) same_epoch
      same_revision
