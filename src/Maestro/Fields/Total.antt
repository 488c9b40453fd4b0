-- ===== src/Maestro/Fields/Total.antt =====
-- The loop of `fields` ends on every input.
use bt_daemon.Maestro.Varint.Bounds.{IsReal, Shorter, read_varint-Yields, take_bytes-Yields}
use bt_daemon.Maestro.Fields.{
  read_field, read_value, Field, fields_loop, stuck, fields, Error, key_too_large, field_zero,
}
use bt_daemon.Maestro.Varint.{read_varint, take_bytes}
use bt_daemon.Base.{
  ℕ, List, length, ◌≤◌, arith, ◌≢◌, err, ◌∷◌, suc, Result-cases, inl, ◌++◌, inr, [], zero, Bool,
  Yields, Yields-ok, Yields-err, Yields-bind, Yields-if, ensure, true, ◌==◌, false, ltb, ◌^◌, not,
  ◌/◌, ◌%◌,
}

ensure-Yields : (b : Bool) (x : Error) → IsReal x → Yields (λ _. Unit {0}) IsReal (ensure b x)
ensure-Yields true x h = (tt, tt)
ensure-Yields false x h = (tt, h)

read_value-Yields :
    (wire : ℕ) (src : List ℕ) → Yields (λ t. length t.1 ≤ length src) IsReal (read_value wire src)
unfolding read_value
read_value-Yields wire src =
    Yields-if _ _ (wire == 0) _ _
      (Yields-bind _ _ IsReal (read_varint src) _ (read_varint-Yields src)
        (λ t h. (omega arith, tt)))
      (Yields-if _ _ (wire == 1) _ _
        (Yields-bind _ _ IsReal (take_bytes src 8) _ (take_bytes-Yields src 8) (λ t h. (h, tt)))
        (Yields-if _ _ (wire == 2) _ _
          (Yields-bind _ _ IsReal (read_varint src) _ (read_varint-Yields src) (λ t h.
            Yields-bind _ _ IsReal (take_bytes t.1 t.0) _ (take_bytes-Yields t.1 t.0)
              (λ s k. (omega arith, tt))))
          (Yields-if _ _ (wire == 5) _ _
            (Yields-bind _ _ IsReal (take_bytes src 4) _ (take_bytes-Yields src 4) (λ t h. (h, tt)))
            (tt, λ h. cc))))

-- A round takes a byte at least.
pub read_field-Yields : (src : List ℕ) → Yields (λ t. Shorter src t.1) IsReal (read_field src)
unfolding read_field
read_field-Yields src =
    Yields-bind _ _ IsReal (read_varint src) _ (read_varint-Yields src) (λ key h.
      Yields-bind (λ _. Unit {0}) _ IsReal (ensure (ltb key.0 (2 ^ 32)) key_too_large) _
        (ensure-Yields (ltb key.0 (2 ^ 32)) key_too_large (λ e. cc))
        (λ _ _.
          Yields-bind (λ _. Unit {0}) _ IsReal (ensure (not (key.0 / 8 == 0)) field_zero) _
            (ensure-Yields (not (key.0 / 8 == 0)) field_zero (λ e. cc))
            (λ _ _.
              Yields-bind _ _ IsReal (read_value (key.0 % 8) key.1) _
                (read_value-Yields (key.0 % 8) key.1) (λ v k. (omega arith, tt)))))

fields_loop-ne-stuck :
    (fuel : ℕ) (src : List ℕ) (out : List Field)
    → length src ≤ fuel
    → fields_loop fuel src out ≢ err stuck
unfolding fields_loop
fields_loop-ne-stuck fuel [] out h = λ e. cc
fields_loop-ne-stuck zero (b ∷ src) out h = absurd (omega arith)
fields_loop-ne-stuck (suc fuel) (b ∷ src) out h = elim (Result-cases (read_field (b ∷ src))) [
  | inl (t, e) ↦ rw e (
      fields_loop-ne-stuck fuel t.1 (out ++ t.0)
        (omega (arith, Yields-ok _ _ (read_field (b ∷ src)) (read_field-Yields (b ∷ src)) e)))
  | inr (x, e) ↦
      rw e (λ p. Yields-err _ _ (read_field (b ∷ src)) (read_field-Yields (b ∷ src)) e (cc))
]

-- `fields` ends on every input: its loop never runs out of fuel.
pub fields-ne-stuck : (src : List ℕ) → fields src ≢ err stuck
unfolding fields
fields-ne-stuck src = fields_loop-ne-stuck (length src) src [] (omega arith)
