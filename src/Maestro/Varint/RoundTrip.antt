-- ===== src/Maestro/Varint/RoundTrip.antt =====
-- `read_varint` reads back what `put_varint` wrote.
use mathlib.Core.WellFounded.{Acc}
use native.Mathlib.Nat.{div-add-mod, mod-eq_of_lt}
use native.Mathlib.Numerals.{towards_suc}
use mathlib.Core.Logic.{dif_pos}
use native.Mathlib.Decide.{dec_le}
use native.Mathlib.Bridge.{le_prop}
use native.Mathlib.Nat.{mod-eq_of_lt}
use bt_daemon.Maestro.Varint.{shift_shrinks}
use bt_daemon.Base.{
  ℕ, zero, suc, ◌+◌, ◌*◌, ◌/◌, ◌%◌, ◌^◌, ◌≤◌, ◌<◌, ◌≡◌, ap, ◌∙◌, sym, List, [], ◌∷◌, ◌++◌,
  append_assoc, ok, arith,
}
use bt_daemon.Base.Order.{lt_wf}
use bt_daemon.Base.Bits.{low_bits, top_bit, set_top_bit}
use bt_daemon.Base.Words.{bit_or_disjoint}
use bt_daemon.Maestro.{IsU64}
use bt_daemon.Maestro.Varint.{put_loop, put_varint, read_groups, read_varint, add_group}

pub put_small :
    (dst : List ℕ) (v : ℕ) (w : Acc ◌<◌ v) → v < 128 → put_loop dst v w ≡ dst ++ (v ∷ [])
unfolding put_loop
put_small dst v (Acc.intro _ smaller) h = ground (arith, set_top_bit (v % 256))

pub put_large :
    (dst : List ℕ) (v : ℕ) (smaller : (m : ℕ) → m < v → Acc ◌<◌ m) (h : 128 ≤ v)
    → put_loop dst v (Acc.intro v smaller)
      ≡ put_loop (dst ++ ((v % 128 + 128) ∷ [])) (v / 128) (smaller (v / 128) (shift_shrinks v h))
unfolding put_loop
put_large dst v smaller h =
    rw (dif_pos (dec_le 128 v) le_prop h, set_top_bit (v % 256) (omega arith))
      (ap
        (λ (t : ℕ).
          put_loop (dst ++ ((t + 128) ∷ [])) (v / 128) (smaller (v / 128) (shift_shrinks v h)))
        (omega arith))

pub put_loop-append :
    (dst : List ℕ) (v : ℕ) (w : Acc ◌<◌ v) → put_loop dst v w ≡ dst ++ put_loop [] v w
put_loop-append dst v (Acc.intro _ smaller) = elim (dec_le 128 v) [
  | yes h ↦
      rw (put_large dst v smaller h, put_large [] v smaller h)
        (put_loop-append (dst ++ ((v % 128 + 128) ∷ [])) (v / 128)
            (smaller (v / 128) (shift_shrinks v h))
          ∙ append_assoc dst ((v % 128 + 128) ∷ []) _
          ∙ ap (◌++◌ dst) (
              sym (
                put_loop-append ((v % 128 + 128) ∷ []) (v / 128)
                  (smaller (v / 128) (shift_shrinks v h)))))
  | no h ↦ rw (put_small dst v _ (omega arith), put_small [] v _ (omega arith))
]

pub add_group-add :
    (value w shift : ℕ)
    → w < 256
    → value < 2 ^ shift
    → IsU64 (value + w % 128 * 2 ^ shift)
    → add_group value w shift ≡ value + w % 128 * 2 ^ shift
add_group-add value w shift hw hv fits =
    let small : w % 128 * 2 ^ shift < 2 ^ 64 = omega arith in
    rw (low_bits w hw, mod-eq_of_lt small) (bit_or_disjoint shift value (w % 128) hv)

last_byte :
    (rounds w value shift : ℕ) (rest : List ℕ)
    → w < 128
    → value < 2 ^ shift
    → IsU64 (value + w * 2 ^ shift)
    → read_groups (suc rounds) shift value (w ∷ rest) ≡ ok (value + w * 2 ^ shift, rest)
unfolding read_groups
last_byte rounds w value shift rest hw hv fits =
    let low : w % 128 ≡ w = omega arith in
    ground (arith, low, top_bit w, add_group-add value w shift)

inner_byte :
    (rounds g value shift : ℕ) (rest : List ℕ)
    → g < 128
    → value < 2 ^ shift
    → IsU64 (value + g * 2 ^ shift)
    → read_groups (suc rounds) shift value ((g + 128) ∷ rest)
      ≡ read_groups rounds (shift + 7) (value + g * 2 ^ shift) rest
unfolding read_groups
inner_byte rounds g value shift rest hg hv fits =
    let low : (g + 128) % 128 ≡ g = omega arith in
    ground (arith, low, top_bit (g + 128), add_group-add value (g + 128) shift)

pub shift_seven : (s : ℕ) → 2 ^ (s + 7) ≡ 128 * 2 ^ s
shift_seven s = simp towards_suc (omega arith)

-- The lowest group of `v` and the rest, both shifted by `s`.
split_group : (v s : ℕ) → v * 2 ^ s ≡ v % 128 * 2 ^ s + v / 128 * 2 ^ (s + 7)
split_group v s = omega (
  arith,
  ap (λ (t : ℕ). t * 2 ^ s) (div-add-mod v 128),
  ap (λ (t : ℕ). v / 128 * t) (shift_seven s),
)

pub add_below : (value g s : ℕ) → value < 2 ^ s → g < 128 → value + g * 2 ^ s < 2 ^ (s + 7)
add_below value g s h k = rw (shift_seven s) (grind arith)

tenth_byte :
    (v value : ℕ) (rest : List ℕ)
    → value < 2 ^ 63
    → IsU64 (value + v * 2 ^ 63)
    → read_groups 0 63 value (v ∷ rest) ≡ ok (value + v * 2 ^ 63, rest)
unfolding read_groups
tenth_byte v value rest hv fits = ground (arith, bit_or_disjoint 63 value v)

tenth_small : (v value : ℕ) → IsU64 (value + v * 2 ^ 63) → v < 128
tenth_small v value h = omega arith

-- After `9 - rounds` groups the shift is `63 - 7 * rounds`; `v` is what is still to be read.
read_groups-put_loop :
    (rounds shift value v : ℕ) (w : Acc ◌<◌ v) (rest : List ℕ)
    → shift + 7 * rounds ≡ 63
    → value < 2 ^ shift
    → IsU64 (value + v * 2 ^ shift)
    → read_groups rounds shift value (put_loop [] v w ++ rest) ≡ ok (value + v * 2 ^ shift, rest)
read_groups-put_loop zero shift value v w rest e hv fits =
    let last : shift ≡ 63 = omega arith in
    rw (last, put_small [] v w (tenth_small v value (rw last at fits)))
      (tenth_byte v value rest (rw last at hv) (rw last at fits))
read_groups-put_loop (suc rounds) shift value v (Acc.intro _ smaller) rest e hv fits =
    elim (dec_le 128 v) [
      | yes h ↦
          rw (put_large [] v smaller h, put_loop-append ((v % 128 + 128) ∷ []))
            (inner_byte rounds (v % 128) value shift _ (omega arith) hv
                (omega (arith, split_group v shift))
              ∙ read_groups-put_loop rounds (shift + 7) (value + v % 128 * 2 ^ shift) (v / 128) _
                  rest (omega arith) (add_below value (v % 128) shift hv (omega arith))
                  (omega (arith, split_group v shift))
              ∙ ap (λ (t : ℕ). ok (t, rest)) (omega (arith, split_group v shift)))
      | no h ↦
          rw (put_small [] v _ (omega arith))
            (last_byte rounds v value shift rest (omega arith) hv fits)
    ]

-- A `u64` that `put_varint` wrote is read back, and what follows it is left.
pub read_varint-put_varint :
    (v : ℕ) (rest : List ℕ) → IsU64 v → read_varint (put_varint [] v ++ rest) ≡ ok (v, rest)
unfolding read_varint put_varint
read_varint-put_varint v rest h =
    read_groups-put_loop 9 0 0 v (lt_wf.apply v) rest (omega arith) (omega arith) (omega arith)
    ∙ ap (λ (t : ℕ). ok (t, rest)) (omega arith)

pub put_varint-append : (dst : List ℕ) (v : ℕ) → put_varint dst v ≡ dst ++ put_varint [] v
unfolding put_varint
put_varint-append dst v = put_loop-append dst v (lt_wf.apply v)
