-- ===== src/Maestro/Varint/Bounds.antt =====
-- What `read_varint` and `put_varint` do on any bytes and any `u64`.
use bt_daemon.Base.Words.{bit_or_disjoint}
use bt_daemon.Maestro.{IsU64, Error, stuck}
use native.Mathlib.Nat.{pow-le-pow_right}
use bt_daemon.Maestro.Varint.{
  put_loop, put_varint, read_groups, read_varint, dec_le, lt_wf, add_group, shift_shrinks,
  take_bytes, bit_and,
}
use mathlib.Core.WellFounded.{Acc}
use bt_daemon.Base.{
  ℕ, List, [], ◌+◌, ◌<◌, ◌*◌, ◌^◌, suc, All, ◌≡◌, ◌≤◌, arith, length, ok, ◌%◌, ◌∷◌, ◌/◌, zero,
  length-drop, ◌++◌, length-append, take-append, drop-append, Yields, Bool-cases, Yields-if, ◌≢◌,
  leb, inl, inr, ◌==◌, Yields-mono,
}
use bt_daemon.Maestro.Varint.RoundTrip.{
  put_small, put_large, put_loop-append, add_group-add, add_below,
}

read_groups_nil :
    (rounds shift value v : ℕ) (rest : List ℕ) {P : Type 0}
    → read_groups rounds shift value [] ≡ ok (v, rest)
    → P
unfolding read_groups
read_groups_nil zero shift value v rest h = cc
read_groups_nil (suc rounds) shift value v rest h = cc

pow_le : (rounds shift : ℕ) → shift + 7 * suc rounds ≡ 63 → 2 ^ (shift + 7) ≤ 2 ^ 63
pow_le rounds shift e =
    pow-le-pow_right {n = 2} (omega arith) {i = shift + 7} {j = 63} (omega arith)

group_fits :
    (rounds shift value b : ℕ)
    → shift + 7 * suc rounds ≡ 63
    → value < 2 ^ shift
    → IsU64 (value + b % 128 * 2 ^ shift)
group_fits rounds shift value b e h =
    omega (arith, pow_le rounds shift e, add_below value (b % 128) shift h (omega arith))

-- The loop takes at most a byte for each round, and one behind them; the value fits 64 bits.
read_groups_takes :
    (rounds shift value : ℕ) (src : List ℕ) (v : ℕ) (rest : List ℕ)
    → shift + 7 * rounds ≡ 63
    → value < 2 ^ shift
    → All (λ b. b < 256) src
    → read_groups rounds shift value src ≡ ok (v, rest)
    → IsU64 v
      × (length rest < length src)
      × (length src ≤ length rest + (rounds + 1))
      × All (λ b. b < 256) rest
unfolding read_groups
read_groups_takes rounds shift value [] v rest e hv bytes r =
    read_groups_nil rounds shift value v rest r
read_groups_takes zero shift value (b ∷ src) v rest e hv (hb, bytes) r =
    let last : shift ≡ 63 = omega arith in
    let small : value < 2 ^ 63 = rw last at hv in ground (arith, bit_or_disjoint 63 value b)
read_groups_takes (suc rounds) shift value (b ∷ src) v rest e hv (hb, bytes) r =
    let added = add_group-add value b shift hb hv (group_fits rounds shift value b e hv) in
    ground (
      arith,
      added,
      group_fits rounds shift value b e hv,
      add_below value (b % 128) shift hv,
      read_groups_takes rounds (shift + 7) (add_group value b shift) src v rest,
    )

-- On bytes, a successful `read_varint` gives a `u64` and takes 1 to 10 bytes.
pub read_varint_takes :
    (src : List ℕ) (v : ℕ) (rest : List ℕ)
    → All (λ b. b < 256) src
    → read_varint src ≡ ok (v, rest)
    → IsU64 v
      × (length rest < length src)
      × (length src ≤ length rest + 10)
      × All (λ b. b < 256) rest
unfolding read_varint
read_varint_takes src v rest bytes r =
    read_groups_takes 9 0 0 src v rest (omega arith) (omega arith) bytes r

put_loop-IsByte :
    (rounds v : ℕ) (w : Acc ◌<◌ v)
    → v < 128 ^ suc rounds
    → All (λ b. b < 256) (put_loop [] v w)
      × (1 ≤ length (put_loop [] v w))
      × (length (put_loop [] v w) ≤ rounds + 1)
put_loop-IsByte zero v w h = rw (put_small [] v w (omega arith)) (omega arith)
put_loop-IsByte (suc rounds) v (Acc.intro _ smaller) h = elim (dec_le 128 v) [
  | yes p ↦
      let ih =
        put_loop-IsByte rounds (v / 128) (smaller (v / 128) (shift_shrinks v p)) (omega arith) in
      rw (put_large [] v smaller p, put_loop-append ((v % 128 + 128) ∷ []))
        ((omega arith, ih.0), omega arith, omega arith)
  | no p ↦ rw (put_small [] v _ (omega arith)) (omega arith)
]

-- `put_varint` writes 1 to 10 bytes.
pub put_varint-IsByte :
    (v : ℕ)
    → IsU64 v
    → All (λ b. b < 256) (put_varint [] v)
      × (1 ≤ length (put_varint [] v))
      × (length (put_varint [] v) ≤ 10)
unfolding put_varint
put_varint-IsByte v h = put_loop-IsByte 9 v (lt_wf.apply v) (omega arith)

-- The slices only shrink, and no reader runs out of fuel.
abbrev pub IsReal : Error → Type 0
IsReal e = e ≢ stuck

abbrev pub Shorter : List ℕ → List ℕ → Type 0
Shorter src rest = length rest < length src

pub take_bytes-Yields :
    (src : List ℕ) (n : ℕ) → Yields (λ t. length t.1 ≤ length src) IsReal (take_bytes src n)
unfolding take_bytes
take_bytes-Yields src n = elim (Bool-cases (leb n (length src))) [
  | inl e ↦ rw e (omega (arith, length-drop n src), tt)
  | inr e ↦ rw e (tt, λ h. cc)
]

read_groups-Yields :
    (rounds shift value : ℕ) (src : List ℕ)
    → Yields (λ t. Shorter src t.1) IsReal (read_groups rounds shift value src)
unfolding read_groups
read_groups-Yields zero shift value [] = (tt, λ h. cc)
read_groups-Yields (suc rounds) shift value [] = (tt, λ h. cc)
read_groups-Yields zero shift value (b ∷ src) =
    Yields-if _ _ (leb b 1) _ _ (omega arith, tt) (tt, λ h. cc)
read_groups-Yields (suc rounds) shift value (b ∷ src) =
    Yields-if _ _ (bit_and b 0x80 == 0) _ _ (omega arith, tt)
      (Yields-mono _ _ IsReal (read_groups rounds (shift + 7) (add_group value b shift) src)
        (read_groups-Yields rounds (shift + 7) (add_group value b shift) src) (λ t h. omega arith))

pub read_varint-Yields : (src : List ℕ) → Yields (λ t. Shorter src t.1) IsReal (read_varint src)
unfolding read_varint
read_varint-Yields src = read_groups-Yields 9 0 0 src

pub take_bytes-append : (xs ys : List ℕ) → take_bytes (xs ++ ys) (length xs) ≡ ok (xs, ys)
unfolding take_bytes
take_bytes-append xs ys = ground (arith, length-append xs ys, take-append xs ys, drop-append xs ys)
