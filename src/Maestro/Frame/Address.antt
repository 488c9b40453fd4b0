-- ===== src/Maestro/Frame/Address.antt =====
-- The address of a frame ends at its first odd byte, and `address_end` finds that byte.
use bt_daemon.Base.Endian.{IsBytes, IsByte}
use bt_daemon.Maestro.{IsU32}
use bt_daemon.Base.Bits.{set_lowest_bit, lowest_bit}
use native.Mathlib.Numerals.{add-one}
use native.Mathlib.Bridge.{le_prop}
use mathlib.Core.Logic.{dif_pos, dif_neg}
use native.Mathlib.Decide.{dec_lt}
use bt_daemon.Maestro.Frame.{
  put_address_loop, Acc, bit_and, address_shrinks, bit_or, address_end, put_address,
}
use bt_daemon.Base.{
  ℕ, List, ◌<◌, ◌≡◌, ◌++◌, ◌∷◌, [], All, ◌%◌, ◌/◌, ◌*◌, append_assoc, arith, drop, length, ◌^◌,
  some, suc, ◌+◌, ◌≤◌, ap, length-append, ◌∙◌, All-append, sym, zero, refl,
}

odd_byte : (b : ℕ) → b < 256 → (bit_or b 1 < 256) × (bit_or b 1 % 2 ≡ 1)
odd_byte b h = omega (arith, set_lowest_bit b h)

-- Behind `dst` the loop writes at most `k` even bytes and one odd byte.
pub record Shape (k : ℕ) (dst written : List ℕ) : Type 0 where
  pub evens : List ℕ
  pub last : ℕ
  pub splits : written ≡ dst ++ (evens ++ (last ∷ []))
  pub evens_even : All (λ b. (b < 256) × (b % 2 ≡ 0)) evens
  pub evens_few : length evens ≤ k
  pub last_byte : last < 256
  pub last_odd : last % 2 ≡ 1

Shape-last :
    (k : ℕ) (dst : List ℕ) (address : ℕ) (w : Acc ◌<◌ address)
    → ¬ (0 < address / 128)
    → Shape k dst (put_address_loop dst address w)
unfolding put_address_loop
Shape-last k dst address (Acc.intro _ smaller) h = record {
  evens = [];
  last = bit_or (address % 256 * 2 % 256) 1;
  splits = rw (dif_neg (dec_lt 0 (address / 128)) h);
  evens_even = tt;
  evens_few = omega arith;
  last_byte = (odd_byte (address % 256 * 2 % 256) (omega arith)).0;
  last_odd = (odd_byte (address % 256 * 2 % 256) (omega arith)).1;
}

-- The even byte that a round writes.
abbrev inner_byte : ℕ → ℕ
inner_byte address = bit_and address 0x7f * 2 % 256

Shape-cons :
    (k : ℕ) (dst : List ℕ) (address : ℕ) (smaller : (m : ℕ) → m < address → Acc ◌<◌ m)
    (h : 0 < address / 128)
    → Shape k (dst ++ (inner_byte address ∷ [])) (
        put_address_loop
          (dst ++ (inner_byte address ∷ []))
          (address / 128)
          (smaller (address / 128) (address_shrinks address h)))
    → Shape (suc k) dst (put_address_loop dst address (Acc.intro address smaller))
unfolding put_address_loop
Shape-cons k dst address smaller h rest = record {
  evens = inner_byte address ∷ rest.evens;
  last = rest.last;
  splits =
      rw (dif_pos (dec_lt 0 (address / 128)) le_prop h) rest.splits
      ∙ append_assoc dst (inner_byte address ∷ []) _;
  evens_even = (omega arith, rest.evens_even);
  evens_few = omega (arith, rest.evens_few);
  last_byte = rest.last_byte;
  last_odd = rest.last_odd;
}

put_address_loop-Shape :
    (k : ℕ) (dst : List ℕ) (address : ℕ) (w : Acc ◌<◌ address)
    → address < 128 ^ suc k
    → Shape k dst (put_address_loop dst address w)
put_address_loop-Shape zero dst address w small = Shape-last zero dst address w (omega arith)
put_address_loop-Shape (suc k) dst address (Acc.intro _ smaller) small =
    elim (dec_lt 0 (address / 128)) [
      | yes h ↦ Shape-cons k dst address smaller h (
          put_address_loop-Shape k (dst ++ (inner_byte address ∷ [])) (address / 128)
            (smaller (address / 128) (address_shrinks address h)) (omega arith))
      | no h ↦ Shape-last (suc k) dst address _ h
    ]

pub put_address-Shape : (address : ℕ) → IsU32 address → Shape 4 [] (put_address [] address)
unfolding put_address
put_address-Shape address h = put_address_loop-Shape 4 [] address _ (omega arith)

address_end-evens :
    (evens : List ℕ) (last : ℕ) (rest : List ℕ)
    → All (λ b. (b < 256) × (b % 2 ≡ 0)) evens
    → last < 256
    → last % 2 ≡ 1
    → address_end (evens ++ (last ∷ rest)) ≡ some (length evens)
unfolding address_end
address_end-evens [] last rest h k odd = ground (arith, lowest_bit last)
address_end-evens (b ∷ evens) last rest ((lo, e), h) k odd =
    ground (arith, lowest_bit b, address_end-evens evens last rest h k odd)

drop-evens :
    (evens : List ℕ) (last : ℕ) (rest : List ℕ)
    → drop (length evens + 1) (evens ++ (last ∷ rest)) ≡ rest
drop-evens [] last rest = refl
drop-evens (b ∷ evens) last rest =
    ap (λ n. drop n (b ∷ (evens ++ (last ∷ rest)))) (add-one (suc (length evens)))
    ∙ ap (λ n. drop n (evens ++ (last ∷ rest))) (sym (add-one (length evens)))
    ∙ drop-evens evens last rest

-- The end of an address that `put_address` wrote is found, and what follows it is left.
pub address_end-put_address :
    (address : ℕ) (rest : List ℕ)
    → IsU32 address
    → (n : ℕ) × (address_end (put_address [] address ++ rest) ≡ some n)
      × (drop (n + 1) (put_address [] address ++ rest) ≡ rest)
address_end-put_address address rest h =
    let s : Shape 4 [] (put_address [] address) = put_address-Shape address h in
    let split : put_address [] address ++ rest ≡ s.evens ++ (s.last ∷ rest) =
      ap (λ t. t ++ rest) s.splits ∙ append_assoc s.evens (s.last ∷ []) rest in
    (
      length s.evens,
      rw split (address_end-evens s.evens s.last rest s.evens_even s.last_byte s.last_odd),
      rw split (drop-evens s.evens s.last rest),
    )

IsBytes-evens : (evens : List ℕ) → All (λ b. (b < 256) × (b % 2 ≡ 0)) evens → IsBytes evens
IsBytes-evens [] h = tt
IsBytes-evens (b ∷ evens) (h, hs) = (h.0, IsBytes-evens evens hs)

-- An address of a `u32` has one to five bytes.
pub put_address-IsBytes :
    (address : ℕ)
    → IsU32 address
    → IsBytes (put_address [] address)
      × (1 ≤ length (put_address [] address))
      × (length (put_address [] address) ≤ 5)
put_address-IsBytes address h =
    let s : Shape 4 [] (put_address [] address) = put_address-Shape address h in
    let size : length (s.evens ++ (s.last ∷ [])) ≡ length s.evens + 1 =
      length-append s.evens (s.last ∷ []) in
    rw s.splits (
      All-append IsByte s.evens (s.last ∷ []) (IsBytes-evens s.evens s.evens_even)
          (s.last_byte, tt),
      omega arith,
      omega (arith, s.evens_few),
    )
