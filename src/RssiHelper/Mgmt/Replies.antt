-- ===== src/RssiHelper/Mgmt/Replies.antt =====
-- Which packets are taken for a reply.
use mathlib.Core.Option
use bt_daemon.RssiHelper.Mgmt.{
  peer, read_from, exchange, after_classic, is_not_connected, not_connected, command_status,
  sent_request, ℤ, Reply, reading, reply, request, receive, word, get_conn_info, command_complete,
  of_i8, bytes_eq, split_target, status_reply, reading_of, unavailable,
}
use bt_daemon.Base.{
  ◌∙◌, ap, sym, take, drop, Option, Bool-cases, inl, inr, ℕ, ◌+◌, ◌<◌, ◌≡◌, ◌≢◌, refl, true, List,
  [], ◌∷◌, ◌++◌, some, none, ok, ◌==◌, length, length-append, arith, All, if◌then◌else◌, false,
}
use bt_daemon.Base.Endian.{le_bytes16, from_le_bytes}

-- The packet by which the kernel answers a request: the strength, and two bytes that are not read.
abbrev pub complete : ℕ → List ℕ → ℕ → ℕ → ℕ → List ℕ
complete index p rssi a b =
    le_bytes16 command_complete
    ++ (le_bytes16 index
        ++ (le_bytes16 (length p + 6)
            ++ (le_bytes16 get_conn_info ++ (0 ∷ (p ++ (rssi ∷ a ∷ b ∷ []))))))

bytes_eq_refl : (p : List ℕ) → bytes_eq p p ≡ true
unfolding bytes_eq
bytes_eq_refl [] = refl
bytes_eq_refl (b ∷ p) = ground (arith, bytes_eq_refl p)

bytes_eq→eq : (x y : List ℕ) → bytes_eq x y ≡ true → x ≡ y
unfolding bytes_eq
bytes_eq→eq [] [] h = refl
bytes_eq→eq [] (b ∷ y) h = cc
bytes_eq→eq (a ∷ x) [] h = cc
bytes_eq→eq (a ∷ x) (b ∷ y) h = ground (arith, bytes_eq→eq x y)

split_target-append :
    (p : List ℕ) (rssi a b : ℕ) → split_target (p ++ (rssi ∷ a ∷ b ∷ [])) ≡ some (p, rssi)
unfolding split_target
split_target-append [] rssi a b = refl
split_target-append (x ∷ []) rssi a b = refl
split_target-append (x ∷ y ∷ []) rssi a b = refl
split_target-append (x ∷ y ∷ z ∷ []) rssi a b = refl
split_target-append (x ∷ y ∷ z ∷ w ∷ p) rssi a b =
    rw (split_target-append (y ∷ z ∷ w ∷ p) rssi a b) refl

some_inj {ℓ} : {A : Type ℓ} {a b : A} → some a ≡ some b → a ≡ b
some_inj h = cc

prepend_tail :
    (x : ℕ) (tail target : List ℕ) (rssi : ℕ) (t : Option (List ℕ × ℕ))
    → Option.map {B = List ℕ × ℕ} (λ s. (x ∷ s.0, s.1)) t ≡ some (target, rssi)
    → (rest : List ℕ) × (t ≡ some (rest, rssi)) × (target ≡ x ∷ rest)
prepend_tail x tail target rssi none h = cc
prepend_tail x tail target rssi (some (rest, s)) h =
    let pair : (x ∷ rest, s) ≡ (target, rssi) = some_inj h in
    let same : s ≡ rssi = ap (λ t. t.1) pair in (rest, rw same refl, sym (ap (λ t. t.0) pair))

split_target-some :
    (tail target : List ℕ) (rssi : ℕ)
    → split_target tail ≡ some (target, rssi)
    → (a b : ℕ) × (tail ≡ target ++ (rssi ∷ a ∷ b ∷ []))
unfolding split_target
split_target-some [] target rssi h = cc
split_target-some (a ∷ []) target rssi h = cc
split_target-some (a ∷ b ∷ []) target rssi h = cc
split_target-some (a ∷ b ∷ c ∷ []) target rssi h =
    let nothing : List ℕ = [] in
    let pair : (nothing, a) ≡ (target, rssi) = some_inj h in
    let none_left : [] ≡ target = ap (λ t. t.0) pair in
    let same : a ≡ rssi = ap (λ t. t.1) pair in (b, c, rw (sym none_left, same) refl)
split_target-some (x ∷ y ∷ z ∷ w ∷ tail) target rssi h =
    let (rest, e, f) = prepend_tail x (y ∷ z ∷ w ∷ tail) target rssi _ h in
    let (a, b, g) = split_target-some (y ∷ z ∷ w ∷ tail) rest rssi e in
    (a, b, ap (◌∷◌ x) g ∙ ap (λ t. t ++ (rssi ∷ a ∷ b ∷ [])) (sym f))

-- The kernel's answer for a `u16` index and a peer of seven bytes is read as its strength, a signed
-- byte, unless that is 127.
pub reply-complete :
    (index : ℕ) (p : List ℕ) (rssi a b : ℕ)
    → index < 65536
    → length p ≡ 7
    → rssi ≢ 127
    → reply (complete index p rssi a b) index p ≡ some (reading (of_i8 rssi))
unfolding reply
reply-complete index p rssi a b h seven valid =
    let size : length (p ++ (rssi ∷ a ∷ b ∷ [])) ≡ 10 =
      omega (arith, length-append p (rssi ∷ a ∷ b ∷ [])) in
    rw (split_target-append p rssi a b, bytes_eq_refl p, size, seven) (ground arith)

-- What the tail of a packet holds that gives a reading.
abbrev pub Holds : List ℕ → List ℕ → ℤ → Type 0
Holds tail p r =
    (rssi a b : ℕ) × (tail ≡ p ++ (rssi ∷ a ∷ b ∷ [])) × (rssi ≢ 127) × (r ≡ of_i8 rssi)

strength :
    (rssi : ℕ) (r : ℤ)
    → (if rssi == 127 then unavailable else reading (of_i8 rssi)) ≡ reading r
    → (rssi ≢ 127) × (r ≡ of_i8 rssi)
strength rssi r h = elim (Bool-cases (rssi == 127)) [
  | inl e ↦ let no : unavailable ≡ reading r = rw e at h in cc
  | inr e ↦ let value : reading (of_i8 rssi) ≡ reading r = rw e at h in (ground arith, cc)
]

reading_of-Holds :
    (tail p : List ℕ) (r : ℤ) (t : Option (List ℕ × ℕ))
    → split_target tail ≡ t
    → reading_of t p ≡ some (reading r)
    → Holds tail p r
unfolding reading_of
reading_of-Holds tail p r none e h = cc
reading_of-Holds tail p r (some (target, rssi)) e h = elim (Bool-cases (bytes_eq target p)) [
  | inl same ↦
      let (a, b, split) = split_target-some tail target rssi e in
      let value : (rssi ≢ 127) × (r ≡ of_i8 rssi) = strength rssi r (some_inj (rw same at h)) in
      (rssi, a, b, rw (bytes_eq→eq target p same) at split, value.0, value.1)
  | inr other ↦ let no : none ≡ some (reading r) = rw other at h in cc
]

-- A reading is only taken from a packet whose header names this adapter, and whose tail names this
-- peer before the strength.
pub reply-reading :
    (packet : List ℕ) (index : ℕ) (p : List ℕ) (r : ℤ)
    → reply packet index p ≡ some (reading r)
    → (from_le_bytes (take 2 (drop 2 packet)) ≡ index) × Holds (drop 9 packet) p r
unfolding reply status_reply
reply-reading [] index p r h = cc
reply-reading (_ ∷ []) index p r h = cc
reply-reading (_ ∷ _ ∷ []) index p r h = cc
reply-reading (_ ∷ _ ∷ _ ∷ []) index p r h = cc
reply-reading (_ ∷ _ ∷ _ ∷ _ ∷ []) index p r h = cc
reply-reading (_ ∷ _ ∷ _ ∷ _ ∷ _ ∷ []) index p r h = cc
reply-reading (_ ∷ _ ∷ _ ∷ _ ∷ _ ∷ _ ∷ []) index p r h = cc
reply-reading (_ ∷ _ ∷ _ ∷ _ ∷ _ ∷ _ ∷ _ ∷ []) index p r h = cc
reply-reading (_ ∷ _ ∷ _ ∷ _ ∷ _ ∷ _ ∷ _ ∷ _ ∷ []) index p r h = cc
reply-reading (e0 ∷ e1 ∷ i0 ∷ i1 ∷ l0 ∷ l1 ∷ c0 ∷ c1 ∷ status ∷ tail) index p r h =
    let found : (word i0 i1 ≡ index) × (reading_of (split_target tail) p ≡ some (reading r)) =
      ground arith in
    (omega arith, reading_of-Holds tail p r (split_target tail) refl found.1)

-- A packet that answers another request.
abbrev pub IsForeign : ℕ → List ℕ → List ℕ → Type 0
IsForeign index p packet = (packet ≢ []) × (reply packet index p ≡ none)

-- Foreign packets are skipped, however many there are, and those behind the reply are left.
pub receive-foreign :
    (index : ℕ) (p : List ℕ) (foreign : List (List ℕ)) (b : ℕ) (bytes : List ℕ)
    (rest : List (List ℕ)) (r : Reply)
    → All (IsForeign index p) foreign
    → reply (b ∷ bytes) index p ≡ some r
    → receive index p (foreign ++ ((b ∷ bytes) ∷ rest)) ≡ ok (r, rest)
unfolding receive
receive-foreign index p [] b bytes rest r h e = rw e refl
receive-foreign index p ([] ∷ foreign) b bytes rest r ((h, n), hs) e = absurd (h refl)
receive-foreign index p ((x ∷ xs) ∷ foreign) b bytes rest r ((h, n), hs) e =
    rw n (receive-foreign index p foreign b bytes rest r hs e)

-- The status packet by which the kernel refuses a request.
abbrev pub refusal : ℕ → ℕ → List ℕ
refusal index status =
    le_bytes16 command_status
    ++ (le_bytes16 index ++ (le_bytes16 3 ++ (le_bytes16 get_conn_info ++ (status ∷ []))))

reply-refusal :
    (index : ℕ) (p : List ℕ)
    → index < 65536
    → reply (refusal index not_connected) index p ≡ some is_not_connected
unfolding reply status_reply
reply-refusal index p h = ground arith

length-request : (index : ℕ) (p : List ℕ) → length p ≡ 7 → length (request index p) ≡ 13
unfolding request
length-request index p h = omega arith

length-peer : (address : List ℕ) (kind : ℕ) → length address ≡ 6 → length (peer address kind) ≡ 7
length-peer [] kind h = absurd (omega arith)
length-peer (a0 ∷ []) kind h = absurd (omega arith)
length-peer (a0 ∷ a1 ∷ []) kind h = absurd (omega arith)
length-peer (a0 ∷ a1 ∷ a2 ∷ []) kind h = absurd (omega arith)
length-peer (a0 ∷ a1 ∷ a2 ∷ a3 ∷ []) kind h = absurd (omega arith)
length-peer (a0 ∷ a1 ∷ a2 ∷ a3 ∷ a4 ∷ []) kind h = absurd (omega arith)
length-peer (a0 ∷ a1 ∷ a2 ∷ a3 ∷ a4 ∷ a5 ∷ []) kind h = refl
length-peer (a0 ∷ a1 ∷ a2 ∷ a3 ∷ a4 ∷ a5 ∷ a6 ∷ rest) kind h = absurd (omega arith)

exchange-foreign :
    (index : ℕ) (p : List ℕ) (foreign : List (List ℕ)) (b : ℕ) (bytes : List ℕ)
    (rest : List (List ℕ)) (r : Reply)
    → length p ≡ 7
    → All (IsForeign index p) foreign
    → reply (b ∷ bytes) index p ≡ some r
    → exchange 13 index p (foreign ++ ((b ∷ bytes) ∷ rest)) ≡ ok (r, rest)
unfolding exchange sent_request
exchange-foreign index p foreign b bytes rest r seven h e =
    rw (length-request index p seven) (receive-foreign index p foreign b bytes rest r h e)

-- For a public address of six bytes without a BR/EDR connection, the valid strength of its LE
-- connection is read, with foreign packets among the answers.
pub read_from-le :
    (index : ℕ) (address : List ℕ) (first second rest : List (List ℕ)) (rssi a b : ℕ)
    → index < 65536
    → length address ≡ 6
    → rssi ≢ 127
    → All (IsForeign index (peer address 0)) first
    → All (IsForeign index (peer address 1)) second
    → read_from
        (13, 13)
        index
        address
        false
        (first
          ++ (refusal index not_connected
              ∷ (second ++ (complete index (peer address 1) rssi a b ∷ rest))))
      ≡ ok (reading (of_i8 rssi), false)
unfolding read_from after_classic
read_from-le index address first second rest rssi a b small six valid f s =
    let seven : length (peer address 1) ≡ 7 = length-peer address 1 six in
    let none_yet : reply (refusal index not_connected) index (peer address 0)
        ≡ some is_not_connected =
      reply-refusal index (peer address 0) small in
    let found : reply (complete index (peer address 1) rssi a b) index (peer address 1)
        ≡ some (reading (of_i8 rssi)) =
      reply-complete index (peer address 1) rssi a b small seven valid in
    rw
      (
        exchange-foreign index (peer address 0) first _ _ _ is_not_connected
            (length-peer address 0 six) f none_yet,
        exchange-foreign index (peer address 1) second _ _ rest (reading (of_i8 rssi)) seven s
            found,
      )
      refl
