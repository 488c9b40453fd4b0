-- ===== src/Maestro/Runtime/Subscribe.antt =====
-- The request that subscribes, and the reports that answer it.
use bt_daemon.Framing.{default}
use bt_daemon.Maestro.Frame.RoundTrip.{push_frames-encode_packet}
use bt_daemon.Maestro.Frame.{push_frames}
use bt_daemon.Maestro.Fields.RoundTrip.{encode_fields, fields-encode_fields, IsField}
use bt_daemon.Maestro.Packet.RoundTrip.{IsPacket}
use bt_daemon.Maestro.{IsU32, IsU64}
use bt_daemon.Maestro.Runtime.{
  Reading, announced_channel, decode_reading, id, subscribe_runtime_info, subscription_packet,
  Field, Packet, charging_of, check_reading, find_channel, id_loop, maestro_service, Channel,
  reading_loop, subscribe_runtime_info_id, varint, bit_or, codes, channels, Batteries, bytes,
  runtime_batteries, set_batteries, info_batteries, find_info, no_batteries,
}
use bt_daemon.Base.{
  ℕ, List, ◌≤◌, arith, ◌∷◌, All, [], ◌≡◌, ok, some, ◌*◌, ap, inl, Option, length, ◌+◌, none, refl,
  ◌%◌, ◌++◌, ◌<◌, ◌^◌, All-append, ◌∙◌, sym, append-nil,
}

find_channel-IsU32 :
    (wanted : ℕ) (cs : List (ℕ × ℕ × ℕ)) (c : Channel)
    → All (λ t. IsU32 t.0 × IsU32 (bit_or (t.1 * 64) (t.2 * 1024))) cs
    → find_channel wanted cs ≡ some c
    → (c.id ≡ wanted) × IsU32 c.id × IsU32 c.address
unfolding find_channel
find_channel-IsU32 wanted [] c h e = cc
find_channel-IsU32 wanted ((k, near, far) ∷ rest) c (h, hs) e =
    ground (arith, find_channel-IsU32 wanted rest c hs)

announced_channel-IsU32 :
    (p : Packet) (c : Channel)
    → announced_channel p ≡ some c
    → (c.id ≡ p.channel) × IsU32 c.id × IsU32 c.address
unfolding announced_channel
announced_channel-IsU32 p c e =
    ground (arith, find_channel-IsU32 p.channel channels c (omega arith))

id_loop-IsU32 :
    (hash coefficient : ℕ) (name : List ℕ) → IsU32 hash → IsU32 (id_loop hash coefficient name)
unfolding id_loop
id_loop-IsU32 hash coefficient [] h = h
id_loop-IsU32 hash coefficient (b ∷ name) h =
    id_loop-IsU32 ((hash + coefficient * b % 2 ^ 32) % 2 ^ 32) (coefficient * 65599 % 2 ^ 32) name
      (omega arith)

id-IsU32 : (name : List ℕ) → IsU32 (id name)
unfolding id
id-IsU32 name = id_loop-IsU32 (length name % 2 ^ 32) 65599 name (omega arith)

subscription_packet-IsPacket : (c : Channel) → IsU32 c.id → IsPacket (subscription_packet c)
unfolding subscription_packet maestro_service subscribe_runtime_info_id
subscription_packet-IsPacket c h = record {
  kind_u32 = omega arith;
  channel_u32 = h;
  service_u32 = id-IsU32 (codes "maestro_pw.Maestro");
  method_u32 = id-IsU32 (codes "SubscribeRuntimeInfo");
  payload_fits = omega arith;
  status_u32 = omega arith;
  call_u32 = omega arith;
}

-- On a channel that the buds announced, the request goes out as one frame, which a Maestro
-- decoder reads as the packet that asks for runtime info on that channel.
pub push_frames-subscribe_runtime_info :
    (p : Packet) (c : Channel)
    → announced_channel p ≡ some c
    → (push_frames default (subscribe_runtime_info c)).1 ≡ ok (subscription_packet c) ∷ []
unfolding subscribe_runtime_info
push_frames-subscribe_runtime_info p c e =
    let (same, small, address) = announced_channel-IsU32 p c e in
    ap (λ t. t.1)
      (push_frames-encode_packet default c.address (subscription_packet c) (inl refl) address
        (subscription_packet-IsPacket c small) (unfold subscription_packet in tt)
        (unfold subscription_packet in omega arith))

-- What the buds send of one battery: its level and its state.
abbrev pub reading_fields : ℕ × ℕ → List Field
reading_fields t = (1, varint t.0) ∷ (2, varint t.1) ∷ []

abbrev pub reading_of : ℕ × ℕ → Reading
reading_of t = record { level = t.0; charging = charging_of t.1 }

abbrev pub IsReport : ℕ × ℕ → Type 0
IsReport t = (t.0 ≤ 100) × IsU64 t.1

reading_fields-IsField : (t : ℕ × ℕ) → IsReport t → All IsField (reading_fields t)
reading_fields-IsField t h =
    ((omega arith, omega arith, omega arith), ((omega arith, omega arith, h.1), tt))

decode_reading-reading_fields :
    (t : ℕ × ℕ) → IsReport t → decode_reading (encode_fields (reading_fields t)) ≡ ok (reading_of t)
unfolding decode_reading check_reading reading_loop
decode_reading-reading_fields t h =
    rw (fields-encode_fields (reading_fields t) (reading_fields-IsField t h)) (ground arith)

-- A battery that is not reported has no field.
abbrev pub battery_field : ℕ → Option (ℕ × ℕ) → List Field
battery_field n none = []
battery_field n (some t) = (n, bytes (encode_fields (reading_fields t))) ∷ []

abbrev pub IsReported : Option (ℕ × ℕ) → Type 0
IsReported none = Unit {0}
IsReported (some t) = IsReport t × IsU64 (length (encode_fields (reading_fields t)))

abbrev pub reported_of : Option (ℕ × ℕ) → Option Reading
reported_of none = none
reported_of (some t) = some (reading_of t)

abbrev pub info_fields : Option (ℕ × ℕ) → Option (ℕ × ℕ) → Option (ℕ × ℕ) → List Field
info_fields c l r = battery_field 1 c ++ (battery_field 2 l ++ battery_field 3 r)

battery_field-IsField :
    (n : ℕ) (t : Option (ℕ × ℕ)) → 0 < n → n < 100 → IsReported t → All IsField (battery_field n t)
battery_field-IsField n none lo hi h = tt
battery_field-IsField n (some t) lo hi h = ((lo, omega arith, h.1), tt)

module _ (b : Batteries) (fs : List Field) where
  set_case :
      (t : Option (ℕ × ℕ))
      → IsReported t
      → b.case ≡ none
      → set_batteries b (battery_field 1 t ++ fs)
        ≡ set_batteries (record b { case = reported_of t }) fs
  unfolding set_batteries
  set_case none h e = ground arith
  set_case (some t) h e = rw (decode_reading-reading_fields t h.0)

  set_left :
      (t : Option (ℕ × ℕ))
      → IsReported t
      → b.left ≡ none
      → set_batteries b (battery_field 2 t ++ fs)
        ≡ set_batteries (record b { left = reported_of t }) fs
  unfolding set_batteries
  set_left none h e = ground arith
  set_left (some t) h e = rw (decode_reading-reading_fields t h.0)

  set_right :
      (t : Option (ℕ × ℕ))
      → IsReported t
      → b.right ≡ none
      → set_batteries b (battery_field 3 t ++ fs)
        ≡ set_batteries (record b { right = reported_of t }) fs
  unfolding set_batteries
  set_right none h e = ground arith
  set_right (some t) h e = rw (decode_reading-reading_fields t h.0)

set_batteries-nil : (b : Batteries) → set_batteries b [] ≡ ok b
unfolding set_batteries
set_batteries-nil b = refl

-- The payload of a report: a timestamp, and the battery info.
abbrev pub runtime_info : ℕ → List Field → List ℕ
runtime_info time info = encode_fields ((2, varint time) ∷ (6, bytes (encode_fields info)) ∷ [])

-- A report that gives the batteries in the order case, left, right is read as those batteries, and
-- one that leaves some out as the others: nothing is made up for a battery that is not reported.
pub runtime_batteries-runtime_info :
    (time : ℕ) (c l r : Option (ℕ × ℕ))
    → IsU64 time
    → IsReported c
    → IsReported l
    → IsReported r
    → IsU64 (length (encode_fields (info_fields c l r)))
    → runtime_batteries (runtime_info time (info_fields c l r))
      ≡ ok (some (record { left = reported_of l; right = reported_of r; case = reported_of c }))
unfolding runtime_batteries info_batteries find_info
runtime_batteries-runtime_info time c l r ht hc hl hr fits =
    let outer : All IsField
        ((2, varint time) ∷ (6, bytes (encode_fields (info_fields c l r))) ∷ []) =
      ((omega arith, omega arith, ht), ((omega arith, omega arith, fits), tt)) in
    let inner : All IsField (info_fields c l r) =
      All-append IsField (battery_field 1 c) _
        (battery_field-IsField 1 c (omega arith) (omega arith) hc)
        (All-append IsField (battery_field 2 l) (battery_field 3 r)
          (battery_field-IsField 2 l (omega arith) (omega arith) hl)
          (battery_field-IsField 3 r (omega arith) (omega arith) hr)) in
    let all_set : set_batteries no_batteries (info_fields c l r)
        ≡ ok (record { left = reported_of l; right = reported_of r; case = reported_of c }) =
      set_case no_batteries _ c hc refl
      ∙ set_left _ _ l hl refl
      ∙ ap (set_batteries _) (sym (append-nil (battery_field 3 r)))
      ∙ set_right _ [] r hr refl
      ∙ set_batteries-nil _ in
    rw (fields-encode_fields _ outer, fields-encode_fields _ inner, all_set)
