-- ===== src/Management/Store/Device.antt =====
-- The overrides of one device: what a change makes of them, and that a failed one makes nothing.
use Prim.Native.String.{String}
use bt_daemon.Base.Equality.{string_eq}
use bt_daemon.Base.Map.{
  Map, get, remove, get-insert_same, get-insert_other, get-remove_same, get-remove_other,
}
use bt_daemon.Model.Policy.{DevicePolicyOverrides, DevicePolicy}
use bt_daemon.Management.{
  Object, ManagementError, apply_overrides, effective, no_overrides, overrides_any, unwrap_or,
}
use bt_daemon.Management.Store.{
  ManagementStore, device_policy, update_device_policy, persist_device_change, insert_some,
  unless_default, with_devices, write_json, persist_overrides, then_policy,
}
use bt_daemon.Base.{
  Bool, false, ◌≡◌, ◌≢◌, refl, Option, none, some, Result, ok, err, arith, is_some, Bool-cases, inl,
  ◌∙◌, ◌⊎◌, inr, sym,
}

-- What is known of each device, whatever the order of the entries.
abbrev pub overrides_of : String → ManagementStore → DevicePolicyOverrides
overrides_of key s = unwrap_or (get key s.device_policies.devices) no_overrides

not_some {ℓ} : {A : Type ℓ} (o : Option A) → is_some o ≡ false → o ≡ none
not_some none h = refl
not_some (some a) h = absurd cc

-- Overrides without a value are the default.
overrides_any-no_overrides :
    (d : DevicePolicyOverrides) → overrides_any d ≡ false → d ≡ no_overrides
overrides_any-no_overrides d h =
    let a = not_some d.reconnect_on_resume (ground arith) in
    let b = not_some d.trust_after_pair (ground arith) in
    let c = not_some d.power_on_connect (ground arith) in
    let e = not_some d.wait_for_services (ground arith) in
    let f = not_some d.fast_pair_controls_enabled (ground arith) in
    let g = not_some d.audio_route_on_connect (ground arith) in
    let i = not_some d.preferred_audio_profile_key (ground arith) in cc

unwrap_or-unless_default :
    (d : DevicePolicyOverrides) → unwrap_or (unless_default d) no_overrides ≡ d
unwrap_or-unless_default d = elim (Bool-cases (overrides_any d)) [
  | inl h ↦ rw h refl
  | inr h ↦ rw h (sym (overrides_any-no_overrides d h))
]

-- An entry that was taken out and replaced, or not.
get-insert_some :
    (key : String) (o : Option DevicePolicyOverrides) (m : Map String DevicePolicyOverrides)
    → get key (insert_some key o (remove key m)) ≡ o
get-insert_some key none m = get-remove_same key m
get-insert_some key (some d) m = get-insert_same key d (remove key m)

get-insert_some_other :
    (key j : String) (o : Option DevicePolicyOverrides) (m : Map String DevicePolicyOverrides)
    → key ≢ j
    → get j (insert_some key o (remove key m)) ≡ get j m
get-insert_some_other key j none m h = get-remove_other key j m h
get-insert_some_other key j (some d) m h =
    get-insert_other key j d (remove key m) h ∙ get-remove_other key j m h

same_or_not : (x y : String) → (x ≡ y) ⊎ (x ≢ y)
same_or_not x y = elim (Bool-cases (string_eq.beq x y)) [
  | inl h ↦ inl ((string_eq.beq_iff x y).0 h)
  | inr h ↦ inr (λ same. let h2 = (string_eq.beq_iff x y).1 same in cc)
]

-- Rolled back, every device is as it was.
pub rolled_back :
    (key j : String) (o : Option DevicePolicyOverrides) (m : Map String DevicePolicyOverrides)
    → get j (insert_some key (get key m) (remove key (insert_some key o (remove key m)))) ≡ get j m
rolled_back key j o m = elim (same_or_not key j) [
  | inl same ↦ rw (sym same) (get-insert_some key (get key m) (insert_some key o (remove key m)))
  | inr other ↦
      get-insert_some_other key j (get key m) (insert_some key o (remove key m)) other
      ∙ get-insert_some_other key j o m other
]

-- A change of one entry that was saved.
pub record IsSaved (key : String) (o : Option DevicePolicyOverrides) (s t : ManagementStore)
    : Type 0 where
  pub stored : overrides_of key t ≡ unwrap_or o no_overrides
  pub others : (j : String) → key ≢ j → overrides_of j t ≡ overrides_of j s
  pub policy_kept : t.policy ≡ s.policy

-- A change that was not saved: the entries may stand in another order, and nothing else differs.
pub record IsRefused (s t : ManagementStore) : Type 0 where
  pub overrides_kept : (j : String) → overrides_of j t ≡ overrides_of j s
  pub policy_kept : t.policy ≡ s.policy
  pub runtime_kept : t.runtime ≡ s.runtime
  pub files_kept : t.files ≡ s.files

IsRefused-refl : (s : ManagementStore) → IsRefused s s
IsRefused-refl s = record {
  overrides_kept = λ j. refl;
  policy_kept = refl;
  runtime_kept = refl;
  files_kept = refl;
}

abbrev Persisted :
    String
    → Option DevicePolicyOverrides
    → ManagementStore
    → Result ManagementError (Unit {0}) × ManagementStore
    → Type 0
Persisted key o s (ok saved, t) = IsSaved key o s t
Persisted key o s (err e, t) = IsRefused s t

pub persist_device_change-Persisted :
    (saves : Bool) (key : String) (o : Option DevicePolicyOverrides) (s : ManagementStore)
    → Persisted key o s (persist_device_change saves key o s)
unfolding persist_device_change
persist_device_change-Persisted saves key o s =
    let devices = s.device_policies.devices in
    let changed = with_devices (insert_some key o (remove key devices)) s in
    elim (Bool-cases
      (write_json s.device_policy_path saves changed.device_policies
        s.files.device_policy_file).0) [
          | inl h ↦ rw h (record {
            stored = rw (get-insert_some key o devices) refl;
            others = λ j other. rw (get-insert_some_other key j o devices other) refl;
            policy_kept = refl;
          })
          | inr h ↦ rw h (record {
            overrides_kept = λ j. rw (rolled_back key j o devices) refl;
            policy_kept = refl;
            runtime_kept = refl;
            files_kept = refl;
          })
        ]

abbrev Updated :
    String
    → DevicePolicyOverrides
    → ManagementStore
    → Result ManagementError DevicePolicy × ManagementStore
    → Type 0
Updated key d s (ok p, t) = (p ≡ effective d s.policy) × IsSaved key (some d) s t
Updated key d s (err e, t) = IsRefused s t × Unit {0}

then_policy-Updated :
    (key : String) (d : DevicePolicyOverrides) (s : ManagementStore)
    (answer : Result ManagementError (Unit {0}) × ManagementStore)
    → Persisted key (unless_default d) s answer
    → Updated key d s (then_policy key answer)
unfolding device_policy
then_policy-Updated key d s (ok saved, t) h =
    let stored : overrides_of key t ≡ d = h.stored ∙ unwrap_or-unless_default d in
    (
      rw (stored, h.policy_kept) refl,
      record { stored = stored; others = h.others; policy_kept = h.policy_kept },
    )
then_policy-Updated key d s (err e, t) h = (h, tt)

Updated-ok :
    (key : String) (d : DevicePolicyOverrides) (s : ManagementStore) (p : DevicePolicy)
    (answer : Result ManagementError DevicePolicy × ManagementStore)
    → Updated key d s answer
    → answer.0 ≡ ok p
    → (p ≡ effective d s.policy) × IsSaved key (some d) s answer.1
Updated-ok key d s p (ok q, t) h e = let same : p ≡ q = cc in (same ∙ h.0, h.1)
Updated-ok key d s p (err e2, t) h e = absurd cc

Updated-err :
    (key : String) (d : DevicePolicyOverrides) (s : ManagementStore) (e : ManagementError)
    (answer : Result ManagementError DevicePolicy × ManagementStore)
    → Updated key d s answer
    → answer.0 ≡ err e
    → IsRefused s answer.1
Updated-err key d s e (ok q, t) h same = absurd cc
Updated-err key d s e (err e2, t) h same = h.0

persist_overrides-err :
    (saves : Bool) (key : String) (r : Result ManagementError DevicePolicyOverrides)
    (s : ManagementStore) (e : ManagementError)
    → (persist_overrides saves key r s).0 ≡ err e
    → IsRefused s (persist_overrides saves key r s).1
persist_overrides-err saves key (err e2) s e h = IsRefused-refl s
persist_overrides-err saves key (ok d) s e h =
    Updated-err key d s e (then_policy key (persist_device_change saves key (unless_default d) s))
      (then_policy-Updated key d s (persist_device_change saves key (unless_default d) s)
        (persist_device_change-Persisted saves key (unless_default d) s))
      h

-- A change of one device's policy that is answered with a policy: the settings of the request
-- applied to that device's overrides are what is stored and what the answer is made from, and
-- no other device's overrides differ.
pub update_device_policy-IsSaved :
    (saves : Bool) (key : String) (object : Object) (s : ManagementStore)
    (d : DevicePolicyOverrides) (p : DevicePolicy)
    → apply_overrides object (overrides_of key s) ≡ ok d
    → (update_device_policy saves key (some object) s).0 ≡ ok p
    → (p ≡ effective d s.policy)
      × IsSaved key (some d) s (update_device_policy saves key (some object) s).1
unfolding update_device_policy
update_device_policy-IsSaved saves key object s d p applied answered =
    let answer = then_policy key (persist_device_change saves key (unless_default d) s) in
    let reached : answer.0 ≡ ok p = rw applied at answered in
    rw applied (
      Updated-ok key d s p answer
        (then_policy-Updated key d s (persist_device_change saves key (unless_default d) s)
          (persist_device_change-Persisted saves key (unless_default d) s))
        reached)

-- A change that is refused, because the request is no object, names an unknown setting or a bad
-- value, or cannot be saved, leaves every device's overrides, the global policy and the files.
pub update_device_policy-IsRefused :
    (saves : Bool) (key : String) (values : Option Object) (s : ManagementStore)
    (e : ManagementError)
    → (update_device_policy saves key values s).0 ≡ err e
    → IsRefused s (update_device_policy saves key values s).1
unfolding update_device_policy
update_device_policy-IsRefused saves key values s e refused =
    persist_overrides-err saves key _ s e refused
