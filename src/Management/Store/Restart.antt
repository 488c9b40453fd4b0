-- ===== src/Management/Store/Restart.antt =====
-- What the files hold, over any run of requests and whichever saves fail.
use Prim.Native.String.{String}
use bt_daemon.Base.Equality.{string_eq}
use bt_daemon.Base.Map.{Map, get, contains_key, remove}
use bt_daemon.Model.Policy.{
  DevicePolicyFile, observed, default_policy, default_device_policies, default_runtime,
}
use bt_daemon.Management.{
  Object, no_overrides, unwrap_or, ManagementPolicy, DevicePolicyOverrides, ManagementError,
  not_object, apply, is_launch_state,
}
use bt_daemon.Management.Valid.{IsValid, apply-IsValid}
use bt_daemon.Management.Store.{
  ManagementStore, update, update_device_policy, forget_device_policy, remember_snapshot, load,
  persist_device_change, device_policy, persist_overrides, then_policy, persist_policy,
  unless_default, with_devices, write_json, insert_some,
}
use bt_daemon.Management.Store.Device.{overrides_of, rolled_back}
use bt_daemon.Base.{
  refl, Bool, true, ◌≡◌, List, [], ◌∷◌, Option, Bool-cases, Result, or_fail, inl, ok, ◌∙◌, ap, err,
  none, ◌>>=◌, false, inr, sym, some, ◌==◌, if◌then◌else◌,
}

-- The file of the devices, or what is loaded where there is none.
abbrev pub saved_devices : ManagementStore → DevicePolicyFile
saved_devices s = unwrap_or s.files.device_policy_file default_device_policies

-- What a new start would read is what is in memory.
pub record IsDurable (s : ManagementStore) : Type 0 where
  pub policy_saved : unwrap_or s.files.policy_file default_policy ≡ s.policy
  pub policy_valid : IsValid s.policy
  pub runtime_saved : unwrap_or s.files.runtime_file default_runtime ≡ s.runtime
  pub runtime_version : s.runtime.version ≡ 1
  pub devices_saved :
      (j : String) → unwrap_or (get j (saved_devices s).devices) no_overrides ≡ overrides_of j s
  pub devices_version : (saved_devices s).version ≡ 1
  pub memory_version : s.device_policies.version ≡ 1
  pub paths : (s.policy_path ≡ true) × (s.runtime_path ≡ true) × (s.device_policy_path ≡ true)

-- The requests, with the outcome of the save. A snapshot is remembered as `observed` makes it.
pub data Call : Type 0 where
  updates : Bool → Option Object → Call
  updates_device : Bool → String → Option Object → Call
  forgets : Bool → String → Call
  remembers : Bool → Map String Bool → List String → Call

abbrev pub apply_call : Call → ManagementStore → ManagementStore
apply_call (updates saves values) s = (update saves values s).1
apply_call (updates_device saves key values) s = (update_device_policy saves key values s).1
apply_call (forgets saves key) s = forget_device_policy saves key s
apply_call (remembers saves power keys) s = remember_snapshot saves (observed power keys) s

abbrev pub run : List Call → ManagementStore → ManagementStore
run [] s = s
run (c ∷ calls) s = run calls (apply_call c s)

written {ℓ} :
    {T : Type ℓ} (path saves : Bool) (value : T) (file : Option T)
    → path ≡ true
    → write_json path saves value file ≡ (saves, if saves then some value else file)
written false saves value file h = absurd cc
written true true value file h = refl
written true false value file h = refl

persist_policy-IsDurable :
    (saves : Bool) (r : Result ManagementError ManagementPolicy) (s : ManagementStore)
    → IsDurable s
    → ((q : ManagementPolicy) → r ≡ ok q → IsValid q)
    → IsDurable (persist_policy saves r s).1
persist_policy-IsDurable saves (err e) s h v = h
persist_policy-IsDurable true (ok q) s h v =
    rw (written s.policy_path true q s.files.policy_file h.paths.0) (record {
      policy_saved = refl;
      policy_valid = v q refl;
      runtime_saved = h.runtime_saved;
      runtime_version = h.runtime_version;
      devices_saved = h.devices_saved;
      devices_version = h.devices_version;
      memory_version = h.memory_version;
      paths = h.paths;
    })
persist_policy-IsDurable false (ok q) s h v =
    rw (written s.policy_path false q s.files.policy_file h.paths.0) h

persist_device_change-IsDurable :
    (saves : Bool) (key : String) (o : Option DevicePolicyOverrides) (s : ManagementStore)
    → IsDurable s
    → IsDurable (persist_device_change saves key o s).1
unfolding persist_device_change
persist_device_change-IsDurable true key o s h =
    let changed = with_devices (insert_some key o (remove key s.device_policies.devices)) s in
    rw
      (written s.device_policy_path true changed.device_policies s.files.device_policy_file
        h.paths.2)
      (record {
        policy_saved = h.policy_saved;
        policy_valid = h.policy_valid;
        runtime_saved = h.runtime_saved;
        runtime_version = h.runtime_version;
        devices_saved = λ j. refl;
        devices_version = h.memory_version;
        memory_version = h.memory_version;
        paths = h.paths;
      })
persist_device_change-IsDurable false key o s h =
    let changed = with_devices (insert_some key o (remove key s.device_policies.devices)) s in
    rw
      (written s.device_policy_path false changed.device_policies s.files.device_policy_file
        h.paths.2)
      (record {
        policy_saved = h.policy_saved;
        policy_valid = h.policy_valid;
        runtime_saved = h.runtime_saved;
        runtime_version = h.runtime_version;
        devices_saved = λ j.
            h.devices_saved j
            ∙ ap (λ d. unwrap_or d no_overrides)
                (sym (rolled_back key j o s.device_policies.devices));
        devices_version = h.devices_version;
        memory_version = h.memory_version;
        paths = h.paths;
      })

then_policy-store :
    (key : String) (answer : Result ManagementError (Unit {0}) × ManagementStore)
    → (then_policy key answer).1 ≡ answer.1
then_policy-store key (ok saved, s) = refl
then_policy-store key (err e, s) = refl

persist_overrides-IsDurable :
    (saves : Bool) (key : String) (r : Result ManagementError DevicePolicyOverrides)
    (s : ManagementStore)
    → IsDurable s
    → IsDurable (persist_overrides saves key r s).1
persist_overrides-IsDurable saves key (err e) s h = h
persist_overrides-IsDurable saves key (ok d) s h =
    rw (then_policy-store key (persist_device_change saves key (unless_default d) s))
      (persist_device_change-IsDurable saves key (unless_default d) s h)

applied-IsValid :
    (values : Option Object) (s : ManagementStore) (q : ManagementPolicy)
    → IsValid s.policy
    → (or_fail values not_object >>= λ object. apply object s.policy) ≡ ok q
    → IsValid q
applied-IsValid none s q v h = absurd cc
applied-IsValid (some object) s q v h = apply-IsValid object s.policy q h v

apply_call-IsDurable : (c : Call) (s : ManagementStore) → IsDurable s → IsDurable (apply_call c s)
unfolding update update_device_policy forget_device_policy remember_snapshot
apply_call-IsDurable (updates saves values) s h =
    persist_policy-IsDurable saves _ s h (λ q. applied-IsValid values s q h.policy_valid)
apply_call-IsDurable (updates_device saves key values) s h =
    persist_overrides-IsDurable saves key _ s h
apply_call-IsDurable (forgets saves key) s h =
    elim (Bool-cases (contains_key key s.device_policies.devices)) [
      | inl known ↦ rw known (persist_device_change-IsDurable saves key none s h)
      | inr unknown ↦ rw unknown h
    ]
apply_call-IsDurable (remembers true power keys) s h =
    rw (written s.runtime_path true (observed power keys) s.files.runtime_file h.paths.1) (record {
      policy_saved = h.policy_saved;
      policy_valid = h.policy_valid;
      runtime_saved = refl;
      runtime_version = refl;
      devices_saved = h.devices_saved;
      devices_version = h.devices_version;
      memory_version = h.memory_version;
      paths = h.paths;
    })
apply_call-IsDurable (remembers false power keys) s h =
    rw (written s.runtime_path false (observed power keys) s.files.runtime_file h.paths.1) h

-- Whatever is asked of a store, in whatever order and whichever saves fail: when its files were in
-- step with it, they still are, and what they hold can be loaded.
pub run-IsDurable :
    (calls : List Call) (s : ManagementStore) → IsDurable s → IsDurable (run calls s)
run-IsDurable [] s h = h
run-IsDurable (c ∷ calls) s h = run-IsDurable calls (apply_call c s) (apply_call-IsDurable c s h)

-- A new start on the files of a store that is in step with them.
abbrev pub restart : ManagementStore → Result ManagementError ManagementStore
restart s =
    load true true true (ok s.files.policy_file) (ok s.files.runtime_file)
      (ok s.files.device_policy_file)

abbrev restarted : ManagementStore → ManagementStore
restarted s = record {
  policy_path = true;
  runtime_path = true;
  device_policy_path = true;
  policy = unwrap_or s.files.policy_file default_policy;
  runtime = unwrap_or s.files.runtime_file default_runtime;
  device_policies = saved_devices s;
  files = s.files;
}

-- When its files are in step with a store, a new start on them succeeds, with the same global policy
-- and remembered state and the same policy of every device.
pub restart-IsDurable :
    (s : ManagementStore)
    → IsDurable s
    → (t : ManagementStore) × (restart s ≡ ok t)
      × (t.policy ≡ s.policy)
      × (t.runtime ≡ s.runtime)
      × ((j : String) → device_policy j t ≡ device_policy j s)
unfolding load device_policy
restart-IsDurable s h =
    let policy = unwrap_or s.files.policy_file default_policy in
    let runtime = unwrap_or s.files.runtime_file default_runtime in
    let version : (policy.version == 1) ≡ true =
      rw (h.policy_saved, h.policy_valid.version_known) refl in
    let known : is_launch_state policy.launch_state ≡ true =
      rw (h.policy_saved) h.policy_valid.state_known in
    let runtime_known : (runtime.version == 1) ≡ true =
      rw (h.runtime_saved, h.runtime_version) refl in
    let devices_known : ((saved_devices s).version == 1) ≡ true = rw (h.devices_version) refl in
    (
      restarted s,
      rw (version, known, runtime_known, devices_known) refl,
      h.policy_saved,
      h.runtime_saved,
      λ j.
          let device = h.devices_saved j in let global = h.policy_saved in rw (device, global) refl,
    )

-- The last two together: after any run of requests from a store that is in step with its files,
-- a new start is answered like the store that was left.
pub restart-run :
    (calls : List Call) (s : ManagementStore)
    → IsDurable s
    → (t : ManagementStore) × (restart (run calls s) ≡ ok t)
      × (t.policy ≡ (run calls s).policy)
      × (t.runtime ≡ (run calls s).runtime)
      × ((j : String) → device_policy j t ≡ device_policy j (run calls s))
restart-run calls s h = restart-IsDurable (run calls s) (run-IsDurable calls s h)
