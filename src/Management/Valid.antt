-- ===== src/Management/Valid.antt =====
-- The global policy stays one that `load` accepts.
use Prim.Native.String.{String}
use bt_daemon.Model.Policy.{ManagementPolicy}
use bt_daemon.Management.{
  Object, Value, ManagementError, apply, apply_setting, is_launch_state, validate_launch_state,
  as_str, as_bool, not_string, not_boolean, str_eq, launch_state_value,
}
use bt_daemon.Base.{
  Bool, true, ◌≡◌, [], ◌∷◌, Result, ok, err, >>=-eq-ok, or_fail, ◌>>=◌, if◌then◌else◌, Bool-cases,
  false, inl, sym, inr,
}

pub record IsValid (p : ManagementPolicy) : Type 0 where
  pub version_known : p.version ≡ 1
  pub state_known : is_launch_state p.launch_state ≡ true

-- Where a setting is decided from a value, the change keeps what `IsValid` says.
abbrev Keeps : ManagementPolicy → Result ManagementError ManagementPolicy → Type 0
Keeps p r = (q : ManagementPolicy) → r ≡ ok q → IsValid p → IsValid q

bool-Keeps :
    (name : String) (value : Value) (p : ManagementPolicy) (change : Bool → ManagementPolicy)
    → ((b : Bool) → IsValid p → IsValid (change b))
    → Keeps p (or_fail (as_bool value) (not_boolean name) >>= λ b. ok (change b))
bool-Keeps name value p change keeps q h v =
    let (b, _, e) = >>=-eq-ok (or_fail (as_bool value) (not_boolean name)) _ h in
    let same : q ≡ change b = cc in rw same (keeps b v)

if-Keeps :
    (b : Bool) (p : ManagementPolicy) (x y : Result ManagementError ManagementPolicy)
    → Keeps p x
    → Keeps p y
    → Keeps p (if b then x else y)
if-Keeps true p x y h k = h
if-Keeps false p x y h k = k

validate_launch_state-ok :
    (value valid : String) → validate_launch_state value ≡ ok valid → is_launch_state valid ≡ true
validate_launch_state-ok value valid h = elim (Bool-cases (is_launch_state value)) [
  | inl k ↦
      let same : ◌≡◌ {A = Result ManagementError String} (ok value) (ok valid) = rw k at h in
      let same_value : value ≡ valid = cc in rw (sym same_value) k
  | inr k ↦
      let failed : ◌≡◌ {A = Result ManagementError String} (err launch_state_value) (ok valid) =
        rw k at h in
      absurd cc
]

apply_setting-Keeps :
    (name : String) (value : Value) (p : ManagementPolicy) → Keeps p (apply_setting name value p)
unfolding apply_setting
apply_setting-Keeps name value p =
    if-Keeps (str_eq name "launch_state") p _ _
      (λ q h v.
        let (state, _, h1) = >>=-eq-ok (or_fail (as_str value) (not_string name)) _ h in
        let (valid, checked, h2) = >>=-eq-ok (validate_launch_state state) _ h1 in
        let same : q ≡ record p { launch_state = valid } = cc in
        rw same (record {
          version_known = v.version_known;
          state_known = validate_launch_state-ok state valid checked;
        }))
      (if-Keeps (str_eq name "preferred_adapter_key") p _ _
        (λ q h v.
          let (key, _, h1) = >>=-eq-ok (or_fail (as_str value) (not_string name)) _ h in
          let same : q ≡ record p { preferred_adapter_key = key } = cc in
          rw same (record { version_known = v.version_known; state_known = v.state_known }))
        (if-Keeps (str_eq name "reconnect_on_resume") p _ _
          (bool-Keeps name value p _
            (λ b v. record { version_known = v.version_known; state_known = v.state_known }))
          (if-Keeps (str_eq name "trust_after_pair") p _ _
            (bool-Keeps name value p _
              (λ b v. record { version_known = v.version_known; state_known = v.state_known }))
            (if-Keeps (str_eq name "show_blocked_devices") p _ _
              (bool-Keeps name value p _
                (λ b v. record { version_known = v.version_known; state_known = v.state_known }))
              (if-Keeps (str_eq name "show_recent_devices") p _ _
                (bool-Keeps name value p _
                  (λ b v. record { version_known = v.version_known; state_known = v.state_known }))
                (λ q h v. absurd cc))))))

-- Settings that are accepted keep the policy one that can be loaded.
pub apply-IsValid :
    (object : Object) (p q : ManagementPolicy) → apply object p ≡ ok q → IsValid p → IsValid q
unfolding apply
apply-IsValid [] p q h v = let same : q ≡ p = cc in rw same v
apply-IsValid ((name, value) ∷ object) p q h v =
    let (r, first, rest) = >>=-eq-ok (apply_setting name value p) _ h in
    apply-IsValid object r q rest (apply_setting-Keeps name value p r first v)
