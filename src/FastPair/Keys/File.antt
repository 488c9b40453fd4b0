-- ===== src/FastPair/Keys/File.antt =====
-- The file always holds the keys in memory.
use bt_daemon.FastPair.Keys.{
  Error, if_valid, AccountKeyStore, encoded, commit, others, remove_key, insert_key, validate_key,
}
use bt_daemon.Base.Equality.{string_eq}
use bt_daemon.Base.Map.{Map, get, insert, remove, contains_key, retain, get-insert, get-remove}
use Prim.Native.String.{String}
use text.Mathlib.Text.{◌==◌ as str_eq}
use text.Mathlib.TextEquality.{eq_iff}
use mathlib.Core.Option
use bt_daemon.Base.{
  Option-cases, append-nil, ℕ, Bool, true, false, ◌≡◌, refl, List, [], ◌∷◌, ◌++◌, none, some,
  Result, ok, err, arith, Bool-cases, inl, inr, if◌then◌else◌, ◌∙◌,
}

pub data Call : Type 0 where
  removes : String → Call
  inserts : String → List ℕ → Call

module _ (to_hex : List ℕ → String) where
  -- A lookup in the file gives the text of the key in memory.
  abbrev pub Agrees : AccountKeyStore → Type 0
  Agrees s =
      (device : String)
      → (Option.bind s.file (λ f. get device f.account_keys))
        ≡ Option.map to_hex (get device s.keys)

  get-others :
      (device d : String) (tail keys : Map String (List ℕ))
      → get d (encoded to_hex (others to_hex device keys ++ tail)) ≡ (
          if str_eq device d
          then get d (encoded to_hex tail)
          else elim (get d keys) [ none ↦ get d (encoded to_hex tail) | some k ↦ some (to_hex k) ])
  unfolding get retain encoded
  get-others device d tail [] = ground arith
  get-others device d tail ((j, key) ∷ keys) =
      ground (arith, eq_iff j device, eq_iff device d, eq_iff j d, get-others device d tail keys)

  commit-Agrees :
      (saves : Bool) (candidate keys : Map String (List ℕ)) (s : AccountKeyStore)
      → ((d : String) → get d (encoded to_hex candidate) ≡ Option.map to_hex (get d keys))
      → Agrees s
      → Agrees (commit to_hex saves candidate keys s).1
  unfolding commit Option.bind get
  commit-Agrees true candidate keys s same v = same
  commit-Agrees false candidate keys s same v = v

  insert-same :
      (device : String) (key : List ℕ) (keys : Map String (List ℕ)) (d : String)
      → get d (encoded to_hex (others to_hex device keys ++ ((device, key) ∷ [])))
        ≡ Option.map to_hex (get d (insert device key keys))
  unfolding get encoded
  insert-same device key keys d =
      rw (get-others device d ((device, key) ∷ []) keys, get-insert device d key keys)
        (elim (Bool-cases (str_eq device d)) [
          | inl e ↦ rw e refl
          | inr e ↦ rw e (elim (Option-cases (get d keys)) [
            | inl f ↦ rw f (rw e refl)
            | inr (k, f) ↦ rw f refl
          ])
        ])

  remove-same :
      (device : String) (keys : Map String (List ℕ)) (d : String)
      → get d (encoded to_hex (others to_hex device keys))
        ≡ Option.map to_hex (get d (remove device keys))
  unfolding get encoded
  remove-same device keys d =
      let found = get-others device d [] keys in
      rw get-remove (
        rw append-nil at found ∙ elim (Bool-cases (str_eq device d)) [
          | inl e ↦ rw e refl
          | inr e ↦
              rw e (elim (Option-cases (get d keys)) [ inl f ↦ rw f refl | inr (k, f) ↦ rw f refl ])
        ])

  remove_key-Agrees :
      (saves : Bool) (device : String) (s : AccountKeyStore)
      → Agrees s
      → Agrees (remove_key to_hex saves device s).1
  unfolding remove_key
  remove_key-Agrees saves device s v = elim (Bool-cases (contains_key device s.keys)) [
    | inl e ↦ rw e (commit-Agrees saves _ _ s (remove-same device s.keys) v)
    | inr e ↦ rw e v
  ]

  checked-Agrees :
      (check : Result Error (Unit {0})) (s : AccountKeyStore)
      (saved : Result Error (Unit {0}) × AccountKeyStore)
      → Agrees s
      → Agrees saved.1
      → Agrees (if_valid check saved s).1
  checked-Agrees (ok u) s saved v w = w
  checked-Agrees (err e) s saved v w = v

  insert_key-Agrees :
      (saves : Bool) (device : String) (key : List ℕ) (s : AccountKeyStore)
      → Agrees s
      → Agrees (insert_key to_hex saves device key s).1
  unfolding insert_key
  insert_key-Agrees saves device key s v = checked-Agrees (validate_key key) s _ v (
      commit-Agrees saves (others to_hex device s.keys ++ ((device, key) ∷ []))
        (insert device key s.keys) s (insert-same device key s.keys) v)

  -- The calls, each with whether its save works.
  abbrev pub run : List (Bool × Call) → AccountKeyStore → AccountKeyStore
  run [] s = s
  run ((saves, removes device) ∷ calls) s = run calls (remove_key to_hex saves device s).1
  run ((saves, inserts device key) ∷ calls) s = run calls (insert_key to_hex saves device key s).1

  -- From a store whose file holds what is in memory, whatever keys are inserted and removed, and
  -- whichever saves fail, the file holds what is in memory.
  pub run-Agrees :
      (calls : List (Bool × Call)) (s : AccountKeyStore) → Agrees s → Agrees (run calls s)
  run-Agrees [] s v = v
  run-Agrees ((saves, removes device) ∷ calls) s v =
      run-Agrees calls _ (remove_key-Agrees saves device s v)
  run-Agrees ((saves, inserts device key) ∷ calls) s v =
      run-Agrees calls _ (insert_key-Agrees saves device key s v)
