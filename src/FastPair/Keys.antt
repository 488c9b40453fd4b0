-- ===== src/FastPair/Keys.antt =====
-- src/fast_pair/keys.rs: the store of account keys. The file is what `write_json` last wrote, and a
-- save that fails leaves it; whether a save works is the argument `saves`. `hex::encode` and
-- `hex::decode` are the arguments `to_hex` and `of_hex`. A key is its bytes.
pub mod File
use bt_daemon.Base.Equality.{string_eq}
use bt_daemon.Base.Map.{Map, get, insert, remove, contains_key, retain}
use Prim.Native.String.{String}
use text.Mathlib.Text.{◌==◌ as str_eq}
use bt_daemon.Base.{
  ℕ, Bool, not, List, [], ◌∷◌, ◌++◌, Option, none, some, Result, ok, err, ◌>>=◌, ◌>>◌, ensure,
  or_fail, if◌then◌else◌, ◌==◌, length,
}

abbrev pub store_version : ℕ
store_version = 1

pub data Error : Type 0 where
  unsupported_version invalid_hex wrong_length invalid_type_byte save_failed : Error

pub record KeyFile : Type 0 where
  pub version : ℕ
  pub account_keys : Map String String

-- The keys in memory, and the file behind `path`.
pub record AccountKeyStore : Type 0 where
  pub keys : Map String (List ℕ)
  pub file : Option KeyFile

pub validate_key : List ℕ → Result Error (Unit {0})
validate_key [] = err invalid_type_byte
validate_key (b ∷ key) = if b == 0x04 then ok tt else err invalid_type_byte

-- `generate`, from the bytes that the random generator gives.
pub generate : List ℕ → List ℕ
generate [] = []
generate (b ∷ random) = 0x04 ∷ random

pub get_key : String → AccountKeyStore → Option (List ℕ)
get_key device s = get device s.keys

-- `validate_key(..)?`, before a change of the store.
abbrev pub if_valid :
    Result Error (Unit {0})
    → Result Error (Unit {0}) × AccountKeyStore
    → AccountKeyStore
    → Result Error (Unit {0}) × AccountKeyStore
if_valid (ok _) saved s = saved
if_valid (err e) saved s = (err e, s)

module _ (to_hex : List ℕ → String) where
  unfoldable pub encoded : Map String (List ℕ) → Map String String
  encoded [] = []
  encoded ((device, key) ∷ keys) = (device, to_hex key) ∷ encoded keys

  -- The file that `persist` writes.
  abbrev pub file_of : Map String (List ℕ) → KeyFile
  file_of keys = record { version = store_version; account_keys = encoded keys }

  -- The candidate is saved before the change is made.
  pub commit :
      Bool
      → Map String (List ℕ)
      → Map String (List ℕ)
      → AccountKeyStore
      → Result Error (Unit {0}) × AccountKeyStore
  commit saves candidate keys s =
      if saves
      then (ok tt, record s { keys = keys; file = some (file_of candidate) })
      else (err save_failed, s)

  abbrev pub others : String → Map String (List ℕ) → Map String (List ℕ)
  others device keys = retain (λ d _. not (str_eq d device)) keys

  pub remove_key : Bool → String → AccountKeyStore → Result Error (Unit {0}) × AccountKeyStore
  remove_key saves device s =
      if contains_key device s.keys
      then commit saves (others device s.keys) (remove device s.keys) s
      else (ok tt, s)

  pub insert_key :
      Bool → String → List ℕ → AccountKeyStore → Result Error (Unit {0}) × AccountKeyStore
  insert_key saves device key s =
      if_valid (validate_key key)
        (commit saves (others device s.keys ++ ((device, key) ∷ [])) (insert device key s.keys) s) s

module _ (of_hex : String → Option (List ℕ)) where
  -- One entry in the loop of `load`.
  pub load_key : String → Result Error (List ℕ)
  load_key text = do
    key ← or_fail (of_hex text) invalid_hex
    ensure (length key == 16) wrong_length
    validate_key key
    ok key

  pub load_keys : Map String String → Map String (List ℕ) → Result Error (Map String (List ℕ))
  load_keys [] keys = ok keys
  load_keys ((device, text) ∷ entries) keys =
      load_key text >>= λ key. load_keys entries (insert device key keys)

  pub load : Option KeyFile → Result Error AccountKeyStore
  load none = ok (record { keys = []; file = none })
  load (some file) = do
    ensure (file.version == store_version) unsupported_version
    keys ← load_keys file.account_keys []
    ok (record { keys = keys; file = some file })
