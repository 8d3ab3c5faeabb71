-- ===== src/Blob.antt =====
-- src/gufo/blob/sync/base.py: the interface `BlobBase` as a record of the five methods over a state,
-- the dict-like methods that it derives from them, and the contract of its docstrings as a refinement
-- of a partial map from keys to bytes.
pub mod Client
pub mod Open
pub mod Simulation
use gufo_blob.Base.{
  Bool, true, false, ◌&&◌, List, Option, none, some, ◌≡◌, Text, Bytes, starts_with, contains,
  text_eq, if◌then◌else◌,
}
use gufo_blob.Base.Result.{Result, ok, err, Error, key_error, Exec}

pub record Blob : Type 1 where
  pub State : Type 0
  pub put : Text → Bytes → Exec State (Unit {0})
  pub get : Text → Exec State Bytes
  pub delete : Text → Exec State (Unit {0})
  pub exists : Text → Exec State Bool
  pub scan : Text → Exec State (List Text)

module _ (B : Blob) where
  -- `__getitem__`, `__setitem__`, `__delitem__`, `__contains__`
  unfoldable pub get_item : Text → Exec B.State Bytes
  get_item key = B.get key

  unfoldable pub set_item : Text → Bytes → Exec B.State (Unit {0})
  set_item key value = B.put key value

  unfoldable pub delete_item : Text → Exec B.State (Unit {0})
  delete_item key = B.delete key

  unfoldable pub contains_item : Text → Exec B.State Bool
  contains_item item = B.exists item

abbrev pub is_some : Option Bytes → Bool
is_some none = false
is_some (some v) = true

-- What `get` answers for a key that the map sends to `o`.
abbrev pub found : Text → Option Bytes → Result Bytes
found k none = err (key_error k)
found k (some v) = ok v

-- The methods of `B` act on the states that satisfy `valid` as those of the map `view`.
pub record IsLawful (B : Blob) (valid : B.State → Type 0) (view : B.State → Text → Option Bytes)
    : Type 0 where
  pub put_valid : (k : Text) (v : Bytes) (s : B.State) → valid s → valid (B.put k v s).1
  pub delete_valid : (k : Text) (s : B.State) → valid s → valid (B.delete k s).1
  pub get_lem : (k : Text) (s : B.State) → valid s → B.get k s ≡ (found k (view s k), s)
  pub exists_lem : (k : Text) (s : B.State) → valid s → B.exists k s ≡ (ok (is_some (view s k)), s)
  pub put_ok :
      (k j : Text) (v : Bytes) (s : B.State)
      → valid s
      → (B.put k v s).0 ≡ ok tt
      → view (B.put k v s).1 j ≡ (if text_eq k j then some v else view s j)
  pub put_err :
      (k j : Text) (v : Bytes) (e : Error) (s : B.State)
      → valid s
      → (B.put k v s).0 ≡ err e
      → view (B.put k v s).1 j ≡ view s j
  pub delete_missing :
      (k : Text) (s : B.State) → valid s → view s k ≡ none → B.delete k s ≡ (err (key_error k), s)
  pub delete_found :
      (k : Text) (v : Bytes) (s : B.State) → valid s → view s k ≡ some v → (B.delete k s).0 ≡ ok tt
  pub delete_view :
      (k j : Text) (s : B.State)
      → valid s
      → view (B.delete k s).1 j ≡ (if text_eq k j then none else view s j)
