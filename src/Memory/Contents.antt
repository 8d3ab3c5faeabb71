-- ===== src/Memory/Contents.antt =====
-- The memory store implements the map of its dictionary, with or without limits.
use gufo_blob.Base.{
  ◌&&◌, List, [], ◌∷◌, Option, ◌≡◌, refl, arith, Text, Bytes, starts_with, contains, text_eq_iff,
}
use gufo_blob.Base.Dict.{lookup, keys, lookup-insert, lookup-remove, contains-keys}
use gufo_blob.Base.Result.{ok}
use gufo_blob.Blob.{Blob, IsLawful, is_some}
use gufo_blob.Memory.{MemoryBlob, put, get, delete, exists, matching, scan}
use gufo_blob.Memory.Invariant.{IsValid, put-IsValid, delete-IsValid}

-- The methods of a memory store, as an implementation of the interface.
abbrev pub memory_blob : Blob
memory_blob = record {
  State = MemoryBlob;
  put = put;
  get = get;
  delete = delete;
  exists = exists;
  scan = scan;
}

abbrev pub view : MemoryBlob → Text → Option Bytes
view b k = lookup k b.items

-- On valid states the put, get, delete and exists of a memory store act as those of a map do; a
-- refused write changes nothing.
pub memory_blob-IsLawful : IsLawful memory_blob IsValid view
unfolding put get delete exists
memory_blob-IsLawful = record {
  put_valid = put-IsValid;
  delete_valid = delete-IsValid;
  get_lem = λ k s w. ground arith;
  exists_lem = λ k s w. ground arith;
  put_ok = λ k j v s w h. ground (arith, lookup-insert k j v s.items);
  put_err = λ k j v e s w h. ground arith;
  delete_missing = λ k s w h. ground arith;
  delete_found = λ k v s w h. ground arith;
  delete_view = λ k j s w. ground (arith, lookup-remove k j s.items w.nodup, text_eq_iff k j);
}

contains-matching :
    (prefix k : Text) (ks : List Text)
    → contains (matching prefix ks) k ≡ (contains ks k && starts_with k prefix)
unfolding matching contains
contains-matching prefix k [] = refl
contains-matching prefix k (j ∷ ks) = ground (arith, contains-matching prefix k ks, text_eq_iff j k)

-- A scan changes nothing and lists a key exactly when the key is stored and starts with the prefix.
pub scan_lem :
    (prefix : Text) (b : MemoryBlob)
    → (ks : List Text) × (scan prefix b ≡ (ok ks, b))
      × ((k : Text) → contains ks k ≡ (is_some (view b k) && starts_with k prefix))
unfolding scan
scan_lem prefix b = (
  matching prefix (keys b.items),
  refl,
  λ k. ground (arith, contains-matching prefix k (keys b.items), contains-keys b.items k),
)
