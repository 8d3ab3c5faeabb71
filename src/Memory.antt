-- ===== src/Memory.antt =====
-- src/gufo/blob/sync/memory.py: the in-memory store with optional limits. Every method runs under
-- `_data_lock`, so a method is one step of the object; aio/memory.py holds an asyncio lock in the
-- same places and has the same bodies, but for `scan`.
pub mod Limits
pub mod Url
pub mod Invariant
pub mod Contents
mod Tests
use gufo_blob.Base.{
  ℕ, ◌+◌, Bool, true, false, ◌&&◌, not, List, [], ◌∷◌, Option, none, some, ltb, if◌then◌else◌, Text,
  Bytes, length, starts_with, contains,
}
use gufo_blob.Base.Int.{ℤ, pos, ◌+ℤ◌, ◌-ℤ◌, ltb_ℤ}
use gufo_blob.Base.Dict.{Dict, lookup, insert, remove, keys}
use gufo_blob.Base.Result.{
  Result, ok, err, Exec, blob_error, key_error, max_objects_exceeded, max_size_exceeded,
}

pub record MemoryBlob : Type 0 where
  pub items : Dict Bytes
  pub max_objects : Option ℤ
  pub max_size : Option ℤ
  pub size : ℤ

-- `__init__`
abbrev pub init : Option ℤ → Option ℤ → MemoryBlob
init max_objects max_size = record {
  items = [];
  max_objects = max_objects;
  max_size = max_size;
  size = pos 0;
}

unfoldable pub has_key : Dict Bytes → Text → Bool
has_key d k = elim (lookup k d) [ none ↦ false | some _ ↦ true ]

-- `new_key is None or new_key not in self._data`
unfoldable pub is_new : MemoryBlob → Option Text → Bool
unfolding has_key
is_new b none = true
is_new b (some k) = not (has_key b.items k)

unfoldable pub stored_length : Option Bytes → ℕ
stored_length none = 0
stored_length (some v) = length v

-- `len(self._data.get(new_key, b"")) if new_key else 0`: no key and the empty key are both false.
unfoldable pub old_size : MemoryBlob → Option Text → ℕ
unfolding stored_length
old_size b none = 0
old_size b (some []) = 0
old_size b (some (c ∷ k)) = stored_length (lookup (c ∷ k) b.items)

unfoldable pub objects_exceeded : MemoryBlob → Option Text → Bool
unfolding is_new
objects_exceeded b new_key = elim b.max_objects [
  | none ↦ false
  | some limit ↦ is_new b new_key && ltb_ℤ limit (pos (length b.items + 1))
]

unfoldable pub size_exceeded : MemoryBlob → Option Text → ℕ → Bool
unfolding old_size
size_exceeded b new_key new_size = elim b.max_size [
  | none ↦ false
  | some limit ↦ ltb_ℤ limit (b.size -ℤ pos (old_size b new_key) +ℤ pos new_size)
]

unfoldable pub check_limits : MemoryBlob → Option Text → ℕ → Result (Unit {0})
unfolding objects_exceeded size_exceeded
check_limits b new_key new_size =
    if objects_exceeded b new_key
    then err (blob_error max_objects_exceeded)
    else if size_exceeded b new_key new_size
    then err (blob_error max_size_exceeded)
    else ok tt

-- `_size` after the write
unfoldable pub size_after : MemoryBlob → Option Bytes → ℕ → ℤ
size_after b none new_size = b.size +ℤ pos new_size
size_after b (some old) new_size = b.size +ℤ (pos new_size -ℤ pos (length old))

unfoldable pub put : Text → Bytes → Exec MemoryBlob (Unit {0})
unfolding check_limits size_after
put key value b = elim (check_limits b (some key) (length value)) [
  | err e ↦ (err e, b)
  | ok _ ↦ (
    ok tt,
    record b {
      size = size_after b (lookup key b.items) (length value);
      items = insert key value b.items;
    },
  )
]

unfoldable pub get : Text → Exec MemoryBlob Bytes
get key b = elim (lookup key b.items) [ none ↦ (err (key_error key), b) | some v ↦ (ok v, b) ]

unfoldable pub delete : Text → Exec MemoryBlob (Unit {0})
delete key b = elim (lookup key b.items) [
  | none ↦ (err (key_error key), b)
  | some v ↦ (ok tt, record b { size = b.size -ℤ pos (length v); items = remove key b.items })
]

unfoldable pub exists : Text → Exec MemoryBlob Bool
unfolding has_key
exists key b = (ok (has_key b.items key), b)

unfoldable pub matching : Text → List Text → List Text
matching prefix [] = []
matching prefix (k ∷ ks) =
    let rest = matching prefix ks in if starts_with k prefix then k ∷ rest else rest

-- The list is made under the lock, and then iterated.
unfoldable pub scan : Text → Exec MemoryBlob (List Text)
unfolding matching
scan prefix b = (ok (matching prefix (keys b.items)), b)
