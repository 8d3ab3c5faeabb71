-- ===== src/Memory/Limits.antt =====
-- Exactly when a write passes the limits.
use gufo_blob.Base.{
  ℕ, ◌+◌, ◌<◌, ◌≡◌, ◌≢◌, ◌↔◌, ◌⊎◌, refl, true, false, [], ◌∷◌, Option, none, some, arith, Text,
  Bytes, length,
}
use gufo_blob.Base.Int.{ℤ, pos, ◌+ℤ◌, ◌-ℤ◌, ◌≤ℤ◌}
use gufo_blob.Base.Dict.{Dict, lookup, insert}
use gufo_blob.Base.Result.{ok, err, blob_error, max_size_exceeded}
use gufo_blob.Memory.{MemoryBlob, has_key, check_limits, objects_exceeded, size_exceeded, put}
use gufo_blob.Memory.Invariant.{IsValid, total, total-insert, length-insert}

-- The limit on objects, read off the dictionary after the write: an overwrite always passes.
abbrev pub FitsObjects : Option ℤ → Dict Bytes → Text → Bytes → Type 0
FitsObjects none d k v = Unit
FitsObjects (some limit) d k v = (has_key d k ≡ true) ⊎ (pos (length (insert k v d)) ≤ℤ limit)

-- The limit on bytes, read off the dictionary after the write.
abbrev pub FitsSize : Option ℤ → Dict Bytes → Text → Bytes → Type 0
FitsSize none d k v = Unit
FitsSize (some limit) d k v = pos (total (insert k v d)) ≤ℤ limit

objects_exceeded_iff :
    (limit : Option ℤ) (b : MemoryBlob) (k : Text) (v : Bytes)
    → limit ≡ b.max_objects
    → (objects_exceeded b (some k) ≡ false) ↔ FitsObjects limit b.items k v
unfolding objects_exceeded
objects_exceeded_iff none b k v e = (λ h. tt, λ h. ground arith)
objects_exceeded_iff (some m) b k v e =
    (λ h. ground (arith, length-insert k v b.items), λ h. ground (arith, length-insert k v b.items))

size_exceeded_iff :
    (limit : Option ℤ) (b : MemoryBlob) (k : Text) (v : Bytes)
    → limit ≡ b.max_size
    → k ≢ []
    → b.size ≡ pos (total b.items)
    → (size_exceeded b (some k) (length v) ≡ false) ↔ FitsSize limit b.items k v
unfolding size_exceeded ◌+ℤ◌ ◌-ℤ◌
size_exceeded_iff none b k v e n c = (λ h. tt, λ h. ground arith)
size_exceeded_iff (some m) b [] v e n c = absurd (n refl)
size_exceeded_iff (some m) b (x ∷ k) v e n c = (
  λ h. ground (arith, total-insert (x ∷ k) v b.items),
  λ h. ground (arith, total-insert (x ∷ k) v b.items),
)

put_ok_iff :
    (b : MemoryBlob) (k : Text) (v : Bytes)
    → ((put k v b).0 ≡ ok tt)
      ↔ ((objects_exceeded b (some k) ≡ false) × (size_exceeded b (some k) (length v) ≡ false))
unfolding put check_limits
put_ok_iff b k v = (λ h. ground arith, λ h. ground arith)

-- A write under a non-empty key of a valid store succeeds exactly when the dictionary after the
-- write fits both limits.
pub put_fits :
    (b : MemoryBlob) (k : Text) (v : Bytes)
    → IsValid b
    → k ≢ []
    → ((put k v b).0 ≡ ok tt)
      ↔ (FitsObjects b.max_objects b.items k v × FitsSize b.max_size b.items k v)
put_fits b k v w n =
    let o = objects_exceeded_iff b.max_objects b k v refl in
    let z = size_exceeded_iff b.max_size b k v refl n w.counted in
    let p = put_ok_iff b k v in (λ h. (o.0 (p.0 h).0, z.0 (p.0 h).1), λ h. p.1 (o.1 h.0, z.1 h.1))

-- The empty key is tested by its truth value, so its stored value is not deducted: overwriting it is
-- refused as soon as all stored bytes and the new ones together exceed the limit, although the old
-- value would go.
pub put_empty_key :
    (b : MemoryBlob) (old v : Bytes) (limit : ℕ)
    → IsValid b
    → lookup [] b.items ≡ some old
    → b.max_size ≡ some (pos limit)
    → limit < total b.items + length v
    → put [] v b ≡ (err (blob_error max_size_exceeded), b)
unfolding put check_limits has_key ◌+ℤ◌ ◌-ℤ◌
put_empty_key b old v limit w found bound over = ground (arith, w.counted)
