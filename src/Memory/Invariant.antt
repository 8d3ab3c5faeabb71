-- ===== src/Memory/Invariant.antt =====
-- What every state of a memory store satisfies: no key twice, a byte count that is exact, and both
-- limits respected.
use gufo_blob.Base.{
  ℕ, ◌+◌, ◌≤◌, ◌<◌, ◌≡◌, refl, true, List, [], ◌∷◌, Option, none, some, arith, Text, Bytes, length,
  Option-cases, inl, inr, if◌then◌else◌,
}
use gufo_blob.Base.Int.{ℤ, pos, ◌+ℤ◌, ◌-ℤ◌, ◌≤ℤ◌}
use gufo_blob.Base.Dict.{
  Dict, lookup, insert, remove, NodupKeys, insert-NodupKeys, remove-NodupKeys,
}
use gufo_blob.Base.Result.{ok, Result-cases}
use gufo_blob.Memory.{
  MemoryBlob, init, has_key, stored_length, check_limits, size_after, put, get, delete, exists,
  scan,
}

-- the bytes of all values
unfoldable pub total : Dict Bytes → ℕ
total [] = 0
total ((_, v) ∷ d) = length v + total d

pub total-insert :
    (k : Text) (v : Bytes) (d : Dict Bytes)
    → total (insert k v d) + stored_length (lookup k d) ≡ total d + length v
unfolding total insert lookup stored_length
total-insert k v [] = omega arith
total-insert k v ((j, w) ∷ d) = ground (arith, total-insert k v d)

pub total-remove :
    (k : Text) (d : Dict Bytes) → total (remove k d) + stored_length (lookup k d) ≡ total d
unfolding total remove lookup stored_length
total-remove k [] = omega arith
total-remove k ((j, w) ∷ d) = ground (arith, total-remove k d)

pub length-insert :
    (k : Text) (v : Bytes) (d : Dict Bytes)
    → length (insert k v d) ≡ (if has_key d k then length d else length d + 1)
unfolding insert lookup has_key
length-insert k v [] = omega arith
length-insert k v ((j, w) ∷ d) = ground (arith, length-insert k v d)

pub length-remove-le : (k : Text) (d : Dict Bytes) → length (remove k d) ≤ length d
unfolding remove
length-remove-le k [] = omega arith
length-remove-le k ((j, w) ∷ d) = ground (arith, length-remove-le k d)

-- A limit holds unless the store is empty: a negative one admits no object at all.
abbrev pub Within : Option ℤ → ℕ → ℤ → Type 0
Within none n m = Unit
Within (some limit) n m = 0 < n → m ≤ℤ limit

pub record IsValid (b : MemoryBlob) : Type 0 where
  pub nodup : NodupKeys b.items
  pub counted : b.size ≡ pos (total b.items)
  pub few : Within b.max_objects (length b.items) (pos (length b.items))
  pub small : Within b.max_size (length b.items) (pos (total b.items))

pub init-IsValid : (max_objects max_size : Option ℤ) → IsValid (init max_objects max_size)
unfolding total
init-IsValid none none = record { nodup = tt; counted = refl; few = tt; small = tt }
init-IsValid none (some m) = record {
  nodup = tt;
  counted = refl;
  few = tt;
  small = λ h. absurd (omega arith);
}
init-IsValid (some n) none = record {
  nodup = tt;
  counted = refl;
  few = λ h. absurd (omega arith);
  small = tt;
}
init-IsValid (some n) (some m) = record {
  nodup = tt;
  counted = refl;
  few = λ h. absurd (omega arith);
  small = λ h. absurd (omega arith);
}

-- `_size` follows the bytes that an insertion adds.
size_after-insert :
    (b : MemoryBlob) (k : Text) (v : Bytes)
    → b.size ≡ pos (total b.items)
    → size_after b (lookup k b.items) (length v) ≡ pos (total (insert k v b.items))
unfolding size_after stored_length ◌+ℤ◌ ◌-ℤ◌
size_after-insert b k v h = ground (arith, total-insert k v b.items)

has_key-length : (d : Dict Bytes) (k : Text) → has_key d k ≡ true → 0 < length d
unfolding has_key lookup
has_key-length [] k h = absurd (ground arith)
has_key-length (x ∷ d) k h = omega arith

few-insert :
    (limit : Option ℤ) (b : MemoryBlob) (k : Text) (v : Bytes)
    → limit ≡ b.max_objects
    → Within limit (length b.items) (pos (length b.items))
    → check_limits b (some k) (length v) ≡ ok tt
    → Within limit (length (insert k v b.items)) (pos (length (insert k v b.items)))
unfolding check_limits
few-insert none b k v e w h = tt
few-insert (some m) b k v e w h =
    λ nonempty. ground (arith, length-insert k v b.items, has_key-length b.items k, w)

small-insert :
    (limit : Option ℤ) (b : MemoryBlob) (k : Text) (v : Bytes)
    → limit ≡ b.max_size
    → b.size ≡ pos (total b.items)
    → check_limits b (some k) (length v) ≡ ok tt
    → Within limit (length (insert k v b.items)) (pos (total (insert k v b.items)))
unfolding check_limits stored_length ◌+ℤ◌ ◌-ℤ◌
small-insert none b k v e c h = tt
small-insert (some m) b [] v e c h = λ nonempty. ground (arith, total-insert [] v b.items)
small-insert (some m) b (x ∷ k) v e c h = λ nonempty. ground (arith, total-insert (x ∷ k) v b.items)

put-IsValid_ok :
    (b : MemoryBlob) (k : Text) (v : Bytes)
    → IsValid b
    → check_limits b (some k) (length v) ≡ ok tt
    → IsValid
        (record b { size = size_after b (lookup k b.items) (length v); items = insert k v b.items })
put-IsValid_ok b k v w h = record {
  nodup = insert-NodupKeys k v b.items w.nodup;
  counted = size_after-insert b k v w.counted;
  few = few-insert b.max_objects b k v refl w.few h;
  small = small-insert b.max_size b k v refl w.counted h;
}

-- A smaller dictionary stays within the limits.
Within-le :
    (limit : Option ℤ) {n n' m m' : ℕ}
    → n' ≤ n
    → m' ≤ m
    → Within limit n (pos m)
    → Within limit n' (pos m')
Within-le none h k w = tt
Within-le (some x) h k w = λ nonempty. omega (arith, w)

total-remove-le : (k : Text) (d : Dict Bytes) → total (remove k d) ≤ total d
total-remove-le k d = omega (arith, total-remove k d)

delete-IsValid_ok :
    (b : MemoryBlob) (k : Text) (v : Bytes)
    → IsValid b
    → lookup k b.items ≡ some v
    → IsValid (record b { size = b.size -ℤ pos (length v); items = remove k b.items })
unfolding ◌-ℤ◌ stored_length
delete-IsValid_ok b k v w h = record {
  nodup = remove-NodupKeys k b.items w.nodup;
  counted = ground (arith, total-remove k b.items, w.counted);
  few = Within-le b.max_objects (length-remove-le k b.items) (length-remove-le k b.items) w.few;
  small = Within-le b.max_size (length-remove-le k b.items) (total-remove-le k b.items) w.small;
}

pub put-IsValid : (k : Text) (v : Bytes) (b : MemoryBlob) → IsValid b → IsValid (put k v b).1
unfolding put
put-IsValid k v b w = elim (Result-cases (check_limits b (some k) (length v))) [
  | inl (u, e) ↦ rw (e, put) (put-IsValid_ok b k v w e)
  | inr (x, e) ↦ rw (e, put) w
]

pub delete-IsValid : (k : Text) (b : MemoryBlob) → IsValid b → IsValid (delete k b).1
unfolding delete
delete-IsValid k b w = elim (Option-cases (lookup k b.items)) [
  | inl e ↦ rw (e, delete) w
  | inr (v, e) ↦ rw (e, delete) (delete-IsValid_ok b k v w e)
]

get-IsValid : (k : Text) (b : MemoryBlob) → IsValid b → IsValid (get k b).1
unfolding get
get-IsValid k b w = elim (Option-cases (lookup k b.items)) [
  | inl e ↦ rw (e, get) w
  | inr (v, e) ↦ rw (e, get) w
]

-- One call of a method. The lock makes each a single step, whatever threads make the calls.
pub data Call : Type 0 where
  put_call : Text → Bytes → Call
  get_call : Text → Call
  delete_call : Text → Call
  exists_call : Text → Call
  scan_call : Text → Call

unfoldable pub step : Call → MemoryBlob → MemoryBlob
unfolding put get delete exists scan
step (put_call k v) b = (put k v b).1
step (get_call k) b = (get k b).1
step (delete_call k) b = (delete k b).1
step (exists_call k) b = (exists k b).1
step (scan_call p) b = (scan p b).1

unfoldable pub run : List Call → MemoryBlob → MemoryBlob
unfolding step
run [] b = b
run (c ∷ cs) b = run cs (step c b)

step-IsValid : (c : Call) (b : MemoryBlob) → IsValid b → IsValid (step c b)
unfolding step
step-IsValid (put_call k v) b w = put-IsValid k v b w
step-IsValid (get_call k) b w = get-IsValid k b w
step-IsValid (delete_call k) b w = delete-IsValid k b w
step-IsValid (exists_call k) b w = w
step-IsValid (scan_call p) b w = w

-- Whatever calls are made on a valid store, in whatever order, the store stays valid: no key is
-- stored twice, the size counter is the sum of the value lengths, and each limit that is set bounds
-- the objects or the bytes unless the store is empty.
pub run-IsValid : (calls : List Call) (b : MemoryBlob) → IsValid b → IsValid (run calls b)
unfolding run
run-IsValid [] b w = w
run-IsValid (c ∷ cs) b w = run-IsValid cs (step c b) (step-IsValid c b w)
